-- ===== src/Tests/Stages.antt =====
-- A message whose bytes arrive in three pieces, with the first byte of the next one behind it.
use pd_bridge.Prelude.{ℕ, ◌≡◌, refl, Option, none, some, List, [], ◌∷◌, length}
use pd_bridge.OmlxBlock.Header.{pack_le}
use pd_bridge.OmlxBlock.Alignment.{range_of}
use pd_bridge.Stages.{Sock, Described, Header, Library, with_array, framed, send, recv, recv_exact}
use pd_bridge.Stages.Framing.{stream, recv-send}

-- a document is the field, and what describes an array
abbrev words : ℕ → Option Described → List ℕ
words n none = n ∷ []
words n (some d) = n ∷ d.dtype ∷ d.nbytes ∷ d.shape

abbrev read_words : List ℕ → Option (Header ℕ)
read_words [] = none
read_words (n ∷ []) = some (record { fields = n; described = none })
read_words (n ∷ t ∷ []) = none
read_words (n ∷ t ∷ size ∷ shape) =
    some
      (record { fields = n; described = some (record { shape = shape; dtype = t; nbytes = size }) })

read_words-words :
    (n : ℕ) (d : Option Described)
    → read_words (words n d) ≡ some (record { fields = n; described = d })
read_words-words n none = refl
read_words-words n (some d) = refl

abbrev library : Library ℕ (List ℕ)
library = record {
  dumps = λ header. words header.fields header.described;
  loads = read_words;
  shape_of = λ a. length a ∷ [];
  dtype_of = λ a. 0;
  tobytes = λ a. a;
  frombuffer = λ raw shape dtype. some raw;
}

abbrev plain_header : Header ℕ
plain_header = record { fields = 7; described = none }

abbrev message : List ℕ
message = 4 ∷ 0 ∷ 0 ∷ 0 ∷ 7 ∷ 0 ∷ 3 ∷ 3 ∷ 1 ∷ 2 ∷ 3 ∷ []

abbrev pieces_of_message : Sock
pieces_of_message = (4, 0 ∷ 0 ∷ []) ∷ (0, 7 ∷ 0 ∷ 3 ∷ 3 ∷ 1 ∷ []) ∷ (2, 3 ∷ 9 ∷ []) ∷ []

sends : send library plain_header (some (1 ∷ 2 ∷ 3 ∷ [])) ≡ some message
unfolding framed pack_le range_of
sends = refl

arrives : stream pieces_of_message ≡ 4 ∷ 0 ∷ 0 ∷ 0 ∷ 7 ∷ 0 ∷ 3 ∷ 3 ∷ 1 ∷ 2 ∷ 3 ∷ 9 ∷ []
unfolding stream
arrives = refl

recv-send_example :
    (rest : Sock) × (recv library pieces_of_message
      ≡ some
          ((with_array library plain_header (some (1 ∷ 2 ∷ 3 ∷ [])), some (1 ∷ 2 ∷ 3 ∷ [])), rest))
    × (stream rest ≡ 9 ∷ [])
recv-send_example =
    recv-send library plain_header (some (1 ∷ 2 ∷ 3 ∷ [])) message (9 ∷ []) pieces_of_message refl
      (λ h. read_words-words h.fields h.described) (λ a. refl) sends arrives

-- The peer closes before the message is whole.
stops_early : recv library ((4, 0 ∷ 0 ∷ []) ∷ []) ≡ none
unfolding recv_exact
stops_early = refl
