-- ===== src/Stages/Framing.antt =====
-- However the network cuts the bytes, a message is received as it was sent.
use mathlib.Core.Option.{some_inj}
use pd_bridge.Prelude.{
  ℕ, zero, suc, ◌-◌, ◌<◌, ◌≤◌, ◌≡◌, refl, Bool, true, false, if◌then◌else◌, ap, ◌∙◌, sym, Option,
  none, some, List, [], ◌∷◌, ◌++◌, leb, ltb, ltb→lt, Bool-cases, inl, inr, arith, length, take,
  drop, length-append, append_assoc, take-append, drop-append, take-append_le, drop-append_le,
}
use pd_bridge.OmlxBlock.Header.{pack_le}
use pd_bridge.OmlxBlock.Alignment.{unpack_le, range_of, unpack_le-pack_le, length-pack_le}
use pd_bridge.Stages.{
  Sock, put_back, behind, recv_exact, Header, Library, payload, with_array, framed, send,
  with_value, with_raw, recv_array, with_header, with_json, with_length, recv,
}

-- all bytes until the peer closes
unfoldable pub stream : Sock → List ℕ
stream [] = []
stream ((b, bs) ∷ sock) = (b ∷ bs) ++ stream sock

stream-put_back : (bs : List ℕ) (sock : Sock) → stream (put_back bs sock) ≡ bs ++ stream sock
unfolding stream
stream-put_back [] sock = refl
stream-put_back (b ∷ bs) sock = refl

module _ {A : Type 0} where
  take-append_ge :
      (n : ℕ) (xs ys : List A) → length xs ≤ n → take n (xs ++ ys) ≡ xs ++ take (n - length xs) ys
  take-append_ge n [] ys h = ap (λ m. take m ys) (let e : n ≡ n - 0 = omega arith in e)
  take-append_ge zero (x ∷ xs) ys h = absurd (omega (arith, h))
  take-append_ge (suc n) (x ∷ xs) ys h =
      ap (◌∷◌ x) (take-append_ge n xs ys (omega (arith, h)))
      ∙ ap (λ m. (x ∷ xs) ++ take m ys)
          (let e : n - length xs ≡ suc n - suc (length xs) = omega arith in e)

  drop-append_ge :
      (n : ℕ) (xs ys : List A) → length xs ≤ n → drop n (xs ++ ys) ≡ drop (n - length xs) ys
  drop-append_ge n [] ys h = ap (λ m. drop m ys) (let e : n ≡ n - 0 = omega arith in e)
  drop-append_ge zero (x ∷ xs) ys h = absurd (omega (arith, h))
  drop-append_ge (suc n) (x ∷ xs) ys h =
      drop-append_ge n xs ys (omega (arith, h))
      ∙ ap (λ m. drop m ys) (let e : n - length xs ≡ suc n - suc (length xs) = omega arith in e)

-- what a call of `_recv_exact` gives and what it leaves
abbrev Receives : ℕ → Sock → Type 0
Receives n sock =
    (rest : Sock) × (recv_exact n sock ≡ some (take n (stream sock), rest))
    × (stream rest ≡ drop n (stream sock))

recv_exact_lem : (n : ℕ) (sock : Sock) → n ≤ length (stream sock) → Receives n sock
unfolding recv_exact stream
recv_exact_lem zero sock h = (sock, refl, refl)
recv_exact_lem (suc n) [] h = absurd (omega (arith, h))
recv_exact_lem (suc n) ((b, bs) ∷ sock) h = elim (Bool-cases (leb n (length bs))) [
  | inl few ↦
      let le : n ≤ length bs = ground (arith, few) in
      (
        put_back (drop n bs) sock,
        rw few (
            ap (λ t. some (b ∷ t, put_back (drop n bs) sock))
              (sym (take-append_le n bs (stream sock) le))),
        stream-put_back (drop n bs) sock ∙ sym (drop-append_le n bs (stream sock) le),
      )
  | inr many ↦
      let ge : length bs ≤ n = ground (arith, many) in
      let (rest, got, left) =
        recv_exact_lem (n - length bs) sock (omega (arith, h, length-append bs (stream sock))) in
      (
        rest,
        rw many (
            ap (behind (b ∷ bs)) got
            ∙ ap (λ t. some (b ∷ t, rest)) (sym (take-append_ge n bs (stream sock) ge))),
        left ∙ sym (drop-append_ge n bs (stream sock) ge),
      )
]

module _ (bs more : List ℕ) (sock : Sock) (n : ℕ) where
  -- the next bytes, of a length that is known
  received :
      n ≡ length bs
      → stream sock ≡ bs ++ more
      → (rest : Sock) × (recv_exact n sock ≡ some (bs, rest)) × (stream rest ≡ more)
  received size all =
      let (rest, got, left) =
        recv_exact_lem n sock (omega (arith, ap length all, length-append bs more, size)) in
      (
        rest,
        got ∙ ap (λ t. some (t, rest)) (ap (take n) all ∙ take-append n bs more size),
        left ∙ ap (drop n) all ∙ drop-append n bs more size,
      )

module _ {A : Type 0} where
  is_chosen : (b : Bool) (x y : A) → (if b then some x else none) ≡ some y → (b ≡ true) × (x ≡ y)
  is_chosen true x y e = (refl, some_inj.0 e)
  is_chosen false x y e = absurd (cc e)

module _ {H A : Type 0} (lib : Library H A) where
  -- a frame that is sent has a document whose length fits into four bytes
  framed_eq :
      (h bytes frame : List ℕ)
      → framed lib h bytes ≡ some frame
      → (length h < range_of 4) × (pack_le 4 (length h) ++ (h ++ bytes) ≡ frame)
  unfolding framed
  framed_eq h bytes frame e =
      let (fits, eq) =
        is_chosen (ltb (length h) (range_of 4)) (pack_le 4 (length h) ++ (h ++ bytes)) frame e in
      (ltb→lt (length h) (range_of 4) fits, eq)

  -- the end of `recv`, where the document is known
  recv_array-whole :
      (header : Header H) (arr : Option A) (more : List ℕ) (sock : Sock)
      → header.described ≡ none
      → ((a : A) → lib.frombuffer (lib.tobytes a) (lib.shape_of a) (lib.dtype_of a) ≡ some a)
      → stream sock ≡ payload lib arr ++ more
      → (rest : Sock) × (recv_array lib
            (with_array lib header arr)
            sock
            (with_array lib header arr).described
          ≡ some ((with_array lib header arr, arr), rest))
        × (stream rest ≡ more)
  recv_array-whole header none more sock plain back all =
      (sock, ap (recv_array lib header sock) plain, all)
  recv_array-whole header (some a) more sock plain back all =
      let described = with_array lib header (some a) in
      let (rest, got, left) =
        received (lib.tobytes a) more sock (length (lib.tobytes a)) refl all in
      (
        rest,
        ap
              (with_raw lib described (record {
                shape = lib.shape_of a;
                dtype = lib.dtype_of a;
                nbytes = length (lib.tobytes a);
              }))
              got
            ∙ ap (with_value lib described rest) (back a),
        left,
      )

  -- For a library that reads back what it writes, and a header that does not itself describe an array: if `send` sends a
  -- message, `recv` gives its header and array and leaves what follows, in whatever pieces the bytes arrive.
  pub recv-send :
      (header : Header H) (arr : Option A) (frame more : List ℕ) (sock : Sock)
      → header.described ≡ none
      → ((h : Header H) → lib.loads (lib.dumps h) ≡ some h)
      → ((a : A) → lib.frombuffer (lib.tobytes a) (lib.shape_of a) (lib.dtype_of a) ≡ some a)
      → send lib header arr ≡ some frame
      → stream sock ≡ frame ++ more
      → (rest : Sock) × (recv lib sock ≡ some ((with_array lib header arr, arr), rest))
        × (stream rest ≡ more)
  recv-send header arr frame more sock plain read back sent all =
      let h = with_array lib header arr in
      let text = lib.dumps h in
      let size = pack_le 4 (length text) in
      let (fits, eq) = framed_eq text (payload lib arr) frame sent in
      let (rest1, got1, left1) =
        received size ((text ++ payload lib arr) ++ more) sock 4
          (sym (length-pack_le 4 (length text)))
          (all ∙ ap (λ f. f ++ more) (sym eq) ∙ append_assoc size (text ++ payload lib arr) more) in
      let (rest2, got2, left2) =
        received text (payload lib arr ++ more) rest1 (unpack_le size)
          (unpack_le-pack_le 4 (length text) fits)
          (left1 ∙ append_assoc text (payload lib arr) more) in
      let (rest3, got3, left3) = recv_array-whole header arr more rest2 plain back left2 in
      (
        rest3,
        ap (with_length lib) got1
            ∙ ap (with_json lib) got2
            ∙ ap (with_header lib rest2) (read h)
            ∙ got3,
        left3,
      )
