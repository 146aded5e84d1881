-- ===== src/Stages.antt =====
-- flashpp/net.py: the messages between two stages, each with a four-byte length, a JSON document and the bytes of an
-- array. `json.dumps`, `json.loads`, the bytes of an array and the array of some bytes are parameters.
pub mod Framing
use pd_bridge.Prelude.{
  ℕ, zero, suc, ◌-◌, Option, none, some, List, [], ◌∷◌, ◌++◌, ltb, leb, if◌then◌else◌, length, take,
  drop,
}
use pd_bridge.OmlxBlock.Header.{pack_le}
use pd_bridge.OmlxBlock.Alignment.{unpack_le, range_of}

-- What is still to be received: the bytes that a call of `sock.recv` finds, the first one and those behind it, and so on
-- until the peer closes. `sock.recv` gives nothing only then.
abbrev pub Sock : Type 0
Sock = List (ℕ × List ℕ)

-- a call of `sock.recv` that asks for fewer bytes leaves the others
abbrev pub put_back : List ℕ → Sock → Sock
put_back [] sock = sock
put_back (b ∷ bs) sock = (b, bs) ∷ sock

abbrev pub behind : List ℕ → Option (List ℕ × Sock) → Option (List ℕ × Sock)
behind bs none = none
behind bs (some (more, sock)) = some (bs ++ more, sock)

-- `_recv_exact`; none is the ConnectionError
unfoldable pub recv_exact : ℕ → Sock → Option (List ℕ × Sock)
recv_exact zero sock = some ([], sock)
recv_exact (suc n) [] = none
recv_exact (suc n) ((b, bs) ∷ sock) =
    let others = recv_exact (n - length bs) sock in
    if leb n (length bs)
    then some (b ∷ take n bs, put_back (drop n bs) sock)
    else behind (b ∷ bs) others

-- the keys that `send` adds for an array
pub record Described : Type 0 where
  pub shape : List ℕ
  pub dtype : ℕ
  pub nbytes : ℕ

pub record Header (H : Type 0) : Type 0 where
  pub fields : H
  pub described : Option Described

pub record Library (H A : Type 0) : Type 0 where
  pub dumps : Header H → List ℕ
  pub loads : List ℕ → Option (Header H)
  pub shape_of : A → List ℕ
  pub dtype_of : A → ℕ
  pub tobytes : A → List ℕ
  pub frombuffer : List ℕ → List ℕ → ℕ → Option A

module _ {H A : Type 0} (lib : Library H A) where
  abbrev pub payload : Option A → List ℕ
  payload none = []
  payload (some arr) = lib.tobytes arr

  abbrev pub with_array : Header H → Option A → Header H
  with_array header none = header
  with_array header (some arr) = record {
    fields = header.fields;
    described = some (record {
      shape = lib.shape_of arr;
      dtype = lib.dtype_of arr;
      nbytes = length (lib.tobytes arr);
    });
  }

  -- `struct.pack("<I", n)` raises where the number does not fit
  unfoldable pub framed : List ℕ → List ℕ → Option (List ℕ)
  framed h bytes =
      if ltb (length h) (range_of 4) then some (pack_le 4 (length h) ++ (h ++ bytes)) else none

  abbrev pub send : Header H → Option A → Option (List ℕ)
  send header arr = framed (lib.dumps (with_array header arr)) (payload arr)

  abbrev pub with_value : Header H → Sock → Option A → Option ((Header H × Option A) × Sock)
  with_value header sock none = none
  with_value header sock (some arr) = some ((header, some arr), sock)

  abbrev pub with_raw :
      Header H → Described → Option (List ℕ × Sock) → Option ((Header H × Option A) × Sock)
  with_raw header d none = none
  with_raw header d (some (raw, sock)) = with_value header sock (lib.frombuffer raw d.shape d.dtype)

  abbrev pub recv_array : Header H → Sock → Option Described → Option ((Header H × Option A) × Sock)
  recv_array header sock none = some ((header, none), sock)
  recv_array header sock (some d) = with_raw header d (recv_exact d.nbytes sock)

  abbrev pub with_header : Sock → Option (Header H) → Option ((Header H × Option A) × Sock)
  with_header sock none = none
  with_header sock (some header) = recv_array header sock header.described

  abbrev pub with_json : Option (List ℕ × Sock) → Option ((Header H × Option A) × Sock)
  with_json none = none
  with_json (some (text, sock)) = with_header sock (lib.loads text)

  abbrev pub with_length : Option (List ℕ × Sock) → Option ((Header H × Option A) × Sock)
  with_length none = none
  with_length (some (size, sock)) = with_json (recv_exact (unpack_le size) sock)

  abbrev pub recv : Sock → Option ((Header H × Option A) × Sock)
  recv sock = with_length (recv_exact 4 sock)
