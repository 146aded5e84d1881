-- ===== src/OmlxBlock/Alignment.antt =====
-- The header's bytes: its length prefix, its padding, and where it says that the tensors are.
use mathlib.Core.Path.{subst}
use pd_bridge.Prelude.{
  ℕ, zero, suc, ◌+◌, ◌-◌, ◌*◌, ◌/◌, ◌%◌, ◌<◌, ◌≡◌, refl, ap, ◌∙◌, sym, some, List, [], ◌∷◌, ◌++◌,
  arith, length, take, drop, get_elem?, length-append, length-replicate, take-append, drop-append,
}
use pd_bridge.OmlxBlock.Header.{
  pack_le, padding, document, data_len, header, per, tensor_entry, tensor_entries,
}

-- struct.unpack("<Q", bs), for any number of bytes
unfoldable pub unpack_le : List ℕ → ℕ
unpack_le [] = 0
unpack_le (b ∷ bs) = b + 256 * unpack_le bs

-- 256 ^ k
unfoldable pub range_of : ℕ → ℕ
range_of zero = 1
range_of (suc k) = 256 * range_of k

pub length-pack_le : (k n : ℕ) → length (pack_le k n) ≡ k
unfolding pack_le
length-pack_le zero n = refl
length-pack_le (suc k) n = ap suc (length-pack_le k (n / 256))

-- A number below 256 ^ k is read back from the k bytes that it is packed into.
pub unpack_le-pack_le : (k n : ℕ) → n < range_of k → unpack_le (pack_le k n) ≡ n
unfolding unpack_le pack_le range_of
unpack_le-pack_le zero n h = omega arith
unpack_le-pack_le (suc k) n h = omega (arith, unpack_le-pack_le k (n / 256) (omega arith))

padded : (len : ℕ) → (len + length (padding len)) % 8 ≡ 0
unfolding padding
padded len = omega (arith, length-replicate {A = ℕ} ((8 - len % 8) % 8) b' ')

data_len_eq :
    (n_kv block head_dim n off : ℕ)
    → data_len n_kv block head_dim n off ≡ off + n * (2 * per n_kv block head_dim)
unfolding data_len
data_len_eq n_kv block head_dim zero off = omega arith
data_len_eq n_kv block head_dim (suc n) off =
    data_len_eq n_kv block head_dim n (off + per n_kv block head_dim + per n_kv block head_dim)
    ∙ omega arith

-- A header in front of a file's tensors: eight bytes that say how long the rest is, a JSON document
-- with blanks behind it, all of it a multiple of eight bytes.
pub record IsHeader (js hdr : List ℕ) : Type 0 where
  pub prefix : unpack_le (take 8 hdr) ≡ length (drop 8 hdr)
  pub body : drop 8 hdr ≡ js ++ padding (length js)
  pub aligned : length hdr % 8 ≡ 0

per_all :
    (n_kv block head_dim n : ℕ)
    → 0 + n * (2 * per n_kv block head_dim) ≡ 2 * n * n_kv * block * head_dim * 2
unfolding per
per_all n_kv block head_dim n = omega arith

framed :
    (js : List ℕ)
    → length js + length (padding (length js)) < range_of 8
    → IsHeader js (pack_le 8 (length (js ++ padding (length js))) ++ (js ++ padding (length js)))
framed js h =
    let body = js ++ padding (length js) in
    let n = length-append js (padding (length js)) in
    let p = length-pack_le 8 (length body) in
    let after : drop 8 (pack_le 8 (length body) ++ body) ≡ body =
      drop-append 8 (pack_le 8 (length body)) body (sym p) in
    record {
      prefix =
          ap unpack_le (take-append 8 (pack_le 8 (length body)) body (sym p))
          ∙ unpack_le-pack_le 8 (length body) (subst (λ m. m < range_of 8) (sym n) h)
          ∙ sym (ap length after);
      body = after;
      aligned =
          omega (arith, length-append (pack_le 8 (length body)) body, p, n, padded (length js));
    }

pub header-data :
    (block_hash model : List ℕ) (n_layers n_kv block head_dim : ℕ) (created_at : List ℕ)
    → (header block_hash model n_layers n_kv block head_dim created_at).1
      ≡ 2 * n_layers * n_kv * block * head_dim * 2
unfolding header
header-data block_hash model n_layers n_kv block head_dim created_at =
    data_len_eq n_kv block head_dim n_layers 0 ∙ per_all n_kv block head_dim n_layers

-- If the document with its padding is shorter than 2 ^ 64 bytes, then `header` gives a well-formed
-- header of that document, and two bytes for every element of the keys and the values of all layers.
pub header_lem :
    (block_hash model : List ℕ) (n_layers n_kv block head_dim : ℕ) (created_at : List ℕ)
    → length (document block_hash model n_layers n_kv block head_dim created_at)
        + length
            (padding (length (document block_hash model n_layers n_kv block head_dim created_at)))
      < range_of 8
    → IsHeader
        (document block_hash model n_layers n_kv block head_dim created_at)
        (header block_hash model n_layers n_kv block head_dim created_at).0
      × ((header block_hash model n_layers n_kv block head_dim created_at).1
          ≡ 2 * n_layers * n_kv * block * head_dim * 2)
unfolding header
header_lem block_hash model n_layers n_kv block head_dim created_at h = (
  framed (document block_hash model n_layers n_kv block head_dim created_at) h,
  data_len_eq n_kv block head_dim n_layers 0 ∙ per_all n_kv block head_dim n_layers,
)

at_entry :
    (n_kv block head_dim i j off off' s : ℕ)
    → i ≡ j
    → off ≡ off'
    → some (tensor_entry n_kv block head_dim i s off)
      ≡ some (tensor_entry n_kv block head_dim j s off')
at_entry n_kv block head_dim i j off off' s hi ho = cc

-- For a layer `i` below the number of layers left and `s` at most 1, the entry `2 i + s` describes that
-- layer's keys (0) or values (1), at the offset of the `2 i + s` tensors before it.
pub get_elem?-tensor_entries :
    (n_kv block head_dim n i0 off i s : ℕ)
    → i < n
    → s < 2
    → get_elem? (tensor_entries n_kv block head_dim n i0 off) (2 * i + s)
      ≡ some (
          tensor_entry n_kv block head_dim (i0 + i) s (off + (2 * i + s) * per n_kv block head_dim))
unfolding tensor_entries
get_elem?-tensor_entries n_kv block head_dim zero i0 off i s h t = absurd (omega arith)
get_elem?-tensor_entries n_kv block head_dim (suc n) i0 off zero zero h t =
    at_entry n_kv block head_dim i0 (i0 + 0) off _ 0 (omega arith) (omega arith)
get_elem?-tensor_entries n_kv block head_dim (suc n) i0 off zero (suc zero) h t =
    at_entry n_kv block head_dim i0 (i0 + 0) _ _ 1 (omega arith) (omega arith)
get_elem?-tensor_entries n_kv block head_dim (suc n) i0 off zero (suc (suc s)) h t =
    absurd (omega arith)
get_elem?-tensor_entries n_kv block head_dim (suc n) i0 off (suc i) s h t =
    let d = per n_kv block head_dim in
    ap (get_elem? (tensor_entries n_kv block head_dim (suc n) i0 off))
      (let e : 2 * suc i + s ≡ suc (suc (2 * i + s)) = omega arith in e)
    ∙ get_elem?-tensor_entries n_kv block head_dim n (i0 + 1) (off + d + d) i s (omega arith) t
    ∙ at_entry n_kv block head_dim (i0 + 1 + i) (i0 + suc i) (off + d + d + (2 * i + s) * d)
        (off + (2 * suc i + s) * d) s (omega arith) (omega arith)
