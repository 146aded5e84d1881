-- ===== src/OmlxBlock/Header.antt =====
-- `header` of spark/pd_omlx_block.py: the JSON header of a block file, with its length prefix.
use pd_bridge.Prelude.{
  ℕ, zero, suc, ◌+◌, ◌-◌, ◌*◌, ◌/◌, ◌%◌, List, [], ◌∷◌, ◌++◌, length, replicate,
}
use pd_bridge.OmlxBlock.Text.{codes, decimal, join, hex, json_string, json_array}

-- struct.pack("<Q", n): eight bytes, the lowest first
unfoldable pub pack_le : ℕ → ℕ → List ℕ
pack_le zero n = []
pack_le (suc k) n = (n % 256) ∷ pack_le k (n / 256)

-- "key": value
abbrev pub entry : List ℕ → List ℕ → List ℕ
entry key value = json_string key ++ (b':' ∷ value)

-- separators (",", ":")
abbrev pub object : List (List ℕ) → List ℕ
object entries = b'{' ∷ (join (codes ",") entries ++ codes "}")

-- layer_{i}_state_{s}
unfoldable pub state_name : ℕ → ℕ → List ℕ
state_name i s = codes "layer_" ++ (decimal i ++ (codes "_state_" ++ decimal s))

module _ (n_kv block head_dim : ℕ) where
  -- the bytes of one tensor: bfloat16 is two bytes
  unfoldable pub per : ℕ
  per = n_kv * block * head_dim * 2

  unfoldable pub tensor_entry : ℕ → ℕ → ℕ → List ℕ
  unfolding per state_name
  tensor_entry i s off = entry (state_name i s) (
      object (
        entry (codes "dtype") (json_string (codes "BF16"))
        ∷ entry (codes "shape") (
            json_array (codes ",")
              (codes "1" ∷ decimal n_kv ∷ decimal block ∷ decimal head_dim ∷ []))
        ∷ entry (codes "data_offsets")
            (json_array (codes ",") (decimal off ∷ decimal (off + per) ∷ []))
        ∷ []))

  -- the loop over the layers, keys then values, with `n` layers left
  unfoldable pub tensor_entries : ℕ → ℕ → ℕ → List (List ℕ)
  unfolding tensor_entry
  tensor_entries zero i off = []
  tensor_entries (suc n) i off =
      tensor_entry i 0 off
      ∷ tensor_entry i 1 (off + per)
      ∷ tensor_entries n (i + 1) (off + per + per)

  -- `off` after that loop
  unfoldable pub data_len : ℕ → ℕ → ℕ
  unfolding per
  data_len zero off = off
  data_len (suc n) off = data_len n (off + per + per)

-- "layer_{i}_state_count": "2"
unfoldable pub state_counts : ℕ → ℕ → List (List ℕ)
state_counts zero i = []
state_counts (suc n) i =
    entry (codes "layer_" ++ (decimal i ++ codes "_state_count")) (json_string (codes "2"))
    ∷ state_counts n (i + 1)

abbrev pub layout_name : List ℕ
layout_name = codes "split_recurrent_v1"

-- json.dumps(payload, sort_keys=True, separators=(",", ":"))
unfoldable pub cache_signature : List ℕ → ℕ → ℕ → List ℕ
cache_signature model n_layers block = object (
    entry (codes "block_size") (decimal block)
    ∷ entry (codes "layer_cache_types")
        (json_array (codes ",") (replicate n_layers (json_string (codes "KVCache"))))
    ∷ entry (codes "model_name") (json_string model)
    ∷ entry (codes "num_layers") (decimal n_layers)
    ∷ entry (codes "payload_layout") (json_string layout_name)
    ∷ [])

-- The `__metadata__` object; `created_at` is the text that the source makes of the time.
unfoldable pub metadata : List ℕ → List ℕ → ℕ → ℕ → List ℕ → List ℕ
unfolding cache_signature state_counts
metadata block_hash model n_layers block created_at = object (
    (entry (codes "omlx_cache_format_version") (json_string (codes "5"))
      ∷ entry (codes "block_hash") (json_string (hex block_hash))
      ∷ entry (codes "token_count") (json_string (decimal block))
      ∷ entry (codes "num_layers") (json_string (decimal n_layers))
      ∷ entry (codes "model_name") (json_string model)
      ∷ entry (codes "block_size") (json_string (decimal block))
      ∷ entry (codes "cache_signature") (json_string (cache_signature model n_layers block))
      ∷ entry (codes "payload_layout") (json_string layout_name)
      ∷ entry (codes "created_at") (json_string created_at)
      ∷ entry (codes "layer_cache_types") (
          json_string
            (json_array (codes ", ") (replicate n_layers (json_string (codes "KVCache")))))
      ∷ entry (codes "layer_meta_states")
          (json_string (json_array (codes ", ") (replicate n_layers (codes "[]"))))
      ∷ [])
    ++ state_counts n_layers 0)

-- b" " * ((8 - len(js) % 8) % 8)
unfoldable pub padding : ℕ → List ℕ
padding len = replicate ((8 - len % 8) % 8) b' '

unfoldable pub document : List ℕ → List ℕ → ℕ → ℕ → ℕ → ℕ → List ℕ → List ℕ
unfolding tensor_entries metadata
document block_hash model n_layers n_kv block head_dim created_at = object (
    tensor_entries n_kv block head_dim n_layers 0 0
    ++ (entry (codes "__metadata__") (metadata block_hash model n_layers block created_at) ∷ []))

-- The length prefix and the padded header, and the number of tensor bytes that follow.
unfoldable pub header : List ℕ → List ℕ → ℕ → ℕ → ℕ → ℕ → List ℕ → List ℕ × ℕ
unfolding document padding data_len pack_le
header block_hash model n_layers n_kv block head_dim created_at =
    let js = document block_hash model n_layers n_kv block head_dim created_at in
    let padded = js ++ padding (length js) in
    (pack_le 8 (length padded) ++ padded, data_len n_kv block head_dim n_layers 0)
