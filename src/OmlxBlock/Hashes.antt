-- ===== src/OmlxBlock/Hashes.antt =====
-- `chain_hashes` of spark/pd_omlx_block.py. `sha256` is `hashlib.sha256(...).digest()`, the standard
-- library's, on everything that was fed to it by `update`.
use pd_bridge.Prelude.{
  ℕ, zero, suc, ◌+◌, ◌*◌, ◌/◌, Option, none, some, List, [], ◌∷◌, ◌++◌, map, length, take, drop,
}
use pd_bridge.OmlxBlock.Text.{codes, decimal, join, utf8}

-- str(tuple(ids)): a tuple of one element is written with a comma
unfoldable pub tuple_text : List ℕ → List ℕ
unfolding join decimal
tuple_text [] = codes "()"
tuple_text (t ∷ []) = b'(' ∷ (decimal t ++ codes ",)")
tuple_text (t ∷ u ∷ ts) = b'(' ∷ (join (codes ", ") (map decimal (t ∷ u ∷ ts)) ++ codes ")")

-- parent if parent else b"omlx-root"
unfoldable pub parent_or_root : Option (List ℕ) → List ℕ
parent_or_root none = codes "omlx-root"
parent_or_root (some []) = codes "omlx-root"
parent_or_root (some (b ∷ bs)) = b ∷ bs

-- What is hashed for one block.
unfoldable pub hash_input : List ℕ → Option (List ℕ) → List ℕ → List ℕ
unfolding utf8 tuple_text parent_or_root
hash_input model parent ids = utf8 model ++ (parent_or_root parent ++ tuple_text ids)

-- token_ids[i * block:(i + 1) * block]
unfoldable pub block_ids : ℕ → ℕ → List ℕ → List ℕ
block_ids block i ids = take block (drop (i * block) ids)

module _ (sha256 : List ℕ → List ℕ) (model : List ℕ) (block : ℕ) where
  -- the loop over `i`, with `n` rounds left
  unfoldable pub chain_from : ℕ → ℕ → Option (List ℕ) → List ℕ → List (List ℕ)
  unfolding hash_input block_ids
  chain_from zero i parent ids = []
  chain_from (suc n) i parent ids =
      let h = sha256 (hash_input model parent (block_ids block i ids)) in
      h ∷ chain_from n (i + 1) (some h) ids

  -- `block` is not 0: the source raises ZeroDivisionError there
  unfoldable pub chain_hashes : List ℕ → List (List ℕ)
  unfolding chain_from
  chain_hashes ids = chain_from (length ids / block) 0 none ids
