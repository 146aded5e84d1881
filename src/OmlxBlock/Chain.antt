-- ===== src/OmlxBlock/Chain.antt =====
-- What the chain of block hashes says about the tokens.
use pd_bridge.Prelude.{
  div_le, ℕ, zero, suc, ◌+◌, ◌-◌, ◌*◌, ◌/◌, ◌≤◌, ◌<◌, ◌≡◌, refl, ap, ◌∙◌, Option, none, some, List,
  ◌∷◌, ◌++◌, arith, length, take, drop, length-append, take-append_le, drop-append_le, length-drop,
}
use pd_bridge.OmlxBlock.Hashes.{chain_hashes, chain_from, block_ids, hash_input}

block_ids-append :
    (block i : ℕ) (ids more : List ℕ)
    → (i + 1) * block ≤ length ids
    → block_ids block i (ids ++ more) ≡ block_ids block i ids
unfolding block_ids
block_ids-append block i ids more h =
    let start : i * block ≤ length ids = omega arith in
    ap (take block) (drop-append_le (i * block) ids more start)
    ∙ take-append_le block (drop (i * block) ids) more (
        let e : block ≤ length (drop (i * block) ids) =
          omega (arith, length-drop (i * block) ids) in
        e)

div_split : (b m n : ℕ) → 0 < b → m ≤ n → n / b ≡ m / b + (n / b - m / b)
div_split b m n pos h =
    let le : m / b ≤ n / b =
      div_le b (m / b) (n / b) m n (omega (arith, pos)) (omega (arith, pos)) h in
    omega (arith, le)

module _ (sha256 : List ℕ → List ℕ) (model : List ℕ) (block : ℕ) where
  length-chain_from :
      (n i : ℕ) (parent : Option (List ℕ)) (ids : List ℕ)
      → length (chain_from sha256 model block n i parent ids) ≡ n
  unfolding chain_from
  length-chain_from zero i parent ids = refl
  length-chain_from (suc n) i parent ids = ap suc (length-chain_from n (i + 1) _ ids)

  chain_from-append :
      (n m i : ℕ) (parent : Option (List ℕ)) (ids more : List ℕ)
      → (i + n) * block ≤ length ids
      → take n (chain_from sha256 model block (n + m) i parent (ids ++ more))
        ≡ chain_from sha256 model block n i parent ids
  unfolding chain_from
  chain_from-append zero m i parent ids more h = refl
  chain_from-append (suc n) m i parent ids more h =
      let same = block_ids-append block i ids more (omega arith) in
      let hash : List ℕ → List ℕ = λ b. sha256 (hash_input model parent b) in
      ap (λ k. take (suc n) (chain_from sha256 model block k i parent (ids ++ more)))
        (let e : suc n + m ≡ suc (n + m) = omega arith in e)
      ∙ ap
          (λ b.
            hash b
            ∷ take n (chain_from sha256 model block (n + m) (i + 1) (some (hash b)) (ids ++ more)))
          same
      ∙ ap (◌∷◌ (hash (block_ids block i ids))) (
          chain_from-append n m (i + 1) (some (hash (block_ids block i ids))) ids more
            (omega arith))

  -- There is one hash for every full block.
  pub length-chain_hashes :
      (ids : List ℕ) → length (chain_hashes sha256 model block ids) ≡ length ids / block
  unfolding chain_hashes
  length-chain_hashes ids = length-chain_from (length ids / block) 0 none ids

  -- If the block size is positive, then the hashes of a prompt are the first hashes of every prompt that
  -- continues it.
  pub chain_hashes-append :
      (ids more : List ℕ)
      → 0 < block
      → take (length ids / block) (chain_hashes sha256 model block (ids ++ more))
        ≡ chain_hashes sha256 model block ids
  unfolding chain_hashes
  chain_hashes-append ids more pos =
      let n = length ids / block in
      let longer = length-append ids more in
      let whole : (0 + n) * block ≤ length ids = omega (arith, pos) in
      let split : length (ids ++ more) / block ≡ n + (length (ids ++ more) / block - n) =
        div_split block (length ids) (length (ids ++ more)) pos (omega (arith, longer)) in
      ap (λ k. take n (chain_from sha256 model block k 0 none (ids ++ more))) split
      ∙ chain_from-append n (length (ids ++ more) / block - n) 0 none ids more whole
