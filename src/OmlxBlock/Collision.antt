-- ===== src/OmlxBlock/Collision.antt =====
-- Two prompts with a block hash in common at one place have all tokens up to that block in common, or
-- else a collision of SHA-256 is at hand.
use pd_bridge.Prelude.{
  ℕ, zero, suc, ◌+◌, ◌*◌, ◌/◌, ◌≤◌, ◌<◌, ◌≡◌, ◌≢◌, ◌⊎◌, inl, inr, refl, ap, ◌∙◌, sym, Option, none,
  some, List, [], ◌∷◌, ◌++◌, arith, ◌==◌, ==_iff, Bool-cases, false, length, take, drop, get_elem?,
  length-drop, length-take, take_add, append-split, drop-drop,
}
use pd_bridge.OmlxBlock.Hashes.{chain_hashes, chain_from, block_ids, hash_input, parent_or_root}
use pd_bridge.OmlxBlock.Text.{utf8}
use pd_bridge.OmlxBlock.Decimal.{tuple_text-inj}

-- What is hashed for a block of the one prompt and for the same block of the other: two different texts
-- with one hash.
pub record Collision (sha256 : List ℕ → List ℕ) (model : List ℕ) (block : ℕ) (ids jds : List ℕ)
    : Type 0 where
  pub at : ℕ
  pub parent_one : Option (List ℕ)
  pub parent_two : Option (List ℕ)
  pub same_hash :
      sha256 (hash_input model parent_one (block_ids block at ids))
      ≡ sha256 (hash_input model parent_two (block_ids block at jds))
  pub different :
      hash_input model parent_one (block_ids block at ids)
      ≢ hash_input model parent_two (block_ids block at jds)

heads_differ : (x y : ℕ) (xs ys : List ℕ) → (x == y) ≡ false → x ∷ xs ≡ y ∷ ys → ⊥
heads_differ x y xs ys other e = absurd (let h : x ≡ y = cc e in ground arith)

texts_dec : (xs ys : List ℕ) → (xs ≡ ys) ⊎ (xs ≢ ys)
texts_dec [] [] = inl refl
texts_dec [] (y ∷ ys) = inr (λ e. cc e)
texts_dec (x ∷ xs) [] = inr (λ e. cc e)
texts_dec (x ∷ xs) (y ∷ ys) = elim (Bool-cases (x == y)) [
  | inr other ↦ inr (λ e. absurd (heads_differ x y xs ys other e))
  | inl same ↦ elim (texts_dec xs ys) [
    | inl rest ↦ inl (cc ((==_iff x y).0 same, rest))
    | inr rest ↦ inr (λ e. rest (ap (drop 1) e))
  ]
]

-- the hash itself, unless it is empty
parent_eq : (h : List ℕ) → length h ≡ 32 → parent_or_root (some h) ≡ h
unfolding parent_or_root
parent_eq [] l = absurd (omega arith)
parent_eq (c ∷ cs) l = refl

length-block_ids :
    (block i : ℕ) (ids : List ℕ)
    → (i + 1) * block ≤ length ids
    → length (block_ids block i ids) ≡ block
unfolding block_ids
length-block_ids block i ids h =
    omega (arith, length-take block (drop (i * block) ids), length-drop (i * block) ids)

hash_input-inj :
    (model : List ℕ) (p q : Option (List ℕ)) (ids jds : List ℕ)
    → length (parent_or_root p) ≡ length (parent_or_root q)
    → length ids ≡ length jds
    → hash_input model p ids ≡ hash_input model q jds
    → (parent_or_root p ≡ parent_or_root q) × (ids ≡ jds)
unfolding hash_input
hash_input-inj model p q ids jds hp hl h =
    let (models, others) = append-split (utf8 model) _ (utf8 model) _ refl h in
    let (parents, texts) = append-split (parent_or_root p) _ (parent_or_root q) _ hp others in
    (parents, tuple_text-inj ids jds hl texts)

-- the slices of the blocks `i`, …, `i + n - 1` of two prompts are equal
abbrev AreSame : ℕ → ℕ → ℕ → List ℕ → List ℕ → Type 0
AreSame block i n ids jds =
    take (n * block) (drop (i * block) ids) ≡ take (n * block) (drop (i * block) jds)

one-AreSame :
    (block i : ℕ) (ids jds : List ℕ)
    → block_ids block i ids ≡ block_ids block i jds
    → AreSame block i 1 ids jds
unfolding block_ids
one-AreSame block i ids jds h =
    let b : 1 * block ≡ block = omega arith in
    ap (λ k. take k (drop (i * block) ids)) b ∙ h ∙ ap (λ k. take k (drop (i * block) jds)) (sym b)

first_and_rest :
    (block i n : ℕ) (ids : List ℕ)
    → take (suc n * block) (drop (i * block) ids)
      ≡ take block (drop (i * block) ids) ++ take (n * block) (drop ((i + 1) * block) ids)
first_and_rest block i n ids =
    ap (λ k. take k (drop (i * block) ids))
      (let e : suc n * block ≡ block + n * block = omega arith in e)
    ∙ take_add block (n * block) (drop (i * block) ids)
    ∙ ap (λ t. take block (drop (i * block) ids) ++ take (n * block) t)
        (drop-drop block (i * block) ids
          ∙ ap (λ k. drop k ids) (let e : i * block + block ≡ (i + 1) * block = omega arith in e))

more-AreSame :
    (block i n : ℕ) (ids jds : List ℕ)
    → block_ids block i ids ≡ block_ids block i jds
    → AreSame block (i + 1) n ids jds
    → AreSame block i (suc n) ids jds
unfolding block_ids
more-AreSame block i n ids jds h more =
    first_and_rest block i n ids ∙ cc (h, more) ∙ sym (first_and_rest block i n jds)

module _ (sha256 : List ℕ → List ℕ) (width : (x : List ℕ) → length (sha256 x) ≡ 32) (model : List ℕ)
    (block : ℕ) where
  -- one link of the chain
  link :
      (i : ℕ) (p q : Option (List ℕ)) (ids jds : List ℕ)
      → length (parent_or_root p) ≡ length (parent_or_root q)
      → (i + 1) * block ≤ length ids
      → (i + 1) * block ≤ length jds
      → sha256 (hash_input model p (block_ids block i ids))
        ≡ sha256 (hash_input model q (block_ids block i jds))
      → ((parent_or_root p ≡ parent_or_root q) × (block_ids block i ids ≡ block_ids block i jds))
        ⊎ Collision sha256 model block ids jds
  link i p q ids jds hp li lj h =
      let one = hash_input model p (block_ids block i ids) in
      let two = hash_input model q (block_ids block i jds) in
      elim (texts_dec one two) [
        | inl same ↦ inl (
            hash_input-inj model p q (block_ids block i ids) (block_ids block i jds) hp
              (length-block_ids block i ids li ∙ sym (length-block_ids block i jds lj)) same)
        | inr other ↦
            inr
              (record { at = i; parent_one = p; parent_two = q; same_hash = h; different = other })
      ]

  -- a hash in common at the place `k` of two chains from `i` on
  chain-AreSame :
      (k n m i : ℕ) (p q : Option (List ℕ)) (ids jds : List ℕ)
      → length (parent_or_root p) ≡ length (parent_or_root q)
      → k < n
      → k < m
      → (i + n) * block ≤ length ids
      → (i + m) * block ≤ length jds
      → get_elem? (chain_from sha256 model block n i p ids) k
        ≡ get_elem? (chain_from sha256 model block m i q jds) k
      → ((parent_or_root p ≡ parent_or_root q) × AreSame block i (suc k) ids jds)
        ⊎ Collision sha256 model block ids jds
  unfolding chain_from
  chain-AreSame k zero m i p q ids jds hp kn km li lj h = absurd (omega arith)
  chain-AreSame k (suc n) zero i p q ids jds hp kn km li lj h = absurd (omega arith)
  chain-AreSame zero (suc n) (suc m) i p q ids jds hp kn km li lj h =
      elim (link i p q ids jds hp (omega arith) (omega arith) (cc h)) [
        | inl (parents, same) ↦ inl (parents, one-AreSame block i ids jds same)
        | inr c ↦ inr c
      ]
  chain-AreSame (suc k) (suc n) (suc m) i p q ids jds hp kn km li lj h =
      let a = sha256 (hash_input model p (block_ids block i ids)) in
      let b = sha256 (hash_input model q (block_ids block i jds)) in
      let a32 = parent_eq a (width _) in
      let b32 = parent_eq b (width _) in
      elim (chain-AreSame k n m (i + 1) (some a) (some b) ids jds
        (ap length a32 ∙ width _ ∙ sym (width _) ∙ sym (ap length b32)) (omega arith) (omega arith)
        (omega arith) (omega arith) h) [
          | inr c ↦ inr c
          | inl (parents, more) ↦
              elim (link i p q ids jds hp (omega arith) (omega arith) (sym a32 ∙ parents ∙ b32)) [
                | inr c ↦ inr c
                | inl (earlier, same) ↦
                    inl (earlier, more-AreSame block i (suc k) ids jds same more)
              ]
        ]

  -- If hashes are 32 bytes long, the block size is positive and two prompts both have a block `k` with one and
  -- the same hash, then they agree on all tokens up to the end of that block, or what
  -- is hashed for one of their blocks are two different texts with one SHA-256 hash.
  pub chain_hashes-AreSame :
      (k : ℕ) (ids jds : List ℕ)
      → 0 < block
      → k < length ids / block
      → k < length jds / block
      → get_elem? (chain_hashes sha256 model block ids) k
        ≡ get_elem? (chain_hashes sha256 model block jds) k
      → (take (suc k * block) ids ≡ take (suc k * block) jds) ⊎ Collision sha256 model block ids jds
  unfolding chain_hashes
  chain_hashes-AreSame k ids jds pos hk hl h =
      elim (chain-AreSame k (length ids / block) (length jds / block) 0 none none ids jds refl hk hl
        (omega (arith, pos)) (omega (arith, pos)) h) [
          | inl (roots, same) ↦ inl (
              ap (λ z. take (suc k * block) (drop z ids)) (let e : 0 ≡ 0 * block = omega arith in e)
              ∙ same
              ∙ ap (λ z. take (suc k * block) (drop z jds))
                  (let e : 0 * block ≡ 0 = omega arith in e))
          | inr c ↦ inr c
        ]
