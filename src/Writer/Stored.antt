-- ===== src/Writer/Stored.antt =====
-- Every snapshot that was taken in time ends up in the block of its tokens.
use mathlib.Core.Path.{subst}
use pd_bridge.Prelude.{
  ℕ, ◌≤◌, ◌≡◌, ◌≢◌, refl, ap, ◌∙◌, sym, true, ◌||◌, Option, none, some, List, [], ◌∷◌, ◌⊎◌, inl,
  inr, arith, length, take, length-take, if◌then◌else◌, ◌==◌, find, pop, find-pop_same,
  find-pop_other, Bool-cases, Option-cases, ==_iff,
}
use pd_bridge.Hook.Finish.Contents.{has}
use pd_bridge.Writer.{Writer, Store, one_stored, store_one, store_pending}

-- What is relied on of the store: the block of the tokens, and of those up to a boundary before, gets its snapshot; a block
-- for which no snapshot is handed over stays as it is.
pub record KeepsBlocks {S D : Type 0} (store : Store S D) (block_at : D → List ℕ → Option S)
    : Type 0 where
  pub own :
      (d d' : D) (ids : List ℕ) (s : S) (inter : List (ℕ × S))
      → store.store_cache d ids s inter ≡ some d'
      → block_at d' ids ≡ some s
  pub others :
      (d d' : D) (ids p : List ℕ) (s : S) (inter : List (ℕ × S))
      → store.store_cache d ids s inter ≡ some d'
      → p ≢ ids
      → find (length p) inter ≡ none
      → block_at d' p ≡ block_at d p

take-ne :
    (ids : List ℕ) (m n : ℕ) → m ≤ length ids → n ≤ length ids → m ≢ n → take m ids ≢ take n ids
take-ne ids m n hm hn ne e = ne (omega (arith, ap length e, length-take m ids, length-take n ids))

abbrev pub AllWithin : ℕ → List ℕ → Type 0
AllWithin T [] = 0 ≤ T
AllWithin T (n ∷ ns) = (n ≤ T) × AllWithin T ns

module _ {S D : Type 0} (store : Store S D) (ids : List ℕ) (tc : ℕ) where
  pub pop_gone :
      (n : ℕ) (m : List (ℕ × S)) → ((n ≡ tc) ⊎ (find tc m ≡ none)) → find tc (pop n m) ≡ none
  pop_gone n m (inl eq) = ap (λ k. find tc (pop k m)) eq ∙ find-pop_same tc m
  pop_gone n m (inr gone) = elim (Bool-cases (n == tc)) [
    | inl same ↦ ap (λ k. find tc (pop k m)) ((==_iff n tc).0 same) ∙ find-pop_same tc m
    | inr other ↦
        let ne : tc ≢ n = λ eq. ground (arith, other, eq, ==_iff n tc) in
        find-pop_other n tc m ne ∙ gone
  ]

  one_stored_gone :
      (n : ℕ) (w : Writer S D) (o : Option D)
      → ((n ≡ tc) ⊎ (find tc w.snapshots ≡ none))
      → find tc (one_stored w (pop n w.snapshots) o).0.snapshots ≡ none
  one_stored_gone n w none h = pop_gone n w.snapshots h
  one_stored_gone n w (some d) h = pop_gone n w.snapshots h

  one_gone :
      (n : ℕ) (w : Writer S D) (o : Option S)
      → find n w.snapshots ≡ o
      → ((n ≡ tc) ⊎ (find tc w.snapshots ≡ none))
      → find tc (store_one store ids n w o).0.snapshots ≡ none
  one_gone n w none e (inl eq) = ap (λ k. find k w.snapshots) (sym eq) ∙ e
  one_gone n w none e (inr gone) = gone
  one_gone n w (some a) e h = one_stored_gone n w (store.store_cache w.disk (take n ids) a []) h

  -- what an outcome of the loop says of its first round
  first_round :
      (n : ℕ) (tcs : List ℕ) (w : Writer S D)
      → (store_pending store ids (n ∷ tcs) w).1 ≡ true
      → ((store_one store ids n w (find n w.snapshots)).1 ≡ true)
        × (store_pending store ids (n ∷ tcs) w
            ≡ store_pending store ids tcs (store_one store ids n w (find n w.snapshots)).0)
  unfolding store_pending
  first_round n tcs w good =
      let r = store_one store ids n w (find n w.snapshots) in
      let rest = store_pending store ids tcs r.0 in
      elim (Bool-cases r.1) [
        | inl fine ↦ (fine, ap (λ b. if b then rest else r) fine)
        | inr bad ↦ absurd (cc (bad, ap (λ b. (if b then rest else r).1) bad, good))
      ]

  next_gone :
      (n : ℕ) (tcs : List ℕ) (w : Writer S D)
      → ((has tc (n ∷ tcs) ≡ true) ⊎ (find tc w.snapshots ≡ none))
      → (has tc tcs ≡ true)
        ⊎ (find tc (store_one store ids n w (find n w.snapshots)).0.snapshots ≡ none)
  next_gone n tcs w (inr gone) = inr (one_gone n w (find n w.snapshots) refl (inr gone))
  next_gone n tcs w (inl here) = elim (Bool-cases (n == tc)) [
    | inl same ↦ inr (one_gone n w (find n w.snapshots) refl (inl ((==_iff n tc).0 same)))
    | inr other ↦ inl (ap (λ b. b || has tc tcs) (sym other) ∙ here)
  ]

  pub pending_gone :
      (tcs : List ℕ) (w : Writer S D)
      → ((has tc tcs ≡ true) ⊎ (find tc w.snapshots ≡ none))
      → (store_pending store ids tcs w).1 ≡ true
      → find tc (store_pending store ids tcs w).0.snapshots ≡ none
  pending_gone [] w (inl bad) good = absurd (cc bad)
  pending_gone [] w (inr gone) good = unfold store_pending in gone
  pending_gone (n ∷ tcs) w h good =
      let o = find n w.snapshots in
      let (fine, eq) = first_round n tcs w good in
      let w' = (store_one store ids n w o).0 in
      ap (λ r. find tc r.0.snapshots) eq
      ∙ pending_gone tcs w' (next_gone n tcs w h) (ap (λ r. r.1) (sym eq) ∙ good)

module _ {S D : Type 0} (block_at : D → List ℕ → Option S) (ids : List ℕ) (tc : ℕ) (s : S) where
  abbrev pub IsWritten : List (ℕ × S) → D → Type 0
  IsWritten m d = (find tc m ≡ none) × (block_at d (take tc ids) ≡ some s)

  -- the snapshot of `tc` waits in the table, or is in its block
  abbrev pub IsKept : List (ℕ × S) → D → Type 0
  IsKept m d = (find tc m ≡ some s) ⊎ IsWritten m d

module _ {S D : Type 0} (store : Store S D) (block_at : D → List ℕ → Option S)
    (law : KeepsBlocks store block_at) (ids : List ℕ) (tc : ℕ) (within : tc ≤ length ids)
    (s : S) where
  -- one snapshot goes out of the table and into its block
  same_kept :
      (a : S) (m : List (ℕ × S)) (d d' : D)
      → find tc m ≡ some a
      → store.store_cache d (take tc ids) a [] ≡ some d'
      → IsKept block_at ids tc s m d
      → IsWritten block_at ids tc s (pop tc m) d'
  same_kept a m d d' found e (inl here) =
      (find-pop_same tc m, law.own d d' (take tc ids) a [] e ∙ sym found ∙ here)
  same_kept a m d d' found e (inr (gone, there)) = absurd (cc (gone, found))

  other-IsKept :
      (n : ℕ) (a : S) (m : List (ℕ × S)) (d d' : D)
      → n ≤ length ids
      → tc ≢ n
      → store.store_cache d (take n ids) a [] ≡ some d'
      → IsKept block_at ids tc s m d
      → IsKept block_at ids tc s (pop n m) d'
  unfolding find
  other-IsKept n a m d d' hn ne e (inl here) = inl (find-pop_other n tc m ne ∙ here)
  other-IsKept n a m d d' hn ne e (inr (gone, there)) = inr (
    find-pop_other n tc m ne ∙ gone,
    law.others d d' (take n ids) (take tc ids) a [] e (take-ne ids tc n within hn ne) refl ∙ there,
  )

  pub stored-IsKept :
      (n : ℕ) (a : S) (m : List (ℕ × S)) (d d' : D)
      → n ≤ length ids
      → find n m ≡ some a
      → store.store_cache d (take n ids) a [] ≡ some d'
      → IsKept block_at ids tc s m d
      → IsKept block_at ids tc s (pop n m) d'
  stored-IsKept n a m d d' hn found e kept = elim (Bool-cases (n == tc)) [
    | inl same ↦
        let eq : n ≡ tc = (==_iff n tc).0 same in
        subst (λ k. IsKept block_at ids tc s (pop k m) d') (sym eq)
          (inr (
            same_kept a m d d' (ap (λ k. find k m) (sym eq) ∙ found)
              (ap (λ k. store.store_cache d (take k ids) a []) (sym eq) ∙ e) kept))
    | inr other ↦
        let ne : tc ≢ n = λ eq. ground (arith, other, eq, ==_iff n tc) in
        other-IsKept n a m d d' hn ne e kept
  ]

  -- a round of the loop of `finalize`
  one-IsKept :
      (n : ℕ) (w : Writer S D) (o : Option S)
      → n ≤ length ids
      → find n w.snapshots ≡ o
      → IsKept block_at ids tc s w.snapshots w.disk
      → (store_one store ids n w o).1 ≡ true
      → IsKept block_at ids tc s
          (store_one store ids n w o).0.snapshots
          (store_one store ids n w o).0.disk
  one-IsKept n w none hn e kept good = kept
  one-IsKept n w (some a) hn e kept good =
      elim (Option-cases (store.store_cache w.disk (take n ids) a [])) [
        | inl fails ↦ absurd (cc (ap (λ o. (one_stored w (pop n w.snapshots) o).1) fails, good))
        | inr (d', stores) ↦ rw stores (stored-IsKept n a w.snapshots w.disk d' hn e stores kept)
      ]

  -- the whole loop, over boundaries within the prompt
  pub pending-IsKept :
      (tcs : List ℕ) (w : Writer S D)
      → AllWithin (length ids) tcs
      → IsKept block_at ids tc s w.snapshots w.disk
      → (store_pending store ids tcs w).1 ≡ true
      → IsKept block_at ids tc s
          (store_pending store ids tcs w).0.snapshots
          (store_pending store ids tcs w).0.disk
  pending-IsKept [] w h kept good = unfold store_pending in kept
  pending-IsKept (n ∷ tcs) w (hn, h) kept good =
      let o = find n w.snapshots in
      let (fine, eq) = first_round store ids tc n tcs w good in
      let w' = (store_one store ids n w o).0 in
      subst (λ r. IsKept block_at ids tc s r.0.snapshots r.0.disk) (sym eq)
        (pending-IsKept tcs w' h (one-IsKept n w o hn refl kept fine)
          (ap (λ r. r.1) (sym eq) ∙ good))
