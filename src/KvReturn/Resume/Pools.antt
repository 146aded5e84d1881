-- ===== src/KvReturn/Resume/Pools.antt =====
-- The pooled rows of a capture that goes on, merged with those of the earlier one, are those of a capture from the start.
use mathlib.Core.Path.{subst}
use pd_bridge.Prelude.{
  ℕ, ◌+◌, ◌/◌, ◌≤◌, ◌<◌, ◌≡◌, refl, ap, ◌∙◌, sym, true, none, some, List, [], ◌∷◌, ◌++◌, append-nil,
  append_assoc, arith, ==_self, if◌then◌else◌, length, last_rows, take, joined, length-append,
  take-append,
}
use pd_bridge.Hook.Pools.{
  PoolState, new_pool, carried_over, add_pooled, with_prev, feed_pool, feed_each, cat_pooled,
}
use pd_bridge.Hook.Pools.Whole.{feed_pool_lem, joined-add_pooled}
use pd_bridge.Hook.Windows.{new_tail}
use pd_bridge.Pool.{Ops, pool_layer}
use pd_bridge.Pool.Calls.{after, whole}
use pd_bridge.Pool.Chunks.{added, whole-added, step}
use pd_bridge.KvReturn.{merge_pooled}
use pd_bridge.KvReturn.Merge.{length-whole}
use pd_bridge.KvReturn.Resume.{seed_pool}
use pd_bridge.KvReturn.Resume.Carries.{seed_carry-after}

module _ {A H P : Type 0} (ops : Ops A H P) (block r keep : ℕ) (pos : 0 < r) where
  -- A pool that went on behind the rows `xs` and has seen `all` in the meantime.
  record PoolContinues (xs all : List A) (s : PoolState A P) : Type 0 where
    pooled_eq : whole ops r xs ++ joined s.pooled ≡ whole ops r all
    carry_eq : carried_over s.carry ≡ after r all
    next_eq : s.next_pos ≡ length all
    gaps_eq : s.gaps ≡ []

  abbrev fed : List A → List A → PoolState A P → PoolState A P
  fed all x s = record (with_prev ops block r keep x s.next_pos s) {
    pooled = add_pooled (added ops r pos all x) s.pooled;
    carry = some (after r (all ++ x));
    tail = some (new_tail keep s.tail x);
    next_pos = s.next_pos + length x;
    rows = s.rows + length x;
  }

  feed-fed :
      (xs all x : List A) (s : PoolState A P)
      → PoolContinues xs all s
      → feed_pool ops block r keep x s.next_pos s ≡ (fed all x s, true)
  feed-fed xs all x s h =
      feed_pool_lem ops block r keep pos x s.next_pos s (added ops r pos all x) (after r (all ++ x))
        (ap (λ k. pool_layer ops r r x k (carried_over s.carry)) h.next_eq
          ∙ ap (pool_layer ops r r x (length all)) h.carry_eq
          ∙ step ops r pos all x)

  fed-PoolContinues :
      (xs all x : List A) (s : PoolState A P)
      → PoolContinues xs all s
      → PoolContinues xs (all ++ x) (fed all x s)
  fed-PoolContinues xs all x s h = record {
    pooled_eq =
        ap (λ l. whole ops r xs ++ l)
          (joined-add_pooled ops block r keep pos (added ops r pos all x) s.pooled)
        ∙ sym (append_assoc (whole ops r xs) (joined s.pooled) (added ops r pos all x))
        ∙ ap (λ l. l ++ added ops r pos all x) h.pooled_eq
        ∙ whole-added ops r pos all x;
    carry_eq = refl;
    next_eq = omega (arith, h.next_eq, length-append all x);
    gaps_eq = rw (==_self s.next_pos) h.gaps_eq;
  }

  each-PoolContinues :
      (chunks : List (List A)) (xs all : List A) (s : PoolState A P)
      → PoolContinues xs all s
      → (t : PoolState A P) × (feed_each ops block r keep chunks s ≡ some t)
        × PoolContinues xs (all ++ joined chunks) t
  unfolding feed_each
  each-PoolContinues [] xs all s h =
      (s, refl, subst (λ l. PoolContinues xs l s) (sym (append-nil all)) h)
  each-PoolContinues (x ∷ chunks) xs all s h =
      let (t, run, holds) =
        each-PoolContinues chunks xs (all ++ x) (fed all x s) (fed-PoolContinues xs all x s h) in
      (
        t,
        ap (λ p. let others = feed_each ops block r keep chunks p.0 in if p.1 then others else none)
              (feed-fed xs all x s h)
            ∙ run,
        subst (λ l. PoolContinues xs l t) (append_assoc all x (joined chunks)) holds,
      )

  seeded-PoolContinues :
      (reach : ℕ) (xs : List A)
      → r + 4 ≤ reach
      → PoolContinues xs xs
          (seed_pool r keep (some (last_rows reach xs)) (length xs) (new_pool A P))
  unfolding seed_pool
  seeded-PoolContinues reach xs h = record {
    pooled_eq = append-nil (whole ops r xs);
    carry_eq = seed_carry-after r reach pos xs h;
    next_eq = refl;
    gaps_eq = refl;
  }

  first_rows : (xs zs : List A) → take (length xs / r) (whole ops r (xs ++ zs)) ≡ whole ops r xs
  first_rows xs zs =
      ap (take (length xs / r)) (sym (whole-added ops r pos xs zs))
      ∙ take-append (length xs / r) (whole ops r xs) (added ops r pos xs zs)
          (sym (length-whole ops r pos xs))

  merged_rows :
      (xs zs : List A) (pooled : List (List P))
      → merge_pooled (length xs) r (some (whole ops r (xs ++ zs))) (cat_pooled pooled)
        ≡ some (whole ops r xs ++ joined pooled)
  unfolding merge_pooled
  merged_rows xs zs [] = ap some (first_rows xs zs ∙ sym (append-nil (whole ops r xs)))
  merged_rows xs zs (p ∷ ps) = ap (λ l. some (l ++ joined (p ∷ ps))) (first_rows xs zs)

  -- For a positive ratio, and saved rows that reach back at least a window and four rows from the position of the resumption: a
  -- new layer that is seeded with them and fed the further rows in any chunks pools them without a failed assertion, notes no
  -- gap, and its pooled rows, merged with those of the earlier capture, are those of all rows from the start.
  pub resumed-pooled :
      (xs zs : List A) (chunks : List (List A)) (reach : ℕ)
      → r + 4 ≤ reach
      → (t : PoolState A P) × (feed_each ops block r keep chunks
            (seed_pool r keep (some (last_rows reach xs)) (length xs) (new_pool A P))
          ≡ some t)
        × (merge_pooled (length xs) r (some (whole ops r (xs ++ zs))) (cat_pooled t.pooled)
            ≡ some (whole ops r (xs ++ joined chunks)))
        × (t.gaps ≡ [])
  resumed-pooled xs zs chunks reach h =
      let (t, run, holds) =
        each-PoolContinues chunks xs xs
          (seed_pool r keep (some (last_rows reach xs)) (length xs) (new_pool A P))
          (seeded-PoolContinues reach xs h) in
      (t, run, merged_rows xs zs t.pooled ∙ ap some holds.pooled_eq, holds.gaps_eq)
