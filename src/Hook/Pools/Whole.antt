-- ===== src/Hook/Pools/Whole.antt =====
-- However the rows are cut into chunks, what is pooled and kept for the decoder is that of the whole.
use mathlib.Core.Path.{subst}
use pd_bridge.Prelude.{
  ℕ, zero, suc, ◌+◌, ◌-◌, ◌*◌, ◌/◌, ◌≤◌, ◌<◌, ◌≡◌, refl, ap, ◌∙◌, sym, Bool, true, false, ◌||◌,
  Option, none, some, List, [], ◌∷◌, ◌++◌, append-nil, append_assoc, arith, leb, ◌==◌, ==_self,
  le→leb, if◌then◌else◌, length, last_rows, joined, length-append, length-drop, drop_of_length-le,
  Bool-cases, inl, inr, div_unique,
}
use pd_bridge.Hook.Boundaries.{boundaries, boundaries_lem, boundaries-zero, range_list}
use pd_bridge.Hook.Windows.{kept, snap_all, new_tail}
use pd_bridge.Hook.Windows.Whole.{windows_at, snaps_step, new_tail_lem}
use pd_bridge.Hook.Pools.{
  PoolState, new_pool, prev_all, carried_over, add_pooled, with_prev, feed_pool, feed_each,
}
use pd_bridge.Pool.{Ops, Carry, pool_layer}
use pd_bridge.Pool.Calls.{after, whole}
use pd_bridge.Pool.Chunks.{added, whole-added, step, after-nil, whole-nil}

taken {ℓ} : {A : Type ℓ} (b d : Bool) (x y : A) → d ≡ true → (if b || d then x else y) ≡ x
taken true d x y h = refl
taken false d x y h = rw h refl

joined-snoc {ℓ} :
    {P : Type ℓ} (pss : List (List P)) (ps : List P) → joined (pss ++ (ps ∷ [])) ≡ joined pss ++ ps
joined-snoc [] ps = append-nil ps
joined-snoc (p ∷ pss) ps =
    ap (λ l. p ++ l) (joined-snoc pss ps) ∙ sym (append_assoc p (joined pss) ps)

module _ {A : Type 0} where
  -- where all rows are at hand, no window is left out
  prev_all_lem :
      (tail : Option (List A)) (x : List A) (start first by n : ℕ) (prev : List (ℕ × List A))
      → start + 4 ≤ first + length (kept tail)
      → prev_all tail x start (range_list first by n) prev
        ≡ snap_all 4 tail x start (range_list first by n) prev
  unfolding prev_all snap_all range_list
  prev_all_lem tail x start first by zero prev h = refl
  prev_all_lem tail x start first by (suc n) prev h =
      ap (prev_all tail x start (range_list (first + by) by n)) (
        taken (leb (start + 4) first) (leb (start + 4) (first + length (kept tail))) _ _
          (le→leb _ _ h))
      ∙ prev_all_lem tail x start (first + by) by n _ (omega arith)

module _ {A H P : Type 0} (ops : Ops A H P) (block r keep : ℕ) (pos : 0 < r) where
  abbrev pub expected_prev : List A → List (ℕ × List A)
  expected_prev xs = if r == 4 then windows_at 4 xs (boundaries block 0 (length xs)) else []

  -- What the rows `xs` leave behind, however they came.
  pub record PoolHolds (xs : List A) (s : PoolState A P) : Type 0 where
    pub pooled_eq : joined s.pooled ≡ whole ops r xs
    pub carry_eq : carried_over s.carry ≡ after r xs
    pub tail_eq : kept s.tail ≡ last_rows keep xs
    pub none_yet : s.tail ≡ none → xs ≡ []
    pub prev_eq : s.prev ≡ expected_prev xs
    pub next_eq : s.next_pos ≡ length xs
    pub rows_eq : s.rows ≡ length xs
    pub gaps_eq : s.gaps ≡ []

  pub joined-add_pooled :
      (new : List P) (pooled : List (List P))
      → joined (add_pooled new pooled) ≡ joined pooled ++ new
  joined-add_pooled [] pooled = sym (append-nil (joined pooled))
  joined-add_pooled (p ∷ ps) pooled = joined-snoc pooled (p ∷ ps)

  pub feed_pool_lem :
      (x : List A) (start : ℕ) (s : PoolState A P) (new : List P) (carry : Carry A)
      → pool_layer ops r r x start (carried_over s.carry) ≡ some (new, carry)
      → feed_pool ops block r keep x start s ≡ (
        record (with_prev ops block r keep x start s) {
          pooled = add_pooled new s.pooled;
          carry = some carry;
          tail = some (new_tail keep s.tail x);
          next_pos = start + length x;
          rows = s.rows + length x;
        },
        true,
      )
  unfolding feed_pool
  feed_pool_lem x start s new carry h = ground arith

  abbrev pub grown : List A → List A → PoolState A P → PoolState A P
  grown xs x s = record (with_prev ops block r keep x s.next_pos s) {
    pooled = add_pooled (added ops r pos xs x) s.pooled;
    carry = some (after r (xs ++ x));
    tail = some (new_tail keep s.tail x);
    next_pos = s.next_pos + length x;
    rows = s.rows + length x;
  }

  pub feed_pool-grown :
      (xs x : List A) (s : PoolState A P)
      → PoolHolds xs s
      → feed_pool ops block r keep x s.next_pos s ≡ (grown xs x s, true)
  feed_pool-grown xs x s h =
      feed_pool_lem x s.next_pos s (added ops r pos xs x) (after r (xs ++ x)) (
        ap (λ k. pool_layer ops r r x k (carried_over s.carry)) h.next_eq
        ∙ ap (pool_layer ops r r x (length xs)) h.carry_eq
        ∙ step ops r pos xs x)

  module _ (enough : 4 ≤ keep) (large : 4 ≤ block) where
    prev_step :
        (xs x : List A) (tail : Option (List A))
        → kept tail ≡ last_rows keep xs
        → prev_all tail x
            (length xs)
            (boundaries block (length xs) (length xs + length x))
            (windows_at 4 xs (boundaries block 0 (length xs)))
          ≡ windows_at 4 (xs ++ x) (boundaries block 0 (length (xs ++ x)))
    prev_step xs x tail h =
        let lo = length xs in
        let hi = length xs + length x in
        let first = (lo / block + 1) * block in
        let new = range_list first block (hi / block - lo / block) in
        let bs = boundaries_lem block lo hi (omega arith) (omega arith) in
        let size : length (kept tail) ≡ length xs - (length xs - keep) =
          ap length h ∙ length-drop (length xs - keep) xs in
        let far : length xs + 1 ≤ first = omega (arith, large) in
        let wide : 4 ≤ first = omega (arith, large) in
        ap (λ l. prev_all tail x lo l (windows_at 4 xs (boundaries block 0 lo))) bs
        ∙ prev_all_lem tail x lo first block (hi / block - lo / block) _
            (omega (arith, size, far, wide, enough))
        ∙ ap (λ l. snap_all 4 tail x lo l (windows_at 4 xs (boundaries block 0 lo))) (sym bs)
        ∙ snaps_step block 4 (omega arith) keep tail xs x enough h

    prev_lem :
        (xs x : List A) (s : PoolState A P)
        → PoolHolds xs s
        → (grown xs x s).prev ≡ expected_prev (xs ++ x)
    prev_lem xs x s h = elim (Bool-cases (r == 4)) [
      | inl four ↦
          let old : s.prev ≡ windows_at 4 xs (boundaries block 0 (length xs)) =
            h.prev_eq ∙ rw four refl in
          rw four (
            ap (λ p. prev_all s.tail x p (boundaries block p (p + length x)) s.prev) h.next_eq
            ∙ ap
                (prev_all s.tail x (length xs)
                  (boundaries block (length xs) (length xs + length x)))
                old
            ∙ prev_step xs x s.tail h.tail_eq)
      | inr other ↦ let none_old : s.prev ≡ [] = h.prev_eq ∙ rw other refl in rw other none_old
    ]

    pub grown-PoolHolds :
        (xs x : List A) (s : PoolState A P) → PoolHolds xs s → PoolHolds (xs ++ x) (grown xs x s)
    grown-PoolHolds xs x s h = record {
      pooled_eq =
          joined-add_pooled (added ops r pos xs x) s.pooled
          ∙ ap (λ l. l ++ added ops r pos xs x) h.pooled_eq
          ∙ whole-added ops r pos xs x;
      carry_eq = refl;
      tail_eq = new_tail_lem keep s.tail xs x h.tail_eq h.none_yet;
      none_yet = λ e. absurd (cc e);
      prev_eq = prev_lem xs x s h;
      next_eq = omega (arith, h.next_eq, length-append xs x);
      rows_eq = omega (arith, h.rows_eq, length-append xs x);
      gaps_eq = rw (==_self s.next_pos) h.gaps_eq;
    }

    pub feed_each_cons :
        (x : List A) (chunks : List (List A)) (s s' : PoolState A P)
        → feed_pool ops block r keep x s.next_pos s ≡ (s', true)
        → feed_each ops block r keep (x ∷ chunks) s ≡ feed_each ops block r keep chunks s'
    unfolding feed_each
    feed_each_cons x chunks s s' h =
        ap (λ p. let others = feed_each ops block r keep chunks p.0 in if p.1 then others else none)
          h

    feed_each-PoolHolds :
        (chunks : List (List A)) (xs : List A) (s : PoolState A P)
        → PoolHolds xs s
        → (t : PoolState A P) × ((feed_each ops block r keep chunks s ≡ some t)
            × PoolHolds (xs ++ joined chunks) t)
    unfolding feed_each
    feed_each-PoolHolds [] xs s h = (s, (refl, subst (λ l. PoolHolds l s) (sym (append-nil xs)) h))
    feed_each-PoolHolds (x ∷ chunks) xs s h =
        let (t, (run, holds)) =
          feed_each-PoolHolds chunks (xs ++ x) (grown xs x s) (grown-PoolHolds xs x s h) in
        (
          t,
          (
            feed_each_cons x chunks s _ (feed_pool-grown xs x s h) ∙ run,
            subst (λ l. PoolHolds l t) (append_assoc xs x (joined chunks)) holds,
          ),
        )

    no_prev : [] ≡ expected_prev []
    unfolding range_list
    no_prev = elim (Bool-cases (r == 4)) [
      | inl four ↦ rw four (
          sym (
            ap (windows_at 4 []) (
              boundaries-zero block 0 (omega arith)
              ∙ ap (range_list block block) (
                  let z : 0 / block ≡ 0 =
                    div_unique 0 0 block (omega arith) (omega arith) (omega (arith, large)) in
                  z))))
      | inr other ↦ rw other refl
    ]

    pub new-PoolHolds : PoolHolds [] (new_pool A P)
    unfolding range_list
    new-PoolHolds = record {
      pooled_eq = sym (whole-nil ops r pos);
      carry_eq = after-nil ops r pos;
      tail_eq = sym (drop_of_length-le (0 - keep) [] (omega arith));
      none_yet = λ _. refl;
      prev_eq = no_prev;
      next_eq = refl;
      rows_eq = refl;
      gaps_eq = refl;
    }

    -- If the layer's ratio is positive and block size and kept rows are at least four: feeding the rows
    -- of a layer in any chunks, each where the last one ended, never fails, and what is left is the
    -- pooled rows of all complete windows of the whole, the carry of the whole, the last rows, and for
    -- ratio 4 the four rows before every block boundary, in order and nothing else.
    pub feed_each-whole :
        (chunks : List (List A))
        → (t : PoolState A P) × ((feed_each ops block r keep chunks (new_pool A P) ≡ some t)
            × PoolHolds (joined chunks) t)
    feed_each-whole chunks = feed_each-PoolHolds chunks [] (new_pool A P) new-PoolHolds
