-- ===== src/KvReturn/Resume/Carries.antt =====
-- The carry that is made of saved rows is the one that pooling all rows before leaves.
use pd_bridge.Prelude.{
  ℕ, zero, suc, ◌+◌, ◌-◌, ◌*◌, ◌/◌, ◌%◌, ◌≤◌, ◌<◌, ◌≡◌, refl, ap, ◌∙◌, sym, none, some, List, arith,
  ltb, leb, ◌==◌, ==_iff, if◌then◌else◌, length, drop, take, slice, last_rows, length-drop,
  drop-drop, Bool-cases, inl, inr, le→leb, lt→leb-false, slice-drop,
}
use pd_bridge.Pool.{windows, last_of, unless_empty}
use pd_bridge.Pool.Windows.{unless_empty_lem}
use pd_bridge.Pool.Calls.{after}
use pd_bridge.KvReturn.Resume.{seed_carry, seed_buf, seed_prev, from_end}

some_unless {ℓ} :
    {B : Type ℓ} (n : ℕ) (b : B)
    → (if n == 0 then none else some b) ≡ (if ltb 0 n then some b else none)
some_unless n b = ground arith

module _ {A : Type 0} where
  -- the last of some windows
  last_of-windows :
      (r k : ℕ) (xs : List A) → last_of (windows r (suc k) xs) ≡ some (take r (drop (k * r) xs))
  unfolding windows last_of
  last_of-windows r zero xs =
      ap (λ j. some (take r (drop j xs))) (let e : 0 ≡ 0 * r = omega arith in e)
  last_of-windows r (suc k) xs =
      last_of-windows r k (drop r xs)
      ∙ ap (λ l. some (take r l))
          (drop-drop (k * r) r xs
            ∙ ap (λ j. drop j xs) (let e : r + k * r ≡ suc k * r = omega arith in e))

  -- rows counted from the end, in the last rows and in all
  drop-last_rows :
      (n keep : ℕ) (xs : List A)
      → n ≤ keep
      → n ≤ length xs
      → drop (from_end (length (last_rows keep xs)) n) (last_rows keep xs) ≡ drop (length xs - n) xs
  drop-last_rows n keep xs h le =
      let l = length-drop (length xs - keep) xs in
      ap (λ j. drop j (last_rows keep xs))
        (ap
          (λ b.
            if b
            then length (last_rows keep xs) - n
            else length (last_rows keep xs) - (n - length (last_rows keep xs)))
          (le→leb n (length (last_rows keep xs)) (omega (arith, l, h, le))))
      ∙ drop-drop (length (last_rows keep xs) - n) (length xs - keep) xs
      ∙ ap (λ j. drop j xs) (omega (arith, l, h, le))

  module _ (r keep : ℕ) (pos : 0 < r) (xs : List A) where
    abbrev S : ℕ
    S = length xs

    rem_eq : S % r ≡ S - S / r * r
    rem_eq = omega (arith, pos)

    buf_eq : r ≤ keep → seed_buf (S % r) (last_rows keep xs) ≡ unless_empty (drop (S / r * r) xs)
    buf_eq h =
        let rem = S % r in
        some_unless rem (drop (from_end (length (last_rows keep xs)) rem) (last_rows keep xs))
        ∙ ap (λ l. if ltb 0 rem then some l else none)
            (drop-last_rows rem keep xs (omega (arith, h, rem_eq, pos)) (omega (arith, rem_eq))
              ∙ ap (λ j. drop j xs) (omega (arith, rem_eq, pos)))
        ∙ unless_empty_lem (drop (S / r * r) xs) rem
            (omega (arith, rem_eq, pos, length-drop (S / r * r) xs))

    -- a window of the saved rows
    saved_window :
        (k : ℕ)
        → r ≡ 4
        → S / r ≡ suc k
        → r + 4 ≤ keep
        → slice
            (from_end (length (last_rows keep xs)) (S % r + 4))
            (from_end (length (last_rows keep xs)) (S % r))
            (last_rows keep xs)
          ≡ take r (drop (k * r) xs)
    saved_window k four q h =
        let rem = S % r in
        let n = length (last_rows keep xs) in
        let l = length-drop (length xs - keep) xs in
        let whole : S / r * r ≡ suc k * r = ap (λ t. t * r) q in
        let long : rem + 4 ≤ n = omega (arith, l, four, whole, rem_eq, pos, h) in
        ap
          (λ b.
            slice (if b then n - (rem + 4) else n - (rem + 4 - n)) (from_end n rem)
              (last_rows keep xs))
          (le→leb (rem + 4) n long)
        ∙ ap (λ b. slice (n - (rem + 4)) (if b then n - rem else n - (rem - n)) (last_rows keep xs))
            (le→leb rem n (omega (arith, long)))
        ∙ slice-drop (n - (rem + 4)) (n - rem) (length xs - keep) (k * r) (k * r + r) xs
            (omega (arith, l, four, whole, rem_eq, pos, h))
            (omega (arith, l, four, whole, rem_eq, pos, h))
        ∙ ap (λ j. take j (drop (k * r) xs)) (let e : k * r + r - k * r ≡ r = omega arith in e)

    prev_four :
        (q : ℕ)
        → r ≡ 4
        → S / r ≡ q
        → r + 4 ≤ keep
        → (if leb 4 (S - S % r)
            then some (
                slice
                  (from_end (length (last_rows keep xs)) (S % r + 4))
                  (from_end (length (last_rows keep xs)) (S % r))
                  (last_rows keep xs))
            else none)
          ≡ last_of (windows r q xs)
    unfolding windows last_of
    prev_four zero four q h =
        let none_yet : S / r * r ≡ 0 * r = ap (λ t. t * r) q in
        rw (lt→leb-false 4 (S - S % r) (omega (arith, none_yet, rem_eq, pos))) refl
    prev_four (suc k) four q h =
        let whole : S / r * r ≡ suc k * r = ap (λ t. t * r) q in
        rw (le→leb 4 (S - S % r) (omega (arith, whole, four, rem_eq, pos)))
          (ap some (saved_window k four q h) ∙ sym (last_of-windows r k xs))

    prev_eq :
        r + 4 ≤ keep
        → seed_prev r S (S % r) (last_rows keep xs)
          ≡ (if r == 4 then last_of (windows r (S / r) xs) else none)
    prev_eq h = elim (Bool-cases (r == 4)) [
      | inl four ↦ rw four (prev_four (S / r) ((==_iff r 4).0 four) refl h)
      | inr other ↦ rw other refl
    ]

    -- For a positive ratio, and if at least a window and four rows more are kept: the carry that is made of the last rows of a
    -- sequence is the one that pooling the whole sequence leaves.
    pub seed_carry-after : r + 4 ≤ keep → seed_carry r (some (last_rows keep xs)) S ≡ after r xs
    unfolding seed_carry
    seed_carry-after h = cc (buf_eq (omega (arith, h)), prev_eq h)
