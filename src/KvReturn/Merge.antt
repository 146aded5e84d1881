-- ===== src/KvReturn/Merge.antt =====
-- The merged file is the one that a capture from the start would have.
use pd_bridge.Prelude.{
  ℕ, zero, suc, ◌+◌, ◌-◌, ◌*◌, ◌/◌, ◌<◌, ◌≤◌, ◌≡◌, refl, ap, ◌∙◌, sym, some, List, [], ◌∷◌, ◌++◌,
  append-nil, le→leb, lt→leb-false, ◌==◌, length, length-append, take, take-append, Below, arith,
}
use mathlib.Core.List.{map-append}
use pd_bridge.Hook.Boundaries.{
  boundaries, boundaries_lem, boundaries-append, boundaries-zero, range_list,
}
use pd_bridge.Hook.Windows.Whole.{window, windows_at, windows_at-append, windows_at-Below}
use pd_bridge.Pool.{Ops, indexed, windows}
use pd_bridge.Pool.Windows.{length-windows, length-pooled, length-map}
use pd_bridge.Pool.Calls.{whole}
use pd_bridge.Pool.Chunks.{added, whole-added}
use pd_bridge.KvReturn.{keep_le, keep_gt, merge_windows, merge_pooled}

module _ {A : Type 0} where
  keep_le-append : (S : ℕ) (m m' : List (ℕ × A)) → keep_le S (m ++ m') ≡ keep_le S m ++ keep_le S m'
  unfolding keep_le
  keep_le-append S [] m' = refl
  keep_le-append S ((b, a) ∷ m) m' = let ih = keep_le-append S m m' in ground (arith, ih)

  keep_le-Below : (S : ℕ) (m : List (ℕ × A)) → Below (S + 1) m → keep_le S m ≡ m
  unfolding keep_le
  keep_le-Below S [] h = refl
  keep_le-Below S ((b, a) ∷ m) (lt, h) =
      rw (le→leb b S (omega (arith, lt))) (ap (◌∷◌ (b, a)) (keep_le-Below S m h))

module _ {V : Type 0} (win S : ℕ) where
  keep_le-behind :
      (xs : List V) (first step n : ℕ)
      → S < first
      → keep_le S (windows_at win xs (range_list first step n)) ≡ []
  unfolding keep_le range_list
  keep_le-behind xs first step zero h = refl
  keep_le-behind xs first step (suc n) h =
      rw (lt→leb-false first S h) (keep_le-behind xs (first + step) step n (omega (arith, h)))

  keep_gt-behind :
      (xs : List V) (first step n : ℕ)
      → S < first
      → keep_gt S (windows_at win xs (range_list first step n))
        ≡ windows_at win xs (range_list first step n)
  unfolding keep_gt range_list
  keep_gt-behind xs first step zero h = refl
  keep_gt-behind xs first step (suc n) h = rw (lt→leb-false first S h) (
      ap (◌∷◌ (first, window win first xs))
        (keep_gt-behind xs (first + step) step n (omega (arith, h))))

module _ {V : Type 0} (win block : ℕ) (pos : 0 < block) where
  kept_windows :
      (xs zs ys : List V)
      → keep_le (length xs) (windows_at win (xs ++ zs) (boundaries block 0 (length (xs ++ zs))))
        ≡ windows_at win (xs ++ ys) (boundaries block 0 (length xs))
  kept_windows xs zs ys =
      let S = length xs in
      let n = length (xs ++ zs) in
      let size : S ≤ n = omega (arith, length-append xs zs) in
      let old = range_list block block (S / block) in
      let later = range_list ((S / block + 1) * block) block (n / block - S / block) in
      let at : List ℕ → List (ℕ × List V) = windows_at win (xs ++ zs) in
      let none_later : keep_le S (at later) ≡ [] =
        keep_le-behind win S (xs ++ zs) ((S / block + 1) * block) block (n / block - S / block)
          (omega (arith, pos)) in
      let all_old : keep_le S (at old) ≡ at old =
        keep_le-Below S (at old)
          (windows_at-Below win (xs ++ zs) block block (S / block) S (omega (arith, pos))) in
      ap (λ bs. keep_le S (at bs))
        (sym (boundaries-append block 0 S n pos (omega arith) size)
          ∙ ap (λ l. l ++ boundaries block S n) (boundaries-zero block S pos)
          ∙ ap (λ l. old ++ l) (boundaries_lem block S n pos size))
      ∙ ap (keep_le S) (map-append (λ (b : ℕ). (b, window win b (xs ++ zs))) old later)
      ∙ keep_le-append S (at old) (at later)
      ∙ ap (λ l. keep_le S (at old) ++ l) none_later
      ∙ append-nil (keep_le S (at old))
      ∙ all_old
      ∙ windows_at-append win xs zs block block (S / block) (omega (arith, pos))
      ∙ sym (windows_at-append win xs ys block block (S / block) (omega (arith, pos)))
      ∙ ap (windows_at win (xs ++ ys)) (sym (boundaries-zero block S pos))

  new_windows :
      (xs ys : List V)
      → keep_gt
          (length xs)
          (windows_at win (xs ++ ys) (boundaries block (length xs) (length (xs ++ ys))))
        ≡ windows_at win (xs ++ ys) (boundaries block (length xs) (length (xs ++ ys)))
  new_windows xs ys =
      let S = length xs in
      let n = length (xs ++ ys) in
      let b = boundaries_lem block S n pos (omega (arith, length-append xs ys)) in
      ap (λ bs. keep_gt S (windows_at win (xs ++ ys) bs)) b
      ∙ keep_gt-behind win S (xs ++ ys) ((S / block + 1) * block) block (n / block - S / block)
          (omega (arith, pos))
      ∙ ap (windows_at win (xs ++ ys)) (sym b)

  -- For a positive block size: if the parent holds the windows of rows that begin with `xs`, and the resumed capture those behind
  -- `xs` of the rows that continue `xs` with `ys`, the merged windows are those of `xs` and `ys` from
  -- the start.
  pub merge_windows-whole :
      (xs zs ys : List V)
      → merge_windows
          (length xs)
          (windows_at win (xs ++ zs) (boundaries block 0 (length (xs ++ zs))))
          (windows_at win (xs ++ ys) (boundaries block (length xs) (length (xs ++ ys))))
        ≡ windows_at win (xs ++ ys) (boundaries block 0 (length (xs ++ ys)))
  merge_windows-whole xs zs ys =
      let S = length xs in
      let n = length (xs ++ ys) in
      let size : S ≤ n = omega (arith, length-append xs ys) in
      ap (λ l. l ++ keep_gt S (windows_at win (xs ++ ys) (boundaries block S n)))
        (kept_windows xs zs ys)
      ∙ ap (λ l. windows_at win (xs ++ ys) (boundaries block 0 S) ++ l) (new_windows xs ys)
      ∙ sym (
          map-append (λ (b : ℕ). (b, window win b (xs ++ ys))) (boundaries block 0 S)
            (boundaries block S n))
      ∙ ap (windows_at win (xs ++ ys)) (boundaries-append block 0 S n pos (omega arith) size)

length-indexed {ℓ κ} :
    {A : Type ℓ} {B : Type κ} (f : ℕ → A → B) (i : ℕ) (xs : List A)
    → length (indexed f i xs) ≡ length xs
unfolding indexed
length-indexed f i [] = refl
length-indexed f i (x ∷ xs) = ap suc (length-indexed f (i + 1) xs)

module _ {A H P : Type 0} (ops : Ops A H P) (r : ℕ) (pos : 0 < r) where
  open ops use {norm, rotate}

  pub length-whole : (xs : List A) → length (whole ops r xs) ≡ length xs / r
  length-whole xs =
      length-indexed rotate 0 _
      ∙ length-map norm _
      ∙ length-pooled ops (r == 4) (windows r (length xs / r) xs)
      ∙ length-windows r (length xs / r) xs

  -- For a positive ratio: if the parent holds the pooled rows of rows that begin with `xs`, and the resumed capture those that
  -- pooling `ys` behind `xs` adds, the merged pooled rows are those of `xs` and `ys` from the start.
  pub merge_pooled-whole :
      (xs zs ys : List A)
      → merge_pooled (length xs) r (some (whole ops r (xs ++ zs))) (some (added ops r pos xs ys))
        ≡ some (whole ops r (xs ++ ys))
  unfolding merge_pooled
  merge_pooled-whole xs zs ys =
      ap (λ l. some (take (length xs / r) l ++ added ops r pos xs ys))
        (sym (whole-added ops r pos xs zs))
      ∙ ap (λ l. some (l ++ added ops r pos xs ys))
          (take-append (length xs / r) (whole ops r xs) (added ops r pos xs zs)
            (sym (length-whole xs)))
      ∙ ap some (whole-added ops r pos xs ys)
