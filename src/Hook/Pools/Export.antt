-- ===== src/Hook/Pools/Export.antt =====
-- What `_PoolState.export` writes for the end of the prompt is what the carry holds there.
use mathlib.Core.Path.{subst}
use pd_bridge.Prelude.{
  joined, ℕ, zero, suc, ◌+◌, ◌-◌, ◌*◌, ◌/◌, ◌%◌, ◌≤◌, ◌<◌, ◌≡◌, refl, ap, ◌∙◌, sym, Bool, true,
  false, Option, none, some, List, [], ◌∷◌, arith, ◌==◌, ==_iff, le→leb, lt→leb-false,
  if◌then◌else◌, length, take, drop, last_rows, drop-drop, drop_of_length-le, slice-drop,
  Bool-cases, inl, inr, length-drop,
}
use pd_bridge.Hook.Windows.{kept}
use pd_bridge.Hook.Pools.{PoolState, Exported, end_rows, end_buf, cat_pooled, export_pool}
use pd_bridge.Hook.Pools.Whole.{PoolHolds, expected_prev}
use pd_bridge.Pool.{Ops, Carry, windows, last_of, unless_empty}
use pd_bridge.Pool.Calls.{after, whole}
use pd_bridge.Pool.Chunks.{after-nil}

module _ {ℓ} {A : Type ℓ} where
  -- the rows of an exported tensor, none if it was not written
  abbrev pub rows_of : Option (List A) → List A
  rows_of none = []
  rows_of (some rows) = rows

rows_of-cat_pooled {ℓ} : {P : Type ℓ} (pss : List (List P)) → rows_of (cat_pooled pss) ≡ joined pss
rows_of-cat_pooled [] = refl
rows_of-cat_pooled (ps ∷ pss) = refl

module _ {A : Type 0} where
  last_of_cons : (x : A) (xs : List A) → 0 < length xs → last_of (x ∷ xs) ≡ last_of xs
  unfolding last_of
  last_of_cons x [] h = absurd (omega arith)
  last_of_cons x (y ∷ ys) h = refl

module _ {A : Type 0} where
  unless_empty_lem : (xs : List A) → 0 < length xs → some xs ≡ unless_empty xs
  unless_empty_lem [] h = absurd (omega arith)
  unless_empty_lem (x ∷ xs) h = refl

  length-windows-suc : (r n : ℕ) (xs : List A) → 0 < length (windows r (suc n) xs)
  unfolding windows
  length-windows-suc r n xs = omega arith

  last_of-windows :
      (r n : ℕ) (xs : List A) → last_of (windows r (suc n) xs) ≡ some (take r (drop (n * r) xs))
  unfolding windows last_of
  last_of-windows r zero xs =
      ap (λ k. some (take r (drop k xs))) (let z : 0 ≡ 0 * r = omega arith in z)
  last_of-windows r (suc n) xs =
      last_of_cons (take r xs) (windows r (suc n) (drop r xs)) (length-windows-suc r n (drop r xs))
      ∙ last_of-windows r n (drop r xs)
      ∙ ap (λ l. some (take r l))
          (drop-drop (n * r) r xs
            ∙ ap (λ k. drop k xs) (let e : r + n * r ≡ suc n * r = omega arith in e))

  end_buf_lem :
      (keep r q rem : ℕ) (xs : List A)
      → length xs ≡ q * r + rem
      → rem ≤ keep
      → end_buf rem (last_rows keep xs) ≡ unless_empty (drop (q * r) xs)
  end_buf_lem keep r q zero xs h le =
      sym (ap (unless_empty {A = A}) (drop_of_length-le (q * r) xs (omega arith)))
  end_buf_lem keep r q (suc rem) xs h le =
      let size = length-drop (length xs - keep) xs in
      let tl = length (last_rows keep xs) in
      rw (le→leb (suc rem) tl (omega (arith, size))) (
        ap some (
          drop-drop (tl - suc rem) (length xs - keep) xs
          ∙ ap (λ k. drop k xs)
              (let e : length xs - keep + (tl - suc rem) ≡ q * r = omega (arith, size) in e))
        ∙ unless_empty_lem (drop (q * r) xs) (omega (arith, length-drop (q * r) xs)))

  -- the four rows that end where the complete windows end
  end_rows_lem :
      (keep q rem : ℕ) (xs : List A)
      → length xs ≡ q * 4 + rem
      → rem < 4
      → 7 ≤ keep
      → end_rows rem (last_rows keep xs) ≡ last_of (windows 4 q xs)
  unfolding windows last_of
  end_rows_lem keep zero rem xs h lt le =
      let size = length-drop (length xs - keep) xs in
      rw (lt→leb-false (rem + 4) (length (last_rows keep xs)) (omega (arith, size))) refl
  end_rows_lem keep (suc q) rem xs h lt le =
      let size = length-drop (length xs - keep) xs in
      let tl = length (last_rows keep xs) in
      rw (le→leb (rem + 4) tl (omega (arith, size))) (
        ap some (
          slice-drop (tl - rem - 4) (tl - rem) (length xs - keep) (q * 4) (q * 4 + 4) xs
            (omega (arith, size)) (omega (arith, size))
          ∙ ap (λ k. take k (drop (q * 4) xs)) (let e : q * 4 + 4 - q * 4 ≡ 4 = omega arith in e))
        ∙ sym (last_of-windows 4 q xs))

-- without an overlap there are no windows to begin with
prev_kept {ℓ} :
    {W : Type ℓ} (four : Bool) (prev ws : List W)
    → prev ≡ (if four then ws else [])
    → (if four then prev else []) ≡ (if four then ws else [])
prev_kept true prev ws h = h
prev_kept false prev ws h = refl

module _ {A H P : Type 0} (ops : Ops A H P) (block r keep : ℕ) (pos : 0 < r) where
  -- The carry, the pooled rows and the windows of the rows `xs`, as they are written.
  pub record IsExport (xs : List A) (e : Exported A P) : Type 0 where
    pub pooled_eq : rows_of e.pooled ≡ whole ops r xs
    pub buf_eq : e.buf ≡ (after r xs).buf
    pub prev_eq : e.prev ≡ expected_prev ops block r keep pos xs
    pub prev_end_eq : e.prev_end ≡ (after r xs).prev

  buf_lem :
      (xs : List A) (tail : Option (List A))
      → kept tail ≡ last_rows keep xs
      → (tail ≡ none → xs ≡ [])
      → r ≤ keep
      → elim tail [ none ↦ none | some rows ↦ end_buf (length xs % r) rows ] ≡ (after r xs).buf
  buf_lem xs none h first le =
      subst (λ l. none ≡ (after r l).buf) (sym (first refl))
        (ap (λ (c : Carry A). c.buf) (after-nil ops r pos))
  buf_lem xs (some rows) h first le =
      ap (end_buf (length xs % r)) h
      ∙ end_buf_lem keep r (length xs / r) (length xs % r) xs (omega (arith, pos))
          (omega (arith, pos))

  prev_end_lem :
      (xs : List A) (tail : Option (List A))
      → kept tail ≡ last_rows keep xs
      → (tail ≡ none → xs ≡ [])
      → 7 ≤ keep
      → elim tail [
        | none ↦ none
        | some rows ↦ if r == 4 then end_rows (length xs % r) rows else none
      ]
        ≡ (after r xs).prev
  prev_end_lem xs none h first le =
      subst (λ l. none ≡ (after r l).prev) (sym (first refl))
        (ap (λ (c : Carry A). c.prev) (after-nil ops r pos))
  prev_end_lem xs (some rows) h first le = elim (Bool-cases (r == 4)) [
    | inl four ↦
        let e = (==_iff r 4).0 four in
        rw four (
          ap (λ k. end_rows (length xs % k) rows) e
          ∙ ap (end_rows (length xs % 4)) h
          ∙ end_rows_lem keep (length xs / 4) (length xs % 4) xs (omega arith) (omega arith) le
          ∙ sym (ap (λ k. last_of (windows k (length xs / k) xs)) e))
    | inr other ↦ rw other refl
  ]

  -- For a positive ratio, and if at least seven rows and as many as the ratio are kept: what `export` writes for
  -- the rows `xs` is their pooled rows, the windows at the boundaries, and as rows of the unfinished window
  -- and last complete window the two that the carry of the pooling holds.
  pub export_pool-IsExport :
      (xs : List A) (s : PoolState A P)
      → r ≤ keep
      → 7 ≤ keep
      → PoolHolds ops block r keep pos xs s
      → IsExport xs (export_pool r (length xs) s)
  unfolding export_pool
  export_pool-IsExport xs s le seven h = record {
    pooled_eq = rows_of-cat_pooled s.pooled ∙ h.pooled_eq;
    buf_eq = buf_lem xs s.tail h.tail_eq h.none_yet le;
    prev_eq = prev_kept (r == 4) s.prev _ h.prev_eq;
    prev_end_eq = prev_end_lem xs s.tail h.tail_eq h.none_yet seven;
  }
