-- ===== src/Hook/Windows/Whole.antt =====
-- However the rows are cut into chunks, the windows are those of the whole.
use mathlib.Core.Path.{subst}
use mathlib.Core.List.{map-append}
use pd_bridge.Prelude.{
  joined, ==_self, drop_of_length-le, div_unique, ℕ, zero, suc, ◌+◌, ◌-◌, ◌*◌, ◌/◌, ◌≤◌, ◌<◌, ◌≡◌,
  refl, ap, ◌∙◌, sym, Option, none, some, List, [], ◌∷◌, ◌++◌, map, append-nil, append_assoc, arith,
  leb, length, drop, slice, last_rows, length-append, length-drop, drop-drop, drop-append_le,
  slice-drop, slice-append, Bool-cases, inl, inr, leb→le, leb-false→lt, drop-append, put, put-new,
  Below, Below-append, Below-mono,
}
use pd_bridge.Hook.Boundaries.{
  boundaries, boundaries_lem, boundaries-append, range_list, boundaries-zero,
}
use pd_bridge.Hook.Windows.{KvState, new_kv, kept, window_at, snap_all, new_tail, feed_kv, feed_all}

module _ {V : Type 0} where
  -- the `win` rows before `b`, or all there are
  abbrev pub window : ℕ → ℕ → List V → List V
  window win b xs = slice (b - win) b xs

  drop-tail : (m : ℕ) (xs ys : List V) → m ≤ length xs → drop m xs ++ ys ≡ drop m (xs ++ ys)
  drop-tail m xs ys h = sym (drop-append_le m xs ys h)

  last_rows-drop :
      (win m : ℕ) (xs : List V)
      → m + (length xs - m - win) ≡ length xs - win
      → last_rows win (drop m xs) ≡ last_rows win xs
  last_rows-drop win m xs h =
      ap (λ k. drop (k - win) (drop m xs)) (length-drop m xs)
      ∙ drop-drop (length xs - m - win) m xs
      ∙ ap (λ k. drop k xs) h

  -- the window at a boundary behind the rows `xs`, of which some were kept
  pub window_at_lem :
      (win keep : ℕ) (tail : Option (List V)) (xs kv : List V) (b : ℕ)
      → win ≤ keep
      → kept tail ≡ last_rows keep xs
      → length xs < b
      → window_at win tail kv (length xs) b ≡ window win b (xs ++ kv)
  unfolding window_at
  window_at_lem win keep tail xs kv b le h lt = elim (Bool-cases (leb (length xs + win) b)) [
    | inl inside ↦ rw inside (
        ap (slice (b - win - length xs) (b - length xs)) (sym (drop-append (length xs) xs kv refl))
        ∙ slice-drop _ _ (length xs) (b - win) b (xs ++ kv)
            (omega (arith, leb→le (length xs + win) b inside)) (omega arith))
    | inr across ↦ rw across (
        let m = length xs - keep in
        let size = length-drop m xs in
        let far = leb-false→lt (length xs + win) b across in
        ap (λ ts. slice (b + length ts - (win + length xs)) (b + length ts - length xs) (ts ++ kv))
          h
        ∙ ap (slice _ _) (drop-tail m xs kv (omega arith))
        ∙ slice-drop _ _ m (b - win) b (xs ++ kv) (omega (arith, size, far))
            (omega (arith, size, far)))
  ]

  pub new_tail_lem :
      (win : ℕ) (tail : Option (List V)) (xs kv : List V)
      → kept tail ≡ last_rows win xs
      → (tail ≡ none → xs ≡ [])
      → new_tail win tail kv ≡ last_rows win (xs ++ kv)
  unfolding new_tail
  new_tail_lem win none xs kv h first = ap (λ l. last_rows win (l ++ kv)) (sym (first refl))
  new_tail_lem win (some rows) xs kv h first = elim (Bool-cases (leb win (length kv))) [
    | inl long ↦ rw long (
        ap (last_rows win) (sym (drop-append (length xs) xs kv refl))
        ∙ last_rows-drop win (length xs) (xs ++ kv)
            (omega (arith, length-append xs kv, leb→le win (length kv) long)))
    | inr short ↦ rw short (
        ap (λ l. last_rows win (l ++ kv)) h
        ∙ ap (last_rows win) (drop-tail (length xs - win) xs kv (omega arith))
        ∙ last_rows-drop win (length xs - win) (xs ++ kv) (omega (arith, length-append xs kv)))
  ]

  -- the windows at some boundaries
  abbrev pub windows_at : ℕ → List V → List ℕ → List (ℕ × List V)
  windows_at win xs bs = map (λ b. (b, window win b xs)) bs

  pub snap_all_lem :
      (win keep : ℕ) (tail : Option (List V)) (xs kv : List V) (first step n : ℕ)
      (snaps : List (ℕ × List V))
      → win ≤ keep
      → kept tail ≡ last_rows keep xs
      → length xs < first
      → 0 < step
      → Below first snaps
      → snap_all win tail kv (length xs) (range_list first step n) snaps
        ≡ snaps ++ windows_at win (xs ++ kv) (range_list first step n)
  unfolding snap_all range_list
  snap_all_lem win keep tail xs kv first step zero snaps le h lt pos below = sym (append-nil snaps)
  snap_all_lem win keep tail xs kv first step (suc n) snaps le h lt pos below =
      let at = window_at_lem win keep tail xs kv first le h lt in
      let put_last : put first (window_at win tail kv (length xs) first) snaps
          ≡ snaps ++ ((first, window win first (xs ++ kv)) ∷ []) =
        put-new first _ snaps below ∙ ap (λ w. snaps ++ ((first, w) ∷ [])) at in
      let more = snaps ++ ((first, window win first (xs ++ kv)) ∷ []) in
      ap (snap_all win tail kv (length xs) (range_list (first + step) step n)) put_last
      ∙ snap_all_lem win keep tail xs kv (first + step) step n more le h (omega arith) pos (
          Below-append (first + step) snaps _
            (Below-mono first (first + step) snaps (omega arith) below)
            (omega (arith, pos), omega arith))
      ∙ append_assoc snaps _ _

  pub windows_at-append :
      (win : ℕ) (xs kv : List V) (first step n : ℕ)
      → first + n * step ≤ length xs + step
      → windows_at win (xs ++ kv) (range_list first step n)
        ≡ windows_at win xs (range_list first step n)
  unfolding range_list
  windows_at-append win xs kv first step zero h = refl
  windows_at-append win xs kv first step (suc n) h =
      let here : window win first (xs ++ kv) ≡ window win first xs =
        slice-append (first - win) first xs kv (omega arith) (omega arith) in
      let there = windows_at-append win xs kv (first + step) step n (omega arith) in
      cc (here, there)

  pub windows_at-Below :
      (win : ℕ) (xs : List V) (first step n k : ℕ)
      → first + n * step ≤ k + step
      → Below (k + 1) (windows_at win xs (range_list first step n))
  unfolding range_list
  windows_at-Below win xs first step zero k h = omega arith
  windows_at-Below win xs first step (suc n) k h =
      (omega arith, windows_at-Below win xs (first + step) step n k (omega arith))

  -- What the rows `xs` leave behind, however they came.
  pub record Holds (block win : ℕ) (xs : List V) (s : KvState V) : Type 0 where
    pub tail_eq : kept s.tail ≡ last_rows win xs
    pub none_yet : s.tail ≡ none → xs ≡ []
    pub snaps_eq : s.snaps ≡ windows_at win xs (boundaries block 0 (length xs))
    pub next_eq : s.next_pos ≡ length xs
    pub rows_eq : s.rows ≡ length xs
    pub gaps_eq : s.gaps ≡ []

  module _ (block win : ℕ) (pos : 0 < block) where
    pub old_snaps-Below :
        (xs : List V)
        → Below
            ((length xs / block + 1) * block)
            (windows_at win xs (boundaries block 0 (length xs)))
    old_snaps-Below xs =
        subst (λ bs. Below ((length xs / block + 1) * block) (windows_at win xs bs))
          (sym (boundaries-zero block (length xs) pos))
          (Below-mono (length xs + 1) _ _ (omega (arith, pos)) (
            windows_at-Below win xs block block (length xs / block) (length xs)
              (omega (arith, pos))))

    pub old_snaps-append :
        (xs kv : List V)
        → windows_at win xs (boundaries block 0 (length xs))
          ≡ windows_at win (xs ++ kv) (boundaries block 0 (length xs))
    old_snaps-append xs kv =
        ap (windows_at win xs) (boundaries-zero block (length xs) pos)
        ∙ sym (windows_at-append win xs kv block block (length xs / block) (omega (arith, pos)))
        ∙ ap (windows_at win (xs ++ kv)) (sym (boundaries-zero block (length xs) pos))

    -- the windows of a chunk behind those of the earlier rows
    pub snaps_step :
        (keep : ℕ) (tail : Option (List V)) (xs kv : List V)
        → win ≤ keep
        → kept tail ≡ last_rows keep xs
        → snap_all win tail kv
            (length xs)
            (boundaries block (length xs) (length xs + length kv))
            (windows_at win xs (boundaries block 0 (length xs)))
          ≡ windows_at win (xs ++ kv) (boundaries block 0 (length (xs ++ kv)))
    snaps_step keep tail xs kv le h =
        let lo = length xs in
        let hi = length xs + length kv in
        let first = (lo / block + 1) * block in
        let new = range_list first block (hi / block - lo / block) in
        ap (λ bs. snap_all win tail kv lo bs (windows_at win xs (boundaries block 0 lo)))
          (boundaries_lem block lo hi pos (omega arith))
        ∙ snap_all_lem win keep tail xs kv first block (hi / block - lo / block) _ le h
            (omega (arith, pos)) pos (old_snaps-Below xs)
        ∙ ap (λ m. m ++ windows_at win (xs ++ kv) new) (old_snaps-append xs kv)
        ∙ sym (map-append (λ (b : ℕ). (b, window win b (xs ++ kv))) (boundaries block 0 lo) new)
        ∙ ap (λ bs. windows_at win (xs ++ kv) (boundaries block 0 lo ++ bs))
            (sym (boundaries_lem block lo hi pos (omega arith)))
        ∙ ap (windows_at win (xs ++ kv)) (
            boundaries-append block 0 lo hi pos (omega arith) (omega arith)
            ∙ ap (boundaries block 0) (sym (length-append xs kv)))

    feed_snaps :
        (xs kv : List V) (s : KvState V)
        → Holds block win xs s
        → (feed_kv block win kv s.next_pos s).snaps
          ≡ windows_at win (xs ++ kv) (boundaries block 0 (length (xs ++ kv)))
    unfolding feed_kv
    feed_snaps xs kv s h =
        ap (λ p. snap_all win s.tail kv p (boundaries block p (p + length kv)) s.snaps) h.next_eq
        ∙ ap
            (snap_all win s.tail kv (length xs)
              (boundaries block (length xs) (length xs + length kv)))
            h.snaps_eq
        ∙ snaps_step win s.tail xs kv (omega arith) h.tail_eq

    pub feed-Holds :
        (xs kv : List V) (s : KvState V)
        → Holds block win xs s
        → Holds block win (xs ++ kv) (feed_kv block win kv s.next_pos s)
    unfolding feed_kv
    feed-Holds xs kv s h = record {
      tail_eq = new_tail_lem win s.tail xs kv h.tail_eq h.none_yet;
      none_yet = λ e. absurd (cc e);
      snaps_eq = feed_snaps xs kv s h;
      next_eq = omega (arith, h.next_eq, length-append xs kv);
      rows_eq = omega (arith, h.rows_eq, length-append xs kv);
      gaps_eq = rw (==_self s.next_pos) h.gaps_eq;
    }

    feed_all-Holds :
        (chunks : List (List V)) (xs : List V) (s : KvState V)
        → Holds block win xs s
        → Holds block win (xs ++ joined chunks) (feed_all block win chunks s)
    unfolding feed_all
    feed_all-Holds [] xs s h = subst (λ l. Holds block win l s) (sym (append-nil xs)) h
    feed_all-Holds (kv ∷ chunks) xs s h =
        subst
          (λ l. Holds block win l (feed_all block win chunks (feed_kv block win kv s.next_pos s)))
          (append_assoc xs kv (joined chunks))
          (feed_all-Holds chunks (xs ++ kv) _ (feed-Holds xs kv s h))

    pub new-Holds : Holds block win [] (new_kv V)
    unfolding range_list
    new-Holds = record {
      tail_eq = sym (drop_of_length-le (0 - win) [] (omega arith));
      none_yet = λ _. refl;
      snaps_eq = sym (
          ap (windows_at win []) (
            boundaries-zero block 0 pos
            ∙ ap (range_list block block) (
                let z : 0 / block ≡ 0 =
                  div_unique 0 0 block pos (omega arith) (omega (arith, pos)) in
                z)));
      next_eq = refl;
      rows_eq = refl;
      gaps_eq = refl;
    }

    -- If the block size is positive: feeding a layer's rows in any chunks, each where the last one ended,
    -- leaves the window of the rows before every block boundary up to the last row, in order and nothing
    -- else, the last rows, the count and no gap, as one chunk of all rows would.
    pub feed_all-whole :
        (chunks : List (List V))
        → Holds block win (joined chunks) (feed_all block win chunks (new_kv V))
    feed_all-whole chunks = feed_all-Holds chunks [] (new_kv V) new-Holds
