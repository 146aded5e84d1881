-- ===== src/KvReturn/Resume/Windows.antt =====
-- The windows of a capture that goes on are those of a capture from the start.
use mathlib.Core.Path.{subst}
use mathlib.Core.List.{map-append}
use mathlib.Core.Option.{some_inj}
use pd_bridge.Prelude.{
  joined, ==_self, ℕ, suc, ◌+◌, ◌-◌, ◌*◌, ◌/◌, ◌≤◌, ◌<◌, ◌≡◌, refl, ap, ◌∙◌, sym, Option, some,
  List, [], ◌∷◌, ◌++◌, append-nil, append_assoc, arith, leb, length, drop, take, last_rows,
  length-append, length-drop, drop-drop, drop-append_le, drop-append, take-append, Bool-cases, inl,
  inr, leb→le, le→leb, leb-false→lt, ◌==◌, false, min, div_mono, Below, Below-mono, if◌then◌else◌,
}
use pd_bridge.Hook.Boundaries.{boundaries, boundaries_lem, boundaries-append, range_list}
use pd_bridge.Hook.Windows.{KvState, new_kv, kept, snap_all, new_tail}
use pd_bridge.Hook.Windows.Whole.{
  window, windows_at, windows_at-append, windows_at-Below, snap_all_lem,
}
use pd_bridge.KvReturn.Resume.{feed_kv, feed_all, seed_kv, cut_rows, or_none, from_end, window_end}
use pd_bridge.KvReturn.{merge_windows}
use pd_bridge.KvReturn.Merge.{merge_windows-whole}

not_zero : (n : ℕ) → (suc n == 0) ≡ false
not_zero n = ground arith

no_boundaries : (block n : ℕ) → 0 < block → boundaries block n n ≡ []
unfolding range_list
no_boundaries block n pos =
    boundaries_lem block n n pos (omega arith)
    ∙ ap (range_list ((n / block + 1) * block) block)
        (let e : n / block - n / block ≡ 0 = omega arith in e)

module _ {V : Type 0} where
  -- the last `win` rows of the rows from `k` on
  last_of_last :
      (win k : ℕ) (xs : List V) → win ≤ k → last_rows win (last_rows k xs) ≡ last_rows win xs
  last_of_last win k xs h =
      ap (λ n. drop (n - win) (last_rows k xs)) (length-drop (length xs - k) xs)
      ∙ drop-drop (length xs - (length xs - k) - win) (length xs - k) xs
      ∙ ap (λ n. drop n xs) (omega (arith, h))

  drop_behind : (j : ℕ) (xs kv : List V) → drop (length xs + j) (xs ++ kv) ≡ drop j kv
  drop_behind j xs kv =
      sym (drop-drop j (length xs) (xs ++ kv)) ∙ ap (drop j) (drop-append (length xs) xs kv refl)

  -- what is kept behind a chunk reaches at least as far back as it did, or as is asked for
  new_tail_kept :
      (keep k : ℕ) (rows xs kv : List V)
      → rows ≡ last_rows k xs
      → new_tail keep (some rows) kv ≡ last_rows (min keep (k + length kv)) (xs ++ kv)
  unfolding new_tail
  new_tail_kept keep k rows xs kv e = elim (Bool-cases (leb keep (length kv))) [
    | inl long ↦ rw long (
        sym (drop_behind (length kv - keep) xs kv)
        ∙ ap (λ j. drop j (xs ++ kv))
            (omega (arith, leb→le keep (length kv) long, length-append xs kv)))
    | inr short ↦ rw short (
        let m = length xs - k in
        let e' : rows ++ kv ≡ drop m (xs ++ kv) =
          ap (λ l. l ++ kv) e ∙ sym (drop-append_le m xs kv (omega arith)) in
        let l : length (drop m (xs ++ kv)) ≡ length xs + length kv - m =
          length-drop m (xs ++ kv) ∙ ap (λ n. n - m) (length-append xs kv) in
        ap (last_rows keep) e'
        ∙ drop-drop (length (drop m (xs ++ kv)) - keep) m (xs ++ kv)
        ∙ ap (λ j. drop j (xs ++ kv))
            (omega (arith, l, leb-false→lt keep (length kv) short, length-append xs kv)))
  ]

  -- nothing more than what is there
  all_of_last :
      (keep k : ℕ) (xs : List V) → k ≤ keep → last_rows keep (last_rows k xs) ≡ last_rows k xs
  all_of_last keep k xs h =
      ap (λ n. drop n (last_rows k xs))
        (let e : length (last_rows k xs) - keep ≡ 0 =
            omega (arith, h, length-drop (length xs - k) xs) in
          e)

  -- A capture that went on at position `S`: it has the windows behind `S`, as the rows from the start give them.
  pub record Continues (block win keep S : ℕ) (xs : List V) (s : KvState V) : Type 0 where
    pub reach : ℕ
    pub far : win ≤ reach
    pub tail_eq : s.tail ≡ some (last_rows reach xs)
    pub snaps_eq : s.snaps ≡ windows_at win xs (boundaries block S (length xs))
    pub next_eq : s.next_pos ≡ length xs
    pub behind : S ≤ length xs
    pub gaps_eq : s.gaps ≡ []

  module _ (block win keep S : ℕ) (pos : 0 < block) (enough : win ≤ keep) where
    snaps_from :
        (reach : ℕ) (tail : Option (List V)) (xs kv : List V)
        → win ≤ reach
        → tail ≡ some (last_rows reach xs)
        → S ≤ length xs
        → snap_all win tail kv
            (length xs)
            (boundaries block (length xs) (length xs + length kv))
            (windows_at win xs (boundaries block S (length xs)))
          ≡ windows_at win (xs ++ kv) (boundaries block S (length (xs ++ kv)))
    snaps_from reach tail xs kv far e le =
        let lo = length xs in
        let hi = length xs + length kv in
        let first = (lo / block + 1) * block in
        let start = (S / block + 1) * block in
        let old = boundaries_lem block S lo pos le in
        let new = boundaries_lem block lo hi pos (omega arith) in
        let m = hi / block - lo / block in
        let k = lo / block - S / block in
        let W = windows_at win xs (boundaries block S lo) in
        let mono = div_mono block S lo pos le in
        let steps : lo / block ≡ S / block + k = omega (arith, mono) in
        let grown : lo / block * block ≡ (S / block + k) * block = ap (λ t. t * block) steps in
        let inside : start + k * block ≤ lo + block = omega (arith, grown, pos) in
        let below : Below first W =
          subst (λ bs. Below first (windows_at win xs bs)) (sym old)
            (Below-mono (lo + 1) first _ (omega (arith, pos))
              (windows_at-Below win xs start block k lo inside)) in
        let same : W ≡ windows_at win (xs ++ kv) (boundaries block S lo) =
          ap (windows_at win xs) old
          ∙ sym (windows_at-append win xs kv start block k inside)
          ∙ ap (windows_at win (xs ++ kv)) (sym old) in
        ap (λ bs. snap_all win tail kv lo bs W) new
        ∙ snap_all_lem win reach tail xs kv first block m W far (ap kept e) (omega (arith, pos)) pos
            below
        ∙ ap (λ w. w ++ windows_at win (xs ++ kv) (range_list first block m)) same
        ∙ sym (
            map-append (λ (b : ℕ). (b, window win b (xs ++ kv))) (boundaries block S lo)
              (range_list first block m))
        ∙ ap (λ bs. windows_at win (xs ++ kv) (boundaries block S lo ++ bs)) (sym new)
        ∙ ap (windows_at win (xs ++ kv)) (
            boundaries-append block S lo hi pos le (omega arith)
            ∙ ap (boundaries block S) (sym (length-append xs kv)))

    feed-Continues :
        (xs kv : List V) (s : KvState V)
        → Continues block win keep S xs s
        → Continues block win keep S (xs ++ kv) (feed_kv block win keep kv s.next_pos s)
    unfolding feed_kv
    feed-Continues xs kv s h = record {
      reach = min keep (h.reach + length kv);
      far = omega (arith, h.far, enough);
      tail_eq = ap some (
          ap (λ t. new_tail keep t kv) h.tail_eq
          ∙ new_tail_kept keep h.reach (last_rows h.reach xs) xs kv refl);
      snaps_eq =
          ap (λ p. snap_all win s.tail kv p (boundaries block p (p + length kv)) s.snaps) h.next_eq
          ∙ ap
              (snap_all win s.tail kv (length xs)
                (boundaries block (length xs) (length xs + length kv)))
              h.snaps_eq
          ∙ snaps_from h.reach s.tail xs kv h.far h.tail_eq h.behind;
      next_eq = omega (arith, h.next_eq, length-append xs kv);
      behind = omega (arith, h.behind, length-append xs kv);
      gaps_eq = rw (==_self s.next_pos) h.gaps_eq;
    }

    feed_all-Continues :
        (chunks : List (List V)) (xs : List V) (s : KvState V)
        → Continues block win keep S xs s
        → Continues block win keep S (xs ++ joined chunks) (feed_all block win keep chunks s)
    unfolding feed_all
    feed_all-Continues [] xs s h =
        subst (λ l. Continues block win keep S l s) (sym (append-nil xs)) h
    feed_all-Continues (kv ∷ chunks) xs s h =
        subst
          (λ l.
            Continues block win keep S l
              (feed_all block win keep chunks (feed_kv block win keep kv s.next_pos s)))
          (append_assoc xs kv (joined chunks))
          (feed_all-Continues chunks (xs ++ kv) _ (feed-Continues xs kv s h))

  or_none-some : (l : List V) → 0 < length l → or_none l ≡ some l
  or_none-some [] h = absurd (omega (arith, h))
  or_none-some (v ∷ l) h = refl

  saved_rows :
      (keep : ℕ) (xs zs : List V)
      → length zs ≤ keep
      → last_rows keep (xs ++ zs) ≡ last_rows (keep - length zs) xs ++ zs
  saved_rows keep xs zs h =
      ap (λ m. drop m (xs ++ zs))
        (let e : length (xs ++ zs) - keep ≡ length xs - (keep - length zs) =
            omega (arith, h, length-append xs zs) in
          e)
      ∙ drop-append_le (length xs - (keep - length zs)) xs zs (omega arith)

  -- the rows that a capture of `xs` and `zs` has saved, cut to end where `xs` ends
  pub cut_saved :
      (keep : ℕ) (xs zs : List V)
      → length zs < keep
      → 0 < length xs
      → cut_rows (length zs) (last_rows keep (xs ++ zs)) ≡ some (last_rows (keep - length zs) xs)
  unfolding cut_rows
  cut_saved keep xs [] h some_rows =
      let kept_rows = last_rows keep xs in
      ap or_none (saved_rows keep xs [] (omega arith) ∙ append-nil (last_rows (keep - 0) xs))
      ∙ or_none-some (last_rows (keep - 0) xs)
          (omega (arith, h, some_rows, length-drop (length xs - (keep - 0)) xs))
  cut_saved keep xs (z ∷ zs) h some_rows =
      let rows = last_rows (keep - length (z ∷ zs)) xs in
      let size : length (rows ++ (z ∷ zs)) ≡ length rows + length (z ∷ zs) =
        length-append rows (z ∷ zs) in
      let l = length-drop (length xs - (keep - length (z ∷ zs))) xs in
      ap
        (λ t.
          or_none
            (if length (z ∷ zs) == 0 then t else take (from_end (length t) (length (z ∷ zs))) t))
        (saved_rows keep xs (z ∷ zs) (omega (arith, h)))
      ∙ rw (not_zero (length zs)) (
          rw (le→leb (length (z ∷ zs)) (length (rows ++ (z ∷ zs))) (omega (arith, size))) (
            ap or_none (
              take-append (length (rows ++ (z ∷ zs)) - length (z ∷ zs)) rows (z ∷ zs)
                (omega (arith, size)))
            ∙ or_none-some rows (omega (arith, h, some_rows, l))))

  module _ (block win keep : ℕ) (pos : 0 < block) where
    seeded-Continues :
        (reach : ℕ) (xs : List V)
        → win ≤ reach
        → reach ≤ keep
        → Continues block win keep
            (length xs)
            xs
            (seed_kv keep (last_rows reach xs) (length xs) (new_kv V))
    seeded-Continues reach xs far le = record {
      reach = reach;
      far = far;
      tail_eq = ap some (all_of_last keep reach xs le);
      snaps_eq = sym (ap (windows_at win xs) (no_boundaries block (length xs) pos));
      next_eq = refl;
      behind = omega arith;
      gaps_eq = refl;
    }

    -- For positive block and window sizes: let a capture have saved its last rows, at least a window more than it has tokens
    -- behind the position of the resumption. If those rows are cut to that position and seed a new layer, which is fed the
    -- further rows in any chunks, then the windows of the resumed capture, merged with those of the earlier one, are those of
    -- all rows from the start, the last window is that of all rows, and no gap is noted.
    pub resumed-windows :
        (xs zs : List V) (chunks : List (List V)) (rows : List V)
        → 0 < win
        → 0 < length xs
        → win + length zs ≤ keep
        → cut_rows (length zs) (last_rows keep (xs ++ zs)) ≡ some rows
        → (merge_windows
              (length xs)
              (windows_at win (xs ++ zs) (boundaries block 0 (length (xs ++ zs))))
              (feed_all block win keep chunks (seed_kv keep rows (length xs) (new_kv V))).snaps
            ≡ windows_at win
                (xs ++ joined chunks)
                (boundaries block 0 (length (xs ++ joined chunks))))
          × (window_end win
                (feed_all block win keep chunks (seed_kv keep rows (length xs) (new_kv V))).tail
              ≡ some (last_rows win (xs ++ joined chunks)))
          × ((feed_all block win keep chunks (seed_kv keep rows (length xs) (new_kv V))).gaps ≡ [])
    resumed-windows xs zs chunks rows some_win some_rows enough cut =
        let reach = keep - length zs in
        let same : last_rows reach xs ≡ rows =
          some_inj.0
            (sym (cut_saved keep xs zs (omega (arith, enough, some_win)) some_rows) ∙ cut) in
        let end =
          feed_all-Continues block win keep (length xs) pos (omega (arith, enough)) chunks xs
            (seed_kv keep rows (length xs) (new_kv V))
            (subst
              (λ t. Continues block win keep (length xs) xs (seed_kv keep t (length xs) (new_kv V)))
              same (seeded-Continues reach xs (omega (arith, enough)) (omega arith))) in
        (
          ap
                (merge_windows (length xs)
                  (windows_at win (xs ++ zs) (boundaries block 0 (length (xs ++ zs)))))
                end.snaps_eq
              ∙ merge_windows-whole win block pos xs zs (joined chunks),
          ap (window_end win) end.tail_eq
              ∙ ap some (last_of_last win end.reach (xs ++ joined chunks) end.far),
          end.gaps_eq,
        )
