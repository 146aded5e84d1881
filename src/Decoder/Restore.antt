-- ===== src/Decoder/Restore.antt =====
-- What a stage has copied after any landings.
use mathlib.Core.Path.{subst}
use pd_bridge.Prelude.{
  ℕ, suc, ◌+◌, ◌*◌, ◌≤◌, ◌≡◌, refl, ap, ◌∙◌, sym, Bool, true, false, Option, none, some, List, [],
  ◌∷◌, ◌++◌, inl, inr, arith, map, length, take, leb, if◌then◌else◌, length-append, length-take,
  take-append_le, take_of_length-le, append-nil, append_assoc, mul_mono, leb→le, leb-false→lt,
  Bool-cases, Option-cases,
}
use pd_bridge.Decoder.{
  Stage, BlockLanding, never_landed, landed, copy_all, copied, stage_block, run_stage,
}
use pd_bridge.Decoder.Staged.{concat_from, AllLen, Filled, Fits, copy_all-keeps, copy_all-adds}
use pd_bridge.Decoder.Landings.{
  all_some, cons_block, fitting, AllFit, AllBlocks, all_some-map, copy_all-stops, concat_from-snoc,
  concat_from-AllLen, AllShort-of, AllBlocks-take, AllBlocks-snoc,
}

-- A stage that has copied the blocks `bs` into its arrays.
pub record IsStaged {R : Type 0} (cap B K : ℕ) (zs : List (List R)) (st : Stage R)
    (bs : List (List (List R))) (arrs : List (List R)) : Type 0 where
  pub there : st.arrs ≡ some arrs
  pub count : st.ready ≡ length bs
  pub size : st.block ≡ B
  pub width : length arrs ≡ K
  pub sizes : AllBlocks B K bs
  pub fills : (m : ℕ) → m ≤ length bs → Filled cap (concat_from zs (take m bs)) arrs

module _ {R : Type 0} (cap B K n : ℕ) (room : n * B ≤ cap) (zs : List (List R))
    (empty : AllLen 0 zs) (wide : length zs ≡ K) where
  fits_in : (k : ℕ) → k + 1 ≤ n → k * B + B ≤ cap
  fits_in k h = grind arith

  pub before_short :
      (m : ℕ) (bs : List (List (List R)))
      → m ≤ length bs
      → AllBlocks B K bs
      → AllLen (m * B) (concat_from zs (take m bs))
  before_short m bs h sizes =
      let l : length (take m bs) ≡ m = omega (arith, h, length-take m bs) in
      let e : 0 + length (take m bs) * B ≡ length (take m bs) * B = omega arith in
      subst (λ k. AllLen k (concat_from zs (take m bs))) (e ∙ ap (λ k. k * B) l)
        (concat_from-AllLen B K 0 zs (take m bs) empty wide (AllBlocks-take B K m bs sizes))

  length-copy_all :
      (lo : ℕ) (cs : List (Option (List R))) (arrs : List (List R))
      → length (copy_all lo cs arrs).0 ≡ length arrs
  unfolding copy_all
  length-copy_all lo [] arrs = refl
  length-copy_all lo (none ∷ cs) arrs = refl
  length-copy_all lo (some rows ∷ cs) [] = refl
  length-copy_all lo (some rows ∷ cs) (a ∷ arrs) = ap suc (length-copy_all lo cs arrs)

  -- the blocks before stay when another one is copied, whole or not
  keeps_before :
      (bs : List (List (List R))) (arrs : List (List R)) (cs : List (Option (List R)))
      → length bs + 1 ≤ n
      → AllBlocks B K bs
      → Fits B cs
      → ((m : ℕ) → m ≤ length bs → Filled cap (concat_from zs (take m bs)) arrs)
      → (m : ℕ) → m ≤ length bs
      → Filled cap (concat_from zs (take m bs)) (copy_all (length bs * B) cs arrs).0
  keeps_before bs arrs cs h sizes fits fills m le =
      copy_all-keeps cap (length bs * B) B (fits_in (length bs) h) cs arrs
        (concat_from zs (take m bs)) fits
        (AllShort-of (m * B) (length bs * B) (concat_from zs (take m bs))
          (mul_mono m (length bs) B le) (before_short m bs le sizes))
        (fills m le)

  -- one more block
  adds_block :
      (bs : List (List (List R))) (arrs b : List (List R))
      → length bs + 1 ≤ n
      → AllBlocks B K bs
      → Fits B (map some b)
      → AllLen B b
      → length b ≡ K
      → length arrs ≡ K
      → ((m : ℕ) → m ≤ length bs → Filled cap (concat_from zs (take m bs)) arrs)
      → ((m : ℕ)
          → m ≤ length (bs ++ (b ∷ []))
          → Filled cap
              (concat_from zs (take m (bs ++ (b ∷ []))))
              (copy_all (length bs * B) (map some b) arrs).0)
        × ((copy_all (length bs * B) (map some b) arrs).1 ≡ true)
  adds_block bs arrs b h sizes fits lens lb la fills =
      let all = take_of_length-le (length bs) bs (omega arith) in
      let (last_one, good) =
        copy_all-adds cap (length bs * B) B (fits_in (length bs) h) b arrs (concat_from zs bs) lens
          (omega (arith, lb, la))
          (subst (λ t. AllLen (length bs * B) (concat_from zs t)) all
            (before_short (length bs) bs (omega arith) sizes))
          (subst (λ t. Filled cap (concat_from zs t) arrs) all (fills (length bs) (omega arith))) in
      (
        λ m le. elim (Bool-cases (leb m (length bs))) [
          | inl early ↦
              let le' : m ≤ length bs = leb→le m (length bs) early in
              subst
                (λ t. Filled cap (concat_from zs t) (copy_all (length bs * B) (map some b) arrs).0)
                (sym (take-append_le m bs (b ∷ []) le'))
                (keeps_before bs arrs (map some b) h sizes fits fills m le')
          | inr late ↦
              let gt = leb-false→lt m (length bs) late in
              subst (λ t. Filled cap t (copy_all (length bs * B) (map some b) arrs).0)
                (sym (concat_from-snoc zs bs b)
                  ∙ ap (concat_from zs) (
                      sym (
                        take_of_length-le m (bs ++ (b ∷ []))
                          (omega (arith, gt, length-append bs (b ∷ []))))))
                last_one
        ],
        good,
      )

  -- how a stage stands after a landing
  AllLen-of : (b : List (List R)) → Fits B (map some b) → AllLen B b
  AllLen-of [] h = h
  AllLen-of (rows ∷ b) (l, h) = (l, AllLen-of b h)

  length-some : (b : List (List R)) → length b ≡ length (map some b)
  length-some [] = refl
  length-some (rows ∷ b) = ap suc (length-some b)

  copied_fails :
      (st : Stage R) (r : List (List R) × Bool)
      → r.1 ≡ false
      → copied st r ≡ record st { arrs = some r.0; failed = true }
  copied_fails st (arrs, true) e = absurd (cc e)
  copied_fails st (arrs, false) e = refl

  copied_good :
      (st : Stage R) (r : List (List R) × Bool)
      → r.1 ≡ true
      → copied st r ≡ record st { arrs = some r.0; ready = st.ready + 1 }
  copied_good st (arrs, true) e = refl
  copied_good st (arrs, false) e = absurd (cc e)

  abbrev after : List (BlockLanding R) → Stage R → Stage R
  after ls st = if st.failed then st else run_stage ls st

  -- the first landing of a run
  first_landing :
      (cs : List (Option (List R))) (ls : List (BlockLanding R)) (st : Stage R)
      (bs : List (List (List R))) (arrs : List (List R)) (x : Stage R)
      → IsStaged cap B K zs st bs arrs
      → copied st (copy_all (length bs * B) cs arrs) ≡ x
      → run_stage (landed cs ∷ ls) st ≡ after ls x
  unfolding run_stage
  first_landing cs ls st bs arrs x is e =
      ap (λ o. after ls (stage_block st (landed cs) o)) is.there
      ∙ ap (λ k. after ls (copied st (copy_all (k * st.block) cs arrs))) is.count
      ∙ ap (λ k. after ls (copied st (copy_all (length bs * k) cs arrs))) is.size
      ∙ ap (after ls) e

  -- a run from a stage with some blocks
  pub run_lem :
      (ls : List (BlockLanding R)) (st : Stage R) (bs : List (List (List R))) (arrs : List (List R))
      → IsStaged cap B K zs st bs arrs
      → st.failed ≡ false
      → AllFit B K ls
      → length bs + length ls ≤ n
      → (arrs' : List (List R)) × IsStaged cap B K zs (run_stage ls st) (bs ++ fitting ls) arrs'
  run_lem [] st bs arrs is f fits h = (
    arrs,
    unfold run_stage in subst (λ t. IsStaged cap B K zs st t arrs) (sym (append-nil bs)) is,
  )
  run_lem (never_landed ∷ ls) st bs arrs is f fits h = (
    arrs,
    unfold run_stage in
        subst (λ t. IsStaged cap B K zs (record st { failed = true }) t arrs) (sym (append-nil bs))
          (record {
            there = is.there;
            count = is.count;
            size = is.size;
            width = is.width;
            sizes = is.sizes;
            fills = is.fills;
          }),
  )
  run_lem (landed cs ∷ ls) st bs arrs is f (fit, lc, fits) h =
      let r = copy_all (length bs * B) cs arrs in
      let width : length r.0 ≡ K = length-copy_all (length bs * B) cs arrs ∙ is.width in
      elim (Option-cases (all_some cs)) [
        | inl bad ↦
            let x : Stage R = record st { arrs = some r.0; failed = true } in
            let e = copied_fails st r (copy_all-stops (length bs * B) cs arrs bad) in
            (
              r.0,
              subst (λ y. IsStaged cap B K zs y (bs ++ fitting (landed cs ∷ ls)) r.0)
                  (sym (first_landing cs ls st bs arrs x is e))
                  (subst (λ t. IsStaged cap B K zs x t r.0)
                    (sym (ap (λ o. bs ++ cons_block o (fitting ls)) bad ∙ append-nil bs))
                    (record {
                      there = refl;
                      count = is.count;
                      size = is.size;
                      width = width;
                      sizes = is.sizes;
                      fills = keeps_before bs arrs cs (omega (arith, h)) is.sizes fit is.fills;
                    })),
            )
        | inr (b, good) ↦
            let same = all_some-map cs b good in
            let x : Stage R = record st { arrs = some r.0; ready = st.ready + 1 } in
            let fit_b = subst (Fits B) same fit in
            let lb : length b ≡ K = length-some b ∙ ap length (sym same) ∙ lc in
            let (fills, whole) =
              adds_block bs arrs b (omega (arith, h)) is.sizes fit_b (AllLen-of b fit_b) lb is.width
                is.fills in
            let e = copied_good st r (ap (λ t. (copy_all (length bs * B) t arrs).1) same ∙ whole) in
            let is' : IsStaged cap B K zs x (bs ++ (b ∷ [])) r.0 = record {
              there = refl;
              count = omega (arith, is.count, length-append bs (b ∷ []));
              size = is.size;
              width = width;
              sizes = AllBlocks-snoc B K bs b is.sizes (AllLen-of b fit_b) lb;
              fills = λ m le.
                  subst
                    (λ t.
                      Filled cap (concat_from zs (take m (bs ++ (b ∷ []))))
                        (copy_all (length bs * B) t arrs).0)
                    (sym same) (fills m le);
            } in
            let (arrs', ih) =
              run_lem ls x (bs ++ (b ∷ [])) r.0 is' f fits
                (omega (arith, h, length-append bs (b ∷ []))) in
            (
              arrs',
              subst (λ y. IsStaged cap B K zs y (bs ++ fitting (landed cs ∷ ls)) arrs')
                  (sym (
                    first_landing cs ls st bs arrs x is e
                    ∙ ap (λ c. if c then x else run_stage ls x) f))
                  (subst (λ t. IsStaged cap B K zs (run_stage ls x) t arrs')
                    (append_assoc bs (b ∷ []) (fitting ls)
                      ∙ sym (ap (λ o. bs ++ cons_block o (fitting ls)) good))
                    ih),
            )
      ]
