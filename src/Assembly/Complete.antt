-- ===== src/Assembly/Complete.antt =====
-- From a whole capture to the verdict `complete`.
use pd_bridge.Prelude.{
  ℕ, zero, suc, ◌+◌, ◌*◌, ◌/◌, ◌<◌, ◌≤◌, ◌≡◌, refl, ap, ◌∙◌, false, some, ◌∷◌, ◌==◌, lt→ltb, le→leb,
  le→ltb-false, get_elem?, arith,
}
use pd_bridge.Hook.Boundaries.{boundaries, boundaries-zero, range_list}
use pd_bridge.Front.{Settings}
use pd_bridge.Front.Manifests.{complete, is_too_little, full_tokens, pull_verdict}
use pd_bridge.Assembly.{Step, block_stored, bounds_of, count_ok, reached, assemble_and_write}

bounds_of-range_list :
    (T first step n : ℕ)
    → 0 < first
    → first + n * step ≤ T + step
    → bounds_of T (range_list first step n) ≡ range_list first step n
unfolding bounds_of range_list
bounds_of-range_list T first step zero pos h = refl
bounds_of-range_list T first step (suc n) pos h = rw (lt→ltb 0 first pos) (
    rw (le→leb first T (omega (arith, h))) (
      ap (◌∷◌ first)
        (bounds_of-range_list T (first + step) step n (omega (arith, pos)) (omega (arith, h)))))

count_ok-range_list :
    (T : ℕ) (try : ℕ → Step) (first step n : ℕ)
    → ((b : ℕ) → b ≤ T → try b ≡ block_stored)
    → first + n * step ≤ T + step
    → count_ok try (range_list first step n) ≡ n
unfolding count_ok range_list
count_ok-range_list T try first step zero h le = refl
count_ok-range_list T try first step (suc n) h le =
    rw (count_ok, h first (omega (arith, le)))
      (omega (arith, count_ok-range_list T try (first + step) step n h (omega (arith, le))))

get_elem?-range_list :
    (first step n i : ℕ) → i < n → get_elem? (range_list first step n) i ≡ some (first + i * step)
unfolding range_list
get_elem?-range_list first step zero i h = absurd (omega arith)
get_elem?-range_list first step (suc n) zero h = ap some (omega arith)
get_elem?-range_list first step (suc n) (suc i) h =
    get_elem?-range_list (first + step) step n i (omega (arith, h))
    ∙ ap some (let e : first + step + i * step ≡ first + suc i * step = omega arith in e)

reached-range_list : (step n : ℕ) → reached n (range_list step step n) ≡ n * step
unfolding reached range_list
reached-range_list step zero = omega arith
reached-range_list step (suc n) =
    rw (get_elem?-range_list step step (suc n) n (omega arith)) (omega arith)

not_zero : (n : ℕ) → 0 < n → (n == 0) ≡ false
not_zero n h = ground (arith, h)

module _ (rounded : ℕ → ℕ → ℕ) (g : Settings) (pos : 0 < g.block) (T : ℕ) where
  assemble_B :
      (try : ℕ → Step) (paths : ℕ)
      → ((b : ℕ) → b ≤ T → try b ≡ block_stored)
      → 0 < T / g.block
      → assemble_and_write rounded T try paths (boundaries g.block 0 T)
        ≡ record { paths = paths; B = full_tokens g T; coverage = rounded (full_tokens g T) T }
  unfolding assemble_and_write
  assemble_B try paths all some_blocks =
      let n = T / g.block in
      rw (boundaries-zero g.block T pos) (
        rw (bounds_of-range_list T g.block g.block n pos (omega (arith, pos))) (
          rw (count_ok-range_list T try g.block g.block n all (omega (arith, pos)))
            (rw (reached-range_list g.block n) (rw (not_zero n some_blocks) refl))))

  -- For a positive block size and a prompt with a full block: if the capture has the boundaries of the whole prompt, every one of them
  -- is stored, the writer has written something, and the coverage of the full blocks reaches the
  -- minimum, a capture that was judged complete keeps that verdict.
  pub pull_verdict-complete :
      (try : ℕ → Step) (paths : ℕ)
      → ((b : ℕ) → b ≤ T → try b ≡ block_stored)
      → 0 < T / g.block
      → 0 < paths
      → g.min_coverage ≤ rounded (full_tokens g T) T
      → pull_verdict g T complete (assemble_and_write rounded T try paths (boundaries g.block 0 T))
        ≡ some complete
  unfolding pull_verdict is_too_little
  pull_verdict-complete try paths all some_blocks written covered =
      ap (pull_verdict g T complete) (assemble_B try paths all some_blocks)
      ∙ rw (not_zero paths written) (
          rw (le→ltb-false (rounded (full_tokens g T) T) g.min_coverage covered)
            (rw (le→ltb-false (full_tokens g T) (full_tokens g T) (omega arith)) refl))
