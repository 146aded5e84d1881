-- ===== src/Hook/Boundaries.antt =====
-- `_boundaries`: the multiples of the block size in a range.
use pd_bridge.Prelude.{
  div_unique, div_mono, ℕ, zero, suc, ◌+◌, ◌-◌, ◌*◌, ◌/◌, ◌≤◌, ◌<◌, ◌≡◌, ap, ◌∙◌, sym, List, [],
  ◌∷◌, ◌++◌, arith,
}

-- list(range(first, …, step)), `n` numbers
unfoldable pub range_list : ℕ → ℕ → ℕ → List ℕ
range_list first step zero = []
range_list first step (suc n) = first ∷ range_list (first + step) step n

-- `range` has as many numbers as there are steps below its end.
unfoldable pub boundaries : ℕ → ℕ → ℕ → List ℕ
unfolding range_list
boundaries block lo hi =
    let first = (lo / block + 1) * block in
    range_list first block ((hi + 1 - first + (block - 1)) / block)

-- how many multiples there are in (lo, hi]
count_eq :
    (block lo hi : ℕ)
    → 0 < block
    → lo ≤ hi
    → (hi + 1 - (lo / block + 1) * block + (block - 1)) / block ≡ hi / block - lo / block
count_eq block lo hi pos h =
    let a = lo / block in
    let b = hi / block in
    let le = div_mono block lo hi pos h in
    let steps : b ≡ a + (b - a) = omega (arith, le) in
    let grown : b * block ≡ (a + (b - a)) * block = ap (λ t. t * block) steps in
    div_unique (b - a) (hi + 1 - (a + 1) * block + (block - 1)) block pos
      (omega (arith, grown, pos, h)) (omega (arith, grown, pos, h))

pub range_list_add :
    (first step m n : ℕ)
    → range_list first step (m + n)
      ≡ range_list first step m ++ range_list (first + m * step) step n
unfolding range_list
range_list_add first step zero n =
    ap (range_list first step) (let e : 0 + n ≡ n = omega arith in e)
    ∙ ap (λ k. range_list k step n) (let e : first ≡ first + 0 * step = omega arith in e)
range_list_add first step (suc m) n =
    ap (range_list first step) (let e : suc m + n ≡ suc (m + n) = omega arith in e)
    ∙ ap (◌∷◌ first) (
        range_list_add (first + step) step m n
        ∙ ap (λ k. range_list (first + step) step m ++ range_list k step n)
            (let e : first + step + m * step ≡ first + suc m * step = omega arith in e))

pub boundaries_lem :
    (block lo hi : ℕ)
    → 0 < block
    → lo ≤ hi
    → boundaries block lo hi ≡ range_list ((lo / block + 1) * block) block (hi / block - lo / block)
unfolding boundaries
boundaries_lem block lo hi pos h =
    ap (range_list ((lo / block + 1) * block) block) (count_eq block lo hi pos h)

-- The boundaries of two ranges that meet.
pub boundaries-append :
    (block lo mid hi : ℕ)
    → 0 < block
    → lo ≤ mid
    → mid ≤ hi
    → boundaries block lo mid ++ boundaries block mid hi ≡ boundaries block lo hi
boundaries-append block lo mid hi pos h k =
    let a = lo / block in
    let b = mid / block in
    let c = hi / block in
    let le = div_mono block lo mid pos h in
    let le' = div_mono block mid hi pos k in
    let steps : b ≡ a + (b - a) = omega (arith, le) in
    let grown : b * block ≡ (a + (b - a)) * block = ap (λ t. t * block) steps in
    ap (λ l. l ++ boundaries block mid hi) (boundaries_lem block lo mid pos h)
    ∙ ap (λ l. range_list ((a + 1) * block) block (b - a) ++ l)
        (boundaries_lem block mid hi pos k
          ∙ ap (λ f. range_list f block (c - b))
              (let e : (b + 1) * block ≡ (a + 1) * block + (b - a) * block = omega (arith, grown) in
                e))
    ∙ sym (range_list_add ((a + 1) * block) block (b - a) (c - b))
    ∙ ap (range_list ((a + 1) * block) block)
        (let e : b - a + (c - b) ≡ c - a = omega (arith, le, le') in e)
    ∙ sym (boundaries_lem block lo hi pos (omega arith))

pub boundaries-zero :
    (block n : ℕ) → 0 < block → boundaries block 0 n ≡ range_list block block (n / block)
boundaries-zero block n pos =
    let zero_div : 0 / block ≡ 0 = div_unique 0 0 block pos (omega arith) (omega (arith, pos)) in
    boundaries_lem block 0 n pos (omega arith)
    ∙ ap (λ k. range_list ((k + 1) * block) block (n / block - k)) zero_div
    ∙ ap (λ k. range_list k block (n / block - 0)) (omega arith)
    ∙ ap (range_list block block) (omega arith)
