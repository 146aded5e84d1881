-- ===== src/Tests/Pool.antt =====
-- Pooling of nine rows in windows of four, with numbers in place of tensors.
use pd_bridge.Prelude.{joined, ℕ, ◌+◌, ◌*◌, ◌≡◌, some, List, [], ◌∷◌, arith}
use pd_bridge.Pool.{Ops, pool_chunks}
use pd_bridge.Pool.Calls.{after, whole}
use pd_bridge.Pool.Chunks.{pool_chunks-whole}

abbrev pub sum : List ℕ → ℕ
sum [] = 0
sum (x ∷ xs) = x + sum xs

abbrev pub ops : Ops ℕ ℕ ℕ
ops = record {
  bias = λ j x. x + j;
  lane_a = λ j x. 2 * x + j;
  lane_b = λ j x. 3 * x + j;
  blank = 0 ∷ 0 ∷ 0 ∷ 0 ∷ [];
  attend = sum;
  norm = λ x. x + 1;
  rotate = λ p x. 1000 * p + x;
}

abbrev first : List ℕ
first = 1 ∷ 2 ∷ 3 ∷ []

abbrev chunks : List (List ℕ)
chunks = (4 ∷ 5 ∷ 6 ∷ 7 ∷ 8 ∷ []) ∷ [] ∷ (9 ∷ []) ∷ []

pool_chunks-whole_example :
    pool_chunks ops 4 4 (first ∷ chunks) 0
    ≡ some (whole ops 4 (joined (first ∷ chunks)), after 4 (joined (first ∷ chunks)))
pool_chunks-whole_example = pool_chunks-whole ops 4 (omega arith) first chunks
