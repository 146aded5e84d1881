-- ===== src/Prelude/Numbers.antt =====
-- Quotients by a variable.
use Prim.Native.Nat.{ℕ, zero, suc, ◌+◌, ◌*◌, ◌/◌, ◌≤◌, ◌<◌}
use mathlib.Core.Path.{◌≡◌}
use mathlib.Core.Logic.{◌⊎◌, inl, inr}
use native.Mathlib.Omega.{arith}
use mathlib.Core.Path.{refl}

pub div_unique : (k n r : ℕ) → 0 < r → k * r ≤ n → n < k * r + r → n / r ≡ k
div_unique k n r pos low high = grind arith

pub div_le : (b k l m n : ℕ) → k * b ≤ m → n < (l + 1) * b → m ≤ n → k ≤ l
div_le b k l m n low high h = grind arith

pub div_mono : (b m n : ℕ) → 0 < b → m ≤ n → m / b ≤ n / b
div_mono b m n pos h = div_le b (m / b) (n / b) m n (omega (arith, pos)) (omega (arith, pos)) h

pub mul_mono : (m n b : ℕ) → m ≤ n → m * b ≤ n * b
mul_mono m n b h = grind arith

pub at_least : (n r : ℕ) → 0 < n * r → r ≤ n * r
at_least zero r h = absurd (omega arith)
at_least (suc n) r h = omega arith

pub ℕ-cases : (n : ℕ) → (n ≡ 0) ⊎ (0 < n)
ℕ-cases zero = inl refl
ℕ-cases (suc n) = inr (omega arith)
