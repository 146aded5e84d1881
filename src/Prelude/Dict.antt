-- ===== src/Prelude/Dict.antt =====
-- A dictionary with numbers as keys, in the order of insertion.
use Prim.Native.Nat.{ℕ, ◌<◌, ◌≤◌, max}
use mathlib.Core.Path.{◌≡◌, refl, ap, sym, ◌∙◌}
use mathlib.Core.Logic.{◌≢◌, inl, inr}
use mathlib.Core.Bool.{false}
use mathlib.Core.List.{List, [], ◌∷◌, ◌++◌, map}
use mathlib.Core.Option.{Option, none, some, some_inj}
use native.Mathlib.Omega.{arith}
use pd_bridge.Prelude.Tests.{◌==◌, ==_iff, ==_self, if◌then◌else◌, Bool-cases}

abbrev pub maximum : List ℕ → ℕ
maximum [] = 0
maximum (n ∷ ns) = max n (maximum ns)

pub ==-flip : (j k : ℕ) → (j == k) ≡ false → (k == j) ≡ false
==-flip j k h = ground (arith, ==_iff j k)

module _ {ℓ} {A : Type ℓ} where
  -- d.get(k)
  unfoldable pub find : ℕ → List (ℕ × A) → Option A
  find k [] = none
  find k ((j, a) ∷ m) = if j == k then some a else find k m

  -- d[k] = a
  unfoldable pub put : ℕ → A → List (ℕ × A) → List (ℕ × A)
  put k a [] = (k, a) ∷ []
  put k a ((j, b) ∷ m) = if j == k then (k, a) ∷ m else (j, b) ∷ put k a m

  -- d.pop(k, None)
  unfoldable pub pop : ℕ → List (ℕ × A) → List (ℕ × A)
  pop k [] = []
  pop k ((j, b) ∷ m) = let rest = pop k m in if j == k then rest else (j, b) ∷ rest

  pub find-pop_same : (k : ℕ) (m : List (ℕ × A)) → find k (pop k m) ≡ none
  unfolding find pop
  find-pop_same k [] = refl
  find-pop_same k ((j, b) ∷ m) = elim (Bool-cases (j == k)) [
    | inl e ↦ rw e (find-pop_same k m)
    | inr ne ↦ rw ne (rw ne (find-pop_same k m))
  ]

  pub find-pop_other : (k i : ℕ) (m : List (ℕ × A)) → i ≢ k → find i (pop k m) ≡ find i m
  unfolding find pop
  find-pop_other k i [] ne = refl
  find-pop_other k i ((j, b) ∷ m) ne =
      ground (arith, ==_iff j k, ==_iff j i, find-pop_other k i m ne, ne)

  -- every key is below `n`
  abbrev pub Below : ℕ → List (ℕ × A) → Type 0
  Below n [] = 0 ≤ n
  Below n ((j, a) ∷ m) = (j < n) × Below n m

  -- a new key goes to the end
  pub put-new : (n : ℕ) (a : A) (m : List (ℕ × A)) → Below n m → put n a m ≡ m ++ ((n, a) ∷ [])
  unfolding put
  put-new n a [] h = refl
  put-new n a ((j, b) ∷ m) (lt, rest) = ground (arith, put-new n a m rest)

  pub Below-append : (n : ℕ) (m m' : List (ℕ × A)) → Below n m → Below n m' → Below n (m ++ m')
  Below-append n [] m' h h' = h'
  Below-append n ((j, b) ∷ m) m' (lt, rest) h' = (lt, Below-append n m m' rest h')

  pub Below-mono : (n k : ℕ) (m : List (ℕ × A)) → n ≤ k → Below n m → Below k m
  Below-mono n k [] le h = omega arith
  Below-mono n k ((j, b) ∷ m) le (lt, rest) = (omega arith, Below-mono n k m le rest)

  pub find-put_same : (k : ℕ) (a : A) (m : List (ℕ × A)) → find k (put k a m) ≡ some a
  unfolding find put
  find-put_same k a [] = rw (==_self k) refl
  find-put_same k a ((j, b) ∷ m) = elim (Bool-cases (j == k)) [
    | inl e ↦ rw e (rw (==_self k) refl)
    | inr ne ↦ rw ne (rw ne (find-put_same k a m))
  ]

  pub find-put_other :
      (j k : ℕ) (a : A) (m : List (ℕ × A)) → (k == j) ≡ false → find j (put k a m) ≡ find j m
  unfolding find put
  find-put_other j k a [] ne = rw ne refl
  find-put_other j k a ((i, b) ∷ m) ne =
      let ih = find-put_other j k a m ne in
      elim (Bool-cases (i == k)) [
        | inl e ↦
            let far : (i == j) ≡ false = ap (λ l. l == j) ((==_iff i k).0 e) ∙ ne in
            rw e (rw ne (rw far refl))
        | inr other ↦ rw other (ground (arith, ih))
      ]

  -- no key stands twice
  abbrev pub Distinct : List (ℕ × A) → Type ℓ
  Distinct [] = ◌≡◌ {A = List (ℕ × A)} [] []
  Distinct ((j, a) ∷ m) = (find j m ≡ none) × Distinct m

  pub put-Distinct : (k : ℕ) (a : A) (m : List (ℕ × A)) → Distinct m → Distinct (put k a m)
  unfolding find put
  put-Distinct k a [] h = (refl, refl)
  put-Distinct k a ((j, b) ∷ m) (new, rest) = elim (Bool-cases (j == k)) [
    | inl e ↦ rw e (ap (λ i. find i m) (sym ((==_iff j k).0 e)) ∙ new, rest)
    | inr ne ↦ rw ne (find-put_other j k a m (==-flip j k ne) ∙ new, put-Distinct k a m rest)
  ]

  pub behind :
      (j : ℕ) (b : A) (k : ℕ) (a : A) (m : List (ℕ × A))
      → find j m ≡ none
      → find k m ≡ some a
      → find k ((j, b) ∷ m) ≡ some a
  unfolding find
  behind j b k a m new e = elim (Bool-cases (j == k)) [
    | inl same ↦ absurd (cc (sym new ∙ ap (λ i. find i m) ((==_iff j k).0 same) ∙ e))
    | inr ne ↦ rw ne e
  ]

  -- every entry is found under its key
  pub maximum_entry :
      (f : A → ℕ) (n : ℕ) (m : List (ℕ × A))
      → Distinct m
      → ((k : ℕ) (a : A) → find k m ≡ some a → f a ≤ n)
      → maximum (map (λ (e : ℕ × A). f e.1) m) ≤ n
  unfolding find
  maximum_entry f n [] h all = omega arith
  maximum_entry f n ((j, b) ∷ m) (new, rest) all =
      let here = all j b (rw (==_self j) refl) in
      let there = maximum_entry f n m rest (λ k a e. all k a (behind j b k a m new e)) in
      omega (arith, here, there)

  pub at_most-maximum :
      (f : A → ℕ) (k : ℕ) (a : A) (m : List (ℕ × A))
      → find k m ≡ some a
      → f a ≤ maximum (map (λ (e : ℕ × A). f e.1) m)
  unfolding find
  at_most-maximum f k a [] e = absurd (cc e)
  at_most-maximum f k a ((j, b) ∷ m) e = elim (Bool-cases (j == k)) [
    | inl same ↦
        let found : some b ≡ some a = (rw same refl) ∙ e in omega (arith, ap f (some_inj.0 found))
    | inr ne ↦
        let found : find k m ≡ some a = (rw ne refl) ∙ e in
        omega (arith, at_most-maximum f k a m found)
  ]
