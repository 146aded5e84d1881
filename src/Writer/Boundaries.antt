-- ===== src/Writer/Boundaries.antt =====
-- The boundaries that `finalize` goes through: those in time are among them, and the last one is behind all others.
use pd_bridge.Prelude.{
  ℕ, ◌<◌, ◌≤◌, ◌≡◌, refl, ap, ◌∙◌, sym, true, false, ◌||◌, some, List, [], ◌∷◌, arith, ltb, ◌==◌,
  ==_iff, Bool-cases, ◌⊎◌, inl, inr, ltb→lt,
}
use pd_bridge.Hook.Finish.{insert, insert_all}
use pd_bridge.Hook.Finish.Contents.{has}
use pd_bridge.Writer.{is_boundary, in_time, last_boundary}
use pd_bridge.Writer.Stored.{AllWithin}

module _ (block T : ℕ) where
  pub has-in_time :
      (tc : ℕ) (tcs : List ℕ)
      → is_boundary block T tc ≡ true
      → has tc tcs ≡ true
      → has tc (in_time block T tcs) ≡ true
  unfolding in_time
  has-in_time tc [] b h = h
  has-in_time tc (n ∷ tcs) b h = elim (Bool-cases (n == tc)) [
    | inl same ↦
        let eq : n ≡ tc = (==_iff n tc).0 same in
        rw (ap (is_boundary block T) eq ∙ b) (rw same refl)
    | inr other ↦
        let ih = has-in_time tc tcs b (ap (λ c. c || has tc tcs) (sym other) ∙ h) in
        elim (Bool-cases (is_boundary block T n)) [
          | inl is ↦ rw is (rw other ih)
          | inr isnt ↦ rw isnt ih
        ]
  ]

  pub boundary_within : (n : ℕ) → is_boundary block T n ≡ true → n ≤ T
  boundary_within n h = ground arith

  pub in_time-AllWithin : (tcs : List ℕ) → AllWithin T (in_time block T tcs)
  unfolding in_time
  in_time-AllWithin [] = omega arith
  in_time-AllWithin (n ∷ tcs) = elim (Bool-cases (is_boundary block T n)) [
    | inl is ↦ rw is (boundary_within n is, in_time-AllWithin tcs)
    | inr isnt ↦ rw isnt (in_time-AllWithin tcs)
  ]

module _ (T : ℕ) where
  insert-AllWithin : (k : ℕ) (js : List ℕ) → k ≤ T → AllWithin T js → AllWithin T (insert k js)
  unfolding insert
  insert-AllWithin k [] h all = (h, omega arith)
  insert-AllWithin k (j ∷ js) h (hj, all) =
      let ih = insert-AllWithin k js h all in ground (arith, ih, h, hj, all)

  pub insert_all-AllWithin :
      (ks js : List ℕ) → AllWithin T ks → AllWithin T js → AllWithin T (insert_all ks js)
  unfolding insert_all
  insert_all-AllWithin [] js hk hj = hj
  insert_all-AllWithin (k ∷ ks) js (h, hk) hj =
      insert-AllWithin k (insert_all ks js) h (insert_all-AllWithin ks js hk hj)

-- ascending numbers above `n`
abbrev AllAbove : ℕ → List ℕ → Type 0
AllAbove n [] = 0 ≤ n
AllAbove n (j ∷ js) = (n < j) × AllAbove j js

abbrev pub IsAscending : List ℕ → Type 0
IsAscending [] = 0 ≤ 0
IsAscending (j ∷ js) = AllAbove j js

ne-lt : (k j : ℕ) → (k == j) ≡ false → ltb k j ≡ false → j < k
ne-lt k j h h' = ground (arith, ==_iff k j)

insert-AllAbove : (n k : ℕ) (js : List ℕ) → n < k → AllAbove n js → AllAbove n (insert k js)
unfolding insert
insert-AllAbove n k [] lt h = (lt, omega arith)
insert-AllAbove n k (j ∷ js) lt (lt', h) = elim (Bool-cases (k == j)) [
  | inl same ↦ rw same (lt', h)
  | inr ne ↦ elim (Bool-cases (ltb k j)) [
    | inl before ↦ rw ne (rw before (lt, (ltb→lt k j before, h)))
    | inr past ↦ rw ne (rw past (lt', insert-AllAbove j k js (ne-lt k j ne past) h))
  ]
]

insert-IsAscending : (k : ℕ) (js : List ℕ) → IsAscending js → IsAscending (insert k js)
unfolding insert
insert-IsAscending k [] h = omega arith
insert-IsAscending k (j ∷ js) h = elim (Bool-cases (k == j)) [
  | inl same ↦ rw same h
  | inr ne ↦ elim (Bool-cases (ltb k j)) [
    | inl before ↦ rw ne (rw before (ltb→lt k j before, h))
    | inr past ↦ rw ne (rw past (insert-AllAbove j k js (ne-lt k j ne past) h))
  ]
]

pub insert_all-IsAscending : (ks js : List ℕ) → IsAscending js → IsAscending (insert_all ks js)
unfolding insert_all
insert_all-IsAscending [] js h = h
insert_all-IsAscending (k ∷ ks) js h =
    insert-IsAscending k (insert_all ks js) (insert_all-IsAscending ks js h)

-- one of a list is its first or one of the others
has_cases : (tc j : ℕ) (js : List ℕ) → has tc (j ∷ js) ≡ true → (j ≡ tc) ⊎ (has tc js ≡ true)
has_cases tc j js h = elim (Bool-cases (j == tc)) [
  | inl same ↦ inl ((==_iff j tc).0 same)
  | inr ne ↦ inr (ap (λ b. b || has tc js) (sym ne) ∙ h)
]

last_behind :
    (j : ℕ) (js : List ℕ)
    → AllAbove j js
    → (m : ℕ) × (last_boundary (j ∷ js) ≡ some m)
      × (j ≤ m)
      × ((tc : ℕ) → has tc (j ∷ js) ≡ true → tc ≤ m)
unfolding last_boundary
last_behind j [] h = (
  j,
  refl,
  omega arith,
  λ tc e. elim (has_cases tc j [] e) [
    | inl same ↦ omega (arith, same)
    | inr other ↦ absurd (cc other)
  ],
)
last_behind j (k ∷ js) (lt, h) =
    let (m, e, le, all) = last_behind k js h in
    (
      m,
      e,
      omega (arith, lt, le),
      λ tc e'. elim (has_cases tc j (k ∷ js) e') [
        | inl same ↦ omega (arith, same, lt, le)
        | inr other ↦ all tc other
      ],
    )

pub has-last_boundary :
    (tc : ℕ) (js : List ℕ)
    → IsAscending js
    → has tc js ≡ true
    → (m : ℕ) × (last_boundary js ≡ some m) × (tc ≤ m)
has-last_boundary tc [] h e = absurd (cc e)
has-last_boundary tc (j ∷ js) h e = let (m, e', le, all) = last_behind j js h in (m, e', all tc e)
