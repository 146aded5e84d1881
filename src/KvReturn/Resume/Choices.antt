-- ===== src/KvReturn/Resume/Choices.antt =====
-- The saved state that a resumed request takes.
use pd_bridge.Prelude.{
  leb, ◌≤◌, ◌+◌, ℕ, ◌≡◌, refl, ap, ◌∙◌, Bool, true, false, not, ◌&&◌, ◌||◌, none, some, List, [],
  ◌∷◌, arith, ltb, ◌==◌, if◌then◌else◌, Bool-cases, inl, inr, ◌⊎◌,
}
use pd_bridge.KvReturn.Resume.{Meta, covers, is_newer, newer, best_state}

-- `(a, b) > (c, d)` is the order of pairs
pairs_trans :
    (a b c d e f : ℕ)
    → (ltb c a || ((a == c) && ltb d b)) ≡ false
    → (ltb e c || ((c == e) && ltb f d)) ≡ false
    → (ltb e a || ((a == e) && ltb f b)) ≡ false
pairs_trans a b c d e f h k = ground arith

pairs_asym :
    (a b c d : ℕ)
    → (ltb c a || ((a == c) && ltb d b)) ≡ true
    → (ltb a c || ((c == a) && ltb b d)) ≡ false
pairs_asym a b c d h = ground arith

not_newer_trans :
    (x y z : Meta) → is_newer x y ≡ false → is_newer y z ≡ false → is_newer x z ≡ false
not_newer_trans x y z = pairs_trans x.saved_at x.T y.saved_at y.T z.saved_at z.T

newer_asym : (x y : Meta) → is_newer x y ≡ true → is_newer y x ≡ false
newer_asym x y = pairs_asym x.saved_at x.T y.saved_at y.T

-- no description that covers the position is newer than `m`
abbrev pub none_newer : ℕ → Meta → List Meta → Bool
none_newer start m [] = true
none_newer start m (x ∷ xs) = not (covers start x && is_newer x m) && none_newer start m xs

abbrev pub none_covers : ℕ → List Meta → Bool
none_covers start [] = true
none_covers start (x ∷ xs) = not (covers start x) && none_covers start xs

-- What is chosen from `ms`, with the best one that was seen before.
record Chosen (start : ℕ) (b : Meta) (ms : List Meta) : Type 0 where
  m : Meta
  run : best_state start (some b) ms ≡ some m
  covering : covers start m ≡ true
  best : is_newer b m ≡ false
  newest : none_newer start m ms ≡ true

both_false : (a : Bool) → (a && false) ≡ false
both_false a = ground arith

not_best : (a b : Bool) → b ≡ false → not (a && b) ≡ true
not_best a b h = ground arith

of_both : (a b : Bool) → a ≡ true → (a && b) ≡ false → b ≡ false
of_both a b h k = ground arith

and_true : (a b : Bool) → a ≡ true → b ≡ true → (a && b) ≡ true
and_true a b h k = ground arith

range_of : (T far start : ℕ) → (leb T far && leb start T) ≡ true → (T ≤ far) × (start ≤ T)
range_of T far start h = ground arith

self_newer : (a b : ℕ) → (ltb a a || ((a == a) && ltb b b)) ≡ false
self_newer a b = ground arith

-- the first of the list took over, or it did not
took_over :
    (start : ℕ) (b x : Meta) (ms : List Meta)
    → covers start x ≡ true
    → is_newer x b ≡ true
    → Chosen start x ms
    → Chosen start b (x ∷ ms)
unfolding best_state
took_over start b x ms on over c = record {
  m = c.m;
  run = rw on (rw over c.run);
  covering = c.covering;
  best = not_newer_trans b x c.m (newer_asym x b over) c.best;
  newest = and_true _ _ (not_best (covers start x) (is_newer x c.m) c.best) c.newest;
}

kept_best :
    (start : ℕ) (b x : Meta) (ms : List Meta)
    → (if covers start x then some (newer x (some b)) else some b) ≡ some b
    → (covers start x && is_newer x b) ≡ false
    → Chosen start b ms
    → Chosen start b (x ∷ ms)
unfolding best_state
kept_best start b x ms e older c = record {
  m = c.m;
  run = ap (λ o. best_state start o ms) e ∙ c.run;
  covering = c.covering;
  best = c.best;
  newest =
      and_true _ _
        (elim (Bool-cases (covers start x)) [
          | inl on ↦
              not_best (covers start x) (is_newer x c.m)
                (not_newer_trans x b c.m (of_both (covers start x) (is_newer x b) on older) c.best)
          | inr off ↦ rw off refl
        ])
        c.newest;
}

chosen : (start : ℕ) (b : Meta) (ms : List Meta) → covers start b ≡ true → Chosen start b ms
unfolding best_state
chosen start b [] h = record {
  m = b;
  run = refl;
  covering = h;
  best = self_newer b.saved_at b.T;
  newest = refl;
}
chosen start b (x ∷ ms) h = elim (Bool-cases (covers start x)) [
  | inl on ↦ elim (Bool-cases (is_newer x b)) [
    | inl over ↦ took_over start b x ms on over (chosen start x ms on)
    | inr older ↦
        kept_best start b x ms (rw on (rw older refl)) (rw older (both_false (covers start x)))
          (chosen start b ms h)
  ]
  | inr off ↦ kept_best start b x ms (rw off refl) (rw off refl) (chosen start b ms h)
]

-- the position is in the description's range
covers-range :
    (start : ℕ) (m : Meta) → covers start m ≡ true → (m.T ≤ start + m.keep_extra) × (start ≤ m.T)
covers-range start m h = range_of m.T (start + m.keep_extra) start h

-- For any descriptions of saved states: where none of them covers the position, none is chosen; else one is chosen that covers
-- it, so that it lies within the kept rows before the end of the state or at that end, and no other one that covers it was
-- saved later, or at the same time behind more tokens.
pub best_state-IsChosen :
    (start : ℕ) (ms : List Meta)
    → ((none_covers start ms ≡ true) × (best_state start none ms ≡ none))
      ⊎ ((m : Meta) × (best_state start none ms ≡ some m)
          × (covers start m ≡ true)
          × (m.T ≤ start + m.keep_extra)
          × (start ≤ m.T)
          × (none_newer start m ms ≡ true))
unfolding best_state
best_state-IsChosen start [] = inl (refl, refl)
best_state-IsChosen start (x ∷ ms) = elim (Bool-cases (covers start x)) [
  | inl on ↦
      let c = chosen start x ms on in
      inr (
        c.m,
        rw on c.run,
        c.covering,
        (covers-range start c.m c.covering).0,
        (covers-range start c.m c.covering).1,
        and_true _ _ (not_best (covers start x) (is_newer x c.m) c.best) c.newest,
      )
  | inr off ↦ rw off (best_state-IsChosen start ms)
]
