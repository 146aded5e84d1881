-- ===== src/Segments/Pools.antt =====
-- What a segment takes from a pool, and what it leaves.
use mathlib.Core.Path.{subst}
use mathlib.Core.Bool.{false≢true}
use mathlib.Core.Option as Option
use pd_bridge.Prelude.{
  ℕ, zero, suc, ◌+◌, ◌-◌, ◌/◌, ◌≤◌, ◌≡◌, refl, ap, ◌∙◌, sym, Bool, true, false, not, ◌&&◌, ◌||◌,
  Option, none, some, List, [], ◌∷◌, ◌++◌, append-nil, append_assoc, arith, ltb, leb, ◌==◌,
  if◌then◌else◌, length, take, drop, joined, length-append, length-take, length-drop,
  take-append-drop, Bool-cases, Option-cases, inl, inr, find, pop, le→ltb-false, ltb→lt,
  ltb-false→le, leb→le,
}
use pd_bridge.Segments.{
  SegPool, PoolPart, total, take_from, pooled_rows, detached, take_pooled, is_there, is_ready,
  with_prev_of, take_part,
}

pub both : (x y : Bool) → (x && y) ≡ true → (x ≡ true) × (y ≡ true)
both x y h = ground arith

no_window :
    {A : Type 0} (four : Bool) (o : Option A)
    → four ≡ true
    → o ≡ none
    → (not four || is_there o) ≡ true
    → ⊥
no_window four o e e' h =
    false≢true (ap (λ w. false || is_there w) (sym e') ∙ ap (λ f. not f || is_there o) (sym e) ∙ h)

module _ {P : Type 0} where
  record Taken (need : ℕ) (pooled : List (List P)) : Type 0 where
    got : List (List P)
    rest : List (List P)
    run : take_from need pooled ≡ some (got, rest)
    rows_eq : joined got ++ joined rest ≡ joined pooled
    size : length (joined got) ≡ need
    left : total rest + need ≡ total pooled

  taken : (need : ℕ) (pooled : List (List P)) → need ≤ total pooled → Taken need pooled
  unfolding take_from
  taken zero pooled h = record {
    got = [];
    rest = pooled;
    run = refl;
    rows_eq = refl;
    size = refl;
    left = omega arith;
  }
  taken (suc n) [] h = absurd (omega (arith, h))
  taken (suc n) (p ∷ ps) h = elim (Bool-cases (ltb (suc n) (length p))) [
    | inl part ↦ record {
      got = take (suc n) p ∷ [];
      rest = drop (suc n) p ∷ ps;
      run = rw part refl;
      rows_eq =
          ap (λ l. l ++ (drop (suc n) p ++ joined ps)) (append-nil (take (suc n) p))
          ∙ sym (append_assoc (take (suc n) p) (drop (suc n) p) (joined ps))
          ∙ ap (λ l. l ++ joined ps) (take-append-drop (suc n) p);
      size =
          ap length (append-nil (take (suc n) p))
          ∙ length-take (suc n) p
          ∙ omega (arith, ltb→lt (suc n) (length p) part);
      left = omega (arith, length-drop (suc n) p, ltb→lt (suc n) (length p) part);
    }
    | inr all ↦
        let le = ltb-false→le (suc n) (length p) all in
        let t = taken (suc n - length p) ps (omega (arith, h, le)) in
        record {
          got = p ∷ t.got;
          rest = t.rest;
          run = rw all (rw t.run refl);
          rows_eq = append_assoc p (joined t.got) (joined t.rest) ∙ ap (λ l. p ++ l) t.rows_eq;
          size = omega (arith, length-append p (joined t.got), t.size, le);
          left = omega (arith, t.left, le);
        }
  ]

module _ {A P : Type 0} where
  -- What a pool has given to a segment, up to the row `upto`.
  pub record Gave (upto : ℕ) (s : SegPool A P) (rows : List P) (t : SegPool A P) : Type 0 where
    pub rows_eq : rows ++ joined t.pooled ≡ joined s.pooled
    pub size : s.shipped + length rows ≡ upto
    pub shipped_eq : t.shipped ≡ upto
    pub count_eq : pooled_rows t ≡ pooled_rows s

  take_pooled-Gave :
      (upto : ℕ) (s : SegPool A P)
      → s.shipped ≤ upto
      → upto ≤ pooled_rows s
      → (rows : List P) × (rest : List (List P)) × (take_pooled upto s
          ≡ (record s { pooled = rest; shipped = upto }, some rows))
        × Gave upto s rows (record s { pooled = rest; shipped = upto })
  unfolding take_pooled
  take_pooled-Gave upto s le enough =
      let t = taken (upto - s.shipped) s.pooled (omega (arith, le, enough)) in
      (
        joined t.got,
        t.rest,
        rw (le→ltb-false upto s.shipped le)
            (rw (le→ltb-false (pooled_rows s) upto enough) (ap (detached upto s) t.run)),
        record {
          rows_eq = t.rows_eq;
          size = omega (arith, t.size, le);
          shipped_eq = refl;
          count_eq = omega (arith, t.left, le);
        },
      )

  -- a pool with its part of the segment of boundary `b`
  pub record PoolShips (b : ℕ) (s : SegPool A P) (p : PoolPart A P) (t : SegPool A P) : Type 0 where
    pub gave : Gave (b / s.ratio) s p.rows t
    pub prev_eq : p.prev ≡ (if s.ratio == 4 then find b s.prev else none)
    pub left_eq : t.prev ≡ (if s.ratio == 4 then pop b s.prev else s.prev)

  abbrev pub Ships :
      ℕ → Option (SegPool A P) → Option (PoolPart A P) → Option (SegPool A P) → Type 0
  Ships b none part pool = (part ≡ none) × (pool ≡ none)
  Ships b (some s) part pool =
      (p : PoolPart A P) × (t : SegPool A P) × (part ≡ some p) × (pool ≡ some t) × PoolShips b s p t

  -- no row at the boundary or behind it is shipped yet
  abbrev pub is_behind : ℕ → Option (SegPool A P) → Bool
  is_behind b none = true
  is_behind b (some s) = leb s.shipped (b / s.ratio)

  -- the rows of a pool with the window behind them
  part_of :
      (b : ℕ) (s : SegPool A P) (rows : List P) (rest : List (List P)) (upto : ℕ)
      → upto ≡ b / s.ratio
      → (not (s.ratio == 4) || is_there (find b s.prev)) ≡ true
      → Gave upto s rows (record s { pooled = rest; shipped = upto })
      → (p : PoolPart A P) × (t : SegPool A P) × (with_prev_of b
            (record s { pooled = rest; shipped = upto }, some rows)
          ≡ (t, some p))
        × PoolShips b s p t
  part_of b s rows rest upto e h g = elim (Bool-cases (s.ratio == 4)) [
    | inl four ↦ elim (Option-cases (find b s.prev)) [
      | inl missing ↦ absurd (no_window (s.ratio == 4) (find b s.prev) four missing h)
      | inr (w, found) ↦ (
        record { rows = rows; prev = some w },
        record s { pooled = rest; shipped = upto; prev = pop b s.prev },
        rw four (
            ap
              (λ o. (
                record s { pooled = rest; shipped = upto; prev = pop b s.prev },
                Option.map (λ w. record { rows = rows; prev = some w }) o,
              ))
              found),
        record {
          gave =
              subst
                (λ u.
                  Gave u s rows (record s { pooled = rest; shipped = upto; prev = pop b s.prev }))
                e
                (record {
                  rows_eq = g.rows_eq;
                  size = g.size;
                  shipped_eq = g.shipped_eq;
                  count_eq = g.count_eq;
                });
          prev_eq = rw four (sym found);
          left_eq = rw four refl;
        },
      )
    ]
    | inr other ↦ (
      record { rows = rows; prev = none },
      record s { pooled = rest; shipped = upto },
      rw other refl,
      record {
        gave = subst (λ u. Gave u s rows (record s { pooled = rest; shipped = upto })) e g;
        prev_eq = rw other refl;
        left_eq = rw other refl;
      },
    )
  ]

  pub take_part-Ships :
      (b : ℕ) (o : Option (SegPool A P))
      → is_ready b o ≡ true
      → is_behind b o ≡ true
      → (part : Option (PoolPart A P)) × (pool : Option (SegPool A P)) × (take_part b o
          ≡ (pool, some part))
        × Ships b o part pool
  take_part-Ships b none ready behind = (none, none, refl, (refl, refl))
  take_part-Ships b (some s) ready behind =
      let (enough, window) =
        both (leb (b / s.ratio) (pooled_rows s)) (not (s.ratio == 4) || is_there (find b s.prev))
          ready in
      let (rows, rest, run, g) =
        take_pooled-Gave (b / s.ratio) s (leb→le s.shipped (b / s.ratio) behind)
          (leb→le (b / s.ratio) (pooled_rows s) enough) in
      let (p, t, run', ships) = part_of b s rows rest (b / s.ratio) refl window g in
      (
        some p,
        some t,
        ap (λ r. let (s', part) = with_prev_of b r in (some s', Option.map (λ p. some p) part)) run
            ∙ ap (λ r. (some r.0, Option.map (λ p. some p) r.1)) run',
        (p, t, refl, refl, ships),
      )
