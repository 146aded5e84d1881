-- ===== src/Pool/Calls.antt =====
-- What one call of `pool_layer` gives, and the arithmetic of its windows.
use pd_bridge.Prelude.{
  div_unique, ℕ, zero, suc, ◌+◌, ◌-◌, ◌*◌, ◌/◌, ◌%◌, ◌≤◌, ◌<◌, ◌≡◌, refl, ap, ◌∙◌, sym, Bool, true,
  false, not, Option, none, some, List, [], ◌∷◌, ◌++◌, map, arith, drop-append, ltb, ◌==◌, ==_iff,
  lt→ltb, le→ltb-false, if◌then◌else◌, length, take, drop, drop-drop,
}
use pd_bridge.Pool.{
  Ops, Carry, indexed, windows, last_of, buffered, unless_empty, pooled, pool_layer,
}
use pd_bridge.Pool.Windows.{last_of-append}

-- What the pooling of the rows `xs` leaves for the next call.
abbrev pub after : {A : Type 0} → ℕ → List A → Carry A
after r xs = record {
  buf = unless_empty (drop (length xs / r * r) xs);
  prev = if r == 4 then last_of (windows r (length xs / r) xs) else none;
  processed = length xs;
}

no_window : (n : ℕ) → n ≡ 0 → ltb 0 n ≡ false
no_window n h = le→ltb-false 0 n (omega (arith, h))

-- the windows of `a + b` rows: those of `a`, and those of the rest with `b`
pub div_split : (a b r : ℕ) → 0 < r → (a + b) / r ≡ a / r + (a - a / r * r + b) / r
div_split a b r pos =
    div_unique (a / r + (a - a / r * r + b) / r) (a + b) r pos (omega (arith, pos))
      (omega (arith, pos))

same_eq : (m n : ℕ) → m ≡ n → (m == n) ≡ true
same_eq m n h = (==_iff m n).1 h

second_branch {ℓ} :
    {A : Type ℓ} (b d : Bool) (x y : Option A)
    → b ≡ true
    → d ≡ true
    → (if not b then none else if d then x else y) ≡ x
second_branch b d x y h k = ground arith

third_branch {ℓ} :
    {A : Type ℓ} (b d : Bool) (x y : Option A)
    → b ≡ true
    → d ≡ false
    → (if not b then none else if d then x else y) ≡ y
third_branch b d x y h k = ground arith

module _ {A H P : Type 0} (ops : Ops A H P) where
  open ops use {norm, rotate}

  -- The rows that all complete windows of `xs` are pooled to.
  abbrev pub whole : ℕ → List A → List P
  whole r xs = indexed rotate 0 (map norm (pooled ops (r == 4) none (windows r (length xs / r) xs)))

  pub busy :
      (r fs : ℕ) (rows : List A) (start : ℕ) (c : Carry A) (ws : List (List A))
      (nb : Option (List A)) (pos : ℕ)
      → c.processed ≡ start
      → 0 < (length (buffered c.buf) + length rows) / r * r
      → windows r ((length (buffered c.buf) + length rows) / r * r / r) (
          buffered c.buf
          ++ take ((length (buffered c.buf) + length rows) / r * r - length (buffered c.buf)) rows)
        ≡ ws
      → (if ltb 0 ((length (buffered c.buf) + length rows) % r)
          then some (drop (length rows - (length (buffered c.buf) + length rows) % r) rows)
          else none)
        ≡ nb
      → (start - length (buffered c.buf)) / fs ≡ pos
      → pool_layer ops r fs rows start c
        ≡ some (
          indexed rotate pos (map norm (pooled ops (r == 4) c.prev ws)),
          record {
            buf = nb;
            prev = if r == 4 then last_of ws else c.prev;
            processed = start + length rows;
          },
        )
  unfolding pool_layer
  busy r fs rows start c ws nb pos h1 h2 h3 h4 h5 =
      second_branch (c.processed == start) (ltb 0 _) _ _ (same_eq c.processed start h1)
        (lt→ltb 0 _ h2)
      ∙ cc (h3, h4, h5)

  pub idle :
      (r fs : ℕ) (rows : List A) (start : ℕ) (c : Carry A)
      → c.processed ≡ start
      → (length (buffered c.buf) + length rows) / r * r ≡ 0
      → pool_layer ops r fs rows start c
        ≡ some (
          [],
          record {
            buf = unless_empty (buffered c.buf ++ rows);
            prev = c.prev;
            processed = start + length rows;
          },
        )
  unfolding pool_layer
  idle r fs rows start c h1 h2 =
      third_branch (c.processed == start) (ltb 0 _) _ _ (same_eq c.processed start h1)
        (no_window _ h2)

pub positive : (n r : ℕ) → 0 < n * r → 0 < n
positive zero r h = absurd (omega arith)
positive (suc n) r h = omega arith

pub last_of-longer {ℓ} :
    {A : Type ℓ} (xs ys : List A) → 0 < length ys → last_of (xs ++ ys) ≡ last_of ys
last_of-longer xs [] h = absurd (omega arith)
last_of-longer xs (y ∷ ys) h = last_of-append xs y ys

pub carried {ℓ} :
    {A : Type ℓ} (o : Bool) (a b c : Option A)
    → b ≡ a
    → (if o then a else if o then c else none) ≡ (if o then b else none)
carried o a b c h = ground arith

pub times_pos : (n r : ℕ) → 0 < n → 0 < r → 0 < n * r
times_pos n r h k = grind arith

pub drop-behind {ℓ} :
    {A : Type ℓ} (k : ℕ) (xs ys : List A)
    → length xs ≤ k
    → drop k (xs ++ ys) ≡ drop (k - length xs) ys
drop-behind k xs ys h =
    ap (λ j. drop j (xs ++ ys)) (let e : k ≡ length xs + (k - length xs) = omega arith in e)
    ∙ sym (drop-drop (k - length xs) (length xs) (xs ++ ys))
    ∙ ap (drop (k - length xs)) (drop-append (length xs) xs ys refl)
