-- ===== src/Pool.antt =====
-- `pool_layer`, `pool_chunks` and the compressors of spark/pd_pool_torch.py: windows of `ratio` token rows
-- are pooled to one row each, call by call. A row stands for its kv half and its gate half together, so
-- `buf` is `buf_kv` with `buf_gate` beside it, and `prev` is `prev_kv` with `prev_gate`. What the tensor
-- library computes on one row or on one window is a parameter. The assertions on shapes are left out. No
-- call has more rows buffered than it has processed, so `start - rem` is not negative.
pub mod Windows
pub mod Calls
pub mod Behind
pub mod Chunks
use pd_bridge.Prelude.{
  ℕ, zero, suc, ◌+◌, ◌-◌, ◌*◌, ◌/◌, ◌%◌, Bool, true, false, not, Option, none, some, List, [], ◌∷◌,
  ◌++◌, map, ltb, ◌==◌, if◌then◌else◌, length, take, drop,
}

-- The tensor operations: `bias j` is a row with row `j` of `ape` added to its gate, `lane_a j` and
-- `lane_b j` the two halves of that; `blank` is the lane of zeros with its gate of -inf; `attend` is the
-- softmax over the rows, the product and the sum; `norm` is `rmsnorm`, `rotate p` is the rope at `p`.
pub record Ops (A H P : Type 0) : Type 0 where
  pub bias : ℕ → A → H
  pub lane_a : ℕ → A → H
  pub lane_b : ℕ → A → H
  pub blank : List H
  pub attend : List H → P
  pub norm : P → P
  pub rotate : ℕ → P → P

pub record Carry (A : Type 0) : Type 0 where
  pub buf : Option (List A)
  pub prev : Option (List A)
  pub processed : ℕ

abbrev pub new_carry : (A : Type 0) → Carry A
new_carry A = record { buf = none; prev = none; processed = 0 }

module _ {ℓ κ} {A : Type ℓ} {B : Type κ} where
  -- f applied to every element and its index
  unfoldable pub indexed : (ℕ → A → B) → ℕ → List A → List B
  indexed f i [] = []
  indexed f i (x ∷ xs) = f i x ∷ indexed f (i + 1) xs

module _ {ℓ} {A : Type ℓ} where
  -- reshape(n, ratio, …)
  unfoldable pub windows : ℕ → ℕ → List A → List (List A)
  windows ratio zero xs = []
  windows ratio (suc n) xs = take ratio xs ∷ windows ratio n (drop ratio xs)

  -- xs[:-1]
  unfoldable pub init : List A → List A
  init [] = []
  init (x ∷ []) = []
  init (x ∷ y ∷ ys) = x ∷ init (y ∷ ys)

  -- xs[-1]
  unfoldable pub last_of : List A → Option A
  last_of [] = none
  last_of (x ∷ []) = some x
  last_of (x ∷ y ∷ ys) = last_of (y ∷ ys)

  -- cat of two lists of lanes, window by window
  unfoldable pub beside : List (List A) → List (List A) → List (List A)
  beside [] ys = []
  beside (x ∷ xs) [] = []
  beside (x ∷ xs) (y ∷ ys) = (x ++ y) ∷ beside xs ys

  abbrev pub buffered : Option (List A) → List A
  buffered none = []
  buffered (some xs) = xs

  abbrev pub unless_empty : List A → Option (List A)
  unless_empty [] = none
  unless_empty (x ∷ xs) = some (x ∷ xs)

module _ {A H P : Type 0} (ops : Ops A H P) where
  open ops use {bias, lane_a, lane_b, blank, attend, norm, rotate}

  unfoldable pub simple_compress : List (List A) → List P
  unfolding indexed
  simple_compress ws = map (λ w. attend (indexed bias 0 w)) ws

  -- lane A of a window comes from the window before it
  unfoldable pub overlap_compress : List (List A) → List P
  unfolding indexed init beside
  overlap_compress ws =
      map attend (beside (blank ∷ init (map (indexed lane_a 0) ws)) (map (indexed lane_b 0) ws))

  unfoldable pub pooled : Bool → Option (List A) → List (List A) → List P
  unfolding simple_compress overlap_compress
  pooled true (some w) ws = drop 1 (overlap_compress (w ∷ ws))
  pooled true none ws = overlap_compress ws
  pooled false prev ws = simple_compress ws

  -- One call, for a rope of that `freq_scale`; `none` is the failed assertion.
  unfoldable pub pool_layer : ℕ → ℕ → List A → ℕ → Carry A → Option (List P × Carry A)
  unfolding pooled windows last_of indexed
  pool_layer ratio freq_scale rows start c =
      let overlap = ratio == 4 in
      let buf = buffered c.buf in
      let rem = length buf in
      let total = rem + length rows in
      let usable = total / ratio * ratio in
      let new_rem = total % ratio in
      let ws = windows ratio (usable / ratio) (buf ++ take (usable - rem) rows) in
      if not (c.processed == start)
      then none
      else if ltb 0 usable
      then some (
        indexed rotate ((start - rem) / freq_scale) (map norm (pooled overlap c.prev ws)),
        record {
          buf = if ltb 0 new_rem then some (drop (length rows - new_rem) rows) else none;
          prev = if overlap then last_of ws else c.prev;
          processed = start + length rows;
        },
      )
      else some (
        [],
        record { buf = unless_empty (buf ++ rows); prev = c.prev; processed = start + length rows },
      )

  -- The loop of `pool_chunks`, the chunks given as the lists of their rows.
  unfoldable pub pool_each : ℕ → ℕ → List (List A) → ℕ → Carry A → Option (List P × Carry A)
  unfolding pool_layer
  pool_each ratio freq_scale [] pos c = some ([], c)
  pool_each ratio freq_scale (rows ∷ chunks) pos c = elim (pool_layer ratio freq_scale rows pos c) [
    | none ↦ none
    | some (p, c') ↦ elim (pool_each ratio freq_scale chunks (pos + length rows) c') [
      | none ↦ none
      | some (ps, c'') ↦ some (p ++ ps, c'')
    ]
  ]

  -- `pool_chunks`: with no chunk, `torch.cat` fails
  unfoldable pub pool_chunks : ℕ → ℕ → List (List A) → ℕ → Option (List P × Carry A)
  unfolding pool_each
  pool_chunks ratio freq_scale [] start = none
  pool_chunks ratio freq_scale (rows ∷ chunks) start =
      pool_each ratio freq_scale (rows ∷ chunks) start (new_carry A)
