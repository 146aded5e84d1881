-- ===== src/Hook/Pools.antt =====
-- `_PoolState`: the pooled rows of one layer, the carry of `pool_layer`, and the raw rows that the decoder
-- needs at a boundary and at the end. `block`, `ratio`, `keep` are `_BLOCK`, the layer's ratio (also the
-- rope's frequency scale) and `_TAIL_RAW`; the windows of a ratio-4 layer have four rows.
pub mod Whole
pub mod Export
use pd_bridge.Prelude.{
  joined, ℕ, zero, suc, ◌+◌, ◌-◌, ◌*◌, ◌/◌, ◌%◌, Bool, true, false, ◌||◌, Option, none, some, List,
  [], ◌∷◌, ◌++◌, leb, ltb, ◌==◌, if◌then◌else◌, length, slice, last_rows, put, drop,
}
use pd_bridge.Hook.Boundaries.{boundaries}
use pd_bridge.Hook.Windows.{kept, window_at, new_tail, new_gaps}
use pd_bridge.Pool.{Ops, Carry, new_carry, pool_layer}

pub record PoolState (A P : Type 0) : Type 0 where
  pub pooled : List (List P)
  pub carry : Option (Carry A)
  pub tail : Option (List A)
  pub prev : List (ℕ × List A)
  pub next_pos : ℕ
  pub rows : ℕ
  pub gaps : List (ℕ × ℕ)

abbrev pub new_pool : (A P : Type 0) → PoolState A P
new_pool A P = record {
  pooled = [];
  carry = none;
  tail = none;
  prev = [];
  next_pos = 0;
  rows = 0;
  gaps = [];
}

module _ {A : Type 0} where
  -- the loop over the chunk's boundaries; a window whose rows are not all at hand is left out
  unfoldable pub prev_all :
      Option (List A) → List A → ℕ → List ℕ → List (ℕ × List A) → List (ℕ × List A)
  unfolding window_at put
  prev_all tail x start [] prev = prev
  prev_all tail x start (b ∷ bs) prev = prev_all tail x start bs (
      if leb (start + 4) b || leb (start + 4) (b + length (kept tail))
      then put b (window_at 4 tail x start b) prev
      else prev)

  abbrev pub carried_over : Option (Carry A) → Carry A
  carried_over none = new_carry A
  carried_over (some c) = c

module _ {P : Type 0} where
  -- `if pooled_new.numel()`
  abbrev pub add_pooled : List P → List (List P) → List (List P)
  add_pooled [] pooled = pooled
  add_pooled (p ∷ ps) pooled = pooled ++ ((p ∷ ps) ∷ [])

module _ {A H P : Type 0} (ops : Ops A H P) (block ratio keep : ℕ) where
  abbrev pub with_prev : List A → ℕ → PoolState A P → PoolState A P
  with_prev x start s = record s {
    gaps = new_gaps s.next_pos start s.gaps;
    prev =
        if ratio == 4
        then prev_all s.tail x start (boundaries block start (start + length x)) s.prev
        else s.prev;
  }

  -- `_PoolState.feed`, and whether it went through: the assertion of `pool_layer` leaves it half done
  unfoldable pub feed_pool : List A → ℕ → PoolState A P → PoolState A P × Bool
  unfolding prev_all new_tail boundaries pool_layer
  feed_pool x start s = elim (pool_layer ops ratio ratio x start (carried_over s.carry)) [
    | none ↦ (with_prev x start s, false)
    | some (new, carry) ↦ (
      record (with_prev x start s) {
        pooled = add_pooled new s.pooled;
        carry = some carry;
        tail = some (new_tail keep s.tail x);
        next_pos = start + length x;
        rows = s.rows + length x;
      },
      true,
    )
  ]

  -- chunk after chunk, each where the last one ended; `none` if one of them fails
  unfoldable pub feed_each : List (List A) → PoolState A P → Option (PoolState A P)
  unfolding feed_pool
  feed_each [] s = some s
  feed_each (x ∷ chunks) s =
      let (s', went) = feed_pool x s.next_pos s in
      let others = feed_each chunks s' in if went then others else none

-- What `_PoolState.export` writes; the raw rows stand for their kv half and their gate half.
pub record Exported (A P : Type 0) : Type 0 where
  pub pooled : Option (List P)
  pub buf : Option (List A)
  pub prev : List (ℕ × List A)
  pub prev_end : Option (List A)

abbrev pub cat_pooled {ℓ} : {P : Type ℓ} → List (List P) → Option (List P)
cat_pooled [] = none
cat_pooled (ps ∷ pss) = some (joined (ps ∷ pss))

-- the last complete window, if so many rows are kept
abbrev pub end_rows {ℓ} : {A : Type ℓ} → ℕ → List A → Option (List A)
end_rows rem tail =
    let tl = length tail in
    if leb (rem + 4) tl then some (slice (tl - rem - 4) (tl - rem) tail) else none

-- the last `rem` rows; where fewer are kept, the slice counts from the end
abbrev pub end_buf {ℓ} : {A : Type ℓ} → ℕ → List A → Option (List A)
end_buf zero tail = none
end_buf (suc rem) tail =
    let tl = length tail in
    some (drop (if leb (suc rem) tl then tl - suc rem else tl - (suc rem - tl)) tail)

-- `_PoolState.export` with the request's length `T`
unfoldable pub export_pool : {A P : Type 0} → ℕ → ℕ → PoolState A P → Exported A P
export_pool ratio T s = record {
  pooled = cat_pooled s.pooled;
  buf = elim s.tail [ none ↦ none | some tail ↦ end_buf (T % ratio) tail ];
  prev = if ratio == 4 then s.prev else [];
  prev_end = elim s.tail [
    | none ↦ none
    | some tail ↦ if ratio == 4 then end_rows (T % ratio) tail else none
  ];
}
