-- ===== src/Hook/Windows.antt =====
-- `_KVState`: the last rows of one layer, and its window of rows at every block boundary. A row is one
-- token's tensor row; `block` and `win` are `_BLOCK` and `_WIN`.
pub mod Whole
pub mod Bounds
use pd_bridge.Prelude.{
  ℕ, zero, suc, ◌+◌, ◌-◌, Bool, not, ◌||◌, Option, none, some, List, [], ◌∷◌, ◌++◌, leb, ◌==◌,
  if◌then◌else◌, length, slice, last_rows, put, arith,
}
use pd_bridge.Hook.Boundaries.{boundaries}

pub record KvState (V : Type 0) : Type 0 where
  pub tail : Option (List V)
  pub snaps : List (ℕ × List V)
  pub next_pos : ℕ
  pub rows : ℕ
  pub gaps : List (ℕ × ℕ)

abbrev pub new_kv : (V : Type 0) → KvState V
new_kv V = record { tail = none; snaps = []; next_pos = 0; rows = 0; gaps = [] }

abbrev pub new_gaps : ℕ → ℕ → List (ℕ × ℕ) → List (ℕ × ℕ)
new_gaps next start gaps = if start == next then gaps else gaps ++ ((next, start) ∷ [])

module _ {V : Type 0} where
  -- the rows that are kept from earlier chunks
  abbrev pub kept : Option (List V) → List V
  kept none = []
  kept (some rows) = rows

  -- The `win` rows before the boundary `b`, from the chunk or from the kept rows with the chunk behind them.
  -- Where fewer rows are at hand the window starts at the first of them.
  unfoldable pub window_at : ℕ → Option (List V) → List V → ℕ → ℕ → List V
  window_at win tail kv start b =
      let t = length (kept tail) in
      if leb (start + win) b
      then slice (b - win - start) (b - start) kv
      else slice (b + t - (win + start)) (b + t - start) (kept tail ++ kv)

  -- the loop over the boundaries of the chunk
  unfoldable pub snap_all :
      ℕ → Option (List V) → List V → ℕ → List ℕ → List (ℕ × List V) → List (ℕ × List V)
  unfolding window_at put
  snap_all win tail kv start [] snaps = snaps
  snap_all win tail kv start (b ∷ bs) snaps =
      snap_all win tail kv start bs (put b (window_at win tail kv start b) snaps)

  -- the last `win` rows, of the chunk alone if it has so many
  unfoldable pub new_tail : ℕ → Option (List V) → List V → List V
  new_tail win none kv = last_rows win kv
  new_tail win (some rows) kv =
      if leb win (length kv) then last_rows win kv else last_rows win (rows ++ kv)

  -- `_KVState.feed`
  unfoldable pub feed_kv : ℕ → ℕ → List V → ℕ → KvState V → KvState V
  unfolding snap_all new_tail boundaries
  feed_kv block win kv start s = record {
    tail = some (new_tail win s.tail kv);
    snaps = snap_all win s.tail kv start (boundaries block start (start + length kv)) s.snaps;
    next_pos = start + length kv;
    rows = s.rows + length kv;
    gaps = new_gaps s.next_pos start s.gaps;
  }

  -- chunk after chunk, each where the last one ended
  unfoldable pub feed_all : ℕ → ℕ → List (List V) → KvState V → KvState V
  unfolding feed_kv
  feed_all block win [] s = s
  feed_all block win (kv ∷ chunks) s = feed_all block win chunks (feed_kv block win kv s.next_pos s)
