-- ===== src/KvReturn/Resume.antt =====
-- spark/capture_sitecustomize_v3.kvreturn.py: the hook with KV return. A capture that starts behind position 0 goes on from the
-- rows that an earlier capture has saved. `win`, `keep` are `_WIN` and `_KV_TAIL`, or `_TAIL_RAW` and `_POOL_TAIL`.
pub mod Windows
pub mod Carries
pub mod Pools
pub mod Choices
use pd_bridge.Prelude.{
  ℕ, zero, suc, ◌+◌, ◌-◌, ◌*◌, ◌/◌, ◌%◌, Bool, true, false, not, ◌&&◌, ◌||◌, Option, none, some,
  List, [], ◌∷◌, ◌++◌, ltb, leb, ◌==◌, if◌then◌else◌, length, take, drop, slice, last_rows,
}
use pd_bridge.Hook.Boundaries.{boundaries}
use pd_bridge.Hook.Windows.{KvState, new_tail, new_gaps, snap_all}
use pd_bridge.Hook.Pools.{PoolState}
use pd_bridge.Pool.{Carry}

module _ {V : Type 0} where
  -- `_KVState.feed`: the windows have `win` rows, and `keep` rows are kept
  unfoldable pub feed_kv : ℕ → ℕ → ℕ → List V → ℕ → KvState V → KvState V
  unfolding snap_all new_tail boundaries
  feed_kv block win keep kv start s = record {
    tail = some (new_tail keep s.tail kv);
    snaps = snap_all win s.tail kv start (boundaries block start (start + length kv)) s.snaps;
    next_pos = start + length kv;
    rows = s.rows + length kv;
    gaps = new_gaps s.next_pos start s.gaps;
  }

  -- chunk after chunk, each where the last one ended
  unfoldable pub feed_all : ℕ → ℕ → ℕ → List (List V) → KvState V → KvState V
  unfolding feed_kv
  feed_all block win keep [] s = s
  feed_all block win keep (kv ∷ chunks) s =
      feed_all block win keep chunks (feed_kv block win keep kv s.next_pos s)

  -- `_KVState.seed`
  abbrev pub seed_kv : ℕ → List V → ℕ → KvState V → KvState V
  seed_kv keep rows S s = record s { tail = some (last_rows keep rows); next_pos = S }

  -- what `export` writes as the window at the end
  abbrev pub window_end : ℕ → Option (List V) → Option (List V)
  window_end win none = none
  window_end win (some rows) = some (last_rows win rows)

-- the index n - k of a slice, which counts from the end where it is negative
abbrev pub from_end : ℕ → ℕ → ℕ
from_end n k = if leb k n then n - k else n - (k - n)

module _ {A : Type 0} where
  abbrev pub seed_buf : ℕ → List A → Option (List A)
  seed_buf rem rows = if rem == 0 then none else some (drop (from_end (length rows) rem) rows)

  abbrev pub seed_prev : ℕ → ℕ → ℕ → List A → Option (List A)
  seed_prev ratio S rem rows =
      let n = length rows in
      if (ratio == 4) && leb 4 (S - rem)
      then some (slice (from_end n (rem + 4)) (from_end n rem) rows)
      else none

  -- the carry of `_PoolState.seed`
  unfoldable pub seed_carry : ℕ → Option (List A) → ℕ → Carry A
  seed_carry ratio none S = record { buf = none; prev = none; processed = S }
  seed_carry ratio (some rows) S = record {
    buf = seed_buf (S % ratio) rows;
    prev = seed_prev ratio S (S % ratio) rows;
    processed = S;
  }

module _ {A P : Type 0} where
  -- `_PoolState.seed`; without saved rows only the carry and the position are set
  unfoldable pub seed_pool : ℕ → ℕ → Option (List A) → ℕ → PoolState A P → PoolState A P
  unfolding seed_carry
  seed_pool ratio keep none S s = record s { carry = some (seed_carry ratio none S); next_pos = S }
  seed_pool ratio keep (some rows) S s = record s {
    carry = some (seed_carry ratio (some rows) S);
    tail = some (last_rows keep rows);
    next_pos = S;
  }

-- The description of a saved state, `kvstate.json`.
pub record Meta : Type 0 where
  pub T : ℕ
  pub keep_extra : ℕ
  pub saved_at : ℕ
  pub stamp : ℕ

-- `T - keep_extra <= start <= T`
abbrev pub covers : ℕ → Meta → Bool
covers start m = leb m.T (start + m.keep_extra) && leb start m.T

-- `key > best[0]` for keys (saved_at, T)
abbrev pub is_newer : Meta → Meta → Bool
is_newer m best = ltb best.saved_at m.saved_at || ((m.saved_at == best.saved_at) && ltb best.T m.T)

abbrev pub newer : Meta → Option Meta → Meta
newer m none = m
newer m (some best) = if is_newer m best then m else best

-- the loop of `_kvr_resume` over the descriptions that can be read
unfoldable pub best_state : ℕ → Option Meta → List Meta → Option Meta
best_state start best [] = best
best_state start best (m ∷ ms) =
    best_state start (if covers start m then some (newer m best) else best) ms

module _ {V : Type 0} where
  -- the saved rows of a tensor, cut to end at `start`; none where nothing is left
  abbrev pub or_none : List V → Option (List V)
  or_none [] = none
  or_none (v ∷ vs) = some (v ∷ vs)

  unfoldable pub cut_rows : ℕ → List V → Option (List V)
  cut_rows cut rows = or_none (if cut == 0 then rows else take (from_end (length rows) cut) rows)
