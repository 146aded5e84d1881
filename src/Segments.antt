-- ===== src/Segments.antt =====
-- spark/capture_sitecustomize_v3.kvreturn.py, streaming: at every boundary a file takes the rows of all layers that are new
-- since the boundary before, and they are released. `block` is `_BLOCK`, 4 the window of a ratio-4 layer. The list of layers
-- is in the order of their numbers. Rows of `prev` are kept whole: the file has their two halves.

pub mod Pools
pub mod Rows
pub mod Order
use mathlib.Core.Option as Option
use pd_bridge.Prelude.{
  ℕ, zero, suc, ◌+◌, ◌-◌, ◌*◌, ◌/◌, ◌%◌, Bool, true, false, not, ◌&&◌, ◌||◌, Option, none, some,
  List, [], ◌∷◌, ◌++◌, min, ltb, leb, ◌==◌, if◌then◌else◌, length, take, drop, joined, find, pop,
  map,
}
use pd_bridge.Hook.Boundaries.{boundaries}

-- the part of `_PoolState` that is shipped
pub record SegPool (A P : Type 0) : Type 0 where
  pub ratio : ℕ
  pub shipped : ℕ
  pub pooled : List (List P)
  pub prev : List (ℕ × List A)

pub record SegLayer (V A P : Type 0) : Type 0 where
  pub snaps : List (ℕ × List V)
  pub next_pos : ℕ
  pub main : Option (SegPool A P)
  pub idx : Option (SegPool A P)

-- what a segment holds of a pool, and of a layer
pub record PoolPart (A P : Type 0) : Type 0 where
  pub rows : List P
  pub prev : Option (List A)

pub record LayerPart (V A P : Type 0) : Type 0 where
  pub kvwin : Option (List V)
  pub main : Option (PoolPart A P)
  pub idx : Option (PoolPart A P)

abbrev pub is_there : {A : Type 0} → Option A → Bool
is_there none = false
is_there (some a) = true

module _ {P : Type 0} where
  abbrev pub total : List (List P) → ℕ
  total [] = 0
  total (p ∷ ps) = length p + total ps

  -- the loop of `take_pooled`: what it takes and what it leaves; none where nothing is left to pop
  unfoldable pub take_from : ℕ → List (List P) → Option (List (List P) × List (List P))
  take_from zero pooled = some ([], pooled)
  take_from (suc n) [] = none
  take_from (suc n) (p ∷ ps) =
      let rest = take_from (suc n - length p) ps in
      if ltb (suc n) (length p)
      then some (take (suc n) p ∷ [], drop (suc n) p ∷ ps)
      else Option.map (λ t. (p ∷ t.0, t.1)) rest

module _ {A P : Type 0} where
  abbrev pub pooled_rows : SegPool A P → ℕ
  pooled_rows s = s.shipped + total s.pooled

  abbrev pub detached :
      ℕ → SegPool A P → Option (List (List P) × List (List P)) → SegPool A P × Option (List P)
  detached upto s none = (record s { pooled = [] }, none)
  detached upto s (some (got, rest)) =
      (record s { pooled = rest; shipped = upto }, some (joined got))

  unfoldable pub take_pooled : ℕ → SegPool A P → SegPool A P × Option (List P)
  unfolding take_from
  take_pooled upto s =
      if ltb upto s.shipped || ltb (pooled_rows s) upto
      then (s, none)
      else detached upto s (take_from (upto - s.shipped) s.pooled)

  -- the first pass over a pool: everything that is to go is there
  abbrev pub is_ready : ℕ → Option (SegPool A P) → Bool
  is_ready b none = true
  is_ready b (some s) =
      leb (b / s.ratio) (pooled_rows s) && (not (s.ratio == 4) || is_there (find b s.prev))

  -- the second pass over a pool, with its rows taken
  abbrev pub with_prev_of : ℕ → SegPool A P × Option (List P) → SegPool A P × Option (PoolPart A P)
  with_prev_of b (s, none) = (s, none)
  with_prev_of b (s, some rows) =
      if s.ratio == 4
      then (
        record s { prev = pop b s.prev },
        Option.map (λ w. record { rows = rows; prev = some w }) (find b s.prev),
      )
      else (s, some (record { rows = rows; prev = none }))

  -- a pool or none; the outcome is none where the pass failed
  abbrev pub take_part :
      ℕ → Option (SegPool A P) → Option (SegPool A P) × Option (Option (PoolPart A P))
  take_part b none = (none, some none)
  take_part b (some s) =
      let (s', part) = with_prev_of b (take_pooled (b / s.ratio) s) in
      (some s', Option.map (λ p. some p) part)

module _ {V A P : Type 0} where
  -- the first pass of `_emit_segment`
  abbrev pub all_ready : ℕ → List (SegLayer V A P) → Bool
  all_ready b [] = true
  all_ready b (l ∷ ls) =
      (is_there (find b l.snaps) && (is_ready b l.main && is_ready b l.idx)) && all_ready b ls

  -- the second pass over a layer: the compressor's pool, then the indexer's
  abbrev pub take_idx :
      ℕ
      → SegLayer V A P
      → Option (Option (PoolPart A P))
      → SegLayer V A P × Option (LayerPart V A P)
  take_idx b l none = (l, none)
  take_idx b l (some main) =
      let (pool, idx) = take_part b l.idx in
      (
        record l { idx = pool },
        Option.map (λ i. record { kvwin = find b l.snaps; main = main; idx = i }) idx,
      )

  abbrev pub take_layer : ℕ → SegLayer V A P → SegLayer V A P × Option (LayerPart V A P)
  take_layer b l =
      let (pool, main) = take_part b l.main in take_idx b (record l { main = pool }) main

  -- the second pass; it stops at the first layer that fails
  abbrev pub and_others :
      List (SegLayer V A P)
      → SegLayer V A P × Option (LayerPart V A P)
      → List (SegLayer V A P) × Option (List (LayerPart V A P))
      → List (SegLayer V A P) × Option (List (LayerPart V A P))
  and_others ls (l, none) others = (l ∷ ls, none)
  and_others ls (l, some p) (ls', ps) = (l ∷ ls', Option.map (λ t. p ∷ t) ps)

  abbrev pub take_layers :
      ℕ → List (SegLayer V A P) → List (SegLayer V A P) × Option (List (LayerPart V A P))
  take_layers b [] = ([], some [])
  take_layers b (l ∷ ls) = and_others ls (take_layer b l) (take_layers b ls)

  -- the windows are released once the file is there
  abbrev pub release : ℕ → SegLayer V A P → SegLayer V A P
  release b l = record l { snaps = pop b l.snaps }

  -- the end of `_emit_segment`, `wrote` whether the file could be written and named
  abbrev pub write_segment :
      ℕ
      → Bool
      → List (SegLayer V A P) × Option (List (LayerPart V A P))
      → List (SegLayer V A P) × Option (List (LayerPart V A P))
  write_segment b wrote (ls, none) = (ls, none)
  write_segment b false (ls, some seg) = (ls, none)
  write_segment b true (ls, some seg) = (map (release b) ls, some seg)

  -- `_emit_segment`: the layers, and the file where there is one
  unfoldable pub emit_segment :
      ℕ → Bool → List (SegLayer V A P) → List (SegLayer V A P) × Option (List (LayerPart V A P))
  unfolding take_pooled
  emit_segment b wrote ls =
      if all_ready b ls then write_segment b wrote (take_layers b ls) else (ls, none)

-- the fields of a request that streams, and the segments in its directory
pub record Stream (V A P : Type 0) : Type 0 where
  pub layers : List (SegLayer V A P)
  pub calls : ℕ
  pub partial : Bool
  pub failed : Bool
  pub emitted_b : ℕ
  pub segments : List ℕ
  pub files : List (ℕ × List (LayerPart V A P))

abbrev pub new_stream : (V A P : Type 0) → Bool → Stream V A P
new_stream V A P partial = record {
  layers = [];
  calls = 0;
  partial = partial;
  failed = false;
  emitted_b = 0;
  segments = [];
  files = [];
}

-- when it is called: after a chunk, with the number of layers where it is known, or at the end of the request
pub data Call : Type 0 where
  midway : Option ℕ → Call
  at_end : ℕ → Call

module _ {V A P : Type 0} where
  abbrev pub emitted :
      ℕ → Stream V A P → List (SegLayer V A P) × Option (List (LayerPart V A P)) → Stream V A P
  emitted b r (ls, none) = record r { layers = ls; failed = true }
  emitted b r (ls, some seg) = record r {
    layers = ls;
    emitted_b = b;
    segments = r.segments ++ (b ∷ []);
    files = r.files ++ ((b, seg) ∷ []);
  }

  -- the loop of `_stream_emit`, which a failure ends; `wrote` says which files can be written
  unfoldable pub emit_loop : (ℕ → Bool) → List ℕ → Stream V A P → Stream V A P
  unfolding emit_segment
  emit_loop wrote [] r = r
  emit_loop wrote (b ∷ bs) r =
      let r' = emitted b r (emit_segment b (wrote b) r.layers) in
      let rest = emit_loop wrote bs r' in if r'.failed then r' else rest

  -- the position that every layer has reached
  abbrev pub min_next : List (SegLayer V A P) → ℕ
  min_next [] = 0
  min_next (l ∷ []) = l.next_pos
  min_next (l ∷ (l' ∷ ls)) = min l.next_pos (min_next (l' ∷ ls))

  -- E of `_stream_emit`; none where it returns
  abbrev pub emit_end : Call → Stream V A P → Option ℕ
  emit_end (at_end T) r = some T
  emit_end (midway none) r = none
  emit_end (midway (some n)) r =
      if ((n == 0) || not (length r.layers == n)) || not (r.calls % n == 0)
      then none
      else some (min_next r.layers)

  abbrev pub emit_to : ℕ → (ℕ → Bool) → Stream V A P → Option ℕ → Stream V A P
  emit_to block wrote r none = r
  emit_to block wrote r (some E) = emit_loop wrote (boundaries block r.emitted_b E) r

  unfoldable pub stream_emit : ℕ → (ℕ → Bool) → Call → Stream V A P → Stream V A P
  unfolding emit_loop boundaries
  stream_emit block wrote call r =
      if r.failed || r.partial then r else emit_to block wrote r (emit_end call r)
