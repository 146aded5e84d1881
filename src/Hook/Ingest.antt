-- ===== src/Hook/Ingest.antt =====
-- `_Capture.ingest`: the rows of one layer and chunk go into the open request, which is begun, or ended
-- and begun anew, where needed. `block`, `win`, `keep`, `min_T` are `_BLOCK`, `_WIN`, `_TAIL_RAW`, `_MIN_T`; the
-- compressor of a layer and that of its indexer are arguments, made from its weights.
pub mod Tables
pub mod Layers
pub mod Whole
pub mod Complete
pub mod Partial
use pd_bridge.Prelude.{
  ℕ, zero, suc, ◌+◌, Bool, true, false, not, ◌&&◌, ◌||◌, Option, none, some, List, [], ◌∷◌, ◌++◌,
  ltb, ◌==◌, if◌then◌else◌, find, put,
}
use pd_bridge.Hook.Windows.{KvState, new_kv, feed_kv}
use pd_bridge.Hook.Pools.{PoolState, new_pool, feed_pool}
use pd_bridge.Hook.Finish.{Pool, Req, new_req, Reason, new_request, Finished, finish}
use pd_bridge.Pool.{Ops}

-- The rows of one layer in one chunk, and when the worker takes them.
pub record Item (V A : Type 0) : Type 0 where
  pub li : ℕ
  pub ratio : ℕ
  pub kv_pre : List V
  pub kv_score : Option (List A)
  pub idx : Option (List A)
  pub start : ℕ
  pub at : ℕ

-- The open request, and the directories that were finished, oldest first.
pub record Captures (V A P : Type 0) : Type 0 where
  pub req : Option (Req V A P)
  pub done : List (Finished V A P)

abbrev pub no_captures : (V A P : Type 0) → Captures V A P
no_captures V A P = record { req = none; done = [] }

pub record Settings : Type 0 where
  pub block : ℕ
  pub win : ℕ
  pub keep : ℕ
  pub min_T : ℕ

module _ {V : Type 0} where
  abbrev pub kv_or_new : Option (KvState V) → KvState V
  kv_or_new none = new_kv V
  kv_or_new (some s) = s

module _ {A P : Type 0} where
  abbrev pub pool_or_new : ℕ → Option (Pool A P) → Pool A P
  pool_or_new ratio none = record { ratio = ratio; state = new_pool A P }
  pool_or_new ratio (some p) = p

module _ {A H P : Type 0} where
  -- one of the two pools of a layer, if it has rows; whether it went through
  unfoldable pub feed_table :
      Ops A H P
      → Settings
      → ℕ
      → ℕ
      → Option (List A)
      → ℕ
      → List (ℕ × Pool A P)
      → List (ℕ × Pool A P) × Bool
  unfolding feed_pool find put
  feed_table ops g ratio li none start table = (table, true)
  feed_table ops g ratio li (some rows) start table =
      let p = pool_or_new ratio (find li table) in
      let (state, went) = feed_pool ops g.block p.ratio g.keep rows start p.state in
      (put li (record p { state = state }) table, went)

module _ {V A P : Type 0} where
  abbrev pub with_done : Option (Finished V A P) → List (Finished V A P) → List (Finished V A P)
  with_done none done = done
  with_done (some f) done = done ++ (f ∷ [])

  abbrev pub end_request : Settings → Reason → Captures V A P → Captures V A P
  end_request g reason c = elim c.req [
    | none ↦ c
    | some r ↦ record { req = none; done = with_done (finish g.block g.min_T reason r) c.done }
  ]

  -- whether the item begins a new request: layer 0 again, from the start or not where it ended
  abbrev pub is_new : Item V A → Req V A P → Bool
  is_new i r =
      i.li == 0
      && (ltb 0 r.calls
          && (i.start == 0
              || (elim (find 0 r.kv) [ none ↦ false | some st ↦ not (i.start == st.next_pos) ])))

  abbrev pub split_request : Settings → Item V A → Captures V A P → Captures V A P
  split_request g i c = elim c.req [
    | none ↦ c
    | some r ↦ if is_new i r then end_request g new_request c else c
  ]

  -- the open request, or a new one
  abbrev pub open_request : ℕ → ℕ → Option (Req V A P) → Req V A P
  open_request now start (some r) = r
  open_request now start none = record (new_req V A P now) {
    partial_start = if start == 0 then none else some start;
  }

  abbrev pub feed_layer : Settings → Item V A → Req V A P → Req V A P
  feed_layer g i r = record r {
    kv = put i.li (feed_kv g.block g.win i.kv_pre i.start (kv_or_new (find i.li r.kv))) r.kv;
  }

module _ {V A H P : Type 0} where
  -- the rest of `ingest`, and whether it went through; where it fails, what was fed before stays
  unfoldable pub feed_request :
      (ℕ → Ops A H P) → (ℕ → Ops A H P) → Settings → Item V A → Req V A P → Req V A P × Bool
  unfolding feed_kv feed_table find put
  feed_request ops idx_ops g i r =
      let r' = feed_layer g i r in
      let (main, went) = feed_table (ops i.li) g i.ratio i.li i.kv_score i.start r.main in
      let (idx, went') = feed_table (idx_ops i.li) g 4 i.li i.idx i.start r.idx in
      if not went
      then (record r' { main = main }, false)
      else if not went'
      then (record r' { main = main; idx = idx }, false)
      else (record r' { main = main; idx = idx; calls = r.calls + 1; last_t = i.at }, true)

  unfoldable pub ingest :
      (ℕ → Ops A H P)
      → (ℕ → Ops A H P)
      → Settings
      → Item V A
      → Captures V A P
      → Captures V A P × Bool
  unfolding feed_request finish find
  ingest ops idx_ops g i c =
      let c' = split_request g i c in
      let (r, went) = feed_request ops idx_ops g i (open_request i.at i.start c'.req) in
      (record c' { req = some r }, went)

-- What stands in the queue: rows, or the watcher's word to end the open request.
pub data Work (V A : Type 0) : Type 0 where
  layer_chunk : Item V A → Work V A
  flush : Reason → Work V A

module _ {V A H P : Type 0} (ops idx_ops : ℕ → Ops A H P) (g : Settings) where
  -- one round of `_worker`, and whether it went through
  unfoldable pub work : Work V A → Captures V A P → Captures V A P × Bool
  unfolding ingest finish
  work (layer_chunk i) c = ingest ops idx_ops g i c
  work (flush reason) c = (end_request g reason c, true)

  -- the worker on a queue, and how many rounds failed: an error ends its round, not the loop
  unfoldable pub worker : List (Work V A) → Captures V A P → Captures V A P × ℕ
  unfolding work
  worker [] c = (c, 0)
  worker (w ∷ ws) c =
      let (c', went) = work w c in
      let (c'', errors) = worker ws c' in (c'', if went then errors else errors + 1)
