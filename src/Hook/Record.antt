-- ===== src/Hook/Record.antt =====
-- `record`, `_resolve_chunk` and `_process`: from the layers of a forward step to the rows that are ingested. The layers
-- of one step share a chunk, whose positions are read once. A layer name is given by what is looked for in it.
pub mod Pieces
use pd_bridge.Prelude.{
  ℕ, zero, suc, ◌+◌, ◌-◌, Bool, true, false, not, ◌||◌, ◌&&◌, Option, none, some, List, [], ◌∷◌,
  ◌++◌, ltb, ◌==◌, if◌then◌else◌, length, take, drop,
}
use pd_bridge.Hook.Pools.{cat_pooled}

-- A chunk with the positions of its rows; its start, once they have been read.
pub record Chunk : Type 0 where
  pub positions : List ℕ
  pub start : Option ℕ
  pub n : ℕ
  pub items : ℕ

-- What the forward thread hands over for one layer.
pub record Queued (Hd : Type 0) : Type 0 where
  pub li : ℕ
  pub hidden : List Hd
  pub chunk : ℕ

-- The chunks so far, the last one is the current one; the queue, oldest first.
pub record Recorder (Hd : Type 0) : Type 0 where
  pub is_dead : Bool
  pub chunks : List Chunk
  pub queue : List (Queued Hd)

-- A call of the hook: the layer number in the name, if it is one that is captured, and whether a graph is being captured.
pub record Call (Hd : Type 0) : Type 0 where
  pub layer : Option ℕ
  pub is_graph : Bool
  pub hidden : List Hd
  pub positions : List ℕ

abbrev pub last_chunk : List Chunk → Option Chunk
last_chunk [] = none
last_chunk (c ∷ []) = some c
last_chunk (c ∷ d ∷ cs) = last_chunk (d ∷ cs)

-- whether the call begins a chunk
abbrev pub begins_chunk : ℕ → ℕ → Option Chunk → Bool
begins_chunk li n none = true
begins_chunk li n (some c) = li == 0 || not (c.n == n)

-- `ch.items += 1` for the last chunk
unfoldable pub one_more_item : List Chunk → List Chunk
one_more_item [] = []
one_more_item (c ∷ []) = record c { items = c.items + 1 } ∷ []
one_more_item (c ∷ d ∷ cs) = c ∷ one_more_item (d ∷ cs)

abbrev pub with_chunk : ℕ → List ℕ → List Chunk → List Chunk
with_chunk li positions chunks =
    if begins_chunk li (length positions) (last_chunk chunks)
    then chunks
      ++ (record { positions = positions; start = none; n = length positions; items = 0 } ∷ [])
    else chunks

module _ {Hd : Type 0} where
  -- `record`
  unfoldable pub record_call : Call Hd → Recorder Hd → Recorder Hd
  unfolding one_more_item
  record_call c s = elim c.layer [
    | none ↦ s
    | some li ↦
        let chunks = one_more_item (with_chunk li c.positions s.chunks) in
        if s.is_dead || (c.is_graph || length c.positions == 0) then s else record s {
          chunks = chunks;
          queue =
              s.queue ++ (record { li = li; hidden = c.hidden; chunk = length chunks - 1 } ∷ []);
        }
  ]

-- `_resolve_chunk`: the first position is read once
unfoldable pub resolve_chunk : Chunk → Chunk
resolve_chunk c = elim c.start [
  | some start ↦ c
  | none ↦ elim c.positions [
    | [] ↦ c
    | p ∷ ps ↦ record c { positions = []; start = some p; n = length (p ∷ ps) }
  ]
]

-- What the projection of some rows gives: key and value rows, and where the layer has them, the rows of its two pools.
pub record Projected (V A : Type 0) : Type 0 where
  pub kv_pre : List V
  pub kv_score : Option (List A)
  pub idx : Option (List A)

-- h[a:a+piece] for a in steps; `fuel` is one more than the rows
unfoldable pub pieces {ℓ} : {Hd : Type ℓ} → ℕ → ℕ → List Hd → List (List Hd)
pieces zero piece hs = []
pieces (suc fuel) piece [] = []
pieces (suc fuel) piece (h ∷ hs) = take piece (h ∷ hs) ∷ pieces fuel piece (drop piece (h ∷ hs))

module _ {Hd V A : Type 0} (project : List Hd → Projected V A) where
  unfoldable pub kv_parts : List (List Hd) → List V
  kv_parts [] = []
  kv_parts (h ∷ hs) = (project h).kv_pre ++ kv_parts hs

  -- the parts that are there
  unfoldable pub some_parts : (Projected V A → Option (List A)) → List (List Hd) → List (List A)
  some_parts part [] = []
  some_parts part (h ∷ hs) =
      let others = some_parts part hs in
      elim (part (project h)) [ none ↦ others | some rows ↦ rows ∷ others ]

  -- the projection in `_process`, at once or piece by piece
  unfoldable pub project_all : ℕ → List Hd → Projected V A
  unfolding pieces kv_parts some_parts
  project_all piece h =
      let hs = pieces (suc (length h)) piece h in
      if ltb 0 piece && ltb piece (length h)
      then record {
        kv_pre = kv_parts hs;
        kv_score = cat_pooled (some_parts (λ p. p.kv_score) hs);
        idx = cat_pooled (some_parts (λ p. p.idx) hs);
      }
      else project h
