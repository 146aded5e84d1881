-- ===== src/Connector/Worker.antt =====
-- The worker's table of captures in spark/pd_kv_connector.py: `_caps`, the end of `_ingest` and
-- `wait_for_save`. Each capture is with its own items of the send queue: what the sender thread does meanwhile for captures of
-- other tags, also while `_tx_get` waits for the queue to empty, is not modelled here.
use pd_bridge.Prelude.{
  ℕ, Bool, true, false, ◌&&◌, Option, none, some, List, [], ◌∷◌, ◌++◌, ◌==◌, if◌then◌else◌,
}
use pd_bridge.Connector.Layout.{Col, StepRows, all_layers, stack}
use pd_bridge.Connector.Scheduler.{Chunk}
use pd_bridge.Connector.Capture.{Capture, Geometry}
use pd_bridge.Connector.Cut.{Round, ingest}

-- equality of texts
unfoldable pub same_text : List ℕ → List ℕ → Bool
same_text [] [] = true
same_text [] (d ∷ ds) = false
same_text (c ∷ cs) [] = false
same_text (c ∷ cs) (d ∷ ds) = c == d && same_text cs ds

abbrev pub Captures : Type 0 → Type 0
Captures V = List (List ℕ × Capture V)

module _ {V : Type 0} where
  unfoldable pub get_capture : List ℕ → Captures V → Option (Capture V)
  unfolding same_text
  get_capture k [] = none
  get_capture k ((j, c) ∷ m) = if same_text j k then some c else get_capture k m

  unfoldable pub put_capture : List ℕ → Capture V → Captures V → Captures V
  unfolding same_text
  put_capture k c [] = (k, c) ∷ []
  put_capture k c ((j, d) ∷ m) = if same_text j k then (j, c) ∷ m else (j, d) ∷ put_capture k c m

  unfoldable pub pop_capture : List ℕ → Captures V → Captures V
  unfolding same_text
  pop_capture k [] = []
  pop_capture k ((j, d) ∷ m) =
      let rest = pop_capture k m in if same_text j k then rest else (j, d) ∷ rest

-- The captures in `_caps`, and those that `_finish` has taken over.
pub record Worker (V : Type 0) : Type 0 where
  pub caps : Captures V
  pub finishing : List (Capture V)

-- A chunk of the step with the rows that `save_kv_layer` gathered for it (`none` if it was not called),
-- whether a sender is open, and what the sender thread does meanwhile.
pub record Arrival (V : Type 0) : Type 0 where
  pub chunk : Chunk
  pub rows : Option (StepRows V)
  pub tx : Bool
  pub rounds : List Round

abbrev pub gathered {ℓ} : {A : Type ℓ} → Option (List (Option A)) → List (Option A)
gathered none = []
gathered (some rows) = rows

module _ {V : Type 0} (g : Geometry) where
  unfoldable pub ingest_chunk : Arrival V → List (Col V) → Worker V → Worker V
  unfolding ingest get_capture put_capture pop_capture
  ingest_chunk a rows w =
      let c = ingest g a.tx a.rounds a.chunk rows (get_capture a.chunk.tag w.caps) in
      if a.chunk.last
      then record w { caps = pop_capture a.chunk.tag w.caps; finishing = w.finishing ++ (c ∷ []) }
      else record w { caps = put_capture a.chunk.tag c w.caps }

  -- one chunk of the loop of `wait_for_save`: a missing layer drops the capture
  unfoldable pub save_chunk : Arrival V → Worker V → Worker V
  unfolding ingest_chunk all_layers stack
  save_chunk a w = elim (all_layers (gathered a.rows)) [
    | none ↦ record w { caps = pop_capture a.chunk.tag w.caps }
    | some layers ↦ elim layers [
      | [] ↦ record w { caps = pop_capture a.chunk.tag w.caps }
      | r ∷ rs ↦ ingest_chunk a (stack r rs) w
    ]
  ]

  unfoldable pub wait_for_save : List (Arrival V) → Worker V → Worker V
  unfolding save_chunk
  wait_for_save [] w = w
  wait_for_save (a ∷ rest) w = wait_for_save rest (save_chunk a w)
