-- ===== src/Connector/Delivery/Complete.antt =====
-- What a client may conclude from a capture of spark/pd_kv_connector.py and from its manifest.
use pd_bridge.Prelude.{
  ℕ, ◌-◌, ◌*◌, ◌/◌, ◌≤◌, ◌<◌, ◌≡◌, refl, ap, ◌∙◌, sym, Bool, true, false, Option, none, some, List,
  [], ◌∷◌, ◌++◌, if◌then◌else◌, arith, length, drop, length-drop,
}
use pd_bridge.Connector.Layout.{Col}
use pd_bridge.Connector.Scheduler.{Chunk}
use pd_bridge.Connector.Capture.{Capture, Geometry}
use pd_bridge.Connector.Cut.{Round, cat}
use pd_bridge.Connector.Seal.{
  Shipped, Manifest, tail, manifest_file, done, is_complete, manifest, tail_rows, ship_tail,
  ship_end, finish_rdma,
}
use pd_bridge.Connector.Delivery.Sends.{blocks_from, length-blocks_from}
use pd_bridge.Connector.Delivery.Life.{
  Event, State, life, born, IsSound, born-IsSound, life-IsSound,
}

-- The receiver's view of a whole capture: the prompt's full blocks in order with the right rows and
-- hashes, nothing left to send, and the rest of the rows held back.
pub record HasAll {V : Type 0} (g : Geometry) (s : State V) : Type 0 where
  pub whole_prompt : length s.1 ≡ s.0.prompt_len
  pub all_blocks :
      s.0.acked
      ≡ blocks_from s.0.transport s.0.hashes g.omlx_block 0 (s.0.prompt_len / g.omlx_block) s.1
  pub nothing_queued : s.0.queued ≡ []
  pub tail_held : cat s.0.pending ≡ drop (s.0.prompt_len / g.omlx_block * g.omlx_block) s.1

-- the marker's status, if the marker came
unfoldable pub status : {V : Type 0} → List (Shipped V) → Option Bool
status [] = none
status (done b ∷ rest) = some b
status (tail rows ∷ rest) = status rest
status (manifest_file m ∷ rest) = status rest

quotient : (k n b : ℕ) → k * b ≤ n → n - k * b < b → k ≡ n / b
quotient k n b low high = grind arith

append-length {ℓ} : {A : Type ℓ} (xs ys : List A) → length (xs ++ ys) ≡ length xs → ys ≡ []
append-length [] [] h = refl
append-length [] (y ∷ ys) h = absurd (omega arith)
append-length (x ∷ xs) ys h = append-length xs ys (omega arith)

status-ship_tail :
    {V : Type 0} (t : Option (List (Col V) × ℕ)) (o : Option Bool) (rest : List (Shipped V))
    → status ((ship_tail t o).0 ++ rest) ≡ status rest
unfolding status ship_tail
status-ship_tail none o rest = refl
status-ship_tail (some (rows, n)) none rest = refl
status-ship_tail (some (rows, n)) (some true) rest = refl
status-ship_tail (some (rows, n)) (some false) rest = refl

status-ship_end :
    (V : Type 0) (m : Manifest) (o_manifest o_done : Option Bool)
    → status (ship_end {V = V} m o_manifest o_done) ≡ some true
    → m.complete ≡ true
unfolding status ship_end
status-ship_end V m o_manifest o_done h = ground arith

module _ {V : Type 0} (g : Geometry) where
  open g use {omlx_block}

  complete-fields :
      (c : Capture V)
      → is_complete c ≡ true
      → (c.gaps ≡ []) × (c.have ≡ c.prompt_len) × (c.sent ≡ c.blocks) × (c.error ≡ none)
  unfolding is_complete
  complete-fields c h = ground arith

  status-finish_rdma :
      (c : Capture V) (built : Bool) (o_tail o_manifest o_done : Option Bool)
      → status (finish_rdma g built o_tail o_manifest o_done c).1 ≡ some true
      → is_complete c ≡ true
  unfolding finish_rdma manifest
  status-finish_rdma c built o_tail o_manifest o_done h =
      let t : Option (List (Col V) × ℕ) = if built then tail_rows c else none in
      let m = record (manifest g c) { tail_rows_shipped = (ship_tail t o_tail).1 } in
      status-ship_end V m o_manifest o_done
        (sym (status-ship_tail t o_tail (ship_end m o_manifest o_done)) ∙ h)

  complete-HasAll : (s : State V) → IsSound g s → is_complete s.0 ≡ true → HasAll g s
  complete-HasAll s d h =
      let c = s.0 in
      let rows = s.1 in
      let (no_gap, all_have, all_sent, good) = complete-fields c h in
      let len : length rows ≡ c.prompt_len = sym d.runs.sends.accepted ∙ all_have in
      let rest : length (cat c.pending) ≡ length rows - c.blocks * omlx_block =
        ap length (d.rest no_gap) ∙ length-drop (c.blocks * omlx_block) rows in
      let b : c.blocks ≡ c.prompt_len / omlx_block =
        quotient c.blocks c.prompt_len omlx_block (omega (arith, len, d.runs.sends.fits))
          (omega (arith, len, rest, d.counted, d.short no_gap)) in
      let all : c.acked ++ c.queued ≡ blocks_from c.transport c.hashes omlx_block 0 c.blocks rows =
        d.runs.sends.held good in
      record {
        whole_prompt = len;
        all_blocks =
            d.runs.sends.in_order
            ∙ ap (λ n. blocks_from c.transport c.hashes omlx_block 0 n rows) (all_sent ∙ b);
        nothing_queued = append-length c.acked c.queued (
            omega (
              arith,
              ap length all,
              length-blocks_from c.transport c.hashes omlx_block 0 c.blocks rows,
              d.runs.sends.sent_count,
              all_sent,
            ));
        tail_held = d.rest no_gap ∙ ap (λ n. drop (n * omlx_block) rows) b;
      }

  module _ (tx : Bool) (rs : List Round) (ch : Chunk) (new : List (Col V))
      (es : List (Event V)) where
    abbrev pub history : State V
    history = life g es (born g tx rs ch new)

    history-IsSound : 0 < omlx_block → IsSound g history
    history-IsSound pos =
        life-IsSound g es (born g tx rs ch new) pos (born-IsSound g tx rs ch new pos)

    -- Whatever chunks come, with or without gaps and restarts, whatever the sender thread does between
    -- the rounds of the cutting loop and whatever fails: if the decoder's block size is positive, the
    -- acknowledged blocks are exactly the first `sent` blocks of the accepted rows, in order, each with
    -- its index, hash and rows.
    pub acked_prefix :
        0 < omlx_block
        → history.0.acked
          ≡ blocks_from history.0.transport history.0.hashes omlx_block 0 history.0.sent history.1
    acked_prefix pos = (history-IsSound pos).runs.sends.in_order

    -- After any such history, if the block size is positive and the manifest would say `complete`, the
    -- accepted rows are as many as the prompt's tokens, every full block of them is acknowledged in
    -- order, nothing is queued, and the rows behind the last full block are held back.
    pub complete_delivery : 0 < omlx_block → is_complete history.0 ≡ true → HasAll g history
    complete_delivery pos h = complete-HasAll history (history-IsSound pos) h

    -- After any such history, however the calls of `_finish_rdma` end: if the block size is positive and
    -- the receiver gets the marker with the status `complete`, then it has the whole prompt's blocks.
    pub done_complete :
        (built : Bool) (o_tail o_manifest o_done : Option Bool)
        → 0 < omlx_block
        → status (finish_rdma g built o_tail o_manifest o_done history.0).1 ≡ some true
        → HasAll g history
    done_complete built o_tail o_manifest o_done pos h =
        complete_delivery pos (status-finish_rdma history.0 built o_tail o_manifest o_done h)
