-- ===== src/Connector/Delivery/Dispatch.antt =====
-- The dispatch of one block keeps the invariant and counts the block.
use pd_bridge.Prelude.{
  ℕ, suc, ◌+◌, ◌*◌, ◌≤◌, ◌≡◌, refl, ap, ◌∙◌, Bool, true, false, Option, none, List, [], ◌∷◌, ◌++◌,
  arith, length, take, drop, if◌then◌else◌,
}
use pd_bridge.Connector.Layout.{Col}
use pd_bridge.Connector.Capture.{
  Transport, file, rdma2, omlx, Block, Capture, Geometry, Outcome, send_block, take_turn,
  sender_step, sender_run,
}
use pd_bridge.Connector.Delivery.Sends.{block, Sends, sender_run-Sends}
use pd_bridge.Connector.Delivery.Keeps.{send_block-Keeps}
use pd_bridge.Connector.Cut.{dispatch, counted}
use pd_bridge.Connector.Delivery.Queue.{queues, by_queue, by_send, by_file}

-- What one round, or the loop, does to the fields that the invariant does not speak of.
pub record Cuts {V : Type 0} (n : ℕ) (c c' : Capture V) : Type 0 where
  pub have : c'.have ≡ c.have
  pub pending : c'.pending ≡ c.pending
  pub pending_rows : c'.pending_rows ≡ c.pending_rows
  pub prompt_len : c'.prompt_len ≡ c.prompt_len
  pub gaps : c'.gaps ≡ [] → c.gaps ≡ []
  pub blocks : c'.gaps ≡ [] → c'.blocks ≡ c.blocks + n

-- The invariant, and a queue that is empty where blocks do not go through it.
pub record Runs {V : Type 0} (g : Geometry) (t : Transport) (hs : Option (List (List ℕ)))
    (rows : List (Col V)) (c : Capture V) : Type 0 where
  pub sends : Sends t hs g.omlx_block rows c
  pub idle : queues g.rdma_async t ≡ false → c.queued ≡ []

module _ {V : Type 0} (g : Geometry) (hs : Option (List (List ℕ))) (rows : List (Col V)) where
  open g use {omlx_block, rdma_async}

  sender_run_idle : (os : List Outcome) (c : Capture V) → c.queued ≡ [] → sender_run g os c ≡ c
  unfolding sender_run sender_step
  sender_run_idle [] c e = refl
  sender_run_idle (o ∷ os) c e =
      let same : sender_step g o c ≡ c = ap (λ q. take_turn g q o c) e in
      ap (sender_run g os) same ∙ sender_run_idle os c e

  pub sender_run-Runs :
      (t : Transport) (os : List Outcome) (c : Capture V)
      → Runs g t hs rows c
      → Runs g t hs rows (sender_run g os c)
  sender_run-Runs t os c r = record {
    sends = sender_run-Sends g t hs rows os c r.sends;
    idle = λ h. ap (λ x. x.queued) (sender_run_idle os c (r.idle h)) ∙ r.idle h;
  }

  queued-send_block :
      (o : Outcome) (b : Block V) (c : Capture V) → (send_block g o b c).queued ≡ c.queued
  unfolding send_block
  queued-send_block o b c = ground arith

  module _ (o : Outcome) (b : Block V) (cols : List (Col V)) (c : Capture V) (good : c.error ≡ none)
      (room : suc c.blocks * omlx_block ≤ length rows) where
    -- queued, or sent at once
    put-Runs :
        (t : Transport) (async : Bool)
        → queues rdma_async t ≡ async
        → Runs g t hs rows c
        → b ≡ block t hs c.blocks (take omlx_block (drop (c.blocks * omlx_block) rows))
        → Runs g t hs rows (
            counted g cols
              (if async then record c { queued = c.queued ++ (b ∷ []) } else send_block g o b c))
    unfolding counted
    put-Runs t true q r e = record {
      sends = unfold counted in by_queue g t hs rows o b cols c r.sends room e;
      idle = λ h. cc;
    }
    put-Runs t false q r e = record {
      sends = by_send g t hs rows o b cols c r.sends room e (r.idle q);
      idle = λ h. queued-send_block o b c ∙ r.idle q;
    }

    pub dispatch-Runs :
        (t : Transport)
        → Runs g t hs rows c
        → b ≡ block t hs c.blocks (take omlx_block (drop (c.blocks * omlx_block) rows))
        → Runs g t hs rows (counted g cols (dispatch g t o b c))
    unfolding dispatch counted
    dispatch-Runs file r e = record {
      sends = by_file g file hs rows o b cols c r.sends room e (r.idle refl) good;
      idle = λ h. r.idle refl;
    }
    dispatch-Runs rdma2 r e = put-Runs rdma2 rdma_async refl r e
    dispatch-Runs omlx r e = put-Runs omlx rdma_async refl r e

  put-Cuts :
      (async : Bool) (o : Outcome) (b : Block V) (cols : List (Col V)) (c : Capture V)
      → Cuts 1 c (
          counted g cols
            (if async then record c { queued = c.queued ++ (b ∷ []) } else send_block g o b c))
  unfolding counted
  put-Cuts true o b cols c = ground arith
  put-Cuts false o b cols c =
      let k = send_block-Keeps g o b c in
      record {
        have = k.have;
        pending = k.pending;
        pending_rows = k.pending_rows;
        prompt_len = k.prompt_len;
        gaps = k.gaps;
        blocks = λ h. ap (λ n. n + 1) k.blocks;
      }

  pub dispatch-Cuts :
      (t : Transport) (o : Outcome) (b : Block V) (cols : List (Col V)) (c : Capture V)
      → Cuts 1 c (counted g cols (dispatch g t o b c))
  unfolding dispatch
  dispatch-Cuts file o b cols c = unfold counted in ground arith
  dispatch-Cuts rdma2 o b cols c = put-Cuts rdma_async o b cols c
  dispatch-Cuts omlx o b cols c = put-Cuts rdma_async o b cols c

  blocks-put :
      (async : Bool) (o : Outcome) (b : Block V) (cols : List (Col V)) (c : Capture V)
      → (counted g cols
          (if async then record c { queued = c.queued ++ (b ∷ []) } else send_block g o b c)).blocks
        ≡ c.blocks + 1
  unfolding counted
  blocks-put true o b cols c = refl
  blocks-put false o b cols c = ap (λ n. n + 1) (send_block-Keeps g o b c).blocks

  pub blocks-dispatch :
      (t : Transport) (o : Outcome) (b : Block V) (cols : List (Col V)) (c : Capture V)
      → (counted g cols (dispatch g t o b c)).blocks ≡ c.blocks + 1
  unfolding dispatch
  blocks-dispatch file o b cols c = unfold counted in refl
  blocks-dispatch rdma2 o b cols c = blocks-put rdma_async o b cols c
  blocks-dispatch omlx o b cols c = blocks-put rdma_async o b cols c
