-- ===== src/Connector/Delivery/Queue.antt =====
-- One more block of a capture: queued, sent at once, or written to a file.
use mathlib.Core.Path.{subst}
use pd_bridge.Prelude.{
  ℕ, suc, ◌+◌, ◌*◌, ◌≤◌, ◌≡◌, refl, ap, ◌∙◌, sym, Bool, false, Option, none, List, [], ◌∷◌, ◌++◌,
  append_assoc, arith, length, take, drop,
}
use pd_bridge.Connector.Layout.{Col}
use pd_bridge.Connector.Capture.{
  Transport, file, rdma2, omlx, Block, Capture, Geometry, Outcome, numel, send_block,
}
use pd_bridge.Connector.Delivery.Sends.{
  block, blocks_from, blocks_from-suc, Sends, send_block-Sends, sent_one,
}
use pd_bridge.Connector.Cut.{counted}

-- whether blocks go through the sender's queue
abbrev pub queues : Bool → Transport → Bool
queues async file = false
queues async rdma2 = async
queues async omlx = async

module _ {V : Type 0} (g : Geometry) (t : Transport) (hs : Option (List (List ℕ)))
    (rows : List (Col V)) where
  open g use {omlx_block, rdma_async}

  -- the capture with the next block in the queue, and the block counted
  queue_one :
      (b : Block V) (q : List (Block V)) (n : ℕ) (c : Capture V)
      → Sends t hs omlx_block rows c
      → suc c.blocks * omlx_block ≤ length rows
      → b ≡ block t hs c.blocks (take omlx_block (drop (c.blocks * omlx_block) rows))
      → q ≡ c.queued ++ (b ∷ [])
      → Sends t hs omlx_block rows (record c { queued = q; blocks = c.blocks + 1; bytes = n })
  queue_one b q n c s room e qe = record {
    transport = s.transport;
    hashes = s.hashes;
    accepted = s.accepted;
    sent_count = s.sent_count;
    in_order = s.in_order;
    sent_le = omega (arith, s.sent_le);
    fits = omega arith;
    held = λ h.
        ap (λ l. c.acked ++ l) qe
        ∙ (sym (append_assoc c.acked c.queued (b ∷ []))
            ∙ (ap (λ l. l ++ (b ∷ [])) (s.held h)
                ∙ (ap (λ x. blocks_from t hs omlx_block 0 c.blocks rows ++ (x ∷ [])) e
                    ∙ (blocks_from-suc t hs omlx_block 0 c.blocks rows c.blocks _ (omega arith) refl
                        ∙ ap (λ m. blocks_from t hs omlx_block 0 m rows) (omega arith)))));
    gapped = s.gapped;
  }

  send_counted :
      (o : Outcome) (b : Block V) (cols : List (Col V)) (c : Capture V)
      → counted g cols (send_block g o b c) ≡ send_block g o b (counted g cols c)
  unfolding counted send_block
  send_counted o b cols c = ground arith

  module _ (o : Outcome) (b : Block V) (cols : List (Col V)) (c : Capture V)
      (s : Sends t hs omlx_block rows c) (room : suc c.blocks * omlx_block ≤ length rows)
      (e : b ≡ block t hs c.blocks (take omlx_block (drop (c.blocks * omlx_block) rows))) where
    pub by_queue :
        Sends t hs omlx_block rows (counted g cols (record c { queued = c.queued ++ (b ∷ []) }))
    unfolding counted
    by_queue = queue_one b (c.queued ++ (b ∷ [])) _ c s room e refl

    pub by_send : c.queued ≡ [] → Sends t hs omlx_block rows (counted g cols (send_block g o b c))
    unfolding counted
    by_send idle = rw (send_counted o b cols c) (
        subst
          (λ q. Sends t hs omlx_block rows (
            send_block g o b (record c {
              queued = q;
              blocks = c.blocks + 1;
              bytes = c.bytes + numel g (length cols) * 2;
            })))
          (sym idle)
          (send_block-Sends g t hs rows o b []
            (record c { blocks = c.blocks + 1; bytes = c.bytes + numel g (length cols) * 2 })
            (queue_one b (b ∷ []) _ c s room e (ap (λ l. l ++ (b ∷ [])) (sym idle)))))

    pub by_file :
        c.queued ≡ []
        → c.error ≡ none
        → Sends t hs omlx_block rows
            (counted g cols (record c { acked = c.acked ++ (b ∷ []); sent = c.sent + 1 }))
    unfolding counted
    by_file idle good =
        subst
          (λ q. Sends t hs omlx_block rows (record c {
            queued = q;
            acked = c.acked ++ (b ∷ []);
            sent = c.sent + 1;
            blocks = c.blocks + 1;
            bytes = c.bytes + numel g (length cols) * 2;
          }))
          (sym idle)
          (sent_one g t hs rows b []
            (record c { blocks = c.blocks + 1; bytes = c.bytes + numel g (length cols) * 2 })
            (queue_one b (b ∷ []) _ c s room e (ap (λ l. l ++ (b ∷ [])) (sym idle))) good)
