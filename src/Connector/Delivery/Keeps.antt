-- ===== src/Connector/Delivery/Keeps.antt =====
-- What the sender thread leaves alone in a capture.
use pd_bridge.Prelude.{◌≡◌, refl, ◌∙◌, List, [], ◌∷◌, arith, Bool-cases, Option-cases, inl, inr}
use pd_bridge.Connector.Capture.{
  Block, Capture, Geometry, Outcome, send_ok, send_block, take_turn, sender_step, sender_run,
}
use pd_bridge.Connector.Delivery.Sends.{append-ne_nil}

-- What a turn of the sender leaves alone.
pub record Keeps {V : Type 0} (c c' : Capture V) : Type 0 where
  pub blocks : c'.blocks ≡ c.blocks
  pub have : c'.have ≡ c.have
  pub pending : c'.pending ≡ c.pending
  pub pending_rows : c'.pending_rows ≡ c.pending_rows
  pub prompt_len : c'.prompt_len ≡ c.prompt_len
  pub gaps : c'.gaps ≡ [] → c.gaps ≡ []

pub Keeps-refl : {V : Type 0} (c : Capture V) → Keeps c c
Keeps-refl c = record {
  blocks = refl;
  have = refl;
  pending = refl;
  pending_rows = refl;
  prompt_len = refl;
  gaps = λ h. h;
}

pub Keeps-trans : {V : Type 0} {a b c : Capture V} → Keeps a b → Keeps b c → Keeps a c
Keeps-trans p q = record {
  blocks = q.blocks ∙ p.blocks;
  have = q.have ∙ p.have;
  pending = q.pending ∙ p.pending;
  pending_rows = q.pending_rows ∙ p.pending_rows;
  prompt_len = q.prompt_len ∙ p.prompt_len;
  gaps = λ h. p.gaps (q.gaps h);
}

module _ {V : Type 0} (g : Geometry) where
  pub send_block-Keeps : (o : Outcome) (b : Block V) (c : Capture V) → Keeps c (send_block g o b c)
  unfolding send_block
  send_block-Keeps o b c = elim (Option-cases c.error) [
    | inr (e, bad) ↦ ground arith
    | inl good ↦ elim (Bool-cases (send_ok g c.omlx_model b o)) [
      | inl sent ↦
          rw (good, sent)
            (record {
              blocks = refl;
              have = refl;
              pending = refl;
              pending_rows = refl;
              prompt_len = refl;
              gaps = λ h. h;
            })
      | inr failed ↦
          rw (good, failed)
            (record {
              blocks = refl;
              have = refl;
              pending = refl;
              pending_rows = refl;
              prompt_len = refl;
              gaps = λ h. absurd (append-ne_nil c.gaps _ h);
            })
    ]
  ]

  sender_step-Keeps : (o : Outcome) (c : Capture V) → Keeps c (sender_step g o c)
  unfolding sender_step
  sender_step-Keeps o c = go c.queued
    where
      go : (q : List (Block V)) → Keeps c (take_turn g q o c)
      go [] = Keeps-refl c
      go (b ∷ rest) =
          let k = send_block-Keeps o b (record c { queued = rest }) in
          record {
            blocks = k.blocks;
            have = k.have;
            pending = k.pending;
            pending_rows = k.pending_rows;
            prompt_len = k.prompt_len;
            gaps = k.gaps;
          }

  pub sender_run-Keeps : (os : List Outcome) (c : Capture V) → Keeps c (sender_run g os c)
  unfolding sender_run
  sender_run-Keeps [] c = Keeps-refl c
  sender_run-Keeps (o ∷ os) c =
      Keeps-trans (sender_step-Keeps o c) (sender_run-Keeps os (sender_step g o c))
