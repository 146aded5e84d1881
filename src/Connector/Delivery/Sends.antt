-- ===== src/Connector/Delivery/Sends.antt =====
-- The blocks of a list of rows, and the invariant that what is acknowledged and what is queued are
-- those blocks in order. It is kept by the sender thread and by the loop of `_cut_blocks`.
use pd_bridge.Prelude.{
  ℕ, zero, suc, ◌+◌, ◌*◌, ◌≤◌, ◌≡◌, ◌≢◌, refl, ap, ◌∙◌, sym, Option, none, some, List, [], ◌∷◌,
  ◌++◌, append_assoc, arith, length, take, drop, length-append, length-drop, drop-drop,
  take-append_le, drop-append_le, Bool-cases, Option-cases, inl, inr,
}
use mathlib.Core.Path.{ap₂, subst}
use pd_bridge.Connector.Layout.{Col}
use pd_bridge.Connector.Capture.{
  Transport, Error, Block, Capture, Geometry, Outcome, send_ok, send_block, take_turn, sender_step,
  sender_run,
}
use pd_bridge.Connector.Cut.{hash_for}

abbrev pub flat : Option (Option (List ℕ)) → Option (List ℕ)
flat none = none
flat (some h) = h

module _ {V : Type 0} (t : Transport) (hs : Option (List (List ℕ))) where
  abbrev pub block : ℕ → List (Col V) → Block V
  block i cols = record { index = i; hash = flat (hash_for t hs i); cols = cols }

  module _ (B : ℕ) where
    -- the `n` blocks of `B` rows at the head of `rows`, the first with the index `i`
    unfoldable pub blocks_from : ℕ → ℕ → List (Col V) → List (Block V)
    blocks_from i zero rows = []
    blocks_from i (suc n) rows = block i (take B rows) ∷ blocks_from (suc i) n (drop B rows)

    pub length-blocks_from : (i n : ℕ) (rows : List (Col V)) → length (blocks_from i n rows) ≡ n
    unfolding blocks_from
    length-blocks_from i zero rows = refl
    length-blocks_from i (suc n) rows = ap suc (length-blocks_from (suc i) n (drop B rows))

    -- more rows behind the blocks change none of them
    pub blocks_from-append :
        (i n : ℕ) (rows more : List (Col V))
        → n * B ≤ length rows
        → blocks_from i n (rows ++ more) ≡ blocks_from i n rows
    unfolding blocks_from
    blocks_from-append i zero rows more h = refl
    blocks_from-append i (suc n) rows more h =
        rw (take-append_le B rows more (omega arith), drop-append_le B rows more (omega arith))
          (ap (◌∷◌ (block i (take B rows)))
            (blocks_from-append (suc i) n (drop B rows) more (omega (arith, length-drop B rows))))

    -- one more block at the end
    pub blocks_from-suc :
        (i n : ℕ) (rows : List (Col V)) (k : ℕ) (cols : List (Col V))
        → k ≡ i + n
        → cols ≡ take B (drop (n * B) rows)
        → blocks_from i n rows ++ (block k cols ∷ []) ≡ blocks_from i (suc n) rows
    unfolding blocks_from
    blocks_from-suc i zero rows k cols e p =
        ap₂ (λ j cs. block j cs ∷ []) (omega arith)
          (p ∙ ap (λ m. take B (drop m rows)) (let z : 0 * B ≡ 0 = omega arith in z))
    blocks_from-suc i (suc n) rows k cols e p = ap (◌∷◌ (block i (take B rows))) (
        blocks_from-suc (suc i) n (drop B rows) k cols (omega arith) (
          p
          ∙ ap (take B) (
              ap (λ m. drop m rows) (let z : suc n * B ≡ B + n * B = omega arith in z)
              ∙ sym (drop-drop (n * B) B rows))))

    -- a part of the blocks, from the front
    pub blocks_from-prefix :
        (i n : ℕ) (rows : List (Col V)) (xs ys : List (Block V))
        → xs ++ ys ≡ blocks_from i n rows
        → xs ≡ blocks_from i (length xs) rows
    unfolding blocks_from
    blocks_from-prefix i n rows [] ys h = refl
    blocks_from-prefix i zero rows (x ∷ xs) ys h = cc
    blocks_from-prefix i (suc n) rows (x ∷ xs) ys h =
        let e : xs ++ ys ≡ blocks_from (suc i) n (drop B rows) = cc in
        cc (blocks_from-prefix (suc i) n (drop B rows) xs ys e)

pub append-ne_nil {ℓ} : {A : Type ℓ} (xs : List A) (x : A) → xs ++ (x ∷ []) ≢ []
append-ne_nil [] x h = cc
append-ne_nil (y ∷ xs) x h = cc

-- The invariant, for the rows that were accepted so far.
pub record Sends {V : Type 0} (t : Transport) (hs : Option (List (List ℕ))) (B : ℕ)
    (rows : List (Col V)) (c : Capture V) : Type 0 where
  pub transport : c.transport ≡ t
  pub hashes : c.hashes ≡ hs
  pub accepted : c.have ≡ length rows
  pub sent_count : c.sent ≡ length c.acked
  pub in_order : c.acked ≡ blocks_from t hs B 0 c.sent rows
  pub sent_le : c.sent ≤ c.blocks
  pub fits : c.blocks * B ≤ length rows
  pub held : c.error ≡ none → c.acked ++ c.queued ≡ blocks_from t hs B 0 c.blocks rows
  pub gapped : c.error ≢ none → c.gaps ≢ []

module _ {V : Type 0} (g : Geometry) (t : Transport) (hs : Option (List (List ℕ)))
    (rows : List (Col V)) where
  open g use {omlx_block}

  pub sent_one :
      (b : Block V) (rest : List (Block V)) (c : Capture V)
      → Sends t hs omlx_block rows (record c { queued = b ∷ rest })
      → c.error ≡ none
      → Sends t hs omlx_block rows
          (record c { queued = rest; sent = c.sent + 1; acked = c.acked ++ (b ∷ []) })
  sent_one b rest c s e =
      let n : length (c.acked ++ (b ∷ [])) ≡ c.sent + 1 =
        omega (arith, length-append c.acked (b ∷ []), s.sent_count) in
      let h : (c.acked ++ (b ∷ [])) ++ rest ≡ blocks_from t hs omlx_block 0 c.blocks rows =
        append_assoc c.acked (b ∷ []) rest ∙ s.held e in
      record {
        transport = s.transport;
        hashes = s.hashes;
        accepted = s.accepted;
        sent_count = sym n;
        in_order =
            blocks_from-prefix t hs omlx_block 0 c.blocks rows (c.acked ++ (b ∷ [])) rest h
            ∙ ap (λ m. blocks_from t hs omlx_block 0 m rows) n;
        sent_le = omega (
          arith,
          n,
          ap length h,
          length-append (c.acked ++ (b ∷ [])) rest,
          length-blocks_from t hs omlx_block 0 c.blocks rows,
        );
        fits = s.fits;
        held = λ _. h;
        gapped = s.gapped;
      }

  -- after a failure only the blocks that were acknowledged count
  pub failed-Sends :
      (q : List (Block V)) (gs : List (ℕ × ℕ)) (e : Option Error) (c : Capture V)
      → Sends t hs omlx_block rows c
      → e ≢ none
      → gs ≢ []
      → Sends t hs omlx_block rows (record c { queued = q; gaps = gs; error = e })
  failed-Sends q gs e c s bad some_gap = record {
    transport = s.transport;
    hashes = s.hashes;
    accepted = s.accepted;
    sent_count = s.sent_count;
    in_order = s.in_order;
    sent_le = s.sent_le;
    fits = s.fits;
    held = λ h. absurd (bad h);
    gapped = λ _. some_gap;
  }

  pub send_block-Sends :
      (o : Outcome) (b : Block V) (rest : List (Block V)) (c : Capture V)
      → Sends t hs omlx_block rows (record c { queued = b ∷ rest })
      → Sends t hs omlx_block rows (send_block g o b (record c { queued = rest }))
  unfolding send_block
  send_block-Sends o b rest c s = elim (Option-cases c.error) [
    | inr (e, bad) ↦
        let wrong : c.error ≢ none = λ h. cc in
        rw (bad, send_block)
          (failed-Sends rest c.gaps c.error (record c { queued = b ∷ rest }) s wrong
            (s.gapped wrong))
    | inl good ↦ elim (Bool-cases (send_ok g c.omlx_model b o)) [
      | inl sent ↦ rw (good, sent) (sent_one b rest c s good)
      | inr failed ↦
          rw (good, failed)
            (failed-Sends rest _ (some _) (record c { queued = b ∷ rest }) s (λ h. cc)
              (append-ne_nil c.gaps _))
    ]
  ]

  sender_step-Sends :
      (o : Outcome) (c : Capture V)
      → Sends t hs omlx_block rows c
      → Sends t hs omlx_block rows (sender_step g o c)
  unfolding sender_step
  sender_step-Sends o c s = go c.queued refl
    where
      go : (q : List (Block V)) → c.queued ≡ q → Sends t hs omlx_block rows (take_turn g q o c)
      go [] e = s
      go (b ∷ rest) e =
          send_block-Sends o b rest c
            (subst (λ q. Sends t hs omlx_block rows (record c { queued = q })) e s)

  -- Whatever the sender thread does, the invariant holds.
  pub sender_run-Sends :
      (os : List Outcome) (c : Capture V)
      → Sends t hs omlx_block rows c
      → Sends t hs omlx_block rows (sender_run g os c)
  unfolding sender_run
  sender_run-Sends [] c s = s
  sender_run-Sends (o ∷ os) c s = sender_run-Sends os (sender_step g o c) (sender_step-Sends o c s)

-- What the sender thread does not touch.
