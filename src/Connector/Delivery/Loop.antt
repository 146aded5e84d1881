-- ===== src/Connector/Delivery/Loop.antt =====
-- The loop of `_cut_blocks` keeps the invariant, and cuts every full block unless it notes a gap.
use mathlib.Core.Path.{ap₂, subst}
use pd_bridge.Prelude.{
  ℕ, zero, suc, ◌+◌, ◌*◌, ◌≤◌, ◌≡◌, ◌≢◌, refl, ap, ◌∙◌, sym, Bool, true, false, Option, none, some,
  List, [], ◌∷◌, ◌++◌, arith, length, take, drop, drop-drop, Bool-cases, Option-cases, inl, inr,
}
use pd_bridge.Connector.Layout.{Col}
use pd_bridge.Connector.Capture.{
  Transport, Error, no_chain_hash, Capture, Geometry, Outcome, sender_run,
}
use pd_bridge.Connector.Delivery.Sends.{flat, append-ne_nil, failed-Sends}
use pd_bridge.Connector.Delivery.Keeps.{sender_run-Keeps}
use pd_bridge.Connector.Cut.{
  Round, first_round, next_rounds, hash_for, hash_list, dispatch, counted, cut_one, cut_round,
  cut_loop,
}
use pd_bridge.Connector.Delivery.Dispatch.{
  Cuts, Runs, sender_run-Runs, dispatch-Runs, dispatch-Cuts, blocks-dispatch,
}

module _ {V : Type 0} (g : Geometry) (hs : Option (List (List ℕ))) (rows : List (Col V)) where
  open g use {omlx_block, rdma_async}

  -- The cases of `cut_one`.
  module _ (o : Outcome) (cols : List (Col V)) (c : Capture V) where
    cut_one_failed : (x : Error) → c.error ≡ some x → cut_one g o cols c ≡ (c, false)
    unfolding cut_one
    cut_one_failed x bad = ground arith

    no_hash : Capture V
    no_hash = record c {
      error = some (no_chain_hash c.blocks (length (hash_list c.hashes)));
      gaps = c.gaps ++ ((c.blocks * omlx_block, c.have) ∷ []);
    }

    cut_one-no_hash :
        c.error ≡ none
        → hash_for c.transport c.hashes c.blocks ≡ none
        → cut_one g o cols c ≡ (no_hash, false)
    unfolding cut_one no_hash
    cut_one-no_hash good missing = ground arith

    cut_one_cut :
        (h : Option (List ℕ))
        → c.error ≡ none
        → hash_for c.transport c.hashes c.blocks ≡ some h
        → cut_one g o cols c ≡ (
          counted g cols
              (dispatch g c.transport o (record { index = c.blocks; hash = h; cols = cols }) c),
          true,
        )
    unfolding cut_one
    cut_one_cut h good found = ground arith

  -- One round: the invariant stays; the block is counted, or a gap is noted and the loop ends.
  record RoundResult (t : Transport) (c : Capture V) (p : Capture V × Bool) : Type 0 where
    runs : Runs g t hs rows p.0
    cuts : Cuts 1 c p.0
    adds : p.1 ≡ true → p.0.blocks ≡ c.blocks + 1
    ends : p.1 ≡ false → p.0.gaps ≢ []

  cut_one_result :
      (t : Transport) (o : Outcome) (cols : List (Col V)) (c : Capture V)
      → Runs g t hs rows c
      → suc c.blocks * omlx_block ≤ length rows
      → cols ≡ take omlx_block (drop (c.blocks * omlx_block) rows)
      → RoundResult t c (cut_one g o cols c)
  unfolding no_hash
  cut_one_result t o cols c r room e = elim (Option-cases c.error) [
    | inr (x, bad) ↦
        let gap : c.gaps ≢ [] = r.sends.gapped (λ h. cc) in
        rw (cut_one_failed o cols c x bad) (record {
          runs = r;
          cuts = record {
            have = refl;
            pending = refl;
            pending_rows = refl;
            prompt_len = refl;
            gaps = λ h. h;
            blocks = λ h. absurd (gap h);
          };
          adds = λ h. cc;
          ends = λ _. gap;
        })
    | inl good ↦ elim (Option-cases (hash_for c.transport c.hashes c.blocks)) [
      | inl missing ↦ rw (cut_one-no_hash o cols c good missing) (record {
        runs = record {
          sends =
              failed-Sends g t hs rows c.queued _ (some _) c r.sends (λ h. cc)
                (append-ne_nil c.gaps _);
          idle = r.idle;
        };
        cuts = record {
          have = refl;
          pending = refl;
          pending_rows = refl;
          prompt_len = refl;
          gaps = λ h. absurd (append-ne_nil c.gaps _ h);
          blocks = λ h. absurd (append-ne_nil c.gaps _ h);
        };
        adds = λ h. cc;
        ends = λ _. append-ne_nil c.gaps _;
      })
      | inr (h, found) ↦ rw (cut_one_cut o cols c h good found) (record {
        runs =
            subst
              (λ u. Runs g t hs rows (
                counted g cols
                  (dispatch g u o (record { index = c.blocks; hash = h; cols = cols }) c)))
              (sym r.sends.transport)
              (dispatch-Runs g hs rows o _ cols c good room t r (λ i. record {
                index = c.blocks;
                hash =
                    sym
                      (ap flat (
                        ap₂ (λ u v. hash_for u v c.blocks) (sym r.sends.transport)
                          (sym r.sends.hashes)
                        ∙ found))
                      i;
                cols = e i;
              }));
        cuts = dispatch-Cuts g hs rows c.transport o _ cols c;
        adds = λ _. blocks-dispatch g hs rows c.transport o _ cols c;
        ends = λ h. cc;
      })
    ]
  ]

  -- a turn of the sender thread in front
  cut_round_result :
      (t : Transport) (rd : Round) (cols : List (Col V)) (c : Capture V)
      → Runs g t hs rows c
      → suc c.blocks * omlx_block ≤ length rows
      → cols ≡ take omlx_block (drop (c.blocks * omlx_block) rows)
      → RoundResult t c (cut_round g rd cols c)
  unfolding cut_round
  cut_round_result t rd cols c r room e =
      let c1 = sender_run g rd.before c in
      let k = sender_run-Keeps g rd.before c in
      let res =
        cut_one_result t rd.own cols c1 (sender_run-Runs g hs rows t rd.before c r)
          (subst (λ n. suc n * omlx_block ≤ length rows) (sym k.blocks) room)
          (subst (λ n. cols ≡ take omlx_block (drop (n * omlx_block) rows)) (sym k.blocks) e) in
      record {
        runs = res.runs;
        cuts = record {
          have = res.cuts.have ∙ k.have;
          pending = res.cuts.pending ∙ k.pending;
          pending_rows = res.cuts.pending_rows ∙ k.pending_rows;
          prompt_len = res.cuts.prompt_len ∙ k.prompt_len;
          gaps = λ h. k.gaps (res.cuts.gaps h);
          blocks = λ h. res.cuts.blocks h ∙ ap (λ n. n + 1) k.blocks;
        };
        adds = λ h. res.adds h ∙ ap (λ n. n + 1) k.blocks;
        ends = res.ends;
      }

  step_mul : (k : ℕ) → k * omlx_block + omlx_block ≡ (k + 1) * omlx_block
  step_mul k = omega arith

  -- The loop over `n` full blocks, from any point.
  pub cut_loop-Runs :
      (t : Transport) (n : ℕ) (rs : List Round) (buf : List (Col V)) (c : Capture V)
      → Runs g t hs rows c
      → (c.blocks + n) * omlx_block ≤ length rows
      → buf ≡ drop (c.blocks * omlx_block) rows
      → Runs g t hs rows (cut_loop g n rs buf c) × Cuts n c (cut_loop g n rs buf c)
  unfolding cut_loop
  cut_loop-Runs t zero rs buf c r room e = (
    r,
    record {
      have = refl;
      pending = refl;
      pending_rows = refl;
      prompt_len = refl;
      gaps = λ h. h;
      blocks = λ h. omega arith;
    },
  )
  cut_loop-Runs t (suc n) rs buf c r room e =
      let p = cut_round g (first_round rs) (take omlx_block buf) c in
      let res =
        cut_round_result t (first_round rs) (take omlx_block buf) c r (omega arith)
          (ap (take omlx_block) e) in
      elim (Bool-cases p.1) [
        | inr ended ↦ rw ended (
          res.runs,
          record {
            have = res.cuts.have;
            pending = res.cuts.pending;
            pending_rows = res.cuts.pending_rows;
            prompt_len = res.cuts.prompt_len;
            gaps = res.cuts.gaps;
            blocks = λ h. absurd (res.ends ended h);
          },
        )
        | inl more ↦
            let (runs, cuts) =
              cut_loop-Runs t n (next_rounds rs) (drop omlx_block buf) p.0 res.runs
                (subst (λ m. (m + n) * omlx_block ≤ length rows) (sym (res.adds more))
                  (omega arith))
                (ap (drop omlx_block) e
                  ∙ (drop-drop omlx_block (c.blocks * omlx_block) rows
                      ∙ (ap (λ m. drop m rows) (step_mul c.blocks)
                          ∙ ap (λ m. drop (m * omlx_block) rows) (sym (res.adds more))))) in
            rw more (
              runs,
              record {
                have = cuts.have ∙ res.cuts.have;
                pending = cuts.pending ∙ res.cuts.pending;
                pending_rows = cuts.pending_rows ∙ res.cuts.pending_rows;
                prompt_len = cuts.prompt_len ∙ res.cuts.prompt_len;
                gaps = λ h. res.cuts.gaps (cuts.gaps h);
                blocks = λ h. cuts.blocks h ∙ (ap (λ m. m + n) (res.adds more) ∙ omega arith);
              },
            )
      ]
