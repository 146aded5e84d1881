-- ===== src/Connector/Delivery/Ingest.antt =====
-- `_ingest` keeps the invariant: after every step of the engine the blocks and the rows that wait for
-- the next block are together the rows that were accepted.
use mathlib.Core.Path.{subst}
use pd_bridge.Prelude.{
  ℕ, ◌+◌, ◌-◌, ◌*◌, ◌/◌, ◌≤◌, ◌<◌, ◌≡◌, refl, ap, ◌∙◌, sym, Bool, true, false, not, ◌||◌, Option,
  List, [], ◌∷◌, ◌++◌, append_assoc, append-nil, arith, length, drop, length-append, length-drop,
  drop-drop, drop-append_le, Bool-cases, inl, inr, ltb, ltb→lt, ◌==◌, if◌then◌else◌,
}
use pd_bridge.Connector.Layout.{Col}
use pd_bridge.Connector.Capture.{Transport, Capture, Geometry, Outcome, sender_run}
use pd_bridge.Connector.Delivery.Sends.{blocks_from-append, append-ne_nil, Sends}
use pd_bridge.Connector.Delivery.Keeps.{sender_run-Keeps}
use pd_bridge.Connector.Cut.{Round, is_nil, cat, remainder, cut_blocks, accept}
use pd_bridge.Connector.Delivery.Dispatch.{Runs, sender_run-Runs}
use pd_bridge.Connector.Delivery.Loop.{cut_loop-Runs}

pub record Delivers {V : Type 0} (g : Geometry) (t : Transport) (hs : Option (List (List ℕ)))
    (rows : List (Col V)) (c : Capture V) : Type 0 where
  pub runs : Runs g t hs rows c
  pub counted : c.pending_rows ≡ length (cat c.pending)
  pub rest : c.gaps ≡ [] → cat c.pending ≡ drop (c.blocks * g.omlx_block) rows
  pub short : c.gaps ≡ [] → c.pending_rows < g.omlx_block

module _ {V : Type 0} where
  cat-append : (xs : List (List (Col V))) (y : List (Col V)) → cat (xs ++ (y ∷ [])) ≡ cat xs ++ y
  unfolding cat
  cat-append [] y = append-nil y
  cat-append (x ∷ xs) y = ap (λ l. x ++ l) (cat-append xs y) ∙ sym (append_assoc x (cat xs) y)

  cat-remainder : (xs : List (Col V)) → cat (remainder xs) ≡ xs
  unfolding cat
  cat-remainder [] = refl
  cat-remainder (x ∷ xs) = append-nil (x ∷ xs)

early_case : (xs : List (ℕ × ℕ)) (b : Bool) → xs ≡ [] → (not (is_nil xs) || b) ≡ true → b ≡ true
early_case [] b e h = h
early_case (x ∷ xs) b e h = cc

late_case :
    (xs : List (ℕ × ℕ)) (b : Bool) → (not (is_nil xs) || b) ≡ false → (xs ≡ []) × (b ≡ false)
late_case [] b h = (refl, h)
late_case (x ∷ xs) b h = cc

mul_le : (k m n : ℕ) → m ≤ n → m * k ≤ n * k
mul_le k m n h = grind arith

mul_add : (k m n : ℕ) → m * k + n * k ≡ (m + n) * k
mul_add k m n = omega arith

div_bounds : (n m : ℕ) → 0 < m → (n / m * m ≤ n) × (n - n / m * m < m)
div_bounds n m h = (omega arith, omega arith)

module _ {V : Type 0} (g : Geometry) (t : Transport) (hs : Option (List (List ℕ))) where
  open g use {omlx_block}

  -- more rows are accepted
  extend-Sends :
      (rows new : List (Col V)) (p : List (List (Col V))) (n : ℕ) (c : Capture V)
      → Sends t hs omlx_block rows c
      → Sends t hs omlx_block
          (rows ++ new)
          (record c { pending = p; pending_rows = n; have = c.have + length new })
  extend-Sends rows new p n c s = record {
    transport = s.transport;
    hashes = s.hashes;
    accepted = omega (arith, length-append rows new, s.accepted);
    sent_count = s.sent_count;
    in_order =
        s.in_order
        ∙ sym (
            blocks_from-append t hs omlx_block 0 c.sent rows new
              (omega (arith, s.fits, mul_le omlx_block c.sent c.blocks s.sent_le)));
    sent_le = s.sent_le;
    fits = omega (arith, length-append rows new, s.fits);
    held = λ h. s.held h ∙ sym (blocks_from-append t hs omlx_block 0 c.blocks rows new s.fits);
    gapped = s.gapped;
  }

  hold-Runs :
      (rows : List (Col V)) (p : List (List (Col V))) (n : ℕ) (c : Capture V)
      → Runs g t hs rows c
      → Runs g t hs rows (record c { pending = p; pending_rows = n })
  hold-Runs rows p n c r = record {
    sends = record {
      transport = r.sends.transport;
      hashes = r.sends.hashes;
      accepted = r.sends.accepted;
      sent_count = r.sends.sent_count;
      in_order = r.sends.in_order;
      sent_le = r.sends.sent_le;
      fits = r.sends.fits;
      held = r.sends.held;
      gapped = r.sends.gapped;
    };
    idle = r.idle;
  }

  -- the loop, and what it leaves for the next step
  cut_blocks-Delivers :
      (rows : List (Col V)) (rs : List Round) (c : Capture V)
      → 0 < omlx_block
      → Runs g t hs rows c
      → c.pending_rows ≡ length (cat c.pending)
      → (c.gaps ≡ [] → cat c.pending ≡ drop (c.blocks * omlx_block) rows)
      → Delivers g t hs rows (cut_blocks g rs c)
  unfolding cut_blocks
  cut_blocks-Delivers rows rs c pos r counted rest =
      elim (Bool-cases (not (is_nil c.gaps) || ltb c.pending_rows omlx_block)) [
        | inl early ↦ rw early (record {
          runs = r;
          counted = counted;
          rest = rest;
          short = λ h. ltb→lt _ _ (early_case c.gaps _ h early);
        })
        | inr late ↦ rw late (
            let buf = cat c.pending in
            let n = length buf / omlx_block in
            let (size, left) = div_bounds (length buf) omlx_block pos in
            let whole : buf ≡ drop (c.blocks * omlx_block) rows =
              rest (late_case c.gaps _ late).0 in
            let (runs, cuts) =
              cut_loop-Runs g hs rows t n rs buf c r
                (omega (
                  arith,
                  ap length whole,
                  length-drop (c.blocks * omlx_block) rows,
                  size,
                  r.sends.fits,
                ))
                whole in
            record {
              runs = hold-Runs rows _ _ _ runs;
              counted = ap length (sym (cat-remainder (drop (n * omlx_block) buf)));
              rest = λ h.
                  cat-remainder (drop (n * omlx_block) buf)
                  ∙ (ap (drop (n * omlx_block)) whole
                      ∙ (drop-drop (n * omlx_block) (c.blocks * omlx_block) rows
                          ∙ (ap (λ k. drop k rows) (mul_add omlx_block c.blocks n)
                              ∙ ap (λ k. drop (k * omlx_block) rows) (sym (cuts.blocks h)))));
              short = λ h. omega (arith, length-drop (n * omlx_block) buf, left);
            })
      ]

  gap-Delivers :
      (rows : List (Col V)) (x : ℕ × ℕ) (c : Capture V)
      → Delivers g t hs rows c
      → Delivers g t hs rows (record c { gaps = c.gaps ++ (x ∷ []) })
  gap-Delivers rows x c d = record {
    runs = record {
      sends = record {
        transport = d.runs.sends.transport;
        hashes = d.runs.sends.hashes;
        accepted = d.runs.sends.accepted;
        sent_count = d.runs.sends.sent_count;
        in_order = d.runs.sends.in_order;
        sent_le = d.runs.sends.sent_le;
        fits = d.runs.sends.fits;
        held = d.runs.sends.held;
        gapped = λ _. append-ne_nil c.gaps x;
      };
      idle = d.runs.idle;
    };
    counted = d.counted;
    rest = λ h. absurd (append-ne_nil c.gaps x h);
    short = λ h. absurd (append-ne_nil c.gaps x h);
  }

  -- A step's rows: they are accepted, or a gap is noted.
  pub accept-Delivers :
      (rows new : List (Col V)) (rs : List Round) (start : ℕ) (c : Capture V)
      → 0 < omlx_block
      → Delivers g t hs rows c
      → Delivers g t hs (if start == c.have then rows ++ new else rows) (accept g rs start new c)
  unfolding accept
  accept-Delivers rows new rs start c pos d = elim (Bool-cases (start == c.have)) [
    | inl next ↦ rw next (
        cut_blocks-Delivers (rows ++ new) rs
          (record c {
            pending = c.pending ++ (new ∷ []);
            pending_rows = c.pending_rows + length new;
            have = c.have + length new;
          })
          pos (record { sends = extend-Sends rows new _ _ c d.runs.sends; idle = d.runs.idle })
          (omega (
            arith,
            ap length (cat-append c.pending new),
            length-append (cat c.pending) new,
            d.counted,
          ))
          (λ h.
            cat-append c.pending new
            ∙ (ap (λ l. l ++ new) (d.rest h)
                ∙ sym (drop-append_le (c.blocks * omlx_block) rows new d.runs.sends.fits))))
    | inr gap ↦ rw gap (gap-Delivers rows (c.have, start) c d)
  ]

  pub sender-Delivers :
      (rows : List (Col V)) (os : List Outcome) (c : Capture V)
      → Delivers g t hs rows c
      → Delivers g t hs rows (sender_run g os c)
  sender-Delivers rows os c d =
      let k = sender_run-Keeps g os c in
      record {
        runs = sender_run-Runs g hs rows t os c d.runs;
        counted = k.pending_rows ∙ (d.counted ∙ ap (λ p. length (cat p)) (sym k.pending));
        rest = λ h.
            ap cat k.pending
            ∙ (d.rest (k.gaps h) ∙ ap (λ n. drop (n * omlx_block) rows) (sym k.blocks));
        short = λ h. subst (λ n. n < omlx_block) (sym k.pending_rows) (d.short (k.gaps h));
      }
