-- ===== src/Connector/Delivery/Life.antt =====
-- A capture from its first chunk to its manifest, whatever the engine's steps and the sender thread do:
-- what the receiver has acknowledged is always a prefix of the blocks, and a manifest that says
-- `complete` speaks the truth.
use mathlib.Core.Path.{subst}
use pd_bridge.Prelude.{
  ℕ, ◌*◌, ◌<◌, refl, sym, Bool, Option, none, some, List, [], ◌∷◌, ◌++◌, arith, drop_of_length-le,
  Bool-cases, inl, inr, ◌==◌, if◌then◌else◌,
}
use pd_bridge.Connector.Layout.{Col}
use pd_bridge.Connector.Capture.{Transport, Capture, Geometry, Outcome, sender_run}
use pd_bridge.Connector.Delivery.Sends.{blocks_from}
use pd_bridge.Connector.Scheduler.{Chunk}
use pd_bridge.Connector.Cut.{Round, cat, new_capture, transport_for, capture_for, ingest}
use pd_bridge.Connector.Delivery.Ingest.{Delivers, sender-Delivers, accept-Delivers}

-- What can happen to a capture: turns of the sender thread, or a step of the engine with its chunk,
-- the rows of that chunk, and what the sender thread does between the rounds of the loop.
pub data Event (V : Type 0) : Type 0 where
  sends : List Outcome → Event V
  step : Bool → List Round → Chunk → List (Col V) → Event V

-- The capture, and the rows that it has accepted since it was (re)started.
abbrev pub State : Type 0 → Type 0
State V = Capture V × List (Col V)

module _ {V : Type 0} (g : Geometry) where
  unfoldable pub accepted_rows : ℕ → ℕ → List (Col V) → List (Col V) → List (Col V)
  accepted_rows have start new rows = if start == have then rows ++ new else rows

  unfoldable pub on : Event V → State V → State V
  on (sends os) (c, rows) = (sender_run g os c, rows)
  on (step tx rs ch new) (c, rows) = (
    ingest g tx rs ch new (some c),
    accepted_rows (capture_for tx ch (some c)).have ch.start new
        (if ch.start == 0 then [] else rows),
  )

  unfoldable pub life : List (Event V) → State V → State V
  unfolding on
  life [] s = s
  life (e ∷ es) s = life es (on e s)

  -- A capture as `_ingest` makes it of the first chunk.
  unfoldable pub born : Bool → List Round → Chunk → List (Col V) → State V
  unfolding accepted_rows
  born tx rs ch new = (ingest g tx rs ch new none, accepted_rows 0 ch.start new [])

  -- The invariant, for the transport and the hashes that the capture has now.
  abbrev pub IsSound : State V → Type 0
  IsSound s = Delivers g s.0.transport s.0.hashes s.1 s.0

  open g use {omlx_block}

  new-Delivers :
      (tx : Bool) (ch : Chunk)
      → 0 < omlx_block
      → Delivers g (transport_for tx ch) ch.hashes [] (new_capture {V = V} tx ch)
  unfolding new_capture cat blocks_from
  new-Delivers tx ch pos = record {
    runs = record {
      sends = record {
        transport = refl;
        hashes = refl;
        accepted = refl;
        sent_count = refl;
        in_order = refl;
        sent_le = omega arith;
        fits = omega arith;
        held = λ _. refl;
        gapped = λ h. absurd (h refl);
      };
      idle = λ _. refl;
    };
    counted = refl;
    rest = λ _. sym (drop_of_length-le (0 * omlx_block) [] (omega arith));
    short = λ _. pos;
  }

  -- counting the step changes nothing
  stepped :
      (t : Transport) (hs : Option (List (List ℕ))) (rows : List (Col V)) (n : ℕ) (c : Capture V)
      → Delivers g t hs rows c
      → Delivers g t hs rows (record c { steps = n })
  stepped t hs rows n c d = record {
    runs = record {
      sends = record {
        transport = d.runs.sends.transport;
        hashes = d.runs.sends.hashes;
        accepted = d.runs.sends.accepted;
        sent_count = d.runs.sends.sent_count;
        in_order = d.runs.sends.in_order;
        sent_le = d.runs.sends.sent_le;
        fits = d.runs.sends.fits;
        held = d.runs.sends.held;
        gapped = d.runs.sends.gapped;
      };
      idle = d.runs.idle;
    };
    counted = d.counted;
    rest = d.rest;
    short = d.short;
  }

  ingest-Delivers :
      (t : Transport) (hs : Option (List (List ℕ))) (rows new : List (Col V)) (tx : Bool)
      (rs : List Round) (ch : Chunk) (cap : Option (Capture V))
      → 0 < omlx_block
      → Delivers g t hs rows (capture_for tx ch cap)
      → Delivers g t hs
          (accepted_rows (capture_for tx ch cap).have ch.start new rows)
          (ingest g tx rs ch new cap)
  unfolding ingest accepted_rows
  ingest-Delivers t hs rows new tx rs ch cap pos d =
      stepped t hs _ _ _ (accept-Delivers g t hs rows new rs ch.start (capture_for tx ch cap) pos d)

  own :
      (t : Transport) (hs : Option (List (List ℕ))) (rows : List (Col V)) (c : Capture V)
      → Delivers g t hs rows c
      → IsSound (c, rows)
  own t hs rows c d =
      subst (λ u. Delivers g u c.hashes rows c) (sym d.runs.sends.transport)
        (subst (λ u. Delivers g t u rows c) (sym d.runs.sends.hashes) d)

  restart-IsSound :
      (tx : Bool) (ch : Chunk) (c : Capture V) (rows : List (Col V))
      → 0 < omlx_block
      → IsSound (c, rows)
      → IsSound (capture_for tx ch (some c), (if ch.start == 0 then [] else rows))
  unfolding capture_for
  restart-IsSound tx ch c rows pos d = elim (Bool-cases (ch.start == 0)) [
    | inl first ↦ rw first (own _ _ _ _ (new-Delivers tx ch pos))
    | inr later ↦ rw later d
  ]

  on-IsSound : (e : Event V) (s : State V) → 0 < omlx_block → IsSound s → IsSound (on e s)
  unfolding on
  on-IsSound (sends os) (c, rows) pos d =
      own c.transport c.hashes rows (sender_run g os c)
        (sender-Delivers g c.transport c.hashes rows os c d)
  on-IsSound (step tx rs ch new) (c, rows) pos d = own _ _ _ _ (
      ingest-Delivers (capture_for tx ch (some c)).transport (capture_for tx ch (some c)).hashes
        (if ch.start == 0 then [] else rows) new tx rs ch (some c) pos
        (restart-IsSound tx ch c rows pos d))

  pub life-IsSound :
      (es : List (Event V)) (s : State V) → 0 < omlx_block → IsSound s → IsSound (life es s)
  unfolding life
  life-IsSound [] s pos d = d
  life-IsSound (e ∷ es) s pos d = life-IsSound es (on e s) pos (on-IsSound e s pos d)

  pub born-IsSound :
      (tx : Bool) (rs : List Round) (ch : Chunk) (new : List (Col V))
      → 0 < omlx_block
      → IsSound (born tx rs ch new)
  unfolding born capture_for
  born-IsSound tx rs ch new pos = own (transport_for tx ch) ch.hashes _ _ (
      ingest-Delivers (transport_for tx ch) ch.hashes [] new tx rs ch none pos
        (new-Delivers tx ch pos))
