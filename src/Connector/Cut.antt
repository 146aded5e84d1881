-- ===== src/Connector/Cut.antt =====
-- `_cut_blocks` and `_ingest` of spark/pd_kv_connector.py.
use pd_bridge.Prelude.{
  ℕ, zero, suc, ◌+◌, ◌*◌, ◌/◌, Bool, true, false, not, ◌&&◌, ◌||◌, Option, none, some, List, [],
  ◌∷◌, ◌++◌, ltb, ◌==◌, if◌then◌else◌, length, get_elem?, take, drop,
}
use pd_bridge.Connector.Layout.{Col}
use pd_bridge.Connector.Scheduler.{Chunk}
use pd_bridge.Connector.Capture.{
  Transport, file, rdma2, omlx, no_chain_hash, Block, Capture, Geometry, Outcome, numel, send_block,
  sender_run,
}

-- What the sender thread did before one round of the loop in `_cut_blocks`, and what a send of the
-- forward thread's own (`rdma_async` off) meets in it.
pub record Round : Type 0 where
  pub before : List Outcome
  pub own : Outcome

abbrev pub first_round : List Round → Round
first_round [] = record { before = []; own = Outcome.gone }
first_round (r ∷ rs) = r

abbrev pub next_rounds : List Round → List Round
next_rounds [] = []
next_rounds (r ∷ rs) = rs

abbrev pub hash_list : Option (List (List ℕ)) → List (List ℕ)
hash_list none = []
hash_list (some hs) = hs

-- The hash that the block `i` is sent under: `none` if one is wanted and there is none.
unfoldable pub hash_for : Transport → Option (List (List ℕ)) → ℕ → Option (Option (List ℕ))
hash_for omlx hashes i = elim (get_elem? (hash_list hashes) i) [
  | none ↦ none
  | some h ↦ some (some h)
]
hash_for file hashes i = some none
hash_for rdma2 hashes i = some none

abbrev pub is_nil : List (ℕ × ℕ) → Bool
is_nil [] = true
is_nil (x ∷ xs) = false

abbrev pub has_hashes : Option (List (List ℕ)) → Bool
has_hashes none = false
has_hashes (some []) = false
has_hashes (some (h ∷ hs)) = true

abbrev pub has_model : Option (List ℕ) → Bool
has_model none = false
has_model (some []) = false
has_model (some (x ∷ xs)) = true

-- `tx` says whether `_tx_get` returned a sender
unfoldable pub transport_for : Bool → Chunk → Transport
transport_for tx ch =
    if tx then (if has_model ch.omlx_model && has_hashes ch.hashes then omlx else rdma2) else file

module _ {V : Type 0} where
  -- torch.cat(cap.pending, dim=2)
  unfoldable pub cat : List (List (Col V)) → List (Col V)
  cat [] = []
  cat (x ∷ xs) = x ++ cat xs

  -- `[rest.clone()] if rest.shape[2] else []`
  abbrev pub remainder : List (Col V) → List (List (Col V))
  remainder [] = []
  remainder (x ∷ xs) = (x ∷ xs) ∷ []

  unfoldable pub new_capture : Bool → Chunk → Capture V
  unfolding transport_for
  new_capture tx ch = record {
    tag = ch.tag;
    prompt_len = ch.prompt_len;
    transport = transport_for tx ch;
    omlx_model = ch.omlx_model;
    hashes = ch.hashes;
    have = 0;
    pending = [];
    pending_rows = 0;
    blocks = 0;
    sent = 0;
    gaps = [];
    steps = 0;
    bytes = 0;
    error = none;
    queued = [];
    acked = [];
  }

  -- the capture that the chunk goes to: a chunk from position 0 starts over
  unfoldable pub capture_for : Bool → Chunk → Option (Capture V) → Capture V
  unfolding new_capture
  capture_for tx ch none = new_capture tx ch
  capture_for tx ch (some c) = if ch.start == 0 then new_capture tx ch else c

module _ {V : Type 0} (g : Geometry) where
  open g use {omlx_block, rdma_async}

  -- `kv` is written to a file, queued, or sent at once.
  unfoldable pub dispatch : Transport → Outcome → Block V → Capture V → Capture V
  unfolding send_block
  dispatch file o b c = record c { acked = c.acked ++ (b ∷ []); sent = c.sent + 1 }
  dispatch rdma2 o b c =
      if rdma_async then record c { queued = c.queued ++ (b ∷ []) } else send_block g o b c
  dispatch omlx o b c =
      if rdma_async then record c { queued = c.queued ++ (b ∷ []) } else send_block g o b c

  -- the end of the loop's body
  unfoldable pub counted : List (Col V) → Capture V → Capture V
  unfolding numel
  counted cols c = record c { blocks = c.blocks + 1; bytes = c.bytes + numel g (length cols) * 2 }

  -- What the forward thread does in one round of the loop, and whether the loop goes on.
  unfoldable pub cut_one : Outcome → List (Col V) → Capture V → Capture V × Bool
  unfolding hash_for dispatch counted
  cut_one own cols c = elim c.error [
    | some e ↦ (c, false)
    | none ↦ elim (hash_for c.transport c.hashes c.blocks) [
      | none ↦ (
        record c {
          error = some (no_chain_hash c.blocks (length (hash_list c.hashes)));
          gaps = c.gaps ++ ((c.blocks * omlx_block, c.have) ∷ []);
        },
        false,
      )
      | some h ↦ (
        counted cols
            (dispatch c.transport own (record { index = c.blocks; hash = h; cols = cols }) c),
        true,
      )
    ]
  ]

  -- One round, the sender thread's part first.
  unfoldable pub cut_round : Round → List (Col V) → Capture V → Capture V × Bool
  unfolding sender_run cut_one
  cut_round r cols c = cut_one r.own cols (sender_run g r.before c)

  -- the loop over the `n` full blocks at the head of `buf`
  unfoldable pub cut_loop : ℕ → List Round → List (Col V) → Capture V → Capture V
  unfolding cut_round
  cut_loop zero rs buf c = c
  cut_loop (suc n) rs buf c =
      let (c', more) = cut_round (first_round rs) (take omlx_block buf) c in
      let rest = cut_loop n (next_rounds rs) (drop omlx_block buf) c' in if more then rest else c'

  unfoldable pub cut_blocks : List Round → Capture V → Capture V
  unfolding cut_loop cat
  cut_blocks rs c =
      let buf = cat c.pending in
      let n_full = length buf / omlx_block in
      let rest = drop (n_full * omlx_block) buf in
      let c' = cut_loop n_full rs buf c in
      if not (is_nil c.gaps) || ltb c.pending_rows omlx_block
      then c
      else record c' { pending = remainder rest; pending_rows = length rest }

  -- The rows join the capture, or a gap is noted.
  unfoldable pub accept : List Round → ℕ → List (Col V) → Capture V → Capture V
  unfolding cut_blocks
  accept rs start rows c =
      if start == c.have
      then cut_blocks rs (record c {
        pending = c.pending ++ (rows ∷ []);
        pending_rows = c.pending_rows + length rows;
        have = c.have + length rows;
      })
      else record c { gaps = c.gaps ++ ((c.have, start) ∷ []) }

  -- `_ingest` up to the test of `ch.last`
  unfoldable pub ingest : Bool → List Round → Chunk → List (Col V) → Option (Capture V) → Capture V
  unfolding capture_for accept
  ingest tx rs ch rows cap =
      let c = accept rs ch.start rows (capture_for tx ch cap) in record c { steps = c.steps + 1 }
