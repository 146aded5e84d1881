-- ===== src/Connector/Seal.antt =====
-- `_manifest`, `_tail_blob`, `_finish` and `_finish_rdma` of spark/pd_kv_connector.py. The manifest's
-- constants (version, dtype, geometry, layout text) and its t_* timings are left out. How a file call
-- of the sender ends is an argument: `none` where the sender is gone, else whether the call returned.
use pd_bridge.Prelude.{
  ℕ, ◌-◌, Bool, true, false, not, ◌&&◌, ◌||◌, Option, none, some, List, [], ◌∷◌, ◌++◌, leb, ◌==◌,
  if◌then◌else◌, take,
}
use pd_bridge.Connector.Layout.{Col}
use pd_bridge.Connector.Capture.{Transport, file, rdma2, omlx, Error, Capture, Geometry}
use pd_bridge.Connector.Cut.{is_nil}

pub data Landed : Type 0 where
  spark_nvme pull_dir omlx_cache : Landed

pub record Manifest : Type 0 where
  pub tag : List ℕ
  pub transport : Transport
  pub landed : Landed
  pub omlx_model : Option (List ℕ)
  pub is_async : Bool
  pub T : ℕ
  pub prompt_len : ℕ
  pub blocks : ℕ
  pub blocks_sent : ℕ
  pub block : ℕ
  pub complete : Bool
  pub position_gaps : List (ℕ × ℕ)
  pub error : Option Error
  pub tail_rows_not_shipped : ℕ
  pub steps : ℕ
  pub bytes : ℕ
  pub tail_rows_shipped : ℕ

abbrev pub landed_at : Transport → Landed
landed_at omlx = omlx_cache
landed_at rdma2 = pull_dir
landed_at file = spark_nvme

abbrev pub is_file : Transport → Bool
is_file file = true
is_file rdma2 = false
is_file omlx = false

abbrev pub is_omlx : Transport → Bool
is_omlx file = false
is_omlx rdma2 = false
is_omlx omlx = true

abbrev pub is_none : Option Error → Bool
is_none none = true
is_none (some e) = false

-- `T`: the rows before the first gap
abbrev pub first_gap : ℕ → List (ℕ × ℕ) → ℕ
first_gap have [] = have
first_gap have ((at, start) ∷ gaps) = at

-- What the receiver gets after the blocks, oldest first; `done` is the marker with its status.
pub data Shipped (V : Type 0) : Type 0 where
  tail : List (Col V) → Shipped V
  manifest_file : Manifest → Shipped V
  done : Bool → Shipped V

module _ {V : Type 0} where
  unfoldable pub is_complete : Capture V → Bool
  is_complete c =
      is_nil c.gaps && (c.have == c.prompt_len && (c.sent == c.blocks && is_none c.error))

  unfoldable pub manifest : Geometry → Capture V → Manifest
  unfolding is_complete
  manifest g c = record {
    tag = c.tag;
    transport = c.transport;
    landed = landed_at c.transport;
    omlx_model = c.omlx_model;
    is_async = g.rdma_async && not (is_file c.transport);
    T = first_gap c.have c.gaps;
    prompt_len = c.prompt_len;
    blocks = c.blocks;
    blocks_sent = c.sent;
    block = g.omlx_block;
    complete = is_complete c;
    position_gaps = c.gaps;
    error = c.error;
    tail_rows_not_shipped = c.pending_rows;
    steps = c.steps;
    bytes = c.bytes;
    tail_rows_shipped = 0;
  }

  abbrev pub first_of_pending : List (List (Col V)) → List (Col V)
  first_of_pending [] = []
  first_of_pending (x ∷ xs) = x

  abbrev pub no_pending : List (List (Col V)) → Bool
  no_pending [] = true
  no_pending (x ∷ xs) = false

  -- `_tail_blob`: the rows behind the last full block without the prompt's last token, if they are sent
  unfoldable pub tail_rows : Capture V → Option (List (Col V) × ℕ)
  tail_rows c =
      if not (is_omlx c.transport)
        || (not (is_nil c.gaps)
            || (not (is_none c.error) || (leb c.pending_rows 1 || no_pending c.pending)))
      then none
      else some (take (c.pending_rows - 1) (first_of_pending c.pending), c.pending_rows - 1)

  -- the tail, if there is one and the call returns; with the count that goes into the manifest
  unfoldable pub ship_tail : Option (List (Col V) × ℕ) → Option Bool → List (Shipped V) × ℕ
  ship_tail (some (rows, n)) (some true) = (tail rows ∷ [], n)
  ship_tail (some (rows, n)) (some false) = ([], 0)
  ship_tail (some (rows, n)) none = ([], 0)
  ship_tail none o = ([], 0)

  -- the manifest, then the marker; the first call that fails ends it
  unfoldable pub ship_end : Manifest → Option Bool → Option Bool → List (Shipped V)
  ship_end m (some true) (some true) = manifest_file m ∷ done m.complete ∷ []
  ship_end m (some true) (some false) = manifest_file m ∷ []
  ship_end m (some true) none = manifest_file m ∷ []
  ship_end m (some false) o = []
  ship_end m none o = []

  -- `_finish_rdma`: the local manifest, and what reaches the receiver. `built` is false where the tail
  -- could not be built.
  unfoldable pub finish_rdma :
      Geometry
      → Bool
      → Option Bool
      → Option Bool
      → Option Bool
      → Capture V
      → Manifest × List (Shipped V)
  unfolding manifest tail_rows ship_tail ship_end
  finish_rdma g built o_tail o_manifest o_done c =
      let t = ship_tail (if built then tail_rows c else none) o_tail in
      let m = record (manifest g c) { tail_rows_shipped = t.1 } in
      (m, t.0 ++ ship_end m o_manifest o_done)

  -- `_finish` of a file capture: the manifest, then `DONE`
  unfoldable pub finish_file : Geometry → Capture V → Manifest × Bool
  unfolding manifest
  finish_file g c = (manifest g c, (manifest g c).complete)
