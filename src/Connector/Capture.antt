-- ===== src/Connector/Capture.antt =====
-- One capture of spark/pd_kv_connector.py (`_Capture`): rows come in by `_ingest`, blocks are cut by
-- `_cut_blocks`, sent by `_send_block` and sealed by `_finish`. The capture is seen together with its
-- own items in the sender's queue, the blocks that the receiver acknowledged and the files it wrote:
-- what other captures do to the shared sender shows in the outcome of a send alone.
-- The timing counters (`*_s`, `t_*`) are left out: they go into logs and the manifest's t_* entries.
pub mod Sizes
use pd_bridge.Prelude.{
  ℕ, ◌+◌, ◌*◌, Bool, false, not, ◌||◌, Option, none, some, List, [], ◌∷◌, ◌++◌, ltb, ◌==◌,
  if◌then◌else◌, length,
}
use pd_bridge.Connector.Layout.{Col}
use pd_bridge.OmlxBlock.Text.{from_hex}
use pd_bridge.OmlxBlock.Header.{header}

pub data Transport : Type 0 where
  file rdma2 omlx : Transport

pub data Error : Type 0 where
  no_chain_hash : ℕ → ℕ → Error
  send_failed : Transport → ℕ → Error

-- A block on its way: `_send_block`'s index, hash (R4 only) and rows.
pub record Block (V : Type 0) : Type 0 where
  pub index : ℕ
  pub hash : Option (List ℕ)
  pub cols : List (Col V)

pub record Capture (V : Type 0) : Type 0 where
  pub tag : List ℕ
  pub prompt_len : ℕ
  pub transport : Transport
  pub omlx_model : Option (List ℕ)
  pub hashes : Option (List (List ℕ))
  pub have : ℕ
  pub pending : List (List (Col V))
  pub pending_rows : ℕ
  pub blocks : ℕ
  pub sent : ℕ
  pub gaps : List (ℕ × ℕ)
  pub steps : ℕ
  pub bytes : ℕ
  pub error : Option Error
  pub queued : List (Block V)  -- this capture's blocks in `_sendq`, oldest first
  pub acked : List (Block V)  -- blocks that the receiver acknowledged, or that were written to files

-- The model's geometry, the decoder's block and the `rdma_async` switch.
pub record Geometry : Type 0 where
  pub layers : ℕ
  pub heads : ℕ
  pub head_dim : ℕ
  pub omlx_block : ℕ
  pub rdma_async : Bool

-- What a send meets: no sender, or one with its registered buffer, the time that goes into a block's
-- header, and whether the library call reports success.
pub data Outcome : Type 0 where
  gone : Outcome
  reply : ℕ → List ℕ → Bool → Outcome

abbrev pub model_text : Option (List ℕ) → List ℕ
model_text none = []
model_text (some m) = m

-- kv.numel() of a block with `n` rows: keys and values
unfoldable pub numel : Geometry → ℕ → ℕ
numel g n = 2 * g.layers * g.heads * n * g.head_dim

module _ {V : Type 0} (g : Geometry) where
  -- `_RdmaTx.block`: the capacity check, then the library call
  unfoldable pub tx_block : List (Col V) → ℕ → Bool → Bool
  unfolding numel
  tx_block cols capacity rc = if ltb capacity (numel g (length cols) * 2) then false else rc

  -- `_RdmaTx.oblk`: the header is built, the sizes are checked, then the library call
  unfoldable pub tx_oblk : List ℕ → List ℕ → List (Col V) → ℕ → List ℕ → Bool → Bool
  unfolding numel
  tx_oblk hash_hex model cols capacity created_at rc = elim (from_hex hash_hex) [
    | none ↦ false
    | some h ↦
        let (hdr, data_len) = header h model g.layers g.heads (length cols) g.head_dim created_at in
        if ltb capacity (length hdr + data_len) || not (data_len == numel g (length cols) * 2)
        then false
        else rc
  ]

  unfoldable pub send_ok : Option (List ℕ) → Block V → Outcome → Bool
  unfolding tx_block tx_oblk
  send_ok model b gone = false
  send_ok model b (reply capacity created_at rc) = elim b.hash [
    | none ↦ tx_block b.cols capacity rc
    | some h ↦ tx_oblk h (model_text model) b.cols capacity created_at rc
  ]

  -- `_send_block`: after a failure nothing is sent
  unfoldable pub send_block : Outcome → Block V → Capture V → Capture V
  unfolding send_ok
  send_block o b c = elim c.error [
    | some e ↦ c
    | none ↦
        if send_ok c.omlx_model b o
        then record c { sent = c.sent + 1; acked = c.acked ++ (b ∷ []) }
        else record c {
          error = some (send_failed c.transport b.index);
          gaps = c.gaps ++ ((b.index * g.omlx_block, c.have) ∷ []);
        }
  ]

  -- One turn of `_sender_loop` on a block of this capture.
  abbrev pub take_turn : List (Block V) → Outcome → Capture V → Capture V
  take_turn [] o c = c
  take_turn (b ∷ rest) o c = send_block o b (record c { queued = rest })

  unfoldable pub sender_step : Outcome → Capture V → Capture V
  unfolding send_block
  sender_step o c = take_turn c.queued o c

  -- the sender thread, running beside the forward thread
  unfoldable pub sender_run : List Outcome → Capture V → Capture V
  unfolding sender_step
  sender_run [] c = c
  sender_run (o ∷ os) c = sender_run os (sender_step o c)
