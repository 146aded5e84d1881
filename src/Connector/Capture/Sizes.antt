-- ===== src/Connector/Capture/Sizes.antt =====
-- The size checks of a send.
use pd_bridge.Prelude.{
  ℕ, ◌+◌, ◌*◌, ◌≡◌, Bool, false, not, ◌||◌, some, List, arith, length, ltb, ◌==◌, if◌then◌else◌,
}
use pd_bridge.Connector.Layout.{Col}
use pd_bridge.Connector.Capture.{Geometry, numel, tx_oblk}
use pd_bridge.OmlxBlock.Text.{from_hex}
use pd_bridge.OmlxBlock.Header.{header}
use pd_bridge.OmlxBlock.Alignment.{header-data}

checked :
    (size found want capacity : ℕ) (rc : Bool)
    → found ≡ want
    → (if ltb capacity (size + found) || not (found == want) then false else rc)
      ≡ (if ltb capacity (size + want) then false else rc)
checked size found want capacity rc e = ground arith

module _ {V : Type 0} (g : Geometry) where
  open g use {layers, heads, head_dim}

  -- The block file's size check never fails for its tensors: if the hash is written in
  -- hexadecimal, then a block is refused just where the header and the tensors do not fit the registered
  -- buffer, and else it is up to the call.
  pub tx_oblk_lem :
      (hash_hex model h : List ℕ) (cols : List (Col V)) (capacity : ℕ) (created_at : List ℕ)
      (rc : Bool)
      → from_hex hash_hex ≡ some h
      → tx_oblk g hash_hex model cols capacity created_at rc ≡ (
          if ltb capacity (
            length (header h model layers heads (length cols) head_dim created_at).0
            + numel g (length cols) * 2)
          then false
          else rc)
  unfolding tx_oblk numel
  tx_oblk_lem hash_hex model h cols capacity created_at rc e =
      rw (e, tx_oblk)
        (checked (length (header h model layers heads (length cols) head_dim created_at).0)
          (header h model layers heads (length cols) head_dim created_at).1
          (2 * layers * heads * length cols * head_dim * 2) capacity rc
          (header-data h model layers heads (length cols) head_dim created_at))
