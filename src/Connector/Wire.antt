-- ===== src/Connector/Wire.antt =====
-- The order of a block's elements on the wire, as spark/pd_kv_connector.py makes it contiguous:
-- R2 sends all keys and then all values, R4 keys and values layer by layer, the file's order.
pub mod Slices
pub mod Elements
use pd_bridge.Prelude.{ℕ, zero, suc, ◌+◌, List, [], ◌∷◌, ◌++◌}
use pd_bridge.Connector.Layout.{Col}

-- the concatenation of f i, …, f (i + n - 1)
unfoldable pub concat_range {ℓ} : {A : Type ℓ} → ℕ → ℕ → (ℕ → List A) → List A
concat_range i zero f = []
concat_range i (suc n) f = f i ++ concat_range (i + 1) n f

unfoldable pub concat_over {ℓ κ} : {A : Type ℓ} {B : Type κ} → List A → (A → List B) → List B
concat_over [] f = []
concat_over (x ∷ xs) f = f x ++ concat_over xs f

module _ {V : Type 0} (heads head_dim : ℕ) where
  -- one layer's keys (0) or values (1) of a block: [H, B, D]
  unfoldable pub half : ℕ → ℕ → List (Col V) → List V
  unfolding concat_range concat_over
  half l s cols =
      concat_range 0 heads
        (λ h. concat_over cols (λ c. concat_range 0 head_dim (λ d. c l s h d ∷ [])))

  -- `torch.stack((k, v))`: [2, L, H, B, D]
  unfoldable pub wire_blk : ℕ → List (Col V) → List V
  unfolding half
  wire_blk layers cols = concat_range 0 2 (λ s. concat_range 0 layers (λ l. half l s cols))

  -- `torch.stack((k, v), dim=1)`: [L, 2, H, B, D]
  unfoldable pub wire_oblk : ℕ → List (Col V) → List V
  unfolding half
  wire_oblk layers cols = concat_range 0 layers (λ l. concat_range 0 2 (λ s. half l s cols))
