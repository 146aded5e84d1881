-- ===== src/Connector/Layout.antt =====
-- The worker side of spark/pd_kv_connector.py that reads the paged cache: the tensor layouts, the
-- gather of a step's rows, and the rows of all layers side by side. A tensor is a function from its
-- index list; a slot is a pair of page and offset.
use pd_bridge.Prelude.{
  ℕ, zero, suc, ◌+◌, ◌*◌, ◌/◌, ◌%◌, ◌&&◌, Option, none, some, List, [], ◌∷◌, ◌==◌, if◌then◌else◌,
  set, map,
}

pub data Layout : Type 0 where
  bhn2d : Layout
  two_bn : Layout
  b_two_n : Layout

-- `none` is the RuntimeError for an unsupported shape
unfoldable pub detect_layout : List ℕ → ℕ → ℕ → ℕ → Option Layout
detect_layout (a ∷ b ∷ c ∷ d ∷ []) block_size n_kv head_dim =
    if b == n_kv && (c == block_size && d == 2 * head_dim) then some bhn2d else none
detect_layout (a ∷ b ∷ c ∷ d ∷ e ∷ []) block_size n_kv head_dim =
    let rest = c == block_size && (d == n_kv && e == head_dim) in
    if a == 2 && rest then some two_bn else if b == 2 && rest then some b_two_n else none
detect_layout _ block_size n_kv head_dim = none

-- One token's row in one layer: key (0) or value (1), head, dimension.
abbrev pub Row : Type 0 → Type 0
Row V = ℕ → ℕ → ℕ → V

-- One token in all layers: the layer comes first.
abbrev pub Col : Type 0 → Type 0
Col V = ℕ → ℕ → ℕ → ℕ → V

-- `_step_rows[ci]`: what has been gathered of a chunk, layer by layer
abbrev pub StepRows : Type 0 → Type 0
StepRows V = List (Option (List (Row V)))

module _ {V : Type 0} where
  -- `_gather_kv` at one slot (page `b`, offset `o`): keys, then values
  unfoldable pub gather_row : Layout → (List ℕ → V) → ℕ → ℕ → ℕ → Row V
  gather_row bhn2d kv head_dim b o zero h d = kv (b ∷ h ∷ o ∷ d ∷ [])
  gather_row bhn2d kv head_dim b o (suc _) h d = kv (b ∷ h ∷ o ∷ (head_dim + d) ∷ [])
  gather_row two_bn kv head_dim b o s h d = kv (s ∷ b ∷ o ∷ h ∷ d ∷ [])
  gather_row b_two_n kv head_dim b o s h d = kv (b ∷ s ∷ o ∷ h ∷ d ∷ [])

  -- the rows of a chunk's slots in one layer
  unfoldable pub gather_kv : Layout → (List ℕ → V) → ℕ → ℕ → List ℕ → List (Row V)
  unfolding gather_row
  gather_kv layout kv head_dim bs [] = []
  gather_kv layout kv head_dim bs (s ∷ slots) =
      gather_row layout kv head_dim (s / bs) (s % bs) ∷ gather_kv layout kv head_dim bs slots

  -- what `save_kv_layer` writes for one chunk
  unfoldable pub save_rows : ℕ → List (Row V) → StepRows V → StepRows V
  save_rows li rows step = set step li (some rows)

  -- `none` if a layer is missing: `any(r is None for r in rows)`
  unfoldable pub all_layers : StepRows V → Option (List (List (Row V)))
  all_layers [] = some []
  all_layers (none ∷ step) = none
  all_layers (some r ∷ step) = elim (all_layers step) [ none ↦ none | some rs ↦ some (r ∷ rs) ]

  unfoldable pub over : Row V → Col V → Col V
  over r c zero = r
  over r c (suc l) = c l

  unfoldable pub add_layer : List (Row V) → List (Col V) → List (Col V)
  unfolding over
  add_layer [] cols = []
  add_layer (r ∷ rows) [] = []
  add_layer (r ∷ rows) (c ∷ cols) = over r c ∷ add_layer rows cols

  -- `torch.stack(rows)` of one layer and those that follow it, read token by token
  unfoldable pub stack : List (Row V) → List (List (Row V)) → List (Col V)
  unfolding add_layer
  stack rows [] = map (λ r l. r) rows
  stack rows (next ∷ layers) = add_layer rows (stack next layers)
