-- ===== src/Front/Pipelined.antt =====
-- `spark_prefill_pipelined`: rows are pulled as they land, and the caches rebuilt chunk by chunk.
pub mod Tiles
use pd_bridge.Prelude.{
  ℕ, zero, suc, ◌+◌, ◌-◌, ◌*◌, ◌/◌, ◌%◌, min, Bool, true, false, not, ◌||◌, ◌&&◌, Option, none,
  some, List, [], ◌∷◌, ◌++◌, ltb, leb, ◌==◌, if◌then◌else◌, length, map, slice,
}

-- A layer: the rows that the capture writes to its file, how many of them are pulled, and `bufs[li]` joined.
pub record Layer (V : Type 0) : Type 0 where
  pub file : List V
  pub pulled : ℕ
  pub rows : List V

-- One chunk: its rows are [first, last), and `parts` is what each layer is updated with.
pub record Update (V : Type 0) : Type 0 where
  pub first : ℕ
  pub last : ℕ
  pub parts : List (List V)

-- The layers, the next chunk, the updates and the snapshots, oldest first.
pub record Pipe (V : Type 0) : Type 0 where
  pub layers : List (Layer V)
  pub next_k : ℕ
  pub updates : List (Update V)
  pub snapshots : List ℕ

-- What a round sees: the rows of each layer on the share (none of a layer that is not listed), and whether the engine failed.
pub record Landing : Type 0 where
  pub sizes : List ℕ
  pub has_failed : Bool

module _ {V : Type 0} where
  abbrev pub new_layer : List V → Layer V
  new_layer file = record { file = file; pulled = 0; rows = [] }

  abbrev pub begin : List (List V) → Pipe V
  begin files = record { layers = map new_layer files; next_k = 0; updates = []; snapshots = [] }

  -- `_fetch_range` of the rows that are new, up to the end of the prompt
  abbrev pub pull_layer : ℕ → ℕ → Layer V → Layer V
  pull_layer T size l =
      let avail = min size T in
      if ltb l.pulled avail
      then record l { pulled = avail; rows = l.rows ++ slice l.pulled avail l.file }
      else l

  unfoldable pub pull : ℕ → List (Layer V) → List ℕ → List (Layer V)
  pull T [] sizes = []
  pull T (l ∷ layers) [] = pull_layer T 0 l ∷ pull T layers []
  pull T (l ∷ layers) (size ∷ sizes) = pull_layer T size l ∷ pull T layers sizes

abbrev pub chunk_end : ℕ → ℕ → ℕ → ℕ
chunk_end T chunk k = min ((k + 1) * chunk) T

abbrev pub number_of_chunks : ℕ → ℕ → ℕ
number_of_chunks T chunk = (T + chunk - 1) / chunk

unfoldable pub is_same : List ℕ → List ℕ → Bool
is_same [] [] = true
is_same [] (y ∷ ys) = false
is_same (x ∷ xs) [] = false
is_same (x ∷ xs) (y ∷ ys) = x == y && is_same xs ys

module _ {V : Type 0} where
  -- every layer has the rows up to `n`
  unfoldable pub all_have : ℕ → List (Layer V) → Bool
  all_have n [] = true
  all_have n (l ∷ layers) = leb n l.pulled && all_have n layers

  -- buf[0][s0:s1] of every layer
  abbrev pub update : ℕ → ℕ → List (Layer V) → Update V
  update s0 s1 layers = record {
    first = s0;
    last = s1;
    parts = map (λ (l : Layer V). slice s0 s1 l.rows) layers;
  }

  -- the inner loop from chunk `k`, of the chunks that are left
  unfoldable pub rebuild : ℕ → ℕ → List (Layer V) → ℕ → ℕ → List (Update V)
  unfolding all_have
  rebuild T chunk layers k zero = []
  rebuild T chunk layers k (suc left) =
      let more = rebuild T chunk layers (k + 1) left in
      if all_have (chunk_end T chunk k) layers
      then update (k * chunk) (chunk_end T chunk k) layers ∷ more
      else []

  -- the snapshots at the ends that are multiples of the chunk
  unfoldable pub snapshots_of : ℕ → List (Update V) → List ℕ
  snapshots_of chunk [] = []
  snapshots_of chunk (u ∷ updates) =
      let more = snapshots_of chunk updates in if u.last % chunk == 0 then u.last ∷ more else more

  abbrev pub all_pulled : List (Layer V) → List ℕ
  all_pulled = map (λ (l : Layer V). l.pulled)

  -- one round; `none` where the engine has failed and nothing moves
  unfoldable pub round : ℕ → ℕ → Landing → Pipe V → Option (Pipe V)
  unfolding pull rebuild snapshots_of is_same
  round T chunk l s =
      let layers = pull T s.layers l.sizes in
      let new = rebuild T chunk layers s.next_k (number_of_chunks T chunk - s.next_k) in
      if l.has_failed && (is_same (all_pulled layers) (all_pulled s.layers) && length new == 0)
      then none
      else some (record {
        layers = layers;
        next_k = s.next_k + length new;
        updates = s.updates ++ new;
        snapshots = s.snapshots ++ snapshots_of chunk new;
      })

  -- rounds until all chunks are rebuilt
  unfoldable pub rounds : ℕ → ℕ → List Landing → Pipe V → Option (Pipe V)
  unfolding round
  rounds T chunk [] s = some s
  rounds T chunk (l ∷ ls) s =
      if leb (number_of_chunks T chunk) s.next_k
      then some s
      else elim (round T chunk l s) [ none ↦ none | some s' ↦ rounds T chunk ls s' ]
