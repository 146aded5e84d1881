-- ===== src/Assembly.antt =====
-- studio/pd_assemble_blocks.py, `assemble_and_write`, and studio/pd_assemble_kv.py, the start of `assemble_and_write_kv`: how
-- far a capture reaches, boundary by boundary and block by block. What the decoder's writer does is an argument.
pub mod Complete
use pd_bridge.Prelude.{
  ℕ, zero, suc, ◌+◌, ◌-◌, ◌*◌, ◌/◌, min, Bool, true, false, ◌&&◌, Option, none, some, List, [], ◌∷◌,
  ltb, leb, ◌==◌, if◌then◌else◌, get_elem?,
}
use pd_bridge.Front.Manifests.{Assembled}

-- How a boundary goes: a key of the capture is missing, the writer fails, or its block is stored.
pub data Step : Type 0 where
  key_missing store_failed block_stored : Step

-- the boundaries of the manifest that lie in the request
unfoldable pub bounds_of : ℕ → List ℕ → List ℕ
bounds_of T [] = []
bounds_of T (b ∷ bs) =
    let others = bounds_of T bs in if ltb 0 b && leb b T then b ∷ others else others

-- the boundaries up to the first that goes wrong
unfoldable pub count_ok : (ℕ → Step) → List ℕ → ℕ
count_ok step [] = 0
count_ok step (b ∷ bs) =
    let others = count_ok step bs in
    elim (step b) [ block_stored ↦ others + 1 | key_missing ↦ 0 | store_failed ↦ 0 ]

-- `bounds[ok - 1] if ok else 0`
unfoldable pub reached : ℕ → List ℕ → ℕ
reached zero bounds = 0
reached (suc n) bounds = elim (get_elem? bounds n) [ none ↦ 0 | some b ↦ b ]

-- `assemble_and_write`; `paths` is what the writer's `finalize` gives, `rounded B T` is `round(B / T, 4)`
unfoldable pub assemble_and_write : (ℕ → ℕ → ℕ) → ℕ → (ℕ → Step) → ℕ → List ℕ → Assembled
unfolding bounds_of count_ok reached
assemble_and_write rounded T step paths boundaries =
    let bounds = bounds_of T boundaries in
    let ok = count_ok step bounds in
    let B = reached ok bounds in
    record { paths = if ok == 0 then 0 else paths; B = B; coverage = rounded B T }

-- A block file: not there, of another shape, or good.
pub data BlockFile : Type 0 where
  is_missing is_malformed is_good : BlockFile

-- `_load_blocks`: `n` blocks from number `i`, up to the first that is missing or malformed
unfoldable pub load_blocks : (ℕ → BlockFile) → ℕ → ℕ → ℕ
load_blocks file i zero = 0
load_blocks file i (suc n) =
    let others = load_blocks file (i + 1) n in
    elim (file i) [ is_good ↦ others + 1 | is_missing ↦ 0 | is_malformed ↦ 0 ]

-- `assemble_and_write_kv`; `paths` are the blocks that the writer has stored
unfoldable pub assemble_kv : (ℕ → ℕ → ℕ) → ℕ → ℕ → ℕ → (ℕ → BlockFile) → ℕ → Assembled
unfolding load_blocks
assemble_kv rounded T block blocks file paths =
    let ok = load_blocks file 0 (min blocks (T / block)) in
    let B = ok * block in
    record {
      paths = if ok == 0 then 0 else paths;
      B = B;
      coverage = if T == 0 then 0 else rounded B T;
    }
