-- ===== src/Writer/Finalize.antt =====
-- studio/omlx_block_writer.py: `finalize`, `chain_hashes`, `_drain` and `write_blocks`. `compute_block_hash` is the decoder's,
-- and which files are there after the wait, an argument.
use pd_bridge.Prelude.{
  ℕ, zero, suc, ◌+◌, ◌-◌, ◌*◌, ◌/◌, Bool, true, false, ◌&&◌, not, Option, none, some, List, [], ◌∷◌,
  ltb, leb, ◌==◌, if◌then◌else◌, length, take, drop, find,
}
use pd_bridge.Writer.{
  Writer, Store, Tried, returned, raised, no_snapshot, store_gave_none, no_snapshots, no_boundary,
  files_missing, snapshot, store_pending, intermediate, valid, last_boundary,
}

-- the loop of `chain_hashes`, with `n` rounds left, and `chain_hashes_for` before its `hex`
module _ {H : Type 0} (compute_block_hash : Option H → List ℕ → H) (block : ℕ) where
  unfoldable pub hashes_from : ℕ → ℕ → Option H → List ℕ → List H
  hashes_from zero i parent tokens = []
  hashes_from (suc n) i parent tokens =
      let h = compute_block_hash parent (take block (drop (i * block) tokens)) in
      h ∷ hashes_from n (i + 1) (some h) tokens

  abbrev pub chain_hashes : List ℕ → List H
  chain_hashes tokens = hashes_from (length tokens / block) 0 none tokens

abbrev pub all_there : {H : Type 0} → (H → Bool) → List H → Bool
all_there there [] = true
all_there there (h ∷ hs) = there h && all_there there hs

abbrev pub is_empty : {A : Type 0} → List A → Bool
is_empty [] = true
is_empty (a ∷ l) = false

module _ {S D H : Type 0} (store : Store S D) (hash : Option H → List ℕ → H) (block : ℕ) where
  -- the end of `finalize`: `_drain`, and the files that are not there
  abbrev pub ended : (H → Bool) → List H → Writer S D × Bool → Writer S D × Tried (List H)
  ended there paths (w, false) = (w, raised store_gave_none)
  ended there paths (w, true) =
      (w, if all_there there paths then returned paths else raised files_missing)

  -- all boundaries in one call, where the boundaries are not stored one by one
  abbrev pub batched :
      List ℕ → Writer S D → Option S → Option (List (ℕ × S)) → Writer S D × Tried Bool
  batched tokens w none others = (w, raised no_snapshot)
  batched tokens w (some s) none = (w, raised no_snapshot)
  batched tokens w (some s) (some others) = elim (store.store_cache w.disk tokens s others) [
    | none ↦ (w, returned false)
    | some disk ↦ (record w { disk = disk }, returned true)
  ]

  abbrev pub batched_ended :
      (H → Bool) → List H → Writer S D × Tried Bool → Writer S D × Tried (List H)
  batched_ended there paths (w, raised e) = (w, raised e)
  batched_ended there paths (w, returned good) = ended there paths (w, good)

  abbrev pub up_to :
      (H → Bool) → Bool → List ℕ → Writer S D → Option ℕ → Writer S D × Tried (List H)
  up_to there one_by_one ids w none = (w, raised no_boundary)
  up_to there one_by_one ids w (some latest) =
      let tokens = take latest ids in
      let paths = chain_hashes hash block tokens in
      let tcs = valid block (length ids) w.snapshots w.stored in
      if one_by_one
      then ended there paths (store_pending store ids tcs w)
      else batched_ended there paths
          (batched tokens w (find latest w.snapshots) (intermediate latest tcs w.snapshots))

  -- `one_by_one` is `stream_boundaries`
  unfoldable pub finalize : (H → Bool) → Bool → List ℕ → Writer S D → Writer S D × Tried (List H)
  finalize there one_by_one ids w =
      if is_empty w.snapshots && is_empty w.stored
      then (w, raised no_snapshots)
      else up_to there one_by_one ids w
          (last_boundary (valid block (length ids) w.snapshots w.stored))

module _ {S D C : Type 0} (extract : C → ℕ → S) (block : ℕ) where
  -- the loop of `write_blocks` over sorted snapshots
  unfoldable pub snapshot_all : List (ℕ × C) → Writer S D → Tried (Writer S D)
  snapshot_all [] w = returned w
  snapshot_all ((tc, cache) ∷ more) w = elim (snapshot extract block cache tc w) [
    | returned w' ↦ snapshot_all more w'
    | raised e ↦ raised e
  ]

-- What a round of `_drain` sees: the seconds since its start, and the size of each file that is there.
pub record DrainPoll : Type 0 where
  pub elapsed : ℕ
  pub sizes : List (Option ℕ)

pub data Drained : Type 0 where
  all_written stalled timed_out : Drained

abbrev pub is_written : Option ℕ → Bool
is_written none = false
is_written (some size) = ltb 0 size

abbrev pub count_written : List (Option ℕ) → ℕ
count_written [] = 0
count_written (s ∷ ss) = if is_written s then count_written ss + 1 else count_written ss

abbrev pub is_same_size : Option ℕ → Option ℕ → Bool
is_same_size none none = true
is_same_size none (some n) = false
is_same_size (some m) none = false
is_same_size (some m) (some n) = m == n

abbrev pub are_same : List (Option ℕ) → List (Option ℕ) → Bool
are_same [] [] = true
are_same [] (t ∷ ts) = false
are_same (s ∷ ss) [] = false
are_same (s ∷ ss) (t ∷ ts) = is_same_size s t && are_same ss ts

-- `expected and all(...) and sizes == last_sizes`
abbrev pub are_settled : List (Option ℕ) → List (Option ℕ) → Bool
are_settled last_sizes sizes =
    not (is_empty sizes) && (all_there is_written sizes && are_same sizes last_sizes)

abbrev pub is_progress : Option ℕ → ℕ → Bool
is_progress none n = true
is_progress (some m) n = not (n == m)

-- The loop of `_drain` over its rounds, with the sizes of the round before, the files counted last (-1 at first) and the time
-- of that count; none where it still waits after the last round of the list.
unfoldable pub drain : List (Option ℕ) → Option ℕ → ℕ → ℕ → List DrainPoll → Option Drained
drain last_sizes files_done stall_t0 timeout [] = none
drain last_sizes files_done stall_t0 timeout (p ∷ ps) =
    let n = count_written p.sizes in
    let progress = is_progress files_done n in
    let rest = drain p.sizes (some n) (if progress then p.elapsed else stall_t0) timeout ps in
    if leb timeout p.elapsed
    then some timed_out
    else if are_settled last_sizes p.sizes
    then some all_written
    else if not progress && ltb 30 (p.elapsed - stall_t0)
    then some stalled
    else rest
