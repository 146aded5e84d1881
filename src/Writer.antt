-- ===== src/Writer.antt =====
-- studio/omlx_block_writer.py: the writer that hands the boundary snapshots of a prompt to the decoder's store. The store
-- (`BlockAwarePrefixCache.store_cache`), the extraction of a snapshot and `compute_block_hash` are the decoder's.
pub mod Finalize
pub mod Stored
pub mod Boundaries
pub mod Life
pub mod Complete
pub mod Ends
use pd_bridge.Prelude.{
  ℕ, zero, suc, ◌+◌, ◌*◌, ◌/◌, ◌%◌, Bool, true, false, ◌&&◌, Option, none, some, List, [], ◌∷◌,
  ◌++◌, ltb, leb, ◌==◌, if◌then◌else◌, length, take, drop, find, put, pop,
}
use pd_bridge.Hook.Finish.{keys, insert_all}

pub data Failure : Type 0 where
  not_aligned not_a_boundary no_stream no_snapshot store_gave_none : Failure
  no_snapshots no_boundary files_missing : Failure

-- what a call returns, or what it raises
pub data Tried (A : Type 0) : Type 0 where
  returned : A → Tried A
  raised : Failure → Tried A

-- The fields of the writer that change, and the decoder's disk; `_stream_ids` is not there until `begin_stream`.
pub record Writer (S D : Type 0) : Type 0 where
  pub snapshots : List (ℕ × S)
  pub stored : List ℕ
  pub stream_ids : Option (List ℕ)
  pub disk : D

-- `store_cache`: the tokens, the snapshot at their end, the snapshots at boundaries before; none where the table is None
pub record Store (S D : Type 0) : Type 0 where
  pub store_cache : D → List ℕ → S → List (ℕ × S) → Option D

abbrev pub is_boundary : ℕ → ℕ → ℕ → Bool
is_boundary block T tc = (ltb 0 tc && leb tc T) && (tc % block == 0)

module _ {S D C : Type 0} (extract : C → ℕ → S) (block : ℕ) where
  -- `snapshot` and `snapshot_boundary_states`
  unfoldable pub snapshot : C → ℕ → Writer S D → Tried (Writer S D)
  snapshot cache tc w =
      if tc % block == 0
      then returned (record w { snapshots = put tc (extract cache tc) w.snapshots })
      else raised not_aligned

module _ {S D : Type 0} where
  abbrev pub begin_stream : List ℕ → Writer S D → Writer S D
  begin_stream ids w = record w { stored = []; stream_ids = some ids }

module _ {S D : Type 0} (store : Store S D) (block : ℕ) where
  -- the snapshot is taken out of the table before it is stored
  abbrev pub stored_at : ℕ → Writer S D → List (ℕ × S) → Option D → Writer S D × Tried (Unit {0})
  stored_at tc w others none = (record w { snapshots = others }, raised store_gave_none)
  stored_at tc w others (some disk) =
      (record w { snapshots = others; disk = disk; stored = w.stored ++ (tc ∷ []) }, returned tt)

  abbrev pub store_found : ℕ → List ℕ → Writer S D → Option S → Writer S D × Tried (Unit {0})
  store_found tc ids w none = (w, raised no_snapshot)
  store_found tc ids w (some s) =
      stored_at tc w (pop tc w.snapshots) (store.store_cache w.disk (take tc ids) s [])

  abbrev pub store_in : ℕ → Writer S D → Option (List ℕ) → Writer S D × Tried (Unit {0})
  store_in tc w none = (w, raised no_stream)
  store_in tc w (some ids) =
      if is_boundary block (length ids) tc
      then store_found tc ids w (find tc w.snapshots)
      else (w, raised not_a_boundary)

  unfoldable pub store_boundary : ℕ → Writer S D → Writer S D × Tried (Unit {0})
  store_boundary tc w = store_in tc w w.stream_ids

module _ {S D : Type 0} where
  abbrev pub one_stored : Writer S D → List (ℕ × S) → Option D → Writer S D × Bool
  one_stored w others none = (record w { snapshots = others }, false)
  one_stored w others (some disk) = (record w { snapshots = others; disk = disk }, true)

module _ {S D : Type 0} (store : Store S D) where
  -- a round of the loop of `finalize`: a boundary that is already stored is passed over
  abbrev pub store_one : List ℕ → ℕ → Writer S D → Option S → Writer S D × Bool
  store_one ids tc w none = (w, true)
  store_one ids tc w (some s) =
      one_stored w (pop tc w.snapshots) (store.store_cache w.disk (take tc ids) s [])

  unfoldable pub store_pending : List ℕ → List ℕ → Writer S D → Writer S D × Bool
  store_pending ids [] w = (w, true)
  store_pending ids (tc ∷ tcs) w =
      let r = store_one ids tc w (find tc w.snapshots) in
      let rest = store_pending ids tcs r.0 in if r.1 then rest else r

-- {tc: snapshots[tc] for tc in valid if tc != latest}; none is the KeyError
unfoldable pub intermediate : {S : Type 0} → ℕ → List ℕ → List (ℕ × S) → Option (List (ℕ × S))
intermediate latest [] m = some []
intermediate latest (tc ∷ tcs) m =
    let rest = intermediate latest tcs m in
    if tc == latest then rest else elim (find tc m) [
      | none ↦ none
      | some s ↦ elim rest [ none ↦ none | some others ↦ some ((tc, s) ∷ others) ]
    ]

unfoldable pub in_time : ℕ → ℕ → List ℕ → List ℕ
in_time block T [] = []
in_time block T (tc ∷ tcs) =
    let rest = in_time block T tcs in if is_boundary block T tc then tc ∷ rest else rest

unfoldable pub last_boundary : List ℕ → Option ℕ
last_boundary [] = none
last_boundary (tc ∷ []) = some tc
last_boundary (tc ∷ tc' ∷ tcs) = last_boundary (tc' ∷ tcs)

-- sorted(set(stored) | {...})
unfoldable pub valid : {S : Type 0} → ℕ → ℕ → List (ℕ × S) → List ℕ → List ℕ
unfolding insert_all in_time
valid block T snapshots stored =
    insert_all (in_time block T (keys snapshots)) (insert_all stored [])
