-- ===== src/Decoder.antt =====
-- studio/pd_omlx_hooks.py, in the decoder's server: `_Stage` copies the blocks of a prompt into the caches of a request while
-- they arrive, and `_staged_restore` hands them over. A hash is a number here: hashes are only compared.
pub mod Staged
pub mod Landings
pub mod Restore
pub mod Handed
pub mod Tail
pub mod Reserve
use pd_bridge.Prelude.{
  ℕ, zero, suc, ◌+◌, ◌-◌, ◌*◌, ◌/◌, Bool, true, false, not, ◌&&◌, ◌||◌, Option, none, some, List,
  [], ◌∷◌, ◌++◌, ltb, leb, ◌==◌, if◌then◌else◌, length, take, drop, replicate,
}
use pd_bridge.Writer.{last_boundary}

-- `self.cap`: room for the blocks and the reserve, in whole blocks
unfoldable pub cap_of : ℕ → ℕ → ℕ → ℕ
cap_of n block reserve = (n * block + reserve + block - 1) / block * block

-- A stage: its block hashes and block size, how many blocks are copied, whether it has given up, and the keys and values of
-- the layers, one list of rows after the other, until they are handed over.
pub record Stage (R : Type 0) : Type 0 where
  pub hashes : List ℕ
  pub block : ℕ
  pub created : ℕ
  pub ready : ℕ
  pub failed : Bool
  pub arrs : Option (List (List R))

-- What the thread meets at a block: no file in time, or a file with its tensors, none where one is of another type or shape.
pub data BlockLanding (R : Type 0) : Type 0 where
  never_landed : BlockLanding R
  landed : List (Option (List R)) → BlockLanding R

-- The restored cache of a layer: `keys` and `values` are buffers, of which the first `offset` rows count.
pub record KvCache (R : Type 0) : Type 0 where
  pub buf_keys : List R
  pub buf_values : List R
  pub offset : ℕ

-- e.hashes[:len(hashes)] == hashes
unfoldable pub starts_with : List ℕ → List ℕ → Bool
starts_with [] hs = true
starts_with (h ∷ hashes) [] = false
starts_with (h ∷ hashes) (g ∷ hs) = (g == h) && starts_with hashes hs

abbrev pub has_no_hash : List ℕ → Bool
has_no_hash [] = true
has_no_hash (h ∷ hs) = false

abbrev pub is_key : Option ℕ → Option ℕ → Bool
is_key none none = true
is_key none (some h) = false
is_key (some g) none = false
is_key (some g) (some h) = g == h

module _ {R : Type 0} where
  -- views[...][:, :, lo:lo + len(rows), :] = rows
  unfoldable pub write_rows : ℕ → List R → List R → List R
  write_rows lo rows a = take lo a ++ (rows ++ drop (lo + length rows) a)

  -- the tensors of one block, up to the first that does not fit
  unfoldable pub copy_all : ℕ → List (Option (List R)) → List (List R) → List (List R) × Bool
  unfolding write_rows
  copy_all lo [] arrs = (arrs, true)
  copy_all lo (none ∷ cs) arrs = (arrs, false)
  copy_all lo (some rows ∷ cs) [] = ([], false)
  copy_all lo (some rows ∷ cs) (a ∷ arrs) =
      let rest = copy_all lo cs arrs in (write_rows lo rows a ∷ rest.0, rest.1)

  abbrev pub new_stage : R → List ℕ → ℕ → ℕ → ℕ → ℕ → Stage R
  new_stage z hashes layers block reserve now = record {
    hashes = hashes;
    block = block;
    created = now;
    ready = 0;
    failed = false;
    arrs = some (replicate (2 * layers) (replicate (cap_of (length hashes) block reserve) z));
  }

  abbrev pub copied : Stage R → List (List R) × Bool → Stage R
  copied st (arrs, true) = record st { arrs = some arrs; ready = st.ready + 1 }
  copied st (arrs, false) = record st { arrs = some arrs; failed = true }

  -- whether all tensors of a block have the type and the shape
  abbrev pub all_fit : List (Option (List R)) → Bool
  all_fit [] = true
  all_fit (none ∷ cs) = false
  all_fit (some rows ∷ cs) = all_fit cs

  -- a round of the loop of `_run`; where `_staged_restore` has taken the arrays, the thread goes on with its own views of them,
  -- which the stage does not have any more, and with its count
  abbrev pub stage_block : Stage R → BlockLanding R → Option (List (List R)) → Stage R
  stage_block st never_landed arrs = record st { failed = true }
  stage_block st (landed cs) none =
      if all_fit cs then record st { ready = st.ready + 1 } else record st { failed = true }
  stage_block st (landed cs) (some arrs) = copied st (copy_all (st.ready * st.block) cs arrs)

  -- `_run` over what it has met so far
  unfoldable pub run_stage : List (BlockLanding R) → Stage R → Stage R
  unfolding copy_all
  run_stage [] st = st
  run_stage (l ∷ ls) st =
      let st' = stage_block st l st.arrs in
      let rest = run_stage ls st' in if st'.failed then st' else rest

  unfoldable pub caches_of : ℕ → List (List R) → List (KvCache R)
  caches_of n_tok [] = []
  caches_of n_tok (k ∷ []) = []
  caches_of n_tok (k ∷ v ∷ arrs) =
      record { buf_keys = k; buf_values = v; offset = n_tok } ∷ caches_of n_tok arrs

  abbrev pub is_for : List ℕ → Stage R → Bool
  is_for hashes e =
      not (e.failed || (has_no_hash hashes || ltb (length e.hashes) (length hashes)))
      && starts_with hashes e.hashes

  abbrev pub handed : ℕ → Stage R → Option (List (List R)) → Option (List (KvCache R))
  handed n e none = none
  handed n e (some arrs) = if ltb e.ready n then none else some (caches_of (n * e.block) arrs)

  -- `_STAGED.pop(e.key, None)`; the key is the last hash
  unfoldable pub without : Option ℕ → List (Stage R) → List (Stage R)
  unfolding last_boundary
  without key [] = []
  without key (e ∷ es) =
      let rest = without key es in if is_key key (last_boundary e.hashes) then rest else e ∷ rest

  abbrev pub gives :
      Stage R
      → List (Stage R)
      → Option (List (KvCache R))
      → Option (List (KvCache R)) × List (Stage R)
  gives e entries none = (none, entries)
  gives e entries (some caches) = (some caches, without (last_boundary e.hashes) entries)

  -- the loop of `_staged_restore` over the stages that were there; `waited` is a stage after the wait for its blocks
  unfoldable pub staged_restore :
      (Stage R → Stage R)
      → List ℕ
      → List (Stage R)
      → List (Stage R)
      → Option (List (KvCache R)) × List (Stage R)
  unfolding caches_of starts_with without
  staged_restore waited hashes [] entries = (none, entries)
  staged_restore waited hashes (e ∷ es) entries =
      let others = staged_restore waited hashes es entries in
      if is_for hashes e
      then gives e entries (handed (length hashes) (waited e) (waited e).arrs)
      else others

  unfoldable pub drop_old : ℕ → List (Stage R) → List (Stage R)
  drop_old now [] = []
  drop_old now (e ∷ es) =
      let rest = drop_old now es in if ltb 900 (now - e.created) then rest else e ∷ rest

  -- _STAGED[e.key] = e
  unfoldable pub put_stage : Stage R → List (Stage R) → List (Stage R)
  put_stage e [] = e ∷ []
  put_stage e (d ∷ es) =
      if is_key (last_boundary e.hashes) (last_boundary d.hashes)
      then e ∷ es
      else d ∷ put_stage e es

  -- `_stage_request`: stages that no request has taken for 900 seconds are dropped
  abbrev pub stage_request : ℕ → Stage R → List (Stage R) → List (Stage R)
  stage_request now e entries = put_stage e (drop_old now entries)
