-- ===== src/Connector/Scheduler.antt =====
-- The scheduler side of spark/pd_kv_connector.py: which rows of which request a step computes, and
-- where they stand in the paged cache. `chain_hashes` is `pd_omlx_block.chain_hashes` on the
-- request's ids with `.hex()` on each hash; it is `none` where that module could not be imported.
pub mod Tiling
pub mod Steps
use pd_bridge.Prelude.{
  find, put, pop, ℕ, zero, suc, ◌+◌, ◌-◌, ◌*◌, ◌/◌, ◌%◌, min, Bool, false, not, ◌||◌, Option, none,
  some, List, [], ◌∷◌, ◌++◌, leb, ◌==◌, if◌then◌else◌, length, get_elem?,
}
use pd_bridge.Connector.Tags.{PyValue, none_value, text, number, other, is_model, tag_of}

-- `_Chunk`: rows [start, start + length slots) of one tagged request, computed in this step.
pub record Chunk : Type 0 where
  pub tag : List ℕ
  pub prompt_len : ℕ
  pub start : ℕ
  pub slots : List ℕ
  pub last : Bool
  pub omlx_model : Option (List ℕ)
  pub hashes : Option (List (List ℕ))

-- The dictionary that `build_connector_meta` keeps for a request.
pub record Tracked : Type 0 where
  pub tag : List ℕ
  pub prompt_len : ℕ
  pub blocks : List ℕ
  pub omlx_model : Option (List ℕ)
  pub hashes : Option (List (List ℕ))

-- `blocks[pos // block_size] * block_size + pos % block_size`; `none` is the IndexError
unfoldable pub slot_of : ℕ → List ℕ → ℕ → Option ℕ
slot_of bs blocks pos = elim (get_elem? blocks (pos / bs)) [
  | none ↦ none
  | some b ↦ some (b * bs + pos % bs)
]

-- the slots of the positions [pos, pos + n)
unfoldable pub slots_from : ℕ → List ℕ → ℕ → ℕ → Option (List ℕ)
unfolding slot_of
slots_from bs blocks pos zero = some []
slots_from bs blocks pos (suc n) =
    let rest = slots_from bs blocks (pos + 1) n in
    elim (slot_of bs blocks pos) [
      | none ↦ none
      | some s ↦ elim rest [ none ↦ none | some ss ↦ some (s ∷ ss) ]
    ]

abbrev pub start_hashes : ℕ → Option (List (List ℕ)) → Option (List (List ℕ))
start_hashes zero hs = hs
start_hashes (suc n) hs = none

-- `_emit`: the chunks that are added to the step's metadata, or the IndexError
unfoldable pub emit : ℕ → Tracked → ℕ → ℕ → Option (List Chunk)
unfolding slots_from
emit bs st computed scheduled =
    let end = min (computed + scheduled) st.prompt_len in
    if scheduled == 0 || leb st.prompt_len computed
    then some []
    else elim (slots_from bs st.blocks computed (end - computed)) [
      | none ↦ none
      | some slots ↦ some (
          record {
            tag = st.tag;
            prompt_len = st.prompt_len;
            start = computed;
            slots = slots;
            last = leb st.prompt_len end;
            omlx_model = st.omlx_model;
            hashes = start_hashes computed st.hashes;
          }
          ∷ [])
    ]

-- A request of `scheduled_new_reqs`.
pub record NewRequest : Type 0 where
  pub req_id : ℕ
  pub pd_tag : PyValue
  pub omlx_model : PyValue
  pub omlx_block : PyValue
  pub prompt_token_ids : List ℕ
  pub block_ids : List ℕ
  pub num_computed_tokens : ℕ

-- An entry of `scheduled_cached_reqs`, the lists that it keeps side by side joined.
pub record CachedRequest : Type 0 where
  pub req_id : ℕ
  pub new_block_ids : Option (List ℕ)
  pub resumed : Bool
  pub num_computed_tokens : ℕ

pub record SchedulerOutput : Type 0 where
  pub new_reqs : List NewRequest
  pub cached_reqs : List CachedRequest
  pub num_scheduled_tokens : List (ℕ × ℕ)
  pub finished_req_ids : List ℕ

-- n_sched.get(rid, 0)
abbrev pub scheduled_of : Option ℕ → ℕ
scheduled_of none = 0
scheduled_of (some n) = n

-- `params.get("omlx_block") or self._omlx_block`
unfoldable pub block_param : ℕ → PyValue → PyValue
block_param default (none_value) = number default
block_param default (text []) = number default
block_param default (text (c ∷ cs)) = text (c ∷ cs)
block_param default (number zero) = number default
block_param default (number (suc n)) = number (suc n)
block_param default other = other

abbrev pub Tracking : Type 0
Tracking = List (ℕ × Tracked)

abbrev pub plain : NewRequest → List ℕ → Tracked
plain nr tag = record {
  tag = tag;
  prompt_len = length nr.prompt_token_ids;
  blocks = nr.block_ids;
  omlx_model = none;
  hashes = none;
}

-- The block list after the step: replaced when the request was resumed, extended otherwise.
unfoldable pub with_blocks : CachedRequest → Tracked → Tracked
with_blocks cr st = elim cr.new_block_ids [
  | none ↦ st
  | some nb ↦ record st { blocks = if cr.resumed then nb else st.blocks ++ nb }
]

-- `block_size` is the engine's paged block, `omlx_block` the decoder's. `to_int` is Python's `int`,
-- `none` where it raises.
module _ (block_size omlx_block : ℕ) (to_int : PyValue → Option ℕ)
    (chain_hashes : Option (List ℕ → List ℕ → ℕ → List (List ℕ))) where
  -- The part of the loop body that settles `omlx_model` and `hashes`; `none` if `int` raises.
  unfoldable pub with_model : NewRequest → Tracked → PyValue → Option Tracked
  unfolding is_model block_param
  with_model nr st (none_value) = some st
  with_model nr st (text model) = elim (to_int (block_param omlx_block nr.omlx_block)) [
    | none ↦ none
    | some block ↦ elim chain_hashes [
      | none ↦ some st
      | some chain ↦
          if not (is_model model) || not (block == omlx_block)
          then some st
          else some (record st {
            omlx_model = some model;
            hashes = some (chain nr.prompt_token_ids model omlx_block);
          })
    ]
  ]
  with_model nr st (number n) = elim (to_int (block_param omlx_block nr.omlx_block)) [
    | none ↦ none
    | some block ↦ some st
  ]
  with_model nr st other = elim (to_int (block_param omlx_block nr.omlx_block)) [
    | none ↦ none
    | some block ↦ some st
  ]

  -- The step's state: the tracked requests, and the chunks emitted so far.
  abbrev pub Meta : Type 0
  Meta = Tracking × List Chunk

  abbrev pub emitted : Tracking → List Chunk → Option (List Chunk) → Option Meta
  emitted reqs chunks none = none
  emitted reqs chunks (some more) = some (reqs, chunks ++ more)

  unfoldable pub add_new : SchedulerOutput → Meta → NewRequest → Option Meta
  unfolding tag_of with_model emit find put
  add_new out (reqs, chunks) nr = elim (tag_of nr.pd_tag) [
    | none ↦ some (reqs, chunks)
    | some tag ↦ elim (with_model nr (plain nr tag) nr.omlx_model) [
      | none ↦ none
      | some st ↦ emitted (put nr.req_id st reqs) chunks (
          emit block_size st nr.num_computed_tokens
            (scheduled_of (find nr.req_id out.num_scheduled_tokens)))
    ]
  ]

  unfoldable pub add_cached : SchedulerOutput → Meta → CachedRequest → Option Meta
  unfolding with_blocks emit find put
  add_cached out (reqs, chunks) cr = elim (find cr.req_id reqs) [
    | none ↦ some (reqs, chunks)
    | some st ↦
        let st' = with_blocks cr st in
        emitted (put cr.req_id st' reqs) chunks (
          emit block_size st' cr.num_computed_tokens
            (scheduled_of (find cr.req_id out.num_scheduled_tokens)))
  ]

  unfoldable pub each {ℓ} : {A : Type ℓ} → (Meta → A → Option Meta) → Meta → List A → Option Meta
  each f m [] = some m
  each f m (x ∷ xs) = elim (f m x) [ none ↦ none | some m' ↦ each f m' xs ]

  unfoldable pub pop_all : List ℕ → Tracking → Tracking
  unfolding pop
  pop_all [] reqs = reqs
  pop_all (rid ∷ rids) reqs = pop_all rids (pop rid reqs)

  unfoldable pub build_connector_meta : Tracking → SchedulerOutput → Option Meta
  unfolding add_new add_cached each pop_all
  build_connector_meta reqs out = elim (each (add_new out) (reqs, []) out.new_reqs) [
    | none ↦ none
    | some m ↦ elim (each (add_cached out) m out.cached_reqs) [
      | none ↦ none
      | some (reqs', chunks) ↦ some (pop_all out.finished_req_ids reqs', chunks)
    ]
  ]

-- `request_finished`: nothing is kept and the blocks may be freed at once
unfoldable pub request_finished : ℕ → Tracking → Tracking × Bool
unfolding pop
request_finished rid reqs = (pop rid reqs, false)
