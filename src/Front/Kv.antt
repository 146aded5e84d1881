-- ===== src/Front/Kv.antt =====
-- `spark_prefill_kv`, `spark_prefill_kv_stream`, `_wait_done_then_pull`, `_RdmaClient.pull` and
-- `cached_prefix_tokens`: the paths on which the capture is known by its name.
pub mod Ends
pub mod Landed
use pd_bridge.Prelude.{
  ℕ, zero, suc, ◌+◌, ◌-◌, ◌*◌, ◌/◌, Bool, true, false, not, ◌||◌, ◌&&◌, Option, none, some, List,
  [], ◌∷◌, ltb, leb, ◌==◌, if◌then◌else◌,
}
use pd_bridge.Front.{
  Settings, Engine, running, returned, failed, Refusal, engine_failed, no_directory, never_sealed,
  unreadable, no_usable, wrong_length, pull_failed, wrong_transport, too_little,
}
use pd_bridge.Front.Manifests.{
  Manifest, or_zero, is_equal, cap_usable_prefix, is_below, Verdict, complete, salvage, partial,
  Assembled, is_too_little, full_tokens, pull_verdict, Result, declined, stored,
}

pub data Seal : Type 0 where
  not_sealed unreadable_seal : Seal
  sealed : Manifest → Seal

-- What one round sees: whether the directory has files, its seal, the engine, the time.
pub record Look : Type 0 where
  pub listed : Bool
  pub seal : Seal
  pub engine : Engine
  pub now : ℕ

pub data Wait : Type 0 where
  ready : Manifest → Wait
  refused : Refusal → Wait
  waits : Option ℕ → Wait

-- `t_eng_done` after a round
abbrev pub seen_done : Engine → ℕ → Option ℕ → Option ℕ
seen_done engine now (some t) = some t
seen_done returned now none = some now
seen_done running now none = none
seen_done failed now none = none

-- the two time limits; the second one is that of `spark_prefill_kv` only
unfoldable pub limits : Settings → Bool → Bool → ℕ → Option ℕ → Wait
limits g by_directory listed now (some t) =
    if ltb g.grace (now - t) then refused never_sealed else waits (some t)
limits g by_directory listed now none =
    if by_directory && (not listed && ltb g.stamp_timeout now)
    then refused no_directory
    else waits none

unfoldable pub unsealed_round : Settings → Bool → Look → Option ℕ → Wait
unfolding limits
unsealed_round g by_directory l since = elim l.engine [
  | failed ↦ refused engine_failed
  | returned ↦ limits g by_directory l.listed l.now (seen_done returned l.now since)
  | running ↦ limits g by_directory l.listed l.now (seen_done running l.now since)
]

unfoldable pub look : Settings → Bool → Look → Option ℕ → Wait
unfolding unsealed_round
look g by_directory l since = elim l.seal [
  | sealed man ↦ ready man
  | unreadable_seal ↦ refused unreadable
  | not_sealed ↦ unsealed_round g by_directory l since
]

-- the loop; `waits` is left only where the rounds are used up
unfoldable pub look_all : Settings → Bool → List Look → Option ℕ → Wait
unfolding look
look_all g by_directory [] since = waits since
look_all g by_directory (l ∷ ls) since = elim (look g by_directory l since) [
  | ready man ↦ ready man
  | refused r ↦ refused r
  | waits since' ↦ look_all g by_directory ls since'
]

unfoldable pub kv_verdict : Settings → ℕ → Assembled → Result
unfolding is_too_little
kv_verdict g T a =
    if is_too_little g a
    then declined too_little
    else stored (if a.B == full_tokens g T then complete else partial a.B)

-- What an attempt of `_RdmaClient.pull` meets: a reply, a client that dies, or one that does not come up.
pub data Attempt (A : Type 0) : Type 0 where
  replies : A → Attempt A
  died not_started : Attempt A

-- two attempts; `none` where it raises
unfoldable pub rdma_pull : {A : Type 0} → Attempt A → Attempt A → Option A
rdma_pull (replies a) second = some a
rdma_pull not_started second = none
rdma_pull died (replies a) = some a
rdma_pull died died = none
rdma_pull died not_started = none

-- `spark_prefill_kv` after the loop; `pulled` is whether the files came over
unfoldable pub prefill_kv : Settings → ℕ → Manifest → Bool → Assembled → Result
unfolding kv_verdict is_equal
prefill_kv g T man pulled a =
    if not (is_equal man.prompt_len T)
    then declined wrong_length
    else if not pulled
    then declined pull_failed
    else kv_verdict g T a

-- the hashes whose files are there, up to the first that is missing
unfoldable pub leading : List Bool → ℕ
leading [] = 0
leading (b ∷ bs) = let n = leading bs in if b then n + 1 else 0

-- `cached_prefix_tokens`: `none` where the hashes are not to be had
unfoldable pub cached_prefix_tokens : Settings → Option (List Bool) → ℕ
unfolding leading
cached_prefix_tokens g none = 0
cached_prefix_tokens g (some on_disk) = leading on_disk * g.block

-- What is on disk is what the decoder will find; `rounded B T` is `round(B / T, 4)`.
unfoldable pub landed : (ℕ → ℕ → ℕ) → Settings → ℕ → Option (List Bool) → Assembled
unfolding cached_prefix_tokens
landed rounded g T on_disk =
    let B = cached_prefix_tokens g on_disk in
    record { paths = B / g.block; B = B; coverage = if T == 0 then 0 else rounded B T }

-- whether the rows behind the last full block are kept for the decoder
unfoldable pub tail_lands : Settings → ℕ → Manifest → Bool → ℕ → Bool
tail_lands g T man has_file B =
    let rows = or_zero man.tail_rows in
    not (rows == 0) && (has_file && (B == B / g.block * g.block && B + rows + 1 == T))

-- `spark_prefill_kv_stream` after the loop: blocks that landed in the decoder's cache, or an assembly
unfoldable pub prefill_kv_stream :
    (ℕ → ℕ → ℕ) → Settings → ℕ → Bool → Manifest → Option (List Bool) → Assembled → Result
unfolding kv_verdict landed is_equal
prefill_kv_stream rounded g T omlx man on_disk a =
    if not (is_equal man.prompt_len T)
    then declined wrong_length
    else if omlx
    then if not man.is_omlx
      then declined wrong_transport
      else kv_verdict g T (landed rounded g T on_disk)
    else kv_verdict g T a

-- `_wait_done_then_pull` after the loop
unfoldable pub wait_done_then_pull : Settings → ℕ → Manifest → Assembled → Result
unfolding cap_usable_prefix is_below pull_verdict
wait_done_then_pull g T man a =
    let up = cap_usable_prefix man in
    if is_below g up T
    then declined no_usable
    else elim (pull_verdict g T (if up == T then complete else salvage up) a) [
      | none ↦ declined too_little
      | some verdict ↦ stored verdict
    ]

-- the whole of a path: `none` where the rounds are used up
abbrev pub after_wait : (Manifest → Result) → Wait → Option Result
after_wait judge (ready man) = some (judge man)
after_wait judge (refused r) = some (declined r)
after_wait judge (waits since) = none

unfoldable pub spark_prefill_kv : Settings → ℕ → List Look → Bool → Assembled → Option Result
unfolding look_all prefill_kv
spark_prefill_kv g T looks pulled a =
    after_wait (λ man. prefill_kv g T man pulled a) (look_all g true looks none)

unfoldable pub spark_prefill_kv_stream :
    (ℕ → ℕ → ℕ) → Settings → ℕ → Bool → List Look → Option (List Bool) → Assembled → Option Result
unfolding look_all prefill_kv_stream
spark_prefill_kv_stream rounded g T omlx looks on_disk a =
    after_wait (λ man. prefill_kv_stream rounded g T omlx man on_disk a)
      (look_all g false looks none)

unfoldable pub wait_done : Settings → ℕ → List Look → Assembled → Option Result
unfolding look_all wait_done_then_pull
wait_done g T looks a =
    after_wait (λ man. wait_done_then_pull g T man a) (look_all g false looks none)
