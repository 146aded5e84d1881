-- ===== src/Front/Pooled.antt =====
-- `spark_prefill_pooled`: the poll loop over the capture share, and the choice of a capture.
pub mod Ends
pub mod Sound
use pd_bridge.Prelude.{
  ℕ, zero, suc, ◌+◌, ◌-◌, ◌*◌, Bool, true, false, not, ◌||◌, ◌&&◌, Option, none, some, List, [],
  ◌∷◌, ◌++◌, ltb, leb, ◌==◌, if◌then◌else◌, find, put,
}
use pd_bridge.Front.{
  Settings, Engine, running, returned, failed, Refusal, engine_failed, no_directory, no_usable,
  too_little,
}
use pd_bridge.Front.Manifests.{
  Manifest, is_equal, cap_usable_prefix, over_deadline, is_below, Verdict, complete, salvage,
  Assembled, Result, declined, stored, pull_verdict,
}

-- A new directory of the share, and its manifest if it is sealed and could be read. A stamp is a number here,
-- in the order of the texts.
pub record Dir : Type 0 where
  pub stamp : ℕ
  pub sealed : Option Manifest

-- What one round of the loop sees: the new directories in order (none if the share is not to be reached), the engine, the time.
pub record Poll : Type 0 where
  pub dirs : List Dir
  pub engine : Engine
  pub now : ℕ

-- A capture that was read, with its usable prefix.
pub record Scanned : Type 0 where
  pub up : ℕ
  pub man : Manifest

pub record Waiting : Type 0 where
  pub scanned : List (ℕ × Scanned)
  pub t_eng_done : Option ℕ

pub data Round : Type 0 where
  chosen : ℕ → Round
  grace_over : List (ℕ × Scanned) → Round
  raised : Refusal → Round
  go_on : Waiting → Round

abbrev pub is_found : Option Scanned → Bool
is_found none = false
is_found (some s) = true

-- `man.get("T") == T and up == T`
unfoldable pub is_complete_for : ℕ → Manifest → Bool
unfolding is_equal cap_usable_prefix
is_complete_for T man = is_equal man.T T && cap_usable_prefix man == T

-- the loop over the directories of a round: what has been read, and the first complete capture
unfoldable pub scan : ℕ → List Dir → List (ℕ × Scanned) → List (ℕ × Scanned) × Option ℕ
unfolding find put is_complete_for
scan T [] scanned = (scanned, none)
scan T (d ∷ dirs) scanned =
    let skipped = scan T dirs scanned in
    if is_found (find d.stamp scanned) then skipped else elim d.sealed [
      | none ↦ skipped
      | some man ↦
          let more = put d.stamp (record { up = cap_usable_prefix man; man = man }) scanned in
          let later = scan T dirs more in
          if is_complete_for T man then (more, some d.stamp) else later
    ]

-- the end of a round that found no complete capture: what the engine is doing, and since when it is done
unfoldable pub engine_round : Settings → ℕ → ℕ → Engine → Option ℕ → List (ℕ × Scanned) → Round
unfolding over_deadline
engine_round g T now failed since scanned = raised engine_failed
engine_round g T now returned none scanned =
    go_on (record { scanned = scanned; t_eng_done = some now })
engine_round g T now returned (some t) scanned =
    if ltb g.grace (now - t)
    then grace_over scanned
    else go_on (record { scanned = scanned; t_eng_done = some t })
engine_round g T now running since scanned =
    if over_deadline g T now
    then raised no_directory
    else go_on (record { scanned = scanned; t_eng_done = since })

-- one round; the first one after the engine has returned signals the flush
unfoldable pub poll : Settings → ℕ → Poll → Waiting → Round
unfolding scan engine_round
poll g T p w =
    let (scanned, found) = scan T p.dirs w.scanned in
    elim found [
      | some stamp ↦ chosen stamp
      | none ↦ engine_round g T p.now p.engine w.t_eng_done scanned
    ]

-- round after round; `go_on` is left only where the rounds are used up
unfoldable pub poll_all : Settings → ℕ → List Poll → Waiting → Round
unfolding poll
poll_all g T [] w = go_on w
poll_all g T (p ∷ ps) w = elim (poll g T p w) [
  | chosen stamp ↦ chosen stamp
  | grace_over scanned ↦ grace_over scanned
  | raised r ↦ raised r
  | go_on w' ↦ poll_all g T ps w'
]

-- the greater of two candidates, by usable prefix and then by stamp
abbrev pub is_before : ℕ × ℕ → ℕ × ℕ → Bool
is_before (up, s) (up', s') = ltb up up' || (up == up' && leb s s')

-- `sorted(…)[-1]` of the candidates with a usable prefix, or `(0, None)`
unfoldable pub best : List (ℕ × Scanned) → Option (ℕ × ℕ)
best [] = none
best ((s, c) ∷ scanned) =
    let others = best scanned in
    if ltb 0 c.up
    then elim others [
      | none ↦ some (c.up, s)
      | some o ↦ some (if is_before (c.up, s) o then o else (c.up, s))
    ]
    else others

pub data Choice : Type 0 where
  take_capture : ℕ → Verdict → Choice
  refuse : Refusal → Choice
  undecided : Choice

-- what the loop's end leads to
unfoldable pub choose_capture : Settings → ℕ → Round → Choice
unfolding best is_below
choose_capture g T (chosen stamp) = take_capture stamp complete
choose_capture g T (raised r) = refuse r
choose_capture g T (go_on w) = undecided
choose_capture g T (grace_over scanned) = elim (best scanned) [
  | none ↦ refuse no_usable
  | some (up, s) ↦ if is_below g up T then refuse no_usable else take_capture s (salvage up)
]

-- the whole of the path, with what the assembly of the capture that is taken reports; `none` where the
-- rounds are used up
unfoldable pub spark_prefill_pooled : Settings → ℕ → List Poll → (ℕ → Assembled) → Option Result
unfolding poll_all choose_capture pull_verdict
spark_prefill_pooled g T polls assembled =
    elim (choose_capture g T (poll_all g T polls (record { scanned = []; t_eng_done = none }))) [
      | undecided ↦ none
      | refuse r ↦ some (declined r)
      | take_capture s verdict ↦ elim (pull_verdict g T verdict (assembled s)) [
        | none ↦ some (declined too_little)
        | some v ↦ some (stored v)
      ]
    ]
