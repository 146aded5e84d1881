-- ===== src/Front/Manifests.antt =====
-- `stamp_deadline`, `_cap_usable_prefix`, and the verdict that the paths have in common.
use pd_bridge.Prelude.{
  ℕ, ◌+◌, ◌*◌, ◌/◌, Bool, false, not, ◌||◌, Option, none, some, ltb, ◌==◌, if◌then◌else◌,
}
use pd_bridge.Front.{Settings, Refusal}

-- `manifest.json`, as far as it is looked at: a key that is missing is `none`, and of the gaps, whether there are any.
pub record Manifest : Type 0 where
  pub T : Option ℕ
  pub prompt_len : Option ℕ
  pub partial_start : Option ℕ
  pub has_gaps : Bool
  pub is_omlx : Bool
  pub tail_rows : Option ℕ

-- Python's `x or 0` and the truth of an optional number
abbrev pub or_zero : Option ℕ → ℕ
or_zero none = 0
or_zero (some n) = n

unfoldable pub is_equal : Option ℕ → ℕ → Bool
is_equal none n = false
is_equal (some m) n = m == n

unfoldable pub cap_usable_prefix : Manifest → ℕ
cap_usable_prefix man =
    if not (or_zero man.partial_start == 0) then 0 else if man.has_gaps then 0 else or_zero man.T

-- whether `elapsed` is over `stamp_deadline(T)`, both times the rate
unfoldable pub over_deadline : Settings → ℕ → ℕ → Bool
over_deadline g T elapsed = ltb (g.stamp_timeout * g.tok_rate + T) (elapsed * g.tok_rate)

-- `up < PD_MIN_COVERAGE * T`
unfoldable pub is_below : Settings → ℕ → ℕ → Bool
is_below g up T = ltb (up * 10000) (g.min_coverage * T)

pub data Verdict : Type 0 where
  complete : Verdict
  salvage : ℕ → Verdict
  partial : ℕ → Verdict

-- What the assembly of a capture reports: the blocks it stored, the tokens they hold, and their coverage.
pub record Assembled : Type 0 where
  pub paths : ℕ
  pub B : ℕ
  pub coverage : ℕ

-- `not paths or cov < PD_MIN_COVERAGE`
unfoldable pub is_too_little : Settings → Assembled → Bool
is_too_little g a = a.paths == 0 || ltb a.coverage g.min_coverage

-- `(T // PD_BLOCK) * PD_BLOCK`
abbrev pub full_tokens : Settings → ℕ → ℕ
full_tokens g T = T / g.block * g.block

-- How a path ends: declined, so that the decoder prefills alone, or stored with a verdict.
pub data Result : Type 0 where
  declined : Refusal → Result
  stored : Verdict → Result

-- the end of `_pull_and_assemble`
unfoldable pub pull_verdict : Settings → ℕ → Verdict → Assembled → Option Verdict
unfolding is_too_little
pull_verdict g T verdict a =
    if is_too_little g a
    then none
    else some (if ltb a.B (full_tokens g T) then partial a.B else verdict)
