-- ===== src/Hook/Flush.antt =====
-- `_Capture._flush_decision` and `_watch`: when the open request is ended. The file `FLUSH_NOW` is the time of
-- its last change, if it is there. A tick is what a watcher sees on one round; watchers run in several
-- processes, of which one at most has an open request. The text `why` is left out.
pub mod Signal
use pd_bridge.Prelude.{
  ℕ, zero, suc, ◌+◌, ◌-◌, ◌%◌, Bool, true, false, not, ◌&&◌, ◌||◌, Option, none, some, List, [],
  ◌∷◌, map, leb, ltb, ◌==◌, if◌then◌else◌,
}
use pd_bridge.Hook.Finish.{Req, Reason, flush_now, idle, keys, one_more}

pub record Tick (V A P : Type 0) : Type 0 where
  pub req : Option (Req V A P)
  pub now : ℕ
  pub gpu_busy : Bool
  pub q_empty : Bool

pub record Decision : Type 0 where
  pub fire : Option Reason
  pub unlink : Bool

abbrev pub no_decision : Decision
no_decision = record { fire = none; unlink = false }

abbrev pub modulo : ℕ → ℕ → ℕ
modulo n zero = n
modulo n (suc m) = n % suc m

-- the three branches
abbrev pub choose : (demanded settled enabled waited : Bool) → Option Reason
choose demanded settled enabled waited =
    if demanded && settled
    then some flush_now
    else if enabled && (settled && waited)
    then some idle
    else none

module _ {V A P : Type 0} where
  -- every layer of the step has been taken
  unfoldable pub is_aligned : Req V A P → Bool
  is_aligned r = let nl = one_more (keys r.kv) in nl == 0 || modulo r.calls nl == 0

  unfoldable pub is_settled : Tick V A P → Req V A P → Bool
  unfolding is_aligned
  is_settled t r = t.q_empty && (not t.gpu_busy && is_aligned r)

  -- the signal was written after the request began
  abbrev pub is_demanded : Option ℕ → Req V A P → Bool
  is_demanded none r = false
  is_demanded (some sig) r = leb r.first_t sig

  abbrev pub is_stale : Option ℕ → Req V A P → Bool
  is_stale none r = false
  is_stale (some sig) r = not (leb r.first_t sig)

  unfoldable pub decide : ℕ → Option ℕ → Tick V A P → Req V A P → Decision
  unfolding is_settled
  decide idle_s sig t r =
      let settled = is_settled t r in
      let demanded = is_demanded sig r in
      let waited = t.now - r.last_t in
      let fire = choose demanded settled (ltb 0 idle_s) (leb idle_s waited) in
      record {
        fire = fire;
        unlink = is_stale sig r || (elim fire [ none ↦ false | some reason ↦ true ] && demanded);
      }

  -- with no open request the flag is not touched
  unfoldable pub flush_decision : ℕ → Option ℕ → Tick V A P → Decision
  unfolding decide
  flush_decision idle_s sig t = elim t.req [ none ↦ no_decision | some r ↦ decide idle_s sig t r ]

  -- the rounds of all watchers on the one file, in the order they look at it
  unfoldable pub watch : ℕ → Option ℕ → List (Tick V A P) → List Decision × Option ℕ
  unfolding flush_decision
  watch idle_s sig [] = ([], sig)
  watch idle_s sig (t ∷ ts) =
      let d = flush_decision idle_s sig t in
      let (ds, sig') = watch idle_s (if d.unlink then none else sig) ts in (d ∷ ds, sig')
