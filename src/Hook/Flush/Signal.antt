-- ===== src/Hook/Flush/Signal.antt =====
-- A signal is neither lost nor acted on too early.
use mathlib.Core.Path.{subst}
use mathlib.Core.Option.{some_inj}
use pd_bridge.Prelude.{
  ℕ, zero, suc, ◌*◌, ◌/◌, ◌%◌, ◌==◌, arith, ◌-◌, ◌≤◌, ◌<◌, ◌≡◌, refl, ap, ◌∙◌, sym, ◌⊎◌, inl, inr,
  Bool, true, false, not, ◌&&◌, ◌||◌, Option, none, some, List, [], ◌∷◌, ◌++◌, replicate, length,
  leb, ltb, leb→le, leb-false→lt, le→leb, ltb→lt, Option-cases, if◌then◌else◌, Bool-cases,
}
use pd_bridge.Hook.Finish.{Req, Reason, flush_now, idle, new_request, keys, one_more}
use pd_bridge.Hook.Flush.{
  choose, modulo, is_aligned, Tick, Decision, no_decision, is_settled, is_demanded, is_stale,
  decide, flush_decision, watch,
}

choose_cases :
    (demanded settled enabled waited : Bool) (reason : Reason)
    → choose demanded settled enabled waited ≡ some reason
    → (settled ≡ true)
      × (((reason ≡ flush_now) × (demanded ≡ true))
          ⊎ ((reason ≡ idle) × ((enabled ≡ true) × (waited ≡ true))))
choose_cases true true e w reason h = (refl, inl (sym (some_inj.0 h), refl))
choose_cases true false true w reason h = absurd (cc h)
choose_cases true false false w reason h = absurd (cc h)
choose_cases false true true true reason h = (refl, inr (sym (some_inj.0 h), (refl, refl)))
choose_cases false true true false reason h = absurd (cc h)
choose_cases false true false w reason h = absurd (cc h)
choose_cases false false true w reason h = absurd (cc h)
choose_cases false false false w reason h = absurd (cc h)

choose_demanded :
    (settled enabled waited : Bool)
    → choose true settled enabled waited ≡ (if settled then some flush_now else none)
choose_demanded true e w = refl
choose_demanded false true w = refl
choose_demanded false false w = refl

unlink_demanded :
    (demanded settled enabled waited : Bool)
    → demanded ≡ true
    → (not demanded
        || (elim (choose demanded settled enabled waited) [ none ↦ false | some reason ↦ true ]
            && demanded))
      ≡ true
    → choose demanded settled enabled waited ≡ some flush_now
unlink_demanded true true e w d h = refl
unlink_demanded true false true w d h = absurd (cc h)
unlink_demanded true false false w d h = absurd (cc h)
unlink_demanded false s e w d h = absurd (cc d)

all_three :
    (q busy b : Bool) → (q && (not busy && b)) ≡ true → (q ≡ true) × (busy ≡ false) × (b ≡ true)
all_three q busy b h = ground arith

whole_steps :
    (nl calls : ℕ)
    → (nl == 0 || modulo calls nl == 0) ≡ true
    → (nl ≡ 0) ⊎ ((k : ℕ) × (calls ≡ k * nl))
whole_steps zero calls h = inl refl
whole_steps (suc m) calls h =
    let none_left : calls % suc m ≡ 0 = ground arith in
    inr (calls / suc m, omega (arith, none_left))

module _ {V A P : Type 0} where
  -- Why a watcher may end a request.
  abbrev pub IsDue : ℕ → Option ℕ → Tick V A P → Req V A P → Reason → Type 0
  IsDue idle_s sig t r new_request = 1 ≤ 0
  IsDue idle_s sig t r flush_now = (s : ℕ) × ((sig ≡ some s) × (r.first_t ≤ s))
  IsDue idle_s sig t r idle = (0 < idle_s) × (idle_s ≤ t.now - r.last_t)

  demanded_at :
      (sig : Option ℕ) (r : Req V A P)
      → is_demanded sig r ≡ true
      → (s : ℕ) × ((sig ≡ some s) × (r.first_t ≤ s))
  demanded_at none r h = absurd (cc h)
  demanded_at (some s) r h = (s, (refl, leb→le r.first_t s h))

  due :
      (idle_s : ℕ) (sig : Option ℕ) (t : Tick V A P) (r : Req V A P) (reason : Reason)
      → ((reason ≡ flush_now) × (is_demanded sig r ≡ true))
        ⊎ ((reason ≡ idle) × ((ltb 0 idle_s ≡ true) × (leb idle_s (t.now - r.last_t) ≡ true)))
      → IsDue idle_s sig t r reason
  due idle_s sig t r reason (inl (e, h)) =
      subst (IsDue idle_s sig t r) (sym e) (demanded_at sig r h)
  due idle_s sig t r reason (inr (e, (h, k))) =
      subst (IsDue idle_s sig t r) (sym e) (ltb→lt 0 idle_s h, leb→le idle_s _ k)

  flush_decision-open :
      (idle_s : ℕ) (sig : Option ℕ) (t : Tick V A P) (r : Req V A P)
      → t.req ≡ some r
      → flush_decision idle_s sig t ≡ decide idle_s sig t r
  unfolding flush_decision
  flush_decision-open idle_s sig t r e = rw e refl

  flush_decision-closed :
      (idle_s : ℕ) (sig : Option ℕ) (t : Tick V A P)
      → t.req ≡ none
      → flush_decision idle_s sig t ≡ no_decision
  unfolding flush_decision
  flush_decision-closed idle_s sig t e = rw e refl

  -- A watcher that is free to end the request `r`: the queue is empty, the device is done, and the calls are a multiple of the
  -- number of layers, where there are any.
  pub record IsQuiet (t : Tick V A P) (r : Req V A P) : Type 0 where
    pub q_empty_eq : t.q_empty ≡ true
    pub gpu_eq : t.gpu_busy ≡ false
    pub steps : (one_more (keys r.kv) ≡ 0) ⊎ ((k : ℕ) × (r.calls ≡ k * one_more (keys r.kv)))

  settled-IsQuiet : (t : Tick V A P) (r : Req V A P) → is_settled t r ≡ true → IsQuiet t r
  unfolding is_settled is_aligned
  settled-IsQuiet t r h =
      let (empty, done, whole) = all_three t.q_empty t.gpu_busy (is_aligned r) h in
      record {
        q_empty_eq = empty;
        gpu_eq = done;
        steps = whole_steps (one_more (keys r.kv)) r.calls whole;
      }

  -- A watcher ends a request only if one is open in its process, the queue is empty, the device is done, the calls are a
  -- multiple of the number of layers, where there are any, and either the signal was written after the request began or the
  -- waiting time is set and over.
  pub flush_decision-IsDue :
      (idle_s : ℕ) (sig : Option ℕ) (t : Tick V A P) (reason : Reason)
      → (flush_decision idle_s sig t).fire ≡ some reason
      → (r : Req V A P) × ((t.req ≡ some r) × (IsQuiet t r × IsDue idle_s sig t r reason))
  unfolding decide
  flush_decision-IsDue idle_s sig t reason h = elim (Option-cases t.req) [
    | inl e ↦
        absurd (cc (sym (ap (λ (d : Decision). d.fire) (flush_decision-closed idle_s sig t e)) ∙ h))
    | inr (r, e) ↦
        let (settled, why) =
          choose_cases (is_demanded sig r) (is_settled t r) (ltb 0 idle_s)
            (leb idle_s (t.now - r.last_t)) reason
            (sym (ap (λ (d : Decision). d.fire) (flush_decision-open idle_s sig t r e)) ∙ h) in
        (r, (e, (settled-IsQuiet t r settled, due idle_s sig t r reason why)))
  ]

  unlink_cases :
      (sig : ℕ) (r : Req V A P) (settled enabled waited : Bool)
      → (let fire = choose (is_demanded (some sig) r) settled enabled waited in
          is_stale (some sig) r
          || (elim fire [ none ↦ false | some reason ↦ true ] && is_demanded (some sig) r))
        ≡ true
      → (sig < r.first_t)
        ⊎ ((r.first_t ≤ sig)
            × (choose (is_demanded (some sig) r) settled enabled waited ≡ some flush_now))
  unlink_cases sig r settled e w h = elim (Bool-cases (leb r.first_t sig)) [
    | inr stale ↦ inl (leb-false→lt r.first_t sig stale)
    | inl demanded ↦
        inr (
          leb→le r.first_t sig demanded,
          unlink_demanded (leb r.first_t sig) settled e w demanded h,
        )
  ]

  -- A watcher removes the signal only if a request is open in its process, and the signal is older than it, or the
  -- request is ended because of it.
  pub flush_decision-unlink :
      (idle_s sig : ℕ) (t : Tick V A P)
      → (flush_decision idle_s (some sig) t).unlink ≡ true
      → (r : Req V A P) × ((t.req ≡ some r)
          × ((sig < r.first_t)
              ⊎ ((r.first_t ≤ sig) × ((flush_decision idle_s (some sig) t).fire ≡ some flush_now))))
  unfolding decide
  flush_decision-unlink idle_s sig t h = elim (Option-cases t.req) [
    | inl e ↦ absurd (
        cc
          (sym (ap (λ (d : Decision). d.unlink) (flush_decision-closed idle_s (some sig) t e)) ∙ h))
    | inr (r, e) ↦
        let opened = flush_decision-open idle_s (some sig) t r e in
        (
          r,
          (
            e,
            subst
                (λ (d : Decision).
                  (sig < r.first_t) ⊎ ((r.first_t ≤ sig) × (d.fire ≡ some flush_now)))
                (sym opened)
                (unlink_cases sig r (is_settled t r) (ltb 0 idle_s) (leb idle_s (t.now - r.last_t))
                  (sym (ap (λ (d : Decision). d.unlink) opened) ∙ h)),
          ),
        )
  ]

  -- The ticks on which a watcher with an open request sees it unsettled, or has none.
  abbrev pub IsWaiting : ℕ → Tick V A P → Type 0
  IsWaiting sig t =
      (t.req ≡ none)
      ⊎ ((r : Req V A P) × ((t.req ≡ some r) × ((r.first_t ≤ sig) × (is_settled t r ≡ false))))

  abbrev pub AllWaiting : ℕ → List (Tick V A P) → Type 0
  AllWaiting sig [] = 0 ≤ sig
  AllWaiting sig (t ∷ ts) = IsWaiting sig t × AllWaiting sig ts

  waiting_lem :
      (idle_s sig : ℕ) (t : Tick V A P)
      → IsWaiting sig t
      → flush_decision idle_s (some sig) t ≡ no_decision
  unfolding decide
  waiting_lem idle_s sig t (inl e) = flush_decision-closed idle_s (some sig) t e
  waiting_lem idle_s sig t (inr (r, (e, (h, unsettled)))) =
      flush_decision-open idle_s (some sig) t r e
      ∙ rw (unsettled, le→leb r.first_t sig h)
          (elim (Bool-cases (ltb 0 idle_s)) [ inl on ↦ rw on refl | inr off ↦ rw off refl ])

  settled_lem :
      (idle_s sig : ℕ) (t : Tick V A P) (r : Req V A P)
      → t.req ≡ some r
      → r.first_t ≤ sig
      → is_settled t r ≡ true
      → flush_decision idle_s (some sig) t ≡ record { fire = some flush_now; unlink = true }
  unfolding decide
  settled_lem idle_s sig t r e h settled =
      flush_decision-open idle_s (some sig) t r e ∙ rw (settled, le→leb r.first_t sig h) refl

  -- A signal that was written after the request began stays on disk while no watcher with an open request sees
  -- it settled, whoever looks at it, and the first one that does ends the request because of it.
  pub watch-fires :
      (idle_s sig : ℕ) (before after : List (Tick V A P)) (t : Tick V A P) (r : Req V A P)
      → AllWaiting sig before
      → t.req ≡ some r
      → r.first_t ≤ sig
      → is_settled t r ≡ true
      → watch idle_s (some sig) (before ++ (t ∷ after)) ≡ (
          let (ds, sig') = watch idle_s none after in
          (
            replicate (length before) no_decision
                ++ (record { fire = some flush_now; unlink = true } ∷ ds),
            sig',
          ))
  unfolding watch
  watch-fires idle_s sig [] after t r waiting e h settled =
      rw (settled_lem idle_s sig t r e h settled) refl
  watch-fires idle_s sig (b ∷ before) after t r (waits, waiting) e h settled =
      let ih = watch-fires idle_s sig before after t r waiting e h settled in
      rw (waiting_lem idle_s sig b waits) (rw ih refl)
