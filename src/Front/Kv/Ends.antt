-- ===== src/Front/Kv/Ends.antt =====
-- The waiting ends: by the grace time after the engine has returned.
use pd_bridge.Prelude.{
  ℕ, ◌-◌, ◌<◌, ◌≤◌, ◌≡◌, refl, ap, ◌∙◌, sym, ◌⊎◌, inl, inr, Bool, true, false, not, ◌&&◌, Option,
  none, some, List, [], ◌∷◌, ◌++◌, ltb, lt→ltb, if◌then◌else◌,
}
use pd_bridge.Front.{Settings, Engine, running, returned, failed, unreadable, engine_failed}
use pd_bridge.Front.Kv.{
  Seal, not_sealed, unreadable_seal, sealed, Look, Wait, ready, refused, waits, seen_done, limits,
  unsealed_round, look, look_all,
}

abbrev pub has_ended : Wait → Bool
has_ended (ready man) = true
has_ended (refused r) = true
has_ended (waits since) = false

Wait-cases : (w : Wait) → (has_ended w ≡ true) ⊎ ((since : Option ℕ) × (w ≡ waits since))
Wait-cases (ready man) = inl refl
Wait-cases (refused r) = inl refl
Wait-cases (waits since) = inr (since, refl)

waits-inj : (since since' : Option ℕ) → waits since ≡ waits since' → since ≡ since'
waits-inj since since' h = cc h

if_waits :
    (b : Bool) (w : Wait) (since since' : Option ℕ)
    → has_ended w ≡ true
    → (if b then w else waits since) ≡ waits since'
    → (b ≡ false) × (since ≡ since')
if_waits true w since since' over h = absurd (cc (sym over ∙ ap has_ended h))
if_waits false w since since' over h = (refl, waits-inj since since' h)

-- a round that waits found no seal, and its limits let it wait
unsealed :
    (seal : Seal) (w : Wait) (since' : Option ℕ)
    → elim seal [ sealed man ↦ ready man | unreadable_seal ↦ refused unreadable | not_sealed ↦ w ]
      ≡ waits since'
    → w ≡ waits since'
unsealed (sealed man) w since' h = absurd (cc h)
unsealed unreadable_seal w since' h = absurd (cc h)
unsealed not_sealed w since' h = h

module _ (g : Settings) (d : Bool) where
  looks : Wait → List Look → Wait
  looks w ls = elim w [
    | ready man ↦ ready man
    | refused r ↦ refused r
    | waits since ↦ look_all g d ls since
  ]

  looks_ended : (w : Wait) (ls : List Look) → has_ended w ≡ true → has_ended (looks w ls) ≡ true
  unfolding looks
  looks_ended (ready man) ls h = refl
  looks_ended (refused r) ls h = refl
  looks_ended (waits since) ls h = absurd (cc h)

  look_all_cons :
      (l : Look) (ls : List Look) (since : Option ℕ)
      → ((since' : Option ℕ)
          → look g d l since ≡ waits since'
          → has_ended (look_all g d ls since') ≡ true)
      → has_ended (look_all g d (l ∷ ls) since) ≡ true
  unfolding look_all looks
  look_all_cons l ls since h = elim (Wait-cases (look g d l since)) [
    | inl over ↦ looks_ended (look g d l since) ls over
    | inr (since', e) ↦ ap (λ w. has_ended (looks w ls)) e ∙ h since' e
  ]

  by_engine :
      (engine : Engine) (listed : Bool) (now : ℕ) (since since' : Option ℕ)
      → elim engine [
        | failed ↦ refused engine_failed
        | returned ↦ limits g d listed now (seen_done returned now since)
        | running ↦ limits g d listed now (seen_done running now since)
      ]
        ≡ waits since'
      → limits g d listed now (seen_done engine now since) ≡ waits since'
  by_engine failed listed now since since' h = absurd (cc h)
  by_engine returned listed now since since' h = h
  by_engine running listed now since since' h = h

  at_limits :
      (l : Look) (since since' : Option ℕ)
      → look g d l since ≡ waits since'
      → limits g d l.listed l.now (seen_done l.engine l.now since) ≡ waits since'
  unfolding look unsealed_round
  at_limits l since since' h =
      by_engine l.engine l.listed l.now since since' (unsealed l.seal _ since' h)

  kept_time :
      (listed : Bool) (now t : ℕ) (since' : Option ℕ)
      → limits g d listed now (some t) ≡ waits since'
      → since' ≡ some t
  unfolding limits
  kept_time listed now t since' h =
      sym (if_waits (ltb g.grace (now - t)) _ (some t) since' refl h).1

  running_keeps :
      (listed : Bool) (now : ℕ) (since' : Option ℕ)
      → limits g d listed now none ≡ waits since'
      → since' ≡ none
  unfolding limits
  running_keeps listed now since' h =
      sym (if_waits (d && (not listed && ltb g.stamp_timeout now)) _ none since' refl h).1

  grace_used :
      (listed : Bool) (now t : ℕ) (since' : Option ℕ)
      → g.grace < now - t
      → limits g d listed now (some t) ≡ waits since'
      → true ≡ false
  unfolding limits
  grace_used listed now t since' h k =
      sym (lt→ltb g.grace (now - t) h)
      ∙ (if_waits (ltb g.grace (now - t)) _ (some t) since' refl k).0

  grace_from :
      (t : ℕ) (before after : List Look) (l : Look)
      → g.grace < l.now - t
      → has_ended (look_all g d (before ++ (l ∷ after)) (some t)) ≡ true
  grace_from t [] after l h = look_all_cons l after (some t) (λ since' e.
      absurd (cc (grace_used l.listed l.now t since' h (at_limits l (some t) since' e))))
  grace_from t (b ∷ before) after l h =
      look_all_cons b (before ++ (l ∷ after)) (some t) (λ since' e.
        let kept = kept_time b.listed b.now t since' (at_limits b (some t) since' e) in
        ap (λ o. has_ended (look_all g d (before ++ (l ∷ after)) o)) kept
        ∙ grace_from t before after l h)

  abbrev pub AllRunning : List Look → Type 0
  AllRunning [] = 0 ≤ g.grace
  AllRunning (l ∷ ls) = (l.engine ≡ running) × AllRunning ls

  -- Each of the three loops ends at the latest in the first round in which more than the grace time has gone by since the
  -- first round that saw that the engine has returned.
  pub look_all-grace :
      (before between after : List Look) (l m : Look)
      → AllRunning before
      → l.engine ≡ returned
      → g.grace < m.now - l.now
      → has_ended (look_all g d (before ++ (l ∷ (between ++ (m ∷ after)))) none) ≡ true
  look_all-grace [] between after l m all h over =
      look_all_cons l (between ++ (m ∷ after)) none (λ since' e.
        let here =
          ap (λ x. limits g d l.listed l.now (seen_done x l.now none)) (sym h)
          ∙ at_limits l none since' e in
        ap (λ o. has_ended (look_all g d (between ++ (m ∷ after)) o))
          (kept_time l.listed l.now l.now since' here)
        ∙ grace_from l.now between after m over)
  look_all-grace (b ∷ before) between after l m (runs, all) h over =
      look_all_cons b (before ++ (l ∷ (between ++ (m ∷ after)))) none (λ since' e.
        let here =
          ap (λ x. limits g d b.listed b.now (seen_done x b.now none)) (sym runs)
          ∙ at_limits b none since' e in
        ap (λ o. has_ended (look_all g d (before ++ (l ∷ (between ++ (m ∷ after)))) o))
          (running_keeps b.listed b.now since' here)
        ∙ look_all-grace before between after l m all h over)
