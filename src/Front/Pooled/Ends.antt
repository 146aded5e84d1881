-- ===== src/Front/Pooled/Ends.antt =====
-- The loop ends: by the deadline while the engine runs, by the grace time after it has returned.
use pd_bridge.Prelude.{
  ℕ, ◌-◌, ◌<◌, ◌≤◌, ◌≡◌, refl, ap, ◌∙◌, sym, ◌⊎◌, inl, inr, Bool, true, false, Option, none, some,
  List, [], ◌∷◌, ◌++◌, ltb, lt→ltb, if◌then◌else◌,
}
use pd_bridge.Front.{Settings, Engine, running, returned, failed}
use pd_bridge.Front.Manifests.{over_deadline}
use pd_bridge.Front.Pooled.{
  Poll, Scanned, Waiting, Round, chosen, grace_over, raised, go_on, scan, engine_round, poll,
  poll_all,
}

abbrev pub is_over : Round → Bool
is_over (chosen stamp) = true
is_over (grace_over scanned) = true
is_over (raised r) = true
is_over (go_on w) = false

Round-cases : (r : Round) → (is_over r ≡ true) ⊎ ((w : Waiting) × (r ≡ go_on w))
Round-cases (chosen stamp) = inl refl
Round-cases (grace_over scanned) = inl refl
Round-cases (raised r) = inl refl
Round-cases (go_on w) = inr (w, refl)

go_on-inj : (w w' : Waiting) → go_on w ≡ go_on w' → w ≡ w'
go_on-inj w w' h = cc h

not_chosen :
    (found : Option ℕ) (r : Round) (w' : Waiting)
    → elim found [ some stamp ↦ chosen stamp | none ↦ r ] ≡ go_on w'
    → r ≡ go_on w'
not_chosen (some stamp) r w' h = absurd (cc h)
not_chosen none r w' h = h

if_goes_on :
    (b : Bool) (r : Round) (w w' : Waiting)
    → is_over r ≡ true
    → (if b then r else go_on w) ≡ go_on w'
    → (b ≡ false) × (w ≡ w')
if_goes_on true r w w' over h = absurd (cc (sym over ∙ ap is_over h))
if_goes_on false r w w' over h = (refl, go_on-inj w w' h)

module _ (g : Settings) (T : ℕ) where
  rounds : Round → List Poll → Round
  rounds r ps = elim r [
    | chosen stamp ↦ chosen stamp
    | grace_over scanned ↦ grace_over scanned
    | raised e ↦ raised e
    | go_on w ↦ poll_all g T ps w
  ]

  rounds_over : (r : Round) (ps : List Poll) → is_over r ≡ true → is_over (rounds r ps) ≡ true
  unfolding rounds
  rounds_over (chosen stamp) ps h = refl
  rounds_over (grace_over scanned) ps h = refl
  rounds_over (raised e) ps h = refl
  rounds_over (go_on w) ps h = absurd (cc h)

  -- a round that goes on leads to the rounds behind it
  poll_all_cons :
      (p : Poll) (ps : List Poll) (w : Waiting)
      → ((w' : Waiting) → poll g T p w ≡ go_on w' → is_over (poll_all g T ps w') ≡ true)
      → is_over (poll_all g T (p ∷ ps) w) ≡ true
  unfolding poll_all rounds
  poll_all_cons p ps w h = elim (Round-cases (poll g T p w)) [
    | inl over ↦ rounds_over (poll g T p w) ps over
    | inr (w', e) ↦ ap (λ r. is_over (rounds r ps)) e ∙ h w' e
  ]

  -- a round goes on only where no capture is chosen and the engine's part goes on
  went_on :
      (p : Poll) (w w' : Waiting)
      → poll g T p w ≡ go_on w'
      → engine_round g T p.now p.engine w.t_eng_done (scan T p.dirs w.scanned).0 ≡ go_on w'
  unfolding poll
  went_on p w w' h = not_chosen (scan T p.dirs w.scanned).1 _ w' h

  deadline_over :
      (now : ℕ) (since : Option ℕ) (scanned : List (ℕ × Scanned)) (w' : Waiting)
      → over_deadline g T now ≡ true
      → engine_round g T now running since scanned ≡ go_on w'
      → true ≡ false
  unfolding engine_round
  deadline_over now since scanned w' h k =
      sym h ∙ (if_goes_on (over_deadline g T now) _ _ w' refl k).0

  -- the time at which the engine was first seen to have returned
  kept_time :
      (now t : ℕ) (engine : Engine) (scanned : List (ℕ × Scanned)) (w' : Waiting)
      → engine_round g T now engine (some t) scanned ≡ go_on w'
      → w'.t_eng_done ≡ some t
  unfolding engine_round
  kept_time now t failed scanned w' h = absurd (cc h)
  kept_time now t returned scanned w' h =
      ap (λ (w : Waiting). w.t_eng_done) (sym (if_goes_on (ltb g.grace (now - t)) _ _ w' refl h).1)
  kept_time now t running scanned w' h =
      ap (λ (w : Waiting). w.t_eng_done) (sym (if_goes_on (over_deadline g T now) _ _ w' refl h).1)

  grace_used :
      (now t : ℕ) (scanned : List (ℕ × Scanned)) (w' : Waiting)
      → g.grace < now - t
      → engine_round g T now returned (some t) scanned ≡ go_on w'
      → true ≡ false
  unfolding engine_round
  grace_used now t scanned w' h k =
      sym (lt→ltb g.grace (now - t) h) ∙ (if_goes_on (ltb g.grace (now - t)) _ _ w' refl k).0

  running_keeps :
      (now : ℕ) (scanned : List (ℕ × Scanned)) (since : Option ℕ) (w' : Waiting)
      → engine_round g T now running since scanned ≡ go_on w'
      → w'.t_eng_done ≡ since
  unfolding engine_round
  running_keeps now scanned since w' h =
      ap (λ (w : Waiting). w.t_eng_done) (sym (if_goes_on (over_deadline g T now) _ _ w' refl h).1)

  at_engine :
      (p : Poll) (w w' : Waiting) (e : Engine)
      → p.engine ≡ e
      → poll g T p w ≡ go_on w'
      → engine_round g T p.now e w.t_eng_done (scan T p.dirs w.scanned).0 ≡ go_on w'
  at_engine p w w' e h k =
      ap (λ (x : Engine). engine_round g T p.now x w.t_eng_done (scan T p.dirs w.scanned).0) (sym h)
      ∙ went_on p w w' k

  -- The loop ends at the latest in the first round in which the engine still runs and the deadline is over, whatever the share
  -- shows before and after.
  pub poll_all-deadline :
      (before after : List Poll) (p : Poll) (w : Waiting)
      → p.engine ≡ running
      → over_deadline g T p.now ≡ true
      → is_over (poll_all g T (before ++ (p ∷ after)) w) ≡ true
  poll_all-deadline [] after p w h k =
      poll_all_cons p after w (λ w' e.
        absurd (cc (deadline_over p.now w.t_eng_done _ w' k (at_engine p w w' running h e))))
  poll_all-deadline (b ∷ before) after p w h k =
      poll_all_cons b (before ++ (p ∷ after)) w (λ w' e. poll_all-deadline before after p w' h k)

  grace_from :
      (t : ℕ) (before after : List Poll) (p : Poll) (w : Waiting)
      → w.t_eng_done ≡ some t
      → p.engine ≡ returned
      → g.grace < p.now - t
      → is_over (poll_all g T (before ++ (p ∷ after)) w) ≡ true
  grace_from t [] after p w e h k = poll_all_cons p after w (λ w' r.
      let r' =
        ap (λ o. engine_round g T p.now returned o (scan T p.dirs w.scanned).0) (sym e)
        ∙ at_engine p w w' returned h r in
      absurd (cc (grace_used p.now t _ w' k r')))
  grace_from t (b ∷ before) after p w e h k = poll_all_cons b (before ++ (p ∷ after)) w (λ w' r.
      let r' =
        ap (λ o. engine_round g T b.now b.engine o (scan T b.dirs w.scanned).0) (sym e)
        ∙ went_on b w w' r in
      grace_from t before after p w' (kept_time b.now t b.engine _ w' r') h k)

  abbrev pub AllRunning : List Poll → Type 0
  AllRunning [] = 0 ≤ T
  AllRunning (p ∷ ps) = (p.engine ≡ running) × AllRunning ps

  -- The loop ends at the latest in the first round in which the engine has returned and more than the grace time has gone by
  -- since the first round that saw this.
  pub poll_all-grace :
      (before between after : List Poll) (p q : Poll) (w : Waiting)
      → w.t_eng_done ≡ none
      → AllRunning before
      → p.engine ≡ returned
      → q.engine ≡ returned
      → g.grace < q.now - p.now
      → is_over (poll_all g T (before ++ (p ∷ (between ++ (q ∷ after)))) w) ≡ true
  unfolding engine_round
  poll_all-grace [] between after p q w e all h k over =
      poll_all_cons p (between ++ (q ∷ after)) w (λ w' r.
        let r' =
          ap (λ o. engine_round g T p.now returned o (scan T p.dirs w.scanned).0) (sym e)
          ∙ at_engine p w w' returned h r in
        grace_from p.now between after q w'
          (ap (λ (x : Waiting). x.t_eng_done) (sym (go_on-inj _ w' r'))) k over)
  poll_all-grace (b ∷ before) between after p q w e (runs, all) h k over =
      poll_all_cons b (before ++ (p ∷ (between ++ (q ∷ after)))) w (λ w' r.
        poll_all-grace before between after p q w'
          (running_keeps b.now _ w.t_eng_done w' (at_engine b w w' running runs r) ∙ e) all h k
          over)
