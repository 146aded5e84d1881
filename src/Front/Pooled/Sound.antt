-- ===== src/Front/Pooled/Sound.antt =====
-- Which capture is taken.
use mathlib.Core.Path.{subst}
use pd_bridge.Prelude.{
  ℕ, ◌-◌, ◌*◌, ◌<◌, ◌≤◌, ◌≡◌, refl, ap, ◌∙◌, sym, inl, inr, Bool, true, false, not, ◌&&◌, Option,
  none, some, List, [], ◌∷◌, ltb, ◌==◌, ltb→lt, ltb-false→le, ==_iff, if◌then◌else◌, arith,
  Bool-cases, Option-cases, find, put,
}
use pd_bridge.Front.{Settings, Engine, running, returned, failed, no_usable}
use pd_bridge.Front.Manifests.{
  Manifest, or_zero, is_equal, cap_usable_prefix, is_below, over_deadline, complete, salvage,
  partial,
}
use pd_bridge.Front.Pooled.{
  Dir, Poll, Scanned, Waiting, Round, chosen, grace_over, raised, go_on, is_found, is_complete_for,
  scan, engine_round, poll, poll_all, is_before, best, Choice, take_capture, refuse, undecided,
  choose_capture,
}

-- A capture without a partial start and without gaps, so that its tokens are those from 0 on.
pub record IsWhole (man : Manifest) : Type 0 where
  pub no_partial : or_zero man.partial_start ≡ 0
  pub no_gaps : man.has_gaps ≡ false

usable_if :
    (whole gaps : Bool) (n : ℕ)
    → 0 < (if not whole then 0 else if gaps then 0 else n)
    → (whole ≡ true) × ((gaps ≡ false) × ((if not whole then 0 else if gaps then 0 else n) ≡ n))
usable_if true true n h = absurd (omega arith)
usable_if true false n h = (refl, (refl, refl))
usable_if false gaps n h = absurd (omega arith)

and_both : (a b : Bool) → (a && b) ≡ true → (a ≡ true) × (b ≡ true)
and_both true b h = (refl, h)
and_both false b h = absurd (cc h)

is_equal_lem : (o : Option ℕ) (n : ℕ) → is_equal o n ≡ true → o ≡ some n
unfolding is_equal
is_equal_lem none n h = absurd (cc h)
is_equal_lem (some m) n h = ap some ((==_iff m n).0 h)

usable_lem :
    (man : Manifest)
    → 0 < cap_usable_prefix man
    → IsWhole man × (cap_usable_prefix man ≡ or_zero man.T)
unfolding cap_usable_prefix
usable_lem man h =
    let (whole, (gaps, same)) =
      usable_if (or_zero man.partial_start == 0) man.has_gaps (or_zero man.T) h in
    (record { no_partial = (==_iff (or_zero man.partial_start) 0).0 whole; no_gaps = gaps }, same)

complete_lem :
    (T : ℕ) (man : Manifest) → 0 < T → is_complete_for T man ≡ true → IsWhole man × (man.T ≡ some T)
unfolding is_complete_for is_equal
complete_lem T man pos h =
    let (length, usable) = and_both (is_equal man.T T) (cap_usable_prefix man == T) h in
    let up = (==_iff (cap_usable_prefix man) T).0 usable in
    ((usable_lem man (omega (arith, up))).0, is_equal_lem man.T T length)

module _ (T : ℕ) (Holds : ℕ → Manifest → Type 0) where
  -- what is said of a sealed directory
  abbrev pub OfSealed : ℕ → Option Manifest → Type 0
  OfSealed s none = 0 ≤ s
  OfSealed s (some man) = Holds s man

  abbrev pub OfDirs : List Dir → Type 0
  OfDirs [] = 0 ≤ T
  OfDirs (d ∷ dirs) = OfSealed d.stamp d.sealed × OfDirs dirs

  abbrev pub OfPolls : List Poll → Type 0
  OfPolls [] = 0 ≤ T
  OfPolls (p ∷ ps) = OfDirs p.dirs × OfPolls ps

  abbrev pub OfScanned : List (ℕ × Scanned) → Type 0
  OfScanned [] = 0 ≤ T
  OfScanned ((s, c) ∷ scanned) =
      (Holds s c.man × (c.up ≡ cap_usable_prefix c.man)) × OfScanned scanned

  put-OfScanned :
      (s : ℕ) (c : Scanned) (scanned : List (ℕ × Scanned))
      → Holds s c.man
      → c.up ≡ cap_usable_prefix c.man
      → OfScanned scanned
      → OfScanned (put s c scanned)
  unfolding put
  put-OfScanned s c [] h e all = ((h, e), all)
  put-OfScanned s c ((j, b) ∷ scanned) h e (one, all) = elim (Bool-cases (j == s)) [
    | inl same ↦ rw same ((h, e), all)
    | inr ne ↦ rw ne (one, put-OfScanned s c scanned h e all)
  ]

  -- a complete capture is one of the directories
  abbrev pub OfFound : Option ℕ → Type 0
  OfFound none = 0 ≤ T
  OfFound (some s) = (man : Manifest) × (Holds s man × (is_complete_for T man ≡ true))

  scan-OfScanned :
      (dirs : List Dir) (scanned : List (ℕ × Scanned))
      → OfDirs dirs
      → OfScanned scanned
      → OfScanned (scan T dirs scanned).0 × OfFound (scan T dirs scanned).1
  unfolding scan
  scan-OfScanned [] scanned h all = (all, omega arith)
  scan-OfScanned (d ∷ dirs) scanned (one, h) all =
      elim (Bool-cases (is_found (find d.stamp scanned))) [
        | inl seen ↦ rw seen (scan-OfScanned dirs scanned h all)
        | inr new ↦ elim (Option-cases d.sealed) [
          | inl e ↦ rw new (rw e (scan-OfScanned dirs scanned h all))
          | inr (man, e) ↦
              let held : Holds d.stamp man = subst (OfSealed d.stamp) e one in
              let c : Scanned = record { up = cap_usable_prefix man; man = man } in
              let all' = put-OfScanned d.stamp c scanned held refl all in
              elim (Bool-cases (is_complete_for T man)) [
                | inl whole ↦ rw new (rw e (rw whole (all', (man, (held, whole)))))
                | inr part ↦
                    rw new (rw e (rw part (scan-OfScanned dirs (put d.stamp c scanned) h all')))
              ]
        ]
      ]

  -- what the end of the loop says
  abbrev pub OfRound : Round → Type 0
  OfRound (chosen s) = OfFound (some s)
  OfRound (grace_over scanned) = OfScanned scanned
  OfRound (raised r) = 0 ≤ T
  OfRound (go_on w) = OfScanned w.scanned

  found_lem :
      (found : Option ℕ) (r : Round)
      → OfFound found
      → OfRound r
      → OfRound (elim found [ some stamp ↦ chosen stamp | none ↦ r ])
  found_lem none r f h = h
  found_lem (some s) r f h = f

  module _ (g : Settings) where
    engine_round-OfRound :
        (now : ℕ) (engine : Engine) (since : Option ℕ) (scanned : List (ℕ × Scanned))
        → OfScanned scanned
        → OfRound (engine_round g T now engine since scanned)
    unfolding engine_round
    engine_round-OfRound now failed since scanned h = omega arith
    engine_round-OfRound now returned none scanned h = h
    engine_round-OfRound now returned (some t) scanned h =
        elim (Bool-cases (ltb g.grace (now - t))) [ inl over ↦ rw over h | inr still ↦ rw still h ]
    engine_round-OfRound now running since scanned h = elim (Bool-cases (over_deadline g T now)) [
      | inl over ↦ rw over (omega arith)
      | inr still ↦ rw still h
    ]

    poll-OfRound :
        (p : Poll) (w : Waiting) → OfDirs p.dirs → OfScanned w.scanned → OfRound (poll g T p w)
    unfolding poll
    poll-OfRound p w h all =
        let (all', found) = scan-OfScanned p.dirs w.scanned h all in
        found_lem (scan T p.dirs w.scanned).1 _ found
          (engine_round-OfRound p.now p.engine w.t_eng_done _ all')

    rounds-OfRound :
        (r : Round) (ps : List Poll)
        → OfRound r
        → ((w : Waiting) → OfScanned w.scanned → OfRound (poll_all g T ps w))
        → OfRound (elim r [
          | chosen stamp ↦ chosen stamp
          | grace_over scanned ↦ grace_over scanned
          | raised e ↦ raised e
          | go_on w ↦ poll_all g T ps w
        ])
    rounds-OfRound (chosen stamp) ps h later = h
    rounds-OfRound (grace_over scanned) ps h later = h
    rounds-OfRound (raised e) ps h later = h
    rounds-OfRound (go_on w) ps h later = later w h

    pub poll_all-OfRound :
        (ps : List Poll) (w : Waiting)
        → OfPolls ps
        → OfScanned w.scanned
        → OfRound (poll_all g T ps w)
    unfolding poll_all
    poll_all-OfRound [] w h all = all
    poll_all-OfRound (p ∷ ps) w (one, h) all =
        rounds-OfRound (poll g T p w) ps (poll-OfRound p w one all)
          (λ w' all'. poll_all-OfRound ps w' h all')

  abbrev pub OfBest : Option (ℕ × ℕ) → Type 0
  OfBest none = 0 ≤ T
  OfBest (some (up, s)) =
      (man : Manifest) × (Holds s man × ((cap_usable_prefix man ≡ up) × (0 < up)))

  -- the best candidate is one of those that were read
  best-OfScanned : (scanned : List (ℕ × Scanned)) → OfScanned scanned → OfBest (best scanned)
  unfolding best
  best-OfScanned [] h = omega arith
  best-OfScanned ((j, c) ∷ scanned) ((held, e), h) = elim (Bool-cases (ltb 0 c.up)) [
    | inr zero_up ↦ rw zero_up (best-OfScanned scanned h)
    | inl positive ↦
        let here : OfBest (some (c.up, j)) = (c.man, (held, (sym e, ltb→lt 0 c.up positive))) in
        elim (Option-cases (best scanned)) [
          | inl none_else ↦ rw positive (rw none_else here)
          | inr (o, other) ↦
              let there = subst OfBest other (best-OfScanned scanned h) in
              elim (Bool-cases (is_before (c.up, j) o)) [
                | inl later ↦ rw positive (rw other (rw later there))
                | inr first ↦ rw positive (rw other (rw first here))
              ]
        ]
  ]

  -- What a choice promises of the capture it takes.
  abbrev pub OfChoice : Settings → Choice → Type 0
  OfChoice g (refuse r) = 0 ≤ T
  OfChoice g undecided = 0 ≤ T
  OfChoice g (take_capture s complete) =
      (man : Manifest) × (Holds s man × (IsWhole man × (man.T ≡ some T)))
  OfChoice g (take_capture s (partial n)) = 1 ≤ 0
  OfChoice g (take_capture s (salvage up)) =
      (man : Manifest) × (Holds s man
        × (IsWhole man × ((or_zero man.T ≡ up) × ((0 < up) × (g.min_coverage * T ≤ up * 10000)))))

  salvage_lem :
      (g : Settings) (u : ℕ × ℕ)
      → OfBest (some u)
      → OfChoice g (if is_below g u.0 T then refuse no_usable else take_capture u.1 (salvage u.0))
  unfolding is_below
  salvage_lem g u (man, (held, (e, pos))) =
      elim (Bool-cases (ltb (u.0 * 10000) (g.min_coverage * T))) [
        | inl below ↦ rw below (omega arith)
        | inr enough ↦
            let (whole, length) = usable_lem man (omega (arith, e, pos)) in
            rw enough (
              man,
              (
                held,
                (
                  whole,
                  (sym length ∙ e, (pos, ltb-false→le (u.0 * 10000) (g.min_coverage * T) enough)),
                ),
              ),
            )
      ]

  best_lem :
      (g : Settings) (o : Option (ℕ × ℕ))
      → OfBest o
      → OfChoice g (elim o [
        | none ↦ refuse no_usable
        | some (up, s) ↦ if is_below g up T then refuse no_usable else take_capture s (salvage up)
      ])
  best_lem g none h = omega arith
  best_lem g (some u) h = salvage_lem g u h

  choice_lem : (g : Settings) (r : Round) → 0 < T → OfRound r → OfChoice g (choose_capture g T r)
  unfolding choose_capture
  choice_lem g (chosen s) pos (man, (held, whole)) = (man, (held, complete_lem T man pos whole))
  choice_lem g (raised r) pos h = omega arith
  choice_lem g (go_on w) pos h = omega arith
  choice_lem g (grace_over scanned) pos h = best_lem g (best scanned) (best-OfScanned scanned h)

  -- For a prompt that is not empty, and whatever holds of every sealed directory with its manifest: a capture that is taken is
  -- one of them and starts at 0 without a gap. As complete it has the length of the prompt, as
  -- salvage it has the length of its verdict, which reaches the minimum coverage.
  pub choose_capture-OfChoice :
      (g : Settings) (ps : List Poll)
      → 0 < T
      → OfPolls ps
      → OfChoice g
          (choose_capture g T (poll_all g T ps (record { scanned = []; t_eng_done = none })))
  choose_capture-OfChoice g ps pos h =
      choice_lem g (poll_all g T ps (record { scanned = []; t_eng_done = none })) pos
        (poll_all-OfRound g ps (record { scanned = []; t_eng_done = none }) h (omega arith))
