-- ===== src/Tests/Resume.antt =====
-- A capture of twelve rows that is resumed behind ten, and two states of which one covers the position.
use pd_bridge.Prelude.{
  ◌≤◌, ◌+◌, ℕ, ◌≡◌, refl, some, none, true, List, [], ◌∷◌, ◌++◌, arith, last_rows, joined, ◌⊎◌,
}
use pd_bridge.Hook.Boundaries.{boundaries}
use pd_bridge.Hook.Windows.{new_kv}
use pd_bridge.Hook.Windows.Whole.{windows_at}
use pd_bridge.Hook.Pools.{PoolState, new_pool, feed_each, cat_pooled}
use pd_bridge.Pool.Calls.{whole}
use pd_bridge.KvReturn.{merge_windows, merge_pooled}
use pd_bridge.KvReturn.Resume.{
  Meta, covers, best_state, feed_all, seed_kv, seed_pool, cut_rows, window_end,
}
use pd_bridge.KvReturn.Resume.Windows.{resumed-windows}
use pd_bridge.KvReturn.Resume.Pools.{resumed-pooled}
use pd_bridge.KvReturn.Resume.Choices.{none_covers, none_newer, best_state-IsChosen}
use pd_bridge.Tests.Pool.{ops}

abbrev common : List ℕ
common = 1 ∷ 2 ∷ 3 ∷ 4 ∷ 5 ∷ 6 ∷ 7 ∷ 8 ∷ 9 ∷ 10 ∷ []

abbrev earlier : List ℕ
earlier = 11 ∷ 12 ∷ []

abbrev further : List (List ℕ)
further = (21 ∷ []) ∷ (22 ∷ 23 ∷ 24 ∷ []) ∷ []

saved : cut_rows 2 (last_rows 6 (common ++ earlier)) ≡ some (7 ∷ 8 ∷ 9 ∷ 10 ∷ [])
unfolding cut_rows
saved = refl

resumed-windows_example :
    (merge_windows 10
        (windows_at 3 (common ++ earlier) (boundaries 2 0 12))
        (feed_all 2 3 6 further (seed_kv 6 (7 ∷ 8 ∷ 9 ∷ 10 ∷ []) 10 (new_kv ℕ))).snaps
      ≡ windows_at 3 (common ++ joined further) (boundaries 2 0 14))
    × (window_end 3 (feed_all 2 3 6 further (seed_kv 6 (7 ∷ 8 ∷ 9 ∷ 10 ∷ []) 10 (new_kv ℕ))).tail
        ≡ some (22 ∷ 23 ∷ 24 ∷ []))
    × ((feed_all 2 3 6 further (seed_kv 6 (7 ∷ 8 ∷ 9 ∷ 10 ∷ []) 10 (new_kv ℕ))).gaps ≡ [])
resumed-windows_example =
    resumed-windows 2 3 6 (omega arith) common earlier further (7 ∷ 8 ∷ 9 ∷ 10 ∷ []) (omega arith)
      (omega arith) (omega arith) saved

resumed-pooled_example :
    (t : PoolState ℕ ℕ) × (feed_each ops 2 4 8 further
        (seed_pool 4 8 (some (last_rows 8 common)) 10 (new_pool ℕ ℕ))
      ≡ some t)
    × (merge_pooled 10 4 (some (whole ops 4 (common ++ earlier))) (cat_pooled t.pooled)
        ≡ some (whole ops 4 (common ++ joined further)))
    × (t.gaps ≡ [])
resumed-pooled_example =
    resumed-pooled ops 2 4 8 (omega arith) common earlier further 8 (omega arith)

abbrev state_at : ℕ → ℕ → Meta
state_at T at = record { T = T; keep_extra = 256; saved_at = at; stamp = T }

abbrev states : List Meta
states = state_at 900 7 ∷ state_at 600 4 ∷ state_at 610 4 ∷ []

takes_newest : best_state 500 none states ≡ some (state_at 610 4)
unfolding best_state
takes_newest = refl

best_state-IsChosen_example :
    ((none_covers 500 states ≡ true) × (best_state 500 none states ≡ none))
    ⊎ ((m : Meta) × (best_state 500 none states ≡ some m)
        × (covers 500 m ≡ true)
        × (m.T ≤ 500 + m.keep_extra)
        × (500 ≤ m.T)
        × (none_newer 500 m states ≡ true))
best_state-IsChosen_example = best_state-IsChosen 500 states
