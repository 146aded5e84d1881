-- ===== src/Tests/Hook.antt =====
-- Eight rows of two layers in two chunks, with numbers in place of tensors, and ticks of two watchers.
use pd_bridge.Prelude.{
  joined, ℕ, zero, suc, ◌+◌, ◌*◌, ◌<◌, ◌≤◌, ◌≡◌, refl, ap, inl, inr, Bool, true, false, Option,
  some, none, List, [], ◌∷◌, ◌++◌, map, length, arith,
}
use pd_bridge.Hook.Windows.{new_kv}
use pd_bridge.Hook.Pools.{PoolState, new_pool, feed_each, export_pool}
use pd_bridge.Hook.Pools.Whole.{PoolHolds, feed_each-whole}
use pd_bridge.Hook.Pools.Export.{IsExport, export_pool-IsExport}
use pd_bridge.Hook.Finish.{Req, new_req, flush_now, Finished}
use pd_bridge.Hook.Ingest.{Item, no_captures, Settings, layer_chunk, flush, worker, ingest}
use pd_bridge.Hook.Ingest.Tables.{rows_for, kv_rows, main_rows, idx_rows}
use pd_bridge.Hook.Ingest.Whole.{Fixed, Follows, InOrder}
use pd_bridge.Hook.Ingest.Complete.{IsEven, IsWhole, worker-IsWhole}
use pd_bridge.Hook.Ingest.Partial.{ingest-partial}
use pd_bridge.Hook.Flush.{Tick, no_decision, is_settled, flush_decision, watch}
use pd_bridge.Hook.Flush.Signal.{flush_decision-IsDue, watch-fires, IsQuiet, IsDue}
use pd_bridge.Hook.Record.{project_all}
use pd_bridge.Hook.Record.Pieces.{row_wise, project_all-row_wise}
use pd_bridge.Tests.Pool.{ops}

abbrev first : List ℕ
first = 1 ∷ 2 ∷ 3 ∷ 4 ∷ 5 ∷ []

abbrev second : List ℕ
second = 6 ∷ 7 ∷ 8 ∷ []

abbrev chunks : List (List ℕ)
chunks = first ∷ second ∷ []

four_pos : 0 < 4
four_pos = omega arith

feed_each-whole_example :
    (t : PoolState ℕ ℕ) × ((feed_each ops 4 4 7 chunks (new_pool ℕ ℕ) ≡ some t)
      × PoolHolds ops 4 4 7 four_pos (joined chunks) t)
feed_each-whole_example = feed_each-whole ops 4 4 7 four_pos (omega arith) (omega arith) chunks

fed :
    (t : PoolState ℕ ℕ) × ((feed_each ops 4 4 7 chunks (new_pool ℕ ℕ) ≡ some t)
      × PoolHolds ops 4 4 7 four_pos (joined chunks) t)
fed = feed_each-whole ops 4 4 7 four_pos (omega arith) (omega arith) chunks

export_pool-IsExport_example : IsExport ops 4 4 7 four_pos (joined chunks) (export_pool 4 8 fed.0)
export_pool-IsExport_example =
    export_pool-IsExport ops 4 4 7 four_pos (joined chunks) fed.0 (omega arith) (omega arith)
      fed.1.1

-- layer 0 has windows only, layer 1 has two pools of ratio 4
abbrev ratios : ℕ → ℕ
ratios zero = 0
ratios (suc li) = 4

abbrev item : ℕ → List ℕ → Option (List ℕ) → ℕ → Item ℕ ℕ
item li rows scores start = record {
  li = li;
  ratio = ratios li;
  kv_pre = rows;
  kv_score = scores;
  idx = scores;
  start = start;
  at = 10 + start;
}

abbrev begin : Item ℕ ℕ
begin = item 0 first none 0

abbrev others : List (Item ℕ ℕ)
others = item 1 first (some first) 0 ∷ item 0 second none 5 ∷ item 1 second (some second) 5 ∷ []

abbrev settings : Settings
settings = record { block = 4; win = 3; keep = 7; min_T = 2 }

fixed : Fixed settings
fixed = record { enough = omega arith; large = omega arith }

starts_here : Follows ratios [] begin
unfolding rows_for
starts_here = record {
  start_eq = refl;
  main_eq = λ rows h. absurd (cc h);
  idx_eq = λ rows h. absurd (cc h);
  has_ratio = λ rows h. absurd (cc h);
  ratio_eq = refl;
  not_again = λ e lt. absurd (omega (arith, lt));
}

goes_on_1 : Follows ratios (begin ∷ []) (item 1 first (some first) 0)
unfolding rows_for
goes_on_1 = record {
  start_eq = refl;
  main_eq = λ rows h. refl;
  idx_eq = λ rows h. refl;
  has_ratio = λ rows h. omega arith;
  ratio_eq = refl;
  not_again = λ e lt. absurd (omega (arith, e));
}

goes_on_2 : Follows ratios (begin ∷ item 1 first (some first) 0 ∷ []) (item 0 second none 5)
unfolding rows_for
goes_on_2 = record {
  start_eq = refl;
  main_eq = λ rows h. absurd (cc h);
  idx_eq = λ rows h. absurd (cc h);
  has_ratio = λ rows h. absurd (cc h);
  ratio_eq = refl;
  not_again = λ e lt. omega arith;
}

goes_on_3 :
    Follows ratios
      (begin ∷ item 1 first (some first) 0 ∷ item 0 second none 5 ∷ [])
      (item 1 second (some second) 5)
unfolding rows_for
goes_on_3 = record {
  start_eq = refl;
  main_eq = λ rows h. refl;
  idx_eq = λ rows h. refl;
  has_ratio = λ rows h. omega arith;
  ratio_eq = refl;
  not_again = λ e lt. omega arith;
}

in_order : InOrder ratios [] (begin ∷ others)
unfolding rows_for
in_order = (starts_here, (goes_on_1, (goes_on_2, (goes_on_3, refl))))

kv_even :
    (k : ℕ) → 0 < length (kv_rows k (begin ∷ others)) → length (kv_rows k (begin ∷ others)) ≡ 8
unfolding rows_for
kv_even zero h = refl
kv_even (suc zero) h = refl
kv_even (suc (suc k)) h =
    let no_rows : kv_rows (suc (suc k)) (begin ∷ others) ≡ [] = ground arith in
    absurd (omega (arith, ap length no_rows))

main_even :
    (k : ℕ) → 0 < length (main_rows k (begin ∷ others)) → length (main_rows k (begin ∷ others)) ≡ 8
unfolding rows_for
main_even zero h = absurd (omega arith)
main_even (suc zero) h = refl
main_even (suc (suc k)) h =
    let no_rows : main_rows (suc (suc k)) (begin ∷ others) ≡ [] = ground arith in
    absurd (omega (arith, ap length no_rows))

idx_even :
    (k : ℕ) → 0 < length (idx_rows k (begin ∷ others)) → length (idx_rows k (begin ∷ others)) ≡ 8
unfolding rows_for
idx_even = main_even

even : IsEven (begin ∷ others) 8 0
unfolding rows_for
even = record {
  kv_even = kv_even;
  main_even = main_even;
  idx_even = idx_even;
  some_rows = omega arith;
}

fits : (li : ℕ) → ratios li ≤ 7
fits zero = omega arith
fits (suc li) = omega arith

worker-IsWhole_example :
    (f : Finished ℕ ℕ ℕ) × ((worker
          (λ _. ops)
          (λ _. ops)
          settings
          (map layer_chunk (begin ∷ others) ++ (flush flush_now ∷ []))
          (no_captures ℕ ℕ ℕ)
        ≡ (record { req = none; done = f ∷ [] }, 0))
      × IsWhole (λ _. ops) (λ _. ops) ratios settings fixed (begin ∷ others) 8 flush_now f)
worker-IsWhole_example =
    worker-IsWhole (λ _. ops) (λ _. ops) ratios settings fixed fits (omega arith) begin others
      (no_captures ℕ ℕ ℕ) flush_now 8 0 refl in_order even (omega arith)

abbrev late : Item ℕ ℕ
late = item 2 second (some second) 4

ingest-partial_example :
    (r : Req ℕ ℕ ℕ) × ((ingest (λ _. ops) (λ _. ops) settings late (no_captures ℕ ℕ ℕ)
        ≡ (record { req = some r; done = [] }, false))
      × ((r.calls ≡ 0) × (r.partial_start ≡ some 4)))
ingest-partial_example =
    ingest-partial (λ _. ops) (λ _. ops) settings late second (no_captures ℕ ℕ ℕ) refl (omega arith)
      refl

-- The watcher of the owner, with two layers and two calls, before and after the device is done, and another one.
abbrev open_req : Req ℕ ℕ ℕ
open_req = record (new_req ℕ ℕ ℕ 10) { kv = (0, new_kv ℕ) ∷ (1, new_kv ℕ) ∷ []; calls = 2 }

abbrev tick : Option (Req ℕ ℕ ℕ) → Bool → ℕ → Tick ℕ ℕ ℕ
tick req busy now = record { req = req; now = now; gpu_busy = busy; q_empty = true }

settled : is_settled (tick (some open_req) false 13) open_req ≡ true
unfolding is_settled
settled = refl

unsettled : is_settled (tick (some open_req) true 11) open_req ≡ false
unfolding is_settled
unsettled = refl

fires : (flush_decision 15 (some 11) (tick (some open_req) false 13)).fire ≡ some flush_now
unfolding flush_decision
fires = refl

unlinks : (flush_decision 15 (some 9) (tick (some open_req) true 11)).unlink ≡ true
unfolding flush_decision
unlinks = refl

flush_decision-IsDue_example :
    (r : Req ℕ ℕ ℕ) × ((some open_req ≡ some r)
      × (IsQuiet (tick (some open_req) false 13) r
          × IsDue 15 (some 11) (tick (some open_req) false 13) r flush_now))
flush_decision-IsDue_example =
    flush_decision-IsDue 15 (some 11) (tick (some open_req) false 13) flush_now fires

watch-fires_example :
    watch 15
      (some 11)
      (tick none false 11 ∷ tick (some open_req) true 11 ∷ tick (some open_req) false 13 ∷ [])
    ≡ (no_decision ∷ no_decision ∷ record { fire = some flush_now; unlink = true } ∷ [], none)
unfolding watch
watch-fires_example =
    watch-fires 15 11 (tick none false 11 ∷ tick (some open_req) true 11 ∷ []) []
      (tick (some open_req) false 13) open_req
      (inl refl, (inr (open_req, (refl, (omega arith, unsettled))), omega arith)) refl (omega arith)
      settled

project_all-row_wise_example :
    project_all (row_wise (λ n. n + 1) (some (λ n. 2 * n)) none) 3 (joined chunks)
    ≡ row_wise (λ n. n + 1) (some (λ n. 2 * n)) none (joined chunks)
project_all-row_wise_example =
    project_all-row_wise (λ n. n + 1) (some (λ n. 2 * n)) none 3 (joined chunks)
