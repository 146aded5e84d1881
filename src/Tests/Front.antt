-- ===== src/Tests/Front.antt =====
-- The front door on small captures: a fragment of a capture, a salvage, blocks on disk, and two requests.
use pd_bridge.Prelude.{
  get_elem?, take, ℕ, ◌*◌, ◌/◌, ◌≡◌, refl, Bool, true, false, some, none, List, [], ◌∷◌, replicate,
  arith,
}
use pd_bridge.Front.{Settings, running, returned}
use pd_bridge.Front.Manifests.{Manifest, over_deadline, complete, salvage, Assembled, stored}
use pd_bridge.Front.Pooled.{Dir, Poll, Waiting, poll_all, choose_capture, take_capture}
use pd_bridge.Front.Pooled.Ends.{is_over, poll_all-grace}
use pd_bridge.Front.Pooled.Sound.{OfChoice, choose_capture-OfChoice}
use pd_bridge.Front.Kv.{Look, not_sealed, look_all, prefill_kv_stream}
use pd_bridge.Front.Kv.Ends.{has_ended, look_all-grace}
use pd_bridge.Front.Kv.Landed.{prefill_kv_stream-complete}
use pd_bridge.Hook.Boundaries.{boundaries}
use pd_bridge.Front.Pipelined.{Pipe, Landing, begin, rounds}
use pd_bridge.Front.Pipelined.Tiles.{fed, rounds-whole}
use pd_bridge.Front.Bridge.{
  kv, tcp10, Config, pipelined_path, bridge, Outcome, error, bridge_error, Post, do_post, no_answer,
  forwarded,
}

abbrev settings : Settings
settings = record { grace = 45; stamp_timeout = 300; tok_rate = 7; min_coverage = 5000; block = 4 }

abbrev man : ℕ → Manifest
man n = record {
  T = some n;
  prompt_len = some n;
  partial_start = none;
  has_gaps = false;
  is_omlx = true;
  tail_rows = some 0;
}

abbrev dirs : List Dir
dirs = record { stamp = 3; sealed = some (man 6) } ∷ record { stamp = 5; sealed = none } ∷ []

abbrev at_work : ℕ → Poll
at_work now = record { dirs = dirs; engine = running; now = now }

abbrev done_at : ℕ → Poll
done_at now = record { dirs = dirs; engine = returned; now = now }

abbrev nothing_yet : Waiting
nothing_yet = record { scanned = []; t_eng_done = none }

abbrev polls : List Poll
polls = at_work 1 ∷ done_at 2 ∷ done_at 60 ∷ []

-- the six rows of a capture that was ended too early are enough of ten
salvages :
    choose_capture settings 10 (poll_all settings 10 polls nothing_yet) ≡ take_capture 3 (salvage 6)
unfolding poll_all choose_capture
salvages = refl

-- what is said of the sealed directories
abbrev IsSix : ℕ → Manifest → Type 0
IsSix s m = (s ≡ 3) × (m.T ≡ some 6)

choose_capture-OfChoice_example :
    OfChoice 10 IsSix settings (choose_capture settings 10 (poll_all settings 10 polls nothing_yet))
choose_capture-OfChoice_example = choose_capture-OfChoice 10 IsSix settings polls (omega arith) (
  ((refl, refl), (omega arith, omega arith)),
  (
    ((refl, refl), (omega arith, omega arith)),
    (((refl, refl), (omega arith, omega arith)), omega arith),
  ),
)

late : over_deadline settings 10 400 ≡ true
unfolding over_deadline
late = refl

poll_all-grace_example : is_over (poll_all settings 10 polls nothing_yet) ≡ true
poll_all-grace_example =
    poll_all-grace settings 10 (at_work 1 ∷ []) [] [] (done_at 2) (done_at 60) nothing_yet refl
      (refl, omega arith) refl refl (omega arith)

abbrev look_at : ℕ → Look
look_at now = record { listed = true; seal = not_sealed; engine = returned; now = now }

look_all-grace_example :
    has_ended (look_all settings true (look_at 2 ∷ look_at 30 ∷ look_at 60 ∷ []) none) ≡ true
look_all-grace_example =
    look_all-grace settings true [] (look_at 30 ∷ []) [] (look_at 2) (look_at 60) (omega arith) refl
      (omega arith)

abbrev rounded : ℕ → ℕ → ℕ
rounded B T = B * 10000 / T

abbrev assembled : Assembled
assembled = record { paths = 0; B = 0; coverage = 0 }

two_blocks :
    prefill_kv_stream rounded settings 10 true (man 10) (some (true ∷ true ∷ [])) assembled
    ≡ stored complete
unfolding prefill_kv_stream
two_blocks = refl

prefill_kv_stream-complete_example :
    ((man 10).prompt_len ≡ some 10) × ((true ≡ true) × (true ∷ true ∷ [] ≡ replicate (10 / 4) true))
prefill_kv_stream-complete_example =
    prefill_kv_stream-complete rounded settings (omega arith) 10 (man 10) assembled
      (true ∷ true ∷ []) refl two_blocks

abbrev config : Config
config = record {
  mode = kv;
  transport = tcp10;
  stream = false;
  ignore_cached = true;
  min_tokens = 4;
  min_tail = 8;
}

-- with the cached prefix ignored, the kv mode takes the path of the hidden states
falls_through : bridge config 10 0 ≡ pipelined_path
unfolding bridge
falls_through = refl

abbrev post : Bool → Post
post parses = record {
  has_length = true;
  is_chat = true;
  is_json = parses;
  bridge_only = false;
  raw = 123 ∷ [];
}

abbrev failed_bridge : Outcome ℕ ℕ
failed_bridge = error 7

-- the reply is forwarded though the bridge has failed
forwards :
    do_post
      (post true)
      failed_bridge
      (some (record { status = 200; chunks = (1 ∷ 2 ∷ []) ∷ (3 ∷ []) ∷ [] ∷ [] }))
    ≡ forwarded (bridge_error 7) 200 (1 ∷ 2 ∷ 3 ∷ [])
unfolding do_post
forwards = refl

-- a chat completion that does not parse is left without an answer
unanswered :
    do_post (post false) failed_bridge (some (record { status = 200; chunks = [] })) ≡ no_answer
unfolding do_post
unanswered = refl

-- five rows in chunks of two, of two layers, the second one late
abbrev landings : List Landing
landings =
    record { sizes = 5 ∷ 3 ∷ []; has_failed = false }
    ∷ record { sizes = 5 ∷ 6 ∷ []; has_failed = true }
    ∷ []

abbrev files : List (List ℕ)
files = (7 ∷ 8 ∷ 9 ∷ 10 ∷ 11 ∷ []) ∷ (27 ∷ 28 ∷ 29 ∷ 30 ∷ 31 ∷ 32 ∷ []) ∷ []

abbrev rebuilt : Pipe ℕ
rebuilt = record {
  layers =
      record { file = 7 ∷ 8 ∷ 9 ∷ 10 ∷ 11 ∷ []; pulled = 5; rows = 7 ∷ 8 ∷ 9 ∷ 10 ∷ 11 ∷ [] }
      ∷ record {
        file = 27 ∷ 28 ∷ 29 ∷ 30 ∷ 31 ∷ 32 ∷ [];
        pulled = 5;
        rows = 27 ∷ 28 ∷ 29 ∷ 30 ∷ 31 ∷ [];
      }
      ∷ [];
  next_k = 3;
  updates =
      record { first = 0; last = 2; parts = (7 ∷ 8 ∷ []) ∷ (27 ∷ 28 ∷ []) ∷ [] }
      ∷ record { first = 2; last = 4; parts = (9 ∷ 10 ∷ []) ∷ (29 ∷ 30 ∷ []) ∷ [] }
      ∷ record { first = 4; last = 5; parts = (11 ∷ []) ∷ (31 ∷ []) ∷ [] }
      ∷ [];
  snapshots = 2 ∷ 4 ∷ [];
}

runs : rounds 5 2 landings (begin files) ≡ some rebuilt
unfolding rounds
runs = refl

rounds-whole_example :
    ((i : ℕ) (xs : List ℕ) → get_elem? files i ≡ some xs → fed i rebuilt.updates ≡ take 5 xs)
    × (rebuilt.snapshots ≡ boundaries 2 0 5)
rounds-whole_example =
    rounds-whole 5 2 (omega arith) files landings rebuilt (omega arith) runs (omega arith)
