-- ===== src/Tests/Delivery.antt =====
-- A capture of five tokens with a decoder block of two: two chunks of three and two rows, sent over R2
-- by the sender thread.
use pd_bridge.Prelude.{ℕ, ◌≡◌, refl, Bool, true, false, none, some, List, [], ◌∷◌, arith, find}
use pd_bridge.Connector.Layout.{Col}
use pd_bridge.Connector.Tags.{text, none_value, tag_of}
use pd_bridge.Connector.Scheduler.{Chunk, Tracked, NewRequest, SchedulerOutput}
use pd_bridge.Connector.Scheduler.Steps.{Step, run_request, Emits, run_request-Emits}
use pd_bridge.Connector.Capture.{Geometry, Outcome, reply, sender_run}
use pd_bridge.Connector.Cut.{ingest}
use pd_bridge.Connector.Seal.{is_complete, finish_rdma}
use pd_bridge.Connector.Delivery.Sends.{blocks_from}
use pd_bridge.Connector.Delivery.Life.{Event, sends, step, life, on, born, accepted_rows}
use pd_bridge.Connector.Delivery.Complete.{
  HasAll, status, history, acked_prefix, complete_delivery, done_complete,
}

abbrev geometry : Geometry
geometry = record { layers = 1; heads = 1; head_dim = 1; omlx_block = 2; rdma_async = true }

abbrev col : ℕ → Col ℕ
col n l s h d = n

abbrev chunk : ℕ → List ℕ → Bool → Chunk
chunk start slots last = record {
  tag = b't' ∷ [];
  prompt_len = 5;
  start = start;
  slots = slots;
  last = last;
  omlx_model = none;
  hashes = none;
}

abbrev first_rows : List (Col ℕ)
first_rows = col 10 ∷ col 11 ∷ col 12 ∷ []

abbrev accepts : Outcome
accepts = reply 8 [] true

abbrev events : List (Event ℕ)
events =
    step true [] (chunk 3 (13 ∷ 14 ∷ []) true) (col 13 ∷ col 14 ∷ [])
    ∷ sends (accepts ∷ accepts ∷ [])
    ∷ []

abbrev first : Chunk
first = chunk 0 (10 ∷ 11 ∷ 12 ∷ []) false

ended : is_complete (history geometry true [] first first_rows events).0 ≡ true
unfolding is_complete life on born accepted_rows ingest sender_run
ended = refl

marker :
    status
      (finish_rdma geometry true none
        (some true)
        (some true)
        (history geometry true [] first first_rows events).0).1
    ≡ some true
unfolding status finish_rdma life on born accepted_rows ingest sender_run
marker = refl

acked_prefix_example :
    (history geometry true [] first first_rows events).0.acked
    ≡ blocks_from
        (history geometry true [] first first_rows events).0.transport
        (history geometry true [] first first_rows events).0.hashes
        2
        0
        (history geometry true [] first first_rows events).0.sent
        (history geometry true [] first first_rows events).1
acked_prefix_example = acked_prefix geometry true [] first first_rows events (omega arith)

complete_delivery_example : HasAll geometry (history geometry true [] first first_rows events)
complete_delivery_example =
    complete_delivery geometry true [] first first_rows events (omega arith) ended

done_complete_example : HasAll geometry (history geometry true [] first first_rows events)
done_complete_example =
    done_complete geometry true [] first first_rows events true none (some true) (some true)
      (omega arith) marker

-- a request of five tokens in pages of four slots, computed in steps of three and three tokens
abbrev request : NewRequest
request = record {
  req_id = 1;
  pd_tag = text (b't' ∷ []);
  omlx_model = none_value;
  omlx_block = none_value;
  prompt_token_ids = 1 ∷ 2 ∷ 3 ∷ 4 ∷ 5 ∷ [];
  block_ids = 7 ∷ [];
  num_computed_tokens = 0;
}

abbrev three_tokens : SchedulerOutput
three_tokens = record {
  new_reqs = [];
  cached_reqs = [];
  num_scheduled_tokens = (1, 3) ∷ [];
  finished_req_ids = [];
}

abbrev further : List Step
further =
    (
      three_tokens,
      record {
        req_id = 1;
        new_block_ids = some (9 ∷ []);
        resumed = false;
        num_computed_tokens = 3;
      },
    )
    ∷ []

abbrev tracked : Tracked
tracked = record {
  tag = b't' ∷ [];
  prompt_len = 5;
  blocks = 7 ∷ 9 ∷ [];
  omlx_model = none;
  hashes = none;
}

abbrev tiles : List Chunk
tiles = chunk 0 (28 ∷ 29 ∷ 30 ∷ []) false ∷ chunk 3 (31 ∷ 36 ∷ []) true ∷ []

tagged : tag_of request.pd_tag ≡ some (b't' ∷ [])
unfolding tag_of
tagged = refl

stepwise :
    run_request 4 2 (λ v. some 2) none ([], []) three_tokens request further
    ≡ some ((1, tracked) ∷ [], tiles)
unfolding run_request
stepwise = refl

run_request-Emits_example : Emits 4 2 (λ v. some 2) none (b't' ∷ []) 5 0 6 [] tiles
unfolding find
run_request-Emits_example =
    run_request-Emits 4 2 (λ v. some 2) none three_tokens request further (b't' ∷ []) []
      ((1, tracked) ∷ []) [] tiles tagged (refl, refl, omega arith) stepwise
