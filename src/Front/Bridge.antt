-- ===== src/Front/Bridge.antt =====
-- `bridge`, `bridge_via_main`, the main loop and `do_POST`: which path a request takes, and that it is answered.
pub mod Replies
use pd_bridge.Prelude.{
  ℕ, zero, suc, ◌+◌, ◌-◌, Bool, true, false, not, ◌||◌, ◌&&◌, Option, none, some, List, [], ◌∷◌,
  ◌++◌, map, ltb, leb, ◌==◌, if◌then◌else◌,
}

pub data Mode : Type 0 where
  hidden pooled kv : Mode

pub data TransportKind : Type 0 where
  tcp10 rdma rdma2 rdma4 : TransportKind

-- `PD_MODE`, `PD_TRANSPORT`, `PD_STREAM`, `PD_IGNORE_CACHED`, `PD_MIN_TOKENS`, `PD_MIN_TAIL`
pub record Config : Type 0 where
  pub mode : Mode
  pub transport : TransportKind
  pub stream : Bool
  pub ignore_cached : Bool
  pub min_tokens : ℕ
  pub min_tail : ℕ

pub data Way : Type 0 where
  short warm kv_stream_path kv_path stream_path pooled_path pipelined_path : Way

abbrev pub is_pushed : TransportKind → Bool
is_pushed tcp10 = false
is_pushed rdma = false
is_pushed rdma2 = true
is_pushed rdma4 = true

-- the tests behind the one for a short prompt; `tail` is what the decoder does not hold yet
unfoldable pub way_of : Config → ℕ → ℕ → Way
way_of c cached tail = elim c.mode [
  | kv ↦
      if not c.ignore_cached && leb c.min_tail tail
      then if is_pushed c.transport then kv_stream_path else kv_path
      else if not c.ignore_cached
      then warm
      else pipelined_path
  | pooled ↦
      if not c.ignore_cached && ltb tail c.min_tail
      then warm
      else if c.stream
      then stream_path
      else pooled_path
  | hidden ↦ if not c.ignore_cached && ltb 0 cached then warm else pipelined_path
]

-- `bridge` on a prompt of so many tokens; the cached ones are a prefix of them
unfoldable pub bridge : Config → ℕ → ℕ → Way
unfolding way_of
bridge c tokens cached =
    if ltb tokens c.min_tokens then short else way_of c cached (tokens - cached)

-- How a call of `bridge` ends for the thread that waits for it.
pub data Outcome (I E : Type 0) : Type 0 where
  result : I → Outcome I E
  error : E → Outcome I E

-- `bridge_via_main`: what the main thread left in the box, if it was done in time
unfoldable pub bridge_via_main : {I E : Type 0} → E → Option (Outcome I E) → Outcome I E
bridge_via_main timed_out none = error timed_out
bridge_via_main timed_out (some outcome) = outcome

-- the main loop: each request of the queue is run, and its box is filled with a result or an error
unfoldable pub main_loop : {R I E : Type 0} → (R → Outcome I E) → List R → List (Outcome I E)
main_loop run [] = []
main_loop run (r ∷ requests) = run r ∷ main_loop run requests

-- The dictionary `info`.
pub data Info (I E : Type 0) : Type 0 where
  no_info : Info I E
  bridge_info : I → Info I E
  bridge_error : E → Info I E

-- A request to the front door: whether its `Content-Length` is a number, and whether its body parses.
pub record Post : Type 0 where
  pub has_length : Bool
  pub is_chat : Bool
  pub is_json : Bool
  pub bridge_only : Bool
  pub raw : List ℕ

-- The decoder's reply, an HTTP error included, with the chunks in which it is read.
pub record Reply : Type 0 where
  pub status : ℕ
  pub chunks : List (List ℕ)

pub data Answer (I E : Type 0) : Type 0 where
  no_answer : Answer I E
  report : Info I E → Answer I E
  forwarded : Info I E → ℕ → List ℕ → Answer I E

-- what is written, chunk by chunk, up to the first empty one
unfoldable pub relay : List (List ℕ) → List ℕ
relay [] = []
relay ([] ∷ chunks) = []
relay ((b ∷ bs) ∷ chunks) = (b ∷ bs) ++ relay chunks

module _ {I E : Type 0} where
  abbrev pub info_of : Outcome I E → Info I E
  info_of (result i) = bridge_info i
  info_of (error e) = bridge_error e

  -- the forward to the decoder, `none` where it is not reached
  unfoldable pub forward : Info I E → Option Reply → Answer I E
  unfolding relay
  forward info none = no_answer
  forward info (some r) = forwarded info r.status (relay r.chunks)

  -- `do_POST`, without what fails while the connection is read or written. `int` raises on a `Content-Length` that is no number,
  -- and the time of the bridge is taken from `t`, which a body that does not parse leaves without a value.
  unfoldable pub do_post : Post → Outcome I E → Option Reply → Answer I E
  unfolding forward
  do_post p outcome reply =
      let info = if p.is_chat then info_of outcome else no_info in
      if not p.has_length || (p.is_chat && not p.is_json)
      then no_answer
      else if p.bridge_only
      then report info
      else forward info reply
