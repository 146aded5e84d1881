-- ===== src/Tests/Worker.antt =====
-- Tags, and a step with chunks of one tag while another is captured.
use pd_bridge.Prelude.{ℕ, ◌≡◌, ◌↔◌, refl, Bool, true, false, none, some, List, [], ◌∷◌, length}
use pd_bridge.Connector.Tags.{is_tag, is_tag_char}
use pd_bridge.Connector.Tags.Words.{IsWord, is_tag_iff}
use pd_bridge.Connector.Capture.{Geometry}
use pd_bridge.Connector.Cut.{new_capture}
use pd_bridge.Connector.Layout.{Row}
use pd_bridge.Connector.Scheduler.{Chunk}
use pd_bridge.Connector.Worker.{Worker, Arrival, wait_for_save}

is_tag_iff_example :
    (is_tag (b'a' ∷ 10 ∷ []) ≡ true) ↔ ((is_tag_char b'a' ≡ true) × IsWord is_tag_char 63 (10 ∷ []))
is_tag_iff_example = is_tag_iff b'a' (10 ∷ [])

abbrev geometry : Geometry
geometry = record { layers = 1; heads = 1; head_dim = 1; omlx_block = 2; rdma_async = true }

abbrev chunk : List ℕ → Bool → Chunk
chunk tag last = record {
  tag = tag;
  prompt_len = 2;
  start = 0;
  slots = 8 ∷ 9 ∷ [];
  last = last;
  omlx_model = none;
  hashes = none;
}

abbrev row : ℕ → Row ℕ
row n s h d = n

-- one chunk with its rows, and one whose layer was never saved
abbrev arrivals : List (Arrival ℕ)
arrivals =
    record {
      chunk = chunk (b'a' ∷ []) true;
      rows = some (some (row 8 ∷ row 9 ∷ []) ∷ []);
      tx = true;
      rounds = [];
    }
    ∷ record { chunk = chunk (b'c' ∷ []) false; rows = some (none ∷ []); tx = true; rounds = [] }
    ∷ []

abbrev worker : Worker ℕ
worker = record {
  caps =
      (b'a' ∷ [], new_capture true (chunk (b'a' ∷ []) false))
      ∷ (b'b' ∷ [], new_capture true (chunk (b'b' ∷ []) false))
      ∷ [];
  finishing = [];
}

-- the first capture goes on to be finished, and the one whose layer is missing is dropped
steps : length (wait_for_save geometry arrivals worker).caps ≡ 1
unfolding wait_for_save
steps = refl
