-- ===== src/Tests/Decoder.antt =====
-- A stage of two blocks of two rows for one layer, a tail of one row, and a restore with spare rows.
use pd_bridge.Prelude.{
  ℕ, ◌+◌, ◌≡◌, refl, true, Option, none, some, List, [], ◌∷◌, ◌++◌, arith, length, take, replicate,
  joined, ◌&&◌, ◌==◌, if◌then◌else◌, length-append, length-take, take_of_length-le,
}
use pd_bridge.Decoder.{
  cap_of, Stage, BlockLanding, landed, new_stage, run_stage, KvCache, starts_with, is_for,
  staged_restore,
}
use pd_bridge.Decoder.Staged.{concat_from}
use pd_bridge.Decoder.Landings.{fitting}
use pd_bridge.Decoder.Handed.{rows_of, staged_restore-rows}
use pd_bridge.Decoder.Tail.{Request, all_end_at, has_room, install_tail}
use pd_bridge.Decoder.Tail.Whole.{Appends, IsInstalled, tail_of, install_tail-IsInstalled}
use pd_bridge.Decoder.Reserve.{
  reconstruct_cache, concatenate_states, all_present, IsReserved, reconstruct_cache-IsReserved,
}

abbrev announced : List ℕ
announced = 11 ∷ 12 ∷ []

abbrev landings : List (BlockLanding ℕ)
landings =
    landed (some (1 ∷ 2 ∷ []) ∷ some (5 ∷ 6 ∷ []) ∷ [])
    ∷ landed (some (3 ∷ 4 ∷ []) ∷ some (7 ∷ 8 ∷ []) ∷ [])
    ∷ []

abbrev stage : Stage ℕ
stage = new_stage 0 announced 1 2 1 0

abbrev waited : Stage ℕ → Stage ℕ
waited e = run_stage landings stage

fits_announced : is_for announced stage ≡ true
unfolding starts_with
fits_announced = refl

staged_restore-rows_example :
    (caches : List (KvCache ℕ)) × ((staged_restore waited announced (stage ∷ []) (stage ∷ [])).0
      ≡ some caches)
    × (rows_of caches ≡ concat_from (replicate 2 []) (take 2 (fitting landings)))
staged_restore-rows_example =
    staged_restore-rows 0 announced 1 2 1 0 landings waited announced stage [] (stage ∷ [])
      (omega arith) (omega arith) (omega arith) refl fits_announced (omega arith)

restores :
    (staged_restore waited announced (stage ∷ []) (stage ∷ [])).0
    ≡ some (
        record {
          buf_keys = 1 ∷ 2 ∷ 3 ∷ 4 ∷ 0 ∷ 0 ∷ [];
          buf_values = 5 ∷ 6 ∷ 7 ∷ 8 ∷ 0 ∷ 0 ∷ [];
          offset = 4;
        }
        ∷ [])
unfolding staged_restore run_stage cap_of
restores = refl

-- rows are appended behind those that count
abbrev update : KvCache ℕ → List ℕ → List ℕ → Option (KvCache ℕ)
update c k v = some (record {
  buf_keys = take c.offset c.buf_keys ++ k;
  buf_values = take c.offset c.buf_values ++ v;
  offset = c.offset + length k;
})

update-Appends : Appends update
update-Appends = record {
  appends = λ c k v same. (
    record {
      buf_keys = take c.offset c.buf_keys ++ k;
      buf_values = take c.offset c.buf_values ++ v;
      offset = c.offset + length k;
    },
    refl,
    refl,
    take_of_length-le (c.offset + length k) (take c.offset c.buf_keys ++ k) (
        omega (arith, length-append (take c.offset c.buf_keys) k, length-take c.offset c.buf_keys)),
    take_of_length-le (c.offset + length k) (take c.offset c.buf_values ++ v) (
        omega (
          arith,
          same,
          length-append (take c.offset c.buf_values) v,
          length-take c.offset c.buf_values,
        )),
  );
}

abbrev restored : Request ℕ
restored = record {
  prompt = 21 ∷ 22 ∷ 23 ∷ 24 ∷ [];
  cache = record { buf_keys = 1 ∷ 2 ∷ 0 ∷ []; buf_values = 5 ∷ 6 ∷ 0 ∷ []; offset = 2 } ∷ [];
  cached_tokens = 2;
  remaining = 23 ∷ 24 ∷ [];
}

installs :
    (install_tail update (some ((3 ∷ [], 7 ∷ []) ∷ [])) restored).cache
    ≡ record { buf_keys = 1 ∷ 2 ∷ 3 ∷ []; buf_values = 5 ∷ 6 ∷ 7 ∷ []; offset = 3 } ∷ []
unfolding install_tail
installs = refl

abbrev all_rows : List (List ℕ × List ℕ)
all_rows = (1 ∷ 2 ∷ 3 ∷ 4 ∷ [], 5 ∷ 6 ∷ 7 ∷ 8 ∷ []) ∷ []

install_tail-IsInstalled_example :
    IsInstalled all_rows restored (install_tail update (some (tail_of 2 3 all_rows)) restored)
install_tail-IsInstalled_example =
    install_tail-IsInstalled update update-Appends (1 ∷ 2 ∷ 3 ∷ 4 ∷ []) (5 ∷ 6 ∷ 7 ∷ 8 ∷ []) []
      restored (refl, refl, omega arith) (refl, refl, refl, omega arith) (omega arith) refl

-- an append that does not take the row 9
abbrev update_some : KvCache ℕ → List ℕ → List ℕ → Option (KvCache ℕ)
update_some c [] v = none
update_some c (x ∷ k) v = if x == 9 then none else update c (x ∷ k) v

abbrev one_layer : ℕ → KvCache ℕ
one_layer x = record { buf_keys = x ∷ []; buf_values = x ∷ []; offset = 1 }

ends :
    (has_room {R = ℕ} 1 2 (record {
      prompt = 21 ∷ 22 ∷ 23 ∷ [];
      cache = one_layer 1 ∷ one_layer 2 ∷ [];
      cached_tokens = 1;
      remaining = 22 ∷ 23 ∷ [];
    })
      && all_end_at 1 (one_layer 1 ∷ one_layer 2 ∷ []))
    ≡ true
unfolding all_end_at
ends = refl

abbrev two_layers : Request ℕ
two_layers = record {
  prompt = 21 ∷ 22 ∷ 23 ∷ [];
  cache = one_layer 1 ∷ one_layer 2 ∷ [];
  cached_tokens = 1;
  remaining = 22 ∷ 23 ∷ [];
}

abbrev two_tails : List (List ℕ × List ℕ)
two_tails = (3 ∷ [], 4 ∷ []) ∷ (9 ∷ [], 9 ∷ []) ∷ []

-- the first layer has taken its row and the second one has not
partial : install_tail update_some (some two_tails) two_layers ≡ record {
  prompt = 21 ∷ 22 ∷ 23 ∷ [];
  cache = record { buf_keys = 1 ∷ 3 ∷ []; buf_values = 1 ∷ 4 ∷ []; offset = 2 } ∷ one_layer 2 ∷ [];
  cached_tokens = 1;
  remaining = 22 ∷ 23 ∷ [];
}
unfolding install_tail
partial = refl

reconstruct_cache-IsReserved_example :
    IsReserved {R = ℕ} 3
      (joined ((1 ∷ 2 ∷ []) ∷ (3 ∷ []) ∷ []))
      (joined ((5 ∷ 6 ∷ []) ∷ (7 ∷ []) ∷ []))
      (reconstruct_cache (
        concatenate_states 3 0
          (all_present ((1 ∷ 2 ∷ []) ∷ (3 ∷ []) ∷ []))
          (all_present ((5 ∷ 6 ∷ []) ∷ (7 ∷ []) ∷ []))
          (record { keys = []; values = []; pd_offset = none })))
reconstruct_cache-IsReserved_example =
    reconstruct_cache-IsReserved 3 0 (1 ∷ 2 ∷ []) (5 ∷ 6 ∷ []) ((3 ∷ []) ∷ []) ((7 ∷ []) ∷ [])
      (record { keys = []; values = []; pd_offset = none }) refl
