-- ===== src/Tests/Segments.antt =====
-- One layer whose pool of ratio 4 has three rows, and its segment at position 8 in blocks of eight rows.
use pd_bridge.Prelude.{
  ℕ, ◌≡◌, refl, Bool, true, false, some, none, List, [], ◌∷◌, map, ◌⊎◌, arith, find, pop,
}
use pd_bridge.Hook.Boundaries.{boundaries}
use pd_bridge.Segments.{
  SegPool, SegLayer, LayerPart, new_stream, midway, at_end, all_ready, emit_segment, take_pooled,
}
use pd_bridge.Segments.Rows.{AllShip, emit_segment-AllShip}
use pd_bridge.Segments.Order.{Move, feed, emit, run_moves, run_moves-boundaries}

abbrev pool : SegPool ℕ ℕ
pool = record {
  ratio = 4;
  shipped = 0;
  pooled = (101 ∷ []) ∷ (102 ∷ 103 ∷ []) ∷ [];
  prev = (8, 5 ∷ 6 ∷ 7 ∷ 8 ∷ []) ∷ [];
}

abbrev layers : List (SegLayer ℕ ℕ ℕ)
layers = record { snaps = (8, 7 ∷ 8 ∷ []) ∷ []; next_pos = 12; main = some pool; idx = none } ∷ []

ready : all_ready 8 layers ≡ true
unfolding find
ready = refl

emit_segment-AllShip_example :
    ((all_ready 8 layers ≡ false) × ((wrote : Bool) → emit_segment 8 wrote layers ≡ (layers, none)))
    ⊎ ((seg : List (LayerPart ℕ ℕ ℕ)) × (ls' : List (SegLayer ℕ ℕ ℕ)) × (all_ready 8 layers ≡ true)
        × (emit_segment 8 true layers ≡ (ls', some seg))
        × AllShip 8 layers seg ls')
emit_segment-AllShip_example = emit_segment-AllShip 8 layers refl

-- the rows up to position 8 and the window are gone where the file could not be written; the snapshot is still there
lost : emit_segment 8 false layers ≡ (
  record {
    snaps = (8, 7 ∷ 8 ∷ []) ∷ [];
    next_pos = 12;
    main = some (record { ratio = 4; shipped = 2; pooled = (103 ∷ []) ∷ []; prev = [] });
    idx = none;
  }
      ∷ [],
  none,
)
unfolding emit_segment find pop
lost = refl

-- more rows than there are
refuses : take_pooled 4 pool ≡ (pool, none)
unfolding take_pooled
refuses = refl

abbrev moves : List (Move ℕ ℕ ℕ)
moves = feed layers 1 ∷ emit (midway (some 1)) (λ b. true) ∷ emit (at_end 12) (λ b. true) ∷ []

ships_one : (run_moves 8 moves (new_stream ℕ ℕ ℕ false)).segments ≡ 8 ∷ []
unfolding run_moves find pop
ships_one = refl

run_moves-boundaries_example :
    ((run_moves 8 moves (new_stream ℕ ℕ ℕ false)).segments
      ≡ boundaries 8 0 (run_moves 8 moves (new_stream ℕ ℕ ℕ false)).emitted_b)
    × (map (λ f. f.0) (run_moves 8 moves (new_stream ℕ ℕ ℕ false)).files
        ≡ (run_moves 8 moves (new_stream ℕ ℕ ℕ false)).segments)
run_moves-boundaries_example = run_moves-boundaries 8 (omega arith) moves false
