-- ===== src/Segments/Rows.antt =====
-- What a segment takes from the layers, and what it leaves.
use mathlib.Core.Option as Option
use pd_bridge.Prelude.{
  ℕ, ◌≡◌, refl, ap, ◌∙◌, Bool, true, false, ◌&&◌, none, some, List, [], ◌∷◌, Bool-cases, inl, inr,
  ◌⊎◌, find, pop, map,
}
use pd_bridge.Segments.{
  SegLayer, LayerPart, is_there, is_ready, all_ready, take_idx, take_layer, and_others, take_layers,
  release, write_segment, emit_segment,
}
use pd_bridge.Segments.Pools.{both, Ships, is_behind, take_part-Ships}

module _ {V A P : Type 0} where
  -- a layer with its part of the segment of boundary `b`
  pub record LayerShips (b : ℕ) (l : SegLayer V A P) (p : LayerPart V A P) (l' : SegLayer V A P)
      : Type 0 where
    pub kvwin_eq : p.kvwin ≡ find b l.snaps
    pub main : Ships b l.main p.main l'.main
    pub idx : Ships b l.idx p.idx l'.idx
    pub snaps_eq : l'.snaps ≡ pop b l.snaps
    pub next_eq : l'.next_pos ≡ l.next_pos

  -- all layers, one after the other
  pub data AllShip (b : ℕ)
      : List (SegLayer V A P) → List (LayerPart V A P) → List (SegLayer V A P) → Type 0 where
    nothing : AllShip b [] [] []
    each :
        {l l' : SegLayer V A P} {p : LayerPart V A P} {ls ls' : List (SegLayer V A P)}
        {ps : List (LayerPart V A P)}
        → LayerShips b l p l'
        → AllShip b ls ps ls'
        → AllShip b (l ∷ ls) (p ∷ ps) (l' ∷ ls')

  abbrev pub all_behind : ℕ → List (SegLayer V A P) → Bool
  all_behind b [] = true
  all_behind b (l ∷ ls) = (is_behind b l.main && is_behind b l.idx) && all_behind b ls

  layer_ships :
      (b : ℕ) (l : SegLayer V A P)
      → (is_ready b l.main && is_ready b l.idx) ≡ true
      → (is_behind b l.main && is_behind b l.idx) ≡ true
      → (p : LayerPart V A P) × (l' : SegLayer V A P) × (take_layer b l ≡ (l', some p))
        × LayerShips b l p (release b l')
  layer_ships b l ready behind =
      let (ready_main, ready_idx) = both (is_ready b l.main) (is_ready b l.idx) ready in
      let (behind_main, behind_idx) = both (is_behind b l.main) (is_behind b l.idx) behind in
      let (main, pool, run, ships) = take_part-Ships b l.main ready_main behind_main in
      let (idx, pool', run', ships') = take_part-Ships b l.idx ready_idx behind_idx in
      (
        record { kvwin = find b l.snaps; main = main; idx = idx },
        record l { main = pool; idx = pool' },
        ap (λ r. take_idx b (record l { main = r.0 }) r.1) run
            ∙ ap
                (λ r. (
                  record l { main = pool; idx = r.0 },
                  Option.map (λ i. record { kvwin = find b l.snaps; main = main; idx = i }) r.1,
                ))
                run',
        record { kvwin_eq = refl; main = ships; idx = ships'; snaps_eq = refl; next_eq = refl },
      )

  layers_ship :
      (b : ℕ) (ls : List (SegLayer V A P))
      → all_ready b ls ≡ true
      → all_behind b ls ≡ true
      → (ps : List (LayerPart V A P)) × (ls' : List (SegLayer V A P)) × (take_layers b ls
          ≡ (ls', some ps))
        × AllShip b ls ps (map (release b) ls')
  layers_ship b [] ready behind = ([], [], refl, nothing)
  layers_ship b (l ∷ ls) ready behind =
      let (here, others) =
        both (is_there (find b l.snaps) && (is_ready b l.main && is_ready b l.idx)) (all_ready b ls)
          ready in
      let (window, pools) =
        both (is_there (find b l.snaps)) (is_ready b l.main && is_ready b l.idx) here in
      let (behind_here, behind_others) =
        both (is_behind b l.main && is_behind b l.idx) (all_behind b ls) behind in
      let (p, l', run, ships) = layer_ships b l pools behind_here in
      let (ps, ls', run', all) = layers_ship b ls others behind_others in
      (
        p ∷ ps,
        l' ∷ ls',
        ap (λ r. and_others ls r (take_layers b ls)) run ∙ ap (and_others ls (l', some p)) run',
        each ships all,
      )

  -- For a boundary behind all rows that pools have shipped: if a window or a pooled row of any layer is missing, there is no
  -- segment and all layers are as they were; else, if the file can be written, the segment has each layer's windows at the
  -- boundary and the pooled rows from the last shipped one up to it, which together with the rows that are left are those
  -- that were held, in order, and the windows are released.
  pub emit_segment-AllShip :
      (b : ℕ) (ls : List (SegLayer V A P))
      → all_behind b ls ≡ true
      → ((all_ready b ls ≡ false) × ((wrote : Bool) → emit_segment b wrote ls ≡ (ls, none)))
        ⊎ ((seg : List (LayerPart V A P)) × (ls' : List (SegLayer V A P)) × (all_ready b ls ≡ true)
            × (emit_segment b true ls ≡ (ls', some seg))
            × AllShip b ls seg ls')
  unfolding emit_segment
  emit_segment-AllShip b ls behind = elim (Bool-cases (all_ready b ls)) [
    | inl ready ↦
        let (ps, ls', run, all) = layers_ship b ls ready behind in
        inr (ps, map (release b) ls', ready, rw ready (ap (write_segment b true) run), all)
    | inr missing ↦ inl (missing, λ wrote. rw missing refl)
  ]
