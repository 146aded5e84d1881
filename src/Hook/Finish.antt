-- ===== src/Hook/Finish.antt =====
-- `_Req` and `_Capture._finish`: the open request and what is written when it ends. Times are numbers, the
-- stamp is the time that its text is made of. The conversion of the rows to bf16 and the statistics of
-- the manifest are left out, a written layer is the value that its file holds.
pub mod Contents
use pd_bridge.Prelude.{
  ℕ, zero, suc, ◌+◌, Bool, true, false, Option, none, some, List, [], ◌∷◌, ◌++◌, map, maximum, ltb,
  ◌==◌, if◌then◌else◌, find, length,
}
use pd_bridge.Hook.Boundaries.{boundaries, range_list}
use pd_bridge.Hook.Windows.{KvState}
use pd_bridge.Hook.Pools.{PoolState, Exported, export_pool}

-- A pool state with its ratio.
pub record Pool (A P : Type 0) : Type 0 where
  pub ratio : ℕ
  pub state : PoolState A P

pub record Req (V A P : Type 0) : Type 0 where
  pub stamp : ℕ
  pub kv : List (ℕ × KvState V)
  pub main : List (ℕ × Pool A P)
  pub idx : List (ℕ × Pool A P)
  pub first_t : ℕ
  pub last_t : ℕ
  pub calls : ℕ
  pub partial_start : Option ℕ

abbrev pub new_req : (V A P : Type 0) → ℕ → Req V A P
new_req V A P now = record {
  stamp = now;
  kv = [];
  main = [];
  idx = [];
  first_t = now;
  last_t = now;
  calls = 0;
  partial_start = none;
}

pub data Reason : Type 0 where
  new_request flush_now idle : Reason

-- The tensors of one layer: the windows of keys and values at the boundaries and at the end, and the pools.
pub record LayerFile (V A P : Type 0) : Type 0 where
  pub kvwin : List (ℕ × List V)
  pub kvwin_end : Option (List V)
  pub main : Option (Exported A P)
  pub idx : Option (Exported A P)

pub record Manifest : Type 0 where
  pub T : ℕ
  pub num_layers : ℕ
  pub ratios : List (Option ℕ)
  pub bounds : List ℕ
  pub stamp : ℕ
  pub layers_written : ℕ
  pub calls : ℕ
  pub flush_reason : Reason
  pub partial_start : Option ℕ
  pub position_gaps : List (ℕ × List (ℕ × ℕ))

-- A directory with `DONE`.
pub record Finished (V A P : Type 0) : Type 0 where
  pub manifest : Manifest
  pub layers : List (ℕ × LayerFile V A P)

module _ {A : Type 0} where
  abbrev pub keys : List (ℕ × A) → List ℕ
  keys m = map (λ (e : ℕ × A). e.0) m

-- a number into a sorted list, once
unfoldable pub insert : ℕ → List ℕ → List ℕ
insert k [] = k ∷ []
insert k (j ∷ js) =
    let rest = insert k js in if k == j then j ∷ js else if ltb k j then k ∷ j ∷ js else j ∷ rest

-- sorted(set(ks) | set(js))
unfoldable pub insert_all : List ℕ → List ℕ → List ℕ
unfolding insert
insert_all [] js = js
insert_all (k ∷ ks) js = insert k (insert_all ks js)

-- (max(layers) + 1) if layers else 0
abbrev pub one_more : List ℕ → ℕ
one_more [] = 0
one_more (k ∷ ks) = maximum (k ∷ ks) + 1

module _ {A P : Type 0} where
  abbrev pub export_of : ℕ → Option (Pool A P) → Option (Exported A P)
  export_of T none = none
  export_of T (some p) = some (export_pool p.ratio T p.state)

module _ {V : Type 0} where
  abbrev pub snaps_of : Option (KvState V) → List (ℕ × List V)
  snaps_of none = []
  snaps_of (some s) = s.snaps

  abbrev pub tail_of : Option (KvState V) → Option (List V)
  tail_of none = none
  tail_of (some s) = s.tail

  abbrev pub gaps_of : List (ℕ × KvState V) → List (ℕ × List (ℕ × ℕ))
  gaps_of [] = []
  gaps_of ((li, s) ∷ kv) = elim s.gaps [ [] ↦ gaps_of kv | g ∷ gs ↦ (li, g ∷ gs) ∷ gaps_of kv ]

module _ {V A P : Type 0} where
  unfoldable pub length_of : Req V A P → ℕ
  length_of r = maximum (map (λ (e : ℕ × KvState V). e.1.next_pos) r.kv)

  unfoldable pub all_layers : Req V A P → List ℕ
  unfolding insert_all
  all_layers r = insert_all (keys r.kv) (insert_all (keys r.main) (insert_all (keys r.idx) []))

  -- the three exports of a layer
  unfoldable pub layer_file : Req V A P → ℕ → LayerFile V A P
  unfolding find export_pool
  layer_file r li =
      let T = length_of r in
      record {
        kvwin = snaps_of (find li r.kv);
        kvwin_end = tail_of (find li r.kv);
        main = export_of T (find li r.main);
        idx = export_of T (find li r.idx);
      }

  -- the ratio in the manifest: 0 for a layer with windows only
  unfoldable pub ratio_of : Req V A P → ℕ → Option ℕ
  unfolding find
  ratio_of r li = elim (find li r.main) [
    | some p ↦ some p.ratio
    | none ↦ elim (find li r.kv) [ none ↦ none | some s ↦ some 0 ]
  ]

  -- the manifest and the layers
  abbrev pub finished : ℕ → Reason → Req V A P → Finished V A P
  finished block reason r =
      let T = length_of r in
      let layers = all_layers r in
      let num_layers = one_more layers in
      record {
        manifest = record {
          T = T;
          num_layers = num_layers;
          ratios = map (ratio_of r) (range_list 0 1 num_layers);
          bounds = boundaries block 0 T;
          stamp = r.stamp;
          layers_written = length layers;
          calls = r.calls;
          flush_reason = reason;
          partial_start = r.partial_start;
          position_gaps = gaps_of r.kv;
        };
        layers = map (λ (li : ℕ). (li, layer_file r li)) layers;
      }

  -- `_finish`: `none` where the capture is shorter than `min_T` and thrown away
  unfoldable pub finish : ℕ → ℕ → Reason → Req V A P → Option (Finished V A P)
  unfolding length_of all_layers layer_file ratio_of boundaries range_list
  finish block min_T reason r =
      if ltb (length_of r) min_T then none else some (finished block reason r)
