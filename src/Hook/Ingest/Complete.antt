-- ===== src/Hook/Ingest/Complete.antt =====
-- From the rows in the queue to the finished directory.
use mathlib.Core.Path.{subst}
use pd_bridge.Prelude.{
  ℕ, ◌+◌, ◌≤◌, ◌<◌, ◌≡◌, refl, ap, ◌∙◌, sym, Bool, true, false, Option, none, some, List, [], ◌∷◌,
  ◌++◌, map, arith, length, last_rows, find, if◌then◌else◌, inl, inr, ℕ-cases,
}
use pd_bridge.Hook.Boundaries.{boundaries}
use pd_bridge.Hook.Windows.{KvState, kept}
use pd_bridge.Hook.Windows.Whole.{Holds, windows_at}
use pd_bridge.Hook.Pools.{Exported, export_pool}
use pd_bridge.Hook.Pools.Export.{IsExport, export_pool-IsExport}
use pd_bridge.Hook.Finish.{
  Pool, Req, Reason, LayerFile, Finished, length_of, layer_file, finished, finish, gaps_of,
  export_of, snaps_of, tail_of,
}
use pd_bridge.Hook.Finish.Contents.{length_of_lem, layer_found, finish_lem, gaps_of_lem}
use pd_bridge.Hook.Ingest.{Item, Captures, Settings, Work, layer_chunk, flush, work, worker}
use pd_bridge.Hook.Ingest.Tables.{kv_rows, main_rows, idx_rows, At}
use pd_bridge.Hook.Ingest.Layers.{
  pool_ratio, pool_ratio-pos, pool_ratio-le, four_pos, KvFits, PoolFits,
}
use pd_bridge.Hook.Ingest.Whole.{Fixed, InOrder, ReqHolds, worker-Whole}
use pd_bridge.Pool.{Ops}

-- Every layer that has rows has `n` of them, and the layer `li` has.
pub record IsEven {V A : Type 0} (items : List (Item V A)) (n li : ℕ) : Type 0 where
  pub kv_even : (k : ℕ) → 0 < length (kv_rows k items) → length (kv_rows k items) ≡ n
  pub main_even : (k : ℕ) → 0 < length (main_rows k items) → length (main_rows k items) ≡ n
  pub idx_even : (k : ℕ) → 0 < length (idx_rows k items) → length (idx_rows k items) ≡ n
  pub some_rows : 0 < length (kv_rows li items)

module _ {A H P : Type 0} (g : Settings) (enough : 4 ≤ g.keep) (large : 4 ≤ g.block) where
  export_lem :
      (pops : ℕ → Ops A H P) (pratio : ℕ → ℕ) (pos : (k : ℕ) → 0 < pratio k) (li n T : ℕ)
      (rows : List A) (o : Option (Pool A P))
      → At (PoolFits g enough large pops pratio pos) li rows o
      → pratio li ≤ g.keep
      → 7 ≤ g.keep
      → length rows ≡ n
      → T ≡ n
      → 0 < length rows
      → (e : Exported A P) × ((export_of T o ≡ some e)
          × IsExport (pops li) g.block (pratio li) g.keep (pos li) rows e)
  export_lem pops pratio pos li n T rows none h le seven size t lt =
      absurd (omega (arith, ap length h))
  export_lem pops pratio pos li n T rows (some p) h le seven size t lt =
      let Out : Exported A P → Type 0 =
        IsExport (pops li) g.block (pratio li) g.keep (pos li) rows in
      (
        export_pool p.ratio T p.state,
        (
          refl,
          subst (λ k. Out (export_pool k T p.state)) (sym h.0)
              (subst (λ m. Out (export_pool (pratio li) m p.state)) (size ∙ sym t)
                (export_pool-IsExport (pops li) g.block (pratio li) g.keep (pos li) rows p.state le
                  seven h.1)),
        ),
      )

module _ {V A H P : Type 0} (ops idx_ops : ℕ → Ops A H P) (ratio : ℕ → ℕ) (g : Settings)
    (fixed : Fixed g) where
  -- The file of the layer `li` holds what its rows leave.
  pub record LayerIsWhole (items : List (Item V A)) (n li : ℕ) (file : LayerFile V A P)
      : Type 0 where
    pub kvwin_eq : file.kvwin ≡ windows_at g.win (kv_rows li items) (boundaries g.block 0 n)
    pub kvwin_end_eq : kept file.kvwin_end ≡ last_rows g.win (kv_rows li items)
    pub main_eq :
        0 < length (main_rows li items)
        → (e : Exported A P) × ((file.main ≡ some e)
            × IsExport
                (ops li)
                g.block
                (pool_ratio (ratio li))
                g.keep
                (pool_ratio-pos (ratio li))
                (main_rows li items)
                e)
    pub idx_eq :
        0 < length (idx_rows li items)
        → (e : Exported A P) × ((file.idx ≡ some e)
            × IsExport (idx_ops li) g.block 4 g.keep (four_pos li) (idx_rows li items) e)

  pub record IsWhole (items : List (Item V A)) (n : ℕ) (reason : Reason) (f : Finished V A P)
      : Type 0 where
    pub T_eq : f.manifest.T ≡ n
    pub bounds_eq : f.manifest.bounds ≡ boundaries g.block 0 n
    pub gaps_eq : f.manifest.position_gaps ≡ []
    pub partial_eq : f.manifest.partial_start ≡ none
    pub calls_eq : f.manifest.calls ≡ length items
    pub reason_eq : f.manifest.flush_reason ≡ reason
    pub layer_eq :
        (li : ℕ)
        → 0 < length (kv_rows li items)
        → (file : LayerFile V A P) × ((find li f.layers ≡ some file) × LayerIsWhole items n li file)

  abbrev Fits : List V → Option (KvState V) → Type 0
  Fits rows o = At (KvFits g (omega (arith, fixed.large))) 0 rows o

  found_kv :
      (rows : List V) (o : Option (KvState V))
      → Fits rows o
      → 0 < length rows
      → (s : KvState V) × ((o ≡ some s) × Holds g.block g.win rows s)
  found_kv rows none h lt = absurd (omega (arith, ap length h))
  found_kv rows (some s) h lt = (s, (refl, h))

  Holds-found :
      (rows : List V) (o : Option (KvState V)) (s : KvState V)
      → Fits rows o
      → o ≡ some s
      → Holds g.block g.win rows s
  Holds-found rows o s h e = subst (Fits rows) e h

  module _ (items : List (Item V A)) (n li : ℕ) (r : Req V A P)
      (holds : ReqHolds ops idx_ops ratio g fixed items r) (even : IsEven items n li) where
    length_of-n : length_of r ≡ n
    length_of-n =
        let (s, (found, h)) =
          found_kv (kv_rows li items) (find li r.kv) (holds.kv_all li) even.some_rows in
        length_of_lem r n li s holds.kv_Distinct
          (λ k t e.
            let held = Holds-found (kv_rows k items) (find k r.kv) t (holds.kv_all k) e in
            elim (ℕ-cases (length (kv_rows k items))) [
              | inl z ↦ omega (arith, held.next_eq, z)
              | inr lt ↦ omega (arith, held.next_eq, even.kv_even k lt)
            ])
          found (h.next_eq ∙ even.kv_even li even.some_rows)

    no_gaps : gaps_of r.kv ≡ []
    no_gaps =
        gaps_of_lem r.kv holds.kv_Distinct
          (λ k t e. (Holds-found (kv_rows k items) (find k r.kv) t (holds.kv_all k) e).gaps_eq)

    module _ (fits : (k : ℕ) → ratio k ≤ g.keep) (seven : 7 ≤ g.keep) where
      layer_file-LayerIsWhole :
          (k : ℕ) (s : KvState V)
          → find k r.kv ≡ some s
          → 0 < length (kv_rows k items)
          → LayerIsWhole items n k (layer_file r k)
      unfolding layer_file
      layer_file-LayerIsWhole k s found lt =
          let held = Holds-found (kv_rows k items) (find k r.kv) s (holds.kv_all k) found in
          record {
            kvwin_eq =
                ap snaps_of found
                ∙ held.snaps_eq
                ∙ ap (λ m. windows_at g.win (kv_rows k items) (boundaries g.block 0 m))
                    (even.kv_even k lt);
            kvwin_end_eq = ap (λ o. kept (tail_of o)) found ∙ held.tail_eq;
            main_eq = λ some_rows.
                export_lem g fixed.enough fixed.large ops (λ j. pool_ratio (ratio j))
                  (λ j. pool_ratio-pos (ratio j)) k n (length_of r) (main_rows k items)
                  (find k r.main) (holds.main_all k)
                  (pool_ratio-le (ratio k) g.keep (fits k) fixed.enough) seven
                  (even.main_even k some_rows) length_of-n some_rows;
            idx_eq = λ some_rows.
                export_lem g fixed.enough fixed.large idx_ops (λ _. 4) four_pos k n (length_of r)
                  (idx_rows k items) (find k r.idx) (holds.idx_all k) (omega (arith, seven)) seven
                  (even.idx_even k some_rows) length_of-n some_rows;
          }

      finished-IsWhole : (reason : Reason) → IsWhole items n reason (finished g.block reason r)
      finished-IsWhole reason = record {
        T_eq = length_of-n;
        bounds_eq = ap (boundaries g.block 0) length_of-n;
        gaps_eq = no_gaps;
        partial_eq = holds.partial_eq;
        calls_eq = holds.calls_eq;
        reason_eq = refl;
        layer_eq = λ k lt.
            let (s, (found, h)) = found_kv (kv_rows k items) (find k r.kv) (holds.kv_all k) lt in
            (
              layer_file r k,
              (layer_found g.block reason r k s found, layer_file-LayerIsWhole k s found lt),
            );
      }

add_if : (b : Bool) (m n : ℕ) → (if b then m + n else m + n + 1) ≡ (if b then m else m + 1) + n
add_if true m n = refl
add_if false m n = omega arith

module _ {V A H P : Type 0} (ops idx_ops : ℕ → Ops A H P) (g : Settings) where
  worker-append :
      (ws vs : List (Work V A)) (c : Captures V A P)
      → worker ops idx_ops g (ws ++ vs) c ≡ (
          let p = worker ops idx_ops g ws c in
          let q = worker ops idx_ops g vs p.0 in (q.0, p.1 + q.1))
  unfolding worker
  worker-append [] vs c =
      let q = worker ops idx_ops g vs c in
      ap (λ n. (q.0, n)) (let e : q.1 ≡ 0 + q.1 = omega arith in e)
  worker-append (w ∷ ws) vs c =
      let p = work ops idx_ops g w c in
      let m = (worker ops idx_ops g ws p.0).1 in
      let q = worker ops idx_ops g vs (worker ops idx_ops g ws p.0).0 in
      ap (λ (o : Captures V A P × ℕ). (o.0, if p.1 then o.1 else o.1 + 1)) (worker-append ws vs p.0)
      ∙ ap (λ n. (q.0, n)) (add_if p.1 m q.1)

  flush_lem :
      (reason : Reason) (c : Captures V A P) (r : Req V A P) (f : Finished V A P)
      → c.req ≡ some r
      → finish g.block g.min_T reason r ≡ some f
      → worker ops idx_ops g (flush reason ∷ []) c
        ≡ (record c { req = none; done = c.done ++ (f ∷ []) }, 0)
  unfolding worker work
  flush_lem reason c r f h k = rw h (rw k refl)

module _ {V A H P : Type 0} (ops idx_ops : ℕ → Ops A H P) (ratio : ℕ → ℕ) (g : Settings)
    (fixed : Fixed g) (fits : (k : ℕ) → ratio k ≤ g.keep) (seven : 7 ≤ g.keep) where
  -- If no request is open, the sizes are those that the hook relies on, and the rows of a request stand in the queue layer
  -- by layer (a layer of ratio 0 without rows to pool), in any chunks, each where its layer's last one ended and layer 0 only once at the start,
  -- so that all layers have the same number of rows, at least `min_T`: the worker goes through all of
  -- them and the flush behind them without an error, and finishes one directory. Its manifest has that
  -- length, its boundaries, no gap and no partial start, and each layer's file holds the windows and, where it has rows to
  -- pool, the pooled rows and the carry of the layer's whole sequence of rows.
  pub worker-IsWhole :
      (i : Item V A) (items : List (Item V A)) (c : Captures V A P) (reason : Reason) (n li : ℕ)
      → c.req ≡ none
      → InOrder ratio [] (i ∷ items)
      → IsEven (i ∷ items) n li
      → g.min_T ≤ n
      → (f : Finished V A P) × ((worker ops idx_ops g
              (map layer_chunk (i ∷ items) ++ (flush reason ∷ []))
              c
            ≡ (record c { req = none; done = c.done ++ (f ∷ []) }, 0))
          × IsWhole ops idx_ops ratio g fixed (i ∷ items) n reason f)
  worker-IsWhole i items c reason n li closed order even long =
      let (r, (run, holds)) = worker-Whole ops idx_ops ratio g fixed i items c closed order in
      let whole =
        finished-IsWhole ops idx_ops ratio g fixed (i ∷ items) n li r holds even fits seven
          reason in
      let c' = record c { req = some r } in
      let written = finish_lem g.block g.min_T reason r (omega (arith, long, whole.T_eq)) in
      let ended = flush_lem ops idx_ops g reason c' r (finished g.block reason r) refl written in
      (
        finished g.block reason r,
        (
          worker-append ops idx_ops g (map layer_chunk (i ∷ items)) (flush reason ∷ []) c
              ∙ ap
                  (λ (p : Captures V A P × ℕ).
                    let q = worker ops idx_ops g (flush reason ∷ []) p.0 in (q.0, p.1 + q.1))
                  run
              ∙ ap (λ (q : Captures V A P × ℕ). (q.0, 0 + q.1)) ended,
          whole,
        ),
      )
