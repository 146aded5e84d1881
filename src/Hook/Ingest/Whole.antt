-- ===== src/Hook/Ingest/Whole.antt =====
-- A request whose layers come in order: what its layers hold is what the whole sequence of their rows leaves.
use mathlib.Core.Path.{subst}
use pd_bridge.Prelude.{
  ℕ, ◌+◌, ◌≤◌, ◌<◌, ◌≡◌, refl, ap, ◌∙◌, sym, Bool, true, false, not, Option, none, some, List, [],
  ◌∷◌, ◌++◌, map, append-nil, append_assoc, arith, ltb, ◌==◌, ==_iff, if◌then◌else◌, length, find,
  Distinct, put-Distinct, Bool-cases, ltb→lt, inl, inr, length-append,
}
use pd_bridge.Hook.Windows.{KvState}
use pd_bridge.Hook.Finish.{Pool, Req, new_req}
use pd_bridge.Hook.Ingest.{
  Item, Captures, Settings, is_new, split_request, open_request, feed_layer, feed_table,
  feed_request, ingest, layer_chunk, work, worker,
}
use pd_bridge.Hook.Pools.Export.{rows_of}
use pd_bridge.Hook.Ingest.Tables.{
  kv_rows, main_rows, idx_rows, rows_for, At, FitsAll, nothing-FitsAll,
}
use pd_bridge.Hook.Ingest.Layers.{
  pool_ratio, pool_ratio-pos, feed_table-pool_ratio, four_pos, KvFits, feed_layer-FitsAll, PoolFits,
  feed_table-FitsAll,
}
use pd_bridge.Pool.{Ops}

-- The sizes that the hook relies on.
pub record Fixed (g : Settings) : Type 0 where
  pub enough : 4 ≤ g.keep
  pub large : 4 ≤ g.block

-- The item `i` continues its layer behind the items `before`, and is not the start of a new request. The ratio of a layer
-- with rows to pool is positive; that of another one may be 0.
pub record Follows {V A : Type 0} (ratio : ℕ → ℕ) (before : List (Item V A)) (i : Item V A)
    : Type 0 where
  pub start_eq : i.start ≡ length (kv_rows i.li before)
  pub main_eq : (rows : List A) → i.kv_score ≡ some rows → length (main_rows i.li before) ≡ i.start
  pub idx_eq : (rows : List A) → i.idx ≡ some rows → length (idx_rows i.li before) ≡ i.start
  pub ratio_eq : i.ratio ≡ ratio i.li
  pub has_ratio : (rows : List A) → i.kv_score ≡ some rows → 0 < i.ratio
  pub not_again : i.li ≡ 0 → 0 < length before → 0 < i.start

module _ {V A : Type 0} (ratio : ℕ → ℕ) where
  abbrev pub InOrder : List (Item V A) → List (Item V A) → Type 0
  InOrder before [] = before ≡ before
  InOrder before (i ∷ items) = Follows ratio before i × InOrder (before ++ (i ∷ [])) items

module _ {V A H P : Type 0} (ops idx_ops : ℕ → Ops A H P) (ratio : ℕ → ℕ) (g : Settings)
    (fixed : Fixed g) where
  pub record ReqHolds (items : List (Item V A)) (r : Req V A P) : Type 0 where
    pub kv_all :
        FitsAll (KvFits g (omega (arith, fixed.large))) (λ (i : Item V A). i.kv_pre) items r.kv
    pub main_all :
        FitsAll
          (PoolFits g fixed.enough fixed.large ops
            (λ k. pool_ratio (ratio k))
            (λ k. pool_ratio-pos (ratio k)))
          (λ (i : Item V A). rows_of i.kv_score)
          items
          r.main
    pub idx_all :
        FitsAll
          (PoolFits g fixed.enough fixed.large idx_ops (λ _. 4) four_pos)
          (λ (i : Item V A). rows_of i.idx)
          items
          r.idx
    pub calls_eq : r.calls ≡ length items
    pub partial_eq : r.partial_start ≡ none
    pub kv_Distinct : Distinct r.kv

  new-ReqHolds : (now : ℕ) → ReqHolds [] (new_req V A P now)
  new-ReqHolds now = record {
    kv_all = nothing-FitsAll (KvFits g (omega (arith, fixed.large))) (λ (i : Item V A). i.kv_pre);
    main_all =
        nothing-FitsAll
          (PoolFits g fixed.enough fixed.large ops (λ k. pool_ratio (ratio k))
            (λ k. pool_ratio-pos (ratio k)))
          (λ (i : Item V A). rows_of i.kv_score);
    idx_all =
        nothing-FitsAll (PoolFits g fixed.enough fixed.large idx_ops (λ _. 4) four_pos)
          (λ (i : Item V A). rows_of i.idx);
    calls_eq = refl;
    partial_eq = refl;
    kv_Distinct = refl;
  }

  feed_request_lem :
      (i : Item V A) (r : Req V A P) (main idx : List (ℕ × Pool A P))
      → feed_table (ops i.li) g i.ratio i.li i.kv_score i.start r.main ≡ (main, true)
      → feed_table (idx_ops i.li) g 4 i.li i.idx i.start r.idx ≡ (idx, true)
      → feed_request ops idx_ops g i r ≡ (
        record (feed_layer g i r) { main = main; idx = idx; calls = r.calls + 1; last_t = i.at },
        true,
      )
  unfolding feed_request
  feed_request_lem i r main idx h k = rw (h, k) refl

  feed_request-ReqHolds :
      (items : List (Item V A)) (i : Item V A) (r : Req V A P)
      → ReqHolds items r
      → Follows ratio items i
      → (r' : Req V A P) × ((feed_request ops idx_ops g i r ≡ (r', true))
          × ReqHolds (items ++ (i ∷ [])) r')
  feed_request-ReqHolds items i r h f =
      let (main, (run, main_all)) =
        feed_table-FitsAll g fixed.enough fixed.large ops (λ k. pool_ratio (ratio k))
          (λ k. pool_ratio-pos (ratio k)) (λ (j : Item V A). j.kv_score) items i r.main h.main_all
          f.main_eq in
      let (idx, (run', idx_all)) =
        feed_table-FitsAll g fixed.enough fixed.large idx_ops (λ _. 4) four_pos
          (λ (j : Item V A). j.idx) items i r.idx h.idx_all f.idx_eq in
      (
        _,
        (
          feed_request_lem i r main idx
              (feed_table-pool_ratio (ops i.li) g i.ratio i.li i.start i.kv_score r.main f.has_ratio
                ∙ ap (λ k. feed_table (ops i.li) g (pool_ratio k) i.li i.kv_score i.start r.main)
                    f.ratio_eq
                ∙ run)
              run',
          record {
            kv_all =
                feed_layer-FitsAll g (omega (arith, fixed.large)) items i r h.kv_all f.start_eq;
            main_all = main_all;
            idx_all = idx_all;
            calls_eq = omega (arith, h.calls_eq, length-append items (i ∷ []));
            partial_eq = h.partial_eq;
            kv_Distinct = put-Distinct i.li _ r.kv h.kv_Distinct;
          },
        ),
      )

  same_place :
      (rows : List V) (o : Option (KvState V)) (start : ℕ)
      → At (KvFits g (omega (arith, fixed.large))) 0 rows o
      → start ≡ length rows
      → elim o [ none ↦ false | some st ↦ not (start == st.next_pos) ] ≡ false
  same_place rows none start h e = refl
  same_place rows (some st) start h e =
      let same : (start == st.next_pos) ≡ true = (==_iff start st.next_pos).1 (e ∙ sym h.next_eq) in
      rw same refl

  is_new_lem :
      (items : List (Item V A)) (i : Item V A) (r : Req V A P)
      → ReqHolds items r
      → Follows ratio items i
      → is_new i r ≡ false
  is_new_lem items i r h f = elim (Bool-cases (i.li == 0)) [
    | inr other ↦ rw other refl
    | inl first ↦
        let e = (==_iff i.li 0).0 first in
        let there =
          same_place (kv_rows 0 items) (find 0 r.kv) i.start (h.kv_all 0)
            (f.start_eq ∙ ap (λ k. length (kv_rows k items)) e) in
        elim (Bool-cases (ltb 0 r.calls)) [
          | inr none_yet ↦ rw first (rw none_yet refl)
          | inl some_calls ↦
              let more : 0 < i.start =
                f.not_again e (omega (arith, h.calls_eq, ltb→lt 0 r.calls some_calls)) in
              let far : (i.start == 0) ≡ false = (ground (arith, more)) in
              rw first (rw some_calls (rw far there))
        ]
  ]

  ingest_lem :
      (i : Item V A) (c : Captures V A P) (r r' : Req V A P)
      → split_request g i c ≡ c
      → open_request i.at i.start c.req ≡ r
      → feed_request ops idx_ops g i r ≡ (r', true)
      → ingest ops idx_ops g i c ≡ (record c { req = some r' }, true)
  unfolding ingest
  ingest_lem i c r r' split opened run =
      let fed : Req V A P → Req V A P × Bool = feed_request ops idx_ops g i in
      ap
        (λ (k : Captures V A P).
          let q = fed (open_request i.at i.start k.req) in (record k { req = some q.0 }, q.1))
        split
      ∙ ap (λ (k : Req V A P). let q = fed k in (record c { req = some q.0 }, q.1)) opened
      ∙ ap (λ (q : Req V A P × Bool). (record c { req = some q.0 }, q.1)) run

  open-ReqHolds :
      (items : List (Item V A)) (i : Item V A) (c : Captures V A P) (r : Req V A P)
      → c.req ≡ some r
      → ReqHolds items r
      → Follows ratio items i
      → (r' : Req V A P) × ((ingest ops idx_ops g i c ≡ (record c { req = some r' }, true))
          × ReqHolds (items ++ (i ∷ [])) r')
  open-ReqHolds items i c r e h f =
      let (r', (run, holds)) = feed_request-ReqHolds items i r h f in
      let split : split_request g i c ≡ c = rw e (rw (is_new_lem items i r h f) refl) in
      (r', (ingest_lem i c r r' split (ap (open_request i.at i.start) e) run, holds))

  first-ReqHolds :
      (i : Item V A) (c : Captures V A P)
      → c.req ≡ none
      → Follows ratio [] i
      → (r' : Req V A P) × ((ingest ops idx_ops g i c ≡ (record c { req = some r' }, true))
          × ReqHolds (i ∷ []) r')
  unfolding rows_for
  first-ReqHolds i c e f =
      let (r', (run, holds)) =
        feed_request-ReqHolds [] i (new_req V A P i.at) (new-ReqHolds i.at) f in
      let split : split_request g i c ≡ c = rw e refl in
      let opened : open_request {V = V} {A = A} {P = P} i.at i.start none ≡ new_req V A P i.at =
        ap (λ k. open_request {V = V} {A = A} {P = P} i.at k none) (f.start_eq) in
      (
        r',
        (
          ingest_lem i c (new_req V A P i.at) r' split (ap (open_request i.at i.start) e ∙ opened)
              run,
          holds,
        ),
      )

  worker_cons :
      (i : Item V A) (items : List (Item V A)) (c c' : Captures V A P)
      → ingest ops idx_ops g i c ≡ (c', true)
      → worker ops idx_ops g (map layer_chunk (i ∷ items)) c
        ≡ worker ops idx_ops g (map layer_chunk items) c'
  unfolding worker work
  worker_cons i items c c' h =
      ap
        (λ (q : Captures V A P × Bool).
          let p = worker ops idx_ops g (map layer_chunk items) q.0 in
          (p.0, if q.1 then p.1 else p.1 + 1))
        h

  worker-ReqHolds :
      (items before : List (Item V A)) (c : Captures V A P) (r : Req V A P)
      → c.req ≡ some r
      → ReqHolds before r
      → InOrder ratio before items
      → (r' : Req V A P) × ((worker ops idx_ops g (map layer_chunk items) c
            ≡ (record c { req = some r' }, 0))
          × ReqHolds (before ++ items) r')
  unfolding worker
  worker-ReqHolds [] before c r e h f = (
    r,
    (ap (λ o. (record c { req = o }, 0)) e, subst (λ l. ReqHolds l r) (sym (append-nil before)) h),
  )
  worker-ReqHolds (i ∷ items) before c r e h (f, fs) =
      let (r', (run, holds)) = open-ReqHolds before i c r e h f in
      let (r'', (runs, done)) =
        worker-ReqHolds items (before ++ (i ∷ [])) (record c { req = some r' }) r' refl holds fs in
      (
        r'',
        (
          worker_cons i items c _ run ∙ runs,
          subst (λ l. ReqHolds l r'') (append_assoc before (i ∷ []) items) done,
        ),
      )

  pub worker-Whole :
      (i : Item V A) (items : List (Item V A)) (c : Captures V A P)
      → c.req ≡ none
      → InOrder ratio [] (i ∷ items)
      → (r : Req V A P) × ((worker ops idx_ops g (map layer_chunk (i ∷ items)) c
            ≡ (record c { req = some r }, 0))
          × ReqHolds (i ∷ items) r)
  worker-Whole i items c e (f, fs) =
      let (r', (run, holds)) = first-ReqHolds i c e f in
      let (r'', (runs, done)) =
        worker-ReqHolds items (i ∷ []) (record c { req = some r' }) r' refl holds fs in
      (r'', (worker_cons i items c _ run ∙ runs, done))
