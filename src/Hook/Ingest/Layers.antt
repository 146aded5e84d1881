-- ===== src/Hook/Ingest/Layers.antt =====
-- One item keeps what the states of the layers hold.
use mathlib.Core.Path.{subst}
use pd_bridge.Prelude.{
  ℕ, zero, suc, ◌≤◌, ◌<◌, ◌≡◌, refl, ap, ◌∙◌, sym, Bool, true, Option, none, some, List, [], ◌∷◌,
  ◌++◌, arith, length, find, put, Option-cases, inl, inr,
}
use pd_bridge.Hook.Ingest.Tables.{kv_rows, rows_for, At, FitsAll, put-FitsAll, same-FitsAll}
use pd_bridge.Hook.Windows.{KvState, new_kv, feed_kv}
use pd_bridge.Hook.Windows.Whole.{Holds, feed-Holds, new-Holds}
use pd_bridge.Hook.Pools.{PoolState, feed_pool}
use pd_bridge.Hook.Pools.Whole.{PoolHolds, grown, feed_pool-grown, grown-PoolHolds, new-PoolHolds}
use pd_bridge.Hook.Pools.Export.{rows_of}
use pd_bridge.Hook.Finish.{Pool, Req}
use pd_bridge.Hook.Ingest.{Item, Settings, kv_or_new, pool_or_new, feed_layer, feed_table}
use pd_bridge.Pool.{Ops}

-- The windows of the layers.
module _ {V : Type 0} (g : Settings) (pos : 0 < g.block) where
  abbrev pub KvFits : ℕ → List V → KvState V → Type 0
  KvFits li rows s = Holds g.block g.win rows s

  kv_or_new-Holds :
      (li : ℕ) (rows : List V) (o : Option (KvState V))
      → At KvFits li rows o
      → Holds g.block g.win rows (kv_or_new o)
  kv_or_new-Holds li rows none h =
      subst (λ l. Holds g.block g.win l (new_kv V)) (sym h) (new-Holds g.block g.win pos)
  kv_or_new-Holds li rows (some s) h = h

module _ {V A P : Type 0} (g : Settings) (pos : 0 < g.block) where
  pub feed_layer-FitsAll :
      (items : List (Item V A)) (i : Item V A) (r : Req V A P)
      → FitsAll (KvFits g pos) (λ (j : Item V A). j.kv_pre) items r.kv
      → i.start ≡ length (kv_rows i.li items)
      → FitsAll
          (KvFits g pos)
          (λ (j : Item V A). j.kv_pre)
          (items ++ (i ∷ []))
          (feed_layer g i r).kv
  feed_layer-FitsAll items i r all h =
      let old = kv_or_new (find i.li r.kv) in
      let holds = kv_or_new-Holds g pos i.li (kv_rows i.li items) (find i.li r.kv) (all i.li) in
      put-FitsAll (KvFits g pos) (λ (j : Item V A). j.kv_pre) items i
        (feed_kv g.block g.win i.kv_pre i.start old) r.kv all
        (subst
          (λ k.
            Holds g.block g.win (kv_rows i.li items ++ i.kv_pre)
              (feed_kv g.block g.win i.kv_pre k old))
          (holds.next_eq ∙ sym h)
          (feed-Holds g.block g.win pos (kv_rows i.li items) i.kv_pre old holds))

pub four_pos : ℕ → 0 < 4
four_pos li = omega arith

-- The ratio of a layer's pool. A layer of ratio 0 has windows only and is never fed rows to pool, so that its entry is not used.
abbrev pub pool_ratio : ℕ → ℕ
pool_ratio zero = 4
pool_ratio (suc r) = suc r

pub pool_ratio-pos : (r : ℕ) → 0 < pool_ratio r
pool_ratio-pos zero = omega arith
pool_ratio-pos (suc r) = omega arith

pool_ratio_lem : (r : ℕ) → 0 < r → pool_ratio r ≡ r
pool_ratio_lem zero h = absurd (omega (arith, h))
pool_ratio_lem (suc r) h = refl

pub pool_ratio-le : (r keep : ℕ) → r ≤ keep → 4 ≤ keep → pool_ratio r ≤ keep
pool_ratio-le zero keep h four = four
pool_ratio-le (suc r) keep h four = h

pub feed_table-pool_ratio :
    {A H P : Type 0} (ops : Ops A H P) (g : Settings) (r li start : ℕ) (o : Option (List A))
    (table : List (ℕ × Pool A P))
    → ((rows : List A) → o ≡ some rows → 0 < r)
    → feed_table ops g r li o start table ≡ feed_table ops g (pool_ratio r) li o start table
unfolding feed_table
feed_table-pool_ratio ops g r li start none table h = refl
feed_table-pool_ratio ops g r li start (some rows) table h =
    ap (λ k. feed_table ops g k li (some rows) start table) (sym (pool_ratio_lem r (h rows refl)))

-- The pools of the layers: `score` is what a pool is fed, `ratio` and `ops` are those of a layer.
module _ {A H P : Type 0} (g : Settings) (enough : 4 ≤ g.keep) (large : 4 ≤ g.block)
    (ops : ℕ → Ops A H P) (ratio : ℕ → ℕ) (pos : (li : ℕ) → 0 < ratio li) where
  abbrev pub PoolFits : ℕ → List A → Pool A P → Type 0
  PoolFits li rows p =
      (p.ratio ≡ ratio li) × PoolHolds (ops li) g.block (ratio li) g.keep (pos li) rows p.state

  pool_or_new-PoolFits :
      (li : ℕ) (rows : List A) (o : Option (Pool A P))
      → At PoolFits li rows o
      → PoolFits li rows (pool_or_new (ratio li) o)
  pool_or_new-PoolFits li rows none h =
      subst (λ l. PoolFits li l (pool_or_new (ratio li) none)) (sym h)
        (refl, new-PoolHolds (ops li) g.block (ratio li) g.keep (pos li) enough large)
  pool_or_new-PoolFits li rows (some p) h = h

  feed_some :
      (li : ℕ) (rows : List A) (start : ℕ) (table : List (ℕ × Pool A P)) (s : PoolState A P)
      → (let p = pool_or_new (ratio li) (find li table) in
          feed_pool (ops li) g.block p.ratio g.keep rows start p.state ≡ (s, true))
      → feed_table (ops li) g (ratio li) li (some rows) start table
        ≡ (put li (record (pool_or_new (ratio li) (find li table)) { state = s }) table, true)
  unfolding feed_table
  feed_some li rows start table s h =
      ap
        (λ (q : PoolState A P × Bool).
          (put li (record (pool_or_new (ratio li) (find li table)) { state = q.0 }) table, q.1))
        h

  module _ {V : Type 0} (score : Item V A → Option (List A)) where
    abbrev pub score_rows : Item V A → List A
    score_rows i = rows_of (score i)

    pub feed_table-FitsAll :
        (items : List (Item V A)) (i : Item V A) (table : List (ℕ × Pool A P))
        → FitsAll PoolFits score_rows items table
        → ((rows : List A)
            → score i ≡ some rows
            → length (rows_for score_rows i.li items) ≡ i.start)
        → (t : List (ℕ × Pool A P)) × ((feed_table
                (ops i.li)
                g
                (ratio i.li)
                i.li
                (score i)
                i.start
                table
              ≡ (t, true))
            × FitsAll PoolFits score_rows (items ++ (i ∷ [])) t)
    unfolding feed_table
    feed_table-FitsAll items i table all h = elim (Option-cases (score i)) [
      | inl e ↦
          (table, (rw e refl, same-FitsAll PoolFits score_rows items i table all (ap rows_of e)))
      | inr (rows, e) ↦
          let xs = rows_for score_rows i.li items in
          let p = pool_or_new (ratio i.li) (find i.li table) in
          let fits = pool_or_new-PoolFits i.li xs (find i.li table) (all i.li) in
          let s = grown (ops i.li) g.block (ratio i.li) g.keep (pos i.li) xs rows p.state in
          let run : feed_pool (ops i.li) g.block p.ratio g.keep rows i.start p.state ≡ (s, true) =
            ap (λ k. feed_pool (ops i.li) g.block k g.keep rows i.start p.state) fits.0
            ∙ ap (λ k. feed_pool (ops i.li) g.block (ratio i.li) g.keep rows k p.state)
                (sym (h rows e) ∙ sym fits.1.next_eq)
            ∙ feed_pool-grown (ops i.li) g.block (ratio i.li) g.keep (pos i.li) xs rows p.state
                fits.1 in
          (
            put i.li (record p { state = s }) table,
            (
              ap (λ o. feed_table (ops i.li) g (ratio i.li) i.li o i.start table) e
                  ∙ feed_some i.li rows i.start table s run,
              put-FitsAll PoolFits score_rows items i (record p { state = s }) table all
                  (
                    fits.0,
                    subst
                        (λ o.
                          PoolHolds (ops i.li) g.block (ratio i.li) g.keep (pos i.li)
                            (xs ++ rows_of o) s)
                        (sym e)
                        (grown-PoolHolds (ops i.li) g.block (ratio i.li) g.keep (pos i.li) enough
                          large xs rows p.state fits.1),
                  ),
            ),
          )
    ]
