-- ===== src/Hook/Ingest/Partial.antt =====
-- A request that does not start at position 0.
use pd_bridge.Prelude.{ℕ, ◌<◌, ◌≡◌, refl, false, none, some, List, [], ◌∷◌, arith, ◌==◌, find, put}
use pd_bridge.Hook.Pools.{new_pool, with_prev, feed_pool}
use pd_bridge.Hook.Finish.{Req, new_req}
use pd_bridge.Hook.Ingest.{Item, Captures, Settings, feed_layer, feed_table, feed_request, ingest}
use pd_bridge.Pool.{Ops, new_carry, pool_layer}

module _ {A H P : Type 0} where
  pool_layer-new :
      (ops : Ops A H P) (r fs start : ℕ) (rows : List A)
      → 0 < start
      → pool_layer ops r fs rows start (new_carry A) ≡ none
  unfolding pool_layer
  pool_layer-new ops r fs start rows h = ground arith

  feed_pool-new :
      (ops : Ops A H P) (block r keep start : ℕ) (rows : List A)
      → 0 < start
      → feed_pool ops block r keep rows start (new_pool A P)
        ≡ (with_prev ops block r keep rows start (new_pool A P), false)
  unfolding feed_pool
  feed_pool-new ops block r keep start rows h =
      let fails = pool_layer-new ops r r start rows h in ground (arith, fails)

module _ {V A H P : Type 0} (ops idx_ops : ℕ → Ops A H P) (g : Settings) where
  -- Where no request is open, a first chunk that does not start at position 0 opens one that is marked as partial, and
  -- if the layer has rows to pool the round fails: the pooling compares its carry, which has seen no
  -- row, with the position. The call is not counted.
  pub ingest-partial :
      (i : Item V A) (rows : List A) (c : Captures V A P)
      → c.req ≡ none
      → 0 < i.start
      → i.kv_score ≡ some rows
      → (r : Req V A P) × ((ingest ops idx_ops g i c ≡ (record c { req = some r }, false))
          × ((r.calls ≡ 0) × (r.partial_start ≡ some i.start)))
  unfolding ingest feed_request feed_table find put
  ingest-partial i rows c e h k =
      let s = with_prev (ops i.li) g.block i.ratio g.keep rows i.start (new_pool A P) in
      (
        record (feed_layer g i (record (new_req V A P i.at) { partial_start = some i.start })) {
          main = (i.li, record { ratio = i.ratio; state = s }) ∷ [];
        },
        (
          let far : (i.start == 0) ≡ false = ground (arith, h) in
              rw e (
                rw far (
                  rw k (
                    rw (feed_pool-new (ops i.li) g.block i.ratio g.keep i.start rows h)
                      (rw far refl)))),
          (refl, refl),
        ),
      )
