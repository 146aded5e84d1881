-- ===== src/Writer/Complete.antt =====
-- `finalize` at the end of a writer's life: the snapshots that were taken are in their blocks.
use pd_bridge.Prelude.{
  ℕ, ◌≡◌, refl, ap, ◌∙◌, sym, Bool, true, false, ◌&&◌, Option, none, some, List, [], ◌⊎◌, inl, inr,
  arith, length, take, if◌then◌else◌, find, Bool-cases,
}
use pd_bridge.Hook.Finish.{keys, insert_all}
use pd_bridge.Hook.Finish.Contents.{has, has-insert_all, has-keys}
use pd_bridge.Writer.{
  Writer, Store, returned, raised, no_snapshots, is_boundary, store_pending, in_time, valid,
  last_boundary,
}
use pd_bridge.Writer.Finalize.{finalize, ended, chain_hashes, up_to, is_empty}
use pd_bridge.Writer.Stored.{KeepsBlocks, IsKept, AllWithin, pending-IsKept, pending_gone}
use pd_bridge.Writer.Boundaries.{
  has-in_time, boundary_within, in_time-AllWithin, insert_all-AllWithin,
}
use pd_bridge.Writer.Life.{Event, live, fresh, live-IsLife, fresh-IsLife}

module _ {S D C : Type 0} (store : Store S D) (block_at : D → List ℕ → Option S)
    (law : KeepsBlocks store block_at) (extract : C → ℕ → S) (block : ℕ) (ids : List ℕ) where
  valid-AllWithin :
      (w : Writer S D)
      → AllWithin (length ids) w.stored
      → AllWithin (length ids) (valid block (length ids) w.snapshots w.stored)
  unfolding valid
  valid-AllWithin w h =
      insert_all-AllWithin (length ids) (in_time block (length ids) (keys w.snapshots))
        (insert_all w.stored []) (in_time-AllWithin block (length ids) (keys w.snapshots))
        (insert_all-AllWithin (length ids) w.stored [] h (omega arith))

  waits :
      (w : Writer S D) (tc : ℕ) (s : S)
      → is_boundary block (length ids) tc ≡ true
      → IsKept block_at ids tc s w.snapshots w.disk
      → (has tc (valid block (length ids) w.snapshots w.stored) ≡ true)
        ⊎ (find tc w.snapshots ≡ none)
  unfolding valid
  waits w tc s b (inr (gone, at_place)) = inr gone
  waits w tc s b (inl here) = inl (
      has-insert_all tc (in_time block (length ids) (keys w.snapshots)) (insert_all w.stored [])
        (has-in_time block (length ids) tc (keys w.snapshots) b (has-keys tc s w.snapshots here)))

  written :
      (tc : ℕ) (s : S) (w : Writer S D)
      → IsKept block_at ids tc s w.snapshots w.disk
      → find tc w.snapshots ≡ none
      → block_at w.disk (take tc ids) ≡ some s
  written tc s w (inl here) gone = absurd (cc (here, gone))
  written tc s w (inr (gone, at_place)) e = at_place

  module _ {H : Type 0} (hash : Option H → List ℕ → H) (there : H → Bool) where
    ended_lem :
        (paths hs : List H) (r : Writer S D × Bool)
        → (ended store hash block there paths r).1 ≡ returned hs
        → (r.1 ≡ true) × ((ended store hash block there paths r).0 ≡ r.0)
    ended_lem paths hs (w, true) e = (refl, refl)
    ended_lem paths hs (w, false) e = absurd (cc e)

    up_to_lem :
        (w : Writer S D) (latest : Option ℕ) (hs : List H) (tc : ℕ) (s : S)
        → AllWithin (length ids) w.stored
        → is_boundary block (length ids) tc ≡ true
        → IsKept block_at ids tc s w.snapshots w.disk
        → (up_to store hash block there true ids w latest).1 ≡ returned hs
        → block_at (up_to store hash block there true ids w latest).0.disk (take tc ids) ≡ some s
    up_to_lem w none hs tc s within b kept e = absurd (cc e)
    up_to_lem w (some latest) hs tc s within b kept e =
        let tcs = valid block (length ids) w.snapshots w.stored in
        let r = store_pending store ids tcs w in
        let (good, same) = ended_lem (chain_hashes hash block (take latest ids)) hs r e in
        let le = boundary_within block (length ids) tc b in
        let all = valid-AllWithin w within in
        let gone = pending_gone store ids tc tcs w (waits w tc s b kept) good in
        ap (λ v. block_at v.disk (take tc ids)) same
        ∙ written tc s r.0 (pending-IsKept store block_at law ids tc le s tcs w all kept good) gone

    -- For a store that keeps blocks, a prompt, any snapshots taken and stored in any order, and boundaries stored one by one:
    -- if `finalize` returns, then for every full-block boundary within the prompt of which a snapshot was taken and not
    -- refused by the store, the block of the tokens up to it holds the last snapshot taken there.
    pub finalize-live :
        (disk : D) (es : List (Event C)) (hs : List H) (tc : ℕ) (s : S)
        → is_boundary block (length ids) tc ≡ true
        → find tc (live store extract block es (fresh ids disk)).kept ≡ some s
        → (finalize store hash block there true ids
            (live store extract block es (fresh ids disk)).writer).1
          ≡ returned hs
        → block_at
            (finalize store hash block there true ids
              (live store extract block es (fresh ids disk)).writer).0.disk
            (take tc ids)
          ≡ some s
    unfolding finalize
    finalize-live disk es hs tc s b e back =
        let l = live store extract block es (fresh ids disk) in
        let life =
          live-IsLife store block_at law extract block ids es (fresh ids disk)
            (fresh-IsLife store block_at law extract block ids disk) in
        let w = l.writer in
        let latest = last_boundary (valid block (length ids) w.snapshots w.stored) in
        elim (Bool-cases (is_empty w.snapshots && is_empty w.stored)) [
          | inl nothing ↦ absurd (
              cc (
                ap
                    (λ c.
                      (if c
                        then (w, raised no_snapshots)
                        else up_to store hash block there true ids w latest).1)
                    nothing,
                back,
              ))
          | inr something ↦ rw something (
              up_to_lem w latest hs tc s life.within b (life.is_kept tc s b e) (
                sym (
                  ap
                    (λ c.
                      (if c
                        then (w, raised no_snapshots)
                        else up_to store hash block there true ids w latest).1)
                    something)
                ∙ back))
        ]
