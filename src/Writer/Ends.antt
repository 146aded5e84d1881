-- ===== src/Writer/Ends.antt =====
-- `finalize` comes to an end: where the store takes everything, it returns; and the wait for the files is over in time.
use pd_bridge.Prelude.{
  arith, ℕ, zero, suc, ◌+◌, ◌-◌, ◌*◌, ◌/◌, ◌≤◌, ◌≡◌, refl, ap, ◌∙◌, Bool, true, false, not, ◌&&◌,
  Option, none, some, List, [], ◌∷◌, ◌++◌, inl, inr, length, take, drop, ltb, leb, le→leb,
  if◌then◌else◌, find, Bool-cases,
}
use pd_bridge.OmlxBlock.Hashes
use pd_bridge.OmlxBlock.Hashes.{hash_input, block_ids, chain_from}
use pd_bridge.Hook.Finish.{keys, insert_all}
use pd_bridge.Hook.Finish.Contents.{has-insert_all, has-keys}
use pd_bridge.Writer.Boundaries.{has-in_time, insert_all-IsAscending, has-last_boundary}
use pd_bridge.Writer.{
  Writer, Store, returned, is_boundary, store_one, store_pending, in_time, valid, last_boundary,
}
use pd_bridge.Writer.Finalize.{
  finalize, ended, all_there, chain_hashes, hashes_from, up_to, is_empty, DrainPoll, Drained,
  timed_out, all_written, stalled, drain, are_settled, is_progress, count_written,
}

-- The hashes that name the writer's files are those that the connector names its blocks by.
module _ (sha256 : List ℕ → List ℕ) (model : List ℕ) (block : ℕ) where
  hashes_from-chain_from :
      (n i : ℕ) (parent : Option (List ℕ)) (tokens : List ℕ)
      → hashes_from (λ p ids. sha256 (hash_input model p ids)) block n i parent tokens
        ≡ chain_from sha256 model block n i parent tokens
  unfolding hashes_from chain_from block_ids
  hashes_from-chain_from zero i parent tokens = refl
  hashes_from-chain_from (suc n) i parent tokens =
      let h = sha256 (hash_input model parent (take block (drop (i * block) tokens))) in
      ap (◌∷◌ h) (hashes_from-chain_from n (i + 1) (some h) tokens)

  -- If `compute_block_hash` hashes the text that the connector's side hashes, the writer's chain hashes of a prompt are
  -- those of the connector.
  pub chain_hashes-connector :
      (tokens : List ℕ)
      → chain_hashes (λ p ids. sha256 (hash_input model p ids)) block tokens
        ≡ Hashes.chain_hashes sha256 model block tokens
  unfolding Hashes.chain_hashes
  chain_hashes-connector tokens = hashes_from-chain_from (length tokens / block) 0 none tokens

not_nil : {S : Type 0} (tc : ℕ) (s : S) (m : List (ℕ × S)) → find tc m ≡ some s → is_empty m ≡ false
unfolding find
not_nil tc s [] h = absurd (cc h)
not_nil tc s (a ∷ m) h = refl

module _ {S D H : Type 0} (store : Store S D) (hash : Option H → List ℕ → H) (block : ℕ)
    (takes_all : (d : D) (ids : List ℕ) (s : S) (inter : List (ℕ × S))
      → (d' : D) × (store.store_cache d ids s inter ≡ some d')) where
  one_good :
      (ids : List ℕ) (n : ℕ) (w : Writer S D) (o : Option S) → (store_one store ids n w o).1 ≡ true
  one_good ids n w none = refl
  one_good ids n w (some s) = let (d', e) = takes_all w.disk (take n ids) s [] in rw e refl

  pending_good : (ids tcs : List ℕ) (w : Writer S D) → (store_pending store ids tcs w).1 ≡ true
  unfolding store_pending
  pending_good ids [] w = refl
  pending_good ids (n ∷ tcs) w =
      let r = store_one store ids n w (find n w.snapshots) in
      rw (one_good ids n w (find n w.snapshots)) (pending_good ids tcs r.0)

  all_there-true :
      (there : H → Bool) (hs : List H) → ((h : H) → there h ≡ true) → all_there there hs ≡ true
  all_there-true there [] all = refl
  all_there-true there (h ∷ hs) all = rw (all h) (all_there-true there hs all)

  ended_returns :
      (there : H → Bool) (hs : List H) (r : Writer S D × Bool)
      → ((h : H) → there h ≡ true)
      → r.1 ≡ true
      → (ended store hash block there hs r).1 ≡ returned hs
  ended_returns there hs (w, true) all good = rw (all_there-true there hs all) refl
  ended_returns there hs (w, false) all good = absurd (cc good)

  up_to_returns :
      (there : H → Bool) (ids : List ℕ) (w : Writer S D) (latest : ℕ)
      → ((h : H) → there h ≡ true)
      → (up_to store hash block there true ids w (some latest)).1
        ≡ returned (chain_hashes hash block (take latest ids))
  up_to_returns there ids w latest all =
      let tcs = valid block (length ids) w.snapshots w.stored in
      ended_returns there (chain_hashes hash block (take latest ids))
        (store_pending store ids tcs w) all (pending_good ids tcs w)

  -- If the store takes every snapshot and every file is there in the end, and the snapshot of a full-block boundary within
  -- the prompt waits, `finalize` with boundaries stored one by one returns the hashes of all full blocks up to the last of the stored
  -- and waiting boundaries, which is not before that one.
  pub finalize-returns :
      (there : H → Bool) (ids : List ℕ) (w : Writer S D) (tc : ℕ) (s : S)
      → ((h : H) → there h ≡ true)
      → is_boundary block (length ids) tc ≡ true
      → find tc w.snapshots ≡ some s
      → (latest : ℕ) × (tc ≤ latest)
        × (last_boundary (valid block (length ids) w.snapshots w.stored) ≡ some latest)
        × ((finalize store hash block there true ids w).1
            ≡ returned (chain_hashes hash block (take latest ids)))
  unfolding finalize valid
  finalize-returns there ids w tc s all b e =
      let listed =
        has-insert_all tc (in_time block (length ids) (keys w.snapshots)) (insert_all w.stored [])
          (has-in_time block (length ids) tc (keys w.snapshots) b (has-keys tc s w.snapshots e)) in
      let within = in_time block (length ids) (keys w.snapshots) in
      let sorted =
        insert_all-IsAscending within (insert_all w.stored [])
          (insert_all-IsAscending w.stored [] (omega arith)) in
      let (latest, eq, le) =
        has-last_boundary tc (insert_all within (insert_all w.stored [])) sorted listed in
      (
        latest,
        le,
        eq,
        rw (not_nil tc s w.snapshots e) (
            ap (λ l. (up_to store hash block there true ids w l).1) eq
            ∙ up_to_returns there ids w latest all),
      )

module _ (timeout : ℕ) where
  -- `_drain` ends at the latest in the first round after its timeout, whatever the files do.
  pub drain-timeout :
      (ps : List DrainPoll) (p : DrainPoll) (rest : List DrainPoll) (last_sizes : List (Option ℕ))
      (files_done : Option ℕ) (stall_t0 : ℕ)
      → timeout ≤ p.elapsed
      → (r : Drained) × (drain last_sizes files_done stall_t0 timeout (ps ++ (p ∷ rest)) ≡ some r)
  unfolding drain
  drain-timeout [] p rest last_sizes files_done stall_t0 late =
      (timed_out, rw (le→leb timeout p.elapsed late) refl)
  drain-timeout (q ∷ ps) p rest last_sizes files_done stall_t0 late =
      let n = count_written q.sizes in
      let progress = is_progress files_done n in
      let ih =
        drain-timeout ps p rest q.sizes (some n) (if progress then q.elapsed else stall_t0) late in
      elim (Bool-cases (leb timeout q.elapsed)) [
        | inl over ↦ (timed_out, rw over refl)
        | inr in_time ↦ elim (Bool-cases (are_settled last_sizes q.sizes)) [
          | inl settled ↦ (all_written, rw in_time (rw settled refl))
          | inr open_yet ↦ elim (Bool-cases (not progress && ltb 30 (q.elapsed - stall_t0))) [
            | inl stuck ↦ (stalled, rw in_time (rw open_yet (rw stuck refl)))
            | inr going ↦ let (r, e) = ih in (r, rw in_time (rw open_yet (rw going e)))
          ]
        ]
      ]
