-- ===== src/Writer/Life.antt =====
-- The life of a writer: snapshots are taken and some are stored at once, and what it has taken waits or is stored.
use mathlib.Core.Path.{subst}
use pd_bridge.Prelude.{
  ℕ, ◌≤◌, ◌%◌, ◌≡◌, ◌≢◌, refl, ap, ◌∙◌, sym, true, Option, none, some, List, [], ◌∷◌, ◌++◌, inl,
  inr, arith, length, take, ◌==◌, find, put, pop, find-pop_same, find-pop_other, find-put_same,
  find-put_other, Bool-cases, ==_iff,
}
use pd_bridge.Writer.{
  Writer, Store, Tried, returned, raised, store_gave_none, is_boundary, begin_stream, snapshot,
  store_boundary, store_in, store_found, stored_at,
}
use pd_bridge.Writer.Stored.{KeepsBlocks, IsKept, AllWithin, stored-IsKept}
use pd_bridge.Writer.Boundaries.{boundary_within}

-- What a caller does with a writer: it takes the snapshot of a cache at a position, or stores the one at a position.
pub data Event (C : Type 0) : Type 0 where
  takes : C → ℕ → Event C
  stores : ℕ → Event C

-- The writer, and by position the last snapshot whose storing has not failed.
pub record Life (S D : Type 0) : Type 0 where
  pub writer : Writer S D
  pub kept : List (ℕ × S)

-- a new writer after `begin_stream`
abbrev pub fresh : {S D : Type 0} → List ℕ → D → Life S D
fresh ids disk = record {
  writer =
      begin_stream ids (record { snapshots = []; stored = []; stream_ids = none; disk = disk });
  kept = [];
}

module _ {S D C : Type 0} (store : Store S D) (extract : C → ℕ → S) (block : ℕ) where
  abbrev after_taking : C → ℕ → Life S D → Tried (Writer S D) → Life S D
  after_taking c n l (raised e) = l
  after_taking c n l (returned w) = record { writer = w; kept = put n (extract c n) l.kept }

  abbrev after_storing : ℕ → Life S D → Writer S D × Tried (Unit {0}) → Life S D
  after_storing n l (w, returned u) = record l { writer = w }
  after_storing n l (w, raised store_gave_none) = record { writer = w; kept = pop n l.kept }
  after_storing n l (w, raised e) = record l { writer = w }

  abbrev pub act : Event C → Life S D → Life S D
  act (takes c n) l = after_taking c n l (snapshot extract block c n l.writer)
  act (stores n) l = after_storing n l (store_boundary store block n l.writer)

  abbrev pub live : List (Event C) → Life S D → Life S D
  live [] l = l
  live (e ∷ es) l = live es (act e l)

-- The caller streams the prompt `ids`; what it has taken waits or is in its block.
pub record IsLife {S D : Type 0} (block_at : D → List ℕ → Option S) (block : ℕ) (ids : List ℕ)
    (l : Life S D) : Type 0 where
  pub streams : l.writer.stream_ids ≡ some ids
  pub within : AllWithin (length ids) l.writer.stored
  pub is_kept :
      (tc : ℕ) (s : S)
      → is_boundary block (length ids) tc ≡ true
      → find tc l.kept ≡ some s
      → IsKept block_at ids tc s l.writer.snapshots l.writer.disk

AllWithin-append : (T n : ℕ) (ns : List ℕ) → n ≤ T → AllWithin T ns → AllWithin T (ns ++ (n ∷ []))
AllWithin-append T n [] h all = (h, omega arith)
AllWithin-append T n (j ∷ ns) h (hj, all) = (hj, AllWithin-append T n ns h all)

module _ {S D C : Type 0} (store : Store S D) (block_at : D → List ℕ → Option S)
    (law : KeepsBlocks store block_at) (extract : C → ℕ → S) (block : ℕ) (ids : List ℕ) where
  same_entry :
      (tc : ℕ) (s : S) (m m' : List (ℕ × S)) (d : D)
      → find tc m ≡ find tc m'
      → IsKept block_at ids tc s m' d
      → IsKept block_at ids tc s m d
  same_entry tc s m m' d e (inl here) = inl (e ∙ here)
  same_entry tc s m m' d e (inr (gone, there)) = inr (e ∙ gone, there)

  put_kept :
      (n : ℕ) (a : S) (l : Life S D) (tc : ℕ) (s : S)
      → IsLife block_at block ids l
      → is_boundary block (length ids) tc ≡ true
      → find tc (put n a l.kept) ≡ some s
      → IsKept block_at ids tc s (put n a l.writer.snapshots) l.writer.disk
  put_kept n a l tc s life b e = elim (Bool-cases (n == tc)) [
    | inl same ↦
        let eq : n ≡ tc = (==_iff n tc).0 same in
        inl (
          ap (λ k. find k (put n a l.writer.snapshots)) (sym eq)
          ∙ find-put_same n a l.writer.snapshots
          ∙ sym (find-put_same n a l.kept)
          ∙ ap (λ k. find k (put n a l.kept)) eq
          ∙ e)
    | inr other ↦
        same_entry tc s (put n a l.writer.snapshots) l.writer.snapshots l.writer.disk
          (find-put_other tc n a l.writer.snapshots other)
          (life.is_kept tc s b (sym (find-put_other tc n a l.kept other) ∙ e))
  ]

  -- a snapshot that the store refuses is given up
  pop_kept :
      (n : ℕ) (l : Life S D) (tc : ℕ) (s : S)
      → IsLife block_at block ids l
      → is_boundary block (length ids) tc ≡ true
      → find tc (pop n l.kept) ≡ some s
      → IsKept block_at ids tc s (pop n l.writer.snapshots) l.writer.disk
  pop_kept n l tc s life b e = elim (Bool-cases (n == tc)) [
    | inl same ↦
        let eq : n ≡ tc = (==_iff n tc).0 same in
        absurd (cc (find-pop_same n l.kept, ap (λ k. find k (pop n l.kept)) eq, e))
    | inr other ↦
        let ne : tc ≢ n = λ eq. ground (arith, other, eq, ==_iff n tc) in
        same_entry tc s (pop n l.writer.snapshots) l.writer.snapshots l.writer.disk
          (find-pop_other n tc l.writer.snapshots ne)
          (life.is_kept tc s b (sym (find-pop_other n tc l.kept ne) ∙ e))
  ]

  act_takes :
      (c : C) (n : ℕ) (l : Life S D)
      → IsLife block_at block ids l
      → IsLife block_at block ids (act store extract block (takes c n) l)
  unfolding snapshot
  act_takes c n l life = elim (Bool-cases (n % block == 0)) [
    | inl aligned ↦ rw aligned (record {
      streams = life.streams;
      within = life.within;
      is_kept = λ tc s b e. put_kept n (extract c n) l tc s life b e;
    })
    | inr not_so ↦ rw not_so life
  ]

  -- what `store_boundary` does with a snapshot that is there
  stores_found :
      (n : ℕ) (l : Life S D) (o : Option S) (d' : Option D)
      → IsLife block_at block ids l
      → n ≤ length ids
      → (a : S) → find n l.writer.snapshots ≡ some a
      → store.store_cache l.writer.disk (take n ids) a [] ≡ d'
      → IsLife block_at block ids (
          after_storing store extract block n l
            (stored_at store block n l.writer (pop n l.writer.snapshots) d'))
  stores_found n l o none life h a found e = record {
    streams = life.streams;
    within = life.within;
    is_kept = λ tc s b e'. pop_kept n l tc s life b e';
  }
  stores_found n l o (some d) life h a found e = record {
    streams = life.streams;
    within = AllWithin-append (length ids) n l.writer.stored h life.within;
    is_kept = λ tc s b e'.
        stored-IsKept store block_at law ids tc (boundary_within block (length ids) tc b) s n a
          l.writer.snapshots l.writer.disk d h found e (life.is_kept tc s b e');
  }

  act_stores_found :
      (n : ℕ) (l : Life S D) (o : Option S)
      → IsLife block_at block ids l
      → n ≤ length ids
      → find n l.writer.snapshots ≡ o
      → IsLife block_at block ids
          (after_storing store extract block n l (store_found store block n ids l.writer o))
  act_stores_found n l none life h e = record {
    streams = life.streams;
    within = life.within;
    is_kept = life.is_kept;
  }
  act_stores_found n l (some a) life h e =
      stores_found n l (some a) (store.store_cache l.writer.disk (take n ids) a []) life h a e refl

  act_stores :
      (n : ℕ) (l : Life S D)
      → IsLife block_at block ids l
      → IsLife block_at block ids (act store extract block (stores n) l)
  unfolding store_boundary
  act_stores n l life =
      subst
        (λ o.
          IsLife block_at block ids
            (after_storing store extract block n l (store_in store block n l.writer o)))
        (sym life.streams)
        (elim (Bool-cases (is_boundary block (length ids) n)) [
          | inl is ↦ rw is (
              act_stores_found n l (find n l.writer.snapshots) life
                (boundary_within block (length ids) n is) refl)
          | inr isnt ↦
              rw isnt
                (record { streams = life.streams; within = life.within; is_kept = life.is_kept })
        ])

  pub live-IsLife :
      (es : List (Event C)) (l : Life S D)
      → IsLife block_at block ids l
      → IsLife block_at block ids (live store extract block es l)
  live-IsLife [] l life = life
  live-IsLife (takes c n ∷ es) l life =
      live-IsLife es (act store extract block (takes c n) l) (act_takes c n l life)
  live-IsLife (stores n ∷ es) l life =
      live-IsLife es (act store extract block (stores n) l) (act_stores n l life)

  pub fresh-IsLife : (disk : D) → IsLife block_at block ids (fresh ids disk)
  unfolding find
  fresh-IsLife disk = record {
    streams = refl;
    within = omega arith;
    is_kept = λ tc s b e. absurd (cc e);
  }
