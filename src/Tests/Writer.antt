-- ===== src/Tests/Writer.antt =====
-- A prompt of five tokens with blocks of two, written to a store that keeps what it gets.
use mathlib.Core.Option.{some_inj}
use pd_bridge.Prelude.{
  ℕ, ◌+◌, ◌≡◌, ◌≢◌, ◌≤◌, refl, ap, ◌∙◌, sym, Bool, true, false, ◌&&◌, Option, none, some, List, [],
  ◌∷◌, ◌==◌, ==_iff, ==_self, if◌then◌else◌, arith, length, take, find, put, pop, Bool-cases, inl,
  inr,
}
use pd_bridge.Hook.Finish.{insert, insert_all}
use pd_bridge.OmlxBlock.Hashes
use pd_bridge.OmlxBlock.Hashes.{hash_input, chain_from}
use pd_bridge.Writer.{
  Store, returned, raised, no_snapshot, store_boundary, store_pending, snapshot, valid, in_time,
  last_boundary, intermediate,
}
use pd_bridge.Writer.Finalize.{
  finalize, chain_hashes, hashes_from, DrainPoll, Drained, all_written, drain,
}
use pd_bridge.Writer.Stored.{KeepsBlocks}
use pd_bridge.Writer.Life.{Event, takes, stores, live, fresh}
use pd_bridge.Writer.Complete.{finalize-live}
use pd_bridge.Writer.Ends.{finalize-returns, chain_hashes-connector, drain-timeout}

abbrev same : List ℕ → List ℕ → Bool
same [] [] = true
same [] (b ∷ bs) = false
same (a ∷ l) [] = false
same (a ∷ l) (b ∷ bs) = (a == b) && same l bs

same_self : (l : List ℕ) → same l l ≡ true
same_self [] = refl
same_self (a ∷ l) = rw (==_self a) (same_self l)

same_sound : (l bs : List ℕ) → same l bs ≡ true → l ≡ bs
same_sound [] [] e = refl
same_sound [] (b ∷ bs) e = absurd (cc e)
same_sound (a ∷ l) [] e = absurd (cc e)
same_sound (a ∷ l) (b ∷ bs) e = elim (Bool-cases (a == b)) [
  | inl eq ↦ cc ((==_iff a b).0 eq, same_sound l bs (ap (λ c. c && same l bs) (sym eq) ∙ e))
  | inr ne ↦ absurd (cc (ap (λ c. c && same l bs) ne, e))
]

abbrev Disk : Type 0
Disk = List ℕ → Option ℕ

abbrev or_else : Option ℕ → Option ℕ → Option ℕ
or_else none o = o
or_else (some n) o = some n

abbrev keeping : Store ℕ Disk
keeping = record {
  store_cache = λ d ids s inter.
      some (λ p. if same p ids then some s else or_else (find (length p) inter) (d p));
}

differs : (ids p : List ℕ) → p ≢ ids → same p ids ≡ false
differs ids p ne = elim (Bool-cases (same p ids)) [
  | inl eq ↦ absurd (ne (same_sound p ids eq))
  | inr no_way ↦ no_way
]

keeping-KeepsBlocks : KeepsBlocks keeping (λ (d : Disk) p. d p)
keeping-KeepsBlocks = record {
  own = λ d d' ids s inter e. ap (λ f. f ids) (sym (some_inj.0 e)) ∙ rw (same_self ids) refl;
  others = λ d d' ids p s inter e ne gone.
      ap (λ f. f p) (sym (some_inj.0 e)) ∙ rw (differs ids p ne) (ap (λ o. or_else o (d p)) gone);
}

abbrev prompt : List ℕ
prompt = 5 ∷ 6 ∷ 7 ∷ 8 ∷ 9 ∷ []

abbrev events : List (Event ℕ)
events = takes 40 2 ∷ stores 2 ∷ takes 41 4 ∷ stores 3 ∷ []

abbrev count_hash : Option ℕ → List ℕ → ℕ
count_hash none ids = 1
count_hash (some h) ids = h + 1

abbrev empty_disk : Disk
empty_disk p = none

written :
    (finalize keeping count_hash 2
      (λ h. true)
      true
      prompt
      (live keeping (λ c tc. c) 2 events (fresh prompt empty_disk)).writer).1
    ≡ returned (1 ∷ 2 ∷ [])
unfolding finalize store_pending snapshot store_boundary valid in_time insert_all insert
    last_boundary hashes_from find put pop
written = refl

taken : find 4 (live keeping (λ c tc. c) 2 events (fresh prompt empty_disk)).kept ≡ some 41
unfolding find put pop snapshot store_boundary
taken = refl

found : find {A = ℕ} 4 ((4, 41) ∷ []) ≡ some 41
unfolding find
found = refl

finalize-live_example :
    (finalize keeping count_hash 2
        (λ h. true)
        true
        prompt
        (live keeping (λ c tc. c) 2 events (fresh prompt empty_disk)).writer).0.disk
      (take 4 prompt)
    ≡ some 41
finalize-live_example =
    finalize-live keeping (λ (d : Disk) p. d p) keeping-KeepsBlocks (λ (c tc : ℕ). c) 2 prompt
      count_hash (λ h. true) empty_disk events (1 ∷ 2 ∷ []) 4 41 refl taken written

-- what is already stored is missing from the table when all boundaries go in one call
batched_fails :
    (finalize keeping count_hash 2
      (λ h. true)
      false
      prompt
      (live keeping (λ c tc. c) 2 events (fresh prompt empty_disk)).writer).1
    ≡ raised no_snapshot
unfolding finalize snapshot store_boundary valid in_time insert_all insert last_boundary hashes_from
    find put pop intermediate
batched_fails = refl

finalize-returns_example :
    (latest : ℕ) × (4 ≤ latest)
    × (last_boundary (valid {S = ℕ} 2 (length prompt) ((4, 41) ∷ []) []) ≡ some latest)
    × ((finalize keeping count_hash 2
          (λ h. true)
          true
          prompt
          (record {
            snapshots = (4, 41) ∷ [];
            stored = [];
            stream_ids = none;
            disk = empty_disk;
          })).1
        ≡ returned (chain_hashes count_hash 2 (take latest prompt)))
finalize-returns_example =
    finalize-returns keeping count_hash 2 (λ d ids s inter. (_, refl)) (λ h. true) prompt
      (record { snapshots = (4, 41) ∷ []; stored = []; stream_ids = none; disk = empty_disk }) 4 41
      (λ h. refl) refl found

chain_hashes-connector_example :
    chain_hashes (λ p ids. (hash_input (65 ∷ []) p ids)) 2 prompt
    ≡ Hashes.chain_hashes (λ bytes. bytes) (65 ∷ []) 2 prompt
chain_hashes-connector_example = chain_hashes-connector (λ bytes. bytes) (65 ∷ []) 2 prompt

abbrev first_poll : DrainPoll
first_poll = record { elapsed = 0; sizes = none ∷ some 7 ∷ [] }

abbrev late_poll : DrainPoll
late_poll = record { elapsed = 45; sizes = some 7 ∷ some 7 ∷ [] }

drain-timeout_example : (r : Drained) × (drain [] none 0 45 (first_poll ∷ late_poll ∷ []) ≡ some r)
drain-timeout_example = drain-timeout 45 (first_poll ∷ []) late_poll [] [] none 0 (omega arith)

drains :
    drain [] none 0 45 (
      first_poll
      ∷ record { elapsed = 1; sizes = some 7 ∷ some 7 ∷ [] }
      ∷ record { elapsed = 2; sizes = some 7 ∷ some 7 ∷ [] }
      ∷ [])
    ≡ some all_written
unfolding drain
drains = refl
