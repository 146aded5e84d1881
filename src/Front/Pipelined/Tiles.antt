-- ===== src/Front/Pipelined/Tiles.antt =====
-- The updates are the chunks of the prompt, one behind the other, with the rows of the layers' files.
use mathlib.Core.Path.{subst}
use mathlib.Core.List.{map-append}
use mathlib.Core.Option.{some_inj}
use pd_bridge.Prelude.{
  ℕ, zero, suc, ◌+◌, ◌-◌, ◌*◌, ◌/◌, ◌%◌, ◌<◌, ◌≤◌, ◌≡◌, refl, ap, ◌∙◌, sym, min, inl, inr, Bool,
  true, false, Option, none, some, List, [], ◌∷◌, ◌++◌, map, append-nil, leb, ◌==◌, if◌then◌else◌,
  length, take, drop, slice, joined, take_add, drop-drop, arith, take-drop-take, leb→le,
  leb-false→lt, ltb, ltb→lt, ◌&&◌, get_elem?, mul_mono, div_unique, ==_iff, Bool-cases,
  Option-cases,
}
use pd_bridge.Hook.Boundaries.{boundaries, boundaries-zero, range_list}
use pd_bridge.Front.Pipelined.{
  Layer, Update, Pipe, Landing, new_layer, begin, pull_layer, pull, chunk_end, all_have, rebuild,
  snapshots_of, number_of_chunks, round, rounds,
}

-- `n` chunks from the one with number `k`
unfoldable pub tiles : ℕ → ℕ → ℕ → ℕ → List (ℕ × ℕ)
tiles T chunk k zero = []
tiles T chunk k (suc n) = (k * chunk, chunk_end T chunk k) ∷ tiles T chunk (k + 1) n

-- the rows that a layer is updated with
abbrev pub rows_of {ℓ} : {V : Type ℓ} → List (ℕ × ℕ) → List V → List V
rows_of updates xs = joined (map (λ (u : ℕ × ℕ). slice u.0 u.1 xs) updates)

times_out : (k n c : ℕ) → (k + suc (suc n)) * c ≡ (k + 1) * c + (n * c + c)
times_out k n c =
    ap (λ m. m * c) (let e : k + suc (suc n) ≡ k + 1 + n + 1 = omega arith in e) ∙ (omega arith)

-- what the update of the rows [first, last) is, if the layers' files are these
abbrev pub update_of : {V : Type 0} → List (List V) → ℕ × ℕ → Update V
update_of files u = record { first = u.0; last = u.1; parts = map (slice u.0 u.1) files }

both_true : (a b : Bool) → (a && b) ≡ true → (a ≡ true) × (b ≡ true)
both_true a b h = ground arith

slice-take {ℓ} :
    {V : Type ℓ} (i j n : ℕ) (xs : List V) → j ≤ n → slice i j (take n xs) ≡ slice i j xs
slice-take i j n xs h = elim (Bool-cases (leb i j)) [
  | inl le ↦ take-drop-take (j - i) i n xs (omega (arith, h, leb→le i j le))
  | inr past ↦
      ap (λ m. take m (drop i (take n xs)))
        (let e : j - i ≡ 0 = omega (arith, leb-false→lt i j past) in e)
      ∙ ap (λ m. take m (drop i xs)) (let e : 0 ≡ j - i = omega (arith, leb-false→lt i j past) in e)
]

multiple : (c k : ℕ) → 0 < c → (k * c % c == 0) ≡ true
multiple c k pos =
    let e = div_unique k (k * c) c pos (omega arith) (omega (arith, pos)) in
    let same : k * c / c * c ≡ k * c = ap (λ m. m * c) e in
    (==_iff (k * c % c) 0).1 (omega (arith, same, pos))

-- the rows that the layer `i` is updated with, one update behind the other
abbrev pub part_of : {V : Type 0} → Option (List V) → List V
part_of none = []
part_of (some rows) = rows

abbrev pub fed : {V : Type 0} → ℕ → List (Update V) → List V
fed i [] = []
fed i (u ∷ us) = part_of (get_elem? u.parts i) ++ fed i us

get-map :
    {X Y : Type 0} (f : X → Y) (xs : List X) (i : ℕ) (x : X)
    → get_elem? xs i ≡ some x
    → get_elem? (map f xs) i ≡ some (f x)
get-map f [] i x h = absurd (cc h)
get-map f (y ∷ xs) zero x h = ap some (ap f (some_inj.0 h))
get-map f (y ∷ xs) (suc i) x h = get-map f xs i x h

fed-updates :
    {V : Type 0} (files : List (List V)) (i : ℕ) (xs : List V) (us : List (ℕ × ℕ))
    → get_elem? files i ≡ some xs
    → fed i (map (update_of files) us) ≡ rows_of us xs
fed-updates files i xs [] h = refl
fed-updates files i xs (u ∷ us) h =
    ap (λ o. part_of o ++ fed i (map (update_of files) us)) (get-map (slice u.0 u.1) files i xs h)
    ∙ ap (λ l. slice u.0 u.1 xs ++ l) (fed-updates files i xs us h)

module _ {V : Type 0} (T : ℕ) where
  -- A layer has the first rows of its file, no more than the prompt has tokens.
  record IsPulled (l : Layer V) (file : List V) : Type 0 where
    file_eq : l.file ≡ file
    rows_eq : l.rows ≡ take l.pulled file
    within : l.pulled ≤ T

  abbrev ArePulled : List (Layer V) → List (List V) → Type 0
  ArePulled [] [] = 0 ≤ T
  ArePulled [] (f ∷ files) = ⊥
  ArePulled (l ∷ layers) [] = ⊥
  ArePulled (l ∷ layers) (f ∷ files) = IsPulled l f × ArePulled layers files

  begin-ArePulled : (files : List (List V)) → ArePulled (map new_layer files) files
  begin-ArePulled [] = omega arith
  begin-ArePulled (f ∷ files) =
      (record { file_eq = refl; rows_eq = refl; within = omega arith }, begin-ArePulled files)

  pull_layer-IsPulled :
      (size : ℕ) (l : Layer V) (file : List V)
      → IsPulled l file
      → IsPulled (pull_layer T size l) file
  pull_layer-IsPulled size l file h = elim (Bool-cases (ltb l.pulled (min size T))) [
    | inr none_new ↦ rw none_new h
    | inl new ↦
        let avail = min size T in
        rw new (record {
          file_eq = h.file_eq;
          rows_eq =
              ap (λ r. r ++ slice l.pulled avail l.file) h.rows_eq
              ∙ ap (λ f. take l.pulled file ++ slice l.pulled avail f) h.file_eq
              ∙ sym (take_add l.pulled (avail - l.pulled) file)
              ∙ ap (λ m. take m file) (omega (arith, ltb→lt l.pulled avail new));
          within = omega arith;
        })
  ]

  pull-ArePulled :
      (layers : List (Layer V)) (files : List (List V)) (sizes : List ℕ)
      → ArePulled layers files
      → ArePulled (pull T layers sizes) files
  unfolding pull
  pull-ArePulled [] [] sizes h = h
  pull-ArePulled [] (f ∷ files) sizes h = h
  pull-ArePulled (l ∷ layers) [] [] h = h
  pull-ArePulled (l ∷ layers) [] (size ∷ sizes) h = h
  pull-ArePulled (l ∷ layers) (f ∷ files) [] (one, h) =
      (pull_layer-IsPulled 0 l f one, pull-ArePulled layers files [] h)
  pull-ArePulled (l ∷ layers) (f ∷ files) (size ∷ sizes) (one, h) =
      (pull_layer-IsPulled size l f one, pull-ArePulled layers files sizes h)

  parts_eq :
      (s0 s1 : ℕ) (layers : List (Layer V)) (files : List (List V))
      → ArePulled layers files
      → all_have s1 layers ≡ true
      → map (λ (l : Layer V). slice s0 s1 l.rows) layers ≡ map (slice s0 s1) files
  unfolding all_have
  parts_eq s0 s1 [] [] h have = refl
  parts_eq s0 s1 [] (f ∷ files) h have = absurd h
  parts_eq s0 s1 (l ∷ layers) [] h have = absurd h
  parts_eq s0 s1 (l ∷ layers) (f ∷ files) (one, h) have =
      let (enough, others) = both_true (leb s1 l.pulled) (all_have s1 layers) have in
      ap (λ x. x ∷ map (λ (l : Layer V). slice s0 s1 l.rows) layers)
        (ap (slice s0 s1) one.rows_eq ∙ slice-take s0 s1 l.pulled f (leb→le s1 l.pulled enough))
      ∙ ap (◌∷◌ (slice s0 s1 f)) (parts_eq s0 s1 layers files h others)

module _ (T chunk : ℕ) where
  tiles_add : (k m n : ℕ) → tiles T chunk k m ++ tiles T chunk (k + m) n ≡ tiles T chunk k (m + n)
  unfolding tiles
  tiles_add k zero n =
      ap (λ j. tiles T chunk j n) (let e : k + 0 ≡ k = omega arith in e)
      ∙ ap (tiles T chunk k) (let e : n ≡ 0 + n = omega arith in e)
  tiles_add k (suc m) n =
      ap (◌∷◌ (k * chunk, chunk_end T chunk k)) (
        ap (λ j. tiles T chunk (k + 1) m ++ tiles T chunk j n)
          (let e : k + suc m ≡ k + 1 + m = omega arith in e)
        ∙ tiles_add (k + 1) m n)
      ∙ ap (tiles T chunk k) (let e : suc (m + n) ≡ suc m + n = omega arith in e)

  module _ {V : Type 0} (files : List (List V)) where
    abbrev updates : List (ℕ × ℕ) → List (Update V)
    updates = map (update_of files)

    rebuild_lem :
        (layers : List (Layer V)) (k left : ℕ)
        → ArePulled T layers files
        → (rebuild T chunk layers k left
            ≡ updates (tiles T chunk k (length (rebuild T chunk layers k left))))
          × (length (rebuild T chunk layers k left) ≤ left)
    unfolding rebuild tiles
    rebuild_lem layers k zero h = (refl, omega arith)
    rebuild_lem layers k (suc left) h =
        let (more, few) = rebuild_lem layers (k + 1) left h in
        let end = chunk_end T chunk k in
        elim (Bool-cases (all_have end layers)) [
          | inl have ↦ rw have (
            ap
                  (λ ps.
                    record { first = k * chunk; last = end; parts = ps }
                    ∷ rebuild T chunk layers (k + 1) left)
                  (parts_eq T (k * chunk) end layers files h have)
                ∙ ap (◌∷◌ (update_of files (k * chunk, end))) more,
            omega (arith, few),
          )
          | inr wait ↦ rw wait (refl, omega arith)
        ]

    snapshots-append :
        (us vs : List (Update V))
        → snapshots_of chunk (us ++ vs) ≡ snapshots_of chunk us ++ snapshots_of chunk vs
    unfolding snapshots_of
    snapshots-append [] vs = refl
    snapshots-append (u ∷ us) vs =
        let ih = snapshots-append us vs in
        elim (Bool-cases (u.last % chunk == 0)) [
          | inl e ↦ rw e (ap (◌∷◌ u.last) ih)
          | inr ne ↦ rw ne ih
        ]

    -- The chunks that have been rebuilt are the first ones.
    record Tiled (s : Pipe V) : Type 0 where
      pulled_all : ArePulled T s.layers files
      updates_eq : s.updates ≡ updates (tiles T chunk 0 s.next_k)
      snapshots_eq : s.snapshots ≡ snapshots_of chunk s.updates
      in_range : s.next_k ≤ number_of_chunks T chunk

    abbrev AreTiled : Option (Pipe V) → Type 0
    AreTiled none = 0 ≤ T
    AreTiled (some s) = Tiled s

    AreTiled-if : (b : Bool) (s : Pipe V) → Tiled s → AreTiled (if b then none else some s)
    AreTiled-if true s h = omega arith
    AreTiled-if false s h = h

    round-AreTiled : (l : Landing) (s : Pipe V) → Tiled s → AreTiled (round T chunk l s)
    unfolding round
    round-AreTiled l s h =
        let left = number_of_chunks T chunk - s.next_k in
        let layers = pull T s.layers l.sizes in
        let new = rebuild T chunk layers s.next_k left in
        let pulled = pull-ArePulled T s.layers files l.sizes h.pulled_all in
        let (same, few) = rebuild_lem layers s.next_k left pulled in
        AreTiled-if _ _ (record {
          pulled_all = pulled;
          updates_eq =
              ap (λ us. us ++ new) h.updates_eq
              ∙ ap (λ us. updates (tiles T chunk 0 s.next_k) ++ us) same
              ∙ ap
                  (λ k.
                    updates (tiles T chunk 0 s.next_k) ++ updates (tiles T chunk k (length new)))
                  (let e : s.next_k ≡ 0 + s.next_k = omega arith in e)
              ∙ sym (
                  map-append (update_of files) (tiles T chunk 0 s.next_k)
                    (tiles T chunk (0 + s.next_k) (length new)))
              ∙ ap updates (tiles_add 0 s.next_k (length new));
          snapshots_eq =
              ap (λ l. l ++ snapshots_of chunk new) h.snapshots_eq
              ∙ sym (snapshots-append s.updates new);
          in_range = omega (arith, few, h.in_range);
        })

    rounds-AreTiled : (ls : List Landing) (s : Pipe V) → Tiled s → AreTiled (rounds T chunk ls s)
    unfolding rounds
    rounds-AreTiled [] s h = h
    rounds-AreTiled (l ∷ ls) s h = elim (Bool-cases (leb (number_of_chunks T chunk) s.next_k)) [
      | inl over ↦ rw over h
      | inr still ↦ elim (Option-cases (round T chunk l s)) [
        | inl e ↦ rw still (rw e (omega arith))
        | inr (s', e) ↦
            rw still (rw e (rounds-AreTiled ls s' (subst AreTiled e (round-AreTiled l s h))))
      ]
    ]

    begin-Tiled : Tiled (begin files)
    unfolding tiles snapshots_of
    begin-Tiled = record {
      pulled_all = begin-ArePulled T files;
      updates_eq = refl;
      snapshots_eq = refl;
      in_range = omega arith;
    }

    -- the ends of whole chunks
    snapshots-whole :
        (k n : ℕ)
        → 0 < chunk
        → (k + n) * chunk ≤ T
        → snapshots_of chunk (updates (tiles T chunk k n)) ≡ range_list ((k + 1) * chunk) chunk n
    unfolding snapshots_of tiles range_list
    snapshots-whole k zero pos le = refl
    snapshots-whole k (suc n) pos le =
        let far = mul_mono (k + 1) (k + suc n) chunk (omega arith) in
        let whole : min ((k + 1) * chunk) T ≡ (k + 1) * chunk = omega (arith, far, le) in
        let next : (k + 1 + n) * chunk ≡ (k + suc n) * chunk =
          ap (λ m. m * chunk) (let e : k + 1 + n ≡ k + suc n = omega arith in e) in
        let ih = snapshots-whole (k + 1) n pos (omega (arith, next, le)) in
        let step : (k + 1 + 1) * chunk ≡ (k + 1) * chunk + chunk = omega arith in
        rw (ap (λ e. e % chunk == 0) whole ∙ multiple chunk (k + 1) pos) (
          ap (◌∷◌ (min ((k + 1) * chunk) T)) (ih ∙ ap (λ f. range_list f chunk n) step)
          ∙ ap (λ e. e ∷ range_list ((k + 1) * chunk + chunk) chunk n) whole)

    -- the end of a last chunk that is not whole
    snapshots-rest :
        (k : ℕ)
        → T < (k + 1) * chunk
        → (T % chunk == 0) ≡ false
        → snapshots_of chunk (updates (tiles T chunk k 1)) ≡ []
    unfolding snapshots_of tiles
    snapshots-rest k past rest =
        let end : min ((k + 1) * chunk) T ≡ T = omega (arith, past) in
        rw (ap (λ e. e % chunk == 0) end ∙ rest) refl

    snapshots-all :
        0 < chunk
        → snapshots_of chunk (updates (tiles T chunk 0 (number_of_chunks T chunk)))
          ≡ boundaries chunk 0 T
    snapshots-all pos =
        let q = T / chunk in
        let whole : (0 + q) * chunk ≡ q * chunk =
          ap (λ m. m * chunk) (let e : 0 + q ≡ q = omega arith in e) in
        let first : (0 + 1) * chunk ≡ chunk = omega arith in
        let heads : snapshots_of chunk (updates (tiles T chunk 0 q)) ≡ boundaries chunk 0 T =
          snapshots-whole 0 q pos (omega (arith, whole, pos))
          ∙ ap (λ f. range_list f chunk q) first
          ∙ sym (boundaries-zero chunk T pos) in
        elim (Bool-cases (T % chunk == 0)) [
          | inl even ↦
              let none_left : T % chunk ≡ 0 = (==_iff (T % chunk) 0).0 even in
              let nb : (T + chunk - 1) / chunk ≡ q =
                div_unique q (T + chunk - 1) chunk pos (omega (arith, none_left, pos))
                  (omega (arith, none_left, pos)) in
              ap (λ n. snapshots_of chunk (updates (tiles T chunk 0 n))) nb ∙ heads
          | inr rest ↦
              let some_left : 0 < T % chunk = ground (arith, rest) in
              let more : (q + 1) * chunk ≡ q * chunk + chunk = omega arith in
              let nb : (T + chunk - 1) / chunk ≡ q + 1 =
                div_unique (q + 1) (T + chunk - 1) chunk pos (omega (arith, some_left, pos, more))
                  (omega (arith, some_left, pos, more)) in
              ap (λ n. snapshots_of chunk (updates (tiles T chunk 0 n))) nb
              ∙ ap (λ us. snapshots_of chunk (updates us)) (sym (tiles_add 0 q 1))
              ∙ ap (snapshots_of chunk)
                  (map-append (update_of files) (tiles T chunk 0 q) (tiles T chunk (0 + q) 1))
              ∙ snapshots-append (updates (tiles T chunk 0 q)) (updates (tiles T chunk (0 + q) 1))
              ∙ ap
                  (λ k.
                    snapshots_of chunk (updates (tiles T chunk 0 q))
                    ++ snapshots_of chunk (updates (tiles T chunk k 1)))
                  (let e : 0 + q ≡ q = omega arith in e)
              ∙ ap (λ l. snapshots_of chunk (updates (tiles T chunk 0 q)) ++ l)
                  (snapshots-rest q (omega (arith, more, pos)) rest)
              ∙ append-nil (snapshots_of chunk (updates (tiles T chunk 0 q)))
              ∙ heads
        ]

  module _ {V : Type 0} (pos : 0 < chunk) where
    slice-slice :
        (i j k : ℕ) (xs : List V) → i ≤ j → j ≤ k → slice i j xs ++ slice j k xs ≡ slice i k xs
    slice-slice i j k xs h h' =
        ap (λ l. slice i j xs ++ take (k - j) l)
          (ap (λ m. drop m xs) (let e : j ≡ i + (j - i) = omega arith in e)
            ∙ sym (drop-drop (j - i) i xs))
        ∙ sym (take_add (j - i) (k - j) (drop i xs))
        ∙ ap (λ m. take m (drop i xs)) (let e : j - i + (k - j) ≡ k - i = omega arith in e)

    empty_slice : (i j : ℕ) (xs : List V) → j ≤ i → [] ≡ slice i j xs
    empty_slice i j xs h = ap (λ m. take m (drop i xs)) (let e : 0 ≡ j - i = omega arith in e)

    rows-tiles :
        (xs : List V) (k n : ℕ)
        → (k + n) * chunk < T + chunk
        → rows_of (tiles T chunk k n) xs ≡ slice (k * chunk) (min ((k + n) * chunk) T) xs
    unfolding tiles
    rows-tiles xs k zero h = empty_slice (k * chunk) (min ((k + 0) * chunk) T) xs (
        let e : (k + 0) * chunk ≡ k * chunk =
          ap (λ m. m * chunk) (let z : k + 0 ≡ k = omega arith in z) in
        omega (arith, e))
    rows-tiles xs k (suc zero) h = append-nil (slice (k * chunk) (chunk_end T chunk k) xs)
    rows-tiles xs k (suc (suc n)) h =
        let far : (k + 1 + suc n) * chunk ≡ (k + suc (suc n)) * chunk =
          ap (λ m. m * chunk) (let e : k + 1 + suc n ≡ k + suc (suc n) = omega arith in e) in
        let wide : (k + suc (suc n)) * chunk ≡ (k + 1) * chunk + (n * chunk + chunk) =
          times_out k n chunk in
        let whole : chunk_end T chunk k ≡ (k + 1) * chunk = omega (arith, wide) in
        ap (λ j. slice (k * chunk) j xs ++ rows_of (tiles T chunk (k + 1) (suc n)) xs) whole
        ∙ ap (λ l. slice (k * chunk) ((k + 1) * chunk) xs ++ l)
            (rows-tiles xs (k + 1) (suc n) (omega (arith, far)))
        ∙ slice-slice (k * chunk) ((k + 1) * chunk) (min ((k + 1 + suc n) * chunk) T) xs
            (omega arith) (omega (arith, far, wide))
        ∙ ap (λ m. slice (k * chunk) (min m T) xs) far

    -- For a positive chunk size, a prompt that is not empty, and whatever lands in the rounds: if all chunks have been rebuilt,
    -- each layer has been updated with the rows of its own file up to the end of the prompt, in order and once, and the
    -- snapshots are at the multiples of the chunk size up to the end of the prompt.
    pub rounds-whole :
        (files : List (List V)) (ls : List Landing) (s : Pipe V)
        → 0 < T
        → rounds T chunk ls (begin files) ≡ some s
        → number_of_chunks T chunk ≤ s.next_k
        → ((i : ℕ) (xs : List V) → get_elem? files i ≡ some xs → fed i s.updates ≡ take T xs)
          × (s.snapshots ≡ boundaries chunk 0 T)
    rounds-whole files ls s some_rows e over =
        let tiled : Tiled files s =
          subst (AreTiled files) e (rounds-AreTiled files ls (begin files) (begin-Tiled files)) in
        let all : s.next_k ≡ number_of_chunks T chunk = omega (arith, tiled.in_range, over) in
        let tokens : (0 + s.next_k) * chunk ≡ (T + chunk - 1) / chunk * chunk =
          ap (λ m. m * chunk) (let z : 0 + s.next_k ≡ s.next_k = omega arith in z ∙ all) in
        let reach : min ((0 + s.next_k) * chunk) T ≡ T = omega (arith, pos, tokens) in
        let short : (0 + s.next_k) * chunk < T + chunk = omega (arith, pos, tokens) in
        (
          λ i xs found.
              ap (fed i) tiled.updates_eq
              ∙ fed-updates files i xs (tiles T chunk 0 s.next_k) found
              ∙ rows-tiles xs 0 s.next_k short
              ∙ ap (λ i. slice i (min ((0 + s.next_k) * chunk) T) xs)
                  (let e : 0 * chunk ≡ 0 = omega arith in e)
              ∙ ap (λ j. slice 0 j xs) reach
              ∙ ap (λ m. take m xs) (let e : T - 0 ≡ T = omega arith in e),
          tiled.snapshots_eq
              ∙ ap (snapshots_of chunk)
                  (tiled.updates_eq ∙ ap (λ n. map (update_of files) (tiles T chunk 0 n)) all)
              ∙ snapshots-all files pos,
        )
