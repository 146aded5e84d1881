-- ===== src/Pool/Chunks.antt =====
-- Pooling in chunks gives the rows of one pass over the whole.
use mathlib.Core.Path.{subst}
use pd_bridge.Prelude.{
  joined, div_unique, ℕ-cases, ℕ, ◌+◌, ◌-◌, ◌*◌, ◌/◌, ◌%◌, ◌<◌, ◌≡◌, refl, ap, ◌∙◌, sym, Bool, true,
  false, Option, none, some, List, [], ◌∷◌, ◌++◌, map, arith, drop_of_length-le, ltb, ◌==◌,
  if◌then◌else◌, length, take, drop, append-nil, append_assoc, length-append, inl, inr,
}
use pd_bridge.Pool.{
  Ops, Carry, new_carry, indexed, windows, last_of, unless_empty, simple_compress, pooled,
  pool_layer, pool_each, pool_chunks,
}
use pd_bridge.Pool.Windows.{
  length-windows, buffered-unless_empty, map-append, length-map, indexed-append, overlapping,
  pooled_overlap, length-pooled, pooled-append,
}
use pd_bridge.Pool.Calls.{after, whole, busy, idle, carried, times_pos}
use pd_bridge.Pool.Behind.{
  q, rest, n, all_windows, drop-all, new_windows, new_rest, old_windows, more_windows, windows_eq,
  last_more, place,
}

module _ {A H P : Type 0} (ops : Ops A H P) (r : ℕ) (pos : 0 < r) where
  open ops use {norm, rotate}

  -- the rows that a call adds
  abbrev pub added : List A → List A → List P
  added xs ys =
      indexed rotate (q r pos xs ys)
        (map norm (pooled ops (r == 4) (after r xs).prev (more_windows r pos xs ys)))

  pub whole-added : (xs ys : List A) → whole ops r xs ++ added xs ys ≡ whole ops r (xs ++ ys)
  whole-added xs ys =
      let o = r == 4 in
      let ws = old_windows r pos xs ys in
      let vs = more_windows r pos xs ys in
      let a = map norm (pooled ops o none ws) in
      let b = map norm (pooled ops o (if o then last_of ws else none) vs) in
      let size : q r pos xs ys ≡ 0 + length a =
        sym (length-windows r (q r pos xs ys) xs)
        ∙ sym (length-pooled ops o ws)
        ∙ sym (length-map norm (pooled ops o none ws))
        ∙ omega arith in
      ap (λ k. indexed rotate 0 a ++ indexed rotate k b) size
      ∙ sym (indexed-append rotate 0 a b)
      ∙ ap (indexed rotate 0) (
          sym (map-append norm (pooled ops o none ws) _)
          ∙ ap (map norm) (
              sym (pooled-append ops o ws vs)
              ∙ ap (pooled ops o none) (sym (windows_eq r pos xs ys))))

  -- a call that completes windows
  busy_step :
      (xs ys : List A)
      → 0 < n r pos xs ys * r
      → pool_layer ops r r ys (length xs) (after r xs) ≡ some (added xs ys, after r (xs ++ ys))
  busy_step xs ys h =
      let e = buffered-unless_empty (rest r pos xs ys) in
      let size : List A → ℕ = λ b. (length b + length ys) / r * r in
      busy ops r r ys (length xs) (after r xs) (more_windows r pos xs ys) _ (q r pos xs ys) refl
        (subst (λ b. 0 < size b) (sym e) h)
        (ap (λ b. windows r (size b / r) (b ++ take (size b - length b) ys)) e
          ∙ new_windows r pos xs ys h)
        (ap
            (λ b.
              if ltb 0 ((length b + length ys) % r)
              then some (drop (length ys - (length b + length ys) % r) ys)
              else none)
            e
          ∙ new_rest r pos xs ys h)
        (ap (λ b. (length xs - length b) / r) e ∙ place r pos xs ys)
      ∙ cc (
        carried (r == 4) (last_of (more_windows r pos xs ys))
            (last_of (windows r (length (xs ++ ys) / r) (xs ++ ys)))
            (last_of (old_windows r pos xs ys))
            (ap last_of (windows_eq r pos xs ys) ∙ last_more r pos xs ys h),
        length-append xs ys,
      )

  pooled-nil : (o : Bool) (prev : Option (List A)) → pooled ops o prev [] ≡ []
  unfolding pooled simple_compress overlapping
  pooled-nil true prev = pooled_overlap ops prev []
  pooled-nil false prev = refl

  -- a call that completes none
  idle_step :
      (xs ys : List A)
      → n r pos xs ys ≡ 0
      → pool_layer ops r r ys (length xs) (after r xs) ≡ some (added xs ys, after r (xs ++ ys))
  unfolding windows indexed
  idle_step xs ys h =
      let e = buffered-unless_empty (rest r pos xs ys) in
      let none_new : more_windows r pos xs ys ≡ [] =
        ap (λ k. windows r k (drop (q r pos xs ys * r) (xs ++ ys))) h in
      let same : windows r (length (xs ++ ys) / r) (xs ++ ys) ≡ old_windows r pos xs ys =
        windows_eq r pos xs ys
        ∙ ap (λ ws. old_windows r pos xs ys ++ ws) none_new
        ∙ append-nil (old_windows r pos xs ys) in
      let kept : drop (length (xs ++ ys) / r * r) (xs ++ ys) ≡ rest r pos xs ys ++ ys =
        ap (λ k. drop (k * r) (xs ++ ys)) (all_windows r pos xs ys ∙ ap (λ k. q r pos xs ys + k) h)
        ∙ drop-all r pos xs ys 0
        ∙ ap (λ k. drop k (rest r pos xs ys ++ ys)) (let z : 0 * r ≡ 0 = omega arith in z) in
      let nothing : added xs ys ≡ [] =
        ap
          (λ ws.
            indexed rotate (q r pos xs ys) (map norm (pooled ops (r == 4) (after r xs).prev ws)))
          none_new
        ∙ ap (λ ps. indexed rotate (q r pos xs ys) (map norm ps))
            (pooled-nil (r == 4) (after r xs).prev) in
      idle ops r r ys (length xs) (after r xs) refl (
        ap (λ b. (length b + length ys) / r * r) e
        ∙ ap (λ k. k * r) h
        ∙ (let z : 0 * r ≡ 0 = omega arith in z))
      ∙ cc (kept, same, length-append xs ys, nothing)

  pub step :
      (xs ys : List A)
      → pool_layer ops r r ys (length xs) (after r xs) ≡ some (added xs ys, after r (xs ++ ys))
  step xs ys = elim (ℕ-cases (n r pos xs ys)) [
    | inl h ↦ idle_step xs ys h
    | inr h ↦ busy_step xs ys (times_pos (n r pos xs ys) r h pos)
  ]

  chunks_cons :
      (rows : List A) (chunks : List (List A)) (start : ℕ) (c c' c'' : Carry A) (p ps : List P)
      → pool_layer ops r r rows start c ≡ some (p, c')
      → pool_each ops r r chunks (start + length rows) c' ≡ some (ps, c'')
      → pool_each ops r r (rows ∷ chunks) start c ≡ some (p ++ ps, c'')
  unfolding pool_each
  chunks_cons rows chunks start c c' c'' p ps h k = ground arith

  -- the chunks behind the rows `xs`
  chunks_from :
      (chunks : List (List A)) (xs : List A)
      → (ps : List P) × ((pool_each ops r r chunks (length xs) (after r xs)
            ≡ some (ps, after r (xs ++ joined chunks)))
          × (whole ops r xs ++ ps ≡ whole ops r (xs ++ joined chunks)))
  unfolding pool_each
  chunks_from [] xs = (
    [],
    (
      ap (λ l. some ([], after r l)) (sym (append-nil xs)),
      append-nil (whole ops r xs) ∙ ap (whole ops r) (sym (append-nil xs)),
    ),
  )
  chunks_from (ys ∷ chunks) xs =
      let (ps, (run, rows)) = chunks_from chunks (xs ++ ys) in
      let assoc = append_assoc xs ys (joined chunks) in
      let run' : pool_each ops r r chunks (length xs + length ys) (after r (xs ++ ys))
          ≡ some (ps, after r (xs ++ (ys ++ joined chunks))) =
        ap (λ k. pool_each ops r r chunks k (after r (xs ++ ys))) (sym (length-append xs ys))
        ∙ run
        ∙ ap (λ l. some (ps, after r l)) assoc in
      (
        added xs ys ++ ps,
        (
          chunks_cons ys chunks (length xs) (after r xs) _ _ _ _ (step xs ys) run',
          sym (append_assoc (whole ops r xs) (added xs ys) ps)
              ∙ ap (λ l. l ++ ps) (whole-added xs ys)
              ∙ rows
              ∙ ap (whole ops r) assoc,
        ),
      )

  zero_div : 0 / r ≡ 0
  zero_div = div_unique 0 0 r pos (omega arith) (omega (arith, pos))

  no_last : (o : Bool) → ◌≡◌ {A = Option (List A)} none (if o then none else none)
  no_last true = refl
  no_last false = refl

  pub after-nil : new_carry A ≡ after r []
  unfolding windows last_of
  after-nil =
      let no_rows : none ≡ unless_empty (drop (0 / r * r) []) =
        ap (unless_empty {A = A}) (sym (drop_of_length-le (0 / r * r) [] (omega arith))) in
      let no_windows : none ≡ (if r == 4 then last_of (windows r (0 / r) []) else none) =
        no_last (r == 4)
        ∙ ap (λ k. if r == 4 then last_of (windows r k []) else none) (sym zero_div) in
      cc (no_rows, no_windows)

  pub whole-nil : whole ops r [] ≡ []
  unfolding windows indexed
  whole-nil =
      ap (λ k. indexed rotate 0 (map norm (pooled ops (r == 4) none (windows r k [])))) zero_div
      ∙ ap (λ ps. indexed rotate 0 (map norm ps)) (pooled-nil (r == 4) none)

  single :
      (rows : List A)
      → pool_layer ops r r rows 0 (new_carry A) ≡ some (whole ops r rows, after r rows)
  single rows =
      ap (pool_layer ops r r rows 0) after-nil
      ∙ step [] rows
      ∙ ap (λ ps. some (ps, after r rows))
          (ap (λ l. l ++ added [] rows) (sym whole-nil) ∙ whole-added [] rows)

  -- For a positive ratio that is the rope's frequency scale, and for any chunks but none at all: pooling
  -- them one after the other from the start fails nowhere and gives the pooled rows of all complete
  -- windows of the whole sequence, with the carry that the whole sequence leaves.
  pub pool_chunks-whole :
      (rows : List A) (chunks : List (List A))
      → pool_chunks ops r r (rows ∷ chunks) 0
        ≡ some (whole ops r (joined (rows ∷ chunks)), after r (joined (rows ∷ chunks)))
  unfolding pool_chunks
  pool_chunks-whole rows chunks =
      let (ps, (run, same)) = chunks_from (rows ∷ chunks) [] in
      ap (pool_each ops r r (rows ∷ chunks) 0) after-nil
      ∙ run
      ∙ ap (λ l. some (l, after r (joined (rows ∷ chunks))))
          (ap (λ l. l ++ ps) (sym whole-nil) ∙ same)

  -- For a positive ratio that is the rope's frequency scale, pooling any chunks but none at all one after
  -- the other from the start gives what one call on the whole sequence gives, the carry included.
  pub pool_chunks-pool_layer :
      (rows : List A) (chunks : List (List A))
      → pool_chunks ops r r (rows ∷ chunks) 0
        ≡ pool_layer ops r r (joined (rows ∷ chunks)) 0 (new_carry A)
  pool_chunks-pool_layer rows chunks =
      pool_chunks-whole rows chunks ∙ sym (single (joined (rows ∷ chunks)))

-- `pool_chunks` with a `start_pos` that is not 0 fails, whatever the chunks: the carry that it starts with
-- has processed no rows, and the first call compares that with the position.
pub pool_chunks-start :
    {A H P : Type 0} (ops : Ops A H P) (r fs : ℕ) (chunks : List (List A)) (start : ℕ)
    → 0 < start
    → pool_chunks ops r fs chunks start ≡ none
unfolding pool_chunks pool_each pool_layer
pool_chunks-start ops r fs [] start h = refl
pool_chunks-start ops r fs (rows ∷ chunks) start h = ground arith
