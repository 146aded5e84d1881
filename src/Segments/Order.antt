-- ===== src/Segments/Order.antt =====
-- The order of the segments.
use mathlib.Core.Path.{subst}
use mathlib.Core.List.{map-append}
use pd_bridge.Prelude.{
  ℕ, zero, suc, ◌+◌, ◌-◌, ◌*◌, ◌/◌, ◌<◌, ◌≡◌, refl, ap, ◌∙◌, sym, Bool, true, false, ◌||◌, Option,
  none, some, List, [], ◌∷◌, ◌++◌, map, arith, if◌then◌else◌, Bool-cases, inl, inr, div_unique,
}
use pd_bridge.Hook.Boundaries.{boundaries, boundaries-zero, range_list, range_list_add}
use pd_bridge.Segments.{
  SegLayer, LayerPart, emit_segment, Stream, new_stream, Call, emitted, emit_loop, emit_end,
  emit_to, stream_emit,
}

-- What happens to a stream: the worker takes further rows, or a call of `_stream_emit`, with the files that can be written.
pub data Move (V A P : Type 0) : Type 0 where
  feed : List (SegLayer V A P) → ℕ → Move V A P
  emit : Call → (ℕ → Bool) → Move V A P

one_more :
    (block k : ℕ)
    → range_list block block k ++ (suc k * block ∷ []) ≡ range_list block block (suc k)
unfolding range_list
one_more block k =
    ap (λ b. range_list block block k ++ (b ∷ []))
      (let e : suc k * block ≡ block + k * block = omega arith in e)
    ∙ sym (range_list_add block block k 1)
    ∙ ap (range_list block block) (let e : k + 1 ≡ suc k = omega arith in e)

module _ {V A P : Type 0} where
  unfoldable pub run_moves : ℕ → List (Move V A P) → Stream V A P → Stream V A P
  unfolding stream_emit
  run_moves block [] r = r
  run_moves block (feed ls calls ∷ ms) r =
      run_moves block ms (record r { layers = ls; calls = calls })
  run_moves block (emit call wrote ∷ ms) r = run_moves block ms (stream_emit block wrote call r)

  -- `k` segments, at the first `k` boundaries, and the files are theirs
  record At (block k : ℕ) (r : Stream V A P) : Type 0 where
    emitted_eq : r.emitted_b ≡ k * block
    segments_eq : r.segments ≡ range_list block block k
    files_eq : map (λ f. f.0) r.files ≡ r.segments

  abbrev Ordered : ℕ → Stream V A P → Type 0
  Ordered block r = (k : ℕ) × At block k r

  module _ (block : ℕ) (pos : 0 < block) where
    shipped-At :
        (k : ℕ) (r : Stream V A P) (ls : List (SegLayer V A P)) (seg : List (LayerPart V A P))
        → At block k r
        → At block (suc k) (emitted (suc k * block) r (ls, some seg))
    shipped-At k r ls seg h = record {
      emitted_eq = refl;
      segments_eq = ap (λ l. l ++ (suc k * block ∷ [])) h.segments_eq ∙ one_more block k;
      files_eq =
          map-append (λ (f : ℕ × List (LayerPart V A P)). f.0) r.files ((suc k * block, seg) ∷ [])
          ∙ ap (λ l. l ++ (suc k * block ∷ [])) h.files_eq;
    }

    either :
        (b : Bool) (x y : Stream V A P)
        → Ordered block x
        → Ordered block y
        → Ordered block (if b then x else y)
    either true x y h h' = h
    either false x y h h' = h'

    -- one turn of the loop, and what follows it
    turn-Ordered :
        (wrote : ℕ → Bool) (k : ℕ) (bs : List ℕ) (r : Stream V A P)
        → (out : List (SegLayer V A P) × Option (List (LayerPart V A P))) → At block k r
        → ((r' : Stream V A P) → At block (suc k) r' → Ordered block (emit_loop wrote bs r'))
        → Ordered block (
            let r' = emitted (suc k * block) r out in
            let rest = emit_loop wrote bs r' in if r'.failed then r' else rest)
    turn-Ordered wrote k bs r (ls, none) h others = (
      k,
      record { emitted_eq = h.emitted_eq; segments_eq = h.segments_eq; files_eq = h.files_eq },
    )
    turn-Ordered wrote k bs r (ls, some seg) h others =
        let r' = emitted (suc k * block) r (ls, some seg) in
        let here = shipped-At k r ls seg h in
        either r.failed r' (emit_loop wrote bs r') (suc k, here) (others r' here)

    loop-Ordered :
        (wrote : ℕ → Bool) (n first k : ℕ) (r : Stream V A P)
        → first ≡ suc k * block
        → At block k r
        → Ordered block (emit_loop wrote (range_list first block n) r)
    unfolding emit_loop range_list
    loop-Ordered wrote zero first k r e h = (k, h)
    loop-Ordered wrote (suc n) first k r e h =
        subst
          (λ b. Ordered block (
            let r' = emitted b r (emit_segment b (wrote b) r.layers) in
            let rest = emit_loop wrote (range_list (first + block) block n) r' in
            if r'.failed then r' else rest))
          (sym e)
          (turn-Ordered wrote k (range_list (first + block) block n) r
            (emit_segment (suc k * block) (wrote (suc k * block)) r.layers) h
            (λ r' h'. loop-Ordered wrote n (first + block) (suc k) r' (omega (arith, e)) h'))

    emit_to-Ordered :
        (wrote : ℕ → Bool) (r : Stream V A P) (E : Option ℕ)
        → Ordered block r
        → Ordered block (emit_to block wrote r E)
    unfolding boundaries
    emit_to-Ordered wrote r none h = h
    emit_to-Ordered wrote r (some E) (k, h) =
        loop-Ordered wrote ((E + 1 - (r.emitted_b / block + 1) * block + (block - 1)) / block)
          ((r.emitted_b / block + 1) * block) k r
          (ap (λ q. (q + 1) * block)
              (div_unique k r.emitted_b block pos (omega (arith, h.emitted_eq))
                (omega (arith, h.emitted_eq, pos)))
            ∙ omega arith)
          h

    stream_emit-Ordered :
        (call : Call) (wrote : ℕ → Bool) (r : Stream V A P)
        → Ordered block r
        → Ordered block (stream_emit block wrote call r)
    unfolding stream_emit
    stream_emit-Ordered call wrote r h = elim (Bool-cases (r.failed || r.partial)) [
      | inl e ↦ rw e h
      | inr e ↦ rw e (emit_to-Ordered wrote r (emit_end call r) h)
    ]

    moves-Ordered :
        (ms : List (Move V A P)) (r : Stream V A P)
        → Ordered block r
        → Ordered block (run_moves block ms r)
    unfolding run_moves
    moves-Ordered [] r h = h
    moves-Ordered (feed ls calls ∷ ms) r (k, h) =
        moves-Ordered ms (record r { layers = ls; calls = calls })
          (
            k,
            record {
              emitted_eq = h.emitted_eq;
              segments_eq = h.segments_eq;
              files_eq = h.files_eq;
            },
          )
    moves-Ordered (emit call wrote ∷ ms) r h =
        moves-Ordered ms (stream_emit block wrote call r) (stream_emit-Ordered call wrote r h)

    At-boundaries :
        (k : ℕ) (r : Stream V A P) → At block k r → r.segments ≡ boundaries block 0 r.emitted_b
    At-boundaries k r h =
        h.segments_eq
        ∙ ap (range_list block block) (
            sym (
              div_unique k r.emitted_b block pos (omega (arith, h.emitted_eq))
                (omega (arith, h.emitted_eq, pos))))
        ∙ sym (boundaries-zero block r.emitted_b pos)

    -- For a positive block size, after any history of further rows, calls and files that could not be written: the segments
    -- of a request are those at all boundaries up to the last one that was shipped, in order, and the directory has just
    -- their files.
    pub run_moves-boundaries :
        (ms : List (Move V A P)) (partial : Bool)
        → let r = run_moves block ms (new_stream V A P partial) in
          (r.segments ≡ boundaries block 0 r.emitted_b) × (map (λ f. f.0) r.files ≡ r.segments)
    unfolding range_list
    run_moves-boundaries ms partial =
        let (k, h) =
          moves-Ordered ms (new_stream V A P partial)
            (0, record { emitted_eq = omega arith; segments_eq = refl; files_eq = refl }) in
        (At-boundaries k (run_moves block ms (new_stream V A P partial)) h, h.files_eq)
