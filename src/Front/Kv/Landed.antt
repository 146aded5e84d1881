-- ===== src/Front/Kv/Landed.antt =====
-- Blocks that landed in the decoder's cache: the verdict is complete just where all of them are there.
use pd_bridge.Prelude.{
  ℕ, zero, suc, ◌*◌, ◌/◌, ◌<◌, ◌≤◌, ◌≡◌, refl, ap, ◌∙◌, sym, Bool, true, false, not, Option, none,
  some, List, [], ◌∷◌, ◌==◌, ==_iff, ==_self, le→ltb-false, if◌then◌else◌, arith, length, replicate,
  div_unique,
}
use pd_bridge.Front.{Settings, wrong_length, wrong_transport, too_little}
use pd_bridge.Front.Manifests.{
  Manifest, is_equal, complete, partial, Assembled, is_too_little, full_tokens, Result, declined,
  stored,
}
use pd_bridge.Front.Kv.{kv_verdict, leading, cached_prefix_tokens, landed, prefill_kv_stream}

leading-le-length : (bs : List Bool) → leading bs ≤ length bs
unfolding leading
leading-le-length [] = omega arith
leading-le-length (true ∷ bs) = omega (arith, leading-le-length bs)
leading-le-length (false ∷ bs) = omega arith

all_there : (bs : List Bool) → leading bs ≡ length bs → bs ≡ replicate (length bs) true
unfolding leading
all_there [] h = refl
all_there (true ∷ bs) h = ap (◌∷◌ true) (all_there bs (omega (arith, h)))
all_there (false ∷ bs) h = absurd (omega (arith, h))

leading-replicate : (n : ℕ) → leading (replicate n true) ≡ n
unfolding leading
leading-replicate zero = refl
leading-replicate (suc n) = omega (arith, leading-replicate n)

-- the three guards of the path
guarded :
    (wrong other : Bool) (r : Result)
    → (if wrong then declined wrong_length else if other then declined wrong_transport else r)
      ≡ stored complete
    → (wrong ≡ false) × ((other ≡ false) × (r ≡ stored complete))
guarded true other r h = absurd (cc h)
guarded false true r h = absurd (cc h)
guarded false false r h = (refl, (refl, h))

not-false : (b : Bool) → not b ≡ false → b ≡ true
not-false true h = refl
not-false false h = absurd (cc h)

verdict_complete :
    (little full : Bool) (B : ℕ)
    → (if little then declined too_little else stored (if full then complete else partial B))
      ≡ stored complete
    → (little ≡ false) × (full ≡ true)
verdict_complete true full B h = absurd (cc h)
verdict_complete false true B h = (refl, refl)
verdict_complete false false B h = absurd (cc h)

is_equal_lem : (o : Option ℕ) (n : ℕ) → is_equal o n ≡ true → o ≡ some n
unfolding is_equal
is_equal_lem none n h = absurd (cc h)
is_equal_lem (some m) n h = ap some ((==_iff m n).0 h)

not_zero : (n : ℕ) → 0 < n → (n == 0) ≡ false
not_zero n h = ground (arith, h)

times_inj : (m n b : ℕ) → 0 < b → m * b ≡ n * b → m ≡ n
times_inj m n b pos h = grind arith

module _ (rounded : ℕ → ℕ → ℕ) (g : Settings) (pos : 0 < g.block) (T : ℕ) (man : Manifest)
    (a : Assembled) where
  -- For a positive block size, and one answer of the disk for each full block of the prompt: if blocks that are said to have
  -- landed in the decoder's cache get the verdict `complete`, the capture was one of this prompt's
  -- length in the decoder's own format, and the file of every full block is there.
  pub prefill_kv_stream-complete :
      (on_disk : List Bool)
      → length on_disk ≡ T / g.block
      → prefill_kv_stream rounded g T true man (some on_disk) a ≡ stored complete
      → (man.prompt_len ≡ some T)
        × ((man.is_omlx ≡ true) × (on_disk ≡ replicate (T / g.block) true))
  unfolding prefill_kv_stream kv_verdict landed cached_prefix_tokens
  prefill_kv_stream-complete on_disk size h =
      let (right, (native, verdict)) =
        guarded (not (is_equal man.prompt_len T)) (not man.is_omlx) _ h in
      let B = leading on_disk * g.block in
      let full =
        (verdict_complete (is_too_little g (landed rounded g T (some on_disk)))
          (B == full_tokens g T) B verdict).1 in
      let same =
        times_inj (leading on_disk) (T / g.block) g.block pos
          ((==_iff B (full_tokens g T)).0 full) in
      (
        is_equal_lem man.prompt_len T (not-false (is_equal man.prompt_len T) right),
        (
          not-false man.is_omlx native,
          all_there on_disk (same ∙ sym size) ∙ ap (λ n. replicate n true) size,
        ),
      )

  -- For a positive block size: if the capture is one of this prompt's length in the decoder's own format, the prompt has a full
  -- block, the file of every full block is there, and their coverage reaches the minimum, the
  -- verdict is `complete`.
  pub prefill_kv_stream-all_there :
      man.prompt_len ≡ some T
      → man.is_omlx ≡ true
      → 0 < T / g.block
      → g.min_coverage ≤ rounded (T / g.block * g.block) T
      → prefill_kv_stream rounded g T true man (some (replicate (T / g.block) true)) a
        ≡ stored complete
  unfolding prefill_kv_stream kv_verdict landed cached_prefix_tokens is_equal is_too_little
  prefill_kv_stream-all_there e native some_blocks covered =
      let n = T / g.block in
      let B = n * g.block in
      let blocks : B / g.block ≡ n =
        div_unique n B g.block pos (omega arith) (omega (arith, pos)) in
      let some_paths : (B / g.block == 0) ≡ false =
        not_zero (B / g.block) (omega (arith, blocks, some_blocks)) in
      let some_tokens : (T == 0) ≡ false = not_zero T (omega (arith, pos, some_blocks)) in
      let enough = le→ltb-false (rounded B T) g.min_coverage covered in
      rw e (
        rw (==_self T) (
          rw native (
            rw (leading-replicate n)
              (rw some_paths (rw some_tokens (rw enough (rw (==_self B) refl)))))))
