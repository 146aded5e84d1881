-- ===== src/Decoder/Handed.antt =====
-- From the blocks that landed to the caches of a request.
use mathlib.Core.Path.{subst}
use pd_bridge.Prelude.{
  ℕ, zero, suc, ◌+◌, ◌*◌, ◌<◌, ◌≤◌, ◌≡◌, refl, ap, ◌∙◌, sym, true, some, List, [], ◌∷◌, arith, map,
  length, take, replicate, length-replicate, le→ltb-false, take_of_length-le,
}
use pd_bridge.Decoder.{
  cap_of, Stage, BlockLanding, new_stage, run_stage, KvCache, caches_of, is_for, handed,
  staged_restore, gives,
}
use pd_bridge.Decoder.Staged.{concat_from, AllLen, Filled}
use pd_bridge.Decoder.Landings.{fitting, AllFit}
use pd_bridge.Decoder.Restore.{run_lem, before_short}

-- n blocks and the reserve fit, and less than a block is left over
pub cap_of_room : (n block reserve : ℕ) → 0 < block → n * block + reserve ≤ cap_of n block reserve
unfolding cap_of
cap_of_room n block reserve pos = grind arith

AllLen-nothing : (R : Type 0) (k : ℕ) → AllLen {R = R} 0 (replicate k [])
AllLen-nothing R zero = omega arith
AllLen-nothing R (suc k) = (refl, AllLen-nothing R k)

module _ {R : Type 0} where
  -- what counts of the caches of a request: of each layer the keys and the values
  unfoldable pub rows_of : List (KvCache R) → List (List R)
  rows_of [] = []
  rows_of (c ∷ cs) = take c.offset c.buf_keys ∷ take c.offset c.buf_values ∷ rows_of cs

  rows_of-caches_of :
      (layers n : ℕ) (arrs : List (List R))
      → length arrs ≡ 2 * layers
      → rows_of (caches_of n arrs) ≡ map (take n) arrs
  unfolding rows_of caches_of
  rows_of-caches_of layers n [] h = refl
  rows_of-caches_of layers n (k ∷ []) h = absurd (omega (arith, h))
  rows_of-caches_of zero n (k ∷ v ∷ arrs) h = absurd (omega (arith, h))
  rows_of-caches_of (suc layers) n (k ∷ v ∷ arrs) h =
      ap (λ t. take n k ∷ take n v ∷ t) (rows_of-caches_of layers n arrs (omega (arith, h)))

  map-take-Filled :
      (cap n : ℕ) (ps arrs : List (List R))
      → AllLen n ps
      → Filled cap ps arrs
      → map (take n) arrs ≡ ps
  map-take-Filled cap n [] [] l h = refl
  map-take-Filled cap n [] (a ∷ arrs) l h = absurd h
  map-take-Filled cap n (p ∷ ps) [] l h = absurd h
  map-take-Filled cap n (p ∷ ps) (a ∷ arrs) (l, ls) (e, len, h) =
      cc (ap (λ k. take k a) (sym l), e, map-take-Filled cap n ps arrs ls h)

  Filled-nothing : (cap k : ℕ) (z : R) → Filled cap (replicate k []) (replicate k (replicate cap z))
  Filled-nothing cap zero z = omega arith
  Filled-nothing cap (suc k) z = (refl, length-replicate cap z, Filled-nothing cap k z)

  handed_ready :
      (block m : ℕ) (st : Stage R) (arrs : List (List R))
      → st.arrs ≡ some arrs
      → st.block ≡ block
      → m ≤ st.ready
      → handed m st st.arrs ≡ some (caches_of (m * block) arrs)
  handed_ready block m st arrs there size le =
      ap (handed m st) there
      ∙ rw (le→ltb-false st.ready m le) (ap (λ k. some (caches_of (m * k) arrs)) size)

  -- For a positive block size, and files with two tensors for each layer of which those that are taken have the rows of a
  -- block: whatever has landed, a request whose hashes the first fitting stage begins with, and no more than the blocks that
  -- landed well one behind the other, gets caches whose keys and values are those of its blocks, one block behind the other.
  pub staged_restore-rows :
      (z : R) (announced : List ℕ) (layers block reserve now : ℕ) (ls : List (BlockLanding R))
      (waited : Stage R → Stage R) (hashes : List ℕ) (e : Stage R) (es entries : List (Stage R))
      → 0 < block
      → AllFit block (2 * layers) ls
      → length ls ≤ length announced
      → waited e ≡ run_stage ls (new_stage z announced layers block reserve now)
      → is_for hashes e ≡ true
      → length hashes ≤ length (fitting ls)
      → (caches : List (KvCache R)) × ((staged_restore waited hashes (e ∷ es) entries).0
          ≡ some caches)
        × (rows_of caches
            ≡ concat_from (replicate (2 * layers) []) (take (length hashes) (fitting ls)))
  unfolding staged_restore
  staged_restore-rows z announced layers block reserve now ls waited hashes e es entries pos fits
        few w is h =
      let n = length announced in
      let cap = cap_of n block reserve in
      let K = 2 * layers in
      let zs : List (List R) = replicate K [] in
      let st = new_stage z announced layers block reserve now in
      let room : n * block ≤ cap = omega (arith, cap_of_room n block reserve pos) in
      let (arrs, staged) =
        run_lem cap block K n room zs (AllLen-nothing R K) (length-replicate K []) ls st []
          (replicate K (replicate cap z))
          (record {
            there = refl;
            count = refl;
            size = refl;
            width = length-replicate K (replicate cap z);
            sizes = omega arith;
            fills = λ m le.
                subst (λ t. Filled cap (concat_from zs t) (replicate K (replicate cap z)))
                  (sym (take_of_length-le m [] (omega arith))) (Filled-nothing cap K z);
          })
          refl fits (omega (arith, few)) in
      let bs = fitting ls in
      let m = length hashes in
      let caches = caches_of (m * block) arrs in
      let handed_eq : handed m (waited e) (waited e).arrs ≡ some caches =
        ap (λ t. handed m t t.arrs) w
        ∙ handed_ready block m (run_stage ls st) arrs staged.there staged.size
            (omega (arith, h, staged.count)) in
      (
        caches,
        rw is (ap (λ o. (gives e entries o).0) handed_eq),
        rows_of-caches_of layers (m * block) arrs staged.width
            ∙ map-take-Filled cap (m * block) (concat_from zs (take m bs)) arrs
                (before_short cap block K n room zs (AllLen-nothing R K) (length-replicate K []) m
                  bs h staged.sizes)
                (staged.fills m h),
      )
