-- ===== src/Decoder/Landings.antt =====
-- The blocks that have landed and fit, and the rows they make one behind the other.
use mathlib.Core.Path.{subst}
use mathlib.Core.Option.{some_inj}
use pd_bridge.Prelude.{
  ℕ, zero, suc, ◌+◌, ◌*◌, ◌≤◌, ◌≡◌, refl, ap, ◌∙◌, sym, false, Option, none, some, List, [], ◌∷◌,
  ◌++◌, inl, inr, arith, map, length, take, length-append, Option-cases,
}
use pd_bridge.Decoder.{BlockLanding, never_landed, landed, copy_all}
use pd_bridge.Decoder.Staged.{zip_append, concat_from, AllLen, AllShort, Fits}

module _ {R : Type 0} where
  abbrev cons_some : List R → Option (List (List R)) → Option (List (List R))
  cons_some rows none = none
  cons_some rows (some b) = some (rows ∷ b)

  -- the tensors of a block, if all of them fit
  abbrev pub all_some : List (Option (List R)) → Option (List (List R))
  all_some [] = some []
  all_some (none ∷ cs) = none
  all_some (some rows ∷ cs) = cons_some rows (all_some cs)

  abbrev pub cons_block : Option (List (List R)) → List (List (List R)) → List (List (List R))
  cons_block none bs = []
  cons_block (some b) bs = b ∷ bs

  -- the blocks up to the first that does not land or does not fit
  abbrev pub fitting : List (BlockLanding R) → List (List (List R))
  fitting [] = []
  fitting (never_landed ∷ ls) = []
  fitting (landed cs ∷ ls) = cons_block (all_some cs) (fitting ls)

  -- a file has a tensor of keys and one of values for each layer, and one that fits has the rows of a block
  abbrev pub AllFit : ℕ → ℕ → List (BlockLanding R) → Type 0
  AllFit B K [] = 0 ≤ B
  AllFit B K (never_landed ∷ ls) = AllFit B K ls
  AllFit B K (landed cs ∷ ls) = Fits B cs × (length cs ≡ K) × AllFit B K ls

  abbrev pub AllBlocks : ℕ → ℕ → List (List (List R)) → Type 0
  AllBlocks B K [] = 0 ≤ B
  AllBlocks B K (b ∷ bs) = AllLen B b × (length b ≡ K) × AllBlocks B K bs

  pub all_some-map :
      (cs : List (Option (List R))) (b : List (List R)) → all_some cs ≡ some b → cs ≡ map some b
  all_some-map [] b e = ap (map some) (some_inj.0 e)
  all_some-map (none ∷ cs) b e = absurd (cc e)
  all_some-map (some rows ∷ cs) b e = elim (Option-cases (all_some cs)) [
    | inl bad ↦ absurd (cc (ap (cons_some rows) bad, e))
    | inr (b', good) ↦
        ap (◌∷◌ (some rows)) (all_some-map cs b' good)
        ∙ ap (map some) (some_inj.0 (sym (ap (cons_some rows) good) ∙ e))
  ]

  pub copy_all-stops :
      (lo : ℕ) (cs : List (Option (List R))) (arrs : List (List R))
      → all_some cs ≡ none
      → (copy_all lo cs arrs).1 ≡ false
  unfolding copy_all
  copy_all-stops lo [] arrs e = absurd (cc e)
  copy_all-stops lo (none ∷ cs) arrs e = refl
  copy_all-stops lo (some rows ∷ cs) [] e = refl
  copy_all-stops lo (some rows ∷ cs) (a ∷ arrs) e = elim (Option-cases (all_some cs)) [
    | inl bad ↦ copy_all-stops lo cs arrs bad
    | inr (b', good) ↦ absurd (cc (ap (cons_some rows) good, e))
  ]

  pub concat_from-snoc :
      (acc : List (List R)) (bs : List (List (List R))) (b : List (List R))
      → concat_from acc (bs ++ (b ∷ [])) ≡ zip_append (concat_from acc bs) b
  concat_from-snoc acc [] b = refl
  concat_from-snoc acc (c ∷ bs) b = concat_from-snoc (zip_append acc c) bs b

  zip_append-AllLen :
      (m n : ℕ) (ps b : List (List R))
      → AllLen m ps
      → AllLen n b
      → length ps ≡ length b
      → AllLen (m + n) (zip_append ps b) × (length (zip_append ps b) ≡ length ps)
  zip_append-AllLen m n [] b hp hb e = (omega arith, refl)
  zip_append-AllLen m n (p ∷ ps) [] hp hb e = absurd (omega (arith, e))
  zip_append-AllLen m n (p ∷ ps) (r ∷ b) (lp, hp) (lr, hb) e =
      let (ih, l) = zip_append-AllLen m n ps b hp hb (omega (arith, e)) in
      ((omega (arith, lp, lr, length-append p r), ih), ap suc l)

  pub concat_from-AllLen :
      (B K n : ℕ) (acc : List (List R)) (bs : List (List (List R)))
      → AllLen n acc
      → length acc ≡ K
      → AllBlocks B K bs
      → AllLen (n + length bs * B) (concat_from acc bs)
  concat_from-AllLen B K n acc [] ha la hb = subst (λ k. AllLen k acc) (omega arith) ha
  concat_from-AllLen B K n acc (b ∷ bs) ha la (hb, lb, more) =
      let (z, lz) = zip_append-AllLen n B acc b ha hb (omega (arith, la, lb)) in
      subst (λ k. AllLen k (concat_from (zip_append acc b) bs)) (omega arith)
        (concat_from-AllLen B K (n + B) (zip_append acc b) bs z (omega (arith, lz, la)) more)

  pub AllShort-of : (m n : ℕ) (ps : List (List R)) → m ≤ n → AllLen m ps → AllShort n ps
  AllShort-of m n [] le h = omega arith
  AllShort-of m n (p ∷ ps) le (l, h) = (omega (arith, l, le), AllShort-of m n ps le h)

  pub AllBlocks-take :
      (B K m : ℕ) (bs : List (List (List R))) → AllBlocks B K bs → AllBlocks B K (take m bs)
  AllBlocks-take B K zero bs h = omega arith
  AllBlocks-take B K (suc m) [] h = h
  AllBlocks-take B K (suc m) (b ∷ bs) (x, y, h) = (x, y, AllBlocks-take B K m bs h)

  pub AllBlocks-snoc :
      (B K : ℕ) (bs : List (List (List R))) (b : List (List R))
      → AllBlocks B K bs
      → AllLen B b
      → length b ≡ K
      → AllBlocks B K (bs ++ (b ∷ []))
  AllBlocks-snoc B K [] b h x y = (x, y, omega arith)
  AllBlocks-snoc B K (c ∷ bs) b (u, v, h) x y = (u, v, AllBlocks-snoc B K bs b h x y)
