-- ===== src/Decoder/Staged.antt =====
-- The caches that a stage hands over hold the rows of the blocks, as a restore from the disk would.
use pd_bridge.Prelude.{
  ℕ, ◌+◌, ◌≤◌, ◌≡◌, refl, ap, ◌∙◌, sym, true, Option, none, some, List, [], ◌∷◌, ◌++◌, arith, map,
  length, take, drop, length-append, length-take, length-drop, take-append, take-append_le,
  take-drop-take, append_assoc,
}
use pd_bridge.Decoder.{write_rows, copy_all}

module _ {R : Type 0} where
  abbrev pub zip_append : List (List R) → List (List R) → List (List R)
  zip_append [] rs = []
  zip_append (p ∷ ps) [] = []
  zip_append (p ∷ ps) (r ∷ rs) = (p ++ r) ∷ zip_append ps rs

  -- the tensors of the blocks, one block behind the other
  abbrev pub concat_from : List (List R) → List (List (List R)) → List (List R)
  concat_from acc [] = acc
  concat_from acc (b ∷ bs) = concat_from (zip_append acc b) bs

  abbrev pub AllLen : ℕ → List (List R) → Type 0
  AllLen n [] = 0 ≤ n
  AllLen n (p ∷ ps) = (length p ≡ n) × AllLen n ps

  abbrev pub AllShort : ℕ → List (List R) → Type 0
  AllShort n [] = 0 ≤ n
  AllShort n (p ∷ ps) = (length p ≤ n) × AllShort n ps

  -- the arrays have `cap` rows and begin with these
  abbrev pub Filled : ℕ → List (List R) → List (List R) → Type 0
  Filled cap [] [] = 0 ≤ cap
  Filled cap [] (a ∷ arrs) = ⊥
  Filled cap (p ∷ ps) [] = ⊥
  Filled cap (p ∷ ps) (a ∷ arrs) = (take (length p) a ≡ p) × (length a ≡ cap) × Filled cap ps arrs

  -- a tensor that is copied has the rows of a block
  abbrev pub Fits : ℕ → List (Option (List R)) → Type 0
  Fits B [] = 0 ≤ B
  Fits B (none ∷ cs) = Fits B cs
  Fits B (some rows ∷ cs) = (length rows ≡ B) × Fits B cs

  length-write_rows :
      (lo : ℕ) (rows a : List R)
      → lo + length rows ≤ length a
      → length (write_rows lo rows a) ≡ length a
  unfolding write_rows
  length-write_rows lo rows a h = omega (
    arith,
    h,
    length-append (take lo a) (rows ++ drop (lo + length rows) a),
    length-append rows (drop (lo + length rows) a),
    length-take lo a,
    length-drop (lo + length rows) a,
  )

  take-write_rows_before :
      (lo n : ℕ) (rows a : List R)
      → n ≤ lo
      → lo ≤ length a
      → take n (write_rows lo rows a) ≡ take n a
  unfolding write_rows
  take-write_rows_before lo n rows a h le =
      take-append_le n (take lo a) (rows ++ drop (lo + length rows) a)
        (omega (arith, h, le, length-take lo a))
      ∙ take-drop-take n 0 lo a (omega (arith, h))

  take-write_rows_behind :
      (lo : ℕ) (rows a p : List R)
      → take lo a ≡ p
      → length p ≡ lo
      → take (length (p ++ rows)) (write_rows lo rows a) ≡ p ++ rows
  unfolding write_rows
  take-write_rows_behind lo rows a p e l =
      ap (λ t. take (length (p ++ rows)) (t ++ (rows ++ drop (lo + length rows) a))) e
      ∙ ap (take (length (p ++ rows))) (sym (append_assoc p rows (drop (lo + length rows) a)))
      ∙ take-append (length (p ++ rows)) (p ++ rows) (drop (lo + length rows) a) refl

module _ {R : Type 0} (cap lo B : ℕ) (room : lo + B ≤ cap) where
  -- what stands before a block stays when it is copied, also where the copy breaks off
  pub copy_all-keeps :
      (cs : List (Option (List R))) (arrs ps : List (List R))
      → Fits B cs
      → AllShort lo ps
      → Filled cap ps arrs
      → Filled cap ps (copy_all lo cs arrs).0
  unfolding copy_all
  copy_all-keeps [] arrs ps fits short filled = filled
  copy_all-keeps (none ∷ cs) arrs ps fits short filled = filled
  copy_all-keeps (some rows ∷ cs) [] [] fits short filled = filled
  copy_all-keeps (some rows ∷ cs) [] (p ∷ ps) fits short filled = absurd filled
  copy_all-keeps (some rows ∷ cs) (a ∷ arrs) [] fits short filled = absurd filled
  copy_all-keeps (some rows ∷ cs) (a ∷ arrs) (p ∷ ps) (size, fits) (le, short) (e, l, filled) = (
    take-write_rows_before lo (length p) rows a le (omega (arith, l, room)) ∙ e,
    length-write_rows lo rows a (omega (arith, l, size, room)) ∙ l,
    copy_all-keeps cs arrs ps fits short filled,
  )

  -- a whole block stands behind them
  pub copy_all-adds :
      (b arrs ps : List (List R))
      → AllLen B b
      → length b ≡ length arrs
      → AllLen lo ps
      → Filled cap ps arrs
      → Filled cap (zip_append ps b) (copy_all lo (map some b) arrs).0
        × ((copy_all lo (map some b) arrs).1 ≡ true)
  unfolding copy_all
  copy_all-adds [] [] [] fits n long filled = (filled, refl)
  copy_all-adds [] [] (p ∷ ps) fits n long filled = absurd filled
  copy_all-adds [] (a ∷ arrs) ps fits n long filled = absurd (omega (arith, n))
  copy_all-adds (rows ∷ b) [] ps fits n long filled = absurd (omega (arith, n))
  copy_all-adds (rows ∷ b) (a ∷ arrs) [] fits n long filled = absurd filled
  copy_all-adds (rows ∷ b) (a ∷ arrs) (p ∷ ps) (size, fits) n (len, long) (e, l, filled) =
      let (ih, good) = copy_all-adds b arrs ps fits (omega (arith, n)) long filled in
      (
        (
          take-write_rows_behind lo rows a p (ap (λ k. take k a) (sym len) ∙ e) len,
          length-write_rows lo rows a (omega (arith, l, size, room)) ∙ l,
          ih,
        ),
        good,
      )
