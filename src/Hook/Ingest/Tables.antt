-- ===== src/Hook/Ingest/Tables.antt =====
-- Tables of states by layer, and the rows of a layer in a sequence of items.
use mathlib.Core.Path.{subst}
use pd_bridge.Prelude.{
  ℕ, ◌≡◌, refl, ap, ◌∙◌, sym, true, false, Option, none, some, List, [], ◌∷◌, ◌++◌, append-nil,
  append_assoc, ◌==◌, ==_iff, ==_self, if◌then◌else◌, find, put, find-put_same, find-put_other,
  Bool-cases, inl, inr,
}
use pd_bridge.Hook.Pools.Export.{rows_of}
use pd_bridge.Hook.Ingest.{Item}

module _ {V A : Type 0} where
  -- the rows of a layer, of the kind that `rows` gives
  unfoldable pub rows_for : {X : Type 0} → (Item V A → List X) → ℕ → List (Item V A) → List X
  rows_for rows li [] = []
  rows_for rows li (i ∷ items) =
      let later = rows_for rows li items in if i.li == li then rows i ++ later else later

  abbrev pub kv_rows : ℕ → List (Item V A) → List V
  kv_rows = rows_for (λ i. i.kv_pre)

  abbrev pub main_rows : ℕ → List (Item V A) → List A
  main_rows = rows_for (λ i. rows_of i.kv_score)

  abbrev pub idx_rows : ℕ → List (Item V A) → List A
  idx_rows = rows_for (λ i. rows_of i.idx)

  pub rows_for_same :
      {X : Type 0} (rows : Item V A → List X) (li : ℕ) (items : List (Item V A)) (i : Item V A)
      → (i.li == li) ≡ true
      → rows_for rows li (items ++ (i ∷ [])) ≡ rows_for rows li items ++ rows i
  unfolding rows_for
  rows_for_same rows li [] i h = rw h (append-nil (rows i))
  rows_for_same rows li (j ∷ items) i h =
      let later = rows_for_same rows li items i h in
      elim (Bool-cases (j.li == li)) [
        | inl e ↦ rw e (ap (λ l. rows j ++ l) later ∙ sym (append_assoc (rows j) _ _))
        | inr ne ↦ rw ne later
      ]

  pub rows_for_other :
      {X : Type 0} (rows : Item V A → List X) (li : ℕ) (items : List (Item V A)) (i : Item V A)
      → (i.li == li) ≡ false
      → rows_for rows li (items ++ (i ∷ [])) ≡ rows_for rows li items
  unfolding rows_for
  rows_for_other rows li [] i h = rw h refl
  rows_for_other rows li (j ∷ items) i h =
      let later = rows_for_other rows li items i h in
      elim (Bool-cases (j.li == li)) [
        | inl e ↦ rw e (ap (λ l. rows j ++ l) later)
        | inr ne ↦ rw ne later
      ]

-- A table of states by layer: where a layer has none, it had no rows.
module _ {X S : Type 0} (Fits : ℕ → List X → S → Type 0) where
  abbrev pub At : ℕ → List X → Option S → Type 0
  At li rows none = rows ≡ []
  At li rows (some s) = Fits li rows s

  module _ {V A : Type 0} (rows : Item V A → List X) where
    abbrev pub FitsAll : List (Item V A) → List (ℕ × S) → Type 0
    FitsAll items table = (li : ℕ) → At li (rows_for rows li items) (find li table)

    pub nothing-FitsAll : FitsAll [] []
    unfolding rows_for find
    nothing-FitsAll li = refl

    pub put-FitsAll :
        (items : List (Item V A)) (i : Item V A) (s : S) (table : List (ℕ × S))
        → FitsAll items table
        → Fits i.li (rows_for rows i.li items ++ rows i) s
        → FitsAll (items ++ (i ∷ [])) (put i.li s table)
    put-FitsAll items i s table all fits li = elim (Bool-cases (i.li == li)) [
      | inl same ↦
          subst (λ k. At k (rows_for rows k (items ++ (i ∷ []))) (find k (put i.li s table)))
            ((==_iff i.li li).0 same)
            (subst (At i.li (rows_for rows i.li (items ++ (i ∷ []))))
              (sym (find-put_same i.li s table))
              (subst (λ l. Fits i.li l s) (sym (rows_for_same rows i.li items i (==_self i.li)))
                fits))
      | inr ne ↦
          subst (λ l. At li l (find li (put i.li s table)))
            (sym (rows_for_other rows li items i ne))
            (subst (At li (rows_for rows li items)) (sym (find-put_other li i.li s table ne))
              (all li))
    ]

    -- no rows of this kind, and the table as it was
    pub same-FitsAll :
        (items : List (Item V A)) (i : Item V A) (table : List (ℕ × S))
        → FitsAll items table
        → rows i ≡ []
        → FitsAll (items ++ (i ∷ [])) table
    same-FitsAll items i table all h li = elim (Bool-cases (i.li == li)) [
      | inl same ↦
          subst (λ l. At li l (find li table))
            (sym (
              rows_for_same rows li items i same
              ∙ ap (λ l. rows_for rows li items ++ l) h
              ∙ append-nil (rows_for rows li items)))
            (all li)
      | inr ne ↦
          subst (λ l. At li l (find li table)) (sym (rows_for_other rows li items i ne)) (all li)
    ]
