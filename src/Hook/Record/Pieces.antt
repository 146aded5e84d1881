-- ===== src/Hook/Record/Pieces.antt =====
-- A projection that works row by row gives the same rows in pieces.
use mathlib.Core.List.{map-append}
use pd_bridge.Prelude.{
  ℕ, zero, suc, ◌<◌, ◌≡◌, refl, ap, ◌∙◌, sym, inl, inr, Bool, true, false, ◌&&◌, Option, none, some,
  List, [], ◌∷◌, ◌++◌, map, ltb, length, take, drop, take-append-drop, length-drop, joined, arith,
  Bool-cases, ltb→lt,
}
use pd_bridge.Hook.Pools.{cat_pooled}
use pd_bridge.Hook.Record.{Projected, pieces, kv_parts, some_parts, project_all}

joined-pieces {ℓ} :
    {Hd : Type ℓ} (fuel piece : ℕ) (h : List Hd)
    → 0 < piece
    → length h < fuel
    → joined (pieces fuel piece h) ≡ h
unfolding pieces
joined-pieces zero piece h pos lt = absurd (omega arith)
joined-pieces (suc fuel) piece [] pos lt = refl
joined-pieces (suc fuel) piece (x ∷ h) pos lt =
    ap (λ l. take piece (x ∷ h) ++ l)
      (joined-pieces fuel piece (drop piece (x ∷ h)) pos (omega (arith, length-drop piece (x ∷ h))))
    ∙ take-append-drop piece (x ∷ h)

joined-map :
    {Hd A : Type 0} (k : Hd → A) (hs : List (List Hd)) → joined (map (map k) hs) ≡ map k (joined hs)
joined-map k [] = refl
joined-map k (h ∷ hs) = ap (λ l. map k h ++ l) (joined-map k hs) ∙ sym (map-append k h (joined hs))

and_both : (a b : Bool) → (a && b) ≡ true → (a ≡ true) × (b ≡ true)
and_both true b h = (refl, h)
and_both false b h = absurd (cc h)

module _ {Hd V A : Type 0} where
  -- a projection of each row by itself, with the pools that the layer has
  abbrev pub row_wise : (Hd → V) → Option (Hd → A) → Option (Hd → A) → List Hd → Projected V A
  row_wise f score idx h = record {
    kv_pre = map f h;
    kv_score = elim score [ none ↦ none | some k ↦ some (map k h) ];
    idx = elim idx [ none ↦ none | some k ↦ some (map k h) ];
  }

  module _ (f : Hd → V) (score idx : Option (Hd → A)) where
    kv_parts_lem : (hs : List (List Hd)) → kv_parts (row_wise f score idx) hs ≡ map f (joined hs)
    unfolding kv_parts
    kv_parts_lem [] = refl
    kv_parts_lem (h ∷ hs) =
        ap (λ l. map f h ++ l) (kv_parts_lem hs) ∙ sym (map-append f h (joined hs))

  module _ (project : List Hd → Projected V A) (part : Projected V A → Option (List A)) where
    parts-none :
        (hs : List (List Hd))
        → ((h : List Hd) → part (project h) ≡ none)
        → some_parts project part hs ≡ []
    unfolding some_parts
    parts-none [] e = refl
    parts-none (h ∷ hs) e = rw (some_parts, e h) (parts-none hs e)

    parts-some :
        (k : Hd → A) (hs : List (List Hd))
        → ((h : List Hd) → part (project h) ≡ some (map k h))
        → some_parts project part hs ≡ map (map k) hs
    unfolding some_parts
    parts-some k [] e = refl
    parts-some k (h ∷ hs) e = rw (some_parts, e h) (ap (◌∷◌ (map k h)) (parts-some k hs e))

    cat-parts :
        (o : Option (Hd → A)) (x : List Hd) (hs : List (List Hd))
        → ((h : List Hd) → part (project h) ≡ (elim o [ none ↦ none | some k ↦ some (map k h) ]))
        → cat_pooled (some_parts project part (x ∷ hs))
          ≡ (elim o [ none ↦ none | some k ↦ some (map k (joined (x ∷ hs))) ])
    cat-parts none x hs e = ap cat_pooled (parts-none (x ∷ hs) e)
    cat-parts (some k) x hs e =
        ap cat_pooled (parts-some k (x ∷ hs) e) ∙ ap some (joined-map k (x ∷ hs))

  -- If each row is projected by itself, the projection in pieces of any size gives the rows of the projection at once.
  pub project_all-row_wise :
      (f : Hd → V) (score idx : Option (Hd → A)) (piece : ℕ) (h : List Hd)
      → project_all (row_wise f score idx) piece h ≡ row_wise f score idx h
  unfolding project_all
  project_all-row_wise f score idx piece [] = elim (Bool-cases (ltb 0 piece && ltb piece 0)) [
    | inr small ↦ rw small refl
    | inl large ↦
        let (pos, none_left) = and_both (ltb 0 piece) (ltb piece 0) large in
        absurd (omega (arith, ltb→lt piece 0 none_left))
  ]
  project_all-row_wise f score idx piece (x ∷ h) =
      elim (Bool-cases (ltb 0 piece && ltb piece (length (x ∷ h)))) [
        | inr small ↦ rw small refl
        | inl large ↦
            let (pos, long) = and_both (ltb 0 piece) (ltb piece (length (x ∷ h))) large in
            let rest = pieces (length (x ∷ h)) piece (drop piece (x ∷ h)) in
            let all : joined (take piece (x ∷ h) ∷ rest) ≡ x ∷ h =
              joined-pieces (suc (length (x ∷ h))) piece (x ∷ h) (ltb→lt 0 piece pos)
                (omega arith) in
            let project = row_wise f score idx in
            let kv = kv_parts_lem f score idx (take piece (x ∷ h) ∷ rest) ∙ ap (map f) all in
            let main =
              cat-parts project (λ p. p.kv_score) score (take piece (x ∷ h)) rest (λ l. refl)
              ∙ ap (λ l. elim score [ none ↦ none | some k ↦ some (map k l) ]) all in
            let index =
              cat-parts project (λ p. p.idx) idx (take piece (x ∷ h)) rest (λ l. refl)
              ∙ ap (λ l. elim idx [ none ↦ none | some k ↦ some (map k l) ]) all in
            rw large (cc (kv, main, index))
      ]
