-- ===== src/Hook/Finish/Contents.antt =====
-- What stands in a finished directory: its length, its gaps and its layers.
use pd_bridge.Prelude.{
  ℕ, ◌≤◌, ◌≡◌, refl, ap, ◌∙◌, sym, Bool, true, false, ◌||◌, some, List, [], ◌∷◌, map, arith, ◌==◌,
  ==_iff, ==_self, find, Distinct, behind, Bool-cases, inl, inr, maximum_entry, at_most-maximum,
  le→ltb-false,
}
use pd_bridge.Hook.Windows.{KvState}
use pd_bridge.Hook.Finish.{
  Req, Reason, keys, insert, insert_all, length_of, all_layers, gaps_of, layer_file, finished,
  finish,
}

abbrev pub has : ℕ → List ℕ → Bool
has k [] = false
has k (j ∷ js) = (j == k) || has k js

or-right : (b : Bool) → (b || true) ≡ true
or-right true = refl
or-right false = refl

has-insert_self : (k : ℕ) (js : List ℕ) → has k (insert k js) ≡ true
unfolding insert
has-insert_self k [] = rw (==_self k) refl
has-insert_self k (j ∷ js) = let ih = has-insert_self k js in ground (arith, ih)

pub has-insert : (k j : ℕ) (js : List ℕ) → has k js ≡ true → has k (insert j js) ≡ true
unfolding insert
has-insert k j [] h = absurd (cc h)
has-insert k j (i ∷ js) h = elim (Bool-cases (i == k)) [
  | inl e ↦ ground (arith, e, or-right (j == k))
  | inr ne ↦
      let more : has k js ≡ true = (rw ne refl) ∙ h in
      let ih = has-insert k j js more in ground (arith, ne, more, ih, or-right (j == k))
]

pub has-insert_all : (k : ℕ) (ks js : List ℕ) → has k ks ≡ true → has k (insert_all ks js) ≡ true
unfolding insert_all
has-insert_all k [] js h = absurd (cc h)
has-insert_all k (j ∷ ks) js h = elim (Bool-cases (j == k)) [
  | inl e ↦
      ap (λ i. has i (insert j (insert_all ks js))) (sym ((==_iff j k).0 e))
      ∙ has-insert_self j (insert_all ks js)
  | inr ne ↦ has-insert k j (insert_all ks js) (has-insert_all k ks js ((rw ne refl) ∙ h))
]

module _ {A : Type 0} where
  pub has-keys : (k : ℕ) (a : A) (m : List (ℕ × A)) → find k m ≡ some a → has k (keys m) ≡ true
  unfolding find
  has-keys k a [] e = absurd (cc e)
  has-keys k a ((j, b) ∷ m) e = elim (Bool-cases (j == k)) [
    | inl same ↦ rw same refl
    | inr ne ↦ let found : find k m ≡ some a = (rw ne refl) ∙ e in rw ne (has-keys k a m found)
  ]

  find-map :
      (f : ℕ → A) (k : ℕ) (ks : List ℕ)
      → has k ks ≡ true
      → find k (map (λ j. (j, f j)) ks) ≡ some (f k)
  unfolding find
  find-map f k [] h = absurd (cc h)
  find-map f k (j ∷ ks) h = elim (Bool-cases (j == k)) [
    | inl same ↦ rw same (ap (λ i. some (f i)) ((==_iff j k).0 same))
    | inr ne ↦ let more : has k ks ≡ true = (rw ne refl) ∙ h in rw ne (find-map f k ks more)
  ]

module _ {V : Type 0} where
  pub gaps_of_lem :
      (m : List (ℕ × KvState V))
      → Distinct m
      → ((k : ℕ) (s : KvState V) → find k m ≡ some s → s.gaps ≡ [])
      → gaps_of m ≡ []
  unfolding find
  gaps_of_lem [] h all = refl
  gaps_of_lem ((j, s) ∷ m) (new, rest) all =
      let here : s.gaps ≡ [] = all j s (rw (==_self j) refl) in
      rw here (gaps_of_lem m rest (λ k a e. all k a (behind j s k a m new e)))

module _ {V A P : Type 0} where
  pub length_of_lem :
      (r : Req V A P) (n li : ℕ) (s : KvState V)
      → Distinct r.kv
      → ((k : ℕ) (t : KvState V) → find k r.kv ≡ some t → t.next_pos ≤ n)
      → find li r.kv ≡ some s
      → s.next_pos ≡ n
      → length_of r ≡ n
  unfolding length_of
  length_of_lem r n li s h all found e = omega (
    arith,
    e,
    maximum_entry (λ (t : KvState V). t.next_pos) n r.kv h all,
    at_most-maximum (λ (t : KvState V). t.next_pos) li s r.kv found,
  )

  pub layer_found :
      (block : ℕ) (reason : Reason) (r : Req V A P) (li : ℕ) (s : KvState V)
      → find li r.kv ≡ some s
      → find li (finished block reason r).layers ≡ some (layer_file r li)
  unfolding all_layers
  layer_found block reason r li s found =
      find-map (layer_file r) li (all_layers r)
        (has-insert_all li (keys r.kv) _ (has-keys li s r.kv found))

  pub finish_lem :
      (block min_T : ℕ) (reason : Reason) (r : Req V A P)
      → min_T ≤ length_of r
      → finish block min_T reason r ≡ some (finished block reason r)
  unfolding finish
  finish_lem block min_T reason r h = rw (le→ltb-false (length_of r) min_T h) refl
