-- ===== src/Connector/Tags/Words.antt =====
-- Which texts the patterns of tags and model names accept.
use pd_bridge.Prelude.{
  ℕ, zero, suc, ◌≤◌, ◌≡◌, ◌⊎◌, ◌↔◌, inl, inr, refl, ap, ◌∙◌, Bool, true, false, ◌&&◌, List, [], ◌∷◌,
  ◌++◌, arith, length, ==_iff, if◌then◌else◌, Bool-cases,
}
use pd_bridge.Connector.Tags.{at_end, match_most, matches, is_tag, is_tag_char}

abbrev pub all : (ℕ → Bool) → List ℕ → Bool
all cls [] = true
all cls (c ∷ cs) = cls c && all cls cs

-- A text of at most `n` characters of a class, perhaps with a line feed behind it.
pub record IsWord (cls : ℕ → Bool) (n : ℕ) (s : List ℕ) : Type 0 where
  pub word : List ℕ
  pub of_class : all cls word ≡ true
  pub bounded : length word ≤ n
  pub text_eq : (s ≡ word) ⊎ (s ≡ word ++ (10 ∷ []))

at_end_lem : (s : List ℕ) → at_end s ≡ true → (s ≡ []) ⊎ (s ≡ 10 ∷ [])
unfolding at_end
at_end_lem [] h = inl refl
at_end_lem (c ∷ []) h = inr (ap (λ x. x ∷ []) ((==_iff c 10).0 h))
at_end_lem (c ∷ d ∷ cs) h = absurd (ground arith)

end-IsWord : (cls : ℕ → Bool) (n : ℕ) (s : List ℕ) → at_end s ≡ true → IsWord cls n s
end-IsWord cls n s h = record {
  word = [];
  of_class = refl;
  bounded = omega arith;
  text_eq = at_end_lem s h;
}

cons-IsWord :
    (cls : ℕ → Bool) (n c : ℕ) (cs : List ℕ)
    → cls c ≡ true
    → IsWord cls n cs
    → IsWord cls (suc n) (c ∷ cs)
cons-IsWord cls n c cs h w = record {
  word = c ∷ w.word;
  of_class = rw h w.of_class;
  bounded = omega (arith, w.bounded);
  text_eq = elim w.text_eq [ inl e ↦ inl (ap (◌∷◌ c) e) | inr e ↦ inr (ap (◌∷◌ c) e) ];
}

then_part : (b r e : Bool) → b ≡ true → (if b then r else e) ≡ true → r ≡ true
then_part b r e h k = ground arith

else_part : (b r e : Bool) → b ≡ false → (if b then r else e) ≡ true → e ≡ true
else_part b r e h k = ground arith

both : (a b : Bool) → (a && b) ≡ true → (a ≡ true) × (b ≡ true)
both a b h = ground arith

and_of : (a b : Bool) → a ≡ true → b ≡ true → (a && b) ≡ true
and_of a b h k = ground arith

match_most-IsWord :
    (cls : ℕ → Bool) (n : ℕ) (s : List ℕ) → match_most cls n s ≡ true → IsWord cls n s
unfolding match_most at_end
match_most-IsWord cls n [] h = end-IsWord cls n [] refl
match_most-IsWord cls zero (c ∷ cs) h = end-IsWord cls 0 (c ∷ cs) h
match_most-IsWord cls (suc n) (c ∷ cs) h = elim (Bool-cases (cls c)) [
  | inl hit ↦ cons-IsWord cls n c cs hit (match_most-IsWord cls n cs (then_part (cls c) _ _ hit h))
  | inr miss ↦ end-IsWord cls (suc n) (c ∷ cs) (else_part (cls c) _ _ miss h)
]

match_most-word :
    (cls : ℕ → Bool) (n : ℕ) (w : List ℕ)
    → all cls w ≡ true
    → length w ≤ n
    → match_most cls n w ≡ true
unfolding match_most
match_most-word cls n [] h l = refl
match_most-word cls zero (c ∷ w) h l = absurd (omega arith)
match_most-word cls (suc n) (c ∷ w) h l =
    let (first, others) = both (cls c) (all cls w) h in
    rw first (match_most-word cls n w others (omega arith))

match_most-line :
    (cls : ℕ → Bool) (n : ℕ) (w : List ℕ)
    → all cls w ≡ true
    → length w ≤ n
    → match_most cls n (w ++ (10 ∷ [])) ≡ true
unfolding match_most at_end
match_most-line cls zero [] h l = refl
match_most-line cls (suc n) [] h l = elim (Bool-cases (cls 10)) [
  | inl hit ↦ rw hit refl
  | inr miss ↦ rw miss refl
]
match_most-line cls zero (c ∷ w) h l = absurd (omega arith)
match_most-line cls (suc n) (c ∷ w) h l =
    let (first, others) = both (cls c) (all cls w) h in
    rw first (match_most-line cls n w others (omega arith))

word_matches : (cls : ℕ → Bool) (n : ℕ) (s : List ℕ) → IsWord cls n s → match_most cls n s ≡ true
word_matches cls n s w = elim w.text_eq [
  | inl e ↦ ap (match_most cls n) e ∙ match_most-word cls n w.word w.of_class w.bounded
  | inr e ↦ ap (match_most cls n) e ∙ match_most-line cls n w.word w.of_class w.bounded
]

-- A pattern accepts a text just if it is a character of the class and behind it at most `n` more, perhaps
-- with a line feed at the end.
matches_iff :
    (cls : ℕ → Bool) (n c : ℕ) (cs : List ℕ)
    → (matches cls n (c ∷ cs) ≡ true) ↔ ((cls c ≡ true) × IsWord cls n cs)
unfolding matches
matches_iff cls n c cs = (
  λ h.
      let (first, others) = both (cls c) (match_most cls n cs) h in
      (first, match_most-IsWord cls n cs others),
  λ h. and_of (cls c) (match_most cls n cs) h.0 (word_matches cls n cs h.1),
)

-- `_tag_of` takes a text that is not empty as a tag just if it has at most 64 characters, each an ASCII letter, a
-- digit, `_` or `-`, but for a line feed that may stand behind them.
pub is_tag_iff :
    (c : ℕ) (cs : List ℕ)
    → (is_tag (c ∷ cs) ≡ true) ↔ ((is_tag_char c ≡ true) × IsWord is_tag_char 63 cs)
unfolding is_tag
is_tag_iff c cs = matches_iff is_tag_char 63 c cs
