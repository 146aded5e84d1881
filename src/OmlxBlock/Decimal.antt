-- ===== src/OmlxBlock/Decimal.antt =====
-- Decimal numbers and texts of tuples can be read back.
use pd_bridge.Prelude.{
  ℕ, zero, suc, ◌+◌, ◌-◌, ◌*◌, ◌/◌, ◌%◌, ◌<◌, ◌≡◌, refl, ap, ◌∙◌, sym, Bool, true, not, ◌&&◌, List,
  [], ◌∷◌, ◌++◌, arith, leb, ltb, length, map, drop, Bool-cases, inl, inr, append_assoc,
  if◌then◌else◌, ltb→lt, ltb-false→le,
}
use pd_bridge.OmlxBlock.Text.{codes, digits, decimal, join}
use pd_bridge.OmlxBlock.Hashes.{tuple_text}

abbrev is_digit : ℕ → Bool
is_digit c = leb 48 c && leb c 57

-- the number that the leading digits say, behind `acc`, and what follows them
unfoldable read : ℕ → List ℕ → ℕ × List ℕ
read acc [] = (acc, [])
read acc (c ∷ cs) =
    let more = read (acc * 10 + (c - 48)) cs in if is_digit c then more else (acc, c ∷ cs)

digit_is : (d : ℕ) → d < 10 → is_digit (48 + d) ≡ true
digit_is d h = ground arith

read-cons :
    (acc d n : ℕ) (rest : List ℕ)
    → d < 10
    → acc * 10 + d ≡ n
    → read acc ((48 + d) ∷ rest) ≡ read n rest
unfolding read
read-cons acc d n rest h e =
    rw (digit_is d h)
      (ap (λ k. read k rest) (let e' : acc * 10 + (48 + d - 48) ≡ n = omega arith in e'))

read-digits : (fuel n : ℕ) (rest : List ℕ) → n < fuel → read 0 (digits fuel n rest) ≡ read n rest
unfolding digits
read-digits zero n rest h = absurd (omega arith)
read-digits (suc fuel) n rest h = elim (Bool-cases (ltb n 10)) [
  | inl small ↦ rw small (read-cons 0 n n rest (ltb→lt n 10 small) (omega arith))
  | inr large ↦ rw large (
      read-digits fuel (n / 10) ((48 + n % 10) ∷ rest) (omega (arith, h, ltb-false→le n 10 large))
      ∙ read-cons (n / 10) (n % 10) n rest (omega arith) (omega arith))
]

digits-append :
    (fuel n : ℕ) (rest more : List ℕ) → digits fuel n rest ++ more ≡ digits fuel n (rest ++ more)
unfolding digits
digits-append zero n rest more = refl
digits-append (suc fuel) n rest more = elim (Bool-cases (ltb n 10)) [
  | inl small ↦ rw small refl
  | inr large ↦ rw large (digits-append fuel (n / 10) ((48 + n % 10) ∷ rest) more)
]

-- the text does not go on with a digit
abbrev stops : List ℕ → Bool
stops [] = true
stops (c ∷ cs) = not (is_digit c)

read-stops : (n : ℕ) (cs : List ℕ) → stops cs ≡ true → read n cs ≡ (n, cs)
unfolding read
read-stops n [] h = refl
read-stops n (c ∷ cs) h = elim (Bool-cases (is_digit c)) [
  | inl digit ↦ absurd (ground arith)
  | inr other ↦ rw other refl
]

read-decimal : (n : ℕ) (cs : List ℕ) → stops cs ≡ true → read 0 (decimal n ++ cs) ≡ (n, cs)
unfolding decimal
read-decimal n cs h =
    ap (read 0) (digits-append (suc n) n [] cs)
    ∙ read-digits (suc n) n cs (omega arith)
    ∙ read-stops n cs h

-- If two numbers are written in decimal with something behind each that does not start with a digit, and
-- the texts are equal, then the numbers are equal and so are the rests.
pub decimal-inj :
    (m n : ℕ) (cs ds : List ℕ)
    → stops cs ≡ true
    → stops ds ≡ true
    → decimal m ++ cs ≡ decimal n ++ ds
    → (m ≡ n) × (cs ≡ ds)
decimal-inj m n cs ds hc hd h =
    let e = sym (read-decimal m cs hc) ∙ ap (read 0) h ∙ read-decimal n ds hd in
    (ap (λ p. p.0) e, ap (λ p. p.1) e)

-- the elements of a tuple of two or more, and its end
join-inj :
    (xs ys : List ℕ)
    → length xs ≡ length ys
    → join (codes ", ") (map decimal xs) ++ codes ")"
      ≡ join (codes ", ") (map decimal ys) ++ codes ")"
    → xs ≡ ys
unfolding join
join-inj [] [] l h = refl
join-inj [] (y ∷ ys) l h = absurd (omega arith)
join-inj (x ∷ xs) [] l h = absurd (omega arith)
join-inj (x ∷ []) (y ∷ []) l h =
    ap (λ z. z ∷ []) (decimal-inj x y (codes ")") (codes ")") refl refl h).0
join-inj (x ∷ []) (y ∷ y' ∷ ys) l h = absurd (omega arith)
join-inj (x ∷ x' ∷ xs) (y ∷ []) l h = absurd (omega arith)
join-inj (x ∷ x' ∷ xs) (y ∷ y' ∷ ys) l h =
    let sep : (zs : List ℕ) → List ℕ = λ zs. codes ", " ++ join (codes ", ") (map decimal zs) in
    let e = decimal-inj x y (sep (x' ∷ xs) ++ codes ")") (sep (y' ∷ ys) ++ codes ")") refl refl (
      sym (append_assoc (decimal x) (sep (x' ∷ xs)) (codes ")"))
      ∙ h
      ∙ append_assoc (decimal y) (sep (y' ∷ ys)) (codes ")")) in
    let others = join-inj (x' ∷ xs) (y' ∷ ys) (omega arith) (ap (drop 2) e.1) in cc (e.0, others)

-- Tuples of one length with equal texts are equal.
pub tuple_text-inj :
    (xs ys : List ℕ) → length xs ≡ length ys → tuple_text xs ≡ tuple_text ys → xs ≡ ys
unfolding tuple_text
tuple_text-inj [] [] l h = refl
tuple_text-inj [] (y ∷ ys) l h = absurd (omega arith)
tuple_text-inj (x ∷ xs) [] l h = absurd (omega arith)
tuple_text-inj (x ∷ []) (y ∷ []) l h =
    ap (λ z. z ∷ []) (decimal-inj x y (codes ",)") (codes ",)") refl refl (ap (drop 1) h)).0
tuple_text-inj (x ∷ []) (y ∷ y' ∷ ys) l h = absurd (omega arith)
tuple_text-inj (x ∷ x' ∷ xs) (y ∷ []) l h = absurd (omega arith)
tuple_text-inj (x ∷ x' ∷ xs) (y ∷ y' ∷ ys) l h =
    join-inj (x ∷ x' ∷ xs) (y ∷ y' ∷ ys) l (ap (drop 1) h)
