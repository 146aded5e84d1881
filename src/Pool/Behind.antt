-- ===== src/Pool/Behind.antt =====
-- The windows that a call completes behind the rows of earlier calls.
use pd_bridge.Prelude.{
  div_unique, at_least, ℕ, ◌+◌, ◌-◌, ◌*◌, ◌/◌, ◌%◌, ◌≤◌, ◌<◌, ◌≡◌, ap, ◌∙◌, sym, none, some, List,
  ◌++◌, arith, take-append-drop, length-take, ltb, if◌then◌else◌, length, take, drop, append_assoc,
  length-append, length-drop, drop-append_le, drop-drop,
}
use pd_bridge.Pool.{windows, last_of, unless_empty}
use pd_bridge.Pool.Windows.{windows_add, length-windows, windows-append, unless_empty_lem}
use pd_bridge.Pool.Calls.{div_split, positive, last_of-longer, drop-behind}

-- one call behind the rows `xs`, for the rows `ys`
module _ {A : Type 0} (r : ℕ) (pos : 0 < r) (xs ys : List A) where
  abbrev pub q : ℕ
  q = length xs / r

  abbrev pub rest : List A
  rest = drop (q * r) xs

  abbrev pub n : ℕ
  n = (length rest + length ys) / r

  length-rest : length rest ≡ length xs - length xs / r * r
  length-rest = length-drop (q * r) xs

  pub all_windows : length (xs ++ ys) / r ≡ q + n
  all_windows =
      ap (λ k. k / r) (length-append xs ys)
      ∙ div_split (length xs) (length ys) r pos
      ∙ ap (λ k. q + (k + length ys) / r) (sym length-rest)

  pub drop-all : (k : ℕ) → drop ((q + k) * r) (xs ++ ys) ≡ drop (k * r) (rest ++ ys)
  drop-all k =
      ap (λ j. drop j (xs ++ ys)) (let e : (q + k) * r ≡ q * r + k * r = omega arith in e)
      ∙ sym (drop-drop (k * r) (q * r) (xs ++ ys))
      ∙ ap (drop (k * r)) (drop-append_le (q * r) xs ys (omega (arith, pos)))

  -- the windows that the call reshapes
  rest_lt : length rest < r
  rest_lt = omega (arith, length-rest, pos)

  pub new_windows :
      0 < n * r
      → windows r (n * r / r) (rest ++ take (n * r - length rest) ys)
        ≡ windows r n (drop (q * r) (xs ++ ys))
  new_windows h =
      let k = n * r - length rest in
      let count : n * r / r ≡ n = div_unique n (n * r) r pos (omega arith) (omega (arith, pos)) in
      let low : n * r ≤ length rest + length ys = omega (arith, pos) in
      let inside : n * r ≤ length (rest ++ take k ys) =
        omega (arith, low, length-append rest (take k ys), length-take k ys) in
      let whole_again : (rest ++ take k ys) ++ drop k ys ≡ rest ++ ys =
        append_assoc rest (take k ys) (drop k ys) ∙ ap (◌++◌ rest) (take-append-drop k ys) in
      ap (λ j. windows r j (rest ++ take k ys)) count
      ∙ sym (windows-append r n (rest ++ take k ys) (drop k ys) inside)
      ∙ ap (windows r n) (whole_again ∙ sym (drop-append_le (q * r) xs ys (omega (arith, pos))))

  pub new_rest :
      0 < n * r
      → (if ltb 0 ((length rest + length ys) % r)
          then some (drop (length ys - (length rest + length ys) % r) ys)
          else none)
        ≡ unless_empty (drop (length (xs ++ ys) / r * r) (xs ++ ys))
  new_rest h =
      let m = (length rest + length ys) % r in
      let low : length rest ≤ n * r = omega (arith, rest_lt, at_least n r h) in
      let high : n * r ≤ length rest + length ys = omega (arith, pos) in
      let over : m ≡ length rest + length ys - n * r = omega (arith, pos) in
      let same : length ys - m ≡ n * r - length rest = omega (arith, low, high, over) in
      let size : length (drop (length ys - m) ys) ≡ m =
        length-drop (length ys - m) ys ∙ omega (arith, low, high, over) in
      let behind : drop (n * r) (rest ++ ys) ≡ drop (n * r - length rest) ys =
        drop-behind (n * r) rest ys low in
      unless_empty_lem (drop (length ys - m) ys) m size
      ∙ ap unless_empty (
          ap (λ j. drop j ys) same
          ∙ sym behind
          ∙ sym (drop-all n)
          ∙ ap (λ k. drop (k * r) (xs ++ ys)) (sym all_windows))

  abbrev pub old_windows : List (List A)
  old_windows = windows r q xs

  abbrev pub more_windows : List (List A)
  more_windows = windows r n (drop (q * r) (xs ++ ys))

  pub windows_eq : windows r (length (xs ++ ys) / r) (xs ++ ys) ≡ old_windows ++ more_windows
  windows_eq =
      ap (λ k. windows r k (xs ++ ys)) all_windows
      ∙ windows_add r q n (xs ++ ys)
      ∙ ap (λ ws. ws ++ more_windows) (windows-append r q xs ys (omega (arith, pos)))

  pub last_more : 0 < n * r → last_of (old_windows ++ more_windows) ≡ last_of more_windows
  last_more h =
      last_of-longer old_windows more_windows
        (omega (arith, length-windows r n (drop (q * r) (xs ++ ys)), positive n r h))

  pub place : (length xs - length rest) / r ≡ q
  place =
      div_unique q (length xs - length rest) r pos (omega (arith, length-rest, pos))
        (omega (arith, length-rest, pos))
