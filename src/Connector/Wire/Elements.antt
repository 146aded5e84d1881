-- ===== src/Connector/Wire/Elements.antt =====
-- Where an element stands in a block file of R4, and that the header says so.
use mathlib.Core.Option.{some_inj}
use pd_bridge.Prelude.{
  mul_mono, ℕ, zero, suc, ◌+◌, ◌*◌, ◌<◌, ◌≡◌, refl, ap, ◌∙◌, some, List, [], ◌∷◌, ◌++◌, arith,
  length, get_elem?,
}
use pd_bridge.Connector.Layout.{Col}
use pd_bridge.Connector.Wire.{concat_range, concat_over, half, wire_oblk}
use pd_bridge.Connector.Wire.Slices.{length-concat_range, length-concat_over, length-half}
use pd_bridge.OmlxBlock.Header.{per, tensor_entry, tensor_entries}
use pd_bridge.OmlxBlock.Alignment.{get_elem?-tensor_entries}

module _ {ℓ} {A : Type ℓ} where
  get-append_front :
      (xs ys : List A) (i : ℕ) → i < length xs → get_elem? (xs ++ ys) i ≡ get_elem? xs i
  get-append_front [] ys i h = absurd (omega (arith, h))
  get-append_front (x ∷ xs) ys zero h = refl
  get-append_front (x ∷ xs) ys (suc i) h = get-append_front xs ys i (omega (arith, h))

  get-append_behind :
      (xs ys : List A) (i : ℕ) → get_elem? (xs ++ ys) (length xs + i) ≡ get_elem? ys i
  get-append_behind [] ys i = ap (get_elem? ys) (let e : 0 + i ≡ i = omega arith in e)
  get-append_behind (x ∷ xs) ys i =
      ap (get_elem? (x ∷ (xs ++ ys)))
        (let e : suc (length xs) + i ≡ suc (length xs + i) = omega arith in e)
      ∙ get-append_behind xs ys i

  -- the element `e` of the piece `k` of pieces of length `w`
  get-concat_range :
      (w i n k e : ℕ) (f : ℕ → List A)
      → ((j : ℕ) → length (f j) ≡ w)
      → k < n
      → e < w
      → get_elem? (concat_range i n f) (k * w + e) ≡ get_elem? (f (i + k)) e
  unfolding concat_range
  get-concat_range w i zero k e f h lt lt' = absurd (omega (arith, lt))
  get-concat_range w i (suc n) zero e f h lt lt' =
      ap (get_elem? (f i ++ concat_range (i + 1) n f)) (let z : 0 * w + e ≡ e = omega arith in z)
      ∙ get-append_front (f i) (concat_range (i + 1) n f) e (omega (arith, h i, lt'))
      ∙ ap (λ m. get_elem? (f m) e) (let z : i ≡ i + 0 = omega arith in z)
  get-concat_range w i (suc n) (suc k) e f h lt lt' =
      ap (get_elem? (f i ++ concat_range (i + 1) n f))
        (let z : suc k * w + e ≡ length (f i) + (k * w + e) = omega (arith, h i) in z)
      ∙ get-append_behind (f i) (concat_range (i + 1) n f) (k * w + e)
      ∙ get-concat_range w (i + 1) n k e f h (omega (arith, lt)) lt'
      ∙ ap (λ m. get_elem? (f m) e) (let z : i + 1 + k ≡ i + suc k = omega arith in z)

  get-range :
      (w n k e : ℕ) (f : ℕ → List A)
      → ((j : ℕ) → length (f j) ≡ w)
      → k < n
      → e < w
      → get_elem? (concat_range 0 n f) (k * w + e) ≡ get_elem? (f k) e
  get-range w n k e f h lt lt' =
      get-concat_range w 0 n k e f h lt lt'
      ∙ ap (λ m. get_elem? (f m) e) (let z : 0 + k ≡ k = omega arith in z)

get-concat_over {ℓ κ} :
    {A : Type ℓ} {B : Type κ} (w k e : ℕ) (xs : List A) (x : A) (f : A → List B)
    → ((y : A) → length (f y) ≡ w)
    → get_elem? xs k ≡ some x
    → e < w
    → get_elem? (concat_over xs f) (k * w + e) ≡ get_elem? (f x) e
unfolding concat_over
get-concat_over w k e [] x f h found lt = absurd (cc found)
get-concat_over w zero e (y ∷ xs) x f h found lt =
    ap (get_elem? (f y ++ concat_over xs f)) (let z : 0 * w + e ≡ e = omega arith in z)
    ∙ get-append_front (f y) (concat_over xs f) e (omega (arith, h y, lt))
    ∙ ap (λ u. get_elem? (f u) e) (some_inj.0 found)
get-concat_over w (suc k) e (y ∷ xs) x f h found lt =
    ap (get_elem? (f y ++ concat_over xs f))
      (let z : suc k * w + e ≡ length (f y) + (k * w + e) = omega (arith, h y) in z)
    ∙ get-append_behind (f y) (concat_over xs f) (k * w + e)
    ∙ get-concat_over w k e xs x f h found lt

-- a place within a piece is a place within all pieces
place_lt : (n k w e : ℕ) → k < n → e < w → k * w + e < n * w
place_lt n k w e lt lt' =
    let le = mul_mono (suc k) n w (omega (arith, lt)) in omega (arith, le, lt')

get_lt {ℓ} : {A : Type ℓ} (xs : List A) (k : ℕ) (x : A) → get_elem? xs k ≡ some x → k < length xs
get_lt [] k x h = absurd (cc h)
get_lt (y ∷ xs) zero x h = omega arith
get_lt (y ∷ xs) (suc k) x h = omega (arith, get_lt xs k x h)

module _ {V : Type 0} (heads head_dim : ℕ) where
  get-half :
      (l s h j d : ℕ) (cols : List (Col V)) (c : Col V)
      → get_elem? cols j ≡ some c
      → h < heads
      → d < head_dim
      → get_elem? (half heads head_dim l s cols) (h * (length cols * head_dim) + (j * head_dim + d))
        ≡ some (c l s h d)
  unfolding half
  get-half l s h j d cols c found hh hd =
      let row : ℕ → Col V → List V = λ h c. concat_range 0 head_dim (λ d. c l s h d ∷ []) in
      let len : (h : ℕ) (c : Col V) → length (row h c) ≡ head_dim =
        λ h c. length-concat_range 1 0 head_dim (λ d. c l s h d ∷ []) (λ d. refl) ∙ omega arith in
      get-range (length cols * head_dim) heads h (j * head_dim + d) (λ h. concat_over cols (row h))
        (λ h. length-concat_over head_dim cols (row h) (len h)) hh
        (place_lt (length cols) j head_dim d (get_lt cols j c found) hd)
      ∙ get-concat_over head_dim j d cols c (row h) (len h) found hd
      ∙ ap (get_elem? (row h c)) (let z : d ≡ d * 1 + 0 = omega arith in z)
      ∙ get-range 1 head_dim d 0 (λ d. c l s h d ∷ []) (λ d. refl) hd (omega arith)

  -- In a block file of R4, the key (`s` = 0) or value (`s` = 1) of a row, head and dimension of a layer below `layers` stands
  -- where row-major order puts it in the tensor of that layer and kind, [heads, rows, head_dim], and the header has that
  -- tensor at twice the index at which its elements begin, two bytes to an element.
  pub wire_oblk-element :
      (layers l s h j d : ℕ) (cols : List (Col V)) (c : Col V)
      → l < layers
      → s < 2
      → get_elem? cols j ≡ some c
      → h < heads
      → d < head_dim
      → (get_elem? (wire_oblk heads head_dim layers cols) (
            (2 * l + s) * (heads * (length cols * head_dim))
            + (h * (length cols * head_dim) + (j * head_dim + d)))
          ≡ some (c l s h d))
        × (get_elem? (tensor_entries heads (length cols) head_dim layers 0 0) (2 * l + s)
            ≡ some (
                tensor_entry heads
                  (length cols)
                  head_dim
                  l
                  s
                  (2 * ((2 * l + s) * (heads * (length cols * head_dim))))))
  unfolding wire_oblk per
  wire_oblk-element layers l s h j d cols c hl hs found hh hd =
      let w = heads * (length cols * head_dim) in
      let e = h * (length cols * head_dim) + (j * head_dim + d) in
      let inner : e < w =
        place_lt heads h (length cols * head_dim) (j * head_dim + d) hh
          (place_lt (length cols) j head_dim d (get_lt cols j c found) hd) in
      let halves : ℕ → List V = λ l. concat_range 0 2 (λ s. half heads head_dim l s cols) in
      (
        ap (get_elem? (wire_oblk heads head_dim layers cols))
              (let z : (2 * l + s) * w + e ≡ l * (2 * w) + (s * w + e) = grind arith in z)
            ∙ get-range (2 * w) layers l (s * w + e) halves
                (λ l.
                  length-concat_range w 0 2 (λ s. half heads head_dim l s cols)
                    (λ s. length-half heads head_dim l s cols))
                hl (place_lt 2 s w e hs inner)
            ∙ get-range w 2 s e (λ s. half heads head_dim l s cols)
                (λ s. length-half heads head_dim l s cols) hs inner
            ∙ get-half l s h j d cols c found hh hd,
        get_elem?-tensor_entries heads (length cols) head_dim layers 0 0 l s hl hs
            ∙ ap some (
                ap
                  (λ i.
                    tensor_entry heads (length cols) head_dim i s
                      (0 + (2 * l + s) * per heads (length cols) head_dim))
                  (let z : 0 + l ≡ l = omega arith in z)
                ∙ ap (tensor_entry heads (length cols) head_dim l s) (
                    let z : 0 + (2 * l + s) * (heads * length cols * head_dim * 2)
                        ≡ 2 * ((2 * l + s) * w) =
                      grind arith in
                    z)),
      )
