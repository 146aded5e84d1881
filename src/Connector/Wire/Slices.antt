-- ===== src/Connector/Wire/Slices.antt =====
-- Where a layer's keys and values lie in a block on the wire.
use pd_bridge.Prelude.{
  ℕ, zero, suc, ◌+◌, ◌*◌, ◌<◌, ◌≡◌, refl, ap, ◌∙◌, sym, List, [], ◌∷◌, ◌++◌, arith, length, take,
  drop, length-append, take-append, drop-append, drop-drop, take-drop-take,
}
use pd_bridge.Connector.Layout.{Col}
use pd_bridge.Connector.Wire.{concat_range, concat_over, half, wire_blk}

module _ {ℓ} {A : Type ℓ} where
  pub length-concat_range :
      (w i n : ℕ) (f : ℕ → List A)
      → ((j : ℕ) → length (f j) ≡ w)
      → length (concat_range i n f) ≡ n * w
  unfolding concat_range
  length-concat_range w i zero f h = omega arith
  length-concat_range w i (suc n) f h = omega (
    arith,
    length-append (f i) (concat_range (i + 1) n f),
    h i,
    length-concat_range w (i + 1) n f h,
  )

  -- the piece `k` of pieces of one length
  concat_range-piece :
      (w i n k : ℕ) (f : ℕ → List A)
      → ((j : ℕ) → length (f j) ≡ w)
      → k < n
      → take w (drop (k * w) (concat_range i n f)) ≡ f (i + k)
  unfolding concat_range
  concat_range-piece w i zero k f h lt = absurd (omega arith)
  concat_range-piece w i (suc n) zero f h lt =
      ap (λ m. take w (drop m (f i ++ concat_range (i + 1) n f)))
        (let e : 0 * w ≡ 0 = omega arith in e)
      ∙ take-append w (f i) (concat_range (i + 1) n f) (sym (h i))
      ∙ ap f (let e : i ≡ i + 0 = omega arith in e)
  concat_range-piece w i (suc n) (suc k) f h lt =
      ap (take w) (
        ap (λ m. drop m (f i ++ concat_range (i + 1) n f))
          (let e : suc k * w ≡ w + k * w = omega arith in e)
        ∙ sym (drop-drop (k * w) w (f i ++ concat_range (i + 1) n f))
        ∙ ap (drop (k * w)) (drop-append w (f i) (concat_range (i + 1) n f) (sym (h i))))
      ∙ concat_range-piece w (i + 1) n k f h (omega arith)
      ∙ ap f (let e : i + 1 + k ≡ i + suc k = omega arith in e)

  piece :
      (w n k : ℕ) (f : ℕ → List A)
      → ((j : ℕ) → length (f j) ≡ w)
      → k < n
      → take w (drop (k * w) (concat_range 0 n f)) ≡ f k
  piece w n k f h lt =
      concat_range-piece w 0 n k f h lt ∙ ap f (let e : 0 + k ≡ k = omega arith in e)

  -- a piece of a piece
  piece-piece :
      (w n m l s : ℕ) (f : ℕ → ℕ → List A)
      → ((i j : ℕ) → length (f i j) ≡ w)
      → l < n
      → s < m
      → take w (drop ((l * m + s) * w) (concat_range 0 n (λ i. concat_range 0 m (f i)))) ≡ f l s
  piece-piece w n m l s f h lt lt' =
      let all = concat_range 0 n (λ i. concat_range 0 m (f i)) in
      let outer : take (m * w) (drop (l * (m * w)) all) ≡ concat_range 0 m (f l) =
        piece (m * w) n l (λ i. concat_range 0 m (f i)) (λ i. length-concat_range w 0 m (f i) (h i))
          lt in
      sym (
        ap (λ p. take w (drop (s * w) p)) (sym outer)
        ∙ take-drop-take w (s * w) (m * w) (drop (l * (m * w)) all) (grind arith)
        ∙ ap (take w) (
            drop-drop (s * w) (l * (m * w)) all
            ∙ ap (λ k. drop k all)
                (let e : l * (m * w) + s * w ≡ (l * m + s) * w = grind arith in e)))
      ∙ piece w m s (f l) (h l) lt'

pub length-concat_over {ℓ κ} :
    {A : Type ℓ} {B : Type κ} (w : ℕ) (xs : List A) (f : A → List B)
    → ((x : A) → length (f x) ≡ w)
    → length (concat_over xs f) ≡ length xs * w
unfolding concat_over
length-concat_over w [] f h = omega arith
length-concat_over w (x ∷ xs) f h =
    omega (arith, length-append (f x) (concat_over xs f), h x, length-concat_over w xs f h)

module _ {V : Type 0} (heads head_dim : ℕ) where
  pub length-half :
      (l s : ℕ) (cols : List (Col V))
      → length (half heads head_dim l s cols) ≡ heads * (length cols * head_dim)
  unfolding half
  length-half l s cols = length-concat_range (length cols * head_dim) 0 heads _ (λ h.
      length-concat_over head_dim cols _
        (λ c. length-concat_range 1 0 head_dim _ (λ d. refl) ∙ omega arith))

  -- In a block of R2, the keys (`s` = 0) of all layers come before the values (`s` = 1): those of a layer
  -- below `layers` are the piece `s layers + l` of pieces of `heads * rows * head_dim` elements.
  pub wire_blk-half :
      (layers l s : ℕ) (cols : List (Col V))
      → l < layers
      → s < 2
      → take (heads * (length cols * head_dim)) (
          drop
            ((s * layers + l) * (heads * (length cols * head_dim)))
            (wire_blk heads head_dim layers cols))
        ≡ half heads head_dim l s cols
  unfolding wire_blk
  wire_blk-half layers l s cols hl hs =
      piece-piece (heads * (length cols * head_dim)) 2 layers s l
        (λ t i. half heads head_dim i t cols) (λ t i. length-half i t cols) hs hl
