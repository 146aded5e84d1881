-- ===== src/Pool/Windows.antt =====
-- Windows of a list, and pooling them in two goes.
use pd_bridge.Prelude.{
  ℕ, zero, suc, ◌+◌, ◌*◌, ◌≤◌, ◌≡◌, refl, ap, ◌∙◌, Bool, true, false, Option, none, some, List, [],
  ◌∷◌, ◌++◌, map, arith, ltb, if◌then◌else◌, length, take, drop, length-drop, take-append_le,
  drop-append_le, drop-drop,
}
use pd_bridge.Pool.{
  Ops, indexed, windows, init, last_of, beside, buffered, unless_empty, simple_compress,
  overlap_compress, pooled,
}

module _ {ℓ} {A : Type ℓ} where
  pub windows_add :
      (r m n : ℕ) (xs : List A)
      → windows r (m + n) xs ≡ windows r m xs ++ windows r n (drop (m * r) xs)
  unfolding windows
  windows_add r zero n xs =
      ap (λ k. windows r k xs) (let e : 0 + n ≡ n = omega arith in e)
      ∙ ap (λ k. windows r n (drop k xs)) (let e : 0 ≡ 0 * r = omega arith in e)
  windows_add r (suc m) n xs =
      ap (λ k. windows r k xs) (let e : suc m + n ≡ suc (m + n) = omega arith in e)
      ∙ ap (◌∷◌ (take r xs)) (
          windows_add r m n (drop r xs)
          ∙ ap (λ zs. windows r m (drop r xs) ++ windows r n zs)
              (drop-drop (m * r) r xs
                ∙ ap (λ k. drop k xs) (let e : r + m * r ≡ suc m * r = omega arith in e)))

  pub length-windows : (r n : ℕ) (xs : List A) → length (windows r n xs) ≡ n
  unfolding windows
  length-windows r zero xs = refl
  length-windows r (suc n) xs = ap suc (length-windows r n (drop r xs))

  -- windows that lie inside the first part
  pub windows-append :
      (r n : ℕ) (xs ys : List A) → n * r ≤ length xs → windows r n (xs ++ ys) ≡ windows r n xs
  unfolding windows
  windows-append r zero xs ys h = refl
  windows-append r (suc n) xs ys h =
      let inside : r ≤ length xs = omega arith in
      let rest : n * r ≤ length (drop r xs) = omega (arith, length-drop r xs) in
      let heads = take-append_le r xs ys inside in
      let tails =
        ap (windows r n) (drop-append_le r xs ys inside) ∙ windows-append r n (drop r xs) ys rest in
      cc (heads, tails)

  pub last_of-append :
      (xs : List A) (y : A) (ys : List A) → last_of (xs ++ (y ∷ ys)) ≡ last_of (y ∷ ys)
  unfolding last_of
  last_of-append [] y ys = refl
  last_of-append (x ∷ []) y ys = refl
  last_of-append (x ∷ x' ∷ xs) y ys = last_of-append (x' ∷ xs) y ys

  pub buffered-unless_empty : (xs : List A) → buffered (unless_empty xs) ≡ xs
  buffered-unless_empty [] = refl
  buffered-unless_empty (x ∷ xs) = refl

  pub unless_empty_lem :
      (xs : List A) (n : ℕ) → length xs ≡ n → (if ltb 0 n then some xs else none) ≡ unless_empty xs
  unless_empty_lem [] zero h = refl
  unless_empty_lem [] (suc n) h = absurd (omega arith)
  unless_empty_lem (x ∷ xs) zero h = absurd (omega arith)
  unless_empty_lem (x ∷ xs) (suc n) h = ground arith

pub map-append {ℓ κ} :
    {A : Type ℓ} {B : Type κ} (f : A → B) (xs ys : List A) → map f (xs ++ ys) ≡ map f xs ++ map f ys
map-append f [] ys = refl
map-append f (x ∷ xs) ys = ap (◌∷◌ (f x)) (map-append f xs ys)

pub length-map {ℓ κ} :
    {A : Type ℓ} {B : Type κ} (f : A → B) (xs : List A) → length (map f xs) ≡ length xs
length-map f [] = refl
length-map f (x ∷ xs) = ap suc (length-map f xs)

pub indexed-append {ℓ κ} :
    {A : Type ℓ} {B : Type κ} (f : ℕ → A → B) (i : ℕ) (xs ys : List A)
    → indexed f i (xs ++ ys) ≡ indexed f i xs ++ indexed f (i + length xs) ys
unfolding indexed
indexed-append f i [] ys = ap (λ k. indexed f k ys) (let e : i ≡ i + 0 = omega arith in e)
indexed-append f i (x ∷ xs) ys = ap (◌∷◌ (f i x)) (
    indexed-append f (i + 1) xs ys
    ∙ ap (λ k. indexed f (i + 1) xs ++ indexed f k ys)
        (let e : i + 1 + length xs ≡ i + suc (length xs) = omega arith in e))

module _ {A H P : Type 0} (ops : Ops A H P) where
  open ops use {bias, lane_a, lane_b, blank, attend, norm, rotate}

  -- the pooled rows of overlapping windows, the first one behind the lane `a`
  unfoldable pub overlapping : List H → List (List A) → List P
  overlapping a [] = []
  overlapping a (w ∷ ws) = attend (a ++ indexed lane_b 0 w) ∷ overlapping (indexed lane_a 0 w) ws

  beside-overlapping :
      (a : List H) (w : List A) (ws : List (List A))
      → map attend
          (beside (a ∷ init (map (indexed lane_a 0) (w ∷ ws))) (map (indexed lane_b 0) (w ∷ ws)))
        ≡ overlapping a (w ∷ ws)
  unfolding overlapping beside init
  beside-overlapping a w [] = refl
  beside-overlapping a w (v ∷ ws) =
      ap (◌∷◌ (attend (a ++ indexed lane_b 0 w))) (beside-overlapping (indexed lane_a 0 w) v ws)

  overlap_compress_lem : (ws : List (List A)) → overlap_compress ops ws ≡ overlapping blank ws
  unfolding overlap_compress overlapping beside
  overlap_compress_lem [] = refl
  overlap_compress_lem (w ∷ ws) = beside-overlapping blank w ws

  -- the lane that the windows leave behind
  abbrev lane_after : List H → Option (List A) → List H
  lane_after a none = a
  lane_after a (some w) = indexed lane_a 0 w

  lane_after-eq :
      (a b : List H) (w : List A) (ws : List (List A))
      → lane_after a (last_of (w ∷ ws)) ≡ lane_after b (last_of (w ∷ ws))
  unfolding last_of
  lane_after-eq a b w [] = refl
  lane_after-eq a b w (w' ∷ ws) = lane_after-eq a b w' ws

  overlapping-append :
      (a : List H) (ws vs : List (List A))
      → overlapping a (ws ++ vs) ≡ overlapping a ws ++ overlapping (lane_after a (last_of ws)) vs
  unfolding overlapping last_of
  overlapping-append a [] vs = refl
  overlapping-append a (w ∷ []) vs = refl
  overlapping-append a (w ∷ w' ∷ ws) vs = ap (◌∷◌ (attend (a ++ indexed lane_b 0 w))) (
      overlapping-append (indexed lane_a 0 w) (w' ∷ ws) vs
      ∙ ap (λ l. overlapping (indexed lane_a 0 w) (w' ∷ ws) ++ overlapping l vs)
          (lane_after-eq (indexed lane_a 0 w) a w' ws))

  length-overlapping : (a : List H) (ws : List (List A)) → length (overlapping a ws) ≡ length ws
  unfolding overlapping
  length-overlapping a [] = refl
  length-overlapping a (w ∷ ws) = ap suc (length-overlapping (indexed lane_a 0 w) ws)

  pub pooled_overlap :
      (prev : Option (List A)) (ws : List (List A))
      → pooled ops true prev ws ≡ overlapping (lane_after blank prev) ws
  unfolding pooled overlapping
  pooled_overlap none ws = overlap_compress_lem ws
  pooled_overlap (some p) ws = ap (drop 1) (overlap_compress_lem (p ∷ ws))

  pub length-pooled : (o : Bool) (ws : List (List A)) → length (pooled ops o none ws) ≡ length ws
  unfolding pooled simple_compress
  length-pooled true ws = ap length (pooled_overlap none ws) ∙ length-overlapping blank ws
  length-pooled false ws = length-map _ ws

  pooled_simple :
      (ws vs : List (List A))
      → pooled ops false none (ws ++ vs) ≡ pooled ops false none ws ++ pooled ops false none vs
  unfolding pooled simple_compress
  pooled_simple ws vs = map-append _ ws vs

  -- pooling windows and then, with the last one carried over, more windows
  pub pooled-append :
      (o : Bool) (ws vs : List (List A))
      → pooled ops o none (ws ++ vs)
        ≡ pooled ops o none ws ++ pooled ops o (if o then last_of ws else none) vs
  pooled-append true ws vs =
      pooled_overlap none (ws ++ vs)
      ∙ overlapping-append blank ws vs
      ∙ cc (pooled_overlap none ws, pooled_overlap (last_of ws) vs)
  pooled-append false ws vs = pooled_simple ws vs
