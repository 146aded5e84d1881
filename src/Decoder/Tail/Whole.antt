-- ===== src/Decoder/Tail/Whole.antt =====
-- After the tail is installed, a request has the rows of all tokens of its prompt but the last.
use mathlib.Core.Path.{subst}
use pd_bridge.Prelude.{
  ℕ, suc, ◌+◌, ◌-◌, ◌<◌, ◌≤◌, ◌≡◌, refl, ap, ◌∙◌, sym, Bool, true, false, ◌&&◌, ◌||◌, Option, some,
  List, [], ◌∷◌, ◌++◌, ◌==◌, ==_iff, ==_self, arith, length, take, slice, last_rows, length-slice,
  take_add,
}
use pd_bridge.Decoder.{KvCache}
use pd_bridge.Decoder.Tail.{Request, all_end_at, installed, has_room, append_all, install_tail}

-- What is relied on of `update_and_fetch`: rows of one number are appended to those that count.
pub record Appends {R : Type 0} (update : KvCache R → List R → List R → Option (KvCache R))
    : Type 0 where
  pub appends :
      (c : KvCache R) (k v : List R)
      → length k ≡ length v
      → (c' : KvCache R) × (update c k v ≡ some c')
        × (c'.offset ≡ c.offset + length k)
        × (take c'.offset c'.buf_keys ≡ take c.offset c.buf_keys ++ k)
        × (take c'.offset c'.buf_values ≡ take c.offset c.buf_values ++ v)

module _ {R : Type 0} where
  -- the caches hold the first `n` rows of keys and values of the layers
  abbrev pub Holds : ℕ → List (List R × List R) → List (KvCache R) → Type 0
  Holds n [] [] = 0 ≤ n
  Holds n [] (c ∷ cs) = ⊥
  Holds n ((ks, vs) ∷ rows) [] = ⊥
  Holds n ((ks, vs) ∷ rows) (c ∷ cs) =
      (c.offset ≡ n)
      × (take c.offset c.buf_keys ≡ take n ks)
      × (take c.offset c.buf_values ≡ take n vs)
      × Holds n rows cs

  -- the keys and values of each layer have `T` rows
  abbrev pub AllRows : ℕ → List (List R × List R) → Type 0
  AllRows T [] = 0 ≤ T
  AllRows T ((ks, vs) ∷ rows) = (length ks ≡ T) × (length vs ≡ T) × AllRows T rows

  unfoldable pub tail_of : ℕ → ℕ → List (List R × List R) → List (List R × List R)
  tail_of i j [] = []
  tail_of i j ((ks, vs) ∷ rows) = (slice i j ks, slice i j vs) ∷ tail_of i j rows

  -- rows of all tokens but the last, and the last token to do
  abbrev pub IsInstalled : List (List R × List R) → Request R → Request R → Type 0
  IsInstalled rows req req' =
      Holds (length req.prompt - 1) rows req'.cache
      × (req'.cached_tokens ≡ length req.prompt - 1)
      × (req'.remaining ≡ last_rows 1 req.prompt)

  length-tail_of :
      (i j : ℕ) (rows : List (List R × List R)) → length (tail_of i j rows) ≡ length rows
  unfolding tail_of
  length-tail_of i j [] = refl
  length-tail_of i j ((ks, vs) ∷ rows) = ap suc (length-tail_of i j rows)

  take-slice : (i j : ℕ) (xs : List R) → i ≤ j → take i xs ++ slice i j xs ≡ take j xs
  take-slice i j xs h =
      sym (take_add i (j - i) xs)
      ∙ ap (λ k. take k xs) (let e : i + (j - i) ≡ j = omega (arith, h) in e)

  Holds-offsets :
      (n : ℕ) (rows : List (List R × List R)) (cs : List (KvCache R))
      → Holds n rows cs
      → (all_end_at n cs ≡ true) × (length cs ≡ length rows)
  unfolding all_end_at
  Holds-offsets n [] [] h = (refl, refl)
  Holds-offsets n [] (c ∷ cs) h = absurd h
  Holds-offsets n (r ∷ rows) [] h = absurd h
  Holds-offsets n ((ks, vs) ∷ rows) (c ∷ cs) (o, k, v, h) =
      let (ends, same) = Holds-offsets n rows cs h in
      (ap (λ m. (m == n) && all_end_at n cs) o ∙ rw (==_self n) ends, ap suc same)

is_not_zero : (n : ℕ) → 0 < n → (n == 0) ≡ false
is_not_zero n h = ground (arith, h)

module _ {R : Type 0} (update : KvCache R → List R → List R → Option (KvCache R))
    (law : Appends update) where
  append_all-Holds :
      (i j T : ℕ) (rows : List (List R × List R)) (cs : List (KvCache R))
      → i ≤ j
      → j ≤ T
      → AllRows T rows
      → Holds i rows cs
      → ((append_all update cs (tail_of i j rows)).1 ≡ true)
        × Holds j rows (append_all update cs (tail_of i j rows)).0
  unfolding append_all tail_of
  append_all-Holds i j T [] [] h le all holds = (refl, omega arith)
  append_all-Holds i j T [] (c ∷ cs) h le all holds = absurd holds
  append_all-Holds i j T (r ∷ rows) [] h le all holds = absurd holds
  append_all-Holds i j T ((ks, vs) ∷ rows) (c ∷ cs) h le (lk, lv, all) (o, ek, ev, holds) =
      let (good, ih) = append_all-Holds i j T rows cs h le all holds in
      let sk = length-slice i j ks (omega (arith, le, lk)) in
      let sv = length-slice i j vs (omega (arith, le, lv)) in
      let (c', e, o', k', v') = law.appends c (slice i j ks) (slice i j vs) (sk ∙ sym sv) in
      rw e (
        good,
        (
          omega (arith, o', o, sk, h),
          k' ∙ ap (λ t. t ++ slice i j ks) ek ∙ take-slice i j ks h,
          v' ∙ ap (λ t. t ++ slice i j vs) ev ∙ take-slice i j vs h,
          ih,
        ),
      )

  installed_good :
      (n : ℕ) (req : Request R) (r : List (KvCache R) × Bool)
      → r.1 ≡ true
      → installed n req r ≡ record {
        prompt = req.prompt;
        cache = r.0;
        cached_tokens = req.cached_tokens + n;
        remaining = last_rows 1 req.prompt;
      }
  installed_good n req (caches, true) e = refl
  installed_good n req (caches, false) e = absurd (cc e)

  module _ (ks vs : List R) (rows : List (List R × List R)) (req : Request R)
      (all : AllRows (length req.prompt) ((ks, vs) ∷ rows))
      (holds : Holds req.cached_tokens ((ks, vs) ∷ rows) req.cache)
      (lt : req.cached_tokens < length req.prompt)
      (left : length req.remaining ≡ length req.prompt - req.cached_tokens) where
    abbrev n_tail : ℕ
    n_tail = length (slice req.cached_tokens (length req.prompt - 1) ks)

    n_tail_eq : req.cached_tokens + n_tail + 1 ≡ length req.prompt
    n_tail_eq = omega (
      arith,
      lt,
      length-slice req.cached_tokens (length req.prompt - 1) ks (omega (arith, lt, all.0)),
    )

    tests_pass :
        (has_room n_tail (length (tail_of req.cached_tokens (length req.prompt - 1) rows) + 1) req
          && all_end_at req.cached_tokens req.cache)
        ≡ true
    tests_pass =
        let (ends, same) = Holds-offsets req.cached_tokens ((ks, vs) ∷ rows) req.cache holds in
        rw (ends) (
          rw ((==_iff (req.cached_tokens + n_tail + 1) (length req.prompt)).1 n_tail_eq) (
            rw ((==_iff (length req.remaining) (n_tail + 1)).1 (omega (arith, left, n_tail_eq))) (
              rw
                ((==_iff (length req.cache)
                    (length (tail_of req.cached_tokens (length req.prompt - 1) rows) + 1)).1
                  (omega
                    (arith, same, length-tail_of req.cached_tokens (length req.prompt - 1) rows)))
                refl)))

    not_empty : ((length req.prompt == 0) || (length req.cache == 0)) ≡ false
    not_empty =
        let (ends, same) = Holds-offsets req.cached_tokens ((ks, vs) ∷ rows) req.cache holds in
        rw (is_not_zero (length req.prompt) (omega (arith, lt)))
          (is_not_zero (length req.cache) (omega (arith, same)))

    -- For an `update_and_fetch` that appends: if a restored request holds the first rows of every layer up to its cached
    -- tokens, has a layer and the other tokens left to do, and its file has the rows from there to before the last token, then
    -- after `_install_tail` it holds the rows of all tokens but the last, and only the last token is left.
    pub install_tail-IsInstalled : IsInstalled ((ks, vs) ∷ rows) req (
        install_tail update
          (some (tail_of req.cached_tokens (length req.prompt - 1) ((ks, vs) ∷ rows)))
          req)
    unfolding install_tail tail_of
    install_tail-IsInstalled =
        let i = req.cached_tokens in
        let j = length req.prompt - 1 in
        let r = append_all update req.cache (tail_of i j ((ks, vs) ∷ rows)) in
        let (good, holds') =
          append_all-Holds i j (length req.prompt) ((ks, vs) ∷ rows) req.cache (omega (arith, lt))
            (omega arith) all holds in
        rw not_empty (
          rw tests_pass (
            subst (IsInstalled ((ks, vs) ∷ rows) req) (sym (installed_good n_tail req r good))
              (holds', omega (arith, n_tail_eq), refl)))
