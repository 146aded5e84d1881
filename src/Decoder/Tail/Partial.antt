-- ===== src/Decoder/Tail/Partial.antt =====
-- What becomes of a request, whichever layer does not take its rows.
use pd_bridge.Prelude.{
  ◌+◌, ◌≡◌, Bool, true, false, Option, none, some, List, [], ◌∷◌, length, last_rows, ◌⊎◌,
}
use pd_bridge.Decoder.{KvCache}
use pd_bridge.Decoder.Tail.{Request, all_end_at}

module _ {R : Type 0} (update : KvCache R → List R → List R → Option (KvCache R)) where
  -- every layer has taken its rows
  pub data Appended : List (KvCache R) → List (List R × List R) → List (KvCache R) → Type 0 where
    nothing : Appended [] [] []
    each :
        {c c' : KvCache R} {k v : List R} {cs cs' : List (KvCache R)} {ts : List (List R × List R)}
        → update c k v ≡ some c'
        → Appended cs ts cs'
        → Appended (c ∷ cs) ((k, v) ∷ ts) (c' ∷ cs')

  -- some layers have taken their rows, the next one has not, and it and those behind it are as they were
  pub data Stopped : List (KvCache R) → List (List R × List R) → List (KvCache R) → Type 0 where
    here :
        {c : KvCache R} {k v : List R} {cs : List (KvCache R)} {ts : List (List R × List R)}
        → update c k v ≡ none
        → Stopped (c ∷ cs) ((k, v) ∷ ts) (c ∷ cs)
    later :
        {c c' : KvCache R} {k v : List R} {cs cs' : List (KvCache R)} {ts : List (List R × List R)}
        → update c k v ≡ some c'
        → Stopped cs ts cs'
        → Stopped (c ∷ cs) ((k, v) ∷ ts) (c' ∷ cs')

  abbrev pub Ran : List (KvCache R) → List (List R × List R) → List (KvCache R) × Bool → Type 0
  Ran cs ts r = ((r.1 ≡ true) × Appended cs ts r.0) ⊎ ((r.1 ≡ false) × Stopped cs ts r.0)

  -- What `_install_tail` makes of a request.
  abbrev pub Outcome : Option (List (List R × List R)) → Request R → Request R → Type 0
  Outcome file req req' =
      (req' ≡ req)
      ⊎ ((ts : List (List R × List R)) × (file ≡ some ts)
          × (all_end_at req.cached_tokens req.cache ≡ true)
          × ((Appended req.cache ts req'.cache
                × (req'.cached_tokens + 1 ≡ length req.prompt)
                × (req'.remaining ≡ last_rows 1 req.prompt))
              ⊎ (Stopped req.cache ts req'.cache
                  × (req'.cached_tokens ≡ req.cached_tokens)
                  × (req'.remaining ≡ req.remaining))))
