-- ===== src/Decoder/Tail.antt =====
-- studio/pd_omlx_hooks.py, `_install_tail`: the rows behind the last full block, which the front door has landed, are appended
-- to the restored caches. `update` is `KVCache.update_and_fetch`, of the decoder's library; none is an exception.
pub mod Whole
pub mod Partial
use pd_bridge.Prelude.{
  ℕ, zero, suc, ◌+◌, ◌-◌, Bool, true, false, ◌&&◌, ◌||◌, Option, none, some, List, [], ◌∷◌, ◌==◌,
  if◌then◌else◌, length, last_rows,
}
use pd_bridge.Decoder.{KvCache}

pub record Request (R : Type 0) : Type 0 where
  pub prompt : List ℕ
  pub cache : List (KvCache R)
  pub cached_tokens : ℕ
  pub remaining : List ℕ

module _ {R : Type 0} where
  -- a layer that cannot be appended to ends the loop
  abbrev pub then_others :
      KvCache R
      → List (KvCache R)
      → List (KvCache R) × Bool
      → Option (KvCache R)
      → List (KvCache R) × Bool
  then_others c cs others none = (c ∷ cs, false)
  then_others c cs others (some c') = (c' ∷ others.0, others.1)

  unfoldable pub all_end_at : ℕ → List (KvCache R) → Bool
  all_end_at n [] = true
  all_end_at n (c ∷ cs) = (c.offset == n) && all_end_at n cs

  abbrev pub installed : ℕ → Request R → List (KvCache R) × Bool → Request R
  installed n req (caches, true) = record {
    prompt = req.prompt;
    cache = caches;
    cached_tokens = req.cached_tokens + n;
    remaining = last_rows 1 req.prompt;
  }
  installed n req (caches, false) = record req { cache = caches }

  abbrev pub has_room : ℕ → ℕ → Request R → Bool
  has_room n layers req =
      (req.cached_tokens + n + 1 == length req.prompt)
      && ((length req.remaining == n + 1) && (length req.cache == layers))

module _ {R : Type 0} (update : KvCache R → List R → List R → Option (KvCache R)) where
  unfoldable pub append_all : List (KvCache R) → List (List R × List R) → List (KvCache R) × Bool
  append_all [] ts = ([], true)
  append_all (c ∷ cs) [] = (c ∷ cs, false)
  append_all (c ∷ cs) ((k, v) ∷ ts) = then_others c cs (append_all cs ts) (update c k v)

  abbrev pub install_rows : Request R → List (List R × List R) → Request R
  install_rows req [] = req
  install_rows req ((k, v) ∷ ts) =
      if has_room (length k) (length ts + 1) req && all_end_at req.cached_tokens req.cache
      then installed (length k) req (append_all req.cache ((k, v) ∷ ts))
      else req

  abbrev pub with_file : Request R → Option (List (List R × List R)) → Request R
  with_file req none = req
  with_file req (some ts) = install_rows req ts

  -- `_install_tail`, with the file of the prompt's hash if there is one; a file without layers is the KeyError that the
  -- caller catches
  unfoldable pub install_tail : Option (List (List R × List R)) → Request R → Request R
  unfolding append_all all_end_at
  install_tail file req =
      if (length req.prompt == 0) || (length req.cache == 0) then req else with_file req file
