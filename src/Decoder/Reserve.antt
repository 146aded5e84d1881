-- ===== src/Decoder/Reserve.antt =====
-- studio/pd_omlx_hooks.py, `_patch_type_handlers`: a cache that is restored from the disk gets spare rows behind its blocks.
use mathlib.Core.Path.{subst}
use pd_bridge.Prelude.{
  ℕ, ◌+◌, ◌-◌, ◌*◌, ◌/◌, ◌%◌, ◌≤◌, ◌≡◌, refl, ap, sym, Option, none, some, List, [], ◌∷◌, ◌++◌,
  arith, length, take, replicate, joined, length-append, length-replicate, take-append,
}
use pd_bridge.Decoder.{KvCache}

-- (n + RESERVE + step - 1) // step * step - n
unfoldable pub spare_of : ℕ → ℕ → ℕ
spare_of reserve n = (n + reserve + 256 - 1) / 256 * 256 - n

spare_room : (reserve n : ℕ) → (reserve ≤ spare_of reserve n) × ((n + spare_of reserve n) % 256 ≡ 0)
unfolding spare_of
spare_room reserve n = omega arith

-- `reconstruct_cache`; the decoder's own method takes the number of rows for the offset
abbrev pub offset_of : ℕ → Option ℕ → ℕ
offset_of n none = n
offset_of n (some m) = m

-- What `concatenate_states` returns: upstream's way, or with the spare rows and their own offset.
pub record Restored (R : Type 0) : Type 0 where
  pub keys : List R
  pub values : List R
  pub pd_offset : Option ℕ

module _ {R : Type 0} where
  -- the states that have keys, or values
  unfoldable pub present : List (Option (List R)) → List (List R)
  present [] = []
  present (none ∷ ss) = present ss
  present (some rows ∷ ss) = rows ∷ present ss

  abbrev pub with_spare : ℕ → R → List (List R) → List (List R) → Restored R → Restored R
  with_spare reserve z [] values upstream = upstream
  with_spare reserve z (k ∷ keys) [] upstream = upstream
  with_spare reserve z (k ∷ keys) (v ∷ values) upstream =
      let n = length (joined (k ∷ keys)) in
      let zeros = replicate (spare_of reserve n) z in
      record {
        keys = joined (k ∷ keys) ++ zeros;
        values = joined (v ∷ values) ++ zeros;
        pd_offset = some n;
      }

  -- `concatenate_states`, for tensors of four dimensions; `upstream` is what the decoder's own method gives
  unfoldable pub concatenate_states :
      ℕ → R → List (Option (List R)) → List (Option (List R)) → Restored R → Restored R
  unfolding spare_of present
  concatenate_states reserve z keys values upstream =
      with_spare reserve z (present keys) (present values) upstream

  unfoldable pub reconstruct_cache : Restored R → KvCache R
  reconstruct_cache state = record {
    buf_keys = state.keys;
    buf_values = state.values;
    offset = offset_of (length state.keys) state.pd_offset;
  }

  abbrev pub all_present : List (List R) → List (Option (List R))
  all_present [] = []
  all_present (rows ∷ xss) = some rows ∷ all_present xss

  present-all : (xss : List (List R)) → present (all_present xss) ≡ xss
  unfolding present
  present-all [] = refl
  present-all (rows ∷ xss) = ap (◌∷◌ rows) (present-all xss)

  -- buffers that begin with these rows, with as many spare ones behind them, up to a multiple of 256
  abbrev pub IsReserved : ℕ → List R → List R → KvCache R → Type 0
  IsReserved reserve ks vs c =
      (take c.offset c.buf_keys ≡ ks)
      × (take c.offset c.buf_values ≡ vs)
      × (c.offset + reserve ≤ length c.buf_keys)
      × (length c.buf_keys % 256 ≡ 0)
      × (length c.buf_values ≡ length c.buf_keys)

  with_spare-IsReserved :
      (reserve : ℕ) (z : R) (k v : List R) (keys values : List (List R)) (upstream : Restored R)
      → length (joined (k ∷ keys)) ≡ length (joined (v ∷ values))
      → IsReserved reserve
          (joined (k ∷ keys))
          (joined (v ∷ values))
          (reconstruct_cache (with_spare reserve z (k ∷ keys) (v ∷ values) upstream))
  unfolding reconstruct_cache
  with_spare-IsReserved reserve z k v keys values upstream same =
      let n = length (joined (k ∷ keys)) in
      let zeros = replicate (spare_of reserve n) z in
      let (room, whole) = spare_room reserve n in
      let l = length-append (joined (k ∷ keys)) zeros in
      let m = length-append (joined (v ∷ values)) zeros in
      let s = length-replicate (spare_of reserve n) z in
      (
        take-append n (joined (k ∷ keys)) zeros refl,
        take-append n (joined (v ∷ values)) zeros same,
        omega (arith, l, s, room),
        omega (arith, l, s, whole),
        omega (arith, l, m, same),
      )

  -- If the blocks have keys and values, of one number of rows: a restored cache holds the rows of the blocks one behind the
  -- other, and has at least as many spare rows behind them as are asked for, with a multiple of 256 rows in all.
  pub reconstruct_cache-IsReserved :
      (reserve : ℕ) (z : R) (k v : List R) (keys values : List (List R)) (upstream : Restored R)
      → length (joined (k ∷ keys)) ≡ length (joined (v ∷ values))
      → IsReserved reserve (joined (k ∷ keys)) (joined (v ∷ values)) (
          reconstruct_cache (
            concatenate_states reserve z
              (all_present (k ∷ keys))
              (all_present (v ∷ values))
              upstream))
  unfolding concatenate_states present
  reconstruct_cache-IsReserved reserve z k v keys values upstream same =
      subst
        (λ t. IsReserved reserve (joined (k ∷ keys)) (joined (v ∷ values)) (
          reconstruct_cache
            (with_spare reserve z (k ∷ t) (present (all_present (v ∷ values))) upstream)))
        (sym (present-all keys))
        (subst
          (λ t.
            IsReserved reserve (joined (k ∷ keys)) (joined (v ∷ values))
              (reconstruct_cache (with_spare reserve z (k ∷ keys) (v ∷ t) upstream)))
          (sym (present-all values))
          (with_spare-IsReserved reserve z k v keys values upstream same))
