-- ===== src/KvReturn.antt =====
-- studio/kv_return/pd_kv_return.py, `usable_prefix` and `merge_prefix`: a capture that was resumed at a position is put
-- together with the earlier capture that the decoder kept. The layer files are those of Hook.
pub mod Merge
pub mod Resume
use pd_bridge.Prelude.{
  ℕ, ◌+◌, ◌/◌, Bool, true, false, not, ◌||◌, ◌&&◌, Option, none, some, List, [], ◌∷◌, ◌++◌, ltb,
  leb, ◌==◌, if◌then◌else◌, take, joined,
}
use pd_bridge.Hook.Pools.{Exported}
use pd_bridge.Hook.Finish.{LayerFile}

-- `kv_return` of a manifest: where it was resumed, from which capture; and what else is looked at.
pub record Resumed : Type 0 where
  pub resume_from : ℕ
  pub parent_stamp : Option ℕ
  pub has_gaps : Bool
  pub T : ℕ

-- What `last` finds: the capture that was kept.
pub record Parent : Type 0 where
  pub stamp : ℕ
  pub T : ℕ

abbrev pub is_stamp : Option ℕ → ℕ → Bool
is_stamp none s = false
is_stamp (some r) s = r == s

-- `usable_prefix`; a missing `resume_from` is 0
unfoldable pub usable_prefix : Bool → Resumed → Option Parent → ℕ
usable_prefix enabled man none = 0
usable_prefix enabled man (some j) =
    if not enabled || man.resume_from == 0
    then 0
    else if not (is_stamp man.parent_stamp j.stamp) || ltb j.T man.resume_from
    then 0
    else if man.has_gaps
    then 0
    else man.T

module _ {A : Type 0} where
  -- the windows up to `S`, of the parent
  unfoldable pub keep_le : ℕ → List (ℕ × A) → List (ℕ × A)
  keep_le S [] = []
  keep_le S ((b, a) ∷ m) = let others = keep_le S m in if leb b S then (b, a) ∷ others else others

  -- the windows behind `S`, of the new capture
  unfoldable pub keep_gt : ℕ → List (ℕ × A) → List (ℕ × A)
  keep_gt S [] = []
  keep_gt S ((b, a) ∷ m) = let others = keep_gt S m in if leb b S then others else (b, a) ∷ others

  -- both tables: the keys of the second one are not in the first
  abbrev pub merge_windows : ℕ → List (ℕ × A) → List (ℕ × A) → List (ℕ × A)
  merge_windows S par new = keep_le S par ++ keep_gt S new

  -- the pooled rows up to `S`, and the new ones if there are any
  unfoldable pub merge_pooled : ℕ → ℕ → Option (List A) → Option (List A) → Option (List A)
  merge_pooled S ratio none new = new
  merge_pooled S ratio (some par) none = some (take (S / ratio) par)
  merge_pooled S ratio (some par) (some new) = some (take (S / ratio) par ++ new)

module _ {A P : Type 0} where
  abbrev pub merge_exported : ℕ → ℕ → Exported A P → Exported A P → Exported A P
  merge_exported S ratio par new = record {
    pooled = merge_pooled S ratio par.pooled new.pooled;
    buf = new.buf;
    prev = merge_windows S par.prev new.prev;
    prev_end = new.prev_end;
  }

  abbrev pub nothing_exported : Exported A P
  nothing_exported = record { pooled = none; buf = none; prev = []; prev_end = none }

  -- a pool that one of the files does not have
  abbrev pub merge_pool :
      ℕ → ℕ → Option (Exported A P) → Option (Exported A P) → Option (Exported A P)
  merge_pool S ratio none none = none
  merge_pool S ratio (some par) none = some (merge_exported S ratio par nothing_exported)
  merge_pool S ratio none (some new) = some (merge_exported S ratio nothing_exported new)
  merge_pool S ratio (some par) (some new) = some (merge_exported S ratio par new)

module _ {V A P : Type 0} where
  -- the round of `merge_prefix` for one layer with a ratio
  unfoldable pub merge_layer : ℕ → ℕ → LayerFile V A P → LayerFile V A P → LayerFile V A P
  unfolding keep_le keep_gt merge_pooled
  merge_layer S ratio par new = record {
    kvwin = merge_windows S par.kvwin new.kvwin;
    kvwin_end = new.kvwin_end;
    main = merge_pool S ratio par.main new.main;
    idx = merge_pool S 4 par.idx new.idx;
  }
