-- ===== src/Hook/Windows/Bounds.antt =====
-- What the hook keeps of a layer is bounded, whatever the chunks and their starts.
use pd_bridge.Prelude.{
  ℕ, ◌-◌, ◌≤◌, Option, none, some, List, [], ◌∷◌, ◌++◌, leb, length, last_rows, length-drop, arith,
  Bool-cases, inl, inr,
}
use pd_bridge.Hook.Windows.{KvState, kept, new_tail, feed_kv}

module _ {V : Type 0} (win : ℕ) where
  last_rows-bounded : (xs : List V) → length (last_rows win xs) ≤ win
  last_rows-bounded xs = omega (arith, length-drop (length xs - win) xs)

  new_tail-bounded : (tail : Option (List V)) (kv : List V) → length (new_tail win tail kv) ≤ win
  unfolding new_tail
  new_tail-bounded none kv = last_rows-bounded kv
  new_tail-bounded (some rows) kv = elim (Bool-cases (leb win (length kv))) [
    | inl long ↦ rw long (last_rows-bounded kv)
    | inr short ↦ rw short (last_rows-bounded (rows ++ kv))
  ]

  abbrev pub feeds : ℕ → List (List V × ℕ) → KvState V → KvState V
  feeds block [] s = s
  feeds block ((kv, start) ∷ chunks) s = feeds block chunks (feed_kv block win kv start s)

  -- Whatever chunks are fed, in order or not: a layer that keeps at most `win` rows keeps at most so many, with them.
  pub feed_kv-bounded :
      (block : ℕ) (chunks : List (List V × ℕ)) (s : KvState V)
      → length (kept s.tail) ≤ win
      → length (kept (feeds block chunks s).tail) ≤ win
  unfolding feed_kv
  feed_kv-bounded block [] s h = h
  feed_kv-bounded block ((kv, start) ∷ chunks) s h =
      feed_kv-bounded block chunks (feed_kv block win kv start s) (new_tail-bounded s.tail kv)
