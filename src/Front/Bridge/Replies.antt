-- ===== src/Front/Bridge/Replies.antt =====
-- Which path the kv mode takes.
use pd_bridge.Prelude.{
  ℕ, ◌-◌, ◌≤◌, ◌≡◌, refl, ◌∙◌, sym, ◌↔◌, Bool, true, false, not, ◌&&◌, ltb, leb, ltb-false→le,
  le→ltb-false, if◌then◌else◌,
}
use pd_bridge.Front.Bridge.{
  kv, short, warm, is_pushed, Config, Way, kv_path, kv_stream_path, pipelined_path, way_of, bridge,
}

-- the tests of the kv mode
abbrev kv_way : (is_short ignored enough pushed : Bool) → Way
kv_way is_short ignored enough pushed =
    if is_short
    then short
    else if not ignored && enough
    then if pushed then kv_stream_path else kv_path
    else if not ignored
    then warm
    else pipelined_path

bridge_kv :
    (c : Config) (tokens cached : ℕ)
    → c.mode ≡ kv
    → bridge c tokens cached
      ≡ kv_way
          (ltb tokens c.min_tokens)
          c.ignore_cached
          (leb c.min_tail (tokens - cached))
          (is_pushed c.transport)
unfolding bridge way_of
bridge_kv c tokens cached h = rw h refl

kv_way_cases :
    (is_short ignored enough pushed : Bool)
    → kv_way is_short ignored enough pushed ≡ pipelined_path
    → (is_short ≡ false) × (ignored ≡ true)
kv_way_cases true i e p h = absurd (cc h)
kv_way_cases false true e p h = (refl, refl)
kv_way_cases false false true true h = absurd (cc h)
kv_way_cases false false true false h = absurd (cc h)
kv_way_cases false false false p h = absurd (cc h)

-- In kv mode, the path that rebuilds from hidden states is taken just where the prompt is not short and the cached prefix is
-- to be ignored.
pub bridge-pipelined_iff :
    (c : Config) (tokens cached : ℕ)
    → c.mode ≡ kv
    → (bridge c tokens cached ≡ pipelined_path)
      ↔ ((c.min_tokens ≤ tokens) × (c.ignore_cached ≡ true))
bridge-pipelined_iff c tokens cached h = (
  λ e.
      let (long, ignored) =
        kv_way_cases (ltb tokens c.min_tokens) c.ignore_cached (leb c.min_tail (tokens - cached))
          (is_pushed c.transport) (sym (bridge_kv c tokens cached h) ∙ e) in
      (ltb-false→le tokens c.min_tokens long, ignored),
  λ (long, ignored).
      bridge_kv c tokens cached h ∙ rw (le→ltb-false tokens c.min_tokens long) (rw ignored refl),
)
