-- ===== src/Connector/Tags.antt =====
-- `_TAG_RE`, `_MODEL_RE` and `_tag_of` of spark/pd_kv_connector.py. A text is the list of its code
-- points.
pub mod Words
use pd_bridge.Prelude.{
  ℕ, zero, suc, Bool, true, false, ◌&&◌, ◌||◌, Option, none, some, List, [], ◌∷◌, leb, ◌==◌,
  if◌then◌else◌,
}

-- The values of a request's parameters that the connector tells apart; `other` is any value besides that
-- Python takes for true.
pub data PyValue : Type 0 where
  none_value : PyValue
  text : List ℕ → PyValue
  number : ℕ → PyValue
  other : PyValue

-- [A-Za-z0-9_-]
unfoldable pub is_tag_char : ℕ → Bool
is_tag_char c =
    (leb b'A' c && leb c b'Z')
    || ((leb b'a' c && leb c b'z') || ((leb b'0' c && leb c b'9') || (c == b'_' || c == b'-')))

-- [A-Za-z0-9._-]
unfoldable pub is_model_char : ℕ → Bool
unfolding is_tag_char
is_model_char c = c == b'.' || is_tag_char c

-- `$` of Python's `re`: the end, or the place before a line feed that ends the text
unfoldable pub at_end : List ℕ → Bool
at_end [] = true
at_end (c ∷ []) = c == 10
at_end (c ∷ d ∷ cs) = false

-- `[class]{0,n}$`, greedily. The classes hold no line feed, so to give a character back never helps.
unfoldable pub match_most : (ℕ → Bool) → ℕ → List ℕ → Bool
unfolding at_end
match_most cls n [] = true
match_most cls zero (c ∷ cs) = at_end (c ∷ cs)
match_most cls (suc n) (c ∷ cs) =
    let rest = match_most cls n cs in if cls c then rest else at_end (c ∷ cs)

-- re.match(r"^[class]{1,n+1}$", s)
unfoldable pub matches : (ℕ → Bool) → ℕ → List ℕ → Bool
unfolding match_most
matches cls n [] = false
matches cls n (c ∷ cs) = cls c && match_most cls n cs

unfoldable pub is_tag : List ℕ → Bool
unfolding matches is_tag_char
is_tag = matches is_tag_char 63

unfoldable pub is_model : List ℕ → Bool
unfolding matches is_model_char
is_model = matches is_model_char 127

-- a missing key and the value None are one here: `params.get`
unfoldable pub tag_of : PyValue → Option (List ℕ)
unfolding is_tag
tag_of (text s) = if is_tag s then some s else none
tag_of (none_value) = none
tag_of (number n) = none
tag_of other = none
