-- ===== src/OmlxBlock/Text.antt =====
-- What spark/pd_omlx_block.py uses of Python's `str`, `json.dumps` and `struct.pack`. A text is the
-- list of its code points, a byte string the list of its bytes.
use Prim.Native.Char.{code}
use Prim.Native.String.{String}
use pd_bridge.Prelude.{
  ℕ, zero, suc, ◌+◌, ◌-◌, ◌/◌, ◌%◌, ◌*◌, Option, none, some, ◌&&◌, List, [], ◌∷◌, ◌++◌, ltb, leb,
  ◌==◌, if◌then◌else◌,
}

abbrev pub codes : String → List ℕ
codes String.[] = []
codes (String.◌∷◌ c s) = code c ∷ codes s

-- the decimal digits of `n`, in front of `rest`; `n` rounds are more than enough
unfoldable pub digits : ℕ → ℕ → List ℕ → List ℕ
digits zero n rest = rest
digits (suc fuel) n rest =
    let shorter = digits fuel (n / 10) ((48 + n % 10) ∷ rest) in
    if ltb n 10 then (48 + n) ∷ rest else shorter

-- str(n)
unfoldable pub decimal : ℕ → List ℕ
unfolding digits
decimal n = digits (suc n) n []

-- sep.join(parts)
unfoldable pub join : List ℕ → List (List ℕ) → List ℕ
join sep [] = []
join sep (x ∷ []) = x
join sep (x ∷ y ∷ xs) = x ++ (sep ++ join sep (y ∷ xs))

-- A byte as two hexadecimal digits.
unfoldable pub hex_digit : ℕ → ℕ
hex_digit n = if ltb n 10 then 48 + n else 87 + n

unfoldable pub hex_byte : ℕ → List ℕ
unfolding hex_digit
hex_byte b = hex_digit (b / 16) ∷ hex_digit (b % 16) ∷ []

-- bytes.hex()
unfoldable pub hex : List ℕ → List ℕ
unfolding hex_byte
hex [] = []
hex (b ∷ bs) = hex_byte b ++ hex bs

-- the value of a hexadecimal digit
unfoldable pub unhex_digit : ℕ → Option ℕ
unhex_digit c =
    if leb b'0' c && leb c b'9'
    then some (c - 48)
    else if leb b'a' c && leb c b'f'
    then some (c - 87)
    else if leb b'A' c && leb c b'F'
    then some (c - 55)
    else none

abbrev pub unhex_cons : Option ℕ → Option ℕ → Option (List ℕ) → Option (List ℕ)
unhex_cons (some a) (some b) (some bs) = some ((16 * a + b) ∷ bs)
unhex_cons _ _ _ = none

-- bytes.fromhex of a text without white space; `none` where it raises
unfoldable pub from_hex : List ℕ → Option (List ℕ)
unfolding unhex_digit
from_hex [] = some []
from_hex (c ∷ []) = none
from_hex (c ∷ d ∷ cs) = unhex_cons (unhex_digit c) (unhex_digit d) (from_hex cs)

-- str.encode("utf-8") of one code point
unfoldable pub utf8_char : ℕ → List ℕ
utf8_char c =
    if ltb c 128
    then c ∷ []
    else if ltb c 2048
    then (192 + c / 64) ∷ (128 + c % 64) ∷ []
    else if ltb c 65536
    then (224 + c / 4096) ∷ (128 + c / 64 % 64) ∷ (128 + c % 64) ∷ []
    else (240 + c / 262144) ∷ (128 + c / 4096 % 64) ∷ (128 + c / 64 % 64) ∷ (128 + c % 64) ∷ []

unfoldable pub utf8 : List ℕ → List ℕ
unfolding utf8_char
utf8 [] = []
utf8 (c ∷ cs) = utf8_char c ++ utf8 cs

-- `\uXXXX`
unfoldable pub json_unicode : ℕ → List ℕ
unfolding hex_byte
json_unicode u = b'\\' ∷ b'u' ∷ (hex_byte (u / 256) ++ hex_byte (u % 256))

-- One character of a JSON string as `json.dumps` writes it with `ensure_ascii`, its default.
unfoldable pub json_char : ℕ → List ℕ
unfolding json_unicode
json_char c =
    if c == 34
    then b'\\' ∷ 34 ∷ []
    else if c == b'\\'
    then b'\\' ∷ b'\\' ∷ []
    else if c == 10
    then b'\\' ∷ b'n' ∷ []
    else if c == 13
    then b'\\' ∷ b'r' ∷ []
    else if c == 9
    then b'\\' ∷ b't' ∷ []
    else if c == 8
    then b'\\' ∷ b'b' ∷ []
    else if c == 12
    then b'\\' ∷ b'f' ∷ []
    else if leb 32 c && ltb c 127
    then c ∷ []
    else if ltb c 65536
    then json_unicode c
    else json_unicode (55296 + (c - 65536) / 1024) ++ json_unicode (56320 + (c - 65536) % 1024)

unfoldable pub json_chars : List ℕ → List ℕ
unfolding json_char
json_chars [] = []
json_chars (c ∷ cs) = json_char c ++ json_chars cs

unfoldable pub json_string : List ℕ → List ℕ
unfolding json_chars
json_string cs = 34 ∷ (json_chars cs ++ 34 ∷ [])

-- A JSON array and a JSON object of parts that are already written, with the given separators.
unfoldable pub json_array : List ℕ → List (List ℕ) → List ℕ
unfolding join
json_array sep xs = b'[' ∷ (join sep xs ++ b']' ∷ [])
