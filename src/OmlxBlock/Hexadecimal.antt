-- ===== src/OmlxBlock/Hexadecimal.antt =====
-- A hash written with `bytes.hex` and read with `bytes.fromhex`.
use pd_bridge.Prelude.{
  ℕ, ◌+◌, ◌*◌, ◌/◌, ◌%◌, ◌<◌, ◌≤◌, ◌≡◌, refl, ap, ◌∙◌, some, List, [], ◌∷◌, arith,
}
use pd_bridge.OmlxBlock.Text.{hex_digit, hex_byte, hex, unhex_digit, unhex_cons, from_hex}

abbrev pub AreBytes : List ℕ → Type 0
AreBytes [] = 0 ≤ 0
AreBytes (b ∷ bs) = (b < 256) × AreBytes bs

unhex_digit-hex_digit : (n : ℕ) → n < 16 → unhex_digit (hex_digit n) ≡ some n
unfolding unhex_digit hex_digit
unhex_digit-hex_digit n h = ground arith

-- Reading what a list of bytes is written as gives the bytes.
pub from_hex-hex : (bs : List ℕ) → AreBytes bs → from_hex (hex bs) ≡ some bs
unfolding from_hex hex hex_byte
from_hex-hex [] h = refl
from_hex-hex (b ∷ bs) (lt, h) =
    let high = unhex_digit-hex_digit (b / 16) (omega (arith, lt)) in
    let low = unhex_digit-hex_digit (b % 16) (omega arith) in
    ap (λ x. unhex_cons x (unhex_digit (hex_digit (b % 16))) (from_hex (hex bs))) high
    ∙ ap (λ y. unhex_cons (some (b / 16)) y (from_hex (hex bs))) low
    ∙ ap (unhex_cons (some (b / 16)) (some (b % 16))) (from_hex-hex bs h)
    ∙ ap (λ n. some (n ∷ bs)) (let e : 16 * (b / 16) + b % 16 ≡ b = omega arith in e)
