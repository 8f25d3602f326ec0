-- ===== src/Core/CredentialStorage/Hexadecimal.antt =====
-- core/credential_storage.rs: the hexadecimal text of to_hex and from_hex.
use topdesk_mcp_rs.Core.CredentialStorage.{
  Bytes, hex_digit, to_hex, digit_value, parse_byte, from_hex, split_colon,
}
use topdesk_mcp_rs.Shared.{
  ℕ, ◌/◌, ◌%◌, ◌<◌, Bool, true, false, some, [], ◌∷◌, ◌++◌, ok, all, ltb, eqb, ◌≡◌, refl, ap, arith,
}

abbrev pub is_byte : ℕ → Bool
is_byte b = ltb b 256

digit_value-hex_digit : (n : ℕ) → n < 16 → digit_value (hex_digit n) ≡ some n
unfolding digit_value hex_digit
digit_value-hex_digit n h = ground arith

not_plus : (n : ℕ) → n < 16 → eqb (hex_digit n) 43 ≡ false
unfolding hex_digit
not_plus n h = ground arith

not_colon : (n : ℕ) → n < 16 → eqb (hex_digit n) 58 ≡ false
unfolding hex_digit
not_colon n h = ground arith

parse_byte-hex : (b : ℕ) → b < 256 → parse_byte (hex_digit (b / 16)) (hex_digit (b % 16)) ≡ some b
unfolding parse_byte
parse_byte-hex b h =
    let high = digit_value-hex_digit (b / 16) (omega arith) in
    let low = digit_value-hex_digit (b % 16) (omega arith) in
    rw (low, parse_byte, high, not_plus (b / 16) (omega arith)) (ap some (omega arith))

-- For every list of bytes: reading its hexadecimal text gives the list back.
pub from_hex-to_hex :
    (bytes : Bytes) → all is_byte bytes ≡ true → from_hex (to_hex bytes) ≡ ok bytes
unfolding from_hex to_hex
from_hex-to_hex [] h = refl
from_hex-to_hex (b ∷ bytes) h = ground (arith, parse_byte-hex b, from_hex-to_hex bytes)

-- The text before the colon is the nonce.
pub split_colon-to_hex :
    (nonce rest : Bytes)
    → all is_byte nonce ≡ true
    → split_colon (to_hex nonce ++ (58 ∷ rest)) ≡ some (to_hex nonce, rest)
unfolding split_colon to_hex
split_colon-to_hex [] rest h = ground arith
split_colon-to_hex (b ∷ nonce) rest h =
    ground (arith, not_colon (b / 16), not_colon (b % 16), split_colon-to_hex nonce rest)
