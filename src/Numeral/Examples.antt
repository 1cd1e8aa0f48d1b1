-- ===== src/Numeral/Examples.antt =====
-- Numbers as text at small inputs.
use mikucos.Base.{◌≡◌, refl, List, ℕ, [], ◌∷◌, ◌^◌, ◌-◌, arith}
use mikucos.Base.Int.{negsuc, signed32}
use mikucos.CString.{isdigit, isspace}
use mikucos.Numeral.{
  strtol, strtoul, itoa, itoa_digits, digit_char, reverse_loop, strto_l, strto_scan, strto_loop,
  strto_result, take_digit, overflows, digit_in, digit_of, read_prefix, skip_x, skip_sign,
  skip_spaces, Prefix,
}
use mikucos.Numeral.Value.{strtol-nearest, nearest_long, as_ulong, sign, prefix, value_of, behind}
use mikucos.Numeral.RoundTrip.{strtol-itoa}

minus_fifteen : itoa b'd' (2 ^ 32 - 15) ≡ b'-' ∷ b'1' ∷ b'5' ∷ []
unfolding itoa itoa_digits digit_char reverse_loop
minus_fifteen = refl

in_hex : itoa b'x' 0xbeef ≡ b'b' ∷ b'e' ∷ b'e' ∷ b'f' ∷ []
unfolding itoa itoa_digits digit_char reverse_loop
in_hex = refl

-- " -0x1fg"
abbrev hex_text : List ℕ
hex_text = b' ' ∷ b'-' ∷ b'0' ∷ b'x' ∷ b'1' ∷ b'f' ∷ b'g' ∷ []

read_hex : strtol hex_text 0 ≡ (negsuc 30, b'g' ∷ [])
unfolding strtol strto_l strto_scan strto_loop strto_result take_digit overflows digit_in digit_of
    read_prefix skip_x skip_sign skip_spaces isdigit isspace
read_hex = refl

abbrev hex_prefix : Prefix
hex_prefix = prefix hex_text 0

strtol-nearest_example :
    (strtol hex_text 0 ≡ (
      nearest_long (sign hex_text 0) (value_of hex_prefix),
      behind hex_prefix.base hex_prefix.digits hex_prefix.fail_char,
    ))
    × (strtoul hex_text 0 ≡ (
      as_ulong (sign hex_text 0) (value_of hex_prefix),
      behind hex_prefix.base hex_prefix.digits hex_prefix.fail_char,
    ))
unfolding read_prefix skip_x skip_sign skip_spaces isspace
strtol-nearest_example = strtol-nearest hex_text 0 (omega arith)

strtol-itoa_example :
    (strtol (itoa b'd' (2 ^ 32 - 15)) 10 ≡ (signed32 (2 ^ 32 - 15), []))
    × (strtoul (itoa b'u' (2 ^ 32 - 15)) 10 ≡ (2 ^ 32 - 15, []))
strtol-itoa_example = strtol-itoa (2 ^ 32 - 15) (omega arith)
