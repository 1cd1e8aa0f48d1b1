-- ===== src/Printf/Examples.antt =====
-- Formats as hexdump and the test programs use them.
use mikucos.Base.{◌≡◌, refl, true, none, some, [], ◌∷◌, inr, arith}
use mikucos.CString.{isdigit}
use mikucos.Numeral.{itoa, itoa_digits, digit_char, reverse_loop}
use mikucos.Printf.{
  int, str, dprintf, emit, dprintf_loop, directive, print_number, print_text, padding,
}
use mikucos.Printf.Directives.{padded, dprintf-number}

-- "=%02x "
dprintf-number_example :
    dprintf (b'=' ∷ b'%' ∷ b'0' ∷ b'2' ∷ b'x' ∷ b' ' ∷ []) (int 10 ∷ [])
    ≡ emit (b'=' ∷ padded true 2 (itoa b'x' 10)) (dprintf (b' ' ∷ []) [])
unfolding isdigit
dprintf-number_example =
    dprintf-number (b'=' ∷ []) true (b'2' ∷ []) b'x' (b' ' ∷ []) 10 [] (omega arith, tt)
      (omega arith, refl, tt) (omega arith) (inr (inr refl))

hex_byte : dprintf (b'%' ∷ b'0' ∷ b'2' ∷ b'x' ∷ []) (int 10 ∷ []) ≡ some (b'0' ∷ b'a' ∷ [])
unfolding dprintf dprintf_loop directive print_number padding isdigit itoa itoa_digits digit_char
    reverse_loop
hex_byte = refl

null_string :
    dprintf (b'%' ∷ b's' ∷ []) (str none ∷ []) ≡ some (b'(' ∷ b'n' ∷ b'u' ∷ b'l' ∷ b'l' ∷ b')' ∷ [])
unfolding dprintf dprintf_loop directive print_text isdigit
null_string = refl

missing_argument : dprintf (b'%' ∷ b'd' ∷ []) [] ≡ none
unfolding dprintf dprintf_loop directive print_number isdigit
missing_argument = refl
