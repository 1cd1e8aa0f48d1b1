-- ===== src/Printf.antt =====
-- The formatted output of libc.c: `dprintf` and `dputs`. The format is the list of its characters,
-- and the result the characters that are handed to `dputchar`, in their order. A directive whose
-- argument is missing or of another kind, and a format that ends in `%`, have no result: there the
-- code reads memory that is not its own.
pub mod Directives
pub mod Examples
use mikucos.Base.{
  ℕ, ◌+◌, ◌-◌, ◌*◌, ◌%◌, ◌^◌, Bool, true, false, not, ◌&&◌, ◌||◌, Option, none, some, List, [], ◌∷◌,
  ◌++◌, ◌==◌, if◌then◌else◌, length, replicate,
}
use mikucos.CString.{isdigit}
use mikucos.Numeral.{itoa}

-- The arguments behind the format: an `int`, as a pattern of 32 bits, or a string, `none` for a null
-- pointer.
pub data Arg : Type 0 where
  int : ℕ → Arg
  str : Option (List ℕ) → Arg

-- The local variables `zero_prefix`, `pad` and `escaped`. `pad` is the 32 bits of the `int`, which
-- `strlen(p) < pad` and the loop `while(len--)` read without a sign.
pub record Flags : Type 0 where
  pub zero_prefix : Bool
  pub pad : ℕ
  pub escaped : Bool

abbrev pub no_flags : Flags
no_flags = record { zero_prefix = false; pad = 0; escaped = false }

-- What one conversion character prints, the arguments left, and the variables behind it.
pub record Printed : Type 0 where
  pub text : List ℕ
  pub left : List Arg
  pub flags : Flags

-- From the label `string` on.
abbrev pub print_string : List ℕ → List Arg → Option Printed
print_string p args = some (record { text = p; left = args; flags = no_flags })

unfoldable pub padding : Flags → List ℕ → List ℕ
padding fl p = replicate (fl.pad - length p) (if fl.zero_prefix then b'0' else b' ')

unfoldable pub print_number : ℕ → Flags → List ℕ → List Arg → Option Printed
print_number c fl front [] = none
print_number c fl front (str s ∷ args) = none
print_number c fl front (int n ∷ args) =
    print_string (front ++ (padding fl (itoa c n) ++ itoa c n)) args

-- "(null)"
abbrev pub null_text : List ℕ
null_text = b'(' ∷ b'n' ∷ b'u' ∷ b'l' ∷ b'l' ∷ b')' ∷ []

unfoldable pub print_text : List Arg → Option Printed
print_text [] = none
print_text (int n ∷ args) = none
print_text (str none ∷ args) = print_string null_text args
print_text (str (some s) ∷ args) = print_string s args

-- The default case, which `%c` comes to: the padding is kept for the next directive.
unfoldable pub print_char : Flags → List Arg → Option Printed
print_char fl [] = none
print_char fl (str s ∷ args) = none
print_char fl (int n ∷ args) =
    some (record { text = n ∷ []; left = args; flags = record fl { escaped = false } })

-- The `switch` over the character behind `%` and its digits.
unfoldable pub directive : ℕ → Flags → List Arg → Option Printed
directive c fl args =
    if c == b'0' && not (fl.zero_prefix || not (fl.pad == 0))
    then some (record {
      text = [];
      left = args;
      flags = record fl { zero_prefix = true; escaped = true };
    })
    else if isdigit c
    then some (record {
      text = [];
      left = args;
      flags = record fl { pad = (fl.pad * 10 + (c - b'0')) % 2 ^ 32; escaped = true };
    })
    else if c == b'p'
    then print_number b'x' fl (b'0' ∷ b'x' ∷ []) args
    else if c == b'd' || (c == b'u' || c == b'x')
    then print_number c fl [] args
    else if c == b's'
    then print_text args
    else print_char fl args

abbrev pub emit : List ℕ → Option (List ℕ) → Option (List ℕ)
emit text none = none
emit text (some out) = some (text ++ out)

-- The loop over the format. `percent` says that the character before was the `%` of a directive.
unfoldable pub dprintf_loop : List ℕ → Bool → Flags → List Arg → Option (List ℕ)
dprintf_loop [] percent fl args = if percent then none else some []
dprintf_loop (c ∷ format) percent fl args = elim (percent || fl.escaped && not (c == b'%')) [
  | true ↦ elim (directive c (record fl { escaped = false }) args) [
    | none ↦ none
    | some r ↦ emit r.text (dprintf_loop format false r.flags r.left)
  ]
  | false ↦ elim (c == b'%') [
    | true ↦ dprintf_loop format true fl args
    | false ↦ emit (c ∷ []) (dprintf_loop format false no_flags args)
  ]
]

unfoldable pub dprintf : List ℕ → List Arg → Option (List ℕ)
dprintf format args = dprintf_loop format false no_flags args

-- The characters of `dputs`, and its result.
pub dputs : List ℕ → List ℕ × ℕ
dputs s = (s ++ b'\n' ∷ [], length s)
