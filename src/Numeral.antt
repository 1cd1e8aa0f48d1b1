-- ===== src/Numeral.antt =====
-- Numbers as text: `strtol` and `strtoul` of libc_strtol.c, and `itoa` of libc.c. A pointer into a
-- string is the rest of the string from there, and reading at its end gives the final 0. An
-- `unsigned long` has 32 bits. A negative base is refused as every base below 2 is.
pub mod Value
pub mod Reverse
pub mod RoundTrip
pub mod Examples
use mikucos.Base.{
  ℕ, zero, suc, ◌+◌, ◌-◌, ◌*◌, ◌/◌, ◌%◌, ◌^◌, Bool, true, false, not, ◌&&◌, ◌||◌, Option, none,
  some, List, [], ◌∷◌, ◌++◌, ◌==◌, ltb, leb, if◌then◌else◌, length, get_or, set, take, drop,
}
use mikucos.Base.Int.{ℤ, pos, negsuc, signed32, ltb_ℤ}
use mikucos.CString.{isdigit, isspace}

abbrev pub ulong_max : ℕ
ulong_max = 2 ^ 32 - 1

abbrev pub long_max : ℕ
long_max = 2 ^ 31 - 1

-- `*pos`
abbrev pub current : List ℕ → ℕ
current s = get_or s 0 0

unfoldable pub skip_spaces : List ℕ → List ℕ
skip_spaces [] = []
skip_spaces (c ∷ s) = let rest = skip_spaces s in if isspace c then rest else c ∷ s

-- Whether the number is negative, and what stands behind the sign.
unfoldable pub skip_sign : List ℕ → Bool × List ℕ
skip_sign s =
    if current s == b'-'
    then (true, drop 1 s)
    else if current s == b'+'
    then (false, drop 1 s)
    else (false, s)

abbrev pub is_x : ℕ → Bool
is_x c = c == b'x' || c == b'X'

-- What the prefix of a number decides: the base, where the digits start, and `fail_char`.
pub record Prefix : Type 0 where
  pub base : ℕ
  pub digits : List ℕ
  pub fail_char : List ℕ

unfoldable pub skip_x : List ℕ → List ℕ
skip_x s = if is_x (current s) then drop 1 s else s

unfoldable pub read_prefix : ℕ → List ℕ → List ℕ → Prefix
read_prefix base s str =
    if base == 16 && current s == b'0'
    then record { base = base; digits = skip_x (drop 1 s); fail_char = drop 1 s }
    else if base == 0
    then (if current s == b'0'
        then record {
          base = if is_x (current (drop 1 s)) then 16 else 8;
          digits = skip_x (drop 1 s);
          fail_char = drop 1 s;
        }
        else record { base = 10; digits = s; fail_char = str })
    else record { base = base; digits = s; fail_char = str }

-- The digit that a character stands for; 40, at which the loop breaks, is `none`.
unfoldable pub digit_of : ℕ → Option ℕ
digit_of c =
    if isdigit c
    then some (c - b'0')
    else if leb b'a' c
    then some (c - b'a' + 10)
    else if leb b'A' c
    then some (c - b'A' + 10)
    else none

-- The same with the test `digit >= base` behind it.
unfoldable pub digit_in : ℕ → ℕ → Option ℕ
digit_in base c = elim (digit_of c) [ none ↦ none | some d ↦ if leb base d then none else some d ]

unfoldable pub overflows : ℕ → ℕ → ℕ → Bool
overflows base number digit =
    let cutoff = ulong_max / base in
    let cutoff_digit = ulong_max - cutoff * base in
    ltb cutoff number || (number == cutoff && ltb cutoff_digit digit)

pub record Scanned : Type 0 where
  pub number : ℕ
  pub negative : Bool
  pub fail_char : List ℕ

-- A digit in front of `s`, with the overflow check.
unfoldable pub take_digit : ℕ → Bool → ℕ → List ℕ → Scanned → Scanned
take_digit base uflag digit s st =
    if overflows base st.number digit
    then record {
      number = ulong_max;
      negative = if uflag then false else st.negative;
      fail_char = s;
    }
    else record st { number = st.number * base + digit; fail_char = s }

-- The loop over the digits.
unfoldable pub strto_loop : ℕ → Bool → List ℕ → Scanned → Scanned
strto_loop base uflag [] st = st
strto_loop base uflag (c ∷ s) st = elim (digit_in base c) [
  | none ↦ st
  | some digit ↦ strto_loop base uflag s (take_digit base uflag digit s st)
]

-- The value returned, as an `unsigned long`.
unfoldable pub strto_result : Bool → ℕ → Bool → ℕ
strto_result uflag number negative =
    if negative
    then if not uflag && ltb (2 ^ 31) number then 2 ^ 31 else (2 ^ 32 - number) % 2 ^ 32
    else if not uflag && ltb long_max number
    then long_max
    else number

-- The digits behind the prefix, unless the base is illegal.
unfoldable pub strto_scan : Bool → Bool → Prefix → Scanned
strto_scan uflag negative p =
    let start : Scanned = record { number = 0; negative = negative; fail_char = p.fail_char } in
    if ltb p.base 2 || ltb 36 p.base then start else strto_loop p.base uflag p.digits start

-- The value and `*endptr`.
unfoldable pub strto_l : List ℕ → ℕ → Bool → ℕ × List ℕ
strto_l str base uflag =
    let (negative, s) = skip_sign (skip_spaces str) in
    let r = strto_scan uflag negative (read_prefix base s str) in
    (strto_result uflag r.number r.negative, r.fail_char)

unfoldable pub strtoul : List ℕ → ℕ → ℕ × List ℕ
strtoul str base = strto_l str base true

unfoldable pub strtol : List ℕ → ℕ → ℤ × List ℕ
strtol str base = let (n, end) = strto_l str base false in (signed32 n, end)

-- The character of a remainder.
unfoldable pub digit_char : ℕ → ℕ
digit_char r = if ltb r 10 then r + b'0' else r + b'a' - 10

-- `do ... while (ud /= divisor)`, with fuel: what is stored at `p`, and on.
unfoldable pub itoa_digits : ℕ → ℕ → ℕ → List ℕ
itoa_digits zero divisor ud = []
itoa_digits (suc fuel) divisor ud =
    let rest = itoa_digits fuel divisor (ud / divisor) in
    digit_char (ud % divisor) ∷ (if ud / divisor == 0 then [] else rest)

-- `while (p1 < p2)`, with fuel.
unfoldable pub reverse_loop : ℕ → List ℕ → ℕ → ℕ → List ℕ
reverse_loop zero buf p1 p2 = buf
reverse_loop (suc fuel) buf p1 p2 =
    let tmp = get_or buf p1 0 in
    let swapped = set (set buf p1 (get_or buf p2 0)) p2 tmp in
    let rest = reverse_loop fuel swapped (p1 + 1) (p2 - 1) in if ltb p1 p2 then rest else buf

-- A number of 32 bits has 32 digits at most.
abbrev pub max_digits : ℕ
max_digits = 32

-- The string in `buf`: the sign, and the digits reversed in place. `d` is the `int` as a pattern of
-- 32 bits.
unfoldable pub itoa : ℕ → ℕ → List ℕ
itoa base d =
    let minus = base == b'd' && leb (2 ^ 31) d in
    let ud = if minus then 2 ^ 32 - d else d in
    let digits = itoa_digits max_digits (if base == b'x' then 16 else 10) ud in
    let shown = reverse_loop (length digits) digits 0 (length digits - 1) in
    if minus then b'-' ∷ shown else shown
