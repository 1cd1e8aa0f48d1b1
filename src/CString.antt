-- ===== src/CString.antt =====
-- The string functions of libc.c and the character tests of ctype.c. A string is the list of its
-- characters, without the final 0, and a pointer into it is an index. The characters are ASCII, so
-- that a signed `char` holds the same value.
pub mod Compare
pub mod Search
pub mod Examples
use mikucos.Base.{
  ℕ, zero, suc, ◌+◌, ◌-◌, ◌*◌, ◌/◌, ◌%◌, Bool, true, false, ◌&&◌, ◌||◌, Option, none, some, List,
  [], ◌∷◌, ◌++◌, ◌==◌, ltb, leb, if◌then◌else◌, length, take, drop,
}
use mikucos.Base.Int.{is_zero, ℤ, pos, negsuc, sub_ℕ}

unfoldable pub isdigit : ℕ → Bool
isdigit c = leb b'0' c && leb c b'9'

pub islower : ℕ → Bool
islower c = leb b'a' c && leb c b'z'

pub isupper : ℕ → Bool
isupper c = leb b'A' c && leb c b'Z'

pub isalpha : ℕ → Bool
unfolding islower isupper
isalpha c = islower c || isupper c

pub isalnum : ℕ → Bool
unfolding isalpha isdigit
isalnum c = isalpha c || isdigit c

unfoldable pub isspace : ℕ → Bool
isspace c = c == b' ' || (c == 10 || c == 9)

unfoldable pub bcd2int : ℕ → ℕ
bcd2int bcd = (bcd / 16 * 10 + bcd % 16) % 256

unfoldable pub strlen : List ℕ → ℕ
strlen [] = 0
strlen (c ∷ s) = suc (strlen s)

-- The difference of the first two characters that differ is that of the second string's character
-- and the first string's.
unfoldable pub strcmp : List ℕ → List ℕ → ℤ
strcmp [] [] = pos 0
strcmp [] (d ∷ t) = negsuc 0
strcmp (c ∷ s) [] = pos 1
strcmp (c ∷ s) (d ∷ t) = let rest = strcmp s t in if c == d then rest else sub_ℕ d c

-- `size--` is evaluated when both strings go on. At 0 it ends the loop, but leaves `size` at its
-- greatest value, so the test `size == 0` behind the loop fails.
unfoldable pub strncmp : List ℕ → List ℕ → ℕ → ℤ
strncmp [] [] size = pos 0
strncmp [] (d ∷ t) size = if size == 0 then pos 0 else negsuc 0
strncmp (c ∷ s) [] size = if size == 0 then pos 0 else pos 1
strncmp (c ∷ s) (d ∷ t) zero = if c == d then pos 0 else pos 1
strncmp (c ∷ s) (d ∷ t) (suc size) =
    let rest = strncmp s t size in if c == d then rest else sub_ℕ d c

-- The loop of `strstr` at `haystack + i`, for the characters that are left.
pub strstr_loop : List ℕ → List ℕ → ℕ → Option ℕ
strstr_loop [] needle i = none
strstr_loop (c ∷ s) needle i =
    let rest = strstr_loop s needle (i + 1) in
    if is_zero (strncmp (c ∷ s) needle (strlen needle)) then some i else rest

unfoldable pub strstr : List ℕ → List ℕ → Option ℕ
unfolding strstr_loop strncmp strlen
strstr haystack needle = strstr_loop haystack needle 0

pub strchr_loop : List ℕ → ℕ → ℕ → Option ℕ
strchr_loop [] c i = none
strchr_loop (d ∷ s) c i = let rest = strchr_loop s c (i + 1) in if d == c then some i else rest

pub strchr : List ℕ → ℕ → Option ℕ
unfolding strchr_loop
strchr haystack c = strchr_loop haystack c 0
