-- ===== src/CString/Examples.antt =====
-- libc.c at short strings.
use mikucos.Base.{ℕ, ◌≡◌, refl, some, List, [], ◌∷◌}
use mikucos.Base.Int.{pos}
use mikucos.CString.{strcmp, strstr, bcd2int}
use mikucos.CString.Search.{FirstOccurrence, strstr-first}

abbrev a_slash_b : List ℕ
a_slash_b = b'a' ∷ b'/' ∷ b'b' ∷ []

slash_found : strstr a_slash_b (b'/' ∷ []) ≡ some 1
unfolding strstr
slash_found = refl

greater_char_first : strcmp (b'a' ∷ []) (b'b' ∷ []) ≡ pos 1
unfolding strcmp
greater_char_first = refl

bcd_59 : bcd2int 0x59 ≡ 59
unfolding bcd2int
bcd_59 = refl

strstr-first_example : FirstOccurrence a_slash_b (b'/' ∷ []) 0 (strstr a_slash_b (b'/' ∷ []))
strstr-first_example = strstr-first a_slash_b (b'/' ∷ [])
