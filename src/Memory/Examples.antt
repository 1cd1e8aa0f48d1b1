-- ===== src/Memory/Examples.antt =====
-- `ab` at 10, in a field of 8 bytes, and `c` at 30.
use mikucos.Base.{
  ℕ, ◌+◌, ◌≤◌, ◌<◌, ◌≡◌, refl, ◌⊎◌, inl, List, [], ◌∷◌, ◌++◌, ◌==◌, if◌then◌else◌, arith,
}
use mikucos.Base.Outcome.{ok}
use mikucos.Memory.{Bytes, strcat, memset}
use mikucos.Memory.Strings.{IsStringAt, strcat-append}

abbrev memory : Bytes
memory x = if x == 10 then b'a' else if x == 11 then b'b' else if x == 30 then b'c' else 0

abbrev ab : List ℕ
ab = b'a' ∷ b'b' ∷ []

abbrev only_c : List ℕ
only_c = b'c' ∷ []

-- The address behind the bytes is returned.
after_memset : (memset 3 10 0 memory).1 ≡ 13
unfolding memset
after_memset = refl

strcat-append_example :
    (m : Bytes) × (strcat 5 10 30 memory ≡ ok m)
    × IsStringAt m 10 (ab ++ only_c)
    × ((x : ℕ) → (x < 10 + 2) ⊎ (10 + 2 + (1 + 1) ≤ x) → m x ≡ memory x)
strcat-append_example =
    strcat-append 5 10 30 memory ab only_c (refl, refl, (refl, refl, refl)) (refl, refl, refl)
      (omega arith) (omega arith) (inl (omega arith))
