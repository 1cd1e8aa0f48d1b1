-- ===== src/CString/Search.antt =====
-- `strstr` finds the first occurrence.
use mikucos.Base.{
  ℕ, zero, suc, ◌+◌, ◌<◌, ◌≡◌, true, false, Option, none, some, List, [], ◌∷◌, length, drop, arith,
  inl, inr, Bool-cases,
}
use mikucos.Base.Int.{is_zero}
use mikucos.CString.{strlen, strncmp, strstr_loop, strstr}
use mikucos.CString.Compare.{is_prefix, strncmp-is_prefix}

-- What a search from index `k` on says of the string `s` that stands there.
abbrev pub FirstOccurrence : List ℕ → List ℕ → ℕ → Option ℕ → Type 0
FirstOccurrence s needle k none = (j : ℕ) → j < length s → is_prefix needle (drop j s) ≡ false
FirstOccurrence s needle k (some n) =
    (i : ℕ) × (n ≡ k + i)
    × (i < length s)
    × (is_prefix needle (drop i s) ≡ true)
    × ((j : ℕ) → j < i → is_prefix needle (drop j s) ≡ false)

strstr_loop-first :
    (s needle : List ℕ) (k : ℕ) → FirstOccurrence s needle k (strstr_loop s needle k)
unfolding strstr_loop
strstr_loop-first [] needle k = λ j h. absurd (omega arith)
strstr_loop-first (c ∷ s) needle k =
    elim (Bool-cases (is_zero (strncmp (c ∷ s) needle (strlen needle)))) [
      | inl e ↦ rw e (
        0,
        omega arith,
        omega arith,
        rw (strncmp-is_prefix (c ∷ s) needle) at e,
        λ j h. absurd (omega arith),
      )
      | inr e ↦ rw e (
          later (strstr_loop s needle (k + 1)) (rw (strncmp-is_prefix (c ∷ s) needle) at e)
            (strstr_loop-first s needle (k + 1)))
    ]
  where
    before :
        (n : ℕ)
        → is_prefix needle (c ∷ s) ≡ false
        → ((j : ℕ) → j < n → is_prefix needle (drop j s) ≡ false)
        → (j : ℕ) → j < suc n
        → is_prefix needle (drop j (c ∷ s)) ≡ false
    before n e h zero b = e
    before n e h (suc j) b = h j (omega arith)

    later :
        (r : Option ℕ)
        → is_prefix needle (c ∷ s) ≡ false
        → FirstOccurrence s needle (k + 1) r
        → FirstOccurrence (c ∷ s) needle k r
    later none e h = before (length s) e h
    later (some n) e (i, en, b, p, h) = (suc i, omega arith, omega arith, p, before i e h)

-- `strstr` returns the least index, below the length of `haystack`, at which `needle` stands, and null
-- exactly when there is none; so an empty `needle` is found unless `haystack` is empty.
pub strstr-first :
    (haystack needle : List ℕ) → FirstOccurrence haystack needle 0 (strstr haystack needle)
unfolding strstr
strstr-first haystack needle = strstr_loop-first haystack needle 0
