-- ===== src/CString/Compare.antt =====
-- `strcmp` as the order of the string-keyed trees, and what `strncmp` decides.
use mikucos.Base.{
  ℕ, ◌≡◌, ◌≢◌, ◌↔◌, refl, Bool, true, false, List, [], ◌∷◌, ◌++◌, ◌==◌, ◌&&◌, if◌then◌else◌, arith,
}
use mikucos.Base.Int.{is_zero, pos, ltb_ℤ}
use mikucos.Avl.Order.{IsOrder}
use mikucos.CString.{strlen, strcmp, strncmp}

strcmp_flip : (s t : List ℕ) → ltb_ℤ (strcmp s t) (pos 0) ≡ ltb_ℤ (pos 0) (strcmp t s)
unfolding strcmp
strcmp_flip [] [] = refl
strcmp_flip [] (d ∷ t) = refl
strcmp_flip (c ∷ s) [] = refl
strcmp_flip (c ∷ s) (d ∷ t) = ground (arith, strcmp_flip s t)

strcmp-less_of_not_less :
    (s t u : List ℕ)
    → ltb_ℤ (strcmp s t) (pos 0) ≡ true
    → ltb_ℤ (strcmp u t) (pos 0) ≡ false
    → ltb_ℤ (strcmp s u) (pos 0) ≡ true
unfolding strcmp
strcmp-less_of_not_less [] [] u h k = cc
strcmp-less_of_not_less [] (d ∷ t) [] h k = cc
strcmp-less_of_not_less [] (d ∷ t) (e ∷ u) h k = refl
strcmp-less_of_not_less (c ∷ s) [] u h k = cc
strcmp-less_of_not_less (c ∷ s) (d ∷ t) [] h k = cc
strcmp-less_of_not_less (c ∷ s) (d ∷ t) (e ∷ u) h k = ground (arith, strcmp-less_of_not_less s t u)

pub eq-of_strcmp : (s t : List ℕ) → strcmp s t ≡ pos 0 → s ≡ t
unfolding strcmp
eq-of_strcmp [] [] h = refl
eq-of_strcmp [] (d ∷ t) h = cc
eq-of_strcmp (c ∷ s) [] h = ground arith
eq-of_strcmp (c ∷ s) (d ∷ t) h = ground (arith, eq-of_strcmp s t)

strcmp_self : (s : List ℕ) → strcmp s s ≡ pos 0
unfolding strcmp
strcmp_self [] = refl
strcmp_self (c ∷ s) = ground (arith, strcmp_self s)

-- `strcmp` is 0 on equal strings only, and orders the strings as `_avl_add` and `avl_find` need it
-- (by the greater character first).
pub strcmp-IsOrder : IsOrder strcmp × ((s t : List ℕ) → (strcmp s t ≡ pos 0) ↔ (s ≡ t))
strcmp-IsOrder = (
  record { flip = strcmp_flip; less_of_not_less = strcmp-less_of_not_less },
  λ s t. (eq-of_strcmp s t, λ e. rw e (strcmp_self t)),
)

-- Equality of strings, character by character.
unfoldable pub same_name : List ℕ → List ℕ → Bool
same_name [] [] = true
same_name [] (d ∷ t) = false
same_name (c ∷ s) [] = false
same_name (c ∷ s) (d ∷ t) = (c == d) && same_name s t

pub strcmp-same_name : (s t : List ℕ) → is_zero (strcmp s t) ≡ same_name s t
unfolding strcmp same_name
strcmp-same_name [] [] = refl
strcmp-same_name [] (d ∷ t) = refl
strcmp-same_name (c ∷ s) [] = refl
strcmp-same_name (c ∷ s) (d ∷ t) = ground (arith, strcmp-same_name s t)

-- One string begins with the other.
pub is_prefix : List ℕ → List ℕ → Bool
is_prefix [] s = true
is_prefix (c ∷ p) [] = false
is_prefix (c ∷ p) (d ∷ s) = if d == c then is_prefix p s else false

-- With the length of its second argument for its size, `strncmp` is 0 exactly when the first argument
-- begins with the second.
pub strncmp-is_prefix : (s t : List ℕ) → is_zero (strncmp s t (strlen t)) ≡ is_prefix t s
unfolding strncmp strlen is_prefix
strncmp-is_prefix [] [] = refl
strncmp-is_prefix [] (d ∷ t) = ground arith
strncmp-is_prefix (c ∷ s) [] = refl
strncmp-is_prefix (c ∷ s) (d ∷ t) = ground (arith, strncmp-is_prefix s t)

-- Two strings that agree in their first characters and differ in the next: when the size is the
-- number of those that agree, `strncmp` has compared that many equal characters and still returns 1.
pub strncmp_overrun :
    (p s t : List ℕ) (c d : ℕ) → c ≢ d → strncmp (p ++ (c ∷ s)) (p ++ (d ∷ t)) (strlen p) ≡ pos 1
unfolding strncmp strlen
strncmp_overrun [] s t c d h = ground arith
strncmp_overrun (x ∷ p) s t c d h = ground (arith, strncmp_overrun p s t c d h)
