-- ===== src/Memory/Strings.antt =====
-- The strings that the functions read and leave.
use mikucos.Base.{
  ℕ, zero, suc, ◌+◌, ◌≤◌, ◌<◌, ◌≡◌, refl, sym, ap, ◌∙◌, ◌⊎◌, inl, false, ◌==◌, List, [], ◌∷◌, ◌++◌,
  length, arith,
}
use mikucos.Base.Outcome.{ok}
use mikucos.Memory.{Bytes, memcpy, strlen_loop, strlen, strcpy, strcat}
use mikucos.Memory.Copy.{IsClear, memcpy-outside, memcpy-inside}

-- The characters, none of them 0, and then a 0.
abbrev pub IsStringAt : Bytes → ℕ → List ℕ → Type 0
IsStringAt m p [] = m p ≡ 0
IsStringAt m p (c ∷ s) = (m p ≡ c) × ((c == 0) ≡ false) × IsStringAt m (p + 1) s

strlen_loop-length :
    (rounds : ℕ) (m : Bytes) (p i : ℕ) (s : List ℕ)
    → IsStringAt m p s
    → length s < rounds
    → strlen_loop rounds m p i ≡ ok (i + length s)
unfolding strlen_loop
strlen_loop-length zero m p i s h l = absurd (omega arith)
strlen_loop-length (suc rounds) m p i [] h l =
    let here : i + 0 ≡ i = omega arith in rw (strlen_loop, h, here) refl
strlen_loop-length (suc rounds) m p i (c ∷ s) (e, z, h) l =
    let next : i + suc (length s) ≡ i + 1 + length s = omega arith in
    rw (strlen_loop, e, z, next) (strlen_loop-length rounds m (p + 1) (i + 1) s h (omega arith))

strlen-length :
    (rounds : ℕ) (m : Bytes) (p : ℕ) (s : List ℕ)
    → IsStringAt m p s
    → length s < rounds
    → strlen rounds m p ≡ ok (length s)
unfolding strlen
strlen-length rounds m p s h l =
    let here : 0 + length s ≡ length s = omega arith in
    strlen_loop-length rounds m p 0 s h l ∙ ap ok here

first-same : (m m' : Bytes) (p q : ℕ) → m' (q + 0) ≡ m (p + 0) → m' q ≡ m p
first-same m m' p q e =
    let there : q + 0 ≡ q = omega arith in
    let here : p + 0 ≡ p = omega arith in sym (ap m' there) ∙ e ∙ ap m here

shift-same :
    (m m' : Bytes) (p q k : ℕ) → m' (q + suc k) ≡ m (p + suc k) → m' (q + 1 + k) ≡ m (p + 1 + k)
shift-same m m' p q k e =
    let there : q + 1 + k ≡ q + suc k = omega arith in
    let here : p + suc k ≡ p + 1 + k = omega arith in ap m' there ∙ e ∙ ap m here

-- A string whose bytes are those of another, with a string behind it.
joined :
    (m m' : Bytes) (p q : ℕ) (s t : List ℕ)
    → IsStringAt m p s
    → ((k : ℕ) → k < length s → m' (q + k) ≡ m (p + k))
    → IsStringAt m' (q + length s) t
    → IsStringAt m' q (s ++ t)
joined m m' p q [] t h e r = let here : q + 0 ≡ q = omega arith in rw⁻¹ here r
joined m m' p q (c ∷ s) t h e r =
    let tail : q + 1 + length s ≡ q + suc (length s) = omega arith in
    (
      first-same m m' p q (e 0 (omega arith)) ∙ h.0,
      h.1,
      joined m m' (p + 1) (q + 1) s t h.2 (λ k l. shift-same m m' p q k (e (suc k) (omega arith)))
          (rw tail r),
    )

-- A string whose bytes are copied, with the final 0.
copied :
    (m m' : Bytes) (p q : ℕ) (s : List ℕ)
    → IsStringAt m p s
    → ((k : ℕ) → k ≤ length s → m' (q + k) ≡ m (p + k))
    → IsStringAt m' q s
copied m m' p q [] h e = first-same m m' p q (e 0 (omega arith)) ∙ h
copied m m' p q (c ∷ s) h e = (
  first-same m m' p q (e 0 (omega arith)) ∙ h.0,
  h.1,
  copied m m' (p + 1) (q + 1) s h.2 (λ k l. shift-same m m' p q k (e (suc k) (omega arith))),
)

-- A string is copied: its bytes stand at the destination, and the others stay.
strcpy-IsStringAt :
    (rounds dest str : ℕ) (m : Bytes) (s : List ℕ)
    → IsStringAt m str s
    → length s < rounds
    → IsClear (length s + 1) dest str
    → (m' : Bytes) × (strcpy rounds dest str m ≡ ok m')
      × IsStringAt m' dest s
      × ((x : ℕ) → (x < dest) ⊎ (dest + (length s + 1) ≤ x) → m' x ≡ m x)
unfolding strcpy
strcpy-IsStringAt rounds dest str m s h l c =
    let n = length s + 1 in
    (
      memcpy n dest str m,
      rw (strlen-length rounds m str s h l) refl,
      copied m (memcpy n dest str m) str dest s h
          (λ k i. memcpy-inside n dest str k m c (omega arith)),
      λ x o. memcpy-outside n dest str x m o,
    )

-- `strcat` ends, and leaves at `dest` the first string followed by the second; the bytes outside what
-- it writes stay. Both strings are shorter than the rounds counted, and the block that is written,
-- behind the first string, begins at the second or in front of it, or behind its final 0.
pub strcat-append :
    (rounds dest src : ℕ) (m : Bytes) (a b : List ℕ)
    → IsStringAt m dest a
    → IsStringAt m src b
    → length a < rounds
    → length b < rounds
    → IsClear (length b + 1) (dest + length a) src
    → (m' : Bytes) × (strcat rounds dest src m ≡ ok m')
      × IsStringAt m' dest (a ++ b)
      × ((x : ℕ) → (x < dest + length a) ⊎ (dest + length a + (length b + 1) ≤ x) → m' x ≡ m x)
unfolding strcat
strcat-append rounds dest src m a b h k l l' c =
    let (m', r, new, same) = strcpy-IsStringAt rounds (dest + length a) src m b k l' c in
    (
      m',
      rw (strlen-length rounds m dest a h l) r,
      joined m m' dest dest a b h (λ i j. same (dest + i) (inl (omega arith))) new,
      same,
    )
