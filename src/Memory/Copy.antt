-- ===== src/Memory/Copy.antt =====
-- What `memcpy` leaves.
use mikucos.Base.{
  ℕ, zero, suc, ◌+◌, ◌≤◌, ◌<◌, ◌≡◌, refl, ◌∙◌, ◌⊎◌, inl, inr, false, true, ◌==◌, arith,
}
use mikucos.Memory.{Bytes, store, memcpy}

-- Two blocks of `n` bytes whose first is copied from the second, byte by byte from the front.
abbrev pub IsClear : ℕ → ℕ → ℕ → Type 0
IsClear n dest src = (dest ≤ src) ⊎ (src + n ≤ dest)

store-other : (m : Bytes) (a b x : ℕ) → (x == a) ≡ false → store m a b x ≡ m x
store-other m a b x e = rw e refl

store-here : (m : Bytes) (a b : ℕ) → store m a b a ≡ b
store-here m a b = let e : (a == a) ≡ true = ground arith in rw e refl

-- The bytes outside the destination stay.
pub memcpy-outside :
    (n dest src x : ℕ) (m : Bytes) → (x < dest) ⊎ (dest + n ≤ x) → memcpy n dest src m x ≡ m x
unfolding memcpy
memcpy-outside zero dest src x m h = refl
memcpy-outside (suc n) dest src x m h =
    let apart : (x == dest) ≡ false = elim h [ inl l ↦ ground arith | inr l ↦ ground arith ] in
    let later : (x < dest + 1) ⊎ (dest + 1 + n ≤ x) = elim h [
      | inl l ↦ inl (omega arith)
      | inr l ↦ inr (omega arith)
    ] in
    memcpy-outside n (dest + 1) (src + 1) x (store m dest (m src)) later
    ∙ store-other m dest (m src) x apart

-- The destination has the bytes of the source.
pub memcpy-inside :
    (n dest src k : ℕ) (m : Bytes)
    → IsClear n dest src
    → k < n
    → memcpy n dest src m (dest + k) ≡ m (src + k)
unfolding memcpy
memcpy-inside zero dest src k m h l = absurd (omega arith)
memcpy-inside (suc n) dest src zero m h l =
    let d : dest + 0 ≡ dest = omega arith in
    let s : src + 0 ≡ src = omega arith in
    rw (d, s)
      (memcpy-outside n (dest + 1) (src + 1) dest (store m dest (m src)) (inl (omega arith))
        ∙ store-here m dest (m src))
memcpy-inside (suc n) dest src (suc k) m h l =
    let d : dest + suc k ≡ dest + 1 + k = omega arith in
    let s : src + suc k ≡ src + 1 + k = omega arith in
    let next : IsClear n (dest + 1) (src + 1) = elim h [
      | inl c ↦ inl (omega arith)
      | inr c ↦ inr (omega arith)
    ] in
    let apart : (src + 1 + k == dest) ≡ false = elim h [
      | inl c ↦ ground arith
      | inr c ↦ ground arith
    ] in
    rw (d, s)
      (memcpy-inside n (dest + 1) (src + 1) k (store m dest (m src)) next (omega arith)
        ∙ store-other m dest (m src) (src + 1 + k) apart)
