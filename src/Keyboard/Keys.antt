-- ===== src/Keyboard/Keys.antt =====
-- The scancodes of the keys, and what `scancode_to_keycode` makes of them.
use mikucos.Base.{
  ℕ, zero, suc, ◌-◌, get_or, ◌+◌, ◌*◌, ◌/◌, ◌%◌, ◌<◌, ◌≡◌, ◌&&◌, ◌≢◌, refl, ap, Bool, true, false,
  ltb, if◌then◌else◌, List, [], ◌∷◌, arith, inl, inr, ◌⊎◌,
}
use mikucos.Base.Int.{pos}
use mikucos.Keyboard.{e0_table, scancode_to_keycode, e0_keys}

-- A key with a scancode of its own, one with the prefix 0xe0, and Pause.
pub data Key : Type 0 where
  plain extended : ℕ → Key
  pause : Key

-- A key, and whether it is released.
pub record Stroke : Type 0 where
  pub key : Key
  pub released : Bool

unfoldable pub IsKey : Key → Type 0
IsKey (plain n) = (n < 128) × (0 < n) × (n ≢ 96) × (n ≢ 97) × (n ≢ 122)
IsKey (extended n) = (n < 128) × (e0_keys n ≢ 0)
IsKey pause = Unit

unfoldable pub AllKeys : List Stroke → Type 0
AllKeys [] = Unit
AllKeys (s ∷ ss) = IsKey s.key × AllKeys ss

abbrev pub break_code : Bool → ℕ
break_code released = if released then 128 else 0

unfoldable pub scancodes_of : Key → Bool → List ℕ
scancodes_of (plain n) r = (n + break_code r) ∷ []
scancodes_of (extended n) r = 224 ∷ (n + break_code r) ∷ []
scancodes_of pause r = 225 ∷ (29 + break_code r) ∷ (69 + break_code r) ∷ []

unfoldable pub key_code : Key → ℕ
key_code (plain n) = n
key_code (extended n) = e0_keys n
key_code pause = 119

unfoldable pub keycode_of : Stroke → ℕ
keycode_of s = key_code s.key + break_code s.released

pub plain-decoded :
    (n : ℕ) (r : Bool)
    → IsKey (plain n)
    → scancode_to_keycode 0 (n + break_code r) ≡ (pos (n + break_code r), 0)
unfolding scancode_to_keycode IsKey
plain-decoded n true h = ground arith
plain-decoded n false h = ground arith

all_small : List ℕ → Bool
all_small [] = true
all_small (x ∷ xs) = ltb x 128 && all_small xs

get_or-small : (xs : List ℕ) (i : ℕ) → all_small xs ≡ true → get_or xs i 0 < 128
unfolding all_small
get_or-small [] i h = omega arith
get_or-small (x ∷ xs) zero h = ground arith
get_or-small (x ∷ xs) (suc i) h = get_or-small xs i (ground arith)

pub e0_keys-small : (n : ℕ) → e0_keys n < 128
unfolding e0_keys all_small
e0_keys-small n =
    let small : get_or e0_table (n - 28) 0 < 128 = get_or-small e0_table (n - 28) refl in
    ground arith

-- The scancodes that the code tests for first are not those of a key.
pub extended-distinct :
    (n : ℕ) → e0_keys n ≢ 0 → (n ≢ 42) × (n ≢ 54) × (n ≢ 96) × (n ≢ 97) × (n ≢ 122)
unfolding e0_keys
extended-distinct n h = (
  λ e. h (ap e0_keys e),
  λ e. h (ap e0_keys e),
  λ e. h (ap e0_keys e),
  λ e. h (ap e0_keys e),
  λ e. h (ap e0_keys e),
)

after_e0 :
    (n r full v : ℕ)
    → full % 128 ≡ n
    → (full / 128) % 2 * 128 ≡ r
    → (full ≢ 224) × (full ≢ 225)
    → (n ≢ 42) × (n ≢ 54)
    → e0_keys n ≡ v
    → v ≢ 0
    → scancode_to_keycode 224 full ≡ (pos (v + r), 0)
unfolding scancode_to_keycode
after_e0 n r full v m d p q e h = rw m (rw d (rw e (ground arith)))

pub extended-decoded :
    (n : ℕ) (r : Bool)
    → IsKey (extended n)
    → scancode_to_keycode 224 (n + break_code r) ≡ (pos (e0_keys n + break_code r), 0)
unfolding IsKey
extended-decoded n true h =
    let (d1, d2, d3, d4, d5) = extended-distinct n h.1 in
    after_e0 n 128 (n + 128) (e0_keys n) (omega arith) (omega arith) (omega arith, omega arith)
      (d1, d2) refl h.1
extended-decoded n false h =
    let (d1, d2, d3, d4, d5) = extended-distinct n h.1 in
    after_e0 n 0 (n + 0) (e0_keys n) (omega arith) (omega arith) (omega arith, omega arith) (d1, d2)
      refl h.1

pub pause-decoded :
    (r : Bool)
    → (scancode_to_keycode 225 (29 + break_code r) ≡ (pos 0, 256))
      × (scancode_to_keycode 256 (69 + break_code r) ≡ (pos (119 + break_code r), 0))
unfolding scancode_to_keycode
pause-decoded true = (refl, refl)
pause-decoded false = (refl, refl)

pub prefix-decoded : (c p : ℕ) → (c ≡ 224) ⊎ (c ≡ 225) → scancode_to_keycode p c ≡ (pos 0, c)
unfolding scancode_to_keycode
prefix-decoded c p (inl e) = rw e refl
prefix-decoded c p (inr e) = rw e refl
