-- ===== src/Numeral/RoundTrip.antt =====
-- What `itoa` prints in decimal, `strtol` and `strtoul` read back.
use mathlib.Core.List.{reverse_aux}
use native.Mathlib.Nat.{pow-suc}
use mikucos.Base.{
  ℕ, zero, suc, ◌+◌, ◌-◌, ◌*◌, ◌/◌, ◌%◌, ◌^◌, ◌≤◌, ◌<◌, ◌≡◌, refl, ◌∙◌, ap, Bool, true, false, some,
  List, [], ◌∷◌, ◌==◌, leb, arith, length, Bool-cases, inl, inr,
}
use mikucos.Base.Int.{signed32}
use mikucos.CString.{isdigit, isspace}
use mikucos.Numeral.{
  skip_spaces, skip_sign, read_prefix, digit_of, digit_in, strtol, strtoul, digit_char, itoa_digits,
  reverse_loop, max_digits, itoa,
}
use mikucos.Numeral.Value.{
  digit_run, value_from, behind, sign, nearest_long, as_ulong, strtol-nearest,
}
use mikucos.Numeral.Reverse.{reverse_loop-reverse}

digit_in-char : (r : ℕ) → r < 10 → digit_in 10 (digit_char r) ≡ some r
unfolding digit_in digit_of isdigit digit_char
digit_in-char r h = ground arith

-- What the loop reads of the digits that are printed in front of `t`.
abbrev ReadsBack : ℕ → List ℕ → List ℕ → Type 0
ReadsBack n s t =
    (value_from 10 0 (digit_run 10 s) ≡ value_from 10 n (digit_run 10 t))
    × ((fail : List ℕ) → behind 10 s fail ≡ behind 10 t t)
    × (c : ℕ) × (r : List ℕ) × (s ≡ c ∷ r)
    × (isdigit c ≡ true)

push_digit :
    (n : ℕ) (s t : List ℕ) → ReadsBack (n / 10) s (digit_char (n % 10) ∷ t) → ReadsBack n s t
push_digit n s t (v, b, c, r, e', d) =
    let e = digit_in-char (n % 10) (omega arith) in
    let whole : n / 10 * 10 + n % 10 ≡ n = omega arith in
    (v ∙ rw (e, digit_run, whole) refl, λ fail. b fail ∙ rw (e, behind) refl, c, r, e', d)

single_digit : (r : ℕ) (t : List ℕ) → r < 10 → ReadsBack 0 (digit_char r ∷ t) (digit_char r ∷ t)
single_digit r t h =
    let e = digit_in-char r h in
    (
      refl,
      λ fail. rw (e, behind) refl,
      digit_char r,
      t,
      refl,
      unfold isdigit digit_char in ground arith,
    )

fuel_left : (f n : ℕ) → n < 2 ^ suc f → 1 ≤ n / 10 → (n / 10 < 2 ^ f) × (0 < f)
fuel_left zero n h k = omega arith
fuel_left (suc f) n h k = omega (arith, pow-suc 2 (suc f))

digits-ReadsBack :
    (f n : ℕ) (t : List ℕ) → n < 2 ^ f → 0 < f → ReadsBack n (reverse_aux (itoa_digits f 10 n) t) t
unfolding itoa_digits
digits-ReadsBack zero n t h k = absurd (omega arith)
digits-ReadsBack (suc f) n t h k = elim (Bool-cases (n / 10 == 0)) [
  | inl e ↦
      let none_left : n / 10 ≡ 0 = ground arith in
      push_digit n _ t (rw (e, none_left) (single_digit (n % 10) t (omega arith)))
  | inr e ↦
      let (h', k') = fuel_left f n h (ground arith) in
      push_digit n _ t (rw e (digits-ReadsBack f (n / 10) (digit_char (n % 10) ∷ t) h' k'))
]

-- The decimal digits of a number, as `itoa` stores them.
abbrev decimal : ℕ → List ℕ
decimal n =
    let digits = itoa_digits max_digits 10 n in
    reverse_loop (length digits) digits 0 (length digits - 1)

decimal-ReadsBack : (n : ℕ) → n < 2 ^ 32 → ReadsBack n (decimal n) []
decimal-ReadsBack n h =
    rw (reverse_loop-reverse (itoa_digits max_digits 10 n))
      (digits-ReadsBack max_digits n [] h (omega arith))

-- A string of digits is read from its first character on.
starts_digit :
    (c : ℕ) (s : List ℕ)
    → isdigit c ≡ true
    → (skip_spaces (c ∷ s) ≡ c ∷ s) × (skip_sign (c ∷ s) ≡ (false, c ∷ s))
unfolding skip_spaces skip_sign isspace isdigit
starts_digit c s h = ground arith

minus_skipped :
    (s : List ℕ) → (skip_spaces (b'-' ∷ s) ≡ b'-' ∷ s) × (skip_sign (b'-' ∷ s) ≡ (true, s))
unfolding skip_spaces skip_sign isspace
minus_skipped s = (refl, refl)

read_prefix-ten :
    (s str : List ℕ) → read_prefix 10 s str ≡ record { base = 10; digits = s; fail_char = str }
unfolding read_prefix
read_prefix-ten s str = refl

-- `strtol` and `strtoul` on digits in base 10, behind what is skipped.
module _ (n : ℕ) (neg : Bool) (str s : List ℕ) (e : skip_sign (skip_spaces str) ≡ (neg, s)) where
  read_back :
      ReadsBack n s []
      → (strtol str 10 ≡ (nearest_long neg n, [])) × (strtoul str 10 ≡ (as_ulong neg n, []))
  read_back (v, b, c, r, e', d) =
      let negative : (skip_sign (skip_spaces str)).0 ≡ neg = ap (λ p. p.0) e in
      let digits : (skip_sign (skip_spaces str)).1 ≡ s = ap (λ p. p.1) e in
      let read =
        rw (digits, read_prefix-ten s str) at
          (strtol-nearest str 10 (rw (digits, read_prefix-ten s str) (omega arith))) in
      rw (negative, v, b str) at read

skip-digits :
    (s : List ℕ) (c : ℕ) (r : List ℕ)
    → s ≡ c ∷ r
    → isdigit c ≡ true
    → skip_sign (skip_spaces s) ≡ (false, s)
skip-digits s c r e d = let (spaces, sign) = starts_digit c r d in rw (e, spaces, sign)

decimal-read :
    (n : ℕ)
    → n < 2 ^ 32
    → (strtol (decimal n) 10 ≡ (nearest_long false n, []))
      × (strtoul (decimal n) 10 ≡ (as_ulong false n, []))
decimal-read n h =
    let back = decimal-ReadsBack n h in
    read_back n false (decimal n) (decimal n) (skip-digits (decimal n) back.2 back.3 back.4 back.5)
      back

minus-read : (n : ℕ) → n < 2 ^ 32 → strtol (b'-' ∷ decimal n) 10 ≡ (nearest_long true n, [])
minus-read n h =
    let (spaces, sign) = minus_skipped (decimal n) in
    (read_back n true (b'-' ∷ decimal n) (decimal n) (rw (spaces, sign)) (decimal-ReadsBack n h)).0

-- Every `int` that `itoa` prints with `%d` is read back by `strtol`, and every number that it prints
-- with `%u` by `strtoul`; both read the string to its end.
pub strtol-itoa :
    (n : ℕ)
    → n < 2 ^ 32
    → (strtol (itoa b'd' n) 10 ≡ (signed32 n, [])) × (strtoul (itoa b'u' n) 10 ≡ (n, []))
unfolding itoa
strtol-itoa n h = (
  elim (Bool-cases (leb (2 ^ 31) n)) [
    | inl e ↦ rw e (minus-read (2 ^ 32 - n) (ground arith) ∙ ap (λ v. (v, [])) (ground arith))
    | inr e ↦ rw e ((decimal-read n h).0 ∙ ap (λ v. (v, [])) (ground arith))
  ],
  (decimal-read n h).1 ∙ ap (λ v. (v, [])) (ground arith),
)
