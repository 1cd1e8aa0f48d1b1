-- ===== src/Numeral/Value.antt =====
-- `strtol` and `strtoul` return the value of the digits, saturated.
use mikucos.Base.{
  ℕ, ◌+◌, ◌-◌, ◌*◌, ◌%◌, ◌^◌, ◌≤◌, ◌<◌, ◌≡◌, inl, inr, refl, Bool, true, false, ◌&&◌, none, some,
  List, [], ◌∷◌, ltb, if◌then◌else◌, arith, Option-cases, Bool-cases,
}
use mikucos.Base.Int.{ℤ, pos, negsuc, sub_ℕ, min_ℤ, max_ℤ, signed32}
use mikucos.Numeral.{
  ulong_max, long_max, skip_spaces, skip_sign, Prefix, read_prefix, digit_in, overflows, take_digit,
  strto_scan, Scanned, strto_loop, strto_result, strto_l, strtoul, strtol,
}
use Prim.Native.Nat.{min}

-- The digits with which a string begins, and their value behind those that are worth `v`.
abbrev pub digit_run : ℕ → List ℕ → List ℕ
digit_run base [] = []
digit_run base (c ∷ s) = elim (digit_in base c) [ none ↦ [] | some d ↦ d ∷ digit_run base s ]

abbrev pub value_from : ℕ → ℕ → List ℕ → ℕ
value_from base v [] = v
value_from base v (d ∷ ds) = value_from base (v * base + d) ds

-- What stands behind the digits; `fail` if there are none.
abbrev pub behind : ℕ → List ℕ → List ℕ → List ℕ
behind base [] fail = fail
behind base (c ∷ s) fail = elim (digit_in base c) [ none ↦ fail | some d ↦ behind base s s ]

-- The loop's variables when the digits read so far are worth `v`.
abbrev saturated : Bool → Bool → ℕ → List ℕ → Scanned
saturated uflag neg v fail = record {
  number = min v ulong_max;
  negative = if uflag && ltb ulong_max v then false else neg;
  fail_char = fail;
}

digit_in-lt : (base c d : ℕ) → digit_in base c ≡ some d → d < base
unfolding digit_in
digit_in-lt base c d h = ground arith

overflows-eq :
    (base n d : ℕ) → 2 ≤ base → d < base → overflows base n d ≡ ltb ulong_max (n * base + d)
unfolding overflows
overflows-eq base n d h k = grind arith

take_digit-saturated :
    (base : ℕ) (uflag neg : Bool) (d : ℕ) (s : List ℕ) (v : ℕ) (fail : List ℕ)
    → 2 ≤ base
    → d < base
    → take_digit base uflag d s (saturated uflag neg v fail) ≡ saturated uflag neg (v * base + d) s
unfolding take_digit
take_digit-saturated base uflag neg d s v fail h k =
    let grows : v ≤ v * base = grind arith in
    rw (overflows-eq base (min v ulong_max) d h k) (elim (Bool-cases (ltb ulong_max v)) [
      | inl more ↦ let e : min v ulong_max ≡ ulong_max = ground arith in rw (e, more) (ground arith)
      | inr fits ↦ let e : min v ulong_max ≡ v = ground arith in rw (e, fits) (ground arith)
    ])

strto_loop-saturated :
    (base : ℕ) (uflag neg : Bool) (s : List ℕ) (v : ℕ) (fail : List ℕ)
    → 2 ≤ base
    → strto_loop base uflag s (saturated uflag neg v fail)
      ≡ saturated uflag neg (value_from base v (digit_run base s)) (behind base s fail)
unfolding strto_loop
strto_loop-saturated base uflag neg [] v fail h = refl
strto_loop-saturated base uflag neg (c ∷ s) v fail h = elim (Option-cases (digit_in base c)) [
  | inl e ↦ ground arith
  | inr (d, e) ↦ ground (
    arith,
    take_digit-saturated base uflag neg d s v fail h (digit_in-lt base c d e),
    strto_loop-saturated base uflag neg s (v * base + d) s h,
  )
]

-- What `strtol` makes of a sign and a value: the nearest `long`.
abbrev pub nearest_long : Bool → ℕ → ℤ
nearest_long true v = max_ℤ (sub_ℕ 0 v) (negsuc long_max)
nearest_long false v = min_ℤ (pos v) (pos long_max)

-- What `strtoul` makes of them: a negative number wraps around, a value too large is the greatest.
abbrev pub as_ulong : Bool → ℕ → ℕ
as_ulong neg v = if ltb ulong_max v then ulong_max else if neg then (2 ^ 32 - v) % 2 ^ 32 else v

result_signed :
    (neg : Bool) (v : ℕ) → signed32 (strto_result false (min v ulong_max) neg) ≡ nearest_long neg v
unfolding strto_result
result_signed true v = ground arith
result_signed false v = ground arith

result_unsigned :
    (neg : Bool) (v : ℕ)
    → strto_result true (min v ulong_max) (if ltb ulong_max v then false else neg) ≡ as_ulong neg v
unfolding strto_result
result_unsigned true v = ground arith
result_unsigned false v = ground arith

-- The digits of a number behind the prefix that `read_prefix` takes, and their value.
abbrev pub value_of : Prefix → ℕ
value_of p = value_from p.base 0 (digit_run p.base p.digits)

-- The loop runs for these bases.
abbrev pub IsLegal : Prefix → Type 0
IsLegal p = (2 ≤ p.base) × (p.base ≤ 36)

strto_scan-saturated :
    (uflag neg : Bool) (p : Prefix)
    → IsLegal p
    → strto_scan uflag neg p ≡ saturated uflag neg (value_of p) (behind p.base p.digits p.fail_char)
unfolding strto_scan
strto_scan-saturated uflag neg p h =
    ground (arith, strto_loop-saturated p.base uflag neg p.digits 0 p.fail_char h.0)

module _ (str : List ℕ) (base : ℕ) where
  abbrev pub sign : Bool
  sign = (skip_sign (skip_spaces str)).0

  abbrev pub prefix : Prefix
  prefix = read_prefix base (skip_sign (skip_spaces str)).1 str

  -- For a base that is legal behind the prefix, `strtol` returns the `long` nearest to the signed
  -- value of the digits behind the spaces, the sign and the prefix, and `strtoul` the value, negated
  -- modulo 2^32 behind a minus sign, or the greatest number if the value has more than 32 bits. Both
  -- return the place behind the last digit; without digits, behind a zero of the prefix, or the start.
  pub strtol-nearest :
      IsLegal prefix
      → (strtol str base ≡ (
        nearest_long sign (value_of prefix),
        behind prefix.base prefix.digits prefix.fail_char,
      ))
        × (strtoul str base
            ≡ (as_ulong sign (value_of prefix), behind prefix.base prefix.digits prefix.fail_char))
  unfolding strtol strtoul strto_l
  strtol-nearest h = (
    rw (strto_scan-saturated false sign prefix h, result_signed sign (value_of prefix)),
    rw (strto_scan-saturated true sign prefix h, result_unsigned sign (value_of prefix)),
  )
