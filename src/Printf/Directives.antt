-- ===== src/Printf/Directives.antt =====
-- What the directives of a format print.
use mathlib.Core.List.{append_assoc}
use mikucos.Base.{
  ℕ, ◌+◌, ◌-◌, ◌*◌, ◌%◌, ◌^◌, ◌<◌, ◌≤◌, ◌≡◌, ◌≢◌, ◌⊎◌, refl, Bool, true, false, Option, none, some,
  List, [], ◌∷◌, ◌++◌, ◌==◌, if◌then◌else◌, arith, length, replicate, not, ◌||◌, ◌&&◌, ◌∙◌,
}
use mikucos.CString.{isdigit}
use mikucos.Numeral.{itoa}
use mikucos.Printf.{
  Arg, int, Flags, no_flags, padding, print_number, print_char, directive, emit, dprintf_loop,
  dprintf,
}

-- The characters of a width, and the number that they spell behind `w`.
abbrev pub AllDigits : List ℕ → Type 0
AllDigits [] = Unit
AllDigits (c ∷ s) = (isdigit c ≡ true) × AllDigits s

abbrev pub width_from : ℕ → List ℕ → ℕ
width_from w [] = w
width_from w (c ∷ s) = width_from (w * 10 + (c - b'0')) s

-- A width does not begin with 0, which is a flag there.
abbrev pub IsWidth : List ℕ → Type 0
IsWidth [] = Unit
IsWidth (c ∷ s) = (c ≢ b'0') × (isdigit c ≡ true) × AllDigits s

abbrev pub NoPercent : List ℕ → Type 0
NoPercent [] = Unit
NoPercent (c ∷ s) = (c ≢ b'%') × NoPercent s

abbrev pub zero_flag : Bool → List ℕ
zero_flag true = b'0' ∷ []
zero_flag false = []

-- The text with zeros or spaces in front, up to the width.
abbrev pub padded : Bool → ℕ → List ℕ → List ℕ
padded zero width s = replicate (width - length s) (if zero then b'0' else b' ') ++ s

-- Text without `%` is printed as it stands.
text-copied :
    (t rest : List ℕ) (args : List Arg)
    → NoPercent t
    → dprintf_loop (t ++ rest) false no_flags args ≡ emit t (dprintf_loop rest false no_flags args)
unfolding dprintf_loop
text-copied [] rest args h = ground arith
text-copied (c ∷ t) rest args h = ground (arith, text-copied t rest args h.1)

emit-nil : (o : Option (List ℕ)) → emit [] o ≡ o
emit-nil none = refl
emit-nil (some out) = refl

abbrev spec : Bool → ℕ → Flags
spec zero n = record { zero_prefix = zero; pad = n; escaped = true }

-- A character of a directive is read, behind the `%` or behind a digit.
module _ (percent : Bool) (fl : Flags) (c : ℕ) (rest : List ℕ) (args : List Arg)
    (within : (percent || fl.escaped) ≡ true) where
  digit-read :
      isdigit c ≡ true
      → fl.pad * 10 + (c - b'0') < 2 ^ 32
      → (c == b'0' && not (fl.zero_prefix || not (fl.pad == 0))) ≡ false
      → dprintf_loop (c ∷ rest) percent fl args
        ≡ dprintf_loop rest false (spec fl.zero_prefix (fl.pad * 10 + (c - b'0'))) args
  unfolding dprintf_loop directive isdigit
  digit-read d l z =
      let whole : (fl.pad * 10 + (c - b'0')) % 2 ^ 32 ≡ fl.pad * 10 + (c - b'0') = omega arith in
      ground (
        arith,
        whole,
        emit-nil (dprintf_loop rest false (spec fl.zero_prefix (fl.pad * 10 + (c - b'0'))) args),
      )

  number-printed :
      (n : ℕ) (left : List Arg)
      → args ≡ int n ∷ left
      → (c == b'd' || (c == b'u' || c == b'x')) ≡ true
      → dprintf_loop (c ∷ rest) percent fl args
        ≡ emit (padding fl (itoa c n) ++ itoa c n) (dprintf_loop rest false no_flags left)
  unfolding dprintf_loop directive isdigit print_number padding
  number-printed n left e k = rw e (ground arith)

width_from-le : (n : ℕ) (w : List ℕ) → n ≤ width_from n w
width_from-le n [] = omega arith
width_from-le n (c ∷ w) = let rest = width_from-le (n * 10 + (c - b'0')) w in omega arith

-- The flags behind the rest of a width.
width-read :
    (w rest : List ℕ) (zero : Bool) (n : ℕ) (args : List Arg)
    → AllDigits w
    → width_from n w < 2 ^ 32
    → (zero || not (n == 0)) ≡ true
    → dprintf_loop (w ++ rest) false (spec zero n) args
      ≡ dprintf_loop rest false (spec zero (width_from n w)) args
width-read [] rest zero n args h l z = refl
width-read (c ∷ w) rest zero n args h l z =
    let small = width_from-le (n * 10 + (c - b'0')) w in
    digit-read false (spec zero n) c (w ++ rest) args refl h.0 (omega arith) (ground arith)
    ∙ width-read w rest zero (n * 10 + (c - b'0')) args h.1 l (ground arith)

emit-append : (s t : List ℕ) (o : Option (List ℕ)) → emit s (emit t o) ≡ emit (s ++ t) o
emit-append s t none = refl
emit-append s t (some out) = rw (append_assoc s t out)

percent-read :
    (format : List ℕ) (args : List Arg)
    → dprintf_loop (b'%' ∷ format) false no_flags args ≡ dprintf_loop format true no_flags args
unfolding dprintf_loop
percent-read format args = refl

zero-read :
    (format : List ℕ) (args : List Arg)
    → dprintf_loop (b'0' ∷ format) true no_flags args ≡ dprintf_loop format false (spec true 0) args
unfolding dprintf_loop directive
zero-read format args = emit-nil (dprintf_loop format false (spec true 0) args)

IsWidth-AllDigits : (w : List ℕ) → IsWidth w → AllDigits w
IsWidth-AllDigits [] h = tt
IsWidth-AllDigits (c ∷ w) h = (h.1, h.2)

first_nonzero :
    (d : ℕ) → isdigit d ≡ true → d ≢ b'0' → (false || not (0 * 10 + (d - b'0') == 0)) ≡ true
unfolding isdigit
first_nonzero d h k = ground arith

-- The flag and the width of a directive are read.
flags-read :
    (zero : Bool) (w : List ℕ) (c : ℕ) (rest : List ℕ) (n : ℕ) (args : List Arg)
    → IsWidth w
    → width_from 0 w < 2 ^ 32
    → (c == b'd' || (c == b'u' || c == b'x')) ≡ true
    → dprintf_loop (zero_flag zero ++ (w ++ c ∷ rest)) true no_flags (int n ∷ args)
      ≡ emit (padded zero (width_from 0 w) (itoa c n)) (dprintf_loop rest false no_flags args)
unfolding padding
flags-read true w c rest n args h l k =
    zero-read (w ++ c ∷ rest) (int n ∷ args)
    ∙ width-read w (c ∷ rest) true 0 (int n ∷ args) (IsWidth-AllDigits w h) l refl
    ∙ number-printed false (spec true (width_from 0 w)) c rest (int n ∷ args) refl n args refl k
flags-read false [] c rest n args h l k =
    number-printed true no_flags c rest (int n ∷ args) refl n args refl k
flags-read false (d ∷ w) c rest n args h l k =
    let small = width_from-le (0 * 10 + (d - b'0')) w in
    digit-read true no_flags d (w ++ c ∷ rest) (int n ∷ args) refl h.1 (omega arith) (ground arith)
    ∙ width-read w (c ∷ rest) false (0 * 10 + (d - b'0')) (int n ∷ args) h.2 l
        (first_nonzero d h.1 h.0)
    ∙ number-printed false (spec false (width_from 0 (d ∷ w))) c rest (int n ∷ args) refl n args
        refl k

-- A directive `%d`, `%u` or `%x`, perhaps with a zero flag and a width that is an `int`, behind text
-- without `%`: the text is printed as it stands, then the number, with zeros or spaces in front up to the width, and
-- the rest of the format is printed with the other arguments.
pub dprintf-number :
    (t : List ℕ) (zero : Bool) (w : List ℕ) (c : ℕ) (rest : List ℕ) (n : ℕ) (args : List Arg)
    → NoPercent t
    → IsWidth w
    → width_from 0 w < 2 ^ 31
    → (c ≡ b'd') ⊎ ((c ≡ b'u') ⊎ (c ≡ b'x'))
    → dprintf (t ++ b'%' ∷ (zero_flag zero ++ (w ++ c ∷ rest))) (int n ∷ args)
      ≡ emit (t ++ padded zero (width_from 0 w) (itoa c n)) (dprintf rest args)
unfolding dprintf
dprintf-number t zero w c rest n args h i l k = rw (
  text-copied t (b'%' ∷ (zero_flag zero ++ (w ++ c ∷ rest))) (int n ∷ args) h,
  percent-read (zero_flag zero ++ (w ++ c ∷ rest)) (int n ∷ args),
  flags-read zero w c rest n args i (omega arith) (ground arith),
  emit-append t (padded zero (width_from 0 w) (itoa c n)) (dprintf_loop rest false no_flags args),
)

-- `%%` prints no percent sign: it takes an argument and prints the character with that code.
pub dprintf-percent :
    (n : ℕ) (rest : List ℕ) (args : List Arg)
    → dprintf (b'%' ∷ b'%' ∷ rest) (int n ∷ args) ≡ emit (n ∷ []) (dprintf rest args)
unfolding dprintf dprintf_loop directive print_char isdigit
dprintf-percent n rest args = refl
