-- ===== src/Stdio/Examples.antt =====
-- A file of 7 characters on descriptor 3, two lines, that is read in pieces of at most 3 bytes, with -1
-- at its end.
use mikucos.Base.{
  ℕ, zero, suc, sym, ◌<◌, length-take, ◌≡◌, ◌≤◌, refl, arith, true, false, ◌||◌, not, ap, Option,
  none, some, List, [], ◌∷◌, ◌++◌, if◌then◌else◌, length, take, drop, leb, take-append-drop,
  replicate,
}
use mikucos.Base.Int.{pos}
use mikucos.Base.Outcome.{ok}
use mikucos.Stdio.{File, FileApi, fflush, fflush4, refill, fgetc, fgets_loop, fgets}
use mikucos.Stdio.Source.{Source, Answers, IsReading}
use mikucos.Stdio.Chars.{rest}
use mikucos.Stdio.Lines.{met_end, first_line, line_or_null, fgets-line}

abbrev text : List ℕ
text = b'a' ∷ b'b' ∷ 10 ∷ b'c' ∷ b'd' ∷ b'e' ∷ 10 ∷ []

abbrev piece : ℕ → ℕ
piece len = if leb len 3 then len else 3

-- A negative result in place of no bytes.
abbrev or_negative : List ℕ → Option (List ℕ)
or_negative [] = none
or_negative (c ∷ bytes) = some (c ∷ bytes)

abbrev pieces : FileApi (List ℕ)
pieces = record {
  read = λ fd len s. (or_negative (take (piece len) s), drop (piece len) s);
  write = λ fd bytes s. (pos (length bytes), s);
}

abbrev file : File
file = record {
  fd = 3;
  error_indicator = false;
  eof_indicator = false;
  bufinput = false;
  bs = 0;
  bm = 0;
  buflen = 256;
  buf = replicate 256 0;
  ungetbuf = 0;
  ungotten = false;
}

pieces-Answers :
    (n len : ℕ) (s : List ℕ)
    → 0 < n
    → n ≤ len
    → Answers false s (drop n s) len (or_negative (take n s))
pieces-Answers zero len s h l = absurd (omega arith)
pieces-Answers (suc n) len [] h l = (refl, refl, refl)
pieces-Answers (suc n) len (c ∷ s) h l =
    let size = length-take n s in
    (omega arith, ap (λ x. c ∷ x) (sym (take-append-drop n s)), λ e. absurd (ground arith))

pieces-Source : Source pieces 3
pieces-Source = record {
  left = λ s. s;
  zero_end = false;
  read_left = λ len s h. (
    or_negative (take (piece len) s),
    drop (piece len) s,
    refl,
    pieces-Answers (piece len) len s (ground arith) (ground arith),
  );
}

file-IsReading : IsReading false file text
file-IsReading = record {
  file = omega arith;
  no_error = refl;
  no_ungotten = refl;
  room = omega arith;
  within = omega arith;
  fits = omega arith;
  turned = λ e. refl;
  at_end = λ e. absurd (ground arith);
}

line :
    fgets pieces 10 file file text
    ≡ ok (
      some (b'a' ∷ b'b' ∷ 10 ∷ []),
      record file { bufinput = true; bs = 3; bm = 3; buf = b'a' ∷ b'b' ∷ 10 ∷ replicate 253 0 },
      file,
      b'c' ∷ b'd' ∷ b'e' ∷ 10 ∷ [],
    )
unfolding fgets fgets_loop fgetc refill fflush4 fflush
line = refl

-- A last line without a line feed: the characters are lost.
last_line :
    fgets pieces 10 file file (b'd' ∷ b'e' ∷ [])
    ≡ ok (
      none,
      record file {
        bufinput = true;
        error_indicator = true;
        bs = 2;
        bm = 2;
        buf = b'd' ∷ b'e' ∷ replicate 254 0;
      },
      file,
      [],
    )
unfolding fgets fgets_loop fgetc refill fflush4 fflush
last_line = refl

fgets-line_example :
    let whole = false || not (met_end 9 text) in
    (stream : File) × (s : List ℕ) × (fgets pieces 10 file file text
      ≡ ok (if whole then line_or_null 9 text else none, stream, file, s))
    × (if whole
        then IsReading false stream s
          × (text ≡ first_line 9 text ++ rest pieces 3 pieces-Source stream s)
        else stream.error_indicator ≡ true)
unfolding pieces-Source
fgets-line_example = fgets-line pieces 3 pieces-Source 8 file file text file-IsReading refl
