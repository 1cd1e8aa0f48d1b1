-- ===== src/Stdio.antt =====
-- stdio.c: the streams that read. `read` and `write` of file_api.c are operations on the rest of the
-- kernel, of type S. The bits of `flags` that are used are fields; `stdout` is a stream of its own, and
-- the stream that is read is another one.
pub mod Source
pub mod Chars
pub mod Lines
pub mod Examples
use mikucos.Base.{
  ℕ, zero, suc, ◌+◌, ◌-◌, Bool, true, false, ◌||◌, not, Option, none, some, List, [], ◌∷◌, ◌++◌,
  ◌==◌, leb, if◌then◌else◌, length, take, drop, get_elem?,
}
use mikucos.Base.Int.{ℤ, pos, negsuc, eq_ℤ, is_zero}
use mikucos.Base.Outcome.{Outcome, ok, panic, ◌>>=◌}

pub record File : Type 0 where
  pub fd : ℕ
  pub error_indicator : Bool
  pub eof_indicator : Bool
  pub bufinput : Bool
  pub bs : ℕ
  pub bm : ℕ
  pub buflen : ℕ
  pub buf : List ℕ
  pub ungetbuf : ℕ
  pub ungotten : Bool

abbrev pub eof : ℤ
eof = negsuc 0

abbrev pub feof : File → Bool
feof stream = if stream.ungotten then false else stream.eof_indicator

abbrev pub ferror : File → Bool
ferror stream = stream.error_indicator

-- What `read(fd, buf, len)` gives: the bytes, or none for a negative result; and what `write` returns.
pub record FileApi (S : Type 0) : Type 0 where
  pub read : ℕ → ℕ → S → Option (List ℕ) × S
  pub write : ℕ → List ℕ → S → ℤ × S

-- The bytes at the beginning of the buffer.
abbrev pub fill : List ℕ → List ℕ → List ℕ
fill bytes buf = bytes ++ drop (length bytes) buf

module _ {S : Type 0} (api : FileApi S) where
  -- `fflush` of a stream that is not null.
  unfoldable pub fflush : File → S → Outcome (ℤ × File × S)
  fflush stream s =
      let written = api.write stream.fd (take stream.bm stream.buf) s in
      let empty = record stream { bm = 0 } in
      if stream.bufinput
      then (if stream.bm == stream.bs
          then ok (pos 0, record stream { bs = 0; bm = 0 }, s)
          else panic)
      else if stream.bm == 0
      then ok (pos 0, empty, s)
      else if eq_ℤ written.0 (pos stream.bm)
      then ok (pos 0, empty, written.1)
      else ok (negsuc 0, record stream { error_indicator = true }, written.1)

  -- The stream and `stdout` are passed on.
  unfoldable pub fflush4 : Bool → File → File → S → Outcome (ℤ × File × File × S)
  fflush4 next stream stdout s =
      let turned = fflush stream s >>= λ (res, stream', s').
      ok (res, record stream' { bufinput = next }, stdout, s') in
      let flushed = fflush stdout s >>= λ (res, stdout', s'). ok (pos 0, stream, stdout', s') in
      if (if next then not stream.bufinput else stream.bufinput)
      then turned
      else if stream.fd == 0 || stream.fd == 1
      then flushed
      else ok (pos 0, stream, stdout, s)

  -- The end of `fgetc_unlocked`: a character of the buffer. A position outside it is a panic here.
  abbrev pub from_buffer : File → File → S → Outcome (ℤ × File × File × S)
  from_buffer stream stdout s = elim (get_elem? stream.buf stream.bm) [
    | none ↦ panic
    | some c ↦ ok (pos c, record stream { bm = stream.bm + 1 }, stdout, s)
  ]

  -- The call of `read`, when the buffer is used up, and what follows.
  unfoldable pub refill : File → File → S → Outcome (ℤ × File × File × S)
  refill stream stdout s =
      let (result, s') = api.read stream.fd stream.buflen s in
      elim result [
        | none ↦ ok (eof, record stream { error_indicator = true }, stdout, s')
        | some bytes ↦ elim bytes [
          | [] ↦ ok (eof, record stream { eof_indicator = true }, stdout, s')
          | b ∷ more ↦
              from_buffer
                (record stream { bm = 0; bs = length (b ∷ more); buf = fill (b ∷ more) stream.buf })
                stdout s'
        ]
      ]

  unfoldable pub fgetc : File → File → S → Outcome (ℤ × File × File × S)
  fgetc stream stdout s =
      let read_on = fflush4 true stream stdout s >>= λ (res, stream', stdout', s').
      if not (is_zero res)
      then ok (eof, stream', stdout', s')
      else if leb stream'.bs stream'.bm
      then refill stream' stdout' s'
      else from_buffer stream' stdout' s' in
      if stream.ungotten
      then ok (pos stream.ungetbuf, record stream { ungotten = false }, stdout, s)
      else if feof stream
      then ok (eof, stream, stdout, s)
      else read_on

  -- The loop of `fgets` with `l`: the characters stored, and `l` at the end.
  unfoldable pub fgets_loop : ℕ → File → File → S → Outcome (List ℕ × ℕ × File × File × S)
  fgets_loop zero stream stdout s = ok ([], zero, stream, stdout, s)
  fgets_loop (suc zero) stream stdout s = ok ([], suc zero, stream, stdout, s)
  fgets_loop (suc (suc l)) stream stdout s = fgetc stream stdout s >>= λ (c, stream', stdout', s').
      elim c [
        | negsuc n ↦ ok ([], suc (suc l), stream', stdout', s')
        | pos k ↦
            let more =
              fgets_loop (suc l) stream' stdout' s' >>= λ (line, left, stream2, stdout2, s2).
              ok (k ∷ line, left, stream2, stdout2, s2) in
            if k == 10 then ok (k ∷ [], suc l, stream', stdout', s') else more
      ]

  -- None is the null pointer.
  unfoldable pub fgets : ℕ → File → File → S → Outcome (Option (List ℕ) × File × File × S)
  fgets size stream stdout s =
      fgets_loop size stream stdout s >>= λ (line, l, stream', stdout', s').
      if l == size || ferror stream'
      then ok (none, stream', stdout', s')
      else ok (some line, stream', stdout', s')
