-- ===== src/Stdio/Source.antt =====
-- What a stream relies on: a descriptor that gives the bytes of a file in pieces, and at the end of the
-- file either no bytes or a negative result. The files of memory and of an archive do the second.
use mikucos.Base.{
  ℕ, ◌+◌, ◌-◌, ◌<◌, ◌≤◌, ◌≡◌, Bool, true, false, Option, none, some, List, [], ◌++◌, length, take,
  drop,
}
use mikucos.Stdio.{File, FileApi}

-- What a call of `read` does to the bytes that are not read; none is a negative result.
abbrev pub Answers : Bool → List ℕ → List ℕ → ℕ → Option (List ℕ) → Type 0
Answers zero_end left left' len none = (left ≡ []) × (left' ≡ []) × (zero_end ≡ false)
Answers zero_end left left' len (some bytes) =
    (length bytes ≤ len) × (left ≡ bytes ++ left') × (bytes ≡ [] → (left ≡ []) × (zero_end ≡ true))

-- `left` are the bytes that are not read; `zero_end` says that `read` gives no bytes at the end, where
-- it has a negative result otherwise.
pub record Source {S : Type 0} (api : FileApi S) (fd : ℕ) : Type 0 where
  pub left : S → List ℕ
  pub zero_end : Bool
  pub read_left :
      (len : ℕ) (s : S)
      → 0 < len
      → (answer : Option (List ℕ)) × (s' : S) × (api.read fd len s ≡ (answer, s'))
        × Answers zero_end (left s) (left s') len answer

-- The characters that a stream has in its buffer.
abbrev pub buffered : File → List ℕ
buffered stream = take (stream.bs - stream.bm) (drop stream.bm stream.buf)

-- A stream for reading: the flag of the end is set only when nothing is left, by a `read` that gave no
-- bytes, and a stream that is not turned to input has an empty buffer. It is not one of the two streams
-- of the terminal.
pub record IsReading (zero_end : Bool) (stream : File) (left : List ℕ) : Type 0 where
  pub file : 1 < stream.fd
  pub no_error : stream.error_indicator ≡ false
  pub no_ungotten : stream.ungotten ≡ false
  pub room : 0 < stream.buflen
  pub within : stream.bm ≤ stream.bs
  pub fits : stream.bs ≤ length stream.buf
  pub turned : stream.bufinput ≡ false → stream.bm + stream.bs ≡ 0
  pub at_end : stream.eof_indicator ≡ true → (zero_end ≡ true) × (buffered stream ++ left ≡ [])
