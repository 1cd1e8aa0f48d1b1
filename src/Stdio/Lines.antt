-- ===== src/Stdio/Lines.antt =====
-- The lines of a stream.
use mikucos.Base.{
  Bool, ◌||◌, not, ◌⊎◌, ℕ, zero, suc, ◌+◌, ◌≡◌, ◌<◌, ◌∙◌, inl, inr, refl, ap, true, false, Option,
  none, some, List, [], ◌∷◌, ◌++◌, ◌==◌, if◌then◌else◌, length, arith, Bool-cases,
}
use mikucos.Base.Int.{pos}
use mikucos.Base.Outcome.{ok}
use mikucos.Stdio.{File, FileApi, eof, fgetc, fgets_loop, fgets}
use mikucos.Stdio.Source.{Source, IsReading}
use mikucos.Stdio.Chars.{rest, fgetc-Next}

-- The first line of the characters, with its line feed, but no more than so many.
unfoldable pub first_line : ℕ → List ℕ → List ℕ
first_line zero cs = []
first_line (suc n) [] = []
first_line (suc n) (c ∷ cs) = let more = first_line n cs in if c == 10 then c ∷ [] else c ∷ more

-- Whether the end of the file comes before the line is complete and before so many characters.
unfoldable pub met_end : ℕ → List ℕ → Bool
met_end zero cs = false
met_end (suc n) [] = true
met_end (suc n) (c ∷ cs) = let more = met_end n cs in if c == 10 then false else more

-- The end of the file, or a line.
abbrev pub line_or_null : ℕ → List ℕ → Option (List ℕ)
line_or_null n [] = none
line_or_null n (c ∷ cs) = some (first_line n (c ∷ cs))

module _ {S : Type 0} (api : FileApi S) (fd : ℕ) (source : Source api fd) where
  loop-stops :
      (l : ℕ) (stream stream' stdout : File) (s s' : S)
      → fgetc api stream stdout s ≡ ok (eof, stream', stdout, s')
      → fgets_loop api (suc (suc l)) stream stdout s ≡ ok ([], suc (suc l), stream', stdout, s')
  unfolding fgets_loop
  loop-stops l stream stream' stdout s s' e = rw (fgets_loop, e) refl

  loop-feeds :
      (l x : ℕ) (stream stream' stdout : File) (s s' : S)
      → fgetc api stream stdout s ≡ ok (pos x, stream', stdout, s')
      → (x == 10) ≡ true
      → fgets_loop api (suc (suc l)) stream stdout s ≡ ok (x ∷ [], suc l, stream', stdout, s')
  unfolding fgets_loop
  loop-feeds l x stream stream' stdout s s' e n = rw (fgets_loop, e, n) refl

  loop-goes_on :
      (l x left : ℕ) (line : List ℕ) (stream stream' last stdout : File) (s s' z : S)
      → fgetc api stream stdout s ≡ ok (pos x, stream', stdout, s')
      → (x == 10) ≡ false
      → fgets_loop api (suc l) stream' stdout s' ≡ ok (line, left, last, stdout, z)
      → fgets_loop api (suc (suc l)) stream stdout s ≡ ok (x ∷ line, left, last, stdout, z)
  unfolding fgets_loop
  loop-goes_on l x left line stream stream' last stdout s s' z e n k = rw (fgets_loop, e, n, k) refl

  -- With room for `n` characters the loop stores the line, and the other characters are still to come,
  -- or the end of the file has set the error flag.
  LoopReads : ℕ → File → File → S → Type 0
  LoopReads n stream stdout s =
      let cs = rest api fd source stream s in
      (stream' : File) × (s' : S) × (left : ℕ) × (fgets_loop api (suc n) stream stdout s
        ≡ ok (first_line n cs, left, stream', stdout, s'))
      × (left + length (first_line n cs) ≡ suc n)
      × ((IsReading source.zero_end stream' (source.left s')
            × (cs ≡ first_line n cs ++ rest api fd source stream' s')
            × ((source.zero_end || not (met_end n cs)) ≡ true))
          ⊎ (((source.zero_end || not (met_end n cs)) ≡ false) × (stream'.error_indicator ≡ true)))

  loop-LoopReads :
      (n : ℕ) (stream stdout : File) (s : S)
      → IsReading source.zero_end stream (source.left s)
      → stream.fd ≡ fd
      → LoopReads n stream stdout s
  unfolding LoopReads fgets_loop first_line met_end
  loop-LoopReads zero stream stdout s r f = (stream, s, 1, refl, refl, inl (r, refl, ground arith))
  loop-LoopReads (suc n) stream stdout s r f =
      let (stream', s', f', c) = fgetc-Next api fd source stream stdout s r f in
      elim c [
        | inr (z, h, d, e) ↦ (
          stream',
          s',
          suc (suc n),
          rw h (loop-stops n stream stream' stdout s s' e),
          rw h (omega arith),
          inr (rw (h, z) refl, d),
        )
        | inl (r', inl (z, h, k, e)) ↦ (
          stream',
          s',
          suc (suc n),
          rw h (loop-stops n stream stream' stdout s s' e),
          rw h (omega arith),
          inl (r', rw (h, k) refl, rw z refl),
        )
        | inl (r', inr (x, h, e)) ↦ elim (Bool-cases (x == 10)) [
          | inl t ↦ (
            stream',
            s',
            suc n,
            rw (h, t) (loop-feeds n x stream stream' stdout s s' e t),
            rw (h, t) (omega arith),
            inl (r', rw (h, t) refl, rw (h, t) (ground arith)),
          )
          | inr t ↦
              let (last, z, left, e', k', b) = loop-LoopReads n stream' stdout s' r' (f' ∙ f) in
              (
                last,
                z,
                left,
                rw (h, t) (loop-goes_on n x left _ stream stream' last stdout s s' z e t e'),
                rw (h, t) (omega arith),
                elim b [
                  | inl (r'', h', m) ↦ inl (r'', rw (h, t) (ap (λ l. x ∷ l) h'), rw (h, t) m)
                  | inr (m, d) ↦ inr (rw (h, t) m, d)
                ],
              )
        ]
      ]

  first_line-nonempty : (n c : ℕ) (cs : List ℕ) → 0 < length (first_line (suc n) (c ∷ cs))
  unfolding first_line
  first_line-nonempty n c cs = elim (Bool-cases (c == 10)) [
    | inl e ↦ rw e (omega arith)
    | inr e ↦ rw e (omega arith)
  ]

  fgets-result :
      (n left : ℕ) (cs : List ℕ) (stream stream' stdout : File) (s s' : S)
      → fgets_loop api (suc (suc n)) stream stdout s
        ≡ ok (first_line (suc n) cs, left, stream', stdout, s')
      → left + length (first_line (suc n) cs) ≡ suc (suc n)
      → stream'.error_indicator ≡ false
      → fgets api (suc (suc n)) stream stdout s ≡ ok (line_or_null (suc n) cs, stream', stdout, s')
  unfolding fgets first_line
  fgets-result n left [] stream stream' stdout s s' e k d =
      let all : (left == suc (suc n)) ≡ true = ground arith in rw (fgets, e, all) refl
  fgets-result n left (c ∷ cs) stream stream' stdout s s' e k d =
      let some_read = first_line-nonempty n c cs in
      let fewer : (left == suc (suc n)) ≡ false = ground arith in rw (fgets, e, fewer, d) refl

  fgets-error :
      (n left : ℕ) (cs : List ℕ) (stream stream' stdout : File) (s s' : S)
      → fgets_loop api (suc (suc n)) stream stdout s
        ≡ ok (first_line (suc n) cs, left, stream', stdout, s')
      → stream'.error_indicator ≡ true
      → fgets api (suc (suc n)) stream stdout s ≡ ok (none, stream', stdout, s')
  unfolding fgets
  fgets-error n left cs stream stream' stdout s s' e d = elim (Bool-cases (left == suc (suc n))) [
    | inl a ↦ rw (fgets, e, a) refl
    | inr a ↦ rw (fgets, e, a, d) refl
  ]

  -- A stream that is open for reading, of a file whose descriptor gives its bytes in pieces of any
  -- length, and at the end either no bytes or a negative result; `fgets` has room for at least one
  -- character. Where the end gives no bytes, or the line is complete or as long as the room before the
  -- end: `fgets` returns a null pointer at the end of the file, and the next line otherwise, cut where the
  -- room ends; the characters behind it are those that the stream has left, and the stream is open for
  -- reading again. Where the end is a negative result and comes before: `fgets` returns a null pointer,
  -- also when it has read characters of a last line, and the error flag is set.
  pub fgets-line :
      (n : ℕ) (stream stdout : File) (s : S)
      → IsReading source.zero_end stream (source.left s)
      → stream.fd ≡ fd
      → let cs = rest api fd source stream s in
        let whole = source.zero_end || not (met_end (suc n) cs) in
        (stream' : File) × (s' : S) × (fgets api (suc (suc n)) stream stdout s
          ≡ ok (if whole then line_or_null (suc n) cs else none, stream', stdout, s'))
        × (if whole
            then IsReading source.zero_end stream' (source.left s')
              × (cs ≡ first_line (suc n) cs ++ rest api fd source stream' s')
            else stream'.error_indicator ≡ true)
  unfolding LoopReads
  fgets-line n stream stdout s r f =
      let (stream', s', left, e, k, b) = loop-LoopReads (suc n) stream stdout s r f in
      let cs = rest api fd source stream s in
      elim b [
        | inl (r', h, w) ↦ (
          stream',
          s',
          rw w (fgets-result n left cs stream stream' stdout s s' e k r'.no_error),
          rw w (r', h),
        )
        | inr (w, d) ↦
            (stream', s', rw w (fgets-error n left cs stream stream' stdout s s' e d), rw w d)
      ]
