-- ===== src/Stdio/Chars.antt =====
-- A character of a stream: the next of its buffer and the file behind it.
use mikucos.Base.{
  ℕ, zero, suc, ◌+◌, ◌-◌, ◌≡◌, ◌≤◌, ◌<◌, ◌∙◌, ◌⊎◌, inl, inr, refl, sym, ap, true, false, ◌||◌, not,
  Bool, Option, none, some, List, [], ◌∷◌, ◌++◌, ◌==◌, leb, if◌then◌else◌, length, take, drop,
  get_elem?, arith, Bool-cases, length-append,
}
use mikucos.Base.Int.{ℤ, pos}
use mikucos.Base.Outcome.{Outcome, ok}
use mikucos.Stdio.{File, FileApi, eof, fill, fflush, fflush4, from_buffer, refill, fgetc}
use mikucos.Stdio.Source.{Source, Answers, buffered, IsReading}

take-append_length : (xs ys : List ℕ) → take (length xs) (xs ++ ys) ≡ xs
take-append_length [] ys = refl
take-append_length (x ∷ xs) ys = ap (λ l. x ∷ l) (take-append_length xs ys)

drop-elem :
    (i : ℕ) (xs : List ℕ)
    → i < length xs
    → (c : ℕ) × (get_elem? xs i ≡ some c) × (drop i xs ≡ c ∷ drop (suc i) xs)
drop-elem i [] h = absurd (omega arith)
drop-elem zero (x ∷ xs) h = (x, refl, refl)
drop-elem (suc i) (x ∷ xs) h = drop-elem i xs (omega arith)

-- The stream turned to input. Its buffer is empty when it has not been.
abbrev input : File → File
input stream = record stream { bufinput = true }

input-IsReading :
    (z : Bool) (stream : File) (left : List ℕ)
    → IsReading z stream left
    → IsReading z (input stream) left
input-IsReading z stream left r = record {
  file = r.file;
  no_error = r.no_error;
  no_ungotten = r.no_ungotten;
  room = r.room;
  within = r.within;
  fits = r.fits;
  turned = λ e. absurd (ground arith);
  at_end = r.at_end;
}

module _ {S : Type 0} (api : FileApi S) where
  fflush4-input :
      (z : Bool) (stream stdout : File) (left : List ℕ) (s : S)
      → IsReading z stream left
      → fflush4 api true stream stdout s ≡ ok (pos 0, input stream, stdout, s)
  unfolding fflush4 fflush
  fflush4-input z stream stdout left s r =
      let file = r.file in
      let other : (stream.fd == 0 || stream.fd == 1) ≡ false = ground arith in
      elim (Bool-cases stream.bufinput) [
        | inl e ↦
            let asked : (if true then not stream.bufinput else stream.bufinput) ≡ false =
              rw e refl in
            rw (asked, other) (ap (λ b. ok (pos 0, record stream { bufinput = b }, stdout, s)) e)
        | inr e ↦
            let t = r.turned e in let empty : stream.bm ≡ 0 = omega arith in rw (e, empty) refl
      ]

module _ {S : Type 0} (api : FileApi S) (fd : ℕ) (source : Source api fd) where
  -- All that is to come.
  abbrev pub rest : File → S → List ℕ
  rest stream s = buffered stream ++ source.left s

  -- A character, or the end that no bytes show.
  abbrev pub Goes : Outcome (ℤ × File × File × S) → File → S → File → File → S → Type 0
  Goes o stream s stdout stream' s' =
      IsReading source.zero_end stream' (source.left s')
      × (((source.zero_end ≡ true)
            × (rest stream s ≡ [])
            × (rest stream' s' ≡ [])
            × (o ≡ ok (eof, stream', stdout, s')))
          ⊎ ((c : ℕ) × (rest stream s ≡ c ∷ rest stream' s')
              × (o ≡ ok (pos c, stream', stdout, s'))))

  -- The end that a negative result shows.
  abbrev pub Fails : Outcome (ℤ × File × File × S) → File → S → File → File → S → Type 0
  Fails o stream s stdout stream' s' =
      (source.zero_end ≡ false)
      × (rest stream s ≡ [])
      × (stream'.error_indicator ≡ true)
      × (o ≡ ok (eof, stream', stdout, s'))

  abbrev pub Next : Outcome (ℤ × File × File × S) → File → S → File → Type 0
  Next o stream s stdout =
      (stream' : File) × (s' : S) × (stream'.fd ≡ stream.fd)
      × (Goes o stream s stdout stream' s' ⊎ Fails o stream s stdout stream' s')

taken :
    (stream : File)
    → stream.bm < stream.bs
    → stream.bs ≤ length stream.buf
    → (c : ℕ) × (get_elem? stream.buf stream.bm ≡ some c)
      × (buffered stream ≡ c ∷ buffered (record stream { bm = stream.bm + 1 }))
taken stream l f =
    let (c, e, d) = drop-elem stream.bm stream.buf (omega arith) in
    let more : stream.bs - stream.bm ≡ suc (stream.bs - (stream.bm + 1)) = omega arith in
    let at : stream.bm + 1 ≡ suc stream.bm = omega arith in (c, e, rw (more, d, at) refl)

-- An empty buffer.
used : (stream : File) → stream.bs ≤ stream.bm → buffered stream ≡ []
used stream l = let none_left : stream.bs - stream.bm ≡ 0 = omega arith in rw none_left refl

abbrev filled : List ℕ → File → File
filled bytes stream = record stream { bm = 0; bs = length bytes; buf = fill bytes stream.buf }

module _ {S : Type 0} (api : FileApi S) (fd : ℕ) (source : Source api fd) where
  from_buffer-Next :
      (stream stdout : File) (s : S)
      → IsReading source.zero_end stream (source.left s)
      → stream.bufinput ≡ true
      → stream.eof_indicator ≡ false
      → stream.bm < stream.bs
      → Next api fd source (from_buffer api stream stdout s) stream s stdout
  from_buffer-Next stream stdout s r b n l =
      let (c, e, d) = taken stream l r.fits in
      let stream' = record stream { bm = stream.bm + 1 } in
      (
        stream',
        s,
        refl,
        inl (
          record {
            file = r.file;
            no_error = r.no_error;
            no_ungotten = r.no_ungotten;
            room = r.room;
            within = omega arith;
            fits = r.fits;
            turned = λ t. absurd (ground arith);
            at_end = λ t. absurd (ground arith);
          },
          inr (c, rw d refl, rw (from_buffer, e) refl),
        ),
      )

  refill-end :
      (stream stdout : File) (s s' : S)
      → api.read stream.fd stream.buflen s ≡ (some [], s')
      → refill api stream stdout s ≡ ok (eof, record stream { eof_indicator = true }, stdout, s')
  unfolding refill
  refill-end stream stdout s s' e = rw (refill, e, ap (λ p. p.1) e) refl

  refill-fails :
      (stream stdout : File) (s s' : S)
      → api.read stream.fd stream.buflen s ≡ (none, s')
      → refill api stream stdout s ≡ ok (eof, record stream { error_indicator = true }, stdout, s')
  unfolding refill
  refill-fails stream stdout s s' e = rw (refill, e, ap (λ p. p.1) e) refl

  refill-more :
      (stream stdout : File) (x : ℕ) (more : List ℕ) (s s' : S)
      → api.read stream.fd stream.buflen s ≡ (some (x ∷ more), s')
      → refill api stream stdout s ≡ from_buffer api (filled (x ∷ more) stream) stdout s'
  unfolding refill
  refill-more stream stdout x more s s' e = rw (refill, e, ap (λ p. p.1) e) refl

  filled-IsReading :
      (bytes : List ℕ) (stream : File) (left left' : List ℕ)
      → IsReading source.zero_end stream left
      → stream.bufinput ≡ true
      → stream.eof_indicator ≡ false
      → IsReading source.zero_end (filled bytes stream) left'
  filled-IsReading bytes stream left left' r b n = record {
    file = r.file;
    no_error = r.no_error;
    no_ungotten = r.no_ungotten;
    room = r.room;
    within = omega arith;
    fits = let l = length-append bytes (drop (length bytes) stream.buf) in omega arith;
    turned = λ t. absurd (ground arith);
    at_end = λ t. absurd (ground arith);
  }

  buffered-filled : (bytes : List ℕ) (stream : File) → buffered (filled bytes stream) ≡ bytes
  buffered-filled bytes stream =
      let whole : length bytes - 0 ≡ length bytes = omega arith in
      rw whole (take-append_length bytes (drop (length bytes) stream.buf))

  -- From one state of the stream to another that has the same to come.
  Next-from :
      (o o' : Outcome (ℤ × File × File × S)) (a b stdout : File) (s s' : S)
      → rest api fd source a s ≡ rest api fd source b s'
      → b.fd ≡ a.fd
      → o ≡ o'
      → Next api fd source o' b s' stdout
      → Next api fd source o a s stdout
  Next-from o o' a b stdout s s' h f e (stream, last, g, c) = (stream, last, g ∙ f, rw (h, e) c)

  refill-cases :
      (answer : Option (List ℕ)) (stream stdout : File) (s s' : S)
      → IsReading source.zero_end stream (source.left s)
      → stream.bufinput ≡ true
      → stream.eof_indicator ≡ false
      → stream.bs ≤ stream.bm
      → api.read stream.fd stream.buflen s ≡ (answer, s')
      → Answers source.zero_end (source.left s) (source.left s') stream.buflen answer
      → Next api fd source (refill api stream stdout s) stream s stdout
  refill-cases none stream stdout s s' r b n l e k = (
    record stream { error_indicator = true },
    s',
    refl,
    inr (k.2, rw (used stream l, k.0) refl, refl, refill-fails stream stdout s s' e),
  )
  refill-cases (some []) stream stdout s s' r b n l e k =
      let (now, by_zero) = k.2 refl in
      let none_left = sym k.1 ∙ now in
      let empty = used stream l in
      (
        record stream { eof_indicator = true },
        s',
        refl,
        inl (
          record {
            file = r.file;
            no_error = r.no_error;
            no_ungotten = r.no_ungotten;
            room = r.room;
            within = r.within;
            fits = r.fits;
            turned = r.turned;
            at_end = λ t. (by_zero, rw (empty, none_left) refl);
          },
          inl (
            by_zero,
            rw (empty, now) refl,
            rw (empty, none_left) refl,
            refill-end stream stdout s s' e,
          ),
        ),
      )
  refill-cases (some (x ∷ more)) stream stdout s s' r b n l e k =
      let new = filled (x ∷ more) stream in
      Next-from (refill api stream stdout s) (from_buffer api new stdout s') stream new stdout s s'
        (rw (used stream l, k.1, buffered-filled (x ∷ more) stream) refl) refl
        (refill-more stream stdout x more s s' e)
        (from_buffer-Next new stdout s'
          (filled-IsReading (x ∷ more) stream (source.left s) (source.left s') r b n) b n
          (omega arith))

  refill-Next :
      (stream stdout : File) (s : S)
      → IsReading source.zero_end stream (source.left s)
      → stream.fd ≡ fd
      → stream.bufinput ≡ true
      → stream.eof_indicator ≡ false
      → stream.bs ≤ stream.bm
      → Next api fd source (refill api stream stdout s) stream s stdout
  refill-Next stream stdout s r f b n l =
      let (answer, s', e, k) = source.read_left stream.buflen s r.room in
      let e' : api.read stream.fd stream.buflen s ≡ (answer, s') =
        ap (λ k. api.read k stream.buflen s) f ∙ e in
      refill-cases answer stream stdout s s' r b n l e' k

  fgetc-at_end :
      (stream stdout : File) (s : S)
      → stream.ungotten ≡ false
      → stream.eof_indicator ≡ true
      → fgetc api stream stdout s ≡ ok (eof, stream, stdout, s)
  unfolding fgetc
  fgetc-at_end stream stdout s u e = rw (fgetc, u, e) refl

  fgetc-reads :
      (stream stdout : File) (s : S)
      → IsReading source.zero_end stream (source.left s)
      → stream.eof_indicator ≡ false
      → fgetc api stream stdout s ≡ (
          if leb stream.bs stream.bm
          then refill api (input stream) stdout s
          else from_buffer api (input stream) stdout s)
  unfolding fgetc
  fgetc-reads stream stdout s r e =
      rw
        (
          fgetc,
          fflush4-input api source.zero_end stream stdout (source.left s) s r,
          r.no_ungotten,
          e,
        )
        refl

  -- `fgetc` gives the next character, or the end of the file: with the error flag, where `read` has a
  -- negative result there.
  pub fgetc-Next :
      (stream stdout : File) (s : S)
      → IsReading source.zero_end stream (source.left s)
      → stream.fd ≡ fd
      → Next api fd source (fgetc api stream stdout s) stream s stdout
  fgetc-Next stream stdout s r f =
      let r' = input-IsReading source.zero_end stream (source.left s) r in
      elim (Bool-cases stream.eof_indicator) [
        | inl e ↦ (
          stream,
          s,
          refl,
          inl (
            r,
            inl (
              (r.at_end e).0,
              (r.at_end e).1,
              (r.at_end e).1,
              fgetc-at_end stream stdout s r.no_ungotten e,
            ),
          ),
        )
        | inr e ↦ elim (Bool-cases (leb stream.bs stream.bm)) [
          | inl l ↦
              Next-from _ _ stream (input stream) stdout s s refl refl
                (fgetc-reads stream stdout s r e ∙ rw l refl)
                (refill-Next (input stream) stdout s r' f refl e (ground arith))
          | inr l ↦
              Next-from _ _ stream (input stream) stdout s s refl refl
                (fgetc-reads stream stdout s r e ∙ rw l refl)
                (from_buffer-Next (input stream) stdout s r' refl e (ground arith))
        ]
      ]
