-- ===== src/Shell/Split.antt =====
-- The arguments of a command line are its words.
use mikucos.Base.{
  ℕ, zero, suc, ◌≡◌, ◌≢◌, refl, sym, ap, ◌∙◌, true, false, ◌==◌, if◌then◌else◌, none, some, List,
  [], ◌∷◌, ◌++◌, arith, take, Bool-cases, inl, inr, ◌⊎◌,
}
use mathlib.Core.List.{append_assoc, append-nil}
use mikucos.Shell.{split_word, skip_spaces, next_argument, split_arguments}

abbrev flush : List ℕ → List (List ℕ) → List (List ℕ)
flush [] ws = ws
flush (c ∷ word) ws = (c ∷ word) ∷ ws

-- The words of a line, up to the end of the line, in one pass that collects the characters since the
-- last space.
unfoldable pub words : List ℕ → List ℕ → List (List ℕ)
words word [] = flush word []
words word (c ∷ line) =
    let next = words [] line in
    let longer = words (word ++ c ∷ []) line in
    if c == b'\n' then flush word [] else if c == b' ' then flush word next else longer

words-skip_spaces : (line : List ℕ) → words [] (skip_spaces line) ≡ words [] line
unfolding words skip_spaces
words-skip_spaces [] = refl
words-skip_spaces (c ∷ line) = ground (arith, words-skip_spaces line)

-- The words behind a word.
words_after : List ℕ → List (List ℕ)
words_after rest = elim (next_argument rest) [ none ↦ [] | some line ↦ words [] line ]

words_after-none : (rest : List ℕ) → next_argument rest ≡ none → words_after rest ≡ []
unfolding words_after
words_after-none rest e = rw (words_after, e) refl

words_after-some :
    (rest line : List ℕ) → next_argument rest ≡ some line → words_after rest ≡ words [] line
unfolding words_after
words_after-some rest line e = rw (words_after, e) refl

words_after-other : (c : ℕ) (rest : List ℕ) → (c == b' ') ≡ false → words_after (c ∷ rest) ≡ []
unfolding next_argument
words_after-other c rest e = words_after-none (c ∷ rest) (rw e refl)

words_after-space :
    (c : ℕ) (rest : List ℕ) → (c == b' ') ≡ true → words_after (c ∷ rest) ≡ words [] rest
unfolding next_argument
words_after-space c rest e =
    words_after-some (c ∷ rest) (skip_spaces rest) (rw e refl) ∙ words-skip_spaces rest

take-[] : (n : ℕ) → take {A = List ℕ} n [] ≡ []
take-[] zero = refl
take-[] (suc n) = refl

words-split_word :
    (word line : List ℕ)
    → words word line ≡ flush (word ++ (split_word line).0) (words_after (split_word line).1)
unfolding words split_word words_after next_argument
words-split_word word [] = rw append-nil refl
words-split_word word (c ∷ line) = elim (Bool-cases (c == b'\n')) [
  | inl n ↦
      let space : (c == b' ') ≡ false = ground arith in
      rw (n, space, append-nil word) (ap (flush word) (sym (words_after-other c line space)))
  | inr n ↦ elim (Bool-cases (c == b' ')) [
    | inl s ↦ rw (n, s, append-nil) (ap (flush word) (sym (words_after-space c line s)))
    | inr s ↦
        rw (n, s)
          (words-split_word (word ++ c ∷ []) line
            ∙ ap (λ w. flush w (words_after (split_word line).1))
                (append_assoc word (c ∷ []) (split_word line).0))
  ]
]

unfoldable pub NoLeadingSpace : List ℕ → Type 0
NoLeadingSpace [] = Unit
NoLeadingSpace (c ∷ line) = c ≢ b' '

skip_spaces-NoLeadingSpace : (line : List ℕ) → NoLeadingSpace (skip_spaces line)
unfolding NoLeadingSpace skip_spaces
skip_spaces-NoLeadingSpace [] = tt
skip_spaces-NoLeadingSpace (c ∷ line) = elim (Bool-cases (c == b' ')) [
  | inl s ↦ rw s (skip_spaces-NoLeadingSpace line)
  | inr s ↦ rw s (ground arith)
]

next_argument-cases :
    (rest : List ℕ)
    → (next_argument rest ≡ none)
      ⊎ ((line : List ℕ) × (next_argument rest ≡ some line) × NoLeadingSpace line)
unfolding next_argument
next_argument-cases [] = inl refl
next_argument-cases (old ∷ rest) = elim (Bool-cases (old == b' ')) [
  | inl s ↦ rw s (inr (skip_spaces rest, refl, skip_spaces-NoLeadingSpace rest))
  | inr s ↦ rw s (inl refl)
]

more-words :
    (room : ℕ) (rest : List ℕ)
    → ((line : List ℕ)
        → NoLeadingSpace line
        → split_arguments room line ≡ take room (words [] line))
    → (elim (next_argument rest) as (λ o. List (List ℕ)) [
      | none ↦ []
      | some line ↦ split_arguments room line
    ])
      ≡ take room (words_after rest)
unfolding words_after
more-words room rest h = elim (next_argument-cases rest) [
  | inl e ↦ rw (words_after-none rest e, e) (sym (take-[] room))
  | inr (line, e, l) ↦ rw (words_after-some rest line e, e) (h line l)
]

arguments-words :
    (room : ℕ) (line : List ℕ)
    → NoLeadingSpace line
    → split_arguments room line ≡ take room (words [] line)
unfolding split_arguments words NoLeadingSpace
arguments-words zero line h = refl
arguments-words (suc room) [] h = refl
arguments-words (suc room) (c ∷ line) h =
    let space : (c == b' ') ≡ false = ground arith in
    elim (Bool-cases (c == b'\n')) [
      | inl n ↦ rw n refl
      | inr n ↦
          let first : split_word (c ∷ line) ≡ (c ∷ (split_word line).0, (split_word line).1) =
            unfold split_word in rw (n, space) refl in
          rw (words-split_word [] (c ∷ line), first, n)
            (ap (◌∷◌ (c ∷ (split_word line).0))
              (more-words room (split_word line).1 (arguments-words room)))
    ]

leading-space :
    (room c : ℕ) (line : List ℕ)
    → (c == b' ') ≡ true
    → split_arguments (suc room) (c ∷ line) ≡ [] ∷ take room (words [] line)
unfolding split_arguments
leading-space room c line s =
    let n : (c == b'\n') ≡ false = ground arith in
    let first : split_word (c ∷ line) ≡ ([], c ∷ line) = unfold split_word in rw s refl in
    let behind = more-words room (c ∷ line) (arguments-words room) in
    rw (first, n) (ap (◌∷◌ []) (behind ∙ ap (take room) (words_after-space c line s)))

-- The loop of `shell_main` splits a line that is not empty into its words, up to the end of the line
-- and as many as there is room for. A space at the beginning counts as an argument of its own, the
-- empty string, before them.
pub split_arguments-words :
    (room c : ℕ) (line : List ℕ)
    → split_arguments (suc room) (c ∷ line) ≡ (
        if c == b' ' then [] ∷ take room (words [] line) else take (suc room) (words [] (c ∷ line)))
split_arguments-words room c line = elim (Bool-cases (c == b' ')) [
  | inl s ↦ rw s (leading-space room c line s)
  | inr s ↦ rw s (arguments-words (suc room) (c ∷ line) (unfold NoLeadingSpace in ground arith))
]
