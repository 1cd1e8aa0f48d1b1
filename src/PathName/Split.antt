-- ===== src/PathName/Split.antt =====
-- The two ways of file.c to split a path: at its last slash, and at its first.
use mikucos.Base.{
  ℕ, suc, ◌+◌, ◌≡◌, refl, ap, ◌∙◌, Option, none, some, false, List, [], ◌∷◌, ◌++◌, ◌==◌,
  if◌then◌else◌, length, length-append, get_or, take, drop, arith, Bool-cases, inl, inr,
}
use mikucos.PathName.{
  dirname_loop, file_path_dirname, filename_loop, file_path_filename, firstitem_loop,
  file_path_firstitem, file_path_dropfirst,
}

-- A single component of a path.
abbrev pub NoSlash : List ℕ → Type 0
NoSlash [] = Unit
NoSlash (c ∷ s) = ((c == b'/') ≡ false) × NoSlash s

abbrev pub unless_empty : List ℕ → Option (List ℕ)
unless_empty [] = none
unless_empty (c ∷ s) = some (c ∷ s)

module _ {ℓ} {A : Type ℓ} where
  take-append_length : (xs ys : List A) (n : ℕ) → n ≡ length xs → take n (xs ++ ys) ≡ xs
  take-append_length xs ys n e = rw e (go xs)
    where
      go : (xs : List A) → take (length xs) (xs ++ ys) ≡ xs
      go [] = refl
      go (x ∷ xs) = ap (◌∷◌ x) (go xs)

  drop-append_length : (xs ys : List A) → drop (length xs) (xs ++ ys) ≡ ys
  drop-append_length [] ys = refl
  drop-append_length (x ∷ xs) ys = drop-append_length xs ys

  get_or-append_length : (xs ys : List A) (y d : A) → get_or (xs ++ (y ∷ ys)) (length xs) d ≡ y
  get_or-append_length [] ys y d = refl
  get_or-append_length (x ∷ xs) ys y d = get_or-append_length xs ys y d

dirname_loop-NoSlash :
    (s : List ℕ) (p : ℕ) (last : Option ℕ) → NoSlash s → dirname_loop s p last ≡ last
unfolding dirname_loop
dirname_loop-NoSlash [] p last h = refl
dirname_loop-NoSlash (c ∷ s) p last h = rw h.0 (dirname_loop-NoSlash s (p + 1) last h.1)

dirname_loop-append :
    (a b : List ℕ) (p : ℕ) (last : Option ℕ)
    → NoSlash b
    → dirname_loop (a ++ (b'/' ∷ b)) p last ≡ some (p + length a)
unfolding dirname_loop
dirname_loop-append [] b p last h =
    dirname_loop-NoSlash b (p + 1) (some p) h ∙ ap some (omega arith)
dirname_loop-append (c ∷ a) b p last h = dirname_loop-append a b (p + 1) _ h ∙ ap some (omega arith)

filename_loop-NoSlash : (s : List ℕ) (p last : ℕ) → NoSlash s → filename_loop s p last ≡ last
unfolding filename_loop
filename_loop-NoSlash [] p last h = refl
filename_loop-NoSlash (c ∷ s) p last h = rw h.0 (filename_loop-NoSlash s (p + 1) last h.1)

filename_loop-append :
    (a b : List ℕ) (p last : ℕ) → NoSlash b → filename_loop (a ++ (b'/' ∷ b)) p last ≡ p + length a
unfolding filename_loop
filename_loop-append [] b p last h = filename_loop-NoSlash b (p + 1) p h ∙ omega arith
filename_loop-append (c ∷ a) b p last h = filename_loop-append a b (p + 1) _ h ∙ omega arith

firstitem_loop-NoSlash : (s : List ℕ) (p : ℕ) → NoSlash s → firstitem_loop s p ≡ p + length s
unfolding firstitem_loop
firstitem_loop-NoSlash [] p h = omega arith
firstitem_loop-NoSlash (c ∷ s) p h = rw h.0 (firstitem_loop-NoSlash s (p + 1) h.1 ∙ omega arith)

firstitem_loop-append :
    (a b : List ℕ) (p : ℕ) → NoSlash a → firstitem_loop (a ++ (b'/' ∷ b)) p ≡ p + length a
unfolding firstitem_loop
firstitem_loop-append [] b p h = omega arith
firstitem_loop-append (c ∷ a) b p h = rw h.0 (firstitem_loop-append a b (p + 1) h.1 ∙ omega arith)

drop_all : (s : List ℕ) → drop (length s) s ≡ []
drop_all [] = refl
drop_all (c ∷ s) = drop_all s

take_all : (s : List ℕ) → take (length s) s ≡ s
take_all [] = refl
take_all (c ∷ s) = ap (◌∷◌ c) (take_all s)

get_or_past : (s : List ℕ) → get_or s (length s) 0 ≡ 0
get_or_past [] = refl
get_or_past (c ∷ s) = get_or_past s

drop-behind : (a b : List ℕ) (c : ℕ) → drop (length a + 1) (a ++ (c ∷ b)) ≡ b
drop-behind a b c = let e : length a + 1 ≡ suc (length a) = omega arith in rw e (go a b)
  where
    go : (a b : List ℕ) → drop (suc (length a)) (a ++ (c ∷ b)) ≡ b
    go [] b = refl
    go (x ∷ a) b = go a b

-- The first component and the rest: a path with a slash is split at the first one, and a path without
-- is its own first component, with nothing behind it.
pub firstitem-dropfirst :
    (a b : List ℕ)
    → NoSlash a
    → (file_path_firstitem (a ++ (b'/' ∷ b)) ≡ a)
      × (file_path_dropfirst (a ++ (b'/' ∷ b)) ≡ b)
      × (file_path_firstitem a ≡ a)
      × (file_path_dropfirst a ≡ [])
unfolding file_path_firstitem file_path_dropfirst
firstitem-dropfirst a b h = (
  rw split (take-append_length a (b'/' ∷ b) (length a) refl),
  rw (split, get_or-append_length a b b'/' 0) (drop-behind a b b'/'),
  rw whole (take_all a),
  rw (whole, get_or_past a) (drop_all a),
)
  where
    split : firstitem_loop (a ++ (b'/' ∷ b)) 0 ≡ length a
    split = firstitem_loop-append a b 0 h ∙ omega arith

    whole : firstitem_loop a 0 ≡ length a
    whole = firstitem_loop-NoSlash a 0 h ∙ omega arith

first_not_slash : (p : List ℕ) → NoSlash p → (get_or p 0 0 == b'/') ≡ false
first_not_slash [] h = refl
first_not_slash (c ∷ p) h = h.0

filename-NoSlash : (p : List ℕ) → NoSlash p → file_path_filename p ≡ unless_empty p
unfolding file_path_filename
filename-NoSlash [] h = refl
filename-NoSlash (c ∷ p) h = rw (filename_loop-NoSlash (c ∷ p) 0 0 h, h.0) (ground arith)

filename-append : (a b : List ℕ) → NoSlash b → file_path_filename (a ++ (b'/' ∷ b)) ≡ unless_empty b
unfolding file_path_filename
filename-append a b h =
    rw (last, get_or-append_length a b b'/' 0, length-append a (b'/' ∷ b), drop-behind a b b'/')
      (end b)
  where
    last : filename_loop (a ++ (b'/' ∷ b)) 0 0 ≡ length a
    last = filename_loop-append a b 0 0 h ∙ omega arith

    end :
        (b : List ℕ)
        → (if length a + 1 == length a + suc (length b) then none else some b) ≡ unless_empty b
    end [] = ground arith
    end (c ∷ b) = ground arith

-- The directory and the file name: a path with a slash is split at the last one, into what stands
-- before it and what stands behind, which is no file name if it is empty; a path without a slash has
-- no directory, and is its own file name unless it is empty.
pub dirname-filename :
    (a b : List ℕ)
    → NoSlash b
    → (file_path_dirname (a ++ (b'/' ∷ b)) ≡ some a)
      × (file_path_filename (a ++ (b'/' ∷ b)) ≡ unless_empty b)
      × (file_path_dirname b ≡ none)
      × (file_path_filename b ≡ unless_empty b)
unfolding file_path_dirname
dirname-filename a b h = (
  rw (dirname_loop-append a b 0 none h, file_path_dirname)
      (ap some (take-append_length a (b'/' ∷ b) (0 + length a) (omega arith))),
  filename-append a b h,
  rw (dirname_loop-NoSlash b 0 none h, file_path_dirname),
  filename-NoSlash b h,
)

dirname_loop-some : (path : List ℕ) (p l : ℕ) → (k : ℕ) × (dirname_loop path p (some l) ≡ some k)
unfolding dirname_loop
dirname_loop-some [] p l = (l, refl)
dirname_loop-some (c ∷ path) p l = elim (Bool-cases (c == b'/')) [
  | inl e ↦ rw e (dirname_loop-some path (p + 1) p)
  | inr e ↦ rw e (dirname_loop-some path (p + 1) l)
]

-- A path from the root has a directory above it.
pub dirname-absolute : (dirs : List ℕ) → (up : List ℕ) × (file_path_dirname (b'/' ∷ dirs) ≡ some up)
unfolding file_path_dirname dirname_loop
dirname-absolute dirs =
    let (k, e) = dirname_loop-some dirs 1 0 in
    (take k (b'/' ∷ dirs), rw (file_path_dirname, e) refl)
