-- ===== src/Tar/Find.antt =====
-- The search of a file finds the first one with its name.
use mikucos.Base.{
  ℕ, zero, suc, ◌+◌, ◌≤◌, ◌<◌, ◌≡◌, refl, Bool, true, false, ◌==◌, Option, none, some, List, [],
  ◌∷◌, ◌++◌, if◌then◌else◌, arith, length, length-append, get_elem?, Bool-cases, inl, inr,
}
use mathlib.Core.List.{append_assoc}
use mikucos.Base.Int.{pos, ◌+ℤ◌, is_zero}
use mikucos.Base.Outcome.{ok}
use mikucos.CString.{strcmp}
use mikucos.Tar.{
  Block, tar_file_name, tar_file_blocks, tar_is_valid_file, tar_next_file, find_loop, tar_find_file,
}

-- A file of an archive: its header, and the blocks of its data, as many as the header says.
pub record TarFile : Type 0 where
  pub header : Block
  pub contents : List Block

abbrev pub has_zero : Block → Bool
has_zero [] = false
has_zero (c ∷ b) = let rest = has_zero b in if c == 0 then true else rest

pub record IsTarFile (f : TarFile) : Type 0 where
  pub valid : tar_is_valid_file f.header ≡ true
  pub ends : has_zero f.header ≡ true
  pub fits : tar_file_blocks f.header ≡ pos (length f.contents)

abbrev pub AllTarFiles : List TarFile → Type 0
AllTarFiles [] = Unit
AllTarFiles (f ∷ fs) = IsTarFile f × AllTarFiles fs

-- The blocks of some files, in front of the blocks behind them.
abbrev pub archive_of : List TarFile → List Block → List Block
archive_of [] rest = rest
archive_of (f ∷ fs) rest = f.header ∷ (f.contents ++ archive_of fs rest)

-- The index of the first header that has the name, for files whose blocks start at `i`.
abbrev pub first_named : ℕ → List TarFile → List ℕ → Option ℕ
first_named i [] name = none
first_named i (f ∷ fs) name =
    if is_zero (strcmp (tar_file_name f.header) name)
    then some i
    else first_named (i + suc (length f.contents)) fs name

pub get_elem?-middle :
    {A : Type 0} (p : List A) (x : A) (s : List A) → get_elem? (p ++ x ∷ s) (length p) ≡ some x
get_elem?-middle [] x s = refl
get_elem?-middle (y ∷ p) x s = get_elem?-middle p x s

pub next-fits :
    (f : TarFile) (i : ℕ)
    → IsTarFile f
    → tar_next_file f.header i ≡ some (i + suc (length f.contents))
unfolding tar_next_file ◌+ℤ◌
next-fits f i h = rw h.fits (ground arith)

find_loop-first :
    (fuel : ℕ) (front : List Block) (fs : List TarFile) (end : Block) (rest : List Block)
    (name : List ℕ)
    → length fs < fuel
    → AllTarFiles fs
    → tar_is_valid_file end ≡ false
    → find_loop fuel (front ++ archive_of fs (end ∷ rest)) (length front) name
      ≡ ok (first_named (length front) fs name)
unfolding find_loop
find_loop-first zero front fs end rest name l h e = absurd (omega arith)
find_loop-first (suc fuel) front [] end rest name l h e =
    rw (find_loop, get_elem?-middle front end rest, e)
find_loop-first (suc fuel) front (f ∷ fs) end rest name l (h, hs) e =
    let next = f.contents ++ archive_of fs (end ∷ rest) in
    rw (find_loop, get_elem?-middle front f.header next, h.valid)
      (elim (Bool-cases (is_zero (strcmp (tar_file_name f.header) name))) [
        | inl same ↦ rw same
        | inr other ↦
            rw (other, next-fits f (length front) h)
              (rw
                (
                  append_assoc front (f.header ∷ f.contents) (archive_of fs (end ∷ rest)),
                  length-append front (f.header ∷ f.contents),
                )
                at
                (find_loop-first fuel (front ++ f.header ∷ f.contents) fs end rest name
                  (omega arith) hs e))
      ])

length-archive_of :
    (fs : List TarFile) (rest : List Block) → length fs ≤ length (archive_of fs rest)
length-archive_of [] rest = omega arith
length-archive_of (f ∷ fs) rest =
    omega (arith, length-append f.contents (archive_of fs rest), length-archive_of fs rest)

-- An archive of files whose headers are valid and have a 0 in them, each with as many blocks of data as
-- its header says, and an invalid header behind them: `tar_find_file` returns the first file with the
-- name, and null when there is none. The name of a file is the string from the beginning of its
-- header to the first 0.
pub tar_find_file-first :
    (fs : List TarFile) (end : Block) (rest : List Block) (name : List ℕ)
    → AllTarFiles fs
    → tar_is_valid_file end ≡ false
    → tar_find_file (archive_of fs (end ∷ rest)) name ≡ ok (first_named 0 fs name)
unfolding tar_find_file
tar_find_file-first fs end rest name h e =
    find_loop-first (suc (length (archive_of fs (end ∷ rest)))) [] fs end rest name
      (omega (arith, length-archive_of fs (end ∷ rest))) h e
