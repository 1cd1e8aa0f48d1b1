-- ===== src/Shell/Directory.antt =====
-- `builtin_cd` of shell_builtins.c, which changes the current directory of the process.
use mikucos.Base.{
  ℕ, ◌≡◌, refl, ◌⊎◌, inl, inr, Bool, true, false, ◌==◌, if◌then◌else◌, Option, none, some, List, [],
  ◌∷◌, ◌++◌, Bool-cases,
}
use mikucos.Base.Int.{ℤ, pos, is_zero}
use mikucos.Base.Outcome.{Outcome, ok, panic, ◌>>=◌}
use mikucos.CString.{strcmp}
use mikucos.PathName.{file_path_dirname}
use mikucos.Vfs.{Node}

abbrev pub slash : List ℕ
slash = b'/' ∷ []

abbrev dot_dot : List ℕ
dot_dot = b'.' ∷ b'.' ∷ []

abbrev is_absolute : List ℕ → Bool
is_absolute [] = false
is_absolute (c ∷ path) = c == b'/'

-- `newcwd`: the path itself, or the path behind `oldcwd`.
unfoldable pub new_directory : List ℕ → List ℕ → List ℕ
new_directory oldcwd nwd =
    if is_absolute nwd
    then nwd
    else oldcwd ++ (if is_zero (strcmp oldcwd slash) then nwd else b'/' ∷ nwd)

-- `resolve` is `file_resolve_path` in the current directory.
module _ (resolve : List ℕ → Outcome (Option Node)) where
  -- From `// relative paths` on: the new directory is `nwd`, behind `oldcwd` unless it begins with a
  -- slash. What is returned, and the current directory.
  unfoldable pub enter_directory : List ℕ → List ℕ → Outcome (ℤ × List ℕ)
  enter_directory oldcwd nwd = do
    fnode ← resolve (new_directory oldcwd nwd)
    elim fnode [
      | none ↦ ok (pos 1, oldcwd)
      | some node ↦
          ok (if node.dirent_dir then (pos 0, new_directory oldcwd nwd) else (pos 1, oldcwd))
    ]

  -- On the arguments behind the name. The directory above is a null pointer where `oldcwd` has no
  -- slash.
  unfoldable pub builtin_cd : List ℕ → List (List ℕ) → Outcome (ℤ × List ℕ)
  builtin_cd oldcwd [] = ok (pos 0, slash)
  builtin_cd oldcwd (nwd ∷ rest) =
      let up = elim (file_path_dirname oldcwd) as (λ o. Outcome (ℤ × List ℕ)) [
        | none ↦ panic
        | some [] ↦ enter_directory oldcwd slash
        | some (c ∷ dir) ↦ enter_directory oldcwd (c ∷ dir)
      ] in
      if is_zero (strcmp nwd dot_dot)
      then (if is_zero (strcmp oldcwd slash) then ok (pos 0, oldcwd) else up)
      else enter_directory oldcwd nwd

-- How a change of directory ends: with an error and in the old directory, or in the root, or in a
-- directory that `resolve` finds.
pub record IsCd (resolve : List ℕ → Outcome (Option Node)) (oldcwd : List ℕ) (status : ℤ)
    (cwd : List ℕ) : Type 0 where
  pub below : List ℕ
  pub from_root : cwd ≡ b'/' ∷ below
  pub outcome :
      ((status ≡ pos 1) × (cwd ≡ oldcwd))
      ⊎ ((status ≡ pos 0)
          × ((cwd ≡ slash)
              ⊎ ((node : Node) × (resolve cwd ≡ ok (some node)) × (node.dirent_dir ≡ true))))

-- The directory above, as `builtin_cd` names it.
abbrev above : Option (List ℕ) → List ℕ
above none = slash
above (some []) = slash
above (some (c ∷ dir)) = c ∷ dir

-- The path that a change of directory resolves.
unfoldable pub tried : List ℕ → List (List ℕ) → List ℕ
tried oldcwd [] = slash
tried oldcwd (nwd ∷ rest) =
    new_directory oldcwd
      (if is_zero (strcmp nwd dot_dot) then above (file_path_dirname oldcwd) else nwd)

module _ (resolve : List ℕ → Outcome (Option Node)) where
  Resolves : List ℕ → Type 0
  Resolves path = (o : Option Node) × (resolve path ≡ ok o)

  entered :
      (dirs nwd below : List ℕ) (o : Option Node)
      → resolve (new_directory (b'/' ∷ dirs) nwd) ≡ ok o
      → new_directory (b'/' ∷ dirs) nwd ≡ b'/' ∷ below
      → (status : ℤ) × (cwd : List ℕ) × (enter_directory resolve (b'/' ∷ dirs) nwd
          ≡ ok (status, cwd))
        × IsCd resolve (b'/' ∷ dirs) status cwd
  unfolding enter_directory
  entered dirs nwd below none e a = (
    pos 1,
    b'/' ∷ dirs,
    rw e refl,
    record { below = dirs; from_root = refl; outcome = inl (refl, refl) },
  )
  entered dirs nwd below (some node) e a = elim (Bool-cases node.dirent_dir) [
    | inl d ↦ (
      pos 0,
      new_directory (b'/' ∷ dirs) nwd,
      rw (e, d) refl,
      record { below = below; from_root = a; outcome = inr (refl, inr (node, e, d)) },
    )
    | inr d ↦ (
      pos 1,
      b'/' ∷ dirs,
      rw (e, d) refl,
      record { below = dirs; from_root = refl; outcome = inl (refl, refl) },
    )
  ]

  Done : List ℕ → Outcome (ℤ × List ℕ) → Type 0
  Done dirs result =
      (status : ℤ) × (cwd : List ℕ) × (result ≡ ok (status, cwd))
      × IsCd resolve (b'/' ∷ dirs) status cwd
