-- ===== src/Vfs/Walk.antt =====
-- The resolution of a path as a walk down the directories: the abstract view of file.c.
use mikucos.Base.{
  ℕ, ◌<◌, length, ◌≡◌, Bool, ◌&&◌, ◌==◌, if◌then◌else◌, Option, none, some, List, [], ◌∷◌,
}
use mikucos.Base.Int.{eq_ℤ}
use mikucos.Mount.{Fnode, MountedFilesystem}
use mikucos.CString.Compare.{same_name}
use mikucos.Vfs.{Node, Entry, ReadDir, node_of}

-- From the position `p` on, the calls of `read_dir` give these entries and then -1.
unfoldable pub Enumerates : ReadDir → Fnode → ℕ → List Entry → Type 0
Enumerates op dir p [] = (op dir p).0 ≡ none
Enumerates op dir p (e ∷ es) = ((op dir p).0 ≡ some e) × Enumerates op dir (op dir p).1 es

abbrev pub push : ℕ → List (List ℕ) → List (List ℕ)
push c [] = (c ∷ []) ∷ []
push c (name ∷ names) = (c ∷ name) ∷ names

-- The names between the slashes of a path.
unfoldable pub components : List ℕ → List (List ℕ)
components [] = [] ∷ []
components (c ∷ path) = let more = components path in if c == b'/' then [] ∷ more else push c more

unfoldable pub first_named : List ℕ → List Entry → Option Entry
first_named name [] = none
first_named name (e ∷ es) =
    let rest = first_named name es in if same_name name e.name then some e else rest

-- `entries` are those of each directory.
module _ (entries : Fnode → List Entry) where
  unfoldable pub child : List ℕ → Node → Option Node
  child name dir =
      if dir.dirent_dir
      then elim (first_named name (entries dir.fnode)) [
        | none ↦ none
        | some e ↦ some (node_of dir.fnode e)
      ]
      else none

-- What is mounted on a directory: the first of the mounted filesystems that covers it.
abbrev pub same_directory : Fnode → Fnode → Bool
same_directory a b = (a.mounted == b.mounted) && eq_ℤ a.file_id b.file_id

unfoldable pub mounted_on : List MountedFilesystem → Fnode → Option MountedFilesystem
mounted_on [] dir = none
mounted_on (m ∷ mounts) dir =
    let rest = mounted_on mounts dir in if same_directory dir m.mountpoint then some m else rest

-- A directory that a filesystem is mounted on stands for the root of the filesystem.
unfoldable pub entered : List MountedFilesystem → (ℕ → Node) → Node → Node
entered mounts root_of dir = elim (mounted_on mounts dir.fnode) [
  | none ↦ dir
  | some m ↦ root_of m.address
]

-- Every name fits in 256 characters, the final 0 included.
abbrev pub AllFit : List (List ℕ) → Type 0
AllFit [] = Unit
AllFit (name ∷ names) = (length name < 256) × AllFit names

abbrev pub NamesFit : List Entry → Type 0
NamesFit [] = Unit
NamesFit (e ∷ es) = (length e.name < 256) × NamesFit es

module _ (enter : Node → Node) (entries : Fnode → List Entry) where
  -- From directory to directory; a file can only be the last.
  unfoldable pub walk : List (List ℕ) → Node → Option Node
  walk [] dir = some dir
  walk (name ∷ names) dir = elim (child entries name dir) [
    | none ↦ none
    | some f ↦ elim names [
      | [] ↦ some (if f.dirent_file then f else enter f)
      | next ∷ more ↦ let below = walk names (enter f) in if f.dirent_file then none else below
    ]
  ]
