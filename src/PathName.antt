-- ===== src/PathName.antt =====
-- The functions of file.c that take a path apart. A path is the list of its characters, without the
-- final 0, and a pointer into it is an index; each function copies its result into new memory.
pub mod Split
pub mod Examples
use mikucos.Base.{
  ℕ, ◌+◌, Option, none, some, List, [], ◌∷◌, ◌==◌, if◌then◌else◌, length, get_or, take, drop,
}

-- The loop of `file_path_dirname`: `p` walks to the end, `last` is the latest slash.
pub dirname_loop : List ℕ → ℕ → Option ℕ → Option ℕ
dirname_loop [] p last = last
dirname_loop (c ∷ s) p last = dirname_loop s (p + 1) (if c == b'/' then some p else last)

pub file_path_dirname : List ℕ → Option (List ℕ)
unfolding dirname_loop
file_path_dirname path = elim (dirname_loop path 0 none) [
  | none ↦ none
  | some last ↦ some (take last path)
]

-- The loop of `file_path_filename`, where `last` starts at the beginning of the path.
pub filename_loop : List ℕ → ℕ → ℕ → ℕ
filename_loop [] p last = last
filename_loop (c ∷ s) p last = filename_loop s (p + 1) (if c == b'/' then p else last)

pub file_path_filename : List ℕ → Option (List ℕ)
unfolding filename_loop
file_path_filename path =
    let last = filename_loop path 0 0 in
    let start : ℕ = if get_or path last 0 == b'/' then last + 1 else last in
    if start == length path then none else some (drop start path)

-- How far `while(*p && (*p != '/')) p++` walks.
pub firstitem_loop : List ℕ → ℕ → ℕ
firstitem_loop [] p = p
firstitem_loop (c ∷ s) p = let rest = firstitem_loop s (p + 1) in if c == b'/' then p else rest

pub file_path_firstitem : List ℕ → List ℕ
unfolding firstitem_loop
file_path_firstitem path = take (firstitem_loop path 0) path

pub file_path_dropfirst : List ℕ → List ℕ
unfolding firstitem_loop
file_path_dropfirst path =
    let p = firstitem_loop path 0 in
    if get_or path p 0 == b'/' then drop (p + 1) path else drop p path
