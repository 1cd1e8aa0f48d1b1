-- ===== src/Vfs.antt =====
-- How a path becomes a file: `file_resolve_path` and `file_resolve_relative_path` of file.c, over
-- `read_dir` of file_api.c and the mount tree. What a filesystem does to enumerate a directory is an
-- operation on the position of the open directory. The memory of the nodes is left out; a path is the
-- list of its characters.
pub mod Walk
pub mod Mounts
pub mod Resolve
pub mod Path
use mikucos.Base.{
  ℕ, zero, suc, ◌-◌, Bool, true, false, ◌==◌, if◌then◌else◌, Option, none, some, List, [], ◌∷◌,
  ◌++◌, length, ltb, not, get_or,
}
use mikucos.Base.Int.{ℤ, pos, is_zero}
use mikucos.Base.Outcome.{Outcome, ok, panic, blocked, ◌>>=◌}
use mikucos.Avl.{Tree, avl_find}
use mikucos.CString.{strcmp}
use mikucos.Mount.{Fnode, MountedFilesystem, mounted_filesystem_avlmatch}

-- `fnode_t`: Fnode with the two bits of `flags`.
pub record Node : Type 0 where
  pub fnode : Fnode
  pub dirent_file : Bool
  pub dirent_dir : Bool

-- What a filesystem's `read_dir` hands out: the name, the file number and the two bits.
pub record Entry : Type 0 where
  pub name : List ℕ
  pub file_id : ℤ
  pub is_file : Bool
  pub is_dir : Bool

-- A filesystem's `read_dir`: on the directory and the position, an entry or -1, and the new position.
abbrev pub ReadDir : Type 0
ReadDir = Fnode → ℕ → Option Entry × ℕ

-- `fnode->mounted` is that of the directory.
abbrev pub node_of : Fnode → Entry → Node
node_of dir e = record {
  fnode = record { mounted = dir.mounted; file_id = e.file_id };
  dirent_file = e.is_file;
  dirent_dir = e.is_dir;
}

-- `while(*pend != '/' && *pend != 0)`: `pname`, and the characters from `pend` on.
unfoldable pub path_component : List ℕ → List ℕ × List ℕ
path_component [] = ([], [])
path_component (c ∷ path) =
    let (pname, pend) = path_component path in
    if c == b'/' then ([], c ∷ path) else (c ∷ pname, pend)

module _ (read_dir_op : ReadDir) where
  unfoldable pub read_dir : Node → ℕ → Option (List ℕ × Node) × ℕ
  read_dir dir position =
      let (entry, position') = read_dir_op dir.fnode position in
      if dir.dirent_dir
      then (elim entry [ none ↦ none | some e ↦ some (e.name, node_of dir.fnode e) ], position')
      else (none, position)

  -- The loop over the directory, with a count of its rounds. A name that does not fit in the 256
  -- characters of `ename` has no final 0 there, which is a panic here.
  unfoldable pub find_entry : ℕ → List ℕ → Node → ℕ → Outcome (Option Node)
  find_entry zero pname dir position = blocked
  find_entry (suc rounds) pname dir position =
      let (found, position') = read_dir dir position in
      elim found [
        | none ↦ ok none
        | some (ename, node) ↦
            let next = find_entry rounds pname dir position' in
            if not (ltb (length ename) 256)
            then panic
            else if is_zero (strcmp pname ename)
            then ok (some node)
            else next
      ]

-- `mounts` is the tree `mount_tree`, and `root_of` gives the field `root` of a mounted filesystem.
module _ (mounts : Tree MountedFilesystem) (root_of : ℕ → Node) where
  -- A directory that a filesystem is mounted on stands for the root of the filesystem.
  unfoldable pub cross_mount : Node → Node
  cross_mount file = elim (avl_find mounted_filesystem_avlmatch file.fnode mounts) [
    | none ↦ file
    | some mount ↦ root_of mount.address
  ]

-- `free_fd` says that the process has a free descriptor: the one that is opened is closed again
-- before the next.
module _ (read_dir_op : ReadDir) (mounts : Tree MountedFilesystem) (root_of : ℕ → Node)
    (free_fd : Bool) where
  -- `pname` has 256 characters, the final 0 included; a longer name is written behind them, which is a
  -- panic here. `file_open_fnode` panics when no descriptor is free.
  unfoldable pub search_directory : ℕ → List ℕ → Node → Outcome (Option Node)
  search_directory rounds pname parent =
      if ltb (length pname) 256
      then (if free_fd then find_entry read_dir_op rounds pname parent 0 else panic)
      else panic

  -- With a count of the calls, and of the rounds in each.
  unfoldable pub file_resolve_relative_path : ℕ → ℕ → List ℕ → Node → Outcome (Option Node)
  file_resolve_relative_path zero rounds path parent = blocked
  file_resolve_relative_path (suc calls) rounds path parent = do
    let (pname, pend) = path_component path
    found ← search_directory rounds pname parent
    elim found [
      | none ↦ ok none
      | some file ↦ elim pend [
        | [] ↦ ok (some (if file.dirent_file then file else cross_mount mounts root_of file))
        | slash ∷ rest ↦
            let below =
              file_resolve_relative_path calls rounds rest (cross_mount mounts root_of file) in
            if file.dirent_file then ok none else below
      ]
    ]

  -- The current directory and the root of the process are arguments. A relative path is put behind
  -- the current directory, and resolved again. `buffer` has 512 characters, the final 0 included; what
  -- does not fit is written behind them, which is a panic here.
  unfoldable pub file_resolve_path : ℕ → ℕ → List ℕ → Node → List ℕ → Outcome (Option Node)
  file_resolve_path zero rounds cwd root path = blocked
  file_resolve_path (suc calls) rounds cwd root path =
      let buffer = cwd ++ (if get_or cwd (length cwd - 1) 0 == b'/' then path else b'/' ∷ path) in
      let resolved = file_resolve_path calls rounds cwd root buffer in
      let again = if ltb (length buffer) 512 then resolved else panic in
      elim path [
        | [] ↦ again
        | c ∷ rest ↦
            if is_zero (strcmp (c ∷ rest) (b'/' ∷ []))
            then ok (some root)
            else if c == b'/'
            then file_resolve_relative_path calls rounds rest root
            else again
      ]
