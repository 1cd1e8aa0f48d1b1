-- ===== src/Vfs/Path.antt =====
-- `file_resolve_path`: from the current directory or from the root.
use mathlib.Core.Path.{transport}
use mikucos.Base.{
  ap, ◌∙◌, true, false, ltb, lt→ltb, ℕ, suc, ◌+◌, ◌-◌, ◌<◌, ◌≡◌, refl, ◌==◌, if◌then◌else◌, Option,
  none, some, List, [], ◌∷◌, ◌++◌, length, length-append, get_or, arith, Bool-cases, inl, inr,
}
use mikucos.Base.Outcome.{ok, panic}
use mikucos.Avl.{Tree}
use mikucos.Mount.{Fnode, MountedFilesystem}
use mikucos.Vfs.{Node, Entry, ReadDir, file_resolve_path}
use mikucos.CString.Compare.{same_name, strcmp-same_name}
use mikucos.Avl.Order.{to_list, Sorted}
use mikucos.Vfs.Walk.{Enumerates, AllFit, NamesFit, components, entered, walk}
use mikucos.Vfs.Mounts.{place, cross_mount-entered}
use mikucos.Vfs.Resolve.{resolve-walk}

unfoldable pub joined : List ℕ → List ℕ → List ℕ
joined cwd path = cwd ++ (if get_or cwd (length cwd - 1) 0 == b'/' then path else b'/' ∷ path)

-- The path from the root that a path stands for in the current directory `cwd`.
unfoldable pub absolute : List ℕ → List ℕ → List ℕ
absolute cwd path = if get_or path 0 0 == b'/' then path else joined cwd path

absolute-slash :
    (cwd : List ℕ) (c : ℕ) (path : List ℕ)
    → (c == b'/') ≡ true
    → absolute cwd (c ∷ path) ≡ b'/' ∷ path
unfolding absolute
absolute-slash cwd c path e = let same : c ≡ b'/' = ground arith in rw e (ap (λ x. x ∷ path) same)

absolute-relative :
    (cwd : List ℕ) (path : List ℕ)
    → (get_or path 0 0 == b'/') ≡ false
    → absolute cwd path ≡ joined cwd path
unfolding absolute
absolute-relative cwd path e = rw e refl

-- The file at a path from the root: the root itself, or the end of the walk along its names.
unfoldable pub file_at : (Node → Node) → (Fnode → List Entry) → Node → List ℕ → Option Node
file_at enter entries root [] = none
file_at enter entries root (slash ∷ path) =
    if same_name (slash ∷ path) (b'/' ∷ [])
    then some root
    else walk enter entries (components path) root

module _ (op : ReadDir) (mounts : Tree MountedFilesystem) (root_of : ℕ → Node)
    (entries : Fnode → List Entry) (rounds : ℕ)
    (listed : (dir : Fnode)
      → Enumerates op dir 0 (entries dir)
        × (length (entries dir) < rounds)
        × NamesFit (entries dir))
    (sorted : Sorted place (to_list mounts)) where
  resolve-absolute :
      (calls : ℕ) (cwd : List ℕ) (root : Node) (path : List ℕ)
      → length path < calls
      → AllFit (components (b'/' ∷ path))
      → file_resolve_path op mounts root_of true (suc calls) rounds cwd root (b'/' ∷ path)
        ≡ ok (file_at (entered (to_list mounts) root_of) entries root (b'/' ∷ path))
  unfolding file_resolve_path file_at components
  resolve-absolute calls cwd root path h a =
      rw
        (
          strcmp-same_name (b'/' ∷ path) (b'/' ∷ []),
          resolve-walk op mounts root_of entries rounds listed (entered (to_list mounts) root_of)
              (cross_mount-entered mounts root_of sorted) calls path root h a.1,
        )
        (elim (Bool-cases (same_name (b'/' ∷ path) (b'/' ∷ []))) [
          | inl e ↦ rw e refl
          | inr e ↦ rw e refl
        ])

  resolve-joined :
      (calls : ℕ) (dirs : List ℕ) (root : Node) (rest : List ℕ)
      → length (dirs ++ rest) < calls
      → AllFit (components (b'/' ∷ (dirs ++ rest)))
      → length (b'/' ∷ (dirs ++ rest)) < 512
      → (if ltb (length (b'/' ∷ (dirs ++ rest))) 512
          then file_resolve_path op mounts root_of true
              (suc calls)
              rounds
              (b'/' ∷ dirs)
              root
              (b'/' ∷ (dirs ++ rest))
          else panic)
        ≡ ok (file_at (entered (to_list mounts) root_of) entries root (b'/' ∷ (dirs ++ rest)))
  resolve-joined calls dirs root rest h a room =
      let fits : ltb (length (b'/' ∷ (dirs ++ rest))) 512 ≡ true =
        lt→ltb (length (b'/' ∷ (dirs ++ rest))) 512 room in
      rw fits (resolve-absolute calls (b'/' ∷ dirs) root (dirs ++ rest) h a)

  resolve-relative :
      (calls : ℕ) (dirs : List ℕ) (root : Node) (path : List ℕ)
      → length dirs + length path + 1 < calls
      → AllFit (components (joined (b'/' ∷ dirs) path))
      → length (b'/' ∷ dirs) + length path < 511
      → (if ltb (length (joined (b'/' ∷ dirs) path)) 512
          then file_resolve_path op mounts root_of true
              (suc calls)
              rounds
              (b'/' ∷ dirs)
              root
              (joined (b'/' ∷ dirs) path)
          else panic)
        ≡ ok (file_at (entered (to_list mounts) root_of) entries root (joined (b'/' ∷ dirs) path))
  unfolding joined
  resolve-relative calls dirs root path h =
      elim (Bool-cases (get_or (b'/' ∷ dirs) (length (b'/' ∷ dirs) - 1) 0 == b'/')) [
        | inl e ↦ rw e (λ a room.
            let sum = length-append dirs path in
            resolve-joined calls dirs root path (omega arith) a (omega arith))
        | inr e ↦ rw e (λ a room.
            let sum = length-append dirs (b'/' ∷ path) in
            resolve-joined calls dirs root (b'/' ∷ path) (omega arith) a (omega arith))
      ]

  -- A path is resolved in a current directory that begins with a slash, with a free descriptor; the
  -- mounts are in the order of the directories that they cover, all names of both paths and of the
  -- directories have less than 256 characters, and the current directory and the path less than 511
  -- in all. The resolution ends, and gives the file at the path from the root that it stands for, or
  -- null; on the way, each directory that is covered is that of the filesystem mounted on it. The calls
  -- counted are more than the characters of both paths by three, and the rounds in each more than any
  -- directory has entries.
  pub file_resolve_path-file_at :
      (calls : ℕ) (dirs : List ℕ) (root : Node) (path : List ℕ)
      → length dirs + length path + 1 < calls
      → AllFit (components (absolute (b'/' ∷ dirs) path))
      → length (b'/' ∷ dirs) + length path < 511
      → file_resolve_path op mounts root_of true (suc (suc calls)) rounds (b'/' ∷ dirs) root path
        ≡ ok (file_at (entered (to_list mounts) root_of) entries root (absolute (b'/' ∷ dirs) path))
  unfolding file_resolve_path joined same_name
  file_resolve_path-file_at calls dirs root [] h a room =
      let ab = absolute-relative (b'/' ∷ dirs) [] refl in
      rw ab (
        resolve-relative calls dirs root [] h (transport (ap (λ p. AllFit (components p)) ab) a)
          room)
  file_resolve_path-file_at calls dirs root (c ∷ path) h a room = elim (Bool-cases (c == b'/')) [
    | inl e ↦
        let same : c ≡ b'/' = ground arith in
        let ab = absolute-slash (b'/' ∷ dirs) c path e in
        let a' = transport (ap (λ p. AllFit (components p)) ab) a in
        rw ab (
          ap
            (λ x.
              file_resolve_path op mounts root_of true (suc (suc calls)) rounds (b'/' ∷ dirs) root
                (x ∷ path))
            same
          ∙ resolve-absolute (suc calls) (b'/' ∷ dirs) root path (omega arith) a')
    | inr e ↦
        let ab = absolute-relative (b'/' ∷ dirs) (c ∷ path) e in
        let a' = transport (ap (λ p. AllFit (components p)) ab) a in
        rw (ab, strcmp-same_name (c ∷ path) (b'/' ∷ []), same_name, e)
          (resolve-relative calls dirs root (c ∷ path) h a' room)
  ]
