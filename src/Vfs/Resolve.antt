-- ===== src/Vfs/Resolve.antt =====
-- `file_resolve_relative_path` does the walk.
use mathlib.Core.Path.{transport}
use mikucos.Base.{
  ℕ, zero, suc, ◌<◌, ◌≤◌, ◌≡◌, refl, sym, ap, ◌∙◌, Bool, true, false, ◌==◌, if◌then◌else◌, Option,
  none, some, List, [], ◌∷◌, length, ltb, lt→ltb, not, arith, Bool-cases, inl, inr,
}
use mikucos.Base.Outcome.{Outcome, ok}
use mikucos.Avl.{Tree}
use mikucos.Mount.{Fnode, MountedFilesystem}
use mikucos.Vfs.{
  Node, Entry, ReadDir, node_of, path_component, read_dir, find_entry, cross_mount,
  search_directory, file_resolve_relative_path,
}
use mikucos.CString.Compare.{same_name, strcmp-same_name}
use mikucos.Vfs.Walk.{Enumerates, push, components, first_named, child, AllFit, NamesFit, walk}

behind : List ℕ → List (List ℕ)
behind [] = []
behind (slash ∷ rest) = components rest

components-path_component :
    (path : List ℕ) → components path ≡ (path_component path).0 ∷ behind (path_component path).1
unfolding components path_component behind
components-path_component [] = refl
components-path_component (c ∷ path) = elim (Bool-cases (c == b'/')) [
  | inl e ↦ rw e refl
  | inr e ↦ rw e (ap (push c) (components-path_component path))
]

behind-length : (path : List ℕ) → length (path_component path).1 ≤ length path
unfolding path_component
behind-length [] = omega arith
behind-length (c ∷ path) = ground (arith, behind-length path)

if-ok {ℓ} : {A : Type ℓ} (b : Bool) (x y : A) → (if b then ok x else ok y) ≡ ok (if b then x else y)
if-ok true x y = refl
if-ok false x y = refl

child-dir :
    (entries : Fnode → List Entry) (name : List ℕ) (dir : Node)
    → dir.dirent_dir ≡ true
    → child entries name dir ≡ (elim (first_named name (entries dir.fnode)) as (λ o. Option Node) [
      | none ↦ none
      | some e ↦ some (node_of dir.fnode e)
    ])
unfolding child
child-dir entries name dir d = rw d refl

child-no_dir :
    (entries : Fnode → List Entry) (name : List ℕ) (dir : Node)
    → dir.dirent_dir ≡ false
    → child entries name dir ≡ none
unfolding child
child-no_dir entries name dir d = rw d refl

module _ (enter : Node → Node) (entries : Fnode → List Entry) where
  walk-next :
      (name : List ℕ) (dir f : Node) (next : List ℕ) (names : List (List ℕ))
      → child entries name dir ≡ some f
      → walk enter entries (name ∷ next ∷ names) dir
        ≡ (if f.dirent_file then none else walk enter entries (next ∷ names) (enter f))
  unfolding walk
  walk-next name dir f next names e = rw (walk, e) refl

  walk-more :
      (name : List ℕ) (dir f : Node) (names : List (List ℕ)) (next : List ℕ) (more : List (List ℕ))
      → child entries name dir ≡ some f
      → names ≡ next ∷ more
      → walk enter entries (name ∷ names) dir
        ≡ (if f.dirent_file then none else walk enter entries names (enter f))
  walk-more name dir f names next more e c = rw c (walk-next name dir f next more e)

module _ (op : ReadDir) where
  read_dir-none : (dir : Node) (p : ℕ) → (op dir.fnode p).0 ≡ none → (read_dir op dir p).0 ≡ none
  unfolding read_dir
  read_dir-none dir p e = elim (Bool-cases dir.dirent_dir) [
    | inl d ↦ rw (d, e) refl
    | inr d ↦ rw d refl
  ]

  read_dir-some :
      (dir : Node) (p : ℕ) (entry : Entry)
      → dir.dirent_dir ≡ true
      → (op dir.fnode p).0 ≡ some entry
      → read_dir op dir p ≡ (some (entry.name, node_of dir.fnode entry), (op dir.fnode p).1)
  unfolding read_dir
  read_dir-some dir p entry d e = rw (d, e) refl

  find_entry-none :
      (rounds : ℕ) (name : List ℕ) (dir : Node) (p : ℕ)
      → (read_dir op dir p).0 ≡ none
      → find_entry op (suc rounds) name dir p ≡ ok none
  unfolding find_entry
  find_entry-none rounds name dir p e = rw (find_entry, e) refl

  read_dir-no_dir : (dir : Node) (p : ℕ) → dir.dirent_dir ≡ false → (read_dir op dir p).0 ≡ none
  unfolding read_dir
  read_dir-no_dir dir p d = rw d refl

  find_entry-no_dir :
      (rounds : ℕ) (name : List ℕ) (dir : Node)
      → 0 < rounds
      → dir.dirent_dir ≡ false
      → find_entry op rounds name dir 0 ≡ ok none
  find_entry-no_dir zero name dir h d = absurd (omega arith)
  find_entry-no_dir (suc rounds) name dir h d =
      find_entry-none rounds name dir 0 (read_dir-no_dir dir 0 d)

  find_entry-some :
      (rounds : ℕ) (name ename : List ℕ) (dir node : Node) (p p' : ℕ)
      → length ename < 256
      → read_dir op dir p ≡ (some (ename, node), p')
      → find_entry op (suc rounds) name dir p
        ≡ (if same_name name ename then ok (some node) else find_entry op rounds name dir p')
  unfolding find_entry
  find_entry-some rounds name ename dir node p p' l e =
      let fits : not (ltb (length ename) 256) ≡ false = ground arith in
      let e0 : (read_dir op dir p).0 ≡ some (ename, node) = ap (λ x. x.0) e in
      let e1 : (read_dir op dir p).1 ≡ p' = ap (λ x. x.1) e in
      rw (find_entry, e0, e1, fits, strcmp-same_name name ename) refl

  find_entry-first :
      (rounds : ℕ) (name : List ℕ) (dir : Node) (p : ℕ) (es : List Entry)
      → Enumerates op dir.fnode p es
      → NamesFit es
      → length es < rounds
      → dir.dirent_dir ≡ true
      → find_entry op rounds name dir p
        ≡ ok (elim (first_named name es) as (λ o. Option Node) [
          | none ↦ none
          | some e ↦ some (node_of dir.fnode e)
        ])
  unfolding Enumerates find_entry read_dir first_named
  find_entry-first zero name dir p es h n l d = absurd (omega arith)
  find_entry-first (suc rounds) name dir p [] h n l d =
      find_entry-none rounds name dir p (read_dir-none dir p h)
  find_entry-first (suc rounds) name dir p (e ∷ es) h n l d =
      find_entry-some rounds name e.name dir (node_of dir.fnode e) p (op dir.fnode p).1 n.0
        (read_dir-some dir p e d h.0)
      ∙ (elim (Bool-cases (same_name name e.name)) [
        | inl s ↦ rw s refl
        | inr s ↦
            rw s (find_entry-first rounds name dir (op dir.fnode p).1 es h.1 n.1 (omega arith) d)
      ])

  module _ (mounts : Tree MountedFilesystem) (root_of : ℕ → Node) (entries : Fnode → List Entry)
      (rounds : ℕ)
      (listed : (dir : Fnode)
        → Enumerates op dir 0 (entries dir)
          × (length (entries dir) < rounds)
          × NamesFit (entries dir))
      (enter : Node → Node) (crossing : (f : Node) → cross_mount mounts root_of f ≡ enter f) where
    find_entry-child :
        (name : List ℕ) (dir : Node) → find_entry op rounds name dir 0 ≡ ok (child entries name dir)
    unfolding child
    find_entry-child name dir =
        let (h, l, n) = listed dir.fnode in
        elim (Bool-cases dir.dirent_dir) [
          | inl d ↦
              find_entry-first rounds name dir 0 (entries dir.fnode) h n l d
              ∙ ap ok (sym (child-dir entries name dir d))
          | inr d ↦
              find_entry-no_dir rounds name dir (omega arith) d
              ∙ ap ok (sym (child-no_dir entries name dir d))
        ]

    searched :
        (name : List ℕ) (dir : Node)
        → length name < 256
        → search_directory op mounts root_of true rounds name dir ≡ ok (child entries name dir)
    unfolding search_directory
    searched name dir l = rw (lt→ltb (length name) 256 l) (find_entry-child name dir)

    finish :
        (calls : ℕ) (name pend : List ℕ) (dir : Node) (o : Option Node)
        → AllFit (behind pend)
        → child entries name dir ≡ o
        → ((rest : List ℕ) (d : Node)
            → length rest < length pend
            → AllFit (components rest)
            → file_resolve_relative_path op mounts root_of true calls rounds rest d
              ≡ ok (walk enter entries (components rest) d))
        → (elim o as (λ o. Outcome (Option Node)) [
          | none ↦ ok none
          | some file ↦ elim pend as (λ x. Outcome (Option Node)) [
            | [] ↦ ok (some (if file.dirent_file then file else cross_mount mounts root_of file))
            | slash ∷ rest ↦
                if file.dirent_file
                then ok none
                else file_resolve_relative_path op mounts root_of true calls rounds rest
                    (cross_mount mounts root_of file)
          ]
        ])
          ≡ ok (walk enter entries (name ∷ behind pend) dir)
    unfolding walk behind
    finish calls name pend dir none a e ih = rw (walk, e) refl
    finish calls name [] dir (some f) a e ih = rw (walk, e, crossing f) refl
    finish calls name (slash ∷ rest) dir (some f) a e ih =
        let below = ih rest (enter f) (omega arith) a in
        let more =
          walk-more enter entries name dir f (components rest) (path_component rest).0
            (behind (path_component rest).1) e (components-path_component rest) in
        rw (crossing f, below, more)
          (if-ok f.dirent_file none (walk enter entries (components rest) (enter f)))

    -- The resolution ends, and finds what the walk along the names of the path finds: a count of calls
    -- above the length of the path is enough, if the rounds are more than any directory has entries.
    pub resolve-walk :
        (calls : ℕ) (path : List ℕ) (dir : Node)
        → length path < calls
        → AllFit (components path)
        → file_resolve_relative_path op mounts root_of true calls rounds path dir
          ≡ ok (walk enter entries (components path) dir)
    unfolding file_resolve_relative_path walk
    resolve-walk zero path dir h a = absurd (omega arith)
    resolve-walk (suc calls) path dir h a =
        let split = components-path_component path in
        let parts : AllFit ((path_component path).0 ∷ behind (path_component path).1) =
          transport (ap AllFit split) a in
        rw (searched (path_component path).0 dir parts.0, split)
          (finish calls (path_component path).0 (path_component path).1 dir
            (child entries (path_component path).0 dir) parts.1 refl
            (λ rest d l b. resolve-walk calls rest d (omega (arith, behind-length path)) b))
