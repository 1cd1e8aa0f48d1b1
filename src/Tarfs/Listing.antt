-- ===== src/Tarfs/Listing.antt =====
-- The root directory of a mounted archive.
use mikucos.Base.{
  ℕ, suc, ◌+◌, ◌<◌, ◌≡◌, refl, sym, ap, ◌∙◌, true, false, Option, none, some, List, [], ◌∷◌, length,
  get_elem?, arith,
}
use mikucos.Base.Int.{pos, eq_ℤ}
use mikucos.Base.Outcome.{ok}
use mikucos.Mount.{Fnode}
use mikucos.Tar.{Block, tar_is_valid_file}
use mikucos.Tar.Find.{TarFile, AllTarFiles, archive_of}
use mikucos.Vfs.{Entry}
use mikucos.Vfs.Walk.{Enumerates}
use mikucos.Tarfs.{TarfsNode, tarfs_populate, find_node, tarfs_read_dir}
use mikucos.Tarfs.Populate.{numbered, populate-Found}

-- The entries of the nodes in order, numbered from `p + 1` on.
unfoldable pub entries_from : ℕ → List TarfsNode → List Entry
entries_from p [] = []
entries_from p (node ∷ nodes) =
    record { name = node.name; file_id = pos (p + 1); is_file = true; is_dir = false }
    ∷ entries_from (p + 1) nodes

read_dir-none :
    (files : List TarfsNode) (dir : Fnode) (p : ℕ)
    → find_node (pos (p + 1)) files ≡ none
    → (tarfs_read_dir files dir p).0 ≡ none
unfolding tarfs_read_dir
read_dir-none files dir p e = rw e (ground arith)

read_dir-some :
    (files : List TarfsNode) (dir : Fnode) (p : ℕ) (node : TarfsNode)
    → eq_ℤ dir.file_id (pos 0) ≡ true
    → find_node (pos (p + 1)) files ≡ some node
    → tarfs_read_dir files dir p ≡ (
      some (record { name = node.name; file_id = pos (p + 1); is_file = true; is_dir = false }),
      p + 1,
    )
unfolding tarfs_read_dir
read_dir-some files dir p node d e = rw (d, e) refl

shifted :
    (files : List TarfsNode) (p k : ℕ) (o : Option TarfsNode)
    → find_node (pos (p + suc k + 1)) files ≡ o
    → find_node (pos (p + 1 + k + 1)) files ≡ o
shifted files p k o e =
    let same : p + 1 + k + 1 ≡ p + suc k + 1 = omega arith in
    ap (λ n. find_node (pos n) files) same ∙ e

Enumerates-from :
    (files : List TarfsNode) (dir : Fnode) (p : ℕ) (nodes : List TarfsNode)
    → eq_ℤ dir.file_id (pos 0) ≡ true
    → ((k : ℕ) → find_node (pos (p + k + 1)) files ≡ get_elem? nodes k)
    → Enumerates (tarfs_read_dir files) dir p (entries_from p nodes)
unfolding Enumerates entries_from
Enumerates-from files dir p [] d h =
    let here : p + 0 + 1 ≡ p + 1 = omega arith in
    read_dir-none files dir p (ap (λ n. find_node (pos n) files) (sym here) ∙ h 0)
Enumerates-from files dir p (node ∷ nodes) d h =
    let here : p + 0 + 1 ≡ p + 1 = omega arith in
    let r = read_dir-some files dir p node d (ap (λ n. find_node (pos n) files) (sym here) ∙ h 0) in
    rw r (
      refl,
      Enumerates-from files dir (p + 1) nodes d
          (λ k. shifted files p k (get_elem? nodes k) (h (suc k))),
    )

-- The archive as a directory: `tarfs_populate` of an archive of at least one file, whose headers are
-- valid and have a 0 in them, each with as many blocks of data as its header says, and an invalid
-- header behind them, ends with more rounds than there are files. The calls of `tarfs_read_dir` on the root directory then give
-- the files outside subdirectories, in the order of the archive, numbered from 1 on, and then -1.
pub tarfs_populate-Enumerates :
    (fuel : ℕ) (f : TarFile) (fs : List TarFile) (end : Block) (rest : List Block) (root : Fnode)
    → length fs < fuel
    → AllTarFiles (f ∷ fs)
    → tar_is_valid_file end ≡ false
    → eq_ℤ root.file_id (pos 0) ≡ true
    → (files : List TarfsNode) × (tarfs_populate fuel (archive_of (f ∷ fs) (end ∷ rest)) ≡ ok files)
      × Enumerates (tarfs_read_dir files) root 0 (entries_from 0 (numbered 0 1 (f ∷ fs)))
tarfs_populate-Enumerates fuel f fs end rest root l h v d =
    let (files, r, found) = populate-Found fuel f fs end rest l h v in
    (
      files,
      r,
      Enumerates-from files root 0 (numbered 0 1 (f ∷ fs)) d
          (λ k. let z : 0 + k + 1 ≡ k + 1 = omega arith in rw z (found k)),
    )
