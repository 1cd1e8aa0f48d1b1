-- ===== src/Vfs/Mounts.antt =====
-- The search of the mount tree in `file_resolve_relative_path`.
use mikucos.Base.{
  ℕ, ◌≡◌, refl, sym, ap, ◌∙◌, Bool, true, false, ◌||◌, ◌&&◌, ◌==◌, ltb, if◌then◌else◌, none, some,
  List, [], ◌∷◌, arith,
}
use mikucos.Base.Int.{ℤ, pos, negsuc, ltb_ℤ, is_zero}
use mikucos.Avl.{Tree}
use mikucos.Avl.Order.{to_list, Sorted}
use mikucos.Avl.Find.{IsPlaced, first_equal, avl_find-first}
use mikucos.Mount.{Fnode, MountedFilesystem, mounted_filesystem_avlmatch}
use mikucos.Vfs.{Node, cross_mount}
use mikucos.Vfs.Walk.{same_directory, mounted_on, entered}

-- Directories in the order of their filesystems, and of their numbers in one filesystem.
abbrev pub before : Fnode → Fnode → Bool
before a b = ltb a.mounted b.mounted || ((a.mounted == b.mounted) && ltb_ℤ a.file_id b.file_id)

abbrev place_of : Fnode → Fnode → ℤ
place_of a b = if before a b then negsuc 0 else if same_directory a b then pos 0 else pos 1

-- Mounted filesystems in the order of the directories that they cover.
unfoldable pub place : MountedFilesystem → MountedFilesystem → ℤ
place a b = place_of a.mountpoint b.mountpoint

match-place_of :
    (key : Fnode) (m : MountedFilesystem)
    → mounted_filesystem_avlmatch key m ≡ place_of key m.mountpoint
unfolding mounted_filesystem_avlmatch
match-place_of key m = ground arith

in_front : (a b c : Fnode) → before a b ≡ true → before b c ≡ true → before a c ≡ true
in_front a b c h k = ground arith

behind :
    (a b c : Fnode) → before a b ≡ false → before c b ≡ true → ltb_ℤ (pos 0) (place_of a c) ≡ true
behind a b c h k = ground arith

place_of-sign :
    (a b : Fnode)
    → (ltb_ℤ (place_of a b) (pos 0) ≡ before a b) × (is_zero (place_of a b) ≡ same_directory a b)
place_of-sign a b = (ground arith, ground arith)

match-IsPlaced : (key : Fnode) → IsPlaced place (mounted_filesystem_avlmatch key)
unfolding place
match-IsPlaced key = record {
  in_front = λ x y h k.
      let a = x.mountpoint in
      let b = y.mountpoint in
      let first : before key a ≡ true =
        sym (place_of-sign key a).0 ∙ sym (ap (λ z. ltb_ℤ z (pos 0)) (match-place_of key x)) ∙ h in
      ap (λ z. ltb_ℤ z (pos 0)) (match-place_of key y)
      ∙ (place_of-sign key b).0
      ∙ in_front key a b first (sym (place_of-sign a b).0 ∙ k);
  behind = λ x y h k.
      let a = x.mountpoint in
      let b = y.mountpoint in
      let first : before key a ≡ false =
        sym (place_of-sign key a).0 ∙ sym (ap (λ z. ltb_ℤ z (pos 0)) (match-place_of key x)) ∙ h in
      ap (λ z. ltb_ℤ (pos 0) z) (match-place_of key y)
      ∙ behind key a b first (sym (place_of-sign b a).0 ∙ k);
}

first_equal-mounted_on :
    (key : Fnode) (mounts : List MountedFilesystem)
    → first_equal (mounted_filesystem_avlmatch key) mounts ≡ mounted_on mounts key
unfolding first_equal mounted_on
first_equal-mounted_on key [] = refl
first_equal-mounted_on key (m ∷ mounts) =
    rw (match-place_of key m, (place_of-sign key m.mountpoint).1, first_equal-mounted_on key mounts)
      refl

-- With the mounts in order, the search of the tree finds the filesystem that covers the directory.
pub cross_mount-entered :
    (mounts : Tree MountedFilesystem) (root_of : ℕ → Node)
    → Sorted place (to_list mounts)
    → (f : Node) → cross_mount mounts root_of f ≡ entered (to_list mounts) root_of f
unfolding cross_mount entered
cross_mount-entered mounts root_of sorted f =
    ap (λ o. elim o as (λ o. Node) [ none ↦ f | some mount ↦ root_of mount.address ])
      (avl_find-first place mounted_filesystem_avlmatch f.fnode (match-IsPlaced f.fnode) mounts
          sorted
        ∙ first_equal-mounted_on f.fnode (to_list mounts))
