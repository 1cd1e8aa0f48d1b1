-- ===== src/Mount/Lost.antt =====
-- What the comparison of mounts does to the mount tree.
use mikucos.Base.{◌≡◌, true, none, some, arith}
use mikucos.Base.Int.{pos, ltb_ℤ}
use mikucos.Avl.{
  Tree, avl_right, avl_balance, null, node, null_avl_node, avl_add, avl_find, after_right,
}
use mikucos.Mount.{MountedFilesystem, mounted_filesystem_avlcompare, mounted_filesystem_avlmatch}

-- Two directories of one filesystem are covered, first `a`, then `b` with a smaller file number:
-- `filesystem_mount` puts the second mount to the right of the first, where `file_resolve_relative_path`
-- never looks, so the second mount is not found; the first one still is.
pub second_mount_lost :
    (a b : MountedFilesystem)
    → a.mountpoint.mounted ≡ b.mountpoint.mounted
    → ltb_ℤ b.mountpoint.file_id a.mountpoint.file_id ≡ true
    → (t : Tree MountedFilesystem) × (avl_add mounted_filesystem_avlcompare b
          (null_avl_node b)
          (null_avl_node a)
        ≡ some (t, avl_balance))
      × (avl_find mounted_filesystem_avlmatch b.mountpoint t ≡ none)
      × (avl_find mounted_filesystem_avlmatch a.mountpoint t ≡ some a)
unfolding avl_add avl_find mounted_filesystem_avlcompare mounted_filesystem_avlmatch after_right
second_mount_lost a b e h =
    (node null a avl_right (null_avl_node b), ground arith, ground arith, ground arith)

-- The comparison of a mount with itself says that it is the greater one.
pub compare_self : (a : MountedFilesystem) → mounted_filesystem_avlcompare a a ≡ pos 1
unfolding mounted_filesystem_avlcompare
compare_self a = ground arith
