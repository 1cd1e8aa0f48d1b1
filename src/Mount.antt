-- ===== src/Mount.antt =====
-- The mount tree of filesystem.h: mounted filesystems, indexed by the directory that they cover.
pub mod Lost
use mikucos.Base.{ℕ, Bool, true, false, ◌==◌, ltb, if◌then◌else◌}
use mikucos.Base.Int.{ℤ, pos, negsuc, ltb_ℤ, eq_ℤ, is_zero}

-- Of a directory (`fnode_t`): the address of the mounted filesystem that it is in, and its number
-- there.
pub record Fnode : Type 0 where
  pub mounted : ℕ
  pub file_id : ℤ

-- A mounted filesystem: the directory that it covers, and the address of its own structure.
pub record MountedFilesystem : Type 0 where
  pub mountpoint : Fnode
  pub address : ℕ

-- The second test of each line is `<` again.
pub mounted_filesystem_avlcompare : MountedFilesystem → MountedFilesystem → ℤ
mounted_filesystem_avlcompare a b =
    let ka = a.mountpoint in
    let kb = b.mountpoint in
    let fs : ℤ =
      if ltb ka.mounted kb.mounted
      then negsuc 0
      else if ltb ka.mounted kb.mounted
      then pos 0
      else pos 1 in
    let id : ℤ =
      if ltb_ℤ ka.file_id kb.file_id
      then negsuc 0
      else if ltb_ℤ ka.file_id kb.file_id
      then pos 0
      else pos 1 in
    if is_zero fs then id else fs

unfoldable pub mounted_filesystem_avlmatch : Fnode → MountedFilesystem → ℤ
mounted_filesystem_avlmatch k b =
    let kb = b.mountpoint in
    let fs : ℤ =
      if ltb k.mounted kb.mounted
      then negsuc 0
      else if k.mounted == kb.mounted
      then pos 0
      else pos 1 in
    let id : ℤ =
      if ltb_ℤ k.file_id kb.file_id
      then negsuc 0
      else if eq_ℤ k.file_id kb.file_id
      then pos 0
      else pos 1 in
    if is_zero fs then id else fs
