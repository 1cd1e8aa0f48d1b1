-- ===== src/Rootfs/Examples.antt =====
-- Paths in the root filesystem, with a filesystem mounted on "/System/tmp" and one on "/Users".
use mikucos.Base.{ℕ, ◌≡◌, refl, arith, true, false, some, ◌∷◌}
use mikucos.Base.Int.{pos}
use mikucos.Base.Outcome.{ok}
use mikucos.Avl.{Tree, null, node, avl_right, null_avl_node}
use mikucos.Avl.Order.{to_list}
use mikucos.CString.Compare.{same_name}
use mikucos.Mount.{MountedFilesystem}
use mikucos.Vfs.{Node, file_resolve_path}
use mikucos.Vfs.Walk.{components, walk, child, first_named, mounted_on, entered}
use mikucos.Vfs.Mounts.{place}
use mikucos.Vfs.Path.{joined, absolute, file_at, file_resolve_path-file_at}
use mikucos.Rootfs.{system, tmp, rootfs_read_dir}
use mikucos.Rootfs.Listing.{rootfs_entries, rootfs_read_dir-Enumerates}

abbrev directory_at : ℕ → ℕ → Node
directory_at mounted id = record {
  fnode = record { mounted = mounted; file_id = pos id };
  dirent_file = false;
  dirent_dir = true;
}

abbrev root : Node
root = directory_at 4096 0

abbrev on : ℕ → ℕ → MountedFilesystem
on id address = record {
  mountpoint = record { mounted = 4096; file_id = pos id };
  address = address;
}

abbrev mounts : Tree MountedFilesystem
mounts = node null (on 5 12288) avl_right (null_avl_node (on 102 8192))

-- The mounted filesystems have their roots at number 0.
abbrev root_of : ℕ → Node
root_of address = directory_at address 0

-- In "/System", the path "tmp".
file_resolve_path-file_at_example :
    file_resolve_path rootfs_read_dir mounts root_of true 13 6 (b'/' ∷ system) root tmp
    ≡ ok (
        file_at
          (entered (to_list mounts) root_of)
          rootfs_entries
          root
          (absolute (b'/' ∷ system) tmp))
unfolding place absolute joined components to_list
file_resolve_path-file_at_example =
    file_resolve_path-file_at rootfs_read_dir mounts root_of rootfs_entries 6
      rootfs_read_dir-Enumerates ((refl, tt), (tt, tt)) 11 system root tmp (omega arith)
      (omega arith, (omega arith, (omega arith, tt))) (omega arith)

is_mounted :
    file_at (entered (to_list mounts) root_of) rootfs_entries root (absolute (b'/' ∷ system) tmp)
    ≡ some (directory_at 8192 0)
unfolding file_at absolute joined same_name components walk child first_named rootfs_entries entered
    mounted_on to_list
is_mounted = refl
