-- ===== src/Tarfs/Examples.antt =====
-- The archive of two files, `a` empty and `b` of 3 bytes.
use mikucos.Base.{◌≡◌, refl, arith, List, [], ◌∷◌}
use mikucos.Base.Int.{pos}
use mikucos.Base.Outcome.{ok}
use mikucos.Mount.{Fnode}
use mikucos.Tar.{tar_is_valid_file}
use mikucos.Tar.Find.{archive_of}
use mikucos.Tar.Examples.{file_a, file_b, files_IsTarFile, nothing}
use mikucos.CString.{strncmp}
use mikucos.Vfs.Walk.{Enumerates}
use mikucos.Tarfs.{TarfsNode, tarfs_populate, tarfs_read_dir}
use mikucos.Tarfs.Populate.{numbered}
use mikucos.Tarfs.Listing.{entries_from, tarfs_populate-Enumerates}

abbrev root : Fnode
root = record { mounted = 4096; file_id = pos 0 }

tarfs_populate-Enumerates_example :
    (files : List TarfsNode) × (tarfs_populate 2 (archive_of (file_a ∷ file_b ∷ []) (nothing ∷ []))
      ≡ ok files)
    × Enumerates
        (tarfs_read_dir files)
        root
        0
        (entries_from 0 (numbered 0 1 (file_a ∷ file_b ∷ [])))
unfolding tar_is_valid_file strncmp
tarfs_populate-Enumerates_example =
    tarfs_populate-Enumerates 2 file_a (file_b ∷ []) nothing [] root (omega arith)
      (files_IsTarFile.0, (files_IsTarFile.1, tt)) refl refl
