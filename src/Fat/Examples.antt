-- ===== src/Fat/Examples.antt =====
-- A root directory in block 7: a volume label, a file `ab.c` in cluster 5 and a directory `d` in cluster
-- 6. The table begins in block 1, with one entry that is not 0.
use mikucos.Base.{
  ℕ, ◌+◌, ◌*◌, ◌/◌, ◌%◌, ◌≡◌, refl, arith, true, false, some, List, [], ◌∷◌, ◌++◌, map, ◌==◌,
  if◌then◌else◌, replicate,
}
use mikucos.Base.Int.{pos, negsuc}
use mikucos.Mount.{Fnode}
use mikucos.Vfs.Walk.{Enumerates}
use mikucos.Fat.{
  entry_of, dir_entries, string_of, entry_name, scan_page, scan_pages, fat_read_dir, FatPrivate,
  fat16_read_entry,
}
use mikucos.Fat.Listing.{visible, block_entries, fat_read_dir-Enumerates}
use mikucos.Fat.Table.{table_entry, IsCached, read_entry-table}

abbrev dir_entry : List ℕ → ℕ → ℕ → List ℕ
dir_entry name attribute cluster = name ++ attribute ∷ replicate 14 0 ++ cluster ∷ 0 ∷ replicate 4 0

abbrev root_block : List ℕ
root_block =
    dir_entry (b'v' ∷ replicate 10 b' ') 8 0
    ++ dir_entry (b'a' ∷ b'b' ∷ replicate 6 b' ' ++ b'c' ∷ b' ' ∷ b' ' ∷ []) 0 5
    ++ dir_entry (b'd' ∷ replicate 10 b' ') 16 6
    ++ replicate 416 0

abbrev disk : ℕ → List ℕ
disk block = if block == 7 then root_block else 1 ∷ 2 ∷ replicate 510 0

abbrev root : Fnode
root = record { mounted = 4096; file_id = pos 0 }

second : fat_read_dir disk 7 root 0 ≡ (
  some (record {
    name = b'a' ∷ b'b' ∷ b'.' ∷ b'c' ∷ [];
    file_id = pos 5;
    is_file = true;
    is_dir = false;
  }),
  1,
)
unfolding fat_read_dir scan_pages scan_page dir_entries entry_name string_of
second = refl

fat_read_dir-Enumerates_example :
    Enumerates (fat_read_dir disk 7) root 0 (map entry_of (visible (block_entries disk 32 7)))
fat_read_dir-Enumerates_example = fat_read_dir-Enumerates disk 7 root refl

abbrev private : FatPrivate
private = record { sectors_per_fat = 256; fat_start = 1; page = []; current_page = negsuc 0 }

read_entry-table_example :
    (this : FatPrivate) × (fat16_read_entry disk private 256
      ≡ some (table_entry disk 1 (256 * (256 / 256) + 256 % 256), this))
    × IsCached disk this
    × (this.fat_start ≡ 1)
    × (this.sectors_per_fat ≡ 256)
read_entry-table_example =
    read_entry-table disk private 256 (λ k e. absurd (ground arith)) (omega arith) (omega arith)
