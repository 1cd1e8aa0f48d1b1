-- ===== src/Fat.antt =====
-- fat.c and fat_low.c: the root directory and the table of a FAT16 filesystem. `disk` gives the 512
-- bytes of a block, by its number: the device that `filesystem_read_blocks` reads from is a driver, and
-- its errors are not looked at. The assertion of `fat_read_dir` on the length of the buffer is left out.
pub mod Listing
pub mod Table
pub mod Init
pub mod Examples
use mikucos.Base.{
  ℕ, zero, suc, ◌+◌, ◌-◌, ◌*◌, ◌/◌, ◌%◌, ◌^◌, Bool, true, false, ◌||◌, not, Option, none, some,
  List, [], ◌∷◌, ◌++◌, map, ◌==◌, leb, if◌then◌else◌, take, drop, replicate, get_elem?, get_or,
}
use mikucos.Base.Int.{ℤ, pos, negsuc, ◌+ℤ◌, ◌-ℤ◌, eq_ℤ, wrap32}
use mikucos.Base.Outcome.{Outcome, ok, panic, ◌>>=◌}
use mikucos.Mount.{Fnode}
use mikucos.Vfs.{Entry}

-- Two bytes, the low one first.
abbrev pub u_int16 : List ℕ → ℕ → ℕ
u_int16 bytes i = get_or bytes i 0 + 256 * get_or bytes (i + 1) 0

-- A directory entry is its 32 bytes.
abbrev pub FatDirEntry : Type 0
FatDirEntry = List ℕ

-- The bit fields of `attribute`.
abbrev pub hidden : FatDirEntry → Bool
hidden e = (get_or e 11 0 / 2 % 2) == 1

abbrev pub volume_label : FatDirEntry → Bool
volume_label e = (get_or e 11 0 / 8 % 2) == 1

abbrev pub subdirectory : FatDirEntry → Bool
subdirectory e = (get_or e 11 0 / 16 % 2) == 1

abbrev pub first_cluster : FatDirEntry → ℕ
first_cluster e = u_int16 e 26

-- The 16 entries of a block.
unfoldable pub dir_entries : ℕ → List ℕ → List FatDirEntry
dir_entries zero block = []
dir_entries (suc n) block = take 32 block ∷ dir_entries n (drop 32 block)

-- The characters in front of the 0 that ends a string.
unfoldable pub string_of : List ℕ → List ℕ
string_of [] = []
string_of (c ∷ bytes) = let rest = string_of bytes in if c == 0 then [] else c ∷ rest

-- `strncpy`, and then the loop that puts 0 for each space.
abbrev pub copy_blanked : List ℕ → List ℕ
copy_blanked bytes = string_of (map (λ c. if c == b' ' then 0 else c) bytes)

unfoldable pub entry_name : FatDirEntry → List ℕ
entry_name e =
    let name = copy_blanked (take 8 e) in
    let ext = take 3 (drop 8 e) in
    if get_or ext 0 0 == b' ' then name else name ++ b'.' ∷ copy_blanked ext

abbrev pub entry_of : FatDirEntry → Entry
entry_of e = record {
  name = entry_name e;
  file_id = pos (first_cluster e);
  is_file = not (subdirectory e);
  is_dir = subdirectory e;
}

-- What the loop over a page does: it returns -1, returns an entry, or goes on with `p`.
pub data Scan : Type 0 where
  ended : Scan
  found : FatDirEntry → Scan
  passed : ℕ → Scan

unfoldable pub scan_page : List FatDirEntry → ℕ → Scan
scan_page [] p = passed p
scan_page (e ∷ dir) p =
    let skipped = scan_page dir p in
    let counted = scan_page dir (p - 1) in
    if get_or e 0 0 == 0
    then ended
    else if hidden e || volume_label e
    then skipped
    else if p == 0
    then found e
    else counted

module _ (disk : ℕ → List ℕ) where
  -- The loop over the pages, with the number of pages left and the block of the next.
  unfoldable pub scan_pages : ℕ → ℕ → ℕ → Option FatDirEntry
  scan_pages zero block p = none
  scan_pages (suc left) block p = elim (scan_page (dir_entries 16 (disk block)) p) [
    | ended ↦ none
    | found e ↦ some e
    | passed q ↦ scan_pages left (block + 1) q
  ]

  -- `rootdir_start` is that of the mounted filesystem; 512/16 pages are looked at.
  unfoldable pub fat_read_dir : ℕ → Fnode → ℕ → Option Entry × ℕ
  fat_read_dir rootdir_start dir position =
      let entry = elim (scan_pages 32 rootdir_start position) as (λ o. Option Entry) [
        | none ↦ none
        | some e ↦ some (entry_of e)
      ] in
      if eq_ℤ dir.file_id (pos 0) then (entry, position + 1) else (none, position + 1)

-- Of `fat_private_t`, what the reading of the table uses.
pub record FatPrivate : Type 0 where
  pub sectors_per_fat : ℕ
  pub fat_start : ℕ
  pub page : List ℕ
  pub current_page : ℤ

module _ (disk : ℕ → List ℕ) where
  abbrev pub fat_read_page : FatPrivate → ℕ → FatPrivate
  fat_read_page this page = record this {
    page = disk (this.fat_start + page);
    current_page = pos page;
  }

  -- None is a division by 0, or an entry outside the page.
  unfoldable pub fat16_read_entry : FatPrivate → ℕ → Option (ℕ × FatPrivate)
  fat16_read_entry this cluster =
      let page = cluster / this.sectors_per_fat in
      let offset = cluster % this.sectors_per_fat in
      let loaded = if eq_ℤ this.current_page (pos page) then this else fat_read_page this page in
      if this.sectors_per_fat == 0 || leb 256 offset
      then none
      else some (u_int16 loaded.page (2 * offset), loaded)

-- The fields of the boot sector that are read, at their offsets in the packed structure.
pub record FatBootSector : Type 0 where
  pub bytes_per_sector : ℕ
  pub sectors_per_cluster : ℕ
  pub reserved_sector : ℕ
  pub number_of_fats : ℕ
  pub root_dir_entries : ℕ
  pub sectors_per_fat : ℕ
  pub number_hidden_sectors : ℕ

abbrev pub boot_sector : List ℕ → FatBootSector
boot_sector block = record {
  bytes_per_sector = u_int16 block 11;
  sectors_per_cluster = get_or block 13 0;
  reserved_sector = u_int16 block 14;
  number_of_fats = get_or block 16 0;
  root_dir_entries = u_int16 block 17;
  sectors_per_fat = u_int16 block 22;
  number_hidden_sectors = u_int16 block 28 + 65536 * u_int16 block 30;
}

-- What a mount sets: the private structure, and the fields of the mounted filesystem. The static
-- buffers are not used again, and the fields of the private structure that nothing reads are left out.
pub record FatMounted : Type 0 where
  pub private : FatPrivate
  pub rootdir_start : ℕ
  pub cluster_size : ℕ
  pub clustered_data_start : ℤ

module _ (disk : ℕ → List ℕ) where
  -- The loop that prints the first entries, for the state that it leaves.
  unfoldable pub print_entries : ℕ → ℕ → FatPrivate → Outcome FatPrivate
  print_entries zero i this = ok this
  print_entries (suc left) i this = elim (fat16_read_entry disk this i) [
    | none ↦ panic
    | some (entry, this') ↦ print_entries left (i + 1) this'
  ]

  -- The structure when the entries are printed.
  abbrev pub new_private : FatBootSector → FatPrivate
  new_private boot = record {
    sectors_per_fat = boot.sectors_per_fat;
    fat_start = (boot.reserved_sector + boot.number_hidden_sectors) % 2 ^ 32;
    page = replicate 512 0;
    current_page = negsuc 0;
  }

  abbrev pub new_mounted : FatBootSector → FatPrivate → FatMounted
  new_mounted boot private =
      let rootdir_start =
        (boot.reserved_sector
          + boot.number_hidden_sectors
          + boot.number_of_fats * boot.sectors_per_fat)
        % 2 ^ 32 in
      let rootdir_sectors =
        (boot.root_dir_entries * 32 + boot.bytes_per_sector - 1) / boot.bytes_per_sector in
      record {
        private = private;
        rootdir_start = rootdir_start;
        cluster_size = boot.sectors_per_cluster;
        clustered_data_start =
            wrap32 (pos (rootdir_start + rootdir_sectors) -ℤ pos (2 * boot.sectors_per_cluster));
      }

  -- None is the error of the mount, and a division by 0 is a panic. The memory is always given.
  unfoldable pub fat_fs_init : Outcome (Option FatMounted)
  fat_fs_init =
      let boot = boot_sector (disk 0) in
      let mounted =
        print_entries 10 0 (new_private boot) >>= λ private. ok (some (new_mounted boot private)) in
      if not (boot.bytes_per_sector == 512)
      then ok none
      else if boot.root_dir_entries == 0
      then ok none
      else mounted
