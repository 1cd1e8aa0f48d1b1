-- ===== src/Fat/Init.antt =====
-- The mount of a FAT16 filesystem.
use native.Mathlib.Nat.{mod-le, mod-add-mod}
use mikucos.Base.{
  ℕ, zero, suc, ◌+◌, ◌*◌, ◌%◌, ◌^◌, ◌≡◌, ◌≤◌, ◌<◌, ◌∙◌, refl, sym, false, not, some, List, ◌==◌,
  arith,
}
use mikucos.Base.Outcome.{ok}
use mikucos.Fat.{
  FatPrivate, boot_sector, FatMounted, print_entries, new_private, new_mounted, fat_fs_init,
}
use mikucos.Fat.Table.{IsCached, read_entry-table}

module _ (disk : ℕ → List ℕ) where
  Prints : ℕ → ℕ → FatPrivate → Type 0
  Prints left i this =
      (this' : FatPrivate) × (print_entries disk left i this ≡ ok this')
      × IsCached disk this'
      × (this'.fat_start ≡ this.fat_start)
      × (this'.sectors_per_fat ≡ this.sectors_per_fat)

  print_entries-Prints :
      (left i : ℕ) (this : FatPrivate)
      → IsCached disk this
      → 0 < this.sectors_per_fat
      → i + left ≤ 256
      → Prints left i this
  unfolding Prints print_entries
  print_entries-Prints zero i this h p l = (this, refl, h, refl, refl)
  print_entries-Prints (suc left) i this h p l =
      let small = mod-le i this.sectors_per_fat in
      let (next, r, cached, start, sectors) = read_entry-table disk this i h p (omega arith) in
      let (last, e, cached', start', sectors') =
        print_entries-Prints left (i + 1) next cached (rw sectors p) (omega arith) in
      (last, rw (print_entries, r) e, cached', start' ∙ start, sectors' ∙ sectors)

  -- A disk whose boot sector has sectors of 512 bytes, at least one entry in the root directory and at
  -- least one sector in a table is mounted: `fat_fs_init` ends, the page in memory is as the disk has
  -- it, and the table and the root directory start behind the reserved and hidden sectors, the root
  -- directory also behind all tables.
  pub fat_fs_init-IsCached :
      (boot_sector (disk 0)).bytes_per_sector ≡ 512
      → 0 < (boot_sector (disk 0)).root_dir_entries
      → 0 < (boot_sector (disk 0)).sectors_per_fat
      → (m : FatMounted) × (fat_fs_init disk ≡ ok (some m))
        × IsCached disk m.private
        × (m.private.fat_start
            ≡ ((boot_sector (disk 0)).reserved_sector
                + (boot_sector (disk 0)).number_hidden_sectors)
              % 2 ^ 32)
        × (m.rootdir_start
            ≡ (m.private.fat_start
                + (boot_sector (disk 0)).number_of_fats * (boot_sector (disk 0)).sectors_per_fat)
              % 2 ^ 32)
  unfolding fat_fs_init Prints
  fat_fs_init-IsCached b r s =
      let boot = boot_sector (disk 0) in
      let (private, e, cached, start, sectors) =
        print_entries-Prints 10 0 (new_private disk boot) (λ k n. absurd (ground arith)) s
          (omega arith) in
      let sized : (not (boot.bytes_per_sector == 512)) ≡ false = ground arith in
      let used : (boot.root_dir_entries == 0) ≡ false = ground arith in
      (
        new_mounted disk boot private,
        rw (sized, used, e) refl,
        cached,
        start,
        rw start (
            sym (
              mod-add-mod (boot.reserved_sector + boot.number_hidden_sectors) (2 ^ 32)
                (boot.number_of_fats * boot.sectors_per_fat))),
      )
