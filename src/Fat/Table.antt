-- ===== src/Fat/Table.antt =====
-- The table on the disk, and its page in memory.
use mikucos.Base.{
  ℕ, ◌+◌, ◌*◌, ◌/◌, ◌%◌, ◌≡◌, ◌<◌, refl, ap, inl, inr, true, false, ◌||◌, some, List, ◌==◌, leb,
  get_or, arith, Bool-cases,
}
use mikucos.Base.Int.{pos, eq_ℤ}
use mikucos.Fat.{u_int16, FatPrivate, fat_read_page, fat16_read_entry}

module _ (disk : ℕ → List ℕ) where
  -- The byte of the table, whose blocks follow one another.
  abbrev pub table_byte : ℕ → ℕ → ℕ
  table_byte fat_start k = get_or (disk (fat_start + k / 512)) (k % 512) 0

  -- The entry with this number.
  abbrev pub table_entry : ℕ → ℕ → ℕ
  table_entry fat_start n = table_byte fat_start (2 * n) + 256 * table_byte fat_start (2 * n + 1)

  -- The page in memory is what the disk has.
  abbrev pub IsCached : FatPrivate → Type 0
  IsCached this =
      (k : ℕ) → eq_ℤ this.current_page (pos k) ≡ true → this.page ≡ disk (this.fat_start + k)

  entry_of_page :
      (fat_start q r : ℕ)
      → r < 256
      → u_int16 (disk (fat_start + q)) (2 * r) ≡ table_entry fat_start (256 * q + r)
  entry_of_page fat_start q r h =
      let low : 2 * (256 * q + r) / 512 ≡ q = omega arith in
      let low_at : 2 * (256 * q + r) % 512 ≡ 2 * r = omega arith in
      let high : (2 * (256 * q + r) + 1) / 512 ≡ q = omega arith in
      let high_at : (2 * (256 * q + r) + 1) % 512 ≡ 2 * r + 1 = omega arith in
      rw (low, low_at, high, high_at) refl

  read_page-IsCached : (this : FatPrivate) (page : ℕ) → IsCached (fat_read_page disk this page)
  read_page-IsCached this page k e =
      let same : page ≡ k = ground arith in ap (λ n. disk (this.fat_start + n)) same

  -- With the page in memory as the disk has it, and an entry that fits in a page: `fat16_read_entry`
  -- returns the entry of the table with the number 256 * page + offset, where the page and the offset
  -- are the quotient and the rest of the cluster by `sectors_per_fat`, so that it is the entry of the
  -- cluster when `sectors_per_fat` is 256. The page in memory is again as the disk has it, and the
  -- start of the table and `sectors_per_fat` are the same.
  pub read_entry-table :
      (this : FatPrivate) (cluster : ℕ)
      → IsCached this
      → 0 < this.sectors_per_fat
      → cluster % this.sectors_per_fat < 256
      → (this' : FatPrivate) × (fat16_read_entry disk this cluster
          ≡ some (
            table_entry this.fat_start
                (256 * (cluster / this.sectors_per_fat) + cluster % this.sectors_per_fat),
            this',
          ))
        × IsCached this'
        × (this'.fat_start ≡ this.fat_start)
        × (this'.sectors_per_fat ≡ this.sectors_per_fat)
  unfolding fat16_read_entry
  read_entry-table this cluster h p l =
      let page = cluster / this.sectors_per_fat in
      let offset = cluster % this.sectors_per_fat in
      let fits : (this.sectors_per_fat == 0 || leb 256 offset) ≡ false = ground arith in
      elim (Bool-cases (eq_ℤ this.current_page (pos page))) [
        | inl e ↦ (
          this,
          rw (e, fits)
              (ap (λ n. some (n, this))
                (rw (h page e) (entry_of_page this.fat_start page offset l))),
          h,
          refl,
          refl,
        )
        | inr e ↦ (
          fat_read_page disk this page,
          rw (e, fits)
              (ap (λ n. some (n, fat_read_page disk this page))
                (entry_of_page this.fat_start page offset l)),
          read_page-IsCached this page,
          refl,
          refl,
        )
      ]
