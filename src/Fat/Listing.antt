-- ===== src/Fat/Listing.antt =====
-- The root directory as a list.
use mikucos.Base.{
  ℕ, zero, suc, ◌+◌, ◌-◌, ◌≡◌, refl, sym, ap, ◌∙◌, inl, inr, true, false, ◌||◌, Option, none, some,
  List, [], ◌∷◌, ◌++◌, map, ◌==◌, if◌then◌else◌, get_elem?, get_or, arith, Bool-cases,
}
use mikucos.Base.Int.{pos, eq_ℤ}
use mikucos.Mount.{Fnode}
use mikucos.Vfs.Walk.{Enumerates}
use mikucos.Fat.{
  FatDirEntry, hidden, volume_label, dir_entries, entry_of, Scan, ended, found, passed, scan_page,
  scan_pages, fat_read_dir,
}

-- The entries up to the first that is not used, without those of volume labels and long names.
unfoldable pub visible : List FatDirEntry → List FatDirEntry
visible [] = []
visible (e ∷ dir) =
    let rest = visible dir in
    if get_or e 0 0 == 0 then [] else if hidden e || volume_label e then rest else e ∷ rest

-- The entries of so many blocks.
unfoldable pub block_entries : (ℕ → List ℕ) → ℕ → ℕ → List FatDirEntry
block_entries disk zero block = []
block_entries disk (suc left) block =
    dir_entries 16 (disk block) ++ block_entries disk left (block + 1)

-- What a page does, with the entries behind it.
abbrev continued : List FatDirEntry → Scan → Option FatDirEntry
continued more ended = none
continued more (found e) = some e
continued more (passed q) = get_elem? (visible more) q

scan_page-visible :
    (dir more : List FatDirEntry) (p : ℕ)
    → continued more (scan_page dir p) ≡ get_elem? (visible (dir ++ more)) p
unfolding scan_page visible
scan_page-visible [] more p = refl
scan_page-visible (e ∷ dir) more zero = elim (Bool-cases (get_or e 0 0 == 0)) [
  | inl z ↦ rw z refl
  | inr z ↦ elim (Bool-cases (hidden e || volume_label e)) [
    | inl h ↦ rw (z, h) (scan_page-visible dir more zero)
    | inr h ↦ rw (z, h) refl
  ]
]
scan_page-visible (e ∷ dir) more (suc q) = elim (Bool-cases (get_or e 0 0 == 0)) [
  | inl z ↦ rw z refl
  | inr z ↦ elim (Bool-cases (hidden e || volume_label e)) [
    | inl h ↦ rw (z, h) (scan_page-visible dir more (suc q))
    | inr h ↦
        let counted : (suc q == 0) ≡ false = ground arith in
        let back : suc q - 1 ≡ q = omega arith in
        rw (z, h, counted, back) (scan_page-visible dir more q)
  ]
]

next_page :
    (more : List FatDirEntry) (next : ℕ → Option FatDirEntry) (o : Scan)
    → ((q : ℕ) → next q ≡ get_elem? (visible more) q)
    → (elim o as (λ o. Option FatDirEntry) [ ended ↦ none | found e ↦ some e | passed q ↦ next q ])
      ≡ continued more o
next_page more next ended h = refl
next_page more next (found e) h = refl
next_page more next (passed q) h = h q

module _ (disk : ℕ → List ℕ) where
  scan_pages-visible :
      (left block p : ℕ)
      → scan_pages disk left block p ≡ get_elem? (visible (block_entries disk left block)) p
  unfolding scan_pages block_entries visible
  scan_pages-visible zero block p = refl
  scan_pages-visible (suc left) block p =
      let dir = dir_entries 16 (disk block) in
      let more = block_entries disk left (block + 1) in
      next_page more (scan_pages disk left (block + 1)) (scan_page dir p)
        (scan_pages-visible left (block + 1))
      ∙ scan_page-visible dir more p

  -- Position by position.
  Enumerates-rest :
      (rootdir_start p : ℕ) (dir : Fnode) (rest : List FatDirEntry)
      → eq_ℤ dir.file_id (pos 0) ≡ true
      → ((k : ℕ) → scan_pages disk 32 rootdir_start (p + k) ≡ get_elem? rest k)
      → Enumerates (fat_read_dir disk rootdir_start) dir p (map entry_of rest)
  unfolding Enumerates fat_read_dir
  Enumerates-rest rootdir_start p dir [] d h =
      let here : p + 0 ≡ p = omega arith in
      let e = ap (scan_pages disk 32 rootdir_start) (sym here) ∙ h 0 in rw (d, e) refl
  Enumerates-rest rootdir_start p dir (entry ∷ rest) d h =
      let here : p + 0 ≡ p = omega arith in
      let e = ap (scan_pages disk 32 rootdir_start) (sym here) ∙ h 0 in
      rw (d, e)
        (
          refl,
          Enumerates-rest rootdir_start (p + 1) dir rest d
              (λ k. let next : p + 1 + k ≡ p + suc k = omega arith in rw next (h (suc k))),
        )

  -- The calls of `fat_read_dir` on the root directory give the visible entries of its 32 blocks, in
  -- order, up to the first entry that is not used, and then -1.
  pub fat_read_dir-Enumerates :
      (rootdir_start : ℕ) (root : Fnode)
      → eq_ℤ root.file_id (pos 0) ≡ true
      → Enumerates
          (fat_read_dir disk rootdir_start)
          root
          0
          (map entry_of (visible (block_entries disk 32 rootdir_start)))
  fat_read_dir-Enumerates rootdir_start root d =
      Enumerates-rest rootdir_start 0 root (visible (block_entries disk 32 rootdir_start)) d
        (λ k. let z : 0 + k ≡ k = omega arith in rw z (scan_pages-visible 32 rootdir_start k))
