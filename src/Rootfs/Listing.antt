-- ===== src/Rootfs/Listing.antt =====
-- rootfs.c as the listing of its directories.
use mikucos.Base.{
  ℕ, ◌+◌, ◌<◌, ◌≡◌, refl, true, false, if◌then◌else◌, none, List, [], ◌∷◌, length, arith,
  Bool-cases, inl, inr,
}
use mikucos.Base.Int.{pos, eq_ℤ}
use mikucos.Mount.{Fnode}
use mikucos.Vfs.{Entry}
use mikucos.Vfs.Walk.{Enumerates, NamesFit}
use mikucos.Rootfs.{
  applications, devices, network, system, users, startup, tmp, mnt, root_entry, system_entry,
  rootfs_read_dir,
}

abbrev entry : List ℕ → ℕ → Entry
entry name id = record { name = name; file_id = pos id; is_file = false; is_dir = true }

unfoldable pub rootfs_entries : Fnode → List Entry
rootfs_entries dir =
    if eq_ℤ dir.file_id (pos 0)
    then entry applications 1
      ∷ entry devices 2
      ∷ entry network 3
      ∷ entry system 4
      ∷ entry users 5
      ∷ []
    else if eq_ℤ dir.file_id (pos 4)
    then entry startup 101 ∷ entry tmp 102 ∷ entry mnt 103 ∷ []
    else []

root-at :
    (dir : Fnode) (p : ℕ)
    → eq_ℤ dir.file_id (pos 0) ≡ true
    → (rootfs_read_dir dir p).0 ≡ root_entry (p + 1)
unfolding rootfs_read_dir
root-at dir p e = rw e refl

system-at :
    (dir : Fnode) (p : ℕ)
    → eq_ℤ dir.file_id (pos 0) ≡ false
    → eq_ℤ dir.file_id (pos 4) ≡ true
    → (rootfs_read_dir dir p).0 ≡ system_entry (p + 1)
unfolding rootfs_read_dir
system-at dir p d e = rw (d, e) refl

other-at :
    (dir : Fnode) (p : ℕ)
    → eq_ℤ dir.file_id (pos 0) ≡ false
    → eq_ℤ dir.file_id (pos 4) ≡ false
    → (rootfs_read_dir dir p).0 ≡ none
unfolding rootfs_read_dir
other-at dir p d e = rw (d, e) refl

-- `rootfs_read_dir` lists the five directories of the root, the three of `System`, and nothing in
-- another directory; the names are short enough for `file_resolve_relative_path`.
pub rootfs_read_dir-Enumerates :
    (dir : Fnode)
    → Enumerates rootfs_read_dir dir 0 (rootfs_entries dir)
      × (length (rootfs_entries dir) < 6)
      × NamesFit (rootfs_entries dir)
unfolding Enumerates rootfs_read_dir rootfs_entries root_entry system_entry
rootfs_read_dir-Enumerates dir = elim (Bool-cases (eq_ℤ dir.file_id (pos 0))) [
  | inl e ↦ rw e (
    (
      root-at dir 0 e,
      (root-at dir 1 e, (root-at dir 2 e, (root-at dir 3 e, (root-at dir 4 e, root-at dir 5 e)))),
    ),
    omega arith,
    (omega arith, (omega arith, (omega arith, (omega arith, (omega arith, tt))))),
  )
  | inr d ↦ elim (Bool-cases (eq_ℤ dir.file_id (pos 4))) [
    | inl e ↦
        rw (d, e)
          (
            (
              system-at dir 0 d e,
              (system-at dir 1 d e, (system-at dir 2 d e, system-at dir 3 d e)),
            ),
            omega arith,
            (omega arith, (omega arith, (omega arith, tt))),
          )
    | inr e ↦ rw (d, e) (other-at dir 0 d e, omega arith, tt)
  ]
]
