-- ===== src/Rootfs.antt =====
-- rootfs.c: the directories that are always there.
pub mod Listing
pub mod Examples
use mikucos.Base.{ℕ, ◌+◌, Bool, true, false, ◌==◌, if◌then◌else◌, Option, none, some, List, [], ◌∷◌}
use mikucos.Base.Int.{ℤ, pos, negsuc, eq_ℤ}
use mikucos.Mount.{Fnode}
use mikucos.Vfs.{Entry}

abbrev directory : List ℕ → ℕ → Option Entry
directory name id = some (record { name = name; file_id = pos id; is_file = false; is_dir = true })

-- The names, as characters.
abbrev pub applications : List ℕ
applications =
    b'A' ∷ b'p' ∷ b'p' ∷ b'l' ∷ b'i' ∷ b'c' ∷ b'a' ∷ b't' ∷ b'i' ∷ b'o' ∷ b'n' ∷ b's' ∷ []

abbrev pub devices : List ℕ
devices = b'D' ∷ b'e' ∷ b'v' ∷ b'i' ∷ b'c' ∷ b'e' ∷ b's' ∷ []

abbrev pub network : List ℕ
network = b'N' ∷ b'e' ∷ b't' ∷ b'w' ∷ b'o' ∷ b'r' ∷ b'k' ∷ []

abbrev pub system : List ℕ
system = b'S' ∷ b'y' ∷ b's' ∷ b't' ∷ b'e' ∷ b'm' ∷ []

abbrev pub users : List ℕ
users = b'U' ∷ b's' ∷ b'e' ∷ b'r' ∷ b's' ∷ []

abbrev pub startup : List ℕ
startup = b'S' ∷ b't' ∷ b'a' ∷ b'r' ∷ b't' ∷ b'u' ∷ b'p' ∷ []

abbrev pub tmp : List ℕ
tmp = b't' ∷ b'm' ∷ b'p' ∷ []

abbrev pub mnt : List ℕ
mnt = b'm' ∷ b'n' ∷ b't' ∷ []

-- The two `switch` statements; `position` has been increased.
pub root_entry : ℕ → Option Entry
root_entry position =
    if position == 1
    then directory applications 1
    else if position == 2
    then directory devices 2
    else if position == 3
    then directory network 3
    else if position == 4
    then directory system 4
    else if position == 5
    then directory users 5
    else none

pub system_entry : ℕ → Option Entry
system_entry position =
    if position == 1
    then directory startup 101
    else if position == 2
    then directory tmp 102
    else if position == 3
    then directory mnt 103
    else none

pub rootfs_read_dir : Fnode → ℕ → Option Entry × ℕ
rootfs_read_dir dir position = (
  if eq_ℤ dir.file_id (pos 0)
      then root_entry (position + 1)
      else if eq_ℤ dir.file_id (pos 4)
      then system_entry (position + 1)
      else none,
  position + 1,
)

-- Every file is empty, and none can be written.
pub rootfs_read : Fnode → List ℕ × ℤ
rootfs_read fnode = ([], pos 0)

pub rootfs_write : Fnode → List ℕ → ℤ
rootfs_write fnode buffer = negsuc 0
