-- ===== src/Partition.antt =====
-- partition.c and mbr.h: the partitions of a disk. What a read passes on to the disk is its first block
-- and the number of blocks. The names in the device filesystem and the registration are left out.
pub mod Isolation
pub mod Examples
use mikucos.Base.{
  ℕ, zero, suc, ◌+◌, ◌*◌, ◌%◌, ◌^◌, Bool, ◌&&◌, Option, none, some, List, [], ◌∷◌, ◌++◌, ◌==◌, leb,
  if◌then◌else◌, drop, get_or,
}

-- `private` of the device, and its name.
pub record Partition : Type 0 where
  pub name : List ℕ
  pub start : ℕ
  pub len : ℕ
  pub number : ℕ

-- `off_t` and `size_t` are of 32 bits without a sign, so `start < 0` is never the case; the fields of
-- the partition are of 64 bits. None is -1.
unfoldable pub partition_read_blocks : Partition → ℕ → ℕ → Option (ℕ × ℕ)
partition_read_blocks this start len =
    if leb this.len ((start + len) % 2 ^ 32)
    then none
    else some ((this.start + start) % 2 ^ 32, len)

abbrev pub u_int32 : List ℕ → ℕ → ℕ
u_int32 bytes i =
    get_or bytes i 0
    + 256 * get_or bytes (i + 1) 0
    + 65536 * get_or bytes (i + 2) 0
    + 16777216 * get_or bytes (i + 3) 0

-- The device of a table entry, of 16 bytes.
abbrev pub new_partition : ℕ → List ℕ → Partition
new_partition i pe = record {
  name = b'p' ∷ b'a' ∷ b'r' ∷ b't' ∷ (b'0' + i) ∷ [];
  start = u_int32 pe 8;
  len = u_int32 pe 12;
  number = i;
}

-- The loop over the table, from the bytes of its entry `i` on, with the number of entries left.
unfoldable pub table_loop : ℕ → ℕ → List ℕ → List Partition
table_loop zero i table = []
table_loop (suc left) i table =
    let rest = table_loop left (i + 1) (drop 16 table) in
    if (get_or table 4 0 == 0) && (u_int32 table 8 == 0) then rest else new_partition i table ∷ rest

-- The partitions that are registered for a device whose first block is `block`. `partitioned` says that
-- the device is a partition itself.
unfoldable pub partition_lookup : Bool → List ℕ → List Partition
partition_lookup partitioned block =
    let found = table_loop 4 0 (drop 446 block) in
    if partitioned
    then []
    else if get_or block 510 0 + 256 * get_or block 511 0 == 43605
    then found
    else []
