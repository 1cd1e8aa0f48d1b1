-- ===== src/Tarfs.antt =====
-- tarfs.c: the files of a tar archive as a filesystem. A node keeps the block where the data begins;
-- the list of the nodes is that of the ring, from the head on. The mount itself is that of Vfs.
pub mod Populate
pub mod Listing
pub mod Examples
use mikucos.Base.{
  ℕ, zero, suc, ◌+◌, ◌-◌, ◌*◌, ◌%◌, ◌^◌, Bool, true, false, Option, none, some, List, [], ◌∷◌, ◌++◌,
  ◌==◌, ltb, if◌then◌else◌, take, drop, get_elem?,
}
use mikucos.Base.Int.{ℤ, pos, negsuc, eq_ℤ, bits32}
use mikucos.Base.Outcome.{Outcome, ok, panic, blocked}
use mikucos.CString.{strstr}
use mikucos.Mount.{Fnode}
use mikucos.Tar.{Block, blocksize, tar_size, tar_file_name, tar_is_valid_file, tar_next_file}
use mikucos.Vfs.{Entry}

pub record TarfsNode : Type 0 where
  pub file_id : ℕ
  pub name : List ℕ
  pub data_block : ℕ
  pub size : ℕ

abbrev pub tarfs_node : ℕ → Block → ℕ → TarfsNode
tarfs_node id header at = record {
  file_id = id;
  name = tar_file_name header;
  data_block = at + 1;
  size = bits32 (tar_size header);
}

abbrev pub slash : List ℕ
slash = b'/' ∷ []

-- `strstr(tar_file_name(tar), "/")`
unfoldable pub in_subdirectory : Block → Bool
in_subdirectory header = elim (strstr (tar_file_name header) slash) [ none ↦ false | some i ↦ true ]

-- The loop of `tarfs_populate` at the header at `i`, with fuel. `continue` goes to the condition of the
-- loop.
unfoldable pub populate_loop : ℕ → List Block → ℕ → ℕ → List TarfsNode → Outcome (List TarfsNode)
populate_loop zero archive i id files = blocked
populate_loop (suc fuel) archive i id files = elim (get_elem? archive i) [
  | none ↦ panic
  | some header ↦
      let skip = in_subdirectory header in
      let id' = if skip then id else id + 1 in
      let files' = if skip then files else tarfs_node id header i ∷ files in
      elim (tar_next_file header i) [
        | none ↦ panic
        | some j ↦ elim (get_elem? archive j) [
          | none ↦ panic
          | some next ↦ elim (tar_is_valid_file next) [
            | false ↦ ok files'
            | true ↦ populate_loop fuel archive j id' files'
          ]
        ]
      ]
]

unfoldable pub tarfs_populate : ℕ → List Block → Outcome (List TarfsNode)
tarfs_populate fuel archive = populate_loop fuel archive 0 1 []

-- The search of both operations for the node with a file number.
unfoldable pub find_node : ℤ → List TarfsNode → Option TarfsNode
find_node id [] = none
find_node id (node ∷ files) =
    let rest = find_node id files in if eq_ℤ (pos node.file_id) id then some node else rest

unfoldable pub tarfs_read_dir : List TarfsNode → Fnode → ℕ → Option Entry × ℕ
tarfs_read_dir files dir position =
    let found = elim (find_node (pos (position + 1)) files) as (λ o. Option Entry × ℕ) [
      | none ↦ (none, position)
      | some node ↦ (
        some (record {
          name = node.name;
          file_id = pos (position + 1);
          is_file = true;
          is_dir = false;
        }),
        position + 1,
      )
    ] in
    if eq_ℤ dir.file_id (pos 0) then found else (none, position)

abbrev pub bytes_of : List Block → List ℕ
bytes_of [] = []
bytes_of (b ∷ blocks) = b ++ bytes_of blocks

-- The bytes read and the new offset; -1 is `none`. The subtraction has no sign.
unfoldable pub tarfs_read : List Block → List TarfsNode → Fnode → ℕ → ℕ → Option (List ℕ) × ℕ
tarfs_read archive files file len off = elim (find_node file.file_id files) [
  | none ↦ (none, off)
  | some node ↦
      let left = (node.size + 2 ^ 32 - off) % 2 ^ 32 in
      let n = if ltb left len then left else len in
      if left == 0 then (none, off) else (
        some (take n (drop (node.data_block * blocksize + off) (bytes_of archive))),
        (off + n) % 2 ^ 32,
      )
]
