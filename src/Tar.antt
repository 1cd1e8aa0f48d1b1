-- ===== src/Tar.antt =====
-- tar.c: the files of a tar archive in memory. An archive is the list of its blocks of 512 bytes, and
-- a pointer to a file is the index of its header. A block outside the archive is a panic; a search
-- that never ends is `blocked`. The characters are ASCII.
pub mod Find
pub mod Size
pub mod Examples
use mikucos.Base.{
  ℕ, zero, suc, ◌+◌, ◌-◌, ◌*◌, ◌/◌, ◌%◌, ◌^◌, Bool, true, false, Option, none, some, List, [], ◌∷◌,
  ◌==◌, ltb, if◌then◌else◌, take, drop, get_elem?, length,
}
use mikucos.Base.Int.{ℤ, pos, negsuc, ◌+ℤ◌, ◌*ℤ◌, ltb_ℤ, is_zero, signed32, sub_ℕ}
use mikucos.Base.Outcome.{Outcome, ok, panic, blocked}
use mikucos.CString.{strcmp, strncmp}

abbrev pub Block : Type 0
Block = List ℕ

abbrev pub blocksize : ℕ
blocksize = 512

-- The bytes of an array in the header, and the string that begins there.
abbrev pub field : ℕ → ℕ → Block → List ℕ
field offset len b = take len (drop offset b)

abbrev pub cstring : List ℕ → List ℕ
cstring [] = []
cstring (c ∷ s) = let rest = cstring s in if c == 0 then [] else c ∷ rest

-- The string that begins at `name`; it may be longer than the array. One that does not end in the
-- header goes on behind the block, which is left out.
unfoldable pub tar_file_name : Block → List ℕ
tar_file_name b = cstring b

-- `while(i--) s = s*8 + (*size++-'0')`, in 32 bits.
unfoldable pub size_loop : List ℕ → ℕ → ℕ
size_loop [] s = s
size_loop (c ∷ size) s = size_loop size ((s * 8 + c + 2 ^ 32 - b'0') % 2 ^ 32)

unfoldable pub tar_size : Block → ℤ
tar_size b = signed32 (size_loop (field 124 11 b) 0)

-- The division of C goes towards 0.
unfoldable pub quotient : ℤ → ℕ → ℤ
quotient (pos n) d = pos (n / d)
quotient (negsuc n) d = sub_ℕ 0 (suc n / d)

unfoldable pub tar_blocks_from_size : ℤ → ℤ
tar_blocks_from_size size =
    let blocks = quotient size blocksize in
    if ltb_ℤ (blocks *ℤ pos blocksize) size then blocks +ℤ pos 1 else blocks

unfoldable pub tar_file_blocks : Block → ℤ
tar_file_blocks b = tar_blocks_from_size (tar_size b)

-- "ustar"
abbrev pub ustar : List ℕ
ustar = b'u' ∷ b's' ∷ b't' ∷ b'a' ∷ b'r' ∷ []

unfoldable pub tar_is_valid_file : Block → Bool
tar_is_valid_file b = is_zero (strncmp (cstring (field 257 6 b)) ustar 5)

abbrev pub index : ℤ → Option ℕ
index (pos n) = some n
index (negsuc n) = none

-- `&arch->block[tar_file_blocks(arch)+1]`, for the header at `i`.
unfoldable pub tar_next_file : Block → ℕ → Option ℕ
tar_next_file b i = index (pos i +ℤ (tar_file_blocks b +ℤ pos 1))

-- The loop from the header at `i` on, with fuel; `none` is the null pointer.
unfoldable pub find_loop : ℕ → List Block → ℕ → List ℕ → Outcome (Option ℕ)
find_loop zero archive i name = blocked
find_loop (suc fuel) archive i name = elim (get_elem? archive i) [
  | none ↦ panic
  | some b ↦ elim (tar_is_valid_file b) [
    | false ↦ ok none
    | true ↦ elim (is_zero (strcmp (tar_file_name b) name)) [
      | true ↦ ok (some i)
      | false ↦ elim (tar_next_file b i) [ none ↦ panic | some j ↦ find_loop fuel archive j name ]
    ]
  ]
]

-- The loop passes each block at most once, unless a size is negative.
unfoldable pub tar_find_file : List Block → List ℕ → Outcome (Option ℕ)
tar_find_file archive name = find_loop (suc (length archive)) archive 0 name
