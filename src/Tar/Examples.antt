-- ===== src/Tar/Examples.antt =====
-- An archive of an empty file `a` and a file `b` of 3 bytes.
use mikucos.Base.{ℕ, ◌+◌, ◌*◌, ◌≤◌, ◌<◌, ◌≡◌, refl, [], ◌∷◌, ◌++◌, some, none, arith, replicate}
use mikucos.Base.Int.{pos, ◌+ℤ◌, ◌*ℤ◌}
use mikucos.Base.Outcome.{ok}
use mikucos.CString.{strcmp, strncmp}
use mikucos.Tar.{
  Block, blocksize, field, tar_size, tar_file_name, size_loop, tar_blocks_from_size, quotient,
  tar_file_blocks, tar_is_valid_file, tar_find_file, ustar,
}
use mikucos.Tar.Find.{TarFile, IsTarFile, archive_of, first_named, tar_find_file-first}
use mikucos.Tar.Size.{octal_from, tar_size-octal}

-- A header with a name of one character and one digit of size.
abbrev pub header_of : ℕ → ℕ → Block
header_of name size =
    (name ∷ replicate 123 0)
    ++ replicate 10 b'0'
    ++ (size ∷ replicate 122 0)
    ++ ustar
    ++ replicate 250 0

abbrev pub file_a : TarFile
file_a = record { header = header_of b'a' b'0'; contents = [] }

abbrev pub file_b : TarFile
file_b = record { header = header_of b'b' b'3'; contents = replicate 512 7 ∷ [] }

pub files_IsTarFile : IsTarFile file_a × IsTarFile file_b
unfolding tar_is_valid_file strncmp tar_file_blocks tar_size size_loop tar_blocks_from_size quotient
    ◌+ℤ◌ ◌*ℤ◌
files_IsTarFile = (
  record { valid = refl; ends = refl; fits = refl },
  record { valid = refl; ends = refl; fits = refl },
)

abbrev pub nothing : Block
nothing = replicate 512 0

tar_find_file-first_example :
    tar_find_file (archive_of (file_a ∷ file_b ∷ []) (nothing ∷ [])) (b'b' ∷ [])
    ≡ ok (first_named 0 (file_a ∷ file_b ∷ []) (b'b' ∷ []))
unfolding tar_is_valid_file strncmp
tar_find_file-first_example =
    tar_find_file-first (file_a ∷ file_b ∷ []) nothing [] (b'b' ∷ [])
      (files_IsTarFile.0, (files_IsTarFile.1, tt)) refl

second_header : first_named 0 (file_a ∷ file_b ∷ []) (b'b' ∷ []) ≡ some 1
unfolding strcmp tar_file_name
second_header = refl

-- A name of 100 characters goes on with the mode, here "0", so it is not found.
long_name :
    first_named 0
      (record { header = replicate 100 b'a' ++ b'0' ∷ replicate 411 0; contents = [] } ∷ [])
      (replicate 100 b'a')
    ≡ none
unfolding strcmp tar_file_name
long_name = refl

tar_size-octal_example :
    (blocks : ℕ) × (tar_size file_b.header ≡ pos (octal_from 0 (field 124 11 file_b.header)))
    × (tar_blocks_from_size (tar_size file_b.header) ≡ pos blocks)
    × (octal_from 0 (field 124 11 file_b.header) ≤ blocks * blocksize)
    × (blocks * blocksize < octal_from 0 (field 124 11 file_b.header) + blocksize)
tar_size-octal_example = tar_size-octal file_b.header (omega arith) (omega arith)
