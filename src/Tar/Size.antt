-- ===== src/Tar/Size.antt =====
-- The size of a file, in octal digits and in blocks.
use mikucos.Base.{
  ℕ, ◌+◌, ◌-◌, ◌*◌, ◌/◌, ◌%◌, ◌^◌, ◌≤◌, ◌<◌, ◌≡◌, refl, List, [], ◌∷◌, lt→ltb, arith,
}
use mikucos.Base.Int.{pos, ◌+ℤ◌, ◌*ℤ◌, signed32}
use mikucos.Tar.{Block, blocksize, field, size_loop, tar_size, quotient, tar_blocks_from_size}

-- The characters `0` to `7`, and the number that they spell behind `s`.
abbrev pub IsOctal : List ℕ → Type 0
IsOctal [] = Unit
IsOctal (c ∷ size) = (b'0' ≤ c) × (c ≤ b'7') × IsOctal size

abbrev pub octal_from : ℕ → List ℕ → ℕ
octal_from s [] = s
octal_from s (c ∷ size) = octal_from (s * 8 + (c - b'0')) size

octal_from-le : (size : List ℕ) (s : ℕ) → s ≤ octal_from s size
octal_from-le [] s = omega arith
octal_from-le (c ∷ size) s = omega (arith, octal_from-le size (s * 8 + (c - b'0')))

size_loop-octal :
    (size : List ℕ) (s : ℕ)
    → IsOctal size
    → octal_from s size < 2 ^ 32
    → size_loop size s ≡ octal_from s size
unfolding size_loop
size_loop-octal [] s h b = refl
size_loop-octal (c ∷ size) s h b =
    let grows = octal_from-le size (s * 8 + (c - b'0')) in
    let e : (s * 8 + c + 2 ^ 32 - b'0') % 2 ^ 32 ≡ s * 8 + (c - b'0') = omega arith in
    rw e (size_loop-octal size (s * 8 + (c - b'0')) h.2 b)

blocks_from_size-least : (n : ℕ) → tar_blocks_from_size (pos n) ≡ pos ((n + 511) / blocksize)
unfolding tar_blocks_from_size quotient ◌*ℤ◌ ◌+ℤ◌
blocks_from_size-least n = ground arith

-- In a header whose size is spelled in octal digits, and below 2^31, `tar_size` is that number, and
-- `tar_blocks_from_size` of it the least number of blocks that hold so many bytes.
pub tar_size-octal :
    (b : Block)
    → IsOctal (field 124 11 b)
    → octal_from 0 (field 124 11 b) < 2 ^ 31
    → (blocks : ℕ) × (tar_size b ≡ pos (octal_from 0 (field 124 11 b)))
      × (tar_blocks_from_size (tar_size b) ≡ pos blocks)
      × (octal_from 0 (field 124 11 b) ≤ blocks * blocksize)
      × (blocks * blocksize < octal_from 0 (field 124 11 b) + blocksize)
unfolding tar_size
tar_size-octal b h l =
    let n = octal_from 0 (field 124 11 b) in
    let e : signed32 (size_loop (field 124 11 b) 0) ≡ pos n =
      rw (size_loop-octal (field 124 11 b) 0 h (omega arith), lt→ltb n (2 ^ 31) l) in
    ((n + 511) / blocksize, e, rw e (blocks_from_size-least n), omega arith, omega arith)
