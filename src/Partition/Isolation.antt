-- ===== src/Partition/Isolation.antt =====
-- Reads stay inside their partitions.
use mikucos.Base.{
  ℕ, ◌+◌, ◌%◌, ◌^◌, ◌<◌, ◌≤◌, ◌≡◌, refl, sym, ap, ◌∙◌, Option, none, some, leb, arith, true, false,
  Bool-cases, inl, inr,
}
use mikucos.Partition.{Partition, partition_read_blocks}

-- The partition ends on a disk of at most 2^32 blocks.
abbrev pub IsOnDisk : Partition → Type 0
IsOnDisk p = p.start + p.len ≤ 2 ^ 32

-- A read that passes is of blocks of the partition.
abbrev pub IsInside : Partition → ℕ × ℕ → Type 0
IsInside p (first, n) = (p.start ≤ first) × (first + n < p.start + p.len)

-- The two parts of a request, 0 when there is none.
abbrev first_block : Option (ℕ × ℕ) → ℕ
first_block none = 0
first_block (some r) = r.0

abbrev blocks : Option (ℕ × ℕ) → ℕ
blocks none = 0
blocks (some r) = r.1

refused :
    (p : Partition) (s n : ℕ)
    → leb p.len ((s + n) % 2 ^ 32) ≡ true
    → partition_read_blocks p s n ≡ none
unfolding partition_read_blocks
refused p s n l = rw (partition_read_blocks, l) refl

passed :
    (p : Partition) (s n : ℕ)
    → leb p.len ((s + n) % 2 ^ 32) ≡ false
    → partition_read_blocks p s n ≡ some ((p.start + s) % 2 ^ 32, n)
unfolding partition_read_blocks
passed p s n l = rw (partition_read_blocks, l) refl

read_blocks-IsInside :
    (p : Partition) (s n : ℕ) (r : ℕ × ℕ)
    → IsOnDisk p
    → s + n < 2 ^ 32
    → partition_read_blocks p s n ≡ some r
    → IsInside p r
read_blocks-IsInside p s n r d w e = elim (Bool-cases (leb p.len ((s + n) % 2 ^ 32))) [
  | inl l ↦ let no = sym (refused p s n l) ∙ e in absurd (ground (arith, no))
  | inr l ↦
      let same = sym (passed p s n l) ∙ e in
      let at = ap first_block same in
      let size = ap blocks same in
      let low : s + n < p.len = ground arith in (omega arith, omega arith)
]

-- Two partitions of which one begins behind the other, on a disk of at most 2^32 blocks: a read through
-- the first and one through the second, which pass and whose last blocks are numbers of 32 bits, have
-- no block in common.
pub partition_read_blocks-apart :
    (p q : Partition) (s n t m : ℕ) (r r' : ℕ × ℕ)
    → IsOnDisk p
    → IsOnDisk q
    → p.start + p.len ≤ q.start
    → s + n < 2 ^ 32
    → t + m < 2 ^ 32
    → partition_read_blocks p s n ≡ some r
    → partition_read_blocks q t m ≡ some r'
    → r.0 + r.1 < r'.0
partition_read_blocks-apart p q s n t m r r' d d' o w w' e e' =
    let first = read_blocks-IsInside p s n r d w e in
    let second = read_blocks-IsInside q t m r' d' w' e' in omega arith

-- The last block of a partition is not read.
last_block_refused :
    (p : Partition) (s n : ℕ) → s + n < 2 ^ 32 → s + n ≡ p.len → partition_read_blocks p s n ≡ none
last_block_refused p s n w e = refused p s n (ground arith)
