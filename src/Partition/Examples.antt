-- ===== src/Partition/Examples.antt =====
-- A disk with two partitions, at the blocks 63 and 163, of 100 and 50 blocks.
use mikucos.Base.{ℕ, ◌+◌, ◌<◌, ◌≡◌, refl, false, some, List, [], ◌∷◌, ◌++◌, replicate, arith}
use mikucos.Partition.{
  Partition, partition_read_blocks, table_loop, partition_lookup, new_partition,
}
use mikucos.Partition.Isolation.{partition_read_blocks-apart}

abbrev entry : ℕ → ℕ → List ℕ
entry start len = replicate 4 0 ++ 6 ∷ replicate 3 0 ++ start ∷ replicate 3 0 ++ len ∷ replicate 3 0

abbrev one : Partition
one = new_partition 0 (entry 63 100)

abbrev two : Partition
two = new_partition 2 (entry 163 50)

table :
    partition_lookup false (
      replicate 446 0
      ++ entry 63 100
      ++ replicate 16 0
      ++ entry 163 50
      ++ replicate 16 0
      ++ 85 ∷ 170 ∷ [])
    ≡ one ∷ two ∷ []
unfolding partition_lookup table_loop
table = refl

partition_read_blocks-apart_example : 63 + 98 + 1 < 163 + 0
unfolding partition_read_blocks
partition_read_blocks-apart_example =
    partition_read_blocks-apart one two 98 1 0 4 (161, 1) (163, 4) (omega arith) (omega arith)
      (omega arith) (omega arith) (omega arith) refl refl

-- The sum of the two numbers wraps around, and the block in front of the partition is read.
wraps : partition_read_blocks one 4294967295 1 ≡ some (62, 1)
unfolding partition_read_blocks
wraps = refl
