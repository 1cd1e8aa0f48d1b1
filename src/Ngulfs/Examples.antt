-- ===== src/Ngulfs/Examples.antt =====
-- A disk whose sectors are filled with their number, and a cache of its first clusters.
use mikucos.Base.{
  ℕ, ◌+◌, ◌-◌, ◌*◌, some, ◌/◌, ◌%◌, ◌≡◌, refl, List, [], ◌∷◌, ◌==◌, if◌then◌else◌, arith, replicate,
  length-replicate, take, get_or,
}
use mikucos.Base.Int.{pos}
use mikucos.Base.Outcome.{ok, panic}
use mikucos.Ngulfs.{
  Cluster, u32_mod, clust_len, max_associative_buff, buffed_loop, Volume, read_cluster, Extent,
  FileRecord, get_lcn, get_lcn_loop,
}
use mikucos.Ngulfs.Api.{File, clipped, pizza_read, pizza_lseek}
use mikucos.Ngulfs.Cache.{cluster_at, HasSectors, Coherent, read_cluster-disk}
use mikucos.Ngulfs.Extents.{expand, get_lcn-expand}
use mikucos.Ngulfs.Aligned.{On, bytes_from, pizza_read-aligned}

numbered : ℕ → List ℕ
numbered s = replicate 512 (s % 256)

numbered-HasSectors : HasSectors numbered
unfolding numbered
numbered-HasSectors s = length-replicate 512 (s % 256)

abbrev volume : Volume
volume = record {
  disk = numbered;
  tabula = record { lcn = λ i. i; cls = λ i. cluster_at numbered i; touched = λ i. pos 0 };
}

volume-Coherent : Coherent volume
volume-Coherent i h = refl

read_cluster-disk_example :
    ((read_cluster 9 volume).0 ≡ cluster_at numbered 9)
    × ((read_cluster 9 volume).1.disk ≡ numbered)
    × Coherent (read_cluster 9 volume).1
read_cluster-disk_example = read_cluster-disk 9 volume numbered-HasSectors volume-Coherent

zeros : Cluster
zeros = replicate clust_len 0

in_cache : buffed_loop volume.tabula.lcn 3 max_associative_buff 0 ≡ some 3
unfolding buffed_loop
in_cache = refl

abbrev two_extents : List Extent
two_extents = record { lcn = 20; len = 2 } ∷ record { lcn = 90; len = 5 } ∷ []

get_lcn-expand_example :
    get_lcn two_extents 2 4 ≡ get_or (expand (take 2 two_extents)) 4 (u32_mod - 1)
get_lcn-expand_example = get_lcn-expand two_extents 2 4 (omega arith)

fourth_cluster : get_lcn two_extents 2 4 ≡ 92
unfolding get_lcn get_lcn_loop
fourth_cluster = refl

abbrev regions : ℕ → Extent
regions i = record { lcn = 100 * i; len = if i == 7 then 30 else 1 }

abbrev extent_record : Cluster → FileRecord
extent_record c = record { len = 1; ext_ls = record { lcn = 10; len = 4 } ∷ [] }

abbrev mft : FileRecord
mft = record { len = 1; ext_ls = record { lcn = 1; len = 10 } ∷ [] }

abbrev file : File
file = record { cursor = 4096; file_id = 3; len = 10000 }

pizza_read-aligned_example :
    (v' : Volume) × (pizza_read extent_record mft file 5000 volume ≡ (
      if clipped file 5000 % clust_len == 0
      then panic
      else ok (
        clipped file 5000,
        bytes_from extent_record mft numbered file.file_id
            (file.cursor / clust_len)
            (clipped file 5000),
        record file { cursor = (file.cursor + clipped file 5000) % u32_mod },
        v',
      )))
    × On numbered v'
unfolding clipped
pizza_read-aligned_example =
    pizza_read-aligned extent_record mft numbered numbered-HasSectors file 5000 volume
      (refl, volume-Coherent) (omega arith) refl (omega arith) (omega arith)

from_the_end : pizza_lseek file 5 2 ≡ (10005, record file { cursor = 10005 })
unfolding pizza_lseek
from_the_end = refl
