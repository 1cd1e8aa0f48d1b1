-- ===== src/Ngulfs.antt =====
-- The lower half of the file system Ngulfs: ngulfs_low_api.c, ngulfs_buffering.c and
-- ngulfs_allocation.c. The disk gives the 512 bytes of each sector; a cluster is the list of its 4096
-- bytes. How the compiler lays out a `file_record` in a cluster is the parameter `record_of`.
pub mod Cache
pub mod Stale
pub mod Extents
pub mod Api
pub mod Aligned
pub mod Examples
use mikucos.Base.{
  ℕ, zero, suc, ◌+◌, ◌-◌, ◌*◌, ◌%◌, ◌^◌, Option, none, some, List, [], ◌∷◌, ◌++◌, ◌==◌, ltb, leb,
  if◌then◌else◌, take, drop,
}
use mikucos.Base.Int.{ℤ, pos, ◌+ℤ◌, ltb_ℤ, wrap32}
use mikucos.ListHead.{write}

abbrev pub Cluster : Type 0
Cluster = List ℕ

abbrev pub u32_mod : ℕ
u32_mod = 2 ^ 32

abbrev pub cluster_dim : ℕ
cluster_dim = 8

abbrev pub clust_len : ℕ
clust_len = 4096

abbrev pub mft_lcn : ℕ
mft_lcn = 1

abbrev pub mft_vcn : ℕ
mft_vcn = 0

-- `cluster_associative_buff`: the arrays `lcn`, `cls` and `touched`.
pub record Tabula : Type 0 where
  pub lcn : ℕ → ℕ
  pub cls : ℕ → Cluster
  pub touched : ℕ → ℤ

abbrev pub max_associative_buff : ℕ
max_associative_buff = 5

-- The loop of `verify_lcn_buffed` from `i` on, with `k` rounds left.
unfoldable pub buffed_loop : (ℕ → ℕ) → ℕ → ℕ → ℕ → Option ℕ
buffed_loop lcns lcn zero i = none
buffed_loop lcns lcn (suc k) i =
    let rest = buffed_loop lcns lcn k (i + 1) in if lcns i == lcn then some i else rest

unfoldable pub verify_lcn_buffed : ℕ → Tabula → ℕ × Tabula
verify_lcn_buffed lcn t = elim (buffed_loop t.lcn lcn max_associative_buff 0) [
  | none ↦ (7, t)
  | some i ↦ (i, record t { touched = write t.touched i (wrap32 (t.touched i +ℤ pos 1)) })
]

-- The loop of `buffera` for the entry that was touched least.
unfoldable pub min_loop : (ℕ → ℤ) → ℕ → ℕ → ℕ → ℕ
min_loop touched zero i min = min
min_loop touched (suc k) i min =
    min_loop touched k (i + 1) (if ltb_ℤ (touched i) (touched min) then i else min)

unfoldable pub buffera : ℕ → Cluster → Tabula → Tabula
buffera lcn ptr t =
    let min = min_loop t.touched max_associative_buff 0 0 in
    record {
      lcn = write t.lcn min lcn;
      cls = write t.cls min (take clust_len ptr);
      touched = write t.touched min (pos 1);
    }

pub record Volume : Type 0 where
  pub disk : ℕ → List ℕ
  pub tabula : Tabula

-- The sectors from `i` on of the cluster that starts at a sector, with `k` left.
unfoldable pub read_sectors : (ℕ → List ℕ) → ℕ → ℕ → ℕ → Cluster
read_sectors disk sector zero i = []
read_sectors disk sector (suc k) i =
    disk ((sector + i) % u32_mod) ++ read_sectors disk sector k (i + 1)

-- The cluster, and the volume with the cache that the read leaves.
unfoldable pub read_cluster : ℕ → Volume → Cluster × Volume
read_cluster lcn v =
    let sector_num = lcn * cluster_dim % u32_mod in
    let (ver, t) = verify_lcn_buffed lcn v.tabula in
    let buff = read_sectors v.disk sector_num cluster_dim 0 in
    if leb ver 4
    then (t.cls ver, record v { tabula = t })
    else (buff, record v { tabula = buffera lcn buff t })

unfoldable pub write_sectors : Cluster → ℕ → ℕ → ℕ → (ℕ → List ℕ) → ℕ → List ℕ
write_sectors buff sector zero i disk = disk
write_sectors buff sector (suc k) i disk =
    write_sectors buff sector k (i + 1)
      (write disk ((sector + i) % u32_mod) (take 512 (drop (i * 512) buff)))

unfoldable pub write_cluster : ℕ → Cluster → Volume → Volume
write_cluster lcn buff v =
    let sector_num = lcn * cluster_dim % u32_mod in
    record v { disk = write_sectors buff sector_num cluster_dim 0 v.disk }

pub record Extent : Type 0 where
  pub lcn : ℕ
  pub len : ℕ

-- The loop of `get_lcn`, in unsigned numbers of 32 bits; -1 is returned behind the last extent.
unfoldable pub get_lcn_loop : List Extent → ℕ → ℕ → ℕ
get_lcn_loop [] vcn before = u32_mod - 1
get_lcn_loop (e ∷ list) vcn before =
    let current_vcn = (before + e.len) % u32_mod in
    let rest = get_lcn_loop list vcn current_vcn in
    if ltb vcn current_vcn
    then (e.lcn + vcn + (u32_mod - (current_vcn + u32_mod - e.len) % u32_mod)) % u32_mod
    else rest

unfoldable pub get_lcn : List Extent → ℕ → ℕ → ℕ
get_lcn list len vcn = get_lcn_loop (take len list) vcn 0

-- `ext_ls` is the whole array of a record, of which `len` extents are in use.
pub record FileRecord : Type 0 where
  pub len : ℕ
  pub ext_ls : List Extent

-- The loop of `ngul_find_next_free_region`, `i` entries above the first: `while(i-- && found < len)`.
unfoldable pub free_region_loop : (ℕ → Extent) → ℕ → ℕ → ℕ → ℕ → ℕ
free_region_loop ptr len zero found first = first
free_region_loop ptr len (suc i) found first =
    let rest = free_region_loop ptr len i (ptr i).len (ptr i).lcn in
    if ltb found len then rest else first

-- MAX_FREE_REGION
abbrev pub max_free_region : ℕ
max_free_region = 682

unfoldable pub ngul_find_next_free_region : (ℕ → Extent) → ℕ → ℕ
ngul_find_next_free_region ptr len = free_region_loop ptr len max_free_region 0 0

module _ (record_of : Cluster → FileRecord) where
  unfoldable pub read_file_record_fast : ℕ → Volume → FileRecord × Volume
  read_file_record_fast lcn v = let (c, v') = read_cluster lcn v in (record_of c, v')

  -- What `mount` leaves in `cached_mft`.
  unfoldable pub mount : Volume → FileRecord × Volume
  mount v = read_file_record_fast mft_lcn v

  -- For the `cached_mft` that `mount` has read; the record of the file is left in `frbuff`.
  unfoldable pub vcn_to_lcn : FileRecord → ℕ → ℕ → Volume → ℕ × Volume
  vcn_to_lcn cached_mft f_idx vcn v =
      let lcn = get_lcn cached_mft.ext_ls cached_mft.len f_idx in
      let (frbuff, v') = read_file_record_fast lcn v in (get_lcn frbuff.ext_ls frbuff.len vcn, v')

  -- The cluster number and the record that are read.
  unfoldable pub read_file_record : FileRecord → ℕ → ℕ → Volume → (ℕ × FileRecord) × Volume
  read_file_record cached_mft lcn vcn v =
      let (lcn_writen, v') =
        vcn_to_lcn cached_mft (if ltb mft_vcn lcn then lcn else mft_vcn) vcn v in
      let (fd, v'') = read_file_record_fast lcn_writen v' in ((lcn_writen, fd), v'')

  -- For the bytes of the record that is written.
  unfoldable pub write_file_record : FileRecord → ℕ → ℕ → Cluster → Volume → ℕ × Volume
  write_file_record cached_mft lcn vcn fd v =
      let (lcn_written, v') =
        vcn_to_lcn cached_mft (if ltb mft_vcn lcn then lcn else mft_vcn) vcn v in
      (lcn_written, write_cluster lcn_written fd v')
