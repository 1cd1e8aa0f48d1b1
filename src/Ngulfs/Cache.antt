-- ===== src/Ngulfs/Cache.antt =====
-- The cache of clusters in front of the disk.
use mikucos.Base.{
  ℕ, zero, suc, ◌+◌, ◌*◌, ◌%◌, ◌<◌, ◌≡◌, inl, inr, refl, ap, ◌∙◌, none, some, List, ◌==◌, arith,
  length, length-append, take-all, Option-cases, Bool-cases,
}
use mikucos.Base.Int.{pos, ◌+ℤ◌, wrap32}
use mikucos.ListHead.{write}
use mikucos.Ngulfs.{
  Cluster, u32_mod, cluster_dim, clust_len, max_associative_buff, buffed_loop, verify_lcn_buffed,
  min_loop, buffera, Volume, read_sectors, read_cluster,
}

-- The bytes that the disk holds for a cluster.
abbrev pub cluster_at : (ℕ → List ℕ) → ℕ → Cluster
cluster_at disk lcn = read_sectors disk (lcn * cluster_dim % u32_mod) cluster_dim 0

abbrev pub HasSectors : (ℕ → List ℕ) → Type 0
HasSectors disk = (s : ℕ) → length (disk s) ≡ 512

-- Every entry of the cache holds what the disk holds.
abbrev pub Coherent : Volume → Type 0
Coherent v =
    (i : ℕ) → i < max_associative_buff → v.tabula.cls i ≡ cluster_at v.disk (v.tabula.lcn i)

buffed_loop-found :
    (lcns : ℕ → ℕ) (lcn k i j : ℕ)
    → buffed_loop lcns lcn k i ≡ some j
    → (lcns j ≡ lcn) × (j < i + k)
unfolding buffed_loop
buffed_loop-found lcns lcn zero i j h = ground arith
buffed_loop-found lcns lcn (suc k) i j h = ground (arith, buffed_loop-found lcns lcn k (i + 1) j)

length-read_sectors :
    (disk : ℕ → List ℕ) (sector k i : ℕ)
    → HasSectors disk
    → length (read_sectors disk sector k i) ≡ k * 512
unfolding read_sectors
length-read_sectors disk sector zero i h = refl
length-read_sectors disk sector (suc k) i h = omega (
  arith,
  length-append (disk ((sector + i) % u32_mod)) (read_sectors disk sector k (i + 1)),
  h ((sector + i) % u32_mod),
  length-read_sectors disk sector k (i + 1) h,
)

-- The two ways of a read: an entry of the cache, or the disk, which fills an entry.
pub read_cluster-cached :
    (lcn : ℕ) (v : Volume) (i : ℕ)
    → buffed_loop v.tabula.lcn lcn max_associative_buff 0 ≡ some i
    → read_cluster lcn v ≡ (
      v.tabula.cls i,
      record v {
        tabula = record (v.tabula) {
          touched = write v.tabula.touched i (wrap32 (v.tabula.touched i +ℤ pos 1));
        };
      },
    )
unfolding read_cluster verify_lcn_buffed
read_cluster-cached lcn v i e =
    let (same, below) = buffed_loop-found v.tabula.lcn lcn max_associative_buff 0 i e in
    ground arith

pub read_cluster-loaded :
    (lcn : ℕ) (v : Volume)
    → buffed_loop v.tabula.lcn lcn max_associative_buff 0 ≡ none
    → read_cluster lcn v
      ≡ (cluster_at v.disk lcn, record v { tabula = buffera lcn (cluster_at v.disk lcn) v.tabula })
unfolding read_cluster verify_lcn_buffed
read_cluster-loaded lcn v e = ground arith

buffera-Coherent :
    (lcn : ℕ) (v : Volume)
    → HasSectors v.disk
    → Coherent v
    → Coherent (record v { tabula = buffera lcn (cluster_at v.disk lcn) v.tabula })
unfolding buffera
buffera-Coherent lcn v s c i h =
    let full =
      take-all clust_len (cluster_at v.disk lcn)
        (length-read_sectors v.disk (lcn * cluster_dim % u32_mod) cluster_dim 0 s) in
    elim (Bool-cases (i == min_loop v.tabula.touched max_associative_buff 0 0)) [
      | inl e ↦ rw (e, full)
      | inr e ↦ rw e (c i h)
    ]

-- On a volume whose cache agrees with the disk, `read_cluster` returns what the disk holds, whether the
-- cluster is in the cache or not; the disk stays, and the cache agrees with it again.
pub read_cluster-disk :
    (lcn : ℕ) (v : Volume)
    → HasSectors v.disk
    → Coherent v
    → ((read_cluster lcn v).0 ≡ cluster_at v.disk lcn)
      × ((read_cluster lcn v).1.disk ≡ v.disk)
      × Coherent (read_cluster lcn v).1
read_cluster-disk lcn v s c =
    elim (Option-cases (buffed_loop v.tabula.lcn lcn max_associative_buff 0)) [
      | inl e ↦ rw (read_cluster-loaded lcn v e) (refl, refl, buffera-Coherent lcn v s c)
      | inr (i, e) ↦
          let (same, below) = buffed_loop-found v.tabula.lcn lcn max_associative_buff 0 i e in
          rw (read_cluster-cached lcn v i e)
            (c i (omega arith) ∙ ap (cluster_at v.disk) same, refl, c)
    ]
