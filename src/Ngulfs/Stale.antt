-- ===== src/Ngulfs/Stale.antt =====
-- What a read gives behind a write: `write_cluster` does not touch the cache.
use mikucos.Base.{
  ℕ, zero, suc, ◌+◌, ◌*◌, ◌%◌, ◌≤◌, ◌<◌, ◌≡◌, ◌≢◌, refl, ◌∙◌, Option, none, some, List, arith,
  length, take, drop, take-all, take-append-take, drop-drop, Option-cases, inl, inr,
}
use mikucos.ListHead.{write}
use mikucos.Ngulfs.{
  Cluster, u32_mod, cluster_dim, max_associative_buff, buffed_loop, Volume, read_sectors,
  read_cluster, write_sectors, write_cluster,
}
use mikucos.Ngulfs.Cache.{cluster_at, read_cluster-cached, read_cluster-loaded}

-- The sectors written are those from `sector + i` on.
write_sectors-before :
    (buff : Cluster) (sector k i j : ℕ) (disk : ℕ → List ℕ)
    → sector + i + k ≤ u32_mod
    → j < i
    → write_sectors buff sector k i disk ((sector + j) % u32_mod) ≡ disk ((sector + j) % u32_mod)
unfolding write_sectors
write_sectors-before buff sector zero i j disk h b = refl
write_sectors-before buff sector (suc k) i j disk h b =
    let apart : (sector + j) % u32_mod ≢ (sector + i) % u32_mod = omega arith in
    write_sectors-before buff sector k (i + 1) j
      (write disk ((sector + i) % u32_mod) (take 512 (drop (i * 512) buff))) (omega arith)
      (omega arith)
    ∙ ground arith

read_sectors-written :
    (buff : Cluster) (sector k i : ℕ) (disk : ℕ → List ℕ)
    → sector + i + k ≤ u32_mod
    → read_sectors (write_sectors buff sector k i disk) sector k i
      ≡ take (k * 512) (drop (i * 512) buff)
unfolding read_sectors write_sectors
read_sectors-written buff sector zero i disk h = refl
read_sectors-written buff sector (suc k) i disk h =
    let chunk = take 512 (drop (i * 512) buff) in
    let disk' = write disk ((sector + i) % u32_mod) chunk in
    let here : disk' ((sector + i) % u32_mod) ≡ chunk = ground arith in
    let next : (i + 1) * 512 ≡ i * 512 + 512 = omega arith in
    let more : 512 + k * 512 ≡ suc k * 512 = omega arith in
    rw (
      write_sectors-before buff sector k (i + 1) i disk' (omega arith) (omega arith),
      here,
      read_sectors-written buff sector k (i + 1) disk' (omega arith),
      next,
      ← drop-drop (i * 512) 512 buff,
      take-append-take 512 (k * 512) (drop (i * 512) buff),
      more,
    )

-- What the read behind a write returns.
abbrev pub cached_or : Option ℕ → (ℕ → Cluster) → Cluster → Cluster
cached_or none cls new = new
cached_or (some i) cls new = cls i

-- A cluster that is written is on the disk. A read behind the write returns it only if the cluster is
-- not in the cache: else it returns the entry of the cache, which the write has not changed.
pub read_cluster-write :
    (lcn : ℕ) (new : Cluster) (v : Volume)
    → length new ≡ 4096
    → (cluster_at (write_cluster lcn new v).disk lcn ≡ new)
      × ((read_cluster lcn (write_cluster lcn new v)).0
          ≡ cached_or (buffed_loop v.tabula.lcn lcn max_associative_buff 0) v.tabula.cls new)
unfolding write_cluster
read_cluster-write lcn new v h =
    let on_disk =
      read_sectors-written new (lcn * cluster_dim % u32_mod) cluster_dim 0 v.disk (omega arith)
      ∙ take-all 4096 new h in
    (
      on_disk,
      elim (Option-cases (buffed_loop v.tabula.lcn lcn max_associative_buff 0)) [
        | inl e ↦ rw (read_cluster-loaded lcn (write_cluster lcn new v) e, e, on_disk)
        | inr (i, e) ↦ rw (read_cluster-cached lcn (write_cluster lcn new v) i e, e)
      ],
    )
