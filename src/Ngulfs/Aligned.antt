-- ===== src/Ngulfs/Aligned.antt =====
-- Reads that start at the beginning of a cluster.
use native.Mathlib.Nat.{zero-add}
use mikucos.Base.{
  ℕ, zero, suc, ◌+◌, ◌/◌, ◌%◌, ◌^◌, ◌<◌, ◌≡◌, refl, ap, ◌∙◌, false, List, [], ◌++◌, ◌==◌, ltb,
  if◌then◌else◌, arith, take, Bool-cases, inl, inr, lt→ltb,
}
use mikucos.Base.Outcome.{ok, panic}
use mikucos.Ngulfs.{
  Cluster, u32_mod, clust_len, Volume, read_cluster, FileRecord, read_file_record_fast, vcn_to_lcn,
  get_lcn,
}
use mikucos.Ngulfs.Api.{
  u16_mod, File, Read, ngul_readb_cluster, read_clusters, read_part, read_aligned, ngul_read_data,
  clipped, pizza_read,
}
use mikucos.Ngulfs.Cache.{cluster_at, HasSectors, Coherent, read_cluster-disk}

-- A volume with a given disk, and a cache that agrees with it.
abbrev pub On : (ℕ → List ℕ) → Volume → Type 0
On disk v = (v.disk ≡ disk) × Coherent v

module _ (record_of : Cluster → FileRecord) (mft : FileRecord) (disk : ℕ → List ℕ) where
  -- The logical cluster of a virtual one of a file, and what the disk holds there.
  abbrev pub lcn_of : ℕ → ℕ → ℕ
  lcn_of file vcn =
      let fr = record_of (cluster_at disk (get_lcn mft.ext_ls mft.len file)) in
      get_lcn fr.ext_ls fr.len vcn

  abbrev pub file_cluster : ℕ → ℕ → Cluster
  file_cluster file vcn = cluster_at disk (lcn_of file vcn)

  abbrev pub file_clusters : ℕ → ℕ → ℕ → List ℕ
  file_clusters file vcn zero = []
  file_clusters file vcn (suc k) =
      file_cluster file (vcn % u32_mod) ++ file_clusters file (vcn + 1) k

  -- The bytes of a file from the start of cluster `vcn` on, for `n` bytes.
  abbrev pub bytes_from : ℕ → ℕ → ℕ → List ℕ
  bytes_from file vcn n =
      file_clusters file vcn (n / clust_len)
      ++ take (n % clust_len) (file_cluster file ((vcn + n / clust_len) % u32_mod))

module _ (record_of : Cluster → FileRecord) (mft : FileRecord) (disk : ℕ → List ℕ)
    (sectors : HasSectors disk) where
  read_cluster-On :
      (lcn : ℕ) (v : Volume)
      → On disk v
      → (v' : Volume) × (read_cluster lcn v ≡ (cluster_at disk lcn, v')) × On disk v'
  read_cluster-On lcn v (e, c) =
      let (b, d, c') = read_cluster-disk lcn v (λ s. rw e (sectors s)) c in
      (
        (read_cluster lcn v).1,
        ap (λ b. (b, (read_cluster lcn v).1)) (b ∙ ap (λ d. cluster_at d lcn) e),
        (d ∙ e, c'),
      )

  vcn_to_lcn-On :
      (file vcn : ℕ) (v : Volume)
      → On disk v
      → (v' : Volume) × (vcn_to_lcn record_of mft file vcn v
          ≡ (lcn_of record_of mft disk file vcn, v'))
        × On disk v'
  unfolding vcn_to_lcn read_file_record_fast
  vcn_to_lcn-On file vcn v o =
      let (v', e, o') = read_cluster-On (get_lcn mft.ext_ls mft.len file) v o in (v', rw e, o')

  read_clusters-On :
      (file vcn k count : ℕ) (v : Volume)
      → On disk v
      → (v' : Volume) × (read_clusters record_of mft file vcn k count v
          ≡ (file_clusters record_of mft disk file (count + vcn) k, v'))
        × On disk v'
  unfolding read_clusters
  read_clusters-On file vcn zero count v o = (v, refl, o)
  read_clusters-On file vcn (suc k) count v o =
      let (v1, e1, o1) = vcn_to_lcn-On file ((count + vcn) % u32_mod) v o in
      let (v2, e2, o2) =
        read_cluster-On (lcn_of record_of mft disk file ((count + vcn) % u32_mod)) v1 o1 in
      let (v3, e3, o3) = read_clusters-On file vcn k (count + 1) v2 o2 in
      let next : count + 1 + vcn ≡ count + vcn + 1 = omega arith in (v3, rw (e1, e2, e3, next), o3)

  read_part-On :
      (file vcn len : ℕ) (v : Volume)
      → len < clust_len
      → On disk v
      → (v' : Volume) × (read_part record_of mft file vcn 0 len v
          ≡ ok (take len (file_cluster record_of mft disk file vcn), v'))
        × On disk v'
  unfolding read_part ngul_readb_cluster
  read_part-On file vcn len v h o =
      let (v1, e1, o1) = vcn_to_lcn-On file vcn v o in
      let (v2, e2, o2) = read_cluster-On (lcn_of record_of mft disk file vcn) v1 o1 in
      (v2, rw (e1, e2) (ground arith), o2)

  -- What the end of `ngul_read_data` does, with or without a rest behind the whole clusters.
  read_aligned-tail :
      (file idx n : ℕ) (v : Volume)
      → idx < u32_mod
      → 0 < n % clust_len
      → On disk v
      → (v' : Volume) × (read_aligned record_of mft file idx (n / clust_len) (n % clust_len) v
          ≡ ok (record { err = 0; bytes = bytes_from record_of mft disk file idx n; volume = v' }))
        × On disk v'
  unfolding read_aligned
  read_aligned-tail file idx n v h k o = elim (Bool-cases (ltb 0 (n / clust_len))) [
    | inl e ↦
        let (v1, e1, o1) = read_clusters-On file idx (n / clust_len) 0 v o in
        let (v2, e2, o2) =
          read_part-On file ((idx + n / clust_len) % u32_mod) (n % clust_len) v1 (omega arith) o1 in
        (v2, rw (e, e1, lt→ltb 0 (n % clust_len) k, e2, zero-add idx), o2)
    | inr e ↦
        let (v2, e2, o2) = read_part-On file idx (n % clust_len) v (omega arith) o in
        let none_whole : n / clust_len ≡ 0 = ground arith in
        let same : (idx + 0) % u32_mod ≡ idx = omega arith in (v2, rw (e, e2, none_whole, same), o2)
  ]

  read_aligned-whole :
      (file idx n : ℕ) (v : Volume)
      → 0 < n / clust_len
      → n % clust_len ≡ 0
      → On disk v
      → (r : Read) × (read_aligned record_of mft file idx (n / clust_len) (n % clust_len) v ≡ ok r)
        × (r.err ≡ 1)
  unfolding read_aligned
  read_aligned-whole file idx n v h k o =
      let (v1, e1, o1) = read_clusters-On file idx (n / clust_len) 0 v o in
      (
        record {
          err = 1;
          bytes = file_clusters record_of mft disk file (0 + idx) (n / clust_len);
          volume = v1;
        },
        rw (lt→ltb 0 (n / clust_len) h, e1, k),
        refl,
      )

  -- The cursor at the start of a cluster, and `n` bytes left to read, fewer than 2^28: `pizza_read`
  -- panics if they fill whole clusters, and else returns these bytes of the file, from the clusters
  -- that the two extent lists on the disk name, and moves the cursor behind them.
  pub pizza_read-aligned :
      (f : File) (len : ℕ) (v : Volume)
      → On disk v
      → f.cursor < u32_mod
      → f.cursor % clust_len ≡ 0
      → 0 < clipped f len
      → clipped f len < 2 ^ 28
      → (v' : Volume) × (pizza_read record_of mft f len v ≡ (
          if clipped f len % clust_len == 0
          then panic
          else ok (
            clipped f len,
            bytes_from record_of mft disk f.file_id (f.cursor / clust_len) (clipped f len),
            record f { cursor = (f.cursor + clipped f len) % u32_mod },
            v',
          )))
        × On disk v'
  unfolding pizza_read ngul_read_data
  pizza_read-aligned f len v o b a p q =
      let n = clipped f len in
      let small : n / clust_len % u16_mod ≡ n / clust_len = omega arith in
      let more : (n == 0) ≡ false = ground arith in
      elim (Bool-cases (n % clust_len == 0)) [
        | inl e ↦
            let (r, e', x) =
              read_aligned-whole f.file_id (f.cursor / clust_len) n v (ground arith) (ground arith)
                o in
            (v, rw (e, more, a, small, e', x), o)
        | inr e ↦
            let (v1, e', o1) =
              read_aligned-tail f.file_id (f.cursor / clust_len) n v (omega arith) (ground arith)
                o in
            (v1, rw (e, more, a, small, e'), o1)
      ]
