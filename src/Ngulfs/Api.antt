-- ===== src/Ngulfs/Api.antt =====
-- The upper half, ngulfs_api.c: reading from an open file. A function gives the bytes that it puts
-- into the caller's buffer, from its start on.
use mikucos.Base.{
  ℕ, zero, suc, ◌+◌, ◌-◌, ◌/◌, ◌%◌, ◌^◌, ◌&&◌, List, [], ◌++◌, ◌==◌, ltb, leb, if◌then◌else◌, take,
  drop,
}
use mikucos.Base.Outcome.{Outcome, ok, panic, ◌>>=◌}
use mikucos.Ngulfs.{Cluster, u32_mod, clust_len, Volume, read_cluster, FileRecord, vcn_to_lcn}

abbrev pub u16_mod : ℕ
u16_mod = 2 ^ 16

-- `struct ngulfs_file`, without its type.
pub record File : Type 0 where
  pub cursor : ℕ
  pub file_id : ℕ
  pub len : ℕ

-- The result of a read: its error code, the bytes, and the volume.
pub record Read : Type 0 where
  pub err : ℕ
  pub bytes : List ℕ
  pub volume : Volume

unfoldable pub ngul_readb_cluster : ℕ → ℕ → ℕ → Volume → Outcome (List ℕ × Volume)
ngul_readb_cluster lcn addr_byte len v =
    let (data_buff, v') = read_cluster lcn v in
    if leb clust_len ((addr_byte + len) % u32_mod)
    then panic
    else ok (take len (drop addr_byte data_buff), v')

-- How much `pizza_read` reads: at most what is left behind the cursor.
unfoldable pub clipped : File → ℕ → ℕ
clipped f len =
    let left = (f.len + u32_mod - f.cursor) % u32_mod in if leb left len then left else len

module _ (record_of : Cluster → FileRecord) (cached_mft : FileRecord) where
  -- `while(count<ncluster)`, with `k` rounds left.
  unfoldable pub read_clusters : ℕ → ℕ → ℕ → ℕ → Volume → List ℕ × Volume
  read_clusters file idx_start zero count v = ([], v)
  read_clusters file idx_start (suc k) count v =
      let (lcn, v1) = vcn_to_lcn record_of cached_mft file ((count + idx_start) % u32_mod) v in
      let (c, v2) = read_cluster lcn v1 in
      let (rest, v3) = read_clusters file idx_start k (count + 1) v2 in (c ++ rest, v3)

  -- A part of one cluster of the file.
  unfoldable pub read_part : ℕ → ℕ → ℕ → ℕ → Volume → Outcome (List ℕ × Volume)
  read_part file vcn addr_byte len v =
      let (lcn, v') = vcn_to_lcn record_of cached_mft file vcn v in
      ngul_readb_cluster lcn addr_byte len v'

  -- The end of `ngul_read_data`, for a start at the beginning of a cluster.
  unfoldable pub read_aligned : ℕ → ℕ → ℕ → ℕ → Volume → Outcome Read
  read_aligned file idx_start ncluster nbytes v =
      let (buff, v') = read_clusters file idx_start ncluster 0 v in
      if ltb 0 ncluster
      then (if ltb 0 nbytes
          then (read_part file ((idx_start + ncluster) % u32_mod) 0 nbytes v' >>= λ (tail, v'').
              ok (record { err = 0; bytes = buff ++ tail; volume = v'' }))
          else ok (record { err = 1; bytes = buff; volume = v' }))
      else (read_part file idx_start 0 nbytes v >>= λ (tail, v').
          ok (record { err = 0; bytes = tail; volume = v' }))

  -- The call that `ngul_read_data` makes of itself: it starts at byte 0, so it is aligned.
  unfoldable pub read_data_again : ℕ → ℕ → Volume → Outcome Read
  read_data_again file len v =
      if len == 0
      then ok (record { err = 0; bytes = []; volume = v })
      else read_aligned file 0 (len / clust_len % u16_mod) (len % clust_len) v

  -- A start inside a cluster. The rest is read from the file with the number `idx_start`.
  unfoldable pub read_unaligned : ℕ → ℕ → ℕ → Volume → Outcome Read
  read_unaligned file start_B len v =
      let idx_start = start_B / clust_len in
      let start_by = start_B % clust_len in
      let control = (start_B + len) % u16_mod in
      let delta = clust_len - start_by - 1 in
      let next_len = (len % u16_mod + u16_mod - delta) % u16_mod in
      if len / clust_len % u16_mod == 0 && idx_start == control / clust_len
      then (read_part file idx_start start_by len v >>= λ (part, v').
          ok (record { err = 0; bytes = part; volume = v' }))
      else (read_part file idx_start start_by delta v >>= λ (head, v').
          read_data_again (idx_start + 1) next_len v' >>= λ r.
          if r.err == 0 then ok (record r { bytes = head ++ r.bytes }) else panic)

  unfoldable pub ngul_read_data : ℕ → ℕ → ℕ → Volume → Outcome Read
  ngul_read_data file start_B len v =
      if len == 0
      then ok (record { err = 0; bytes = []; volume = v })
      else if start_B % clust_len == 0
      then read_aligned file (start_B / clust_len) (len / clust_len % u16_mod) (len % clust_len) v
      else read_unaligned file start_B len v

  -- The number and the bytes read, the open file, and the volume.
  unfoldable pub pizza_read : File → ℕ → Volume → Outcome (ℕ × List ℕ × File × Volume)
  pizza_read f len v =
      let n = clipped f len in
      ngul_read_data f.file_id f.cursor n v >>= λ r.
      if r.err == 0
      then ok (n, r.bytes, record f { cursor = (f.cursor + n) % u32_mod }, r.volume)
      else panic

abbrev pub moved_to : File → ℕ → ℕ × File
moved_to f c = (c, record f { cursor = c })

-- The values of `whence`; any other leaves the file as it is and returns 1.
unfoldable pub pizza_lseek : File → ℕ → ℕ → ℕ × File
pizza_lseek f offset whence =
    if whence == 0
    then moved_to f offset
    else if whence == 1
    then moved_to f ((f.cursor + offset) % u32_mod)
    else if whence == 2
    then moved_to f ((f.len + offset) % u32_mod)
    else (1, f)
