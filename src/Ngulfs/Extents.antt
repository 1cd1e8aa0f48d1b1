-- ===== src/Ngulfs/Extents.antt =====
-- Extent lists: the logical cluster of each virtual one.
use native.Mathlib.Decide.{dec_lt}
use native.Mathlib.Nat.{zero-add, suc-add}
use mikucos.Base.{
  ℕ, zero, suc, ◌+◌, ◌-◌, ◌%◌, ◌<◌, ◌≡◌, refl, sym, ap, ◌∙◌, false, List, [], ◌∷◌, ◌++◌,
  if◌then◌else◌, ◌==◌, ltb, leb, lt→ltb, arith, take, get_or,
}
use mikucos.Ngulfs.{
  u32_mod, Extent, get_lcn_loop, get_lcn, free_region_loop, max_free_region,
  ngul_find_next_free_region,
}

-- `n` clusters one behind the other from `lcn` on, as numbers of 32 bits.
abbrev pub clusters_from : ℕ → ℕ → List ℕ
clusters_from lcn zero = []
clusters_from lcn (suc n) = (lcn % u32_mod) ∷ clusters_from (lcn + 1) n

-- The clusters of a file in their order.
abbrev pub expand : List Extent → List ℕ
expand [] = []
expand (e ∷ list) = clusters_from e.lcn e.len ++ expand list

abbrev pub total_len : List Extent → ℕ
total_len [] = 0
total_len (e ∷ list) = e.len + total_len list

clusters_from-hit :
    (lcn n k : ℕ) (rest : List ℕ) (d : ℕ)
    → k < n
    → get_or (clusters_from lcn n ++ rest) k d ≡ (lcn + k) % u32_mod
clusters_from-hit lcn zero k rest d h = absurd (omega arith)
clusters_from-hit lcn (suc n) zero rest d h = omega arith
clusters_from-hit lcn (suc n) (suc k) rest d h =
    clusters_from-hit (lcn + 1) n k rest d (omega arith) ∙ omega arith

clusters_from-miss :
    (lcn n k : ℕ) (rest : List ℕ) (d : ℕ)
    → get_or (clusters_from lcn n ++ rest) (n + k) d ≡ get_or rest k d
clusters_from-miss lcn zero k rest d = rw zero-add
clusters_from-miss lcn (suc n) k rest d = rw suc-add (clusters_from-miss (lcn + 1) n k rest d)

get_lcn_loop-expand :
    (list : List Extent) (before k : ℕ)
    → before + total_len list < u32_mod
    → get_lcn_loop list (before + k) before ≡ get_or (expand list) k (u32_mod - 1)
unfolding get_lcn_loop
get_lcn_loop-expand [] before k h = refl
get_lcn_loop-expand (e ∷ list) before k h =
    let current : (before + e.len) % u32_mod ≡ before + e.len = omega arith in
    rw current (elim (dec_lt k e.len) [
      | yes inside ↦
          rw (lt→ltb (before + k) (before + e.len) (omega arith))
            (omega arith ∙ sym (clusters_from-hit e.lcn e.len k (expand list) (u32_mod - 1) inside))
      | no behind ↦
          let rest = k - e.len in
          let skipped : k ≡ e.len + rest = omega arith in
          let test : ltb (before + k) (before + e.len) ≡ false = ground arith in
          let same : before + k ≡ before + e.len + rest = omega arith in
          let found : get_or (clusters_from e.lcn e.len ++ expand list) k (u32_mod - 1)
              ≡ get_or (expand list) rest (u32_mod - 1) =
            ap (λ n. get_or (clusters_from e.lcn e.len ++ expand list) n (u32_mod - 1)) skipped
            ∙ clusters_from-miss e.lcn e.len rest (expand list) (u32_mod - 1) in
          rw test (
            ap (λ n. get_lcn_loop list n (before + e.len)) same
            ∙ get_lcn_loop-expand list (before + e.len) rest (omega arith)
            ∙ sym found)
    ])

-- For extents of fewer than 2^32 clusters together, `get_lcn` returns the entry `vcn` of the file's
-- clusters in their order, and -1 when there are not so many.
pub get_lcn-expand :
    (list : List Extent) (len vcn : ℕ)
    → total_len (take len list) < u32_mod
    → get_lcn list len vcn ≡ get_or (expand (take len list)) vcn (u32_mod - 1)
unfolding get_lcn
get_lcn-expand list len vcn h =
    rw (zero-add vcn) at
      (get_lcn_loop-expand (take len list) 0 vcn (rw (zero-add (total_len (take len list))) h))

-- The index of the last entry, below `i`, that has `len` clusters.
abbrev pub last_fit : (ℕ → Extent) → ℕ → ℕ → ℕ
last_fit ptr len zero = 0
last_fit ptr len (suc i) = if leb len (ptr i).len then i else last_fit ptr len i

free_region_loop-last_fit :
    (ptr : ℕ → Extent) (len n found first : ℕ)
    → free_region_loop ptr len n found first
      ≡ (if leb len found then first else if n == 0 then first else (ptr (last_fit ptr len n)).lcn)
unfolding free_region_loop
free_region_loop-last_fit ptr len zero found first = ground arith
free_region_loop-last_fit ptr len (suc zero) found first = ground arith
free_region_loop-last_fit ptr len (suc (suc i)) found first =
    ground (arith, free_region_loop-last_fit ptr len (suc i) (ptr (suc i)).len (ptr (suc i)).lcn)

-- For at least one cluster, `ngul_find_next_free_region` returns the start of the last region that
-- has `len` clusters; when none has, it does not fail, but returns the start of region 0.
pub free_region-last_fit :
    (ptr : ℕ → Extent) (len : ℕ)
    → 0 < len
    → ngul_find_next_free_region ptr len ≡ (ptr (last_fit ptr len max_free_region)).lcn
unfolding ngul_find_next_free_region
free_region-last_fit ptr len h =
    free_region_loop-last_fit ptr len max_free_region 0 0 ∙ ground arith
