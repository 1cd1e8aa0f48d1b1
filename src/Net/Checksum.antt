-- ===== src/Net/Checksum.antt =====
-- The checksums of net/checksum.c verify.
use mikucos.Base.{
  ℕ, zero, suc, ◌+◌, ◌-◌, ◌*◌, ◌/◌, ◌%◌, ◌^◌, ◌<◌, ◌≤◌, ◌≡◌, ◌≢◌, ◌⊎◌, inl, inr, refl, ap, ◌∙◌,
  arith,
}
use mikucos.Net.{
  halfword, sum_loop, fold_carries, ip_sum_calc, set_check, ip_checksum, icmp_checksum,
}

abbrev pub Bytes : (ℕ → ℕ) → Type 0
Bytes frame = (j : ℕ) → frame j < 256

-- The sum of `n` words from `i` on, in any number of bits.
total : ℕ → ℕ → (ℕ → ℕ) → ℕ
total zero i buff = 0
total (suc n) i buff = halfword buff i + total n (i + 1) buff

total-le : (n i : ℕ) (buff : ℕ → ℕ) → Bytes buff → total n i buff ≤ n * 65535
unfolding total
total-le zero i buff h = omega arith
total-le (suc n) i buff h = omega (arith, total-le n (i + 1) buff h, h (2 * i), h (2 * i + 1))

sum_loop-total :
    (n i sum : ℕ) (buff : ℕ → ℕ)
    → sum + total n i buff < 2 ^ 32
    → sum_loop n i sum buff ≡ sum + total n i buff
unfolding sum_loop total
sum_loop-total zero i sum buff h = omega arith
sum_loop-total (suc n) i sum buff h =
    let small : (sum + halfword buff i) % 2 ^ 32 ≡ sum + halfword buff i = omega arith in
    rw small (sum_loop-total n (i + 1) (sum + halfword buff i) buff (omega arith) ∙ omega arith)

words-total :
    (n : ℕ) (buff : ℕ → ℕ) → total n 0 buff < 2 ^ 32 → sum_loop n 0 0 buff ≡ total n 0 buff
words-total n buff h = omega (arith, sum_loop-total n 0 0 buff (omega arith))

fold_carries-cases :
    (s : ℕ)
    → ((s < 65536) × (fold_carries 2 s ≡ s))
      ⊎ (((65536 ≤ s)
            × (s % 65536 + s / 65536 < 65536)
            × (fold_carries 2 s ≡ s % 65536 + s / 65536))
          ⊎ ((65536 ≤ s % 65536 + s / 65536)
              × (fold_carries 2 s
                  ≡ (s % 65536 + s / 65536) % 65536 + (s % 65536 + s / 65536) / 65536)))
unfolding fold_carries
fold_carries-cases s = ground arith

-- Folding keeps the sum modulo 65535, and a positive one positive.
fold_carries-mod :
    (s : ℕ)
    → s < 2 ^ 32
    → (fold_carries 2 s < 65536)
      × ((q : ℕ) × (fold_carries 2 s + 65535 * q ≡ s))
      × ((s ≡ 0) ⊎ (0 < fold_carries 2 s))
fold_carries-mod s h = elim (fold_carries-cases s) [
  | inl (l, e) ↦ (omega arith, (0, omega arith), omega arith)
  | inr (inl (l, m, e)) ↦ (omega arith, (s / 65536, omega arith), omega arith)
  | inr (inr (l, e)) ↦
      (omega arith, (s / 65536 + (s % 65536 + s / 65536) / 65536, omega arith), omega arith)
]

-- A positive multiple of 65535 folds to 65535.
fold_carries-multiple : (s q : ℕ) → s < 2 ^ 32 → s ≡ 65535 * q → 0 < q → fold_carries 2 s ≡ 65535
fold_carries-multiple s q h e p = let (l, (q', m), z) = fold_carries-mod s h in omega arith

halfword-other :
    (i c : ℕ) (frame : ℕ → ℕ) → i ≢ 5 → halfword (set_check c frame) i ≡ halfword frame i
halfword-other i c frame h = ground arith

halfword-check : (i c : ℕ) (frame : ℕ → ℕ) → i ≡ 5 → c < 65536 → halfword (set_check c frame) i ≡ c
halfword-check i c frame e h = ground arith

-- The words before the field and behind it do not change with it.
total-same :
    (n i c : ℕ) (frame : ℕ → ℕ)
    → (i + n ≤ 5) ⊎ (5 < i)
    → total n i (set_check c frame) ≡ total n i frame
unfolding total
total-same zero i c frame h = refl
total-same (suc n) i c frame h =
    omega
      (arith, halfword-other i c frame (omega arith), total-same n (i + 1) c frame (omega arith))

total-check :
    (n i c : ℕ) (frame : ℕ → ℕ)
    → i ≤ 5
    → 5 < i + n
    → c < 65536
    → halfword frame 5 ≡ 0
    → total n i (set_check c frame) ≡ c + total n i frame
unfolding total
total-check zero i c frame h k b z = absurd (omega arith)
total-check (suc n) i c frame h k b z =
    let cases : (i ≡ 5) ⊎ (i < 5) = omega arith in
    elim cases [
      | inl e ↦ omega (
        arith,
        halfword-check i c frame e b,
        ap (halfword frame) e,
        total-same n (i + 1) c frame (omega arith),
      )
      | inr d ↦ omega (
        arith,
        halfword-other i c frame (omega arith),
        total-check n (i + 1) c frame (omega arith) (omega arith) b z,
      )
    ]

set_check-Bytes : (c : ℕ) (frame : ℕ → ℕ) → Bytes frame → Bytes (set_check c frame)
set_check-Bytes c frame h j = ground (arith, h j)

-- A frame of `n` words whose field has the sum of the others verifies.
sum-verifies :
    (len : ℕ) (frame : ℕ → ℕ)
    → 12 ≤ len
    → len < 2 ^ 16
    → Bytes frame
    → ip_sum_calc len (set_check (ip_sum_calc len (set_check 0 frame)) (set_check 0 frame)) ≡ 0
unfolding ip_sum_calc
sum-verifies len frame low high h =
    let f0 : ℕ → ℕ = set_check 0 frame in
    let h0 : Bytes f0 = set_check-Bytes 0 frame h in
    let n : ℕ = len / 2 in
    let s0 : sum_loop n 0 0 f0 ≡ total n 0 f0 =
      words-total n f0 (omega (arith, total-le n 0 f0 h0)) in
    let (l, (q, m), z) = fold_carries-mod (total n 0 f0) (omega (arith, total-le n 0 f0 h0)) in
    let c : ℕ = 65535 - fold_carries 2 (total n 0 f0) % 65536 in
    let t1 : total n 0 (set_check c f0) ≡ c + total n 0 f0 =
      total-check n 0 c f0 (omega arith) (omega arith) (omega arith)
        (halfword-check 5 0 frame refl (omega arith)) in
    let s1 : sum_loop n 0 0 (set_check c f0) ≡ total n 0 (set_check c f0) =
      words-total n (set_check c f0) (omega (arith, total-le n 0 f0 h0)) in
    let f1 : fold_carries 2 (total n 0 (set_check c f0)) ≡ 65535 =
      fold_carries-multiple (total n 0 (set_check c f0)) (q + 1) (omega (arith, total-le n 0 f0 h0))
        (omega arith) (omega arith) in
    rw s0 (rw s1 (rw f1 refl))

-- `ip_checksum` of a frame makes the checksum of its 20 bytes verify, that is, `ip_sum_calc` gives
-- 0, whatever was in the field `check` before; `icmp_checksum` does so for 136 bytes. Both write
-- bytes, and change no other byte than the two of the field.
pub ip_checksum-verifies :
    (frame : ℕ → ℕ) (j : ℕ)
    → Bytes frame
    → j ≢ 10
    → j ≢ 11
    → ((ip_sum_calc 20 (ip_checksum frame) ≡ 0) × (ip_sum_calc 136 (icmp_checksum frame) ≡ 0))
      × (Bytes (ip_checksum frame) × Bytes (icmp_checksum frame))
      × ((ip_checksum frame j ≡ frame j) × (icmp_checksum frame j ≡ frame j))
unfolding ip_checksum icmp_checksum
ip_checksum-verifies frame j h d e =
    let h0 = set_check-Bytes 0 frame h in
    (
      (
        sum-verifies 20 frame (omega arith) (omega arith) h,
        sum-verifies 136 frame (omega arith) (omega arith) h,
      ),
      (
        set_check-Bytes (ip_sum_calc 20 (set_check 0 frame)) (set_check 0 frame) h0,
        set_check-Bytes (ip_sum_calc 136 (set_check 0 frame)) (set_check 0 frame) h0,
      ),
      (ground arith, ground arith),
    )
