-- ===== src/Timer/Phase.antt =====
-- The age of a periodic delay, in ticks, by its period.
use native.Mathlib.Nat.{suc-mod, mod-lt, mod-eq_of_lt, mod_self}
use mikucos.Base.{ℕ, suc, ◌%◌, ◌<◌, ◌≡◌, ap, ◌∙◌, ◌⊎◌, inl, inr, ◌==◌, arith, Bool-cases}

-- One more tick begins the period again, or goes on in it.
pub suc-mod_cases :
    (t p : ℕ)
    → 0 < p
    → ((suc (t % p) ≡ p) × (suc t % p ≡ 0)) ⊎ ((suc (t % p) < p) × (suc t % p ≡ suc (t % p)))
suc-mod_cases t p h =
    let low = mod-lt t h in
    elim (Bool-cases (suc (t % p) == p)) [
      | inl e ↦
          let last : suc (t % p) ≡ p = ground arith in
          inl (last, suc-mod t p ∙ ap (λ k. k % p) last ∙ mod_self p)
      | inr e ↦ let l : suc (t % p) < p = ground arith in inr (l, suc-mod t p ∙ mod-eq_of_lt l)
    ]
