-- ===== src/Timer/Calendar.antt =====
-- The calendar of the delays, and what a tick makes of one of them.
use native.Mathlib.Nat.{mod-lt, mod-eq_of_lt}
use mikucos.Base.{
  ℕ, suc, ◌+◌, ◌-◌, ◌%◌, ◌^◌, ◌<◌, ◌≡◌, refl, ap, inl, inr, Bool, true, false, ◌&&◌, List, [], ◌∷◌,
  ◌==◌, leb, if◌then◌else◌, arith, Bool-cases,
}
use mikucos.Timer.{TimerDelayEntry, oneshot}
use mikucos.Timer.Phase.{suc-mod_cases}

-- A delay that was registered when `since` ticks had gone by.
pub record Registered : Type 0 where
  pub since : ℕ
  pub entry : TimerDelayEntry

-- As `timer_register_delay` leaves an entry, of at least one tick.
abbrev pub IsFresh : TimerDelayEntry → Type 0
IsFresh e = (0 < e.delay_start) × (e.delay_start < 2 ^ 64) × (e.delay ≡ e.delay_start)

-- A delay of this age is called: once, or at each multiple of its delay.
abbrev pub due : TimerDelayEntry → ℕ → Bool
due e age = if oneshot e then age == e.delay_start else (age % e.delay_start) == 0

-- A delay that is called only once has had its call at this age.
abbrev pub over : TimerDelayEntry → ℕ → Bool
over e age = oneshot e && leb e.delay_start age

-- The entry at this age, if it is still in the list.
abbrev pub aged : TimerDelayEntry → ℕ → TimerDelayEntry
aged e age = record e { delay = e.delay_start - age % e.delay_start }

-- The list of the delays after `t` ticks.
unfoldable pub list_at : ℕ → List Registered → List TimerDelayEntry
list_at t [] = []
list_at t (r ∷ rs) =
    let rest = list_at t rs in
    if over r.entry (t - r.since) then rest else aged r.entry (t - r.since) ∷ rest

-- What `timer_delay_hook` makes of the delay.
abbrev pub down : ℕ → ℕ
down d = (d + 2 ^ 64 - 1) % 2 ^ 64

down-pred : (d : ℕ) → 0 < d → d < 2 ^ 64 → down d ≡ d - 1
down-pred d h k = omega arith

-- A tick for a delay of this age: it is over, it is called for the only time, it is called and begins
-- again, or it waits.
pub data Tick (e : TimerDelayEntry) (age : ℕ) : Type 0 where
  was_over : over e age ≡ true → over e (suc age) ≡ true → due e (suc age) ≡ false → Tick e age
  fires_once :
      over e age ≡ false
      → (down (aged e age).delay == 0) ≡ true
      → oneshot e ≡ true
      → due e (suc age) ≡ true
      → over e (suc age) ≡ true
      → Tick e age
  fires :
      over e age ≡ false
      → (down (aged e age).delay == 0) ≡ true
      → oneshot e ≡ false
      → due e (suc age) ≡ true
      → over e (suc age) ≡ false
      → aged e (suc age) ≡ record e { delay = e.delay_start }
      → Tick e age
  waits :
      over e age ≡ false
      → (down (aged e age).delay == 0) ≡ false
      → due e (suc age) ≡ false
      → over e (suc age) ≡ false
      → aged e (suc age) ≡ record e { delay = down (aged e age).delay }
      → Tick e age

set_delay :
    (e : TimerDelayEntry) (a b : ℕ) → a ≡ b → record e { delay = a } ≡ record e { delay = b }
set_delay e a b h = ap (λ d. record e { delay = d }) h

once-Tick : (e : TimerDelayEntry) (age : ℕ) → IsFresh e → oneshot e ≡ true → Tick e age
once-Tick e age h o = elim (Bool-cases (leb e.delay_start age)) [
  | inl l ↦ was_over (rw (o, l) refl) (rw o (ground arith)) (rw o (ground arith))
  | inr l ↦
      let now : age % e.delay_start ≡ age = mod-eq_of_lt (ground arith) in
      let left = down-pred (e.delay_start - age) (ground arith) (omega arith) in
      elim (Bool-cases (suc age == e.delay_start)) [
        | inl k ↦
            fires_once (rw (o, l) refl) (rw (now, left) (ground arith)) o (rw (o, k) refl)
              (rw o (ground arith))
        | inr k ↦
            let next : suc age % e.delay_start ≡ suc age = mod-eq_of_lt (ground arith) in
            waits (rw (o, l) refl) (rw (now, left) (ground arith)) (rw (o, k) refl)
              (rw o (ground arith)) (set_delay e _ _ (rw (now, next, left) (omega arith)))
      ]
]

again-Tick : (e : TimerDelayEntry) (age : ℕ) → IsFresh e → oneshot e ≡ false → Tick e age
again-Tick e age h o =
    let low = mod-lt age h.0 in
    let left = down-pred (e.delay_start - age % e.delay_start) (omega arith) (omega arith) in
    elim (suc-mod_cases age e.delay_start h.0) [
      | inl (last, k) ↦
          fires (rw o refl) (rw left (ground arith)) o (rw (o, k) refl) (rw o refl)
            (set_delay e _ _ (rw k (omega arith)))
      | inr (l, k) ↦
          waits (rw o refl) (rw left (ground arith)) (rw (o, k) (ground arith)) (rw o refl)
            (set_delay e _ _ (rw (k, left) (omega arith)))
    ]

pub tick : (e : TimerDelayEntry) (age : ℕ) → IsFresh e → Tick e age
tick e age h = elim (Bool-cases (oneshot e)) [
  | inl o ↦ once-Tick e age h o
  | inr o ↦ again-Tick e age h o
]
