-- ===== src/Timer/Short.antt =====
-- A delay of less than a tick: `timer_register_delay` rounds it to 0, which the decrement of the first
-- tick wraps around.
use mikucos.Base.{
  ℕ, zero, suc, ◌+◌, ◌-◌, ◌%◌, ◌^◌, ◌≤◌, ◌≡◌, refl, false, some, List, [], ◌∷◌, ◌==◌, arith,
}
use mikucos.Base.Int.{pos, ◌*ℤ◌}
use mikucos.Timer.{TimerDelayEntry, delay_ticks, timer_register_delay, timer_delay_hook}
use mikucos.Timer.Events.{Event, tick_event, register, run}

pub ticks : ℕ → List Event
ticks zero = []
ticks (suc n) = tick_event ∷ ticks n

module _ {S : Type 0} (call : ℕ → ℕ → S → S) where
  hook-waits :
      (e : TimerDelayEntry) (s : S)
      → ((e.delay + 2 ^ 64 - 1) % 2 ^ 64 == 0) ≡ false
      → timer_delay_hook call (e ∷ []) s
        ≡ (record e { delay = (e.delay + 2 ^ 64 - 1) % 2 ^ 64 } ∷ [], s)
  unfolding timer_delay_hook
  hook-waits e s h = rw h refl

  quiet :
      (n : ℕ) (e : TimerDelayEntry) (s : S)
      → n ≤ (e.delay + 2 ^ 64 - 1) % 2 ^ 64
      → run call (ticks n) (e ∷ []) s ≡ some s
  unfolding run ticks
  quiet zero e s h = refl
  quiet (suc n) e s h =
      rw (run, hook-waits e s (ground arith))
        (quiet n (record e { delay = (e.delay + 2 ^ 64 - 1) % 2 ^ 64 }) s (omega arith))

  -- The callback of a delay of 1 millisecond is not called in the first 2^64 - 1 ticks, so a thread that
  -- calls `timer_delay(1)` is not woken.
  pub short_delay_quiet :
      (address callback arg flags n : ℕ) (s : S)
      → n ≤ 2 ^ 64 - 1
      → run call (register address (pos 1) callback arg flags ∷ ticks n) [] s ≡ some s
  unfolding run timer_register_delay delay_ticks ◌*ℤ◌
  short_delay_quiet address callback arg flags n s h = quiet n _ s (omega arith)
