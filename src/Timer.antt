-- ===== src/Timer.antt =====
-- timer.c: the list of the delays. It is that of the ring, from the head on; an entry is named by its
-- address. A callback is a function on the rest of the kernel, and does not touch the list. Interrupts
-- are off where the list is changed, so each function is one step.
pub mod Phase
pub mod Calendar
pub mod Delays
pub mod Events
pub mod Short
pub mod Examples
use mikucos.Base.{
  ℕ, suc, ◌+◌, ◌-◌, ◌/◌, ◌%◌, ◌^◌, Bool, Option, none, some, List, [], ◌∷◌, ◌++◌, ◌==◌,
  if◌then◌else◌,
}
use mikucos.Base.Int.{ℤ, pos, negsuc, ◌*ℤ◌, wrap32}

-- `delay` and `delay_start` are of 64 bits, without a sign. `arg` is the address that the callback gets.
pub record TimerDelayEntry : Type 0 where
  pub address : ℕ
  pub delay : ℕ
  pub delay_start : ℕ
  pub callback : ℕ
  pub arg : ℕ
  pub flags : ℕ

-- `flags & TIMER_ONESHOT`
abbrev pub oneshot : TimerDelayEntry → Bool
oneshot e = (e.flags % 2) == 1

-- An `int` as a number of 64 bits without a sign, of what is left of it when it is divided by 1000.
abbrev thousandth : ℤ → ℕ
thousandth (pos n) = n / 1000
thousandth (negsuc n) = (2 ^ 64 - suc n / 1000) % 2 ^ 64

-- `msec*HZ/1000`, with HZ = 500.
unfoldable pub delay_ticks : ℤ → ℕ
delay_ticks msec = thousandth (wrap32 (msec *ℤ pos 500))

-- `address` is what `hmalloc` returns.
unfoldable pub timer_register_delay :
    ℕ → ℤ → ℕ → ℕ → ℕ → List TimerDelayEntry → List TimerDelayEntry
timer_register_delay address msec callback arg flags delay_list =
    delay_list
    ++ record {
      address = address;
      delay = delay_ticks msec;
      delay_start = delay_ticks msec;
      callback = callback;
      arg = arg;
      flags = flags;
    }
      ∷ []

-- An entry that is not in the list, as one that has been called for the only time, has the neighbours
-- that it had when it was taken out, and `list_del` writes their pointers: none stands for that, whose
-- effect on the list is left out.
unfoldable pub timer_unregister_delay : ℕ → List TimerDelayEntry → Option (List TimerDelayEntry)
timer_unregister_delay address [] = none
timer_unregister_delay address (entry ∷ delay_list) =
    let rest = timer_unregister_delay address delay_list in
    if entry.address == address
    then some delay_list
    else elim rest [ none ↦ none | some others ↦ some (entry ∷ others) ]

module _ {S : Type 0} (call : ℕ → ℕ → S → S) where
  unfoldable pub timer_delay_hook : List TimerDelayEntry → S → List TimerDelayEntry × S
  timer_delay_hook [] s = ([], s)
  timer_delay_hook (entry ∷ delay_list) s =
      let delay = (entry.delay + 2 ^ 64 - 1) % 2 ^ 64 in
      let fired = timer_delay_hook delay_list (call entry.callback entry.arg s) in
      let waiting = timer_delay_hook delay_list s in
      if delay == 0
      then (
        if oneshot entry then fired.0 else record entry { delay = entry.delay_start } ∷ fired.0,
        fired.1,
      )
      else (record entry { delay = delay } ∷ waiting.0, waiting.1)
