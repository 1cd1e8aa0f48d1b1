-- ===== src/Thread/Examples.antt =====
-- Three threads in the run queue, and the theorems at them.
use mikucos.Base.{◌≡◌, ◌⊎◌, refl, true, false, [], ◌∷◌, arith}
use mikucos.Base.Int.{pos, ◌-ℤ◌, ltb_ℤ}
use mikucos.ListHead.{Heap, list_add_tail}
use mikucos.ListHead.Ring.{Ring}
use mikucos.Thread.{System, thread_schedule, thread_timer_hook}
use mikucos.Thread.Schedule.{Runs, thread_schedule-rotates, timer_hook-preempts}

-- The run queue at 100 with the threads 1, 2 and 3, and an empty ring at 200.
memory : Heap
unfolding list_add_tail
memory =
    list_add_tail 3 100
      (list_add_tail 2 100 (list_add_tail 1 100 (record { next = λ p. p; prev = λ p. p })))

abbrev busy : System
busy = record { heap = memory; quantum = λ t. pos 3; current_tcb = 1 }

busy-Runs : Runs 100 busy 1 (2 ∷ 3 ∷ [])
unfolding memory
busy-Runs = record {
  queue = record { links = omega arith; distinct = (refl, (refl, (refl, (refl, tt)))) };
  current = refl;
  quantum_pos = refl;
}

waiters-Ring : Ring memory 200 []
unfolding memory
waiters-Ring = record { links = omega arith; distinct = (refl, tt) }

thread_schedule-rotates_example : Runs 100 (thread_schedule 100 busy) 2 (3 ∷ 1 ∷ [])
thread_schedule-rotates_example = thread_schedule-rotates 100 busy 1 2 (3 ∷ []) busy-Runs.queue

timer_hook-preempts_example :
    ((ltb_ℤ (pos 1) (pos 3) ≡ true)
      × Runs 100 (thread_timer_hook 100 busy) 1 (2 ∷ 3 ∷ [])
      × ((thread_timer_hook 100 busy).quantum 1 ≡ pos 3 -ℤ pos 1))
    ⊎ ((ltb_ℤ (pos 1) (pos 3) ≡ false) × Runs 100 (thread_timer_hook 100 busy) 2 (3 ∷ 1 ∷ []))
timer_hook-preempts_example = timer_hook-preempts 100 busy 1 2 (3 ∷ []) (omega arith) busy-Runs
