-- ===== src/Thread.antt =====
-- thread.c: the scheduler. A thread is named by the address of its control block; the address of the
-- `run_list` in it stands for the same thread. The run queue is the ring at `rq`, the address of
-- `runqueue_head`, and the thread that runs is the first in it. Interrupts are off in each function
-- (`hal_irql_set`), so it is one step.
pub mod Schedule
pub mod Skip
pub mod Examples
use mikucos.Base.{ℕ, ◌==◌, Bool, if◌then◌else◌}
use mikucos.Base.Int.{ℤ, pos, ◌-ℤ◌, ◌≤ℤ◌, ltb_ℤ}
use mikucos.ListHead.{Ptr, Heap, write, list_del, list_add_tail}

-- 10 * HZ / 1000, with HZ = 500.
abbrev pub thread_initial_quantum : ℤ
thread_initial_quantum = pos 5

pub record System : Type 0 where
  pub heap : Heap
  pub quantum : Ptr → ℤ
  pub current_tcb : Ptr

abbrev pub with_heap : System → Heap → System
with_heap s h = record s { heap = h }

module _ (rq : Ptr) where
  -- `current_tcb = next`, with a new quantum if it has none left; the switch to its context follows.
  unfoldable pub run_next : System → System
  run_next s =
      let next = s.heap.next rq in
      record s {
        current_tcb = next;
        quantum =
            if ltb_ℤ (pos 0) (s.quantum next)
            then s.quantum
            else write s.quantum next thread_initial_quantum;
      }

  unfoldable pub thread_schedule_preempted_in_list : Ptr → System → System
  unfolding run_next
  thread_schedule_preempted_in_list list s =
      let prev = s.heap.next rq in
      let h = list_del prev s.heap in run_next (with_heap s (list_add_tail prev list h))

  unfoldable pub thread_schedule : System → System
  unfolding thread_schedule_preempted_in_list
  thread_schedule s = thread_schedule_preempted_in_list rq s

  unfoldable pub thread_wake : Ptr → System → System
  thread_wake thread s = with_heap s (list_add_tail thread rq s.heap)

  unfoldable pub thread_sleep : Ptr → System → System
  unfolding thread_schedule
  thread_sleep thread s =
      let s' = with_heap s (list_del thread s.heap) in
      if thread == s.current_tcb then thread_schedule s' else s'

  -- Where a thread function returns to.
  unfoldable pub thread_returned : System → System
  unfolding thread_schedule
  thread_returned s = thread_schedule (with_heap s (list_del (s.heap.next rq) s.heap))

  -- The part of `thread_timer_hook` that schedules: a tick of the timer, when a thread runs.
  unfoldable pub thread_timer_hook : System → System
  unfolding thread_schedule
  thread_timer_hook s =
      let left = s.quantum s.current_tcb -ℤ pos 1 in
      let s' = record s { quantum = write s.quantum s.current_tcb left } in
      if s.current_tcb == 0 then s else if ltb_ℤ (pos 0) left then s' else thread_schedule s'

  -- What `thread_create` does to the scheduler, for the control block that `malloc` has returned.
  unfoldable pub thread_create : Ptr → System → System
  unfolding thread_wake
  thread_create tcb s =
      thread_wake tcb (record s { quantum = write s.quantum tcb thread_initial_quantum })
