-- ===== src/Sync.antt =====
-- mutex.c and condvar.c: locks and condition variables for threads. A mutex is a lock word and a ring
-- of waiting threads at `lazy_list`, a condition variable is such a ring; `rq` is the address of
-- `runqueue_head`. A function that switches to another thread is one step up to the switch.
pub mod Wake
pub mod Mutexes
pub mod Condvars
pub mod Examples
use mikucos.Base.{ℕ, zero, suc, Bool, true, false, ◌==◌, if◌then◌else◌, not}
use mikucos.Base.Outcome.{Outcome, ok, panic, blocked, ◌>>=◌}
use mikucos.SpinLock.{SpinLock, spin_lock_initializer, spin_try_lock, spin_unlock}
use mikucos.ListHead.{Ptr, Heap, list_del, list_add_tail, list_empty, init_list_head}
use mikucos.Thread.{System, with_heap, run_next, thread_schedule_preempted_in_list}

pub record Mutex : Type 0 where
  pub spin_lock : SpinLock
  pub lazy_list : Ptr

-- `mutex_init_mutex`, for the mutex whose `lazy_list` is at that address.
unfoldable pub mutex_init_mutex : Ptr → Heap → Mutex × Heap
mutex_init_mutex lazy h =
    (record { spin_lock = spin_lock_initializer; lazy_list = lazy }, init_list_head lazy h)

unfoldable pub mutex_trylock : Mutex → Bool × Mutex
unfolding spin_try_lock
mutex_trylock m = let (taken, l) = spin_try_lock m.spin_lock in (taken, record m { spin_lock = l })

module _ (rq : Ptr) where
  -- `list_for_each_safe` over the ring at `head`, with the move of each thread to the run queue. The
  -- rounds are counted by the first argument; `blocked` is a ring that does not end within them.
  unfoldable pub wake_loop : ℕ → (head pos tmp : Ptr) → Heap → Outcome Heap
  wake_loop zero head pos tmp h = blocked
  wake_loop (suc k) head pos tmp h =
      let h' = list_add_tail pos rq (list_del pos h) in
      let rest = wake_loop k head tmp (h'.next tmp) h' in if pos == head then ok h else rest

  unfoldable pub wake_all : ℕ → Ptr → Heap → Outcome Heap
  unfolding wake_loop
  wake_all k head h = wake_loop k head (h.next head) (h.next (h.next head)) h

  -- One round of the loop in `mutex_lock`: the lock is taken, or the thread waits and another runs.
  unfoldable pub mutex_lock_round : Mutex → System → Bool × Mutex × System
  unfolding mutex_trylock
  mutex_lock_round m s =
      let (taken, m') = mutex_trylock m in
      (taken, m', (if taken then s else thread_schedule_preempted_in_list rq m.lazy_list s))

  unfoldable pub mutex_unlock : ℕ → Mutex → System → Outcome (Mutex × System)
  unfolding wake_all spin_unlock
  mutex_unlock k m s = if m.spin_lock == spin_lock_initializer then panic else (do
    h ← wake_all k m.lazy_list s.heap
    ok (record m { spin_lock = spin_unlock m.spin_lock }, with_heap s h))

  unfoldable pub condvar_signal : Ptr → System → System
  condvar_signal lazy s =
      let tmp = s.heap.next lazy in
      if list_empty lazy s.heap then s else with_heap s (list_add_tail tmp rq (list_del tmp s.heap))

  unfoldable pub condvar_broadcast : ℕ → Ptr → System → Outcome System
  unfolding wake_all
  condvar_broadcast k lazy s = do h ← wake_all k lazy s.heap; ok (with_heap s h)

  -- Up to the switch to the next thread; `mutex_lock` follows when this one runs again.
  unfoldable pub condvar_wait : ℕ → Ptr → Mutex → System → Outcome (Mutex × System)
  unfolding mutex_unlock run_next
  condvar_wait k lazy m s = do
    (m', s') ← mutex_unlock k m s
    let prev = s'.heap.next rq
    ok (m', run_next rq (with_heap s' (list_add_tail prev lazy (list_del prev s'.heap))))
