-- ===== src/Sync/Mutexes.antt =====
-- What mutex.c promises to the threads.
use mikucos.Base.{
  ℕ, ◌<◌, ◌≡◌, ◌≢◌, ◌⊎◌, inl, inr, true, false, List, [], ◌∷◌, ◌++◌, arith, ◌==◌, length,
}
use mikucos.Base.Outcome.{ok, panic}
use mikucos.SpinLock.{spin_lock_initializer}
use mikucos.ListHead.{Ptr}
use mikucos.ListHead.Ring.{Ring}
use mikucos.Thread.{System, with_heap}
use mikucos.Thread.Schedule.{Apart, Runs, preempted_in_list-waits}
use mikucos.Sync.{Mutex, mutex_lock_round, mutex_unlock}
use mikucos.Sync.Wake.{wake_all-Woken}

free_cases :
    (m : Mutex) → (m.spin_lock ≡ spin_lock_initializer) ⊎ (m.spin_lock ≢ spin_lock_initializer)
free_cases m = grind arith

-- One round of `mutex_lock`, by the running thread `t`, leaves the mutex locked. If it was free, `t` has
-- taken it and runs on, and nothing else has changed; if it was held, `t` has not taken it, waits last
-- in the list of the mutex, and the next thread runs.
pub mutex_lock_round-excludes :
    (rq : Ptr) (m : Mutex) (s : System) (t u : Ptr) (ts ws : List Ptr)
    → Runs rq s t (u ∷ ts)
    → Ring s.heap m.lazy_list ws
    → Apart (rq ∷ t ∷ u ∷ ts) (m.lazy_list ∷ ws)
    → ((mutex_lock_round rq m s).1.spin_lock ≢ spin_lock_initializer)
      × (((m.spin_lock ≡ spin_lock_initializer)
            × ((mutex_lock_round rq m s).0 ≡ true)
            × ((mutex_lock_round rq m s).2 ≡ s))
          ⊎ ((m.spin_lock ≢ spin_lock_initializer)
              × ((mutex_lock_round rq m s).0 ≡ false)
              × Runs rq (mutex_lock_round rq m s).2 u ts
              × Ring (mutex_lock_round rq m s).2.heap m.lazy_list (ws ++ (t ∷ []))))
unfolding mutex_lock_round
mutex_lock_round-excludes rq m s t u ts ws r q apart = (
  omega arith,
  elim (free_cases m) [
    | inl free ↦ inl (free, ground arith, rw free)
    | inr held ↦
        let e : (m.spin_lock == 0) ≡ false = ground arith in
        let waits = preempted_in_list-waits rq m.lazy_list s t u ts ws r.queue q apart in
        inr (held, e, rw e waits.0, rw e waits.1)
  ],
)

-- `mutex_unlock` panics on a mutex that is free. It frees one that is held, whatever waits: all the
-- threads that wait for it, fewer than the rounds counted, go to the end of the run queue, and the
-- running thread runs on.
pub mutex_unlock-wakes :
    (rq k : ℕ) (m : Mutex) (s : System) (t : Ptr) (ts ws : List Ptr)
    → Runs rq s t ts
    → Ring s.heap m.lazy_list ws
    → Apart (m.lazy_list ∷ ws) (rq ∷ t ∷ ts)
    → length ws < k
    → ((m.spin_lock ≡ spin_lock_initializer) × (mutex_unlock rq k m s ≡ panic))
      ⊎ ((m.spin_lock ≢ spin_lock_initializer)
          × ((s' : System) × (mutex_unlock rq k m s
                ≡ ok (record m { spin_lock = spin_lock_initializer }, s'))
              × Runs rq s' t (ts ++ ws)
              × Ring s'.heap m.lazy_list []))
unfolding mutex_unlock
mutex_unlock-wakes rq k m s t ts ws r q apart fuel = elim (free_cases m) [
  | inl free ↦ inl (free, rw (free, mutex_unlock))
  | inr held ↦
      let e : (m.spin_lock == 0) ≡ false = ground arith in
      let (g, run, w) = wake_all-Woken rq k q r.queue apart fuel in
      inr (
        held,
        (
          with_heap s g,
          rw (e, run),
          record { queue = w.queue; current = r.current; quantum_pos = r.quantum_pos },
          w.waiters,
        ),
      )
]
