-- ===== src/Sync/Condvars.antt =====
-- What condvar.c promises to the threads.
use mikucos.Base.{ℕ, ◌<◌, ◌≡◌, ◌≢◌, true, false, List, [], ◌∷◌, ◌++◌, arith, ◌==◌, length}
use mikucos.Base.Outcome.{ok}
use mikucos.SpinLock.{spin_lock_initializer}
use mikucos.ListHead.{Ptr, list_del, list_add_tail, list_empty}
use mikucos.ListHead.Ring.{mem, Ring, Ring-frame, mem-append}
use mikucos.Thread.{System, with_heap, run_next}
use mikucos.Thread.Schedule.{Apart, Runs, run_next-Runs, move-Ring}
use mikucos.Sync.{Mutex, condvar_signal, condvar_broadcast, condvar_wait}
use mikucos.Sync.Wake.{wake_all-Woken}

-- `condvar_signal` wakes the thread that has waited longest: it goes to the end of the run queue, the
-- others wait on, and the running thread runs on.
pub condvar_signal-wakes_first :
    (rq lazy : Ptr) (s : System) (t w : Ptr) (ts ws : List Ptr)
    → Runs rq s t ts
    → Ring s.heap lazy (w ∷ ws)
    → Apart (lazy ∷ w ∷ ws) (rq ∷ t ∷ ts)
    → Runs rq (condvar_signal rq lazy s) t (ts ++ (w ∷ []))
      × Ring (condvar_signal rq lazy s).heap lazy ws
unfolding condvar_signal list_empty
condvar_signal-wakes_first rq lazy s t w ts ws r q apart =
    let e : (s.heap.next lazy == lazy) ≡ false = ground (arith, q.links.0, q.distinct.0) in
    let moved = move-Ring w [] ws (t ∷ ts) q r.queue apart in
    rw e (
      rw q.links.0
        (record { queue = moved.1; current = r.current; quantum_pos = r.quantum_pos }, moved.0))

-- `condvar_broadcast` wakes all the threads that wait, if they are fewer than the rounds counted: they
-- go to the end of the run queue in their order, and the running thread runs on.
pub condvar_broadcast-wakes :
    (rq k : ℕ) (lazy : Ptr) (s : System) (t : Ptr) (ts ws : List Ptr)
    → Runs rq s t ts
    → Ring s.heap lazy ws
    → Apart (lazy ∷ ws) (rq ∷ t ∷ ts)
    → length ws < k
    → (s' : System) × (condvar_broadcast rq k lazy s ≡ ok s')
      × Runs rq s' t (ts ++ ws)
      × Ring s'.heap lazy []
unfolding condvar_broadcast
condvar_broadcast-wakes rq k lazy s t ts ws r q apart fuel =
    let (g, run, w) = wake_all-Woken rq k q r.queue apart fuel in
    (
      with_heap s g,
      rw (run, condvar_broadcast),
      record { queue = w.queue; current = r.current; quantum_pos = r.quantum_pos },
      w.waiters,
    )

-- `condvar_wait` by the thread `t`, which holds the mutex: the mutex is free again and the threads that
-- waited for it, `ms`, are in the run queue; `t` waits last at the condition variable, and the next
-- thread `u` runs.
pub condvar_wait-waits :
    (rq k lazy : ℕ) (m : Mutex) (s : System) (t u : Ptr) (ts ms ws : List Ptr)
    → Runs rq s t (u ∷ ts)
    → Ring s.heap m.lazy_list ms
    → Ring s.heap lazy ws
    → Apart (m.lazy_list ∷ ms) (rq ∷ t ∷ u ∷ ts)
    → Apart (lazy ∷ ws) (rq ∷ t ∷ u ∷ ts)
    → Apart (lazy ∷ ws) (m.lazy_list ∷ ms)
    → m.spin_lock ≢ spin_lock_initializer
    → length ms < k
    → (s' : System) × (condvar_wait rq k lazy m s
        ≡ ok (record m { spin_lock = spin_lock_initializer }, s'))
      × Runs rq s' u (ts ++ ms)
      × Ring s'.heap lazy (ws ++ (t ∷ []))
unfolding condvar_wait
condvar_wait-waits rq k lazy m s t u ts ms ws r q v apart_m apart_r apart_w held fuel =
    let e : (m.spin_lock == 0) ≡ false = ground arith in
    let (g, run, w) = wake_all-Woken rq k q r.queue apart_m fuel in
    let v' : Ring g lazy ws =
      Ring-frame lazy ws v (λ c i. w.outside c (apart_w c i) (apart_r c i)) in
    let moved = move-Ring t [] (u ∷ (ts ++ ms)) ws w.queue v' apart in
    (
      run_next rq (with_heap s (list_add_tail t lazy (list_del t g))),
      rw (e, run, w.queue.links.0),
      run_next-Runs rq (with_heap s (list_add_tail t lazy (list_del t g))) u (ts ++ ms) moved.0,
      moved.1,
    )
  where
    apart : Apart (rq ∷ t ∷ u ∷ (ts ++ ms)) (lazy ∷ ws)
    apart c i = ground (
      arith,
      mem-append c ts ms,
      λ (k : mem c (lazy ∷ ws) ≡ true). apart_r c k,
      λ (k : mem c (lazy ∷ ws) ≡ true). apart_w c k,
    )
