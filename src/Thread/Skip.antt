-- ===== src/Thread/Skip.antt =====
-- What `thread_sleep` and `thread_returned` do: both take the running thread out of the run queue, and
-- then call `thread_schedule`, which moves the first thread of the queue to its end.
use mikucos.Base.{◌≡◌, ◌≢◌, true, false, List, [], ◌∷◌, ◌++◌, arith, ◌==◌}
use mikucos.ListHead.{Ptr, list_del}
use mikucos.ListHead.Ring.{◌∉◌}
use mikucos.ListHead.Del.{list_del-Ring}
use mikucos.Thread.{System, with_heap, thread_schedule, thread_sleep, thread_returned}
use mikucos.Thread.Schedule.{Runs, thread_schedule-rotates}

-- Another thread than the one that runs is taken out of the run queue, wherever it stands in it, and
-- the running thread runs on.
pub thread_sleep-other :
    (rq : Ptr) (s : System) (t x : Ptr) (ts us : List Ptr)
    → Runs rq s t (ts ++ (x ∷ us))
    → Runs rq (thread_sleep rq x s) t (ts ++ us)
unfolding thread_sleep
thread_sleep-other rq s t x ts us r =
    let ne : (x == s.current_tcb) ≡ false =
      ground (arith, other x t ts us r.queue.distinct.1.0, r.current) in
    rw ne (record {
      queue = (list_del-Ring x (t ∷ ts) us r.queue).0;
      current = r.current;
      quantum_pos = r.quantum_pos;
    })
  where
    other : (x t : Ptr) (ts us : List Ptr) → t ∉ (ts ++ (x ∷ us)) → x ≢ t
    other x t [] us h = ground arith
    other x t (y ∷ ts) us h = other x t ts us (ground arith)

-- When the running thread goes to sleep or its function returns, the thread `u` that is next in the
-- queue is passed over: it goes to the end of the queue, and `v` behind it runs.
pub next_thread_skipped :
    (rq : Ptr) (s : System) (t u v : Ptr) (ts : List Ptr)
    → Runs rq s t (u ∷ v ∷ ts)
    → Runs rq (thread_sleep rq t s) v (ts ++ (u ∷ []))
      × Runs rq (thread_returned rq s) v (ts ++ (u ∷ []))
unfolding thread_sleep thread_returned
next_thread_skipped rq s t u v ts r = (sleeps, returns)
  where
    rotated : Runs rq (thread_schedule rq (with_heap s (list_del t s.heap))) v (ts ++ (u ∷ []))
    rotated =
        thread_schedule-rotates rq (with_heap s (list_del t s.heap)) u v ts
          (list_del-Ring t [] (u ∷ v ∷ ts) r.queue).0

    sleeps : Runs rq (thread_sleep rq t s) v (ts ++ (u ∷ []))
    sleeps =
        let e : (t == s.current_tcb) ≡ true = ground (arith, r.current) in
        rw (e, thread_sleep) rotated

    returns : Runs rq (thread_returned rq s) v (ts ++ (u ∷ []))
    returns = rw (r.queue.links.0, thread_returned) rotated
