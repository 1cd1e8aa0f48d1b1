-- ===== src/Thread/Schedule.antt =====
-- The scheduler as a queue: who runs next, and who waits where.
use mikucos.Base.{
  ◌≡◌, ◌≢◌, ◌⊎◌, inl, inr, Bool-cases, refl, ◌∙◌, true, false, List, [], ◌∷◌, ◌++◌, arith, ◌==◌,
}
use mikucos.Base.Int.{pos, ◌-ℤ◌, ltb_ℤ}
use mikucos.ListHead.{Ptr, Heap, write, list_del, list_add_tail}
use mikucos.ListHead.Ring.{mem, ◌∉◌, Ring, Ring-frame, mem-append}
use mikucos.ListHead.Add.{list_add-Ring, list_add_tail-outside}
use mikucos.ListHead.Del.{list_del-Ring, list_del-outside, not_in_rest}
use mikucos.Thread.{
  System, with_heap, run_next, thread_schedule_preempted_in_list, thread_schedule, thread_wake,
  thread_timer_hook,
}

-- No node of one ring is in the other.
abbrev pub Apart : List Ptr → List Ptr → Type 0
Apart xs ys = (c : Ptr) → mem c xs ≡ true → c ∉ ys

-- The first thread of the queue is the one that runs, with time left to it.
pub record Runs (rq : Ptr) (s : System) (t : Ptr) (ts : List Ptr) : Type 0 where
  pub queue : Ring s.heap rq (t ∷ ts)
  pub current : s.current_tcb ≡ t
  pub quantum_pos : ltb_ℤ (pos 0) (s.quantum t) ≡ true

pub run_next-Runs :
    (rq : Ptr) (s : System) (t : Ptr) (ts : List Ptr)
    → Ring s.heap rq (t ∷ ts)
    → Runs rq (run_next rq s) t ts
unfolding run_next
run_next-Runs rq s t ts r = record {
  queue = r;
  current = r.links.0;
  quantum_pos = ground (arith, r.links.0);
}

pub mem_ne : (c x : Ptr) (xs : List Ptr) → mem c xs ≡ true → x ∉ xs → c ≢ x
mem_ne c x [] i n = cc
mem_ne c x (y ∷ xs) i n = ground (arith, mem_ne c x xs)

-- `list_del` of a node of one ring and `list_add_tail` to another: the node moves from its place to the
-- end of the other list.
module _ {h : Heap} {a b : Ptr} (x : Ptr) (ys zs ws : List Ptr) (r : Ring h a (ys ++ (x ∷ zs)))
    (q : Ring h b ws) (apart : Apart (a ∷ (ys ++ (x ∷ zs))) (b ∷ ws)) where
  del-spares : Ring (list_del x h) b ws
  del-spares = Ring-frame b ws q λ c i.
      list_del-outside x ys zs r c
        (ground (arith, λ (k : mem c (a ∷ (ys ++ (x ∷ zs))) ≡ true). apart c k))

  pub move-Ring :
      Ring (list_add_tail x b (list_del x h)) a (ys ++ zs)
      × Ring (list_add_tail x b (list_del x h)) b (ws ++ (x ∷ []))
  move-Ring = (
    Ring-frame a (ys ++ zs) (list_del-Ring x ys zs r).0 (λ c i.
        let ne = mem_ne c x (a ∷ (ys ++ zs)) i (not_in_rest x ys zs r) in
        let was : mem c (a ∷ (ys ++ (x ∷ zs))) ≡ true =
          ground (arith, mem-append c ys zs, mem-append c ys (x ∷ zs)) in
        list_add_tail-outside del-spares x c (ground (arith, apart c was))),
    (list_add-Ring del-spares x (apart x (ground (arith, mem-append x ys (x ∷ zs))))).1,
  )

  -- The move writes only to nodes of the two rings.
  pub move-outside :
      (c : Ptr)
      → c ∉ (a ∷ (ys ++ (x ∷ zs)))
      → c ∉ (b ∷ ws)
      → ((list_add_tail x b (list_del x h)).next c ≡ h.next c)
        × ((list_add_tail x b (list_del x h)).prev c ≡ h.prev c)
  move-outside c out out' =
      let add = list_add_tail-outside del-spares x c (ground (arith, mem-append c ys (x ∷ zs))) in
      let del = list_del-outside x ys zs r c out in (add.0 ∙ del.0, add.1 ∙ del.1)

-- Within one ring, the node goes to the end.
pub requeue-Ring :
    {h : Heap} {a : Ptr} (x : Ptr) (xs : List Ptr)
    → Ring h a (x ∷ xs)
    → Ring (list_add_tail x a (list_del x h)) a (xs ++ (x ∷ []))
requeue-Ring x xs r = (list_add-Ring (list_del-Ring x [] xs r).0 x (not_in_rest x [] xs r)).1

-- `thread_schedule` rotates the run queue: the next thread runs, with time left to it, and the thread
-- that ran is last.
pub thread_schedule-rotates :
    (rq : Ptr) (s : System) (t u : Ptr) (ts : List Ptr)
    → Ring s.heap rq (t ∷ u ∷ ts)
    → Runs rq (thread_schedule rq s) u (ts ++ (t ∷ []))
unfolding thread_schedule
thread_schedule-rotates rq s t u ts r = rw r.links.0 (
    run_next-Runs rq (with_heap s (list_add_tail t rq (list_del t s.heap))) u (ts ++ (t ∷ []))
      (requeue-Ring t (u ∷ ts) r))

-- A thread that is alone in the run queue runs on, with time left to it.
pub thread_schedule-alone :
    (rq : Ptr) (s : System) (t : Ptr)
    → Ring s.heap rq (t ∷ [])
    → Runs rq (thread_schedule rq s) t []
unfolding thread_schedule
thread_schedule-alone rq s t r = rw r.links.0 (
    run_next-Runs rq (with_heap s (list_add_tail t rq (list_del t s.heap))) t []
      (requeue-Ring t [] r))

-- `thread_schedule_preempted_in_list`, with a list of waiting threads apart from the run queue: the
-- thread that ran is last in that list and no more in the run queue, and the next thread runs.
pub preempted_in_list-waits :
    (rq list : Ptr) (s : System) (t u : Ptr) (ts ws : List Ptr)
    → Ring s.heap rq (t ∷ u ∷ ts)
    → Ring s.heap list ws
    → Apart (rq ∷ t ∷ u ∷ ts) (list ∷ ws)
    → Runs rq (thread_schedule_preempted_in_list rq list s) u ts
      × Ring (thread_schedule_preempted_in_list rq list s).heap list (ws ++ (t ∷ []))
unfolding thread_schedule_preempted_in_list
preempted_in_list-waits rq list s t u ts ws r q apart = rw r.links.0 (
  run_next-Runs rq (with_heap s (list_add_tail t list (list_del t s.heap))) u ts
      (move-Ring t [] (u ∷ ts) ws r q apart).0,
  (move-Ring t [] (u ∷ ts) ws r q apart).1,
)

-- A thread that is woken is last in the run queue; what runs, and the quanta, stay.
pub thread_wake-queues :
    (rq : Ptr) (s : System) (t u : Ptr) (ts : List Ptr)
    → Runs rq s t ts
    → u ∉ (rq ∷ t ∷ ts)
    → Runs rq (thread_wake rq u s) t (ts ++ (u ∷ []))
unfolding thread_wake
thread_wake-queues rq s t u ts r out = record {
  queue = (list_add-Ring r.queue u out).1;
  current = r.current;
  quantum_pos = r.quantum_pos;
}

-- At a timer tick the thread that runs goes on, with one tick less, while it has more than one left,
-- and else the run queue is rotated.
pub timer_hook-preempts :
    (rq : Ptr) (s : System) (t u : Ptr) (ts : List Ptr)
    → t ≢ 0
    → Runs rq s t (u ∷ ts)
    → ((ltb_ℤ (pos 1) (s.quantum t) ≡ true)
        × Runs rq (thread_timer_hook rq s) t (u ∷ ts)
        × ((thread_timer_hook rq s).quantum t ≡ s.quantum t -ℤ pos 1))
      ⊎ ((ltb_ℤ (pos 1) (s.quantum t) ≡ false)
          × Runs rq (thread_timer_hook rq s) u (ts ++ (t ∷ [])))
unfolding thread_timer_hook ◌-ℤ◌
timer_hook-preempts rq s t u ts ne r = elim (Bool-cases (ltb_ℤ (pos 1) (s.quantum t))) [
  | inl h ↦
      let e : ltb_ℤ (pos 0) (s.quantum t -ℤ pos 1) ≡ true = ground (arith, r.quantum_pos) in
      inl (
        h,
        rw (r.current, zero_ne, e)
            (record { queue = r.queue; current = refl; quantum_pos = ground (arith, e) }),
        rw (r.current, zero_ne, e) (ground arith),
      )
  | inr h ↦
      let e : ltb_ℤ (pos 0) (s.quantum t -ℤ pos 1) ≡ false = ground (arith, r.quantum_pos) in
      inr (h, rw (r.current, zero_ne, e) (thread_schedule-rotates rq (spent s) t u ts r.queue))
]
  where
    zero_ne : (t == 0) ≡ false
    zero_ne = ground arith

    spent : System → System
    spent s = record s { quantum = write s.quantum t (s.quantum t -ℤ pos 1) }
