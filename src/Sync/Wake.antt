-- ===== src/Sync/Wake.antt =====
-- Waking all threads of a ring.
use mathlib.Core.Path.{subst}
use mathlib.Core.List.{append_assoc, append-nil}
use mikucos.Base.{
  ℕ, zero, suc, ◌<◌, ◌≡◌, ◌≢◌, refl, sym, ap, ◌∙◌, false, List, [], ◌∷◌, ◌++◌, arith, ◌==◌, length,
}
use mikucos.Base.Outcome.{ok}
use mikucos.ListHead.{Ptr, Heap, list_del, list_add_tail}
use mikucos.ListHead.Ring.{◌∉◌, Ring, first_of, mem-append, next-first}
use mikucos.ListHead.Del.{not_in_rest}
use mikucos.Thread.Schedule.{Apart, mem_ne, move-Ring, move-outside}
use mikucos.Sync.{wake_loop, wake_all}

-- All of `ys` has moved behind `xs`, and nothing else has changed.
pub record Woken (h : Heap) (rq head : Ptr) (xs ys : List Ptr) (g : Heap) : Type 0 where
  pub queue : Ring g rq (xs ++ ys)
  pub waiters : Ring g head []
  pub outside :
      (c : Ptr) → c ∉ (head ∷ ys) → c ∉ (rq ∷ xs) → (g.next c ≡ h.next c) × (g.prev c ≡ h.prev c)

Apart-move :
    (a b x : Ptr) (ys ws : List Ptr)
    → x ∉ (a ∷ ys)
    → Apart (a ∷ x ∷ ys) (b ∷ ws)
    → Apart (a ∷ ys) (b ∷ (ws ++ (x ∷ [])))
Apart-move a b x ys ws out apart c i =
    let ne = mem_ne c x (a ∷ ys) i out in
    ground (arith, apart c (ground arith), mem-append c ws (x ∷ []), ne)

wake_loop-suc :
    (rq k head pos tmp : ℕ) (h : Heap)
    → pos ≢ head
    → wake_loop rq (suc k) head pos tmp h
      ≡ wake_loop rq k head tmp
          ((list_add_tail pos rq (list_del pos h)).next tmp)
          (list_add_tail pos rq (list_del pos h))
unfolding wake_loop
wake_loop-suc rq k head pos tmp h ne = let e : (pos == head) ≡ false = ground arith in rw e

wake_loop-Woken :
    (rq : Ptr) (k : ℕ) {h : Heap} {head : Ptr} {xs : List Ptr} (ys : List Ptr)
    → Ring h head ys
    → Ring h rq xs
    → Apart (head ∷ ys) (rq ∷ xs)
    → length ys < k
    → (g : Heap) × (wake_loop rq k head (h.next head) (h.next (h.next head)) h ≡ ok g)
      × Woken h rq head xs ys g
wake_loop-Woken rq zero ys r q apart fuel = absurd (omega arith)
wake_loop-Woken rq (suc k) {h} {head} {xs} [] r q apart fuel = (
  h,
  (unfold wake_loop in ground (arith, r.links.0)),
  record { queue = rw (append-nil xs) q; waiters = r; outside = λ c o o'. (refl, refl) },
)
wake_loop-Woken rq (suc k) {h} {head} {xs} (y ∷ ys) r q apart fuel =
    let m = list_add_tail y rq (list_del y h) in
    let moved = move-Ring y [] ys xs r q apart in
    let (g, run, w) =
      wake_loop-Woken rq k ys moved.0 moved.1
        (Apart-move head rq y ys xs (not_in_rest y [] ys r) apart) (omega arith) in
    (
      g,
      start
          ∙ wake_loop-suc rq k head y (first_of ys head) h (ground (arith, r.distinct))
          ∙ ap (λ p. wake_loop rq k head p (m.next p) m)
              (sym (next-first m head head ys moved.0.links))
          ∙ run,
      record {
        queue = subst (λ zs. Ring g rq zs) (append_assoc xs (y ∷ []) ys) w.queue;
        waiters = w.waiters;
        outside = λ c o o'.
            let one = move-outside y [] ys xs r q apart c o o' in
            let more = w.outside c (ground arith) (ground (arith, mem-append c xs (y ∷ []))) in
            (more.0 ∙ one.0, more.1 ∙ one.1);
      },
    )
  where
    start :
        wake_loop rq (suc k) head (h.next head) (h.next (h.next head)) h
        ≡ wake_loop rq (suc k) head y (first_of ys head) h
    start =
        ap (λ p. wake_loop rq (suc k) head p (h.next p) h) r.links.0
        ∙ ap (λ t. wake_loop rq (suc k) head y t h) (next-first h y head ys r.links.2)

-- With more rounds than threads, `wake_all` moves every waiting thread to the end of the run queue, in
-- the order in which they wait.
pub wake_all-Woken :
    (rq k : ℕ) {h : Heap} {head : Ptr} {xs ys : List Ptr}
    → Ring h head ys
    → Ring h rq xs
    → Apart (head ∷ ys) (rq ∷ xs)
    → length ys < k
    → (g : Heap) × (wake_all rq k head h ≡ ok g) × Woken h rq head xs ys g
unfolding wake_all
wake_all-Woken rq k {ys} r q apart fuel = wake_loop-Woken rq k ys r q apart fuel
