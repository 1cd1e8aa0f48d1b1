-- ===== src/CharQueue/Fifo.antt =====
-- queue.c as a bounded first-in first-out list.
use mikucos.Base.{
  ℕ, zero, suc, ◌+◌, ◌%◌, ◌<◌, ◌≤◌, ◌≡◌, refl, ap, ◌∙◌, ◌≢◌, ◌↔◌, ◌⊎◌, Bool, true, false, List, [],
  ◌∷◌, ◌++◌, arith, ◌==◌, length, inl, inr, Bool-cases,
}
use mikucos.Base.Outcome.{ok, panic, blocked, ◌>>=◌}
use mikucos.CharQueue.{
  CharQueue, write_at, char_enqueue_nolock, char_dequeue_nolock, char_queue_size_nolock,
  char_queue_empty_nolock, char_queue_free_nolock, char_queue_size_max, char_enqueue, char_dequeue,
}

pub record InBounds (q : CharQueue) : Type 0 where
  pub first_lt : q.first < char_queue_size_max
  pub last_lt : q.last < char_queue_size_max

-- The `n` bytes from index `i` on, around the end of the array.
unfoldable pub window : (ℕ → ℕ) → ℕ → ℕ → List ℕ
window f i zero = []
window f i (suc n) = f i ∷ window f ((i + 1) % char_queue_size_max) n

unfoldable pub to_list : CharQueue → List ℕ
to_list q = window q.buffer q.first (char_queue_size_nolock q)

length-window : (f : ℕ → ℕ) (i n : ℕ) → length (window f i n) ≡ n
unfolding window
length-window f i zero = refl
length-window f i (suc n) = ap suc (length-window f ((i + 1) % char_queue_size_max) n)

window-suc :
    (f : ℕ → ℕ) (i n j : ℕ)
    → i < char_queue_size_max
    → j ≡ (i + n) % char_queue_size_max
    → window f i (suc n) ≡ window f i n ++ f j ∷ []
unfolding window
window-suc f i zero j h e = let e' : i ≡ j = omega arith in ap (λ k. f k ∷ []) e'
window-suc f i (suc n) j h e =
    ap (◌∷◌ (f i)) (window-suc f ((i + 1) % char_queue_size_max) n j (omega arith) (omega arith))

-- A write just behind the window leaves it alone, unless the window fills the array.
window-write_at :
    (f : ℕ → ℕ) (v i n j : ℕ)
    → i < char_queue_size_max
    → n < char_queue_size_max
    → j ≡ (i + n) % char_queue_size_max
    → window (write_at f j v) i n ≡ window f i n
unfolding window
window-write_at f v i zero j h k e = refl
window-write_at f v i (suc n) j h k e = ground (
  arith,
  window-write_at f v ((i + 1) % char_queue_size_max) n j (omega arith) (omega arith) (omega arith),
)

size-lt : (q : CharQueue) → InBounds q → char_queue_size_nolock q < char_queue_size_max
unfolding char_queue_size_nolock
size-lt q b = ground arith

last-eq :
    (q : CharQueue)
    → InBounds q
    → q.last ≡ (q.first + char_queue_size_nolock q) % char_queue_size_max
unfolding char_queue_size_nolock
last-eq q b = ground arith

abbrev stored : CharQueue → ℕ → CharQueue
stored q ch = record q {
  buffer = write_at q.buffer q.last (ch % 256);
  last = (q.last + 1) % char_queue_size_max;
}

module _ (q : CharQueue) (ch : ℕ) (b : InBounds q) where
  size-stored :
      char_queue_size_nolock q + 1 < char_queue_size_max
      → char_queue_size_nolock (stored q ch) ≡ suc (char_queue_size_nolock q)
  unfolding char_queue_size_nolock
  size-stored room = ground (arith, b.first_lt)

  enqueue-stored :
      char_queue_size_nolock q + 1 < char_queue_size_max
      → char_enqueue_nolock q ch ≡ ok (stored q ch)
  unfolding char_enqueue_nolock char_queue_size_nolock
  enqueue-stored room = ground (arith, b.first_lt)

  enqueue-full :
      char_queue_size_nolock q + 1 ≡ char_queue_size_max → char_enqueue_nolock q ch ≡ panic
  unfolding char_enqueue_nolock char_queue_size_nolock
  enqueue-full full = ground (arith, b.first_lt)

  window-stored :
      char_queue_size_nolock q + 1 < char_queue_size_max
      → window (stored q ch).buffer q.first (suc (char_queue_size_nolock q))
        ≡ window q.buffer q.first (char_queue_size_nolock q) ++ (ch % 256) ∷ []
  window-stored room =
      window-suc (stored q ch).buffer q.first (char_queue_size_nolock q) q.last b.first_lt
        (last-eq q b)
      ∙ ground (
        arith,
        window-write_at q.buffer (ch % 256) q.first (char_queue_size_nolock q) q.last b.first_lt
            (size-lt q b) (last-eq q b),
      )

-- The size that queue.c computes is the number of characters stored, which is at most 1023, and
-- the test for emptiness holds exactly when there is none; for indices inside the array.
pub size-length :
    (q : CharQueue)
    → InBounds q
    → (char_queue_size_nolock q ≡ length (to_list q))
      × (length (to_list q) + 1 ≤ char_queue_size_max)
      × ((char_queue_empty_nolock q ≡ true) ↔ (length (to_list q) ≡ 0))
unfolding to_list
size-length q b =
    rw (length-window q.buffer q.first (char_queue_size_nolock q))
      (refl, omega (arith, size-lt q b), empty)
  where
    empty : (char_queue_empty_nolock q ≡ true) ↔ (char_queue_size_nolock q ≡ 0)
    empty = unfold char_queue_empty_nolock char_queue_size_nolock in ground (arith, b.first_lt)

-- With room, `char_enqueue_nolock` puts the byte at the end of the list and stays inside the array;
-- without room it panics.
pub enqueue-append :
    (q : CharQueue) (ch : ℕ)
    → InBounds q
    → ((length (to_list q) + 1 < char_queue_size_max)
        × ((q' : CharQueue) × (char_enqueue_nolock q ch ≡ ok q')
            × InBounds q'
            × (to_list q' ≡ to_list q ++ (ch % 256) ∷ [])))
      ⊎ ((length (to_list q) + 1 ≡ char_queue_size_max) × (char_enqueue_nolock q ch ≡ panic))
unfolding to_list
enqueue-append q ch b =
    rw (length-window q.buffer q.first (char_queue_size_nolock q)) (elim full_cases [
      | inl room ↦ inl (
        room,
        (
          stored q ch,
          enqueue-stored q ch b room,
          record { first_lt = b.first_lt; last_lt = omega arith },
          rw (size-stored q ch b room) (window-stored q ch b room),
        ),
      )
      | inr full ↦ inr (full, enqueue-full q ch b full)
    ])
  where
    full_cases :
        (char_queue_size_nolock q + 1 < char_queue_size_max)
        ⊎ (char_queue_size_nolock q + 1 ≡ char_queue_size_max)
    full_cases = grind (arith, size-lt q b)

-- On an empty queue `char_dequeue_nolock` returns 0 and changes nothing; else it returns the first
-- character and leaves the rest, inside the array.
pub dequeue-cons :
    (q : CharQueue)
    → InBounds q
    → ((to_list q ≡ []) × (char_dequeue_nolock q ≡ (0, q)))
      ⊎ ((to_list q ≡ (char_dequeue_nolock q).0 ∷ to_list (char_dequeue_nolock q).1)
          × InBounds (char_dequeue_nolock q).1)
unfolding to_list char_dequeue_nolock window
dequeue-cons q b = elim (Bool-cases (char_queue_empty_nolock q)) [
  | inl e ↦ rw (e, char_queue_size_empty e) (inl (refl, refl))
  | inr e ↦ rw e (
      inr
        (rw (char_queue_size_step e) refl, record { first_lt = omega arith; last_lt = b.last_lt }))
]
  where
    char_queue_size_empty : char_queue_empty_nolock q ≡ true → char_queue_size_nolock q ≡ 0
    char_queue_size_empty e = unfold char_queue_empty_nolock char_queue_size_nolock in ground arith

    char_queue_size_step :
        char_queue_empty_nolock q ≡ false
        → char_queue_size_nolock q
          ≡ suc (char_queue_size_nolock (record q { first = (q.first + 1) % char_queue_size_max }))
    char_queue_size_step e =
        unfold char_queue_empty_nolock char_queue_size_nolock in ground (arith, b.last_lt)

-- `char_queue_free_nolock` counts the slot that is never used: on a full queue it still reports one
-- free place, though the next `char_enqueue_nolock` panics.
pub free_on_full :
    (q : CharQueue) (ch : ℕ)
    → InBounds q
    → length (to_list q) + 1 ≡ char_queue_size_max
    → (char_queue_free_nolock q ≡ 1) × (char_enqueue_nolock q ch ≡ panic)
unfolding to_list char_queue_free_nolock
free_on_full q ch b full =
    let full' : char_queue_size_nolock q + 1 ≡ char_queue_size_max =
      omega (arith, length-window q.buffer q.first (char_queue_size_nolock q)) in
    (omega arith, enqueue-full q ch b full')

-- The locking versions: on a free lock they do what the plain operation does and leave the lock
-- free; on a held lock both wait, and touch nothing.
pub locked_ops :
    (q : CharQueue) (ch : ℕ)
    → ((q.lock ≡ 0)
        × (char_dequeue q
            ≡ ok ((char_dequeue_nolock q).0, record (char_dequeue_nolock q).1 { lock = 0 }))
        × (char_enqueue q ch
            ≡ (char_enqueue_nolock q ch >>= λ q'. ok (tt, record q' { lock = 0 }))))
      ⊎ ((q.lock ≢ 0) × (char_dequeue q ≡ blocked) × (char_enqueue q ch ≡ blocked))
unfolding char_dequeue char_enqueue
locked_ops q ch = elim (free_cases (q.lock == 0) refl) [
  | inl free ↦ inl (free, ground arith, ground arith)
  | inr held ↦ inr (held, ground arith, ground arith)
]
  where
    free_cases : (b : Bool) → (q.lock == 0) ≡ b → (q.lock ≡ 0) ⊎ (q.lock ≢ 0)
    free_cases true e = inl (ground arith)
    free_cases false e = inr (ground arith)
