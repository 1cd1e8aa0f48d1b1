-- ===== src/CharQueue.antt =====
-- queue.c and queue.h: the ring buffer of characters that the keyboard and the serial port fill
-- from their interrupts. One slot stays unused, so that `first = last` means empty.
pub mod Fifo
pub mod Examples
use mikucos.Base.{ℕ, ◌+◌, ◌-◌, ◌%◌, Bool, true, false, ◌==◌, ltb, if◌then◌else◌}
use mikucos.Base.Outcome.{Outcome, ok, panic, ◌>>=◌}
use mikucos.SpinLock.{SpinLock, spin_lock, spin_unlock, spin_lock_initializer}

abbrev pub char_queue_size_max : ℕ
char_queue_size_max = 1024

-- `buffer` gives the byte at each index of the array.
pub record CharQueue : Type 0 where
  pub buffer : ℕ → ℕ
  pub first : ℕ
  pub last : ℕ
  pub lock : SpinLock

abbrev pub write_at : (ℕ → ℕ) → ℕ → ℕ → ℕ → ℕ
write_at f i v j = if j == i then v else f j

abbrev pub null_char_queue : CharQueue
null_char_queue = record { buffer = λ i. 0; first = 0; last = 0; lock = spin_lock_initializer }

unfoldable pub char_enqueue_nolock : CharQueue → ℕ → Outcome CharQueue
char_enqueue_nolock q ch =
    let newlast = (q.last + 1) % char_queue_size_max in
    if newlast == q.first
    then panic
    else ok (record q { buffer = write_at q.buffer q.last (ch % 256); last = newlast })

pub char_queue_empty_nolock : CharQueue → Bool
char_queue_empty_nolock q = q.first == q.last

pub char_dequeue_nolock : CharQueue → ℕ × CharQueue
unfolding char_queue_empty_nolock
char_dequeue_nolock q =
    if char_queue_empty_nolock q
    then (0, q)
    else (q.buffer q.first, record q { first = (q.first + 1) % char_queue_size_max })

unfoldable pub char_queue_size_nolock : CharQueue → ℕ
char_queue_size_nolock q =
    if ltb q.last q.first then q.last + char_queue_size_max - q.first else q.last - q.first

pub char_queue_free_nolock : CharQueue → ℕ
unfolding char_queue_size_nolock
char_queue_free_nolock q = char_queue_size_max - char_queue_size_nolock q

-- `spin_lock`, the operation on the locked queue, `spin_unlock`.
abbrev locked {ℓ} :
    {A : Type ℓ} → CharQueue → (CharQueue → Outcome (A × CharQueue)) → Outcome (A × CharQueue)
locked q op = do
  l ← spin_lock q.lock
  (a, q') ← op (record q { lock = l })
  ok (a, record q' { lock = spin_unlock q'.lock })

pub char_enqueue : CharQueue → ℕ → Outcome (Unit {0} × CharQueue)
unfolding char_enqueue_nolock spin_lock spin_unlock
char_enqueue q ch = locked q λ q. char_enqueue_nolock q ch >>= λ q'. ok (tt, q')

pub char_dequeue : CharQueue → Outcome (ℕ × CharQueue)
unfolding char_dequeue_nolock spin_lock spin_unlock
char_dequeue q = locked q λ q. ok (char_dequeue_nolock q)

pub char_queue_empty : CharQueue → Outcome (Bool × CharQueue)
unfolding char_queue_empty_nolock spin_lock spin_unlock
char_queue_empty q = locked q λ q. ok (char_queue_empty_nolock q, q)

pub char_queue_size : CharQueue → Outcome (ℕ × CharQueue)
unfolding char_queue_size_nolock spin_lock spin_unlock
char_queue_size q = locked q λ q. ok (char_queue_size_nolock q, q)

pub char_queue_free : CharQueue → Outcome (ℕ × CharQueue)
unfolding char_queue_free_nolock spin_lock spin_unlock
char_queue_free q = locked q λ q. ok (char_queue_free_nolock q, q)
