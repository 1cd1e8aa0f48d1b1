-- ===== src/CharQueue/Examples.antt =====
-- queue.c on a queue that wraps around the end of its array, and the theorems there.
use mikucos.Base.{◌+◌, ◌≡◌, ◌<◌, ◌⊎◌, refl, [], ◌∷◌, ◌++◌, arith, length}
use mikucos.Base.Outcome.{ok, panic, ◌>>=◌}
use mikucos.CharQueue.{
  CharQueue, null_char_queue, char_enqueue, char_dequeue, char_enqueue_nolock, char_dequeue_nolock,
  char_queue_size_nolock, char_queue_size_max,
}
use mikucos.CharQueue.Fifo.{InBounds, to_list, window, enqueue-append, dequeue-cons}

-- The two characters `a` and `b`, over the end of the array.
abbrev wrapped : CharQueue
wrapped = record null_char_queue { first = 1023; last = 1; buffer = λ i. i }

abbrev full : CharQueue
full = record null_char_queue { first = 5; last = 4 }

wrapped-InBounds : InBounds wrapped
wrapped-InBounds = record { first_lt = omega arith; last_lt = omega arith }

full-InBounds : InBounds full
full-InBounds = record { first_lt = omega arith; last_lt = omega arith }

echo :
    (char_enqueue null_char_queue 65 >>= λ (u, q). char_dequeue q)
    ≡ (char_enqueue null_char_queue 65 >>= λ (u, q). ok (65, record q { first = 1 }))
unfolding char_enqueue char_dequeue
echo = refl

wrapped_contents : to_list wrapped ≡ 1023 ∷ 0 ∷ []
unfolding to_list window char_queue_size_nolock
wrapped_contents = refl

enqueue-append_example :
    ((length (to_list wrapped) + 1 < char_queue_size_max)
      × ((q' : CharQueue) × (char_enqueue_nolock wrapped 65 ≡ ok q')
          × InBounds q'
          × (to_list q' ≡ to_list wrapped ++ 65 ∷ [])))
    ⊎ ((length (to_list wrapped) + 1 ≡ char_queue_size_max)
        × (char_enqueue_nolock wrapped 65 ≡ panic))
enqueue-append_example = enqueue-append wrapped 65 wrapped-InBounds

dequeue-cons_example :
    ((to_list wrapped ≡ []) × (char_dequeue_nolock wrapped ≡ (0, wrapped)))
    ⊎ ((to_list wrapped ≡ (char_dequeue_nolock wrapped).0 ∷ to_list (char_dequeue_nolock wrapped).1)
        × InBounds (char_dequeue_nolock wrapped).1)
dequeue-cons_example = dequeue-cons wrapped wrapped-InBounds

full-length : length (to_list full) + 1 ≡ char_queue_size_max
unfolding to_list window char_queue_size_nolock
full-length = refl
