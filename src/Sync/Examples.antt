-- ===== src/Sync/Examples.antt =====
-- A mutex at 200 and a condition variable at 300, with three threads.
use mikucos.Base.{◌≡◌, ◌≢◌, ◌⊎◌, refl, true, false, [], ◌∷◌, arith}
use mikucos.Base.Outcome.{ok, panic}
use mikucos.Base.Int.{pos}
use mikucos.SpinLock.{spin_lock_initializer}
use mikucos.ListHead.{Heap, list_add_tail}
use mikucos.ListHead.Ring.{Ring}
use mikucos.Thread.{System}
use mikucos.Thread.Schedule.{Runs}
use mikucos.Sync.{Mutex, mutex_lock_round, mutex_unlock, condvar_broadcast}
use mikucos.Sync.Mutexes.{mutex_lock_round-excludes, mutex_unlock-wakes}
use mikucos.Sync.Condvars.{condvar_broadcast-wakes}

-- The threads 1 and 2 run, 3 waits at 200 and 4 at 300.
memory : Heap
unfolding list_add_tail
memory = list_add_tail 4 300 (
    list_add_tail 3 200
      (list_add_tail 2 100 (list_add_tail 1 100 (record { next = λ p. p; prev = λ p. p }))))

abbrev busy : System
busy = record { heap = memory; quantum = λ t. pos 3; current_tcb = 1 }

abbrev held : Mutex
held = record { spin_lock = 1; lazy_list = 200 }

busy-Runs : Runs 100 busy 1 (2 ∷ [])
unfolding memory
busy-Runs = record {
  queue = record { links = omega arith; distinct = (refl, (refl, (refl, tt))) };
  current = refl;
  quantum_pos = refl;
}

mutex-Ring : Ring memory 200 (3 ∷ [])
unfolding memory
mutex-Ring = record { links = omega arith; distinct = (refl, (refl, tt)) }

condvar-Ring : Ring memory 300 (4 ∷ [])
unfolding memory
condvar-Ring = record { links = omega arith; distinct = (refl, (refl, tt)) }

mutex_lock_round-excludes_example :
    ((mutex_lock_round 100 held busy).1.spin_lock ≢ spin_lock_initializer)
    × (((held.spin_lock ≡ spin_lock_initializer)
          × ((mutex_lock_round 100 held busy).0 ≡ true)
          × ((mutex_lock_round 100 held busy).2 ≡ busy))
        ⊎ ((held.spin_lock ≢ spin_lock_initializer)
            × ((mutex_lock_round 100 held busy).0 ≡ false)
            × Runs 100 (mutex_lock_round 100 held busy).2 2 []
            × Ring (mutex_lock_round 100 held busy).2.heap 200 (3 ∷ 1 ∷ [])))
mutex_lock_round-excludes_example =
    mutex_lock_round-excludes 100 held busy 1 2 [] (3 ∷ []) busy-Runs mutex-Ring
      (λ c i. ground arith)

mutex_unlock-wakes_example :
    ((held.spin_lock ≡ spin_lock_initializer) × (mutex_unlock 100 2 held busy ≡ panic))
    ⊎ ((held.spin_lock ≢ spin_lock_initializer)
        × ((s' : System) × (mutex_unlock 100 2 held busy
              ≡ ok (record held { spin_lock = spin_lock_initializer }, s'))
            × Runs 100 s' 1 (2 ∷ 3 ∷ [])
            × Ring s'.heap 200 []))
mutex_unlock-wakes_example =
    mutex_unlock-wakes 100 2 held busy 1 (2 ∷ []) (3 ∷ []) busy-Runs mutex-Ring
      (λ c i. ground arith) (omega arith)

condvar_broadcast-wakes_example :
    (s' : System) × (condvar_broadcast 100 2 300 busy ≡ ok s')
    × Runs 100 s' 1 (2 ∷ 4 ∷ [])
    × Ring s'.heap 300 []
condvar_broadcast-wakes_example =
    condvar_broadcast-wakes 100 2 300 busy 1 (2 ∷ []) (4 ∷ []) busy-Runs condvar-Ring
      (λ c i. ground arith) (omega arith)
