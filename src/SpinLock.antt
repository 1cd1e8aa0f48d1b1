-- ===== src/SpinLock.antt =====
-- spin_lock.h: a lock word that `xchgl` swaps with 1 to take and with 0 to release.
use mikucos.Base.{ℕ, Bool, ◌==◌, if◌then◌else◌}
use mikucos.Base.Outcome.{Outcome, ok, blocked}

abbrev pub SpinLock : Type 0
SpinLock = ℕ

abbrev pub spin_lock_initializer : SpinLock
spin_lock_initializer = 0

-- The value found in the lock, and the lock after the exchange: taken if the old value was 0.
unfoldable pub spin_try_lock : SpinLock → Bool × SpinLock
spin_try_lock l = (l == 0, 1)

unfoldable pub spin_unlock : SpinLock → SpinLock
spin_unlock l = 0

-- On a lock that is held the loop waits for another processor.
unfoldable pub spin_lock : SpinLock → Outcome SpinLock
unfolding spin_try_lock
spin_lock l = let (taken, l') = spin_try_lock l in if taken then ok l' else blocked
