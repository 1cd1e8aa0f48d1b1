-- ===== src/Methods.antt =====
-- The lookup of a method, of driver.c and device.c: `invoke` takes the method from the operations of the
-- object, or of the nearest of its parents that has it. An object is named by its address, and a
-- method by its offset in the structure of operations. The messages are left out.
pub mod Nearest
pub mod Examples
use mikucos.Base.{ℕ, zero, suc, ◌==◌, if◌then◌else◌, Option, none, some}
use mikucos.Base.Outcome.{Outcome, ok, blocked, ◌>>=◌}

-- A structure of operations: the function at each offset, none for a null pointer.
abbrev pub Ops : Type 0
Ops = ℕ → Option ℕ

-- The operations of an object, none for a null pointer, and its parent, 0 for none.
pub record Objects : Type 0 where
  pub ops : ℕ → Option Ops
  pub parent : ℕ → ℕ

-- The two tests in the body of the loop.
abbrev pub own_method : Objects → ℕ → ℕ → Option ℕ
own_method objects offset this = elim (objects.ops this) [ none ↦ none | some ops ↦ ops offset ]

-- The loop of both lookups, with a count of its rounds; none when the parents have come to an end.
unfoldable pub lookup_loop : ℕ → Objects → ℕ → ℕ → Outcome (Option ℕ)
lookup_loop zero objects offset this = blocked
lookup_loop (suc rounds) objects offset this =
    let climbed = lookup_loop rounds objects offset (objects.parent this) in
    if this == 0
    then ok none
    else elim (own_method objects offset this) [ none ↦ climbed | some f ↦ ok (some f) ]

-- `found ?: default`
abbrev pub found_or : ℕ → Option ℕ → ℕ
found_or default none = default
found_or default (some f) = f

module _ (invoke_panic : ℕ) where
  unfoldable pub driver_t_invoke_lookup : ℕ → Objects → ℕ → ℕ → Outcome ℕ
  driver_t_invoke_lookup rounds objects driver offset =
      lookup_loop rounds objects offset driver >>= λ found. ok (found_or invoke_panic found)

  -- `default_ops` is `device_default_ops`.
  unfoldable pub device_t_invoke_lookup : Ops → ℕ → Objects → ℕ → ℕ → Outcome ℕ
  device_t_invoke_lookup default_ops rounds objects device offset =
      lookup_loop rounds objects offset device >>= λ found.
      ok (found_or (found_or invoke_panic (default_ops offset)) found)
