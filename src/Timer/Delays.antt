-- ===== src/Timer/Delays.antt =====
-- A tick calls the callbacks that are due, and leaves the list of the next tick.
use mikucos.Base.{ℕ, suc, ◌-◌, ◌≤◌, ◌≡◌, refl, List, [], ◌∷◌, if◌then◌else◌, arith}
use mikucos.Timer.{timer_delay_hook}
use mikucos.Timer.Calendar.{
  Registered, IsFresh, due, list_at, Tick, was_over, fires_once, fires, waits, tick,
}

abbrev pub AllSince : ℕ → List Registered → Type 0
AllSince t [] = Unit
AllSince t (r ∷ rs) = ((r.since ≤ t) × IsFresh r.entry) × AllSince t rs

module _ {S : Type 0} (call : ℕ → ℕ → S → S) where
  -- The calls at tick `t`, in the order of the registrations.
  unfoldable pub calls_at : ℕ → List Registered → S → S
  calls_at t [] s = s
  calls_at t (r ∷ rs) s =
      if due r.entry (t - r.since)
      then calls_at t rs (call r.entry.callback r.entry.arg s)
      else calls_at t rs s

  abbrev pub Hooked : ℕ → List Registered → S → Type 0
  Hooked t rs s =
      timer_delay_hook call (list_at t rs) s ≡ (list_at (suc t) rs, calls_at (suc t) rs s)

  Tick-Hooked :
      (t : ℕ) (r : Registered) (rs : List Registered) (s : S)
      → r.since ≤ t
      → Tick r.entry (t - r.since)
      → ((s' : S) → Hooked t rs s')
      → Hooked t (r ∷ rs) s
  unfolding timer_delay_hook list_at calls_at
  Tick-Hooked t r rs s l c h =
      let next : suc t - r.since ≡ suc (t - r.since) = omega arith in
      let here = h s in
      let fired = h (call r.entry.callback r.entry.arg s) in
      elim c [
        | was_over a b d ↦ rw (next, a, b, d) here
        | fires_once a z o d b ↦ rw (next, a, z, d, b, o, fired) refl
        | fires a z o d b e ↦ rw (next, a, z, d, b, e, o, fired) refl
        | waits a z d b e ↦ rw (next, a, z, d, b, e, here) refl
      ]

  pub hook-Hooked : (t : ℕ) (rs : List Registered) (s : S) → AllSince t rs → Hooked t rs s
  unfolding timer_delay_hook list_at calls_at
  hook-Hooked t [] s h = refl
  hook-Hooked t (r ∷ rs) s h =
      Tick-Hooked t r rs s h.0.0 (tick r.entry (t - r.since) h.0.1) (λ s'. hook-Hooked t rs s' h.1)
