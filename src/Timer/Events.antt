-- ===== src/Timer/Events.antt =====
-- The delays against the calendar, for any sequence of ticks, registrations and removals.
use native.Mathlib.Nat.{zero-mod}
use mikucos.Base.{
  ℕ, suc, ◌-◌, ◌^◌, ◌≤◌, ◌<◌, ◌≡◌, refl, sym, ap, inl, inr, Bool, true, false, not, ◌&&◌, ◌||◌, ◌∙◌,
  Option, none, some, List, [], ◌∷◌, ◌++◌, ◌==◌, if◌then◌else◌, arith, Bool-cases,
}
use mikucos.Base.Int.{ℤ}
use mikucos.Timer.{
  TimerDelayEntry, oneshot, delay_ticks, timer_register_delay, timer_unregister_delay,
  timer_delay_hook,
}
use mikucos.Timer.Calendar.{Registered, IsFresh, over, aged, list_at}
use mikucos.Timer.Delays.{AllSince, calls_at, hook-Hooked}

-- What happens to the list: a tick, a registration with the arguments of `timer_register_delay`, or a
-- removal.
pub data Event : Type 0 where
  tick_event : Event
  register : ℕ → ℤ → ℕ → ℕ → ℕ → Event
  unregister : ℕ → Event

abbrev pub registration : ℕ → ℕ → ℤ → ℕ → ℕ → ℕ → Registered
registration t address msec callback arg flags = record {
  since = t;
  entry = record {
    address = address;
    delay = delay_ticks msec;
    delay_start = delay_ticks msec;
    callback = callback;
    arg = arg;
    flags = flags;
  };
}

-- The delay with this address is in the list after `t` ticks.
abbrev pub in_list : ℕ → ℕ → Registered → Bool
in_list address t r = (r.entry.address == address) && not (over r.entry (t - r.since))

unfoldable pub is_pending : ℕ → ℕ → List Registered → Bool
is_pending address t [] = false
is_pending address t (r ∷ rs) = in_list address t r || is_pending address t rs

unfoldable pub without : ℕ → ℕ → List Registered → List Registered
without address t [] = []
without address t (r ∷ rs) =
    let rest = without address t rs in if in_list address t r then rs else r ∷ rest

-- Each delay is of at least one tick, and one that is removed has not been removed and, when it is
-- called only once, not been called.
abbrev pub ArePossible : List Event → ℕ → List Registered → Type 0
ArePossible [] t rs = Unit
ArePossible (tick_event ∷ events) t rs = ArePossible events (suc t) rs
ArePossible (register address msec callback arg flags ∷ events) t rs =
    (0 < delay_ticks msec)
    × ArePossible events t (rs ++ registration t address msec callback arg flags ∷ [])
ArePossible (unregister address ∷ events) t rs =
    (is_pending address t rs ≡ true) × ArePossible events t (without address t rs)

module _ {S : Type 0} (call : ℕ → ℕ → S → S) where
  unfoldable pub run : List Event → List TimerDelayEntry → S → Option S
  run [] list s = some s
  run (tick_event ∷ events) list s =
      let after = timer_delay_hook call list s in run events after.0 after.1
  run (register address msec callback arg flags ∷ events) list s =
      run events (timer_register_delay address msec callback arg flags list) s
  run (unregister address ∷ events) list s = elim (timer_unregister_delay address list) [
    | none ↦ none
    | some rest ↦ run events rest s
  ]

  unfoldable pub by_calendar : List Event → ℕ → List Registered → S → S
  by_calendar [] t rs s = s
  by_calendar (tick_event ∷ events) t rs s =
      by_calendar events (suc t) rs (calls_at call (suc t) rs s)
  by_calendar (register address msec callback arg flags ∷ events) t rs s =
      by_calendar events t (rs ++ registration t address msec callback arg flags ∷ []) s
  by_calendar (unregister address ∷ events) t rs s = by_calendar events t (without address t rs) s

over-start : (e : TimerDelayEntry) → 0 < e.delay_start → over e 0 ≡ false
over-start e h = elim (Bool-cases (oneshot e)) [ inl o ↦ rw o (ground arith) | inr o ↦ rw o refl ]

list_at-registration :
    (t : ℕ) (rs : List Registered) (address : ℕ) (msec : ℤ) (callback arg flags : ℕ)
    → 0 < delay_ticks msec
    → list_at t (rs ++ registration t address msec callback arg flags ∷ [])
      ≡ timer_register_delay address msec callback arg flags (list_at t rs)
unfolding list_at timer_register_delay
list_at-registration t [] address msec callback arg flags h =
    let e = (registration t address msec callback arg flags).entry in
    let new : t - t ≡ 0 = omega arith in
    let first = zero-mod (delay_ticks msec) in
    let whole : delay_ticks msec - 0 ≡ delay_ticks msec = omega arith in
    rw (new, over-start e h, first, whole) refl
list_at-registration t (r ∷ rs) address msec callback arg flags h =
    elim (Bool-cases (over r.entry (t - r.since))) [
      | inl e ↦ rw e (list_at-registration t rs address msec callback arg flags h)
      | inr e ↦ rw e (
          ap (λ l. aged r.entry (t - r.since) ∷ l)
            (list_at-registration t rs address msec callback arg flags h))
    ]

list_at-without :
    (t : ℕ) (address : ℕ) (rs : List Registered)
    → is_pending address t rs ≡ true
    → timer_unregister_delay address (list_at t rs) ≡ some (list_at t (without address t rs))
unfolding list_at without timer_unregister_delay is_pending
list_at-without t address [] h = absurd (ground arith)
list_at-without t address (r ∷ rs) h = elim (Bool-cases (over r.entry (t - r.since))) [
  | inl o ↦
      let gone : in_list address t r ≡ false = ground arith in
      let ih = list_at-without t address rs (ground arith) in rw (gone, o) ih
  | inr o ↦ elim (Bool-cases (r.entry.address == address)) [
    | inl a ↦ let here : in_list address t r ≡ true = ground arith in rw (here, o, a) refl
    | inr a ↦
        let other : in_list address t r ≡ false = ground arith in
        let ih = list_at-without t address rs (ground arith) in rw (other, o, a, ih) refl
  ]
]

delay_ticks-lt : (msec : ℤ) → delay_ticks msec < 2 ^ 64
unfolding delay_ticks
delay_ticks-lt msec = ground arith

AllSince-suc : (t : ℕ) (rs : List Registered) → AllSince t rs → AllSince (suc t) rs
AllSince-suc t [] h = tt
AllSince-suc t (r ∷ rs) h = ((omega arith, h.0.1), AllSince-suc t rs h.1)

AllSince-without :
    (t address : ℕ) (rs : List Registered) → AllSince t rs → AllSince t (without address t rs)
unfolding without
AllSince-without t address [] h = tt
AllSince-without t address (r ∷ rs) h = elim (Bool-cases (in_list address t r)) [
  | inl e ↦ rw e h.1
  | inr e ↦ rw e (h.0, AllSince-without t address rs h.1)
]

AllSince-append :
    (t : ℕ) (rs : List Registered) (r : Registered)
    → AllSince t rs
    → (r.since ≤ t) × IsFresh r.entry
    → AllSince t (rs ++ r ∷ [])
AllSince-append t [] r h k = (k, tt)
AllSince-append t (q ∷ rs) r h k = (h.0, AllSince-append t rs r h.1 k)

module _ {S : Type 0} (call : ℕ → ℕ → S → S) where
  run-removed :
      (events : List Event) (address : ℕ) (list rest : List TimerDelayEntry) (s : S)
      → timer_unregister_delay address list ≡ some rest
      → run call (unregister address ∷ events) list s ≡ run call events rest s
  unfolding run
  run-removed events address list rest s e = rw (run, e) refl

  run-from :
      (events : List Event) (t : ℕ) (rs : List Registered) (s : S)
      → ArePossible events t rs
      → AllSince t rs
      → run call events (list_at t rs) s ≡ some (by_calendar call events t rs s)
  unfolding run by_calendar
  run-from [] t rs s h k = refl
  run-from (tick_event ∷ events) t rs s h k =
      rw (hook-Hooked call t rs s k)
        (run-from events (suc t) rs (calls_at call (suc t) rs s) h (AllSince-suc t rs k))
  run-from (register address msec callback arg flags ∷ events) t rs s h k =
      let r = registration t address msec callback arg flags in
      rw (sym (list_at-registration t rs address msec callback arg flags h.0)) (
        run-from events t (rs ++ r ∷ []) s h.1
          (AllSince-append t rs r k (omega arith, (h.0, delay_ticks-lt msec, refl))))
  run-from (unregister address ∷ events) t rs s h k =
      run-removed events address (list_at t rs) (list_at t (without address t rs)) s
        (list_at-without t address rs h.0)
      ∙ run-from events t (without address t rs) s h.1 (AllSince-without t address rs k)

-- After any ticks, registrations and removals, in any order, where each delay is of at least one tick,
-- and each that is removed is in the list (it has not been removed before, nor been called if it is
-- called only once): the callbacks have been called as the calendar says. The hook calls a delay that
-- is registered once at its last tick, and another at each multiple of its delay, counted from its
-- registration, until it is removed; at one tick in the order of the registrations.
pub run-by_calendar :
    {S : Type 0} (call : ℕ → ℕ → S → S) (events : List Event) (s : S)
    → ArePossible events 0 []
    → run call events [] s ≡ some (by_calendar call events 0 [] s)
unfolding list_at
run-by_calendar call events s h = run-from call events 0 [] s h tt
