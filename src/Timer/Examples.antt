-- ===== src/Timer/Examples.antt =====
-- A delay of 4 milliseconds, 2 ticks, that is called once, and one of 2 milliseconds, called again at
-- each tick. The calls are noted in a list, the last in front.
use mikucos.Base.{ℕ, ◌≡◌, refl, arith, some, none, List, [], ◌∷◌}
use mikucos.Base.Int.{pos, ◌*ℤ◌}
use mikucos.Timer.{delay_ticks, timer_register_delay, timer_unregister_delay, timer_delay_hook}
use mikucos.Timer.Events.{
  Event, tick_event, register, unregister, run, by_calendar, is_pending, run-by_calendar,
}

abbrev note : ℕ → ℕ → List ℕ → List ℕ
note callback arg calls = arg ∷ calls

abbrev events : List Event
events =
    register 4096 (pos 4) 1 7 1
    ∷ tick_event
    ∷ register 8192 (pos 2) 1 9 0
    ∷ tick_event
    ∷ tick_event
    ∷ unregister 8192
    ∷ tick_event
    ∷ []

calls : run note events [] [] ≡ some (9 ∷ 9 ∷ 7 ∷ [])
unfolding run timer_register_delay timer_unregister_delay timer_delay_hook delay_ticks ◌*ℤ◌
calls = refl

run-by_calendar_example : run note events [] [] ≡ some (by_calendar note events 0 [] [])
unfolding delay_ticks ◌*ℤ◌ is_pending
run-by_calendar_example = run-by_calendar note events [] (omega arith, (omega arith, (refl, tt)))

-- A delay that has been called for the only time is not in the list.
called_before :
    run note (register 4096 (pos 2) 1 7 1 ∷ tick_event ∷ unregister 4096 ∷ []) [] [] ≡ none
unfolding run timer_register_delay timer_unregister_delay timer_delay_hook delay_ticks ◌*ℤ◌
called_before = refl
