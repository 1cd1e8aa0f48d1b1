-- ===== src/Keyboard/Examples.antt =====
-- The left shift key held while A is typed, and the Pause key.
use mikucos.Base.{
  ℕ, ◌≡◌, ◌++◌, refl, arith, Bool, true, false, List, [], ◌∷◌, if◌then◌else◌, ◌==◌, map,
}
use mikucos.Base.Outcome.{Outcome, ok, panic, blocked}
use mikucos.CharQueue.{null_char_queue, char_enqueue_nolock, char_queue_size_nolock}
use mikucos.CharQueue.Fifo.{window, to_list}
use mikucos.Keyboard.{
  Keyboard, do_special, keyboard_mode_ansi, keyboard_isr, k_shift, k_ctrl, k_alt, k_altgr,
  scancode_to_keycode, sync_modifiers, deliver, keycode_to_ansi, kid, keyboard_enqueue, key_sound,
}
use mikucos.Keyboard.Keys.{
  plain, pause, Key, Stroke, AllKeys, IsKey, keycode_of, key_code, scancodes_of,
}
use mikucos.Keyboard.Interrupt.{Idle, HasRoom}
use mikucos.Keyboard.Strokes.{interrupts, strokes, held_after, keyboard_isr-strokes}

abbrev switched_on : Keyboard
switched_on = record {
  mode = 1;
  ch_pressed = λ i. false;
  modifiers = record { shift = false; ctrl = false; alt = false; altgr = false };
  keyboard_queue = null_char_queue;
  prev_scancode = 0;
  calls = [];
}

-- Keycode 42 is a shift key in every map; 30 has the letter `a`, or `A` with shift.
abbrev maps : ℕ → ℕ → ℕ
maps kid i = if i == 42 then 1792 else if i == 30 then (if kid == 1 then 2881 else 2913) else 512

abbrev stroke : Key → Bool → Stroke
stroke key released = record { key = key; released = released }

abbrev typing : List Stroke
typing =
    stroke (plain 42) false
    ∷ stroke (plain 30) false
    ∷ stroke (plain 30) true
    ∷ stroke pause false
    ∷ []

typing-AllKeys : AllKeys typing
unfolding AllKeys IsKey
typing-AllKeys = (omega arith, (omega arith, (omega arith, (tt, tt))))

typing-HasRoom : HasRoom switched_on 4
unfolding HasRoom to_list char_queue_size_nolock window
typing-HasRoom = omega arith

keyboard_isr-strokes_example :
    (k' : Keyboard) × (strokes maps (λ i. 0) typing switched_on ≡ ok k')
    × Idle k'
    × (to_list k'.keyboard_queue ≡ to_list null_char_queue ++ map keycode_of typing)
    × (k'.modifiers.shift ≡ held_after maps k_shift typing false)
    × (k'.modifiers.ctrl ≡ held_after maps k_ctrl typing false)
    × (k'.modifiers.alt ≡ held_after maps k_alt typing false)
    × (k'.modifiers.altgr ≡ held_after maps k_altgr typing false)
keyboard_isr-strokes_example =
    keyboard_isr-strokes maps (λ i. 0) typing switched_on (omega arith)
      (record {
        no_prefix = refl;
        in_keycodes = refl;
        bounds = record { first_lt = omega arith; last_lt = omega arith };
      })
      typing-AllKeys typing-HasRoom

four_codes : map keycode_of typing ≡ 42 ∷ 30 ∷ 158 ∷ 119 ∷ []
unfolding keycode_of key_code
four_codes = refl

-- What was typed in the mode that translates to characters.
typed : Outcome Keyboard → List ℕ
typed (ok k) = to_list k.keyboard_queue
typed panic = []
typed blocked = []

capital_a :
    typed (strokes maps (λ i. 0) typing (record switched_on { mode = keyboard_mode_ansi }))
    ≡ b'A' ∷ []
unfolding typed strokes interrupts scancodes_of keyboard_isr scancode_to_keycode sync_modifiers
    deliver keycode_to_ansi do_special kid keyboard_enqueue key_sound to_list char_enqueue_nolock
    char_queue_size_nolock window
capital_a = refl
