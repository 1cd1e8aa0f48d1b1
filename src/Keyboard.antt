-- ===== src/Keyboard.antt =====
-- keyboard.c with scancodes.h: from the scancodes of the interrupt to the characters in the queue.
-- The keymaps are made by the build from defkeymap.map, so they are parameters: `keysym_at kid i` is
-- what the kernel reads at `key_maps[kid][i]`, also behind the 128 entries of a map or through a
-- null map, and `rodata i` what it reads at the index `i` behind the string of `do_cursor`. Lines of
-- debug output are left out. So are the mutex and the condition variable of `keyboard_enqueue` and
-- the sleeping of `keyboard_read`; Sync is about those.
pub mod Keys
pub mod Interrupt
pub mod Strokes
pub mod Examples
use mikucos.Base.{
  ℕ, ◌+◌, ◌-◌, ◌*◌, ◌/◌, ◌%◌, ◌^◌, Bool, true, false, not, ◌&&◌, ◌||◌, ◌==◌, ltb, if◌then◌else◌,
  List, [], ◌∷◌, get_or,
}
use mikucos.Base.Int.{ℤ, pos, negsuc, ltb_ℤ, bits32}
use mikucos.Base.Outcome.{Outcome, ok, panic, blocked, ◌>>=◌}
use mikucos.CharQueue.{CharQueue, char_enqueue_nolock, char_dequeue_nolock, char_queue_empty_nolock}

-- The bits of `modifiers`. `MODIFIER_COMPOSE` is never set.
pub record Modifiers : Type 0 where
  pub shift : Bool
  pub ctrl : Bool
  pub alt : Bool
  pub altgr : Bool

-- The calls of the speaker and of `hal_reboot`.
pub data KeyboardCall : Type 0 where
  speaker_off speaker_on hal_reboot : KeyboardCall
  speaker_set_freq : ℕ → KeyboardCall

-- The static variables of the file, `mode` of the device, and the calls so far, the latest first.
pub record Keyboard : Type 0 where
  pub mode : ℕ
  pub ch_pressed : ℕ → Bool
  pub modifiers : Modifiers
  pub keyboard_queue : CharQueue
  pub prev_scancode : ℕ
  pub calls : List KeyboardCall

abbrev pub keyboard_mode_scancode : ℕ
keyboard_mode_scancode = 0

abbrev pub keyboard_mode_keycode : ℕ
keyboard_mode_keycode = 1

abbrev pub keyboard_mode_ansi : ℕ
keyboard_mode_ansi = 2

abbrev pub nr_keys : ℕ
nr_keys = 128

-- `K_SHIFT`, `K_ALTGR`, `K_CTRL` and `K_ALT`: the type `KT_SHIFT`, 7, and the value `KG_..`.
abbrev pub k_shift : ℕ
k_shift = 1792

abbrev pub k_altgr : ℕ
k_altgr = 1793

abbrev pub k_ctrl : ℕ
k_ctrl = 1794

abbrev pub k_alt : ℕ
k_alt = 1795

abbrev pub e1_pause : ℕ
e1_pause = 119

abbrev pub ktyp : ℕ → ℕ
ktyp sym = sym / 256

abbrev pub kval : ℕ → ℕ
kval sym = sym % 256

abbrev pub e0_table : List ℕ
e0_table =
    96 ∷ 97 ∷ 0 ∷ 0 ∷ 0 ∷ 0 ∷ 0 ∷ 0 ∷ 0 ∷ 0 ∷ 0 ∷ 0 ∷ 0 ∷ 0 ∷ 0 ∷ 0 ∷ 0 ∷ 0 ∷ 0 ∷ 0 ∷ 0 ∷ 0 ∷ 0 ∷ 0
    ∷ 0 ∷ 98 ∷ 0 ∷ 99 ∷ 100 ∷ 0 ∷ 0 ∷ 0 ∷ 0 ∷ 113 ∷ 114 ∷ 115 ∷ 116 ∷ 117 ∷ 0 ∷ 0 ∷ 0 ∷ 0 ∷ 101
    ∷ 102 ∷ 103 ∷ 104 ∷ 0 ∷ 105 ∷ 124 ∷ 106 ∷ 118 ∷ 107 ∷ 108 ∷ 109 ∷ 110 ∷ 111 ∷ 0 ∷ 0 ∷ 0 ∷ 0 ∷ 0
    ∷ 0 ∷ 0 ∷ 125 ∷ 126 ∷ 127 ∷ []

-- The entries before 0x1c and behind 0x5d are 0, except 0x6f.
pub e0_keys : ℕ → ℕ
e0_keys i = if ltb i 28 then 0 else if i == 111 then 112 else get_or e0_table (i - 28) 0

-- The keycode, and the new `prev_scancode`. The keycodes are below 128, so `keycode | released` is a
-- sum.
pub scancode_to_keycode : ℕ → ℕ → ℤ × ℕ
scancode_to_keycode prev full =
    if (full == 224) || (full == 225)
    then (pos 0, full)
    else let released = (full / 128) % 2 * 128 in
      let scancode = full % 128 in
      if prev == 0
      then (pos (scancode + released), prev)
      else if not (prev == 224)
      then if (prev == 225) && (scancode == 29)
        then (pos 0, 256)
        else if (prev == 256) && (scancode == 69)
        then (pos (e1_pause + released), 0)
        else (negsuc 0, 0)
      else if (scancode == 42) || (scancode == 54)
      then (negsuc 0, 0)
      else if e0_keys scancode == 0
      then (negsuc 0, 0)
      else (pos (e0_keys scancode + released), 0)

pub keyboard_enqueue : ℕ → Keyboard → Outcome Keyboard
keyboard_enqueue ch k = do
  q ← char_enqueue_nolock k.keyboard_queue ch
  ok (record k { keyboard_queue = q })

pub keyboard_dequeue : Keyboard → ℕ × Keyboard
keyboard_dequeue k =
    let (ch, q) = char_dequeue_nolock k.keyboard_queue in (ch, record k { keyboard_queue = q })

-- `modifiers |= mod` for the key of `sym`, or `modifiers &= ~mod`.
abbrev set_modifier : ℕ → Bool → Modifiers → Modifiers
set_modifier sym on m = record {
  shift = if sym == k_shift then on else m.shift;
  ctrl = if sym == k_ctrl then on else m.ctrl;
  alt = if sym == k_alt then on else m.alt;
  altgr = if sym == k_altgr then on else m.altgr;
}

-- `scancode` is a byte.
pub key_sound : ℕ → Keyboard → Keyboard
key_sound scancode k =
    if (scancode / 128) % 2 == 1
    then record k {
      ch_pressed = λ i. if i == scancode - 128 then false else k.ch_pressed i;
      calls = speaker_off ∷ k.calls;
    }
    else if k.ch_pressed scancode
    then k
    else record k {
      ch_pressed = λ i. if i == scancode then true else k.ch_pressed i;
      calls = speaker_on ∷ speaker_set_freq (10 * scancode) ∷ k.calls;
    }

-- `key_maps[0]` is `plain_map`.
pub sync_modifiers : (ℕ → ℕ → ℕ) → ℤ → Keyboard → Keyboard
sync_modifiers keysym_at keycode k =
    let bits = bits32 keycode in
    let sym = keysym_at 0 (bits % 128) % 4096 in
    if ktyp sym == 7
    then record k { modifiers = set_modifier sym (not ((bits / 128) % 2 == 1)) k.modifiers }
    else k

module _ (keysym_at : ℕ → ℕ → ℕ) (rodata : ℕ → ℕ) where
  pub cursors : ℕ → ℕ
  cursors i = if ltb i 5 then get_or (b'B' ∷ b'D' ∷ b'C' ∷ b'A' ∷ 0 ∷ []) i 0 else rodata i

  pub do_cursor : ℕ → Keyboard → Outcome Keyboard
  do_cursor sym k = do
    k ← keyboard_enqueue 27 k
    k ← keyboard_enqueue b'[' k
    keyboard_enqueue (cursors (kval sym)) k

  pub do_special : ℕ → Keyboard → Outcome Keyboard
  do_special sym k =
      if sym == 513
      then keyboard_enqueue 13 k
      else if sym == 524
      then ok (record k { calls = hal_reboot ∷ k.calls })
      else ok k

  pub kid : Modifiers → ℕ
  kid m =
      (if m.shift then 1 else 0)
      + (if m.altgr then 2 else 0)
      + (if m.ctrl then 4 else 0)
      + (if m.alt then 8 else 0)

  pub keycode_to_ansi : ℕ → Keyboard → Outcome Keyboard
  keycode_to_ansi keycode k =
      if ltb nr_keys keycode
      then ok k
      else let sym = keysym_at (kid k.modifiers) keycode % 4096 in
        if (ktyp sym == 0) || (ktyp sym == 11)
        then keyboard_enqueue (kval sym) k
        else if ktyp sym == 6
        then do_cursor sym k
        else if ktyp sym == 2
        then do_special sym k
        else ok k

  -- What `keyboard_isr` does with a keycode, by the mode.
  pub deliver : ℕ → ℤ → Keyboard → Outcome Keyboard
  deliver scancode keycode k =
      if k.mode == keyboard_mode_scancode
      then keyboard_enqueue scancode k
      else if not (ltb_ℤ (pos 0) keycode)
      then ok k
      else if k.mode == keyboard_mode_keycode
      then keyboard_enqueue (bits32 keycode) k
      else if k.mode == keyboard_mode_ansi
      then keycode_to_ansi (bits32 keycode) k
      else ok k

  pub keyboard_isr : ℕ → Keyboard → Outcome Keyboard
  keyboard_isr scancode k =
      if scancode == 250
      then ok k
      else let (keycode, prev) = scancode_to_keycode k.prev_scancode scancode in
        let k' = sync_modifiers keysym_at keycode (record k { prev_scancode = prev }) in
        do k'' ← deliver scancode keycode k'; ok (key_sound scancode k'')
