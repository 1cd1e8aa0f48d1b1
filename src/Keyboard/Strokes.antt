-- ===== src/Keyboard/Strokes.antt =====
-- keyboard.c on the scancodes that a keyboard sends for a list of keys.
use mathlib.Core.List.{append_assoc, append-nil}
use mikucos.Base.{
  ℕ, ◌+◌, ◌%◌, ◌≡◌, ◌≢◌, sym, length-append, refl, ap, ◌∙◌, Bool, List, [], ◌∷◌, ◌++◌, map, arith,
  length, inl, inr,
}
use mikucos.Base.Outcome.{Outcome, ok, ◌>>=◌}
use mikucos.CharQueue.Fifo.{to_list}
use mikucos.Keyboard.{Keyboard, e0_keys, keyboard_isr, k_shift, k_ctrl, k_alt, k_altgr, ktyp}
use mikucos.Keyboard.Keys.{
  plain, extended, pause, Key, Stroke, IsKey, AllKeys, break_code, scancodes_of, key_code,
  keycode_of, plain-decoded, e0_keys-small, extended-distinct, extended-decoded, pause-decoded,
  prefix-decoded,
}
use mikucos.Keyboard.Interrupt.{
  Alike, held, Idle, Advanced, HasRoom, code-distinct, prefix-Alike, Alike-trans, after-Advanced,
}

-- The interrupts of a list of scancodes, in their order.
unfoldable pub interrupts : (ℕ → ℕ → ℕ) → (ℕ → ℕ) → List ℕ → Keyboard → Outcome Keyboard
interrupts maps ro [] k = ok k
interrupts maps ro (c ∷ cs) k = keyboard_isr maps ro c k >>= interrupts maps ro cs

unfoldable pub strokes : (ℕ → ℕ → ℕ) → (ℕ → ℕ) → List Stroke → Keyboard → Outcome Keyboard
strokes maps ro [] k = ok k
strokes maps ro (s ∷ ss) k =
    interrupts maps ro (scancodes_of s.key s.released) k >>= strokes maps ro ss

stroke-Advanced :
    (maps : ℕ → ℕ → ℕ) (ro : ℕ → ℕ) (key : Key) (r : Bool) (k : Keyboard)
    → ktyp (maps 0 0 % 4096) ≢ 7
    → Idle k
    → HasRoom k 1
    → IsKey key
    → (k' : Keyboard) × (interrupts maps ro (scancodes_of key r) k ≡ ok k')
      × Advanced maps (key_code key) r k k'
unfolding IsKey scancodes_of interrupts key_code
stroke-Advanced maps ro (plain n) r k hole i room h =
    let s : Alike k k = record { same_mode = refl; same_modifiers = refl; same_queue = refl } in
    let (k', e, a) =
      after-Advanced maps ro (n + break_code r) 0 n r k k i room s i.no_prefix
        (h.1, h.0, code-distinct n r h.0 h.4) (plain-decoded n r h) in
    (k', rw e refl, a)
stroke-Advanced maps ro (extended n) r k hole i room h =
    let (k1, e1, s, p) =
      prefix-Alike maps ro 224 224 k hole i.in_keycodes (omega arith)
        (prefix-decoded 224 k.prev_scancode (inl refl)) in
    let distinct = extended-distinct n h.1 in
    let (k', e, a) =
      after-Advanced maps ro (n + break_code r) 224 (e0_keys n) r k k1 i room s p
        (ground (arith, h.1), e0_keys-small n, code-distinct n r h.0 distinct.4)
        (extended-decoded n r h) in
    (k', rw e1 (rw e refl), a)
stroke-Advanced maps ro pause r k hole i room h =
    let (d1, d2) = pause-decoded r in
    let (k1, e1, s, p) =
      prefix-Alike maps ro 225 225 k hole i.in_keycodes (omega arith)
        (prefix-decoded 225 k.prev_scancode (inr refl)) in
    let (k2, e2, s2, p2) =
      prefix-Alike maps ro (29 + break_code r) 256 k1 hole (s.same_mode ∙ i.in_keycodes)
        (code-distinct 29 r (omega arith) (omega arith)) (rw p d1) in
    let (k', e, a) =
      after-Advanced maps ro (69 + break_code r) 256 119 r k k2 i room (Alike-trans k k1 k2 s s2) p2
        (omega arith, omega arith, code-distinct 69 r (omega arith) (omega arith)) d2 in
    (k', rw e1 (rw e2 (rw e refl)), a)

-- A modifier after the strokes: as its key was left the last time, or as it was before.
unfoldable pub held_after : (ℕ → ℕ → ℕ) → ℕ → List Stroke → Bool → Bool
held_after maps sym [] before = before
held_after maps sym (s ∷ ss) before =
    held_after maps sym ss (held maps sym (key_code s.key) s.released before)

-- In keycode mode, with no prefix pending and room in the queue, and no modifier at keycode 0 of the
-- plain map: the interrupts of a list of strokes, each a key pressed or released, put one keycode
-- per stroke into the queue, with bit 7 set on a release, and end without a prefix pending. Each of
-- the four modifiers is on exactly when the last stroke of a key that the plain map gives it was a
-- press, or as before when there was none.
pub keyboard_isr-strokes :
    (maps : ℕ → ℕ → ℕ) (ro : ℕ → ℕ) (ss : List Stroke) (k : Keyboard)
    → ktyp (maps 0 0 % 4096) ≢ 7
    → Idle k
    → AllKeys ss
    → HasRoom k (length ss)
    → (k' : Keyboard) × (strokes maps ro ss k ≡ ok k')
      × Idle k'
      × (to_list k'.keyboard_queue ≡ to_list k.keyboard_queue ++ map keycode_of ss)
      × (k'.modifiers.shift ≡ held_after maps k_shift ss k.modifiers.shift)
      × (k'.modifiers.ctrl ≡ held_after maps k_ctrl ss k.modifiers.ctrl)
      × (k'.modifiers.alt ≡ held_after maps k_alt ss k.modifiers.alt)
      × (k'.modifiers.altgr ≡ held_after maps k_altgr ss k.modifiers.altgr)
unfolding strokes AllKeys HasRoom held_after keycode_of
keyboard_isr-strokes maps ro [] k hole i h room =
    (k, refl, i, sym (append-nil (to_list k.keyboard_queue)), refl, refl, refl, refl)
keyboard_isr-strokes maps ro (s ∷ ss) k hole i h room =
    let room1 : HasRoom k 1 = omega arith in
    let (k1, e, a) = stroke-Advanced maps ro s.key s.released k hole i room1 h.0 in
    let room' : HasRoom k1 (length ss) =
      rw a.queued
        (rw (length-append (to_list k.keyboard_queue) (keycode_of s ∷ [])) (omega arith)) in
    let (k', e', i', q, m1, m2, m3, m4) =
      keyboard_isr-strokes maps ro ss k1 hole a.idle h.1 room' in
    (
      k',
      rw e e',
      i',
      q
          ∙ ap (λ x. x ++ map keycode_of ss) a.queued
          ∙ append_assoc (to_list k.keyboard_queue) (keycode_of s ∷ []) (map keycode_of ss),
      m1 ∙ ap (held_after maps k_shift ss) a.held_shift,
      m2 ∙ ap (held_after maps k_ctrl ss) a.held_ctrl,
      m3 ∙ ap (held_after maps k_alt ss) a.held_alt,
      m4 ∙ ap (held_after maps k_altgr ss) a.held_altgr,
    )
