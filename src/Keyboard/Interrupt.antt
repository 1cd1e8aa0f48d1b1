-- ===== src/Keyboard/Interrupt.antt =====
-- One interrupt of the keyboard: a prefix, or the scancode that ends a stroke.
use mikucos.Base.{
  ℕ, ◌+◌, ◌/◌, ◌%◌, ◌<◌, ◌≤◌, ◌≡◌, ◌≢◌, sym, refl, ap, ◌∙◌, Bool, true, false, not, ◌==◌, ltb,
  if◌then◌else◌, [], ◌∷◌, ◌++◌, arith, length, inl, inr,
}
use mikucos.Base.Int.{bits32, ℤ, pos}
use mikucos.Base.Outcome.{ok}
use mikucos.CharQueue.{CharQueue, char_queue_size_max}
use mikucos.CharQueue.Fifo.{InBounds, to_list, enqueue-append}
use mikucos.Keyboard.{
  Keyboard, scancode_to_keycode, keyboard_isr, sync_modifiers, deliver, keyboard_enqueue, key_sound,
  keyboard_mode_keycode, k_shift, k_ctrl, k_alt, k_altgr, ktyp,
}
use mikucos.Keyboard.Keys.{break_code}

-- What a scancode without a keycode leaves as it was.
pub record Alike (k k' : Keyboard) : Type 0 where
  pub same_mode : k'.mode ≡ k.mode
  pub same_modifiers : k'.modifiers ≡ k.modifiers
  pub same_queue : k'.keyboard_queue ≡ k.keyboard_queue

key_sound-Alike : (c : ℕ) (k : Keyboard) → Alike k (key_sound c k)
unfolding key_sound
key_sound-Alike c k = record {
  same_mode = ground arith;
  same_modifiers = ground arith;
  same_queue = ground arith;
}

key_sound-prev : (c : ℕ) (k : Keyboard) → (key_sound c k).prev_scancode ≡ k.prev_scancode
unfolding key_sound
key_sound-prev c k = ground arith

sync-prev :
    (maps : ℕ → ℕ → ℕ) (c : ℤ) (k : Keyboard)
    → ((sync_modifiers maps c k).prev_scancode ≡ k.prev_scancode)
      × ((sync_modifiers maps c k).keyboard_queue ≡ k.keyboard_queue)
      × ((sync_modifiers maps c k).mode ≡ k.mode)
unfolding sync_modifiers
sync-prev maps c k = ground arith

-- A modifier with the symbol `sym` behind a keycode: on when the key of `sym` was pressed, off when
-- it was released, else as before.
abbrev pub held : (ℕ → ℕ → ℕ) → ℕ → ℕ → Bool → Bool → Bool
held maps sym code r before = if maps 0 code % 4096 == sym then not r else before

sync-held :
    (maps : ℕ → ℕ → ℕ) (code : ℕ) (r : Bool) (k : Keyboard)
    → code < 128
    → let m = (sync_modifiers maps (pos (code + break_code r)) k).modifiers in
      (m.shift ≡ held maps k_shift code r k.modifiers.shift)
      × (m.ctrl ≡ held maps k_ctrl code r k.modifiers.ctrl)
      × (m.alt ≡ held maps k_alt code r k.modifiers.alt)
      × (m.altgr ≡ held maps k_altgr code r k.modifiers.altgr)
unfolding sync_modifiers
sync-held maps code true k h =
    let low : bits32 (pos (code + 128)) % 128 ≡ code = omega arith in
    let high : (bits32 (pos (code + 128)) / 128) % 2 ≡ 1 = omega arith in
    rw low (rw high (ground arith))
sync-held maps code false k h =
    let low : bits32 (pos (code + 0)) % 128 ≡ code = omega arith in
    let high : (bits32 (pos (code + 0)) / 128) % 2 ≡ 0 = omega arith in
    rw low (rw high (ground arith))

-- Keycode 0 is no modifier in the plain map; then a prefix is only remembered.
prefix-remembered :
    (maps : ℕ → ℕ → ℕ) (ro : ℕ → ℕ) (c p : ℕ) (k : Keyboard)
    → ktyp (maps 0 0 % 4096) ≢ 7
    → k.mode ≡ keyboard_mode_keycode
    → c ≢ 250
    → scancode_to_keycode k.prev_scancode c ≡ (pos 0, p)
    → keyboard_isr maps ro c k ≡ ok (key_sound c (record k { prev_scancode = p }))
unfolding keyboard_isr deliver sync_modifiers
prefix-remembered maps ro c p k h m n e = rw e (ground (arith, h, m, n))

-- The keyboard between two keys, in keycode mode.
pub record Idle (k : Keyboard) : Type 0 where
  pub no_prefix : k.prev_scancode ≡ 0
  pub in_keycodes : k.mode ≡ keyboard_mode_keycode
  pub bounds : InBounds k.keyboard_queue

-- From `k` to `k'` with one stroke of the key of `code`.
pub record Advanced (maps : ℕ → ℕ → ℕ) (code : ℕ) (r : Bool) (k k' : Keyboard) : Type 0 where
  pub idle : Idle k'
  pub queued : to_list k'.keyboard_queue ≡ to_list k.keyboard_queue ++ (code + break_code r) ∷ []
  pub held_shift : k'.modifiers.shift ≡ held maps k_shift code r k.modifiers.shift
  pub held_ctrl : k'.modifiers.ctrl ≡ held maps k_ctrl code r k.modifiers.ctrl
  pub held_alt : k'.modifiers.alt ≡ held maps k_alt code r k.modifiers.alt
  pub held_altgr : k'.modifiers.altgr ≡ held maps k_altgr code r k.modifiers.altgr

unfoldable pub HasRoom : Keyboard → ℕ → Type 0
HasRoom k n = length (to_list k.keyboard_queue) + n < char_queue_size_max

deliver-append :
    (maps : ℕ → ℕ → ℕ) (ro : ℕ → ℕ) (c code : ℕ) (k : Keyboard)
    → k.mode ≡ keyboard_mode_keycode
    → InBounds k.keyboard_queue
    → HasRoom k 1
    → 0 < code
    → code < 256
    → (q : CharQueue) × (deliver maps ro c (pos code) k ≡ ok (record k { keyboard_queue = q }))
      × InBounds q
      × (to_list q ≡ to_list k.keyboard_queue ++ code ∷ [])
unfolding deliver keyboard_enqueue HasRoom
deliver-append maps ro c code k m b room low high =
    let positive : ltb 0 (code + 0) ≡ true = ground arith in
    let small : bits32 (pos code) % 256 ≡ code = omega arith in
    elim (enqueue-append k.keyboard_queue (bits32 (pos code)) b) [
      | inl (r, (q, e, b', l)) ↦ (
        q,
        rw m (rw positive (rw e refl)),
        b',
        l ∙ ap (λ x. to_list k.keyboard_queue ++ x ∷ []) small,
      )
      | inr (full, e) ↦ absurd (omega arith)
    ]

isr-delivered :
    (maps : ℕ → ℕ → ℕ) (ro : ℕ → ℕ) (c p : ℕ) (k k' : Keyboard) (kc : ℤ)
    → c ≢ 250
    → scancode_to_keycode k.prev_scancode c ≡ (kc, p)
    → deliver maps ro c kc (sync_modifiers maps kc (record k { prev_scancode = p })) ≡ ok k'
    → keyboard_isr maps ro c k ≡ ok (key_sound c k')
unfolding keyboard_isr
isr-delivered maps ro c p k k' kc n e d =
    let other : (c == 250) ≡ false = ground arith in rw other (rw e (rw d refl))

break_code-le : (r : Bool) → break_code r ≤ 128
break_code-le r = ground arith

-- No key's scancode is that of a command's answer.
pub code-distinct : (n : ℕ) (r : Bool) → n < 128 → n ≢ 122 → n + break_code r ≢ 250
code-distinct n r h d = ground arith

-- The last scancode of a stroke.
code-Advanced :
    (maps : ℕ → ℕ → ℕ) (ro : ℕ → ℕ) (c code : ℕ) (r : Bool) (k : Keyboard)
    → k.mode ≡ keyboard_mode_keycode
    → InBounds k.keyboard_queue
    → HasRoom k 1
    → 0 < code
    → code < 128
    → c ≢ 250
    → scancode_to_keycode k.prev_scancode c ≡ (pos (code + break_code r), 0)
    → (k' : Keyboard) × (keyboard_isr maps ro c k ≡ ok k') × Advanced maps code r k k'
unfolding keyboard_isr HasRoom
code-Advanced maps ro c code r k m b room low high n e =
    let k0 : Keyboard =
      sync_modifiers maps (pos (code + break_code r)) (record k { prev_scancode = 0 }) in
    let (p0, q0, m0) =
      sync-prev maps (pos (code + break_code r)) (record k { prev_scancode = 0 }) in
    let (h1, h2, h3, h4) = sync-held maps code r (record k { prev_scancode = 0 }) high in
    let small : code + break_code r < 256 = let le = break_code-le r in omega arith in
    let (q, d, b', l) =
      deliver-append maps ro c (code + break_code r) k0 (m0 ∙ m) (rw q0 b) (rw q0 room)
        (omega arith) small in
    let a = key_sound-Alike c (record k0 { keyboard_queue = q }) in
    (
      key_sound c (record k0 { keyboard_queue = q }),
      isr-delivered maps ro c 0 k (record k0 { keyboard_queue = q }) (pos (code + break_code r)) n e
          d,
      record {
        idle = record {
          no_prefix = key_sound-prev c (record k0 { keyboard_queue = q }) ∙ p0;
          in_keycodes = a.same_mode ∙ m0 ∙ m;
          bounds = rw a.same_queue b';
        };
        queued = rw a.same_queue (l ∙ ap (λ x. to_list x ++ (code + break_code r) ∷ []) q0);
        held_shift = ap (λ x. x.shift) a.same_modifiers ∙ h1;
        held_ctrl = ap (λ x. x.ctrl) a.same_modifiers ∙ h2;
        held_alt = ap (λ x. x.alt) a.same_modifiers ∙ h3;
        held_altgr = ap (λ x. x.altgr) a.same_modifiers ∙ h4;
      },
    )

Advanced-from :
    (maps : ℕ → ℕ → ℕ) (code : ℕ) (r : Bool) (k k1 k' : Keyboard)
    → Alike k k1
    → Advanced maps code r k1 k'
    → Advanced maps code r k k'
Advanced-from maps code r k k1 k' s a = record {
  idle = a.idle;
  queued = a.queued ∙ ap (λ q. to_list q ++ (code + break_code r) ∷ []) s.same_queue;
  held_shift = a.held_shift ∙ ap (λ m. held maps k_shift code r m.shift) s.same_modifiers;
  held_ctrl = a.held_ctrl ∙ ap (λ m. held maps k_ctrl code r m.ctrl) s.same_modifiers;
  held_alt = a.held_alt ∙ ap (λ m. held maps k_alt code r m.alt) s.same_modifiers;
  held_altgr = a.held_altgr ∙ ap (λ m. held maps k_altgr code r m.altgr) s.same_modifiers;
}

-- A stroke whose scancode comes behind others that changed nothing else.
pub after-Advanced :
    (maps : ℕ → ℕ → ℕ) (ro : ℕ → ℕ) (c p code : ℕ) (r : Bool) (k k1 : Keyboard)
    → Idle k
    → HasRoom k 1
    → Alike k k1
    → k1.prev_scancode ≡ p
    → (0 < code) × (code < 128) × (c ≢ 250)
    → scancode_to_keycode p c ≡ (pos (code + break_code r), 0)
    → (k' : Keyboard) × (keyboard_isr maps ro c k1 ≡ ok k') × Advanced maps code r k k'
unfolding HasRoom
after-Advanced maps ro c p code r k k1 i room s e range d =
    let decoded : scancode_to_keycode k1.prev_scancode c ≡ (pos (code + break_code r), 0) =
      rw e d in
    let room' : HasRoom k1 1 = rw s.same_queue room in
    let (k', isr, a) =
      code-Advanced maps ro c code r k1 (s.same_mode ∙ i.in_keycodes) (rw s.same_queue i.bounds)
        room' range.0 range.1 range.2 decoded in
    (k', isr, Advanced-from maps code r k k1 k' s a)

pub prefix-Alike :
    (maps : ℕ → ℕ → ℕ) (ro : ℕ → ℕ) (c p : ℕ) (k : Keyboard)
    → ktyp (maps 0 0 % 4096) ≢ 7
    → k.mode ≡ keyboard_mode_keycode
    → c ≢ 250
    → scancode_to_keycode k.prev_scancode c ≡ (pos 0, p)
    → (k1 : Keyboard) × (keyboard_isr maps ro c k ≡ ok k1) × Alike k k1 × (k1.prev_scancode ≡ p)
prefix-Alike maps ro c p k hole m n e =
    let s = key_sound-Alike c (record k { prev_scancode = p }) in
    (
      key_sound c (record k { prev_scancode = p }),
      prefix-remembered maps ro c p k hole m n e,
      record {
        same_mode = s.same_mode;
        same_modifiers = s.same_modifiers;
        same_queue = s.same_queue;
      },
      key_sound-prev c (record k { prev_scancode = p }),
    )

pub Alike-trans : (a b c : Keyboard) → Alike a b → Alike b c → Alike a c
Alike-trans a b c s t = record {
  same_mode = t.same_mode ∙ s.same_mode;
  same_modifiers = t.same_modifiers ∙ s.same_modifiers;
  same_queue = t.same_queue ∙ s.same_queue;
}
