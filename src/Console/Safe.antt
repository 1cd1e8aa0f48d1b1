-- ===== src/Console/Safe.antt =====
-- Every character keeps the console sound: the state machine of virtual_console_ansi.c over the
-- operations of both machines.
use mikucos.Base.{
  ℕ, ◌+◌, ◌<◌, ◌≡◌, inl, inr, refl, true, ◌&&◌, ◌||◌, ◌==◌, leb, List, [], ◌∷◌, length, arith,
  Bool-cases,
}
use mikucos.Base.Int.{ℤ, pos, negsuc, ◌+ℤ◌, ◌-ℤ◌, ltb_ℤ}
use mikucos.Base.Outcome.{Succeeds, Succeeds-bind, Succeeds-result, if-holds, ok}
use mikucos.Console.{
  Console, Window, AnsiState, AnsiStateMachine, ansi_state_normal, ansi_state_escaped,
  ansi_state_escbracket, ansi_numeric_prefixes_reset, ansi_numeric_prefix_set,
  ansi_numeric_prefix_get, ansi_numeric_prefix_push,
}
use mikucos.Console.Machine.{
  Machine, output, line_mode, sm_of, set_sm, set_state, ops_of, unknown_escape, wrap, state_normal,
  state_escaped, state_escbracket, virtual_console_putchar_sm, virtual_console_write, offset,
}
use mikucos.Console.Bounds.{
  InWindow, Sound, Drawn, sm_ok, prefixes_ok, sync_op-InWindow, draw-Sound, new_line_op-InWindow,
  reset_op-InWindow, cls_op-InWindow, move_op-InWindow, backspace-InWindow, set_sm-InWindow,
  sm_of_ok,
}

in_depth :
    (i : ℤ)
    → prefixes_ok ansi_state_escbracket i ≡ true
    → ltb_ℤ (i +ℤ pos 1) (pos 4) ≡ true
    → prefixes_ok ansi_state_escbracket (i +ℤ pos 1) ≡ true
unfolding ◌+ℤ◌
in_depth (pos n) h k = ground arith
in_depth (negsuc n) h k = ground arith

module _ (w : Window) (tall : 0 < w.win_height) (wide : 0 < w.win_width) where
  to_normal :
      (m : Machine) (c : Console) → InWindow w c → InWindow w (set_state m ansi_state_normal c)
  to_normal m c i =
      set_sm-InWindow w tall wide m (record (sm_of m c) { state = ansi_state_normal }) c refl i

  unknown_escape-InWindow :
      (m : Machine) (c : Console) → InWindow w c → InWindow w (unknown_escape w m c)
  unfolding unknown_escape
  unknown_escape-InWindow m c i = to_normal m c i

  wrap-InWindow :
      (m : Machine) (d : Console) → Sound w d → d.cur_row < w.win_height → InWindow w (wrap w m d)
  unfolding wrap
  wrap-InWindow m d i h = elim (Bool-cases (leb w.win_width d.cur_col)) [
    | inl e ↦ rw (e) (new_line_op-InWindow w tall wide m d i h)
    | inr e ↦ rw (e) (record { sound = i; row_lt = h; col_lt = ground arith })
  ]

  state_normal-InWindow :
      (m : Machine) (ch : ℕ) (c : Console)
      → InWindow w c
      → Succeeds (InWindow w) (state_normal w m ch c)
  unfolding state_normal
  state_normal-InWindow m ch c i =
      let s = i.sound in
      let c' = record c { cur_col = c.cur_col + 1 } in
      let s' : Sound w c' = record {
        output_ok = s.output_ok;
        line_mode_ok = s.line_mode_ok;
        drawn = s.drawn;
      } in
      let drawn =
        Succeeds-bind (Drawn w c') (InWindow w) _ (λ d. ok (wrap w m d))
          (draw-Sound w tall wide m ch c.cur_row c.cur_col c' s' i.row_lt i.col_lt)
          (λ d (k, r, l). wrap-InWindow m d k (rw (r) i.row_lt)) in
      Succeeds-bind (InWindow w) (InWindow w) _ (λ d. ok ((ops_of w m).sync_cursor d))
        (if-holds (Succeeds (InWindow w)) (ch == 0x1b)
          (λ e.
            set_sm-InWindow w tall wide m (record (sm_of m c) { state = ansi_state_escaped }) c refl
              i)
          (λ e.
            if-holds (Succeeds (InWindow w)) (ch == b'\n' || ch == b'\r')
              (λ e. new_line_op-InWindow w tall wide m c s i.row_lt)
              (λ e.
                if-holds (Succeeds (InWindow w)) (ch == 0x7f)
                  (λ e. backspace-InWindow w tall wide m c i) (λ e. drawn))))
        (λ d j. sync_op-InWindow w tall wide m d j)

  state_escaped-InWindow :
      (m : Machine) (ch : ℕ) (c : Console) → InWindow w c → InWindow w (state_escaped w m ch c)
  unfolding state_escaped ansi_numeric_prefixes_reset ansi_numeric_prefix_set
  state_escaped-InWindow m ch c i =
      if-holds (InWindow w) (ch == b'[')
        (λ e.
          set_sm-InWindow w tall wide m
            (ansi_numeric_prefixes_reset (record (sm_of m c) { state = ansi_state_escbracket })) c
            refl i)
        (λ e.
          if-holds (InWindow w) (ch == b'c')
            (λ e. unknown_escape-InWindow m _ (reset_op-InWindow w tall wide m c i))
            (λ e. unknown_escape-InWindow m c i))

  push_ok :
      (sm : AnsiStateMachine)
      → sm.state ≡ ansi_state_escbracket
      → sm_ok sm ≡ true
      → (ansi_numeric_prefix_push sm).0 ≡ true
      → sm_ok (ansi_numeric_prefix_push sm).1 ≡ true
  unfolding ansi_numeric_prefix_push ansi_numeric_prefix_set
  push_ok sm s h k = rw (k, s) (in_depth sm.numeric_prefixes_last (rw (s) at (h)) k)

  digit_ok :
      (v : ℕ) (sm : AnsiStateMachine)
      → sm_ok sm ≡ true
      → sm_ok (ansi_numeric_prefix_set v sm) ≡ true
  unfolding ansi_numeric_prefix_set
  digit_ok v sm h = h

  with_attribute : (a : ℕ) (c : Console) → InWindow w c → InWindow w (record c { attribute = a })
  with_attribute a c i = record {
    sound = record {
      output_ok = i.sound.output_ok;
      line_mode_ok = i.sound.line_mode_ok;
      drawn = i.sound.drawn;
    };
    row_lt = i.row_lt;
    col_lt = i.col_lt;
  }

  after :
      (m : Machine) (sm : AnsiStateMachine) (c : Console)
      → InWindow w c
      → InWindow w (set_state m ansi_state_normal (set_sm m sm c))
  after output sm c i = record {
    sound = record { output_ok = refl; line_mode_ok = i.sound.line_mode_ok; drawn = i.sound.drawn };
    row_lt = i.row_lt;
    col_lt = i.col_lt;
  }
  after line_mode sm c i = record {
    sound = record { output_ok = i.sound.output_ok; line_mode_ok = refl; drawn = i.sound.drawn };
    row_lt = i.row_lt;
    col_lt = i.col_lt;
  }

  -- In a sequence, one of the cases of `state_escbracket`.
  state_escbracket-InWindow :
      (m : Machine) (ch : ℕ) (c : Console)
      → (sm_of m c).state ≡ ansi_state_escbracket
      → InWindow w c
      → InWindow w (state_escbracket w m ch c)
  unfolding state_escbracket unknown_escape
  state_escbracket-InWindow m ch c s i =
      let sm = sm_of m c in
      let moved : (r k : ℤ)
          → InWindow w (set_state m ansi_state_normal ((ops_of w m).move_cursor r k c)) =
        λ r k. to_normal m _ (move_op-InWindow w tall wide m r k c i) in
      if-holds (InWindow w) (leb b'0' ch && leb ch b'9')
        (λ e. set_sm-InWindow w tall wide m _ c (digit_ok _ sm (sm_of_ok w tall wide m c i)) i)
        (λ e.
          if-holds (InWindow w) (ch == b';')
            (λ e.
              if-holds (InWindow w) ((ansi_numeric_prefix_push sm).0)
                (λ e.
                  set_sm-InWindow w tall wide m _ c (push_ok sm s (sm_of_ok w tall wide m c i) e) i)
                (λ e. after m _ c i))
            (λ e.
              if-holds (InWindow w) (ch == b'm') (λ e. after m _ _ (with_attribute _ c i))
                (λ e.
                  if-holds (InWindow w) (ch == b'A') (λ e. moved (pos 0 -ℤ offset w m c) (pos 0))
                    (λ e.
                      if-holds (InWindow w) (ch == b'B') (λ e. moved (offset w m c) (pos 0))
                        (λ e.
                          if-holds (InWindow w) (ch == b'D')
                            (λ e. moved (pos 0) (pos 0 -ℤ offset w m c))
                            (λ e.
                              if-holds (InWindow w) (ch == b'C') (λ e. moved (pos 0) (offset w m c))
                                (λ e.
                                  if-holds (InWindow w) (ch == b'J')
                                    (λ e.
                                      if-holds (InWindow w) (ansi_numeric_prefix_get sm == 2)
                                        (λ e. to_normal m _ (cls_op-InWindow w tall wide m c i))
                                        (λ e. to_normal m c i))
                                    (λ e. to_normal m c i))))))))

  -- Whatever the character, `virtual_console_putchar_sm` ends without a panic and keeps the cursor in
  -- the window, every character drawn inside it, and the prefixes inside their array.
  pub putchar_sm-InWindow :
      (m : Machine) (ch : ℕ) (c : Console)
      → InWindow w c
      → (d : Console) × (virtual_console_putchar_sm w m ch c ≡ ok d) × InWindow w d
  unfolding virtual_console_putchar_sm
  putchar_sm-InWindow m ch c i = Succeeds-result (InWindow w) _ (go ((sm_of m c).state) refl)
    where
      go :
          (s : AnsiState)
          → (sm_of m c).state ≡ s
          → Succeeds (InWindow w) (virtual_console_putchar_sm w m ch c)
      go ansi_state_normal e = rw (e, Succeeds) (state_normal-InWindow m ch c i)
      go ansi_state_escaped e = rw (e, Succeeds) (state_escaped-InWindow m ch c i)
      go ansi_state_escbracket e = rw (e, Succeeds) (state_escbracket-InWindow m ch c e i)

  -- `virtual_console_write` takes all the bytes, whatever they are, and keeps the cursor in the
  -- window, every character drawn inside it, and the prefixes inside their array.
  pub write-InWindow :
      (s : List ℕ) (c : Console)
      → InWindow w c
      → (d : Console) × (virtual_console_write w s c ≡ ok (length s, d)) × InWindow w d
  unfolding virtual_console_write
  write-InWindow [] c i = (c, refl, i)
  write-InWindow (ch ∷ s) c i =
      let (d, e, j) = putchar_sm-InWindow output ch c i in
      let (f, h, k) = write-InWindow s d j in (f, rw (e, h) refl, k)
