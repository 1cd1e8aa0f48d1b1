-- ===== src/Console/Line.antt =====
-- Reading a line: virtual_console_line_mode.c puts the characters typed into a buffer.
use mikucos.Base.{ℕ, ◌+◌, ◌<◌, ◌≤◌, ◌≡◌, ◌≢◌, true, false, ◌||◌, ◌==◌, leb, arith}
use mathlib.Core.Path.{subst}
use mikucos.Base.Outcome.{ok, Succeeds, Succeeds-bind, Succeeds-result}
use mikucos.Console.{Console, Window, ansi_state_normal}
use mikucos.Console.Screen.{
  virtual_console_line_mode_draw_char, virtual_console_line_mode_new_line,
  virtual_console_draw_char, virtual_console_new_line, virtual_console_sync_cursor, add_to_buffer,
}
use mikucos.Console.Machine.{line_mode, ops_of, wrap, state_normal, virtual_console_putchar_sm}

-- The line has two characters more, and the second is a newline.
abbrev pub Wrapped : Console → Console → Type 0
Wrapped c d = (d.idx ≡ c.idx + 2) × (d.line_buffer (c.idx + 1) ≡ b'\n')

leb_of : (a b : ℕ) → a ≤ b → leb a b ≡ true
leb_of a b h = ground arith

module _ (w : Window) where
  draw-idx :
      (ch row col : ℕ) (c : Console)
      → row < w.win_height
      → Succeeds
          (λ d.
            (d.idx ≡ c.idx + 1)
            × (d.line_buffer c.idx ≡ ch)
            × (d.cur_col ≡ c.cur_col)
            × (d.cur_row ≡ c.cur_row))
          (virtual_console_line_mode_draw_char w ch row col c)
  unfolding virtual_console_line_mode_draw_char add_to_buffer virtual_console_draw_char
  draw-idx ch row col c h = ground arith

  new_line-idx :
      (c : Console)
      → ((virtual_console_line_mode_new_line w c).idx ≡ c.idx + 1)
        × ((virtual_console_line_mode_new_line w c).line_buffer c.idx ≡ b'\n')
  unfolding virtual_console_line_mode_new_line virtual_console_new_line virtual_console_sync_cursor
      add_to_buffer
  new_line-idx c = ground arith

  wrap-Wrapped :
      (c d : Console) → d.idx ≡ c.idx + 1 → w.win_width ≤ d.cur_col → Wrapped c (wrap w line_mode d)
  unfolding wrap ops_of
  wrap-Wrapped c d e h =
      let (n, b) = new_line-idx d in
      rw (leb_of w.win_width d.cur_col h) (
        ground (arith, n),
        subst (λ k. (virtual_console_line_mode_new_line w d).line_buffer k ≡ b'\n') e b,
      )

  step-Wrapped :
      (ch : ℕ) (c : Console)
      → c.cur_row < w.win_height
      → c.cur_col + 1 ≡ w.win_width
      → (ch == 0x1b) ≡ false
      → (ch == b'\n' || ch == b'\r') ≡ false
      → (ch == 0x7f) ≡ false
      → Succeeds (Wrapped c) (state_normal w line_mode ch c)
  unfolding state_normal ops_of virtual_console_sync_cursor
  step-Wrapped ch c h e p q r =
      let c' = record c { cur_col = c.cur_col + 1 } in
      rw (p, q, r)
        (Succeeds-bind (Wrapped c) (Wrapped c) _ (λ d. ok (virtual_console_sync_cursor w d))
          (Succeeds-bind _ (Wrapped c) _ (λ d. ok (wrap w line_mode d))
            (draw-idx ch c.cur_row c.cur_col c' h)
            (λ d (i, b, k, l). wrap-Wrapped c d i (ground arith)))
          (λ d k. k))

  -- A character typed in the last column of the window puts two into the line: itself, and a newline
  -- that the wrap of the screen adds.
  pub wrap-adds_newline :
      (ch : ℕ) (c : Console)
      → c.line_mode_sm.state ≡ ansi_state_normal
      → c.cur_row < w.win_height
      → c.cur_col + 1 ≡ w.win_width
      → ch ≢ 0x1b
      → ch ≢ b'\n'
      → ch ≢ b'\r'
      → ch ≢ 0x7f
      → (d : Console) × (virtual_console_putchar_sm w line_mode ch c ≡ ok d)
        × (d.idx ≡ c.idx + 2)
        × (d.line_buffer (c.idx + 1) ≡ b'\n')
  unfolding virtual_console_putchar_sm
  wrap-adds_newline ch c s h e p q r t =
      let (d, g, (i, b)) =
        Succeeds-result (Wrapped c) (virtual_console_putchar_sm w line_mode ch c)
          (rw (s, Succeeds) (step-Wrapped ch c h e (ground arith) (ground arith) (ground arith))) in
      (d, g, i, b)
