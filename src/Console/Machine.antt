-- ===== src/Console/Machine.antt =====
-- virtual_console_ansi.c: the state machine that a character goes through, and the reads and writes
-- of virtual_console.c that feed it.
use mikucos.Base.{
  ℕ, zero, suc, ◌+◌, ◌*◌, ◌-◌, ◌%◌, ◌^◌, ◌&&◌, ◌||◌, ◌==◌, ltb, leb, if◌then◌else◌, List, [], ◌∷◌,
}
use mikucos.Base.Int.{ℤ, pos, ◌-ℤ◌, pos_part, max_ℤ, signed32}
use mikucos.Base.Outcome.{Outcome, ok, blocked, ◌>>=◌}
use mikucos.Console.{
  Console, Window, AnsiState, AnsiStateMachine, ansi_state_normal, ansi_state_escaped,
  ansi_state_escbracket, ansi_numeric_prefixes_reset, ansi_numeric_prefix_set,
  ansi_numeric_prefix_get, ansi_numeric_prefix_push, set_attributes, line_buffer_size,
}
use mikucos.Console.Screen.{
  virtual_console_reset, virtual_console_move_cursor, virtual_console_cls, virtual_console_new_line,
  virtual_console_draw_char, virtual_console_sync_cursor, virtual_console_backspace,
  virtual_console_line_mode_move_cursor, virtual_console_line_mode_cls,
  virtual_console_line_mode_new_line, virtual_console_line_mode_draw_char,
  virtual_console_line_mode_backspace,
}

-- Which of the two machines of the device a character is given to.
pub data Machine : Type 0 where
  output line_mode : Machine

pub record AnsiSmOps : Type 0 where
  pub reset : Console → Console
  pub move_cursor : ℤ → ℤ → Console → Console
  pub cls : Console → Console
  pub new_line : Console → Console
  pub draw_char : ℕ → ℕ → ℕ → Console → Outcome Console
  pub sync_cursor : Console → Console
  pub backspace : Console → Outcome Console

abbrev pub sm_of : Machine → Console → AnsiStateMachine
sm_of output c = c.ansi_sm
sm_of line_mode c = c.line_mode_sm

abbrev pub set_sm : Machine → AnsiStateMachine → Console → Console
set_sm output sm c = record c { ansi_sm = sm }
set_sm line_mode sm c = record c { line_mode_sm = sm }

abbrev pub set_state : Machine → AnsiState → Console → Console
set_state m s c = set_sm m (record (sm_of m c) { state = s }) c

module _ (w : Window) where
  unfoldable pub ops_of : Machine → AnsiSmOps
  ops_of output = record {
    reset = virtual_console_reset w;
    move_cursor = virtual_console_move_cursor w;
    cls = virtual_console_cls w;
    new_line = virtual_console_new_line w;
    draw_char = virtual_console_draw_char w;
    sync_cursor = virtual_console_sync_cursor w;
    backspace = λ c. ok (virtual_console_backspace w c);
  }
  ops_of line_mode = record {
    reset = virtual_console_reset w;
    move_cursor = virtual_console_line_mode_move_cursor w;
    cls = virtual_console_line_mode_cls w;
    new_line = virtual_console_line_mode_new_line w;
    draw_char = virtual_console_line_mode_draw_char w;
    sync_cursor = virtual_console_sync_cursor w;
    backspace = virtual_console_line_mode_backspace w;
  }

  unfoldable pub unknown_escape : Machine → Console → Console
  unknown_escape m c = set_state m ansi_state_normal c

  -- The new column after a character, with the wrap.
  unfoldable pub wrap : Machine → Console → Console
  wrap m c = if leb w.win_width c.cur_col then (ops_of m).new_line c else c

  unfoldable pub state_normal : Machine → ℕ → Console → Outcome Console
  unfolding wrap
  state_normal m ch c = do
    c' ←
        (if ch == 0x1b
          then ok (set_state m ansi_state_escaped c)
          else if ch == b'\n' || ch == b'\r'
          then ok ((ops_of m).new_line c)
          else if ch == 0x7f
          then (ops_of m).backspace c
          else (do
            d ← (ops_of m).draw_char ch c.cur_row c.cur_col (record c { cur_col = c.cur_col + 1 })
            ok (wrap m d)))
    ok ((ops_of m).sync_cursor c')

  unfoldable pub state_escaped : Machine → ℕ → Console → Console
  unfolding unknown_escape
  state_escaped m ch c =
      if ch == b'['
      then set_sm m
          (ansi_numeric_prefixes_reset (record (sm_of m c) { state = ansi_state_escbracket })) c
      else if ch == b'c'
      then unknown_escape m ((ops_of m).reset c)
      else unknown_escape m c

  -- The top prefix as an offset, at least 1.
  abbrev pub offset : Machine → Console → ℤ
  offset m c = max_ℤ (signed32 (ansi_numeric_prefix_get (sm_of m c))) (pos 1)

  unfoldable pub state_escbracket : Machine → ℕ → Console → Console
  unfolding unknown_escape
  state_escbracket m ch c =
      let sm = sm_of m c in
      let top = ansi_numeric_prefix_get sm in
      let (pushed, sm') = ansi_numeric_prefix_push sm in
      let (a, popped) = set_attributes (pos_part sm.numeric_prefixes_last) c.attribute sm in
      if leb b'0' ch && leb ch b'9'
      then set_sm m (ansi_numeric_prefix_set ((top * 10 + (ch - b'0')) % 2 ^ 32) sm) c
      else if ch == b';'
      then (if pushed then set_sm m sm' c else unknown_escape m (set_sm m sm' c))
      else if ch == b'm'
      then set_state m ansi_state_normal (set_sm m popped (record c { attribute = a }))
      else if ch == b'A'
      then set_state m ansi_state_normal ((ops_of m).move_cursor (pos 0 -ℤ offset m c) (pos 0) c)
      else if ch == b'B'
      then set_state m ansi_state_normal ((ops_of m).move_cursor (offset m c) (pos 0) c)
      else if ch == b'D'
      then set_state m ansi_state_normal ((ops_of m).move_cursor (pos 0) (pos 0 -ℤ offset m c) c)
      else if ch == b'C'
      then set_state m ansi_state_normal ((ops_of m).move_cursor (pos 0) (offset m c) c)
      else if ch == b'J'
      then (if top == 2
          then set_state m ansi_state_normal ((ops_of m).cls c)
          else unknown_escape m c)
      else unknown_escape m c

  unfoldable pub virtual_console_putchar_sm : Machine → ℕ → Console → Outcome Console
  virtual_console_putchar_sm m ch c = elim ((sm_of m c).state) [
    | ansi_state_normal ↦ state_normal m ch c
    | ansi_state_escaped ↦ ok (state_escaped m ch c)
    | ansi_state_escbracket ↦ ok (state_escbracket m ch c)
  ]

  unfoldable pub virtual_console_write : List ℕ → Console → Outcome (ℕ × Console)
  virtual_console_write [] c = ok (0, c)
  virtual_console_write (ch ∷ s) c = do
    c' ← virtual_console_putchar_sm output ch c
    (n, d) ← virtual_console_write s c'
    ok (suc n, d)

  -- The loop of `virtual_console_read` for a line, over the characters that the keyboard will give;
  -- with none left it waits. What remains of them is returned with the state.
  unfoldable pub read_line_loop : ℕ → List ℕ → Console → Outcome (List ℕ × Console)
  read_line_loop len [] c =
      if ltb c.idx line_buffer_size && ltb c.idx len then blocked else ok ([], c)
  read_line_loop len (ch ∷ keys) c =
      let next = (do
        c' ← virtual_console_putchar_sm line_mode ch c
        if ch == b'\r' then ok (keys, c') else read_line_loop len keys c') in
      if ltb c.idx line_buffer_size && ltb c.idx len then next else ok (ch ∷ keys, c)

-- The first characters of the buffer.
pub buffer_prefix : ℕ → (ℕ → ℕ) → List ℕ
buffer_prefix zero b = []
buffer_prefix (suc n) b = b 0 ∷ buffer_prefix n (λ i. b (suc i))

module _ (w : Window) where
  -- With `ICANON`: the bytes read, the keys left and the state.
  unfoldable pub virtual_console_read_line :
      ℕ → List ℕ → Console → Outcome (List ℕ × List ℕ × Console)
  unfolding buffer_prefix
  virtual_console_read_line len keys c = do
    (rest, d) ←
        read_line_loop w len keys
          (record c { line_mode_sm = record c.line_mode_sm { state = ansi_state_normal }; idx = 0 })
    ok (buffer_prefix (if ltb len d.idx then len else d.idx) d.line_buffer, rest, d)
