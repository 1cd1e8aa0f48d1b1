-- ===== src/Console/Screen.antt =====
-- The operations on the screen: those of virtual_console.c, and those that
-- virtual_console_line_mode.c puts in their place while a line is read.
use mikucos.Base.{ℕ, ◌+◌, ◌-◌, ◌==◌, ltb, leb, if◌then◌else◌}
use mikucos.Base.Int.{ℤ, pos, negsuc, ◌+ℤ◌, ◌-ℤ◌, pos_part, max_ℤ, min_ℤ, wrap32}
use mikucos.Base.Outcome.{Outcome, ok, panic}
use mikucos.Console.{
  Console, Window, ansi_state_normal, video_draw_char, video_set_cursor_pos, video_scroll,
  push_video,
}

unfoldable pub add_to_buffer : ℕ → Console → Console
add_to_buffer ch c = record c {
  line_buffer = λ i. if i == c.idx then ch else c.line_buffer i;
  idx = c.idx + 1;
}

unfoldable pub backspace_buffer : Console → Console
backspace_buffer c = record c { idx = c.idx - 1 }

module _ (w : Window) where
  unfoldable pub virtual_console_sync_cursor : Console → Console
  virtual_console_sync_cursor c =
      push_video (video_set_cursor_pos (c.cur_row + w.win_start_row) (c.cur_col + w.win_start_col))
        c

  unfoldable pub virtual_console_set_position : ℕ → ℕ → Console → Console
  unfolding virtual_console_sync_cursor
  virtual_console_set_position row col c =
      virtual_console_sync_cursor (record c { cur_row = row; cur_col = col })

  -- `video_scroll` of the whole window.
  abbrev pub scroll : ℤ → Console → Console
  scroll lines c =
      push_video (video_scroll w.win_start_row w.win_start_col w.win_width w.win_height lines) c

  unfoldable pub virtual_console_cls : Console → Console
  unfolding virtual_console_set_position
  virtual_console_cls c = virtual_console_set_position 0 0 (scroll (pos 0 -ℤ pos w.win_height) c)

  unfoldable pub virtual_console_reset : Console → Console
  unfolding virtual_console_cls
  virtual_console_reset c =
      virtual_console_cls
        (record c { ansi_sm = record c.ansi_sm { state = ansi_state_normal }; attribute = 0x7 })

  unfoldable pub virtual_console_backspace : Console → Console
  virtual_console_backspace c = c

  unfoldable pub virtual_console_draw_char : ℕ → ℕ → ℕ → Console → Outcome Console
  virtual_console_draw_char ch row col c =
      if ltb row w.win_height
      then ok (
          push_video
            (video_draw_char ch c.attribute (w.win_start_row + row) (w.win_start_col + col)) c)
      else panic

  -- `cur_row >= win_height - 1` without a subtraction.
  unfoldable pub virtual_console_new_line : Console → Console
  unfolding virtual_console_sync_cursor
  virtual_console_new_line c =
      let c' = record c { cur_col = 0 } in
      virtual_console_sync_cursor (
        if leb w.win_height (c.cur_row + 1)
        then scroll (negsuc 0) c'
        else record c' { cur_row = c.cur_row + 1 })

  unfoldable pub virtual_console_move_cursor : ℤ → ℤ → Console → Console
  unfolding virtual_console_set_position
  virtual_console_move_cursor rrow rcol c =
      let nrow = min_ℤ (wrap32 (pos c.cur_row +ℤ rrow)) (pos w.win_height -ℤ pos 1) in
      let ncol = min_ℤ (wrap32 (pos c.cur_col +ℤ rcol)) (pos w.win_width -ℤ pos 1) in
      virtual_console_set_position (pos_part (max_ℤ nrow (pos 0))) (pos_part (max_ℤ ncol (pos 0))) c

  unfoldable pub virtual_console_line_mode_new_line : Console → Console
  unfolding virtual_console_new_line add_to_buffer
  virtual_console_line_mode_new_line c = add_to_buffer b'\n' (virtual_console_new_line c)

  unfoldable pub virtual_console_line_mode_cls : Console → Console
  virtual_console_line_mode_cls c = c

  -- It returns before its body.
  unfoldable pub virtual_console_line_mode_move_cursor : ℤ → ℤ → Console → Console
  virtual_console_line_mode_move_cursor rrow rcol c = c

  unfoldable pub virtual_console_line_mode_backspace : Console → Outcome Console
  unfolding backspace_buffer virtual_console_move_cursor virtual_console_draw_char
  virtual_console_line_mode_backspace c =
      let c' = virtual_console_move_cursor (pos 0) (negsuc 0) (backspace_buffer c) in
      if c.idx == 0 then ok c else virtual_console_draw_char b' ' c'.cur_row c'.cur_col c'

  unfoldable pub virtual_console_line_mode_draw_char : ℕ → ℕ → ℕ → Console → Outcome Console
  unfolding add_to_buffer virtual_console_draw_char
  virtual_console_line_mode_draw_char ch row col c =
      let c' = add_to_buffer ch c in
      if c.echo then virtual_console_draw_char ch row col c' else ok c'
