-- ===== src/Console/Bounds.antt =====
-- What the console keeps, whatever characters come: the cursor is inside the window, no character is
-- drawn outside it, and the array of prefixes is used inside its bounds.
use mikucos.Base.{
  ℕ, ◌+◌, ◌<◌, ◌≡◌, inl, inr, refl, Bool, true, false, ◌&&◌, ◌==◌, ltb, leb, List, [], ◌∷◌, arith,
  Bool-cases,
}
use mikucos.Base.Int.{ℤ, pos, negsuc, ◌+ℤ◌, ◌-ℤ◌, wrap32, clamp-lt}
use mikucos.Base.Outcome.{Succeeds, Succeeds-result, if-holds}
use mikucos.Console.{
  Console, Window, VideoCall, AnsiState, AnsiStateMachine, ansi_state_normal, ansi_state_escaped,
  ansi_state_escbracket, video_draw_char, video_set_cursor_pos, video_scroll,
  ansi_numeric_prefix_depth, push_video,
}
use mikucos.Console.Screen.{
  virtual_console_reset, virtual_console_move_cursor, virtual_console_cls, virtual_console_new_line,
  virtual_console_draw_char, virtual_console_sync_cursor, virtual_console_backspace,
  virtual_console_line_mode_move_cursor, virtual_console_line_mode_cls,
  virtual_console_line_mode_new_line, virtual_console_line_mode_draw_char,
  virtual_console_line_mode_backspace, virtual_console_set_position, add_to_buffer,
  backspace_buffer,
}
use mikucos.Console.Machine.{Machine, output, line_mode, sm_of, set_sm, ops_of}

-- In a sequence, the last prefix is one of the array.
abbrev pub prefixes_ok : AnsiState → ℤ → Bool
prefixes_ok ansi_state_escbracket (pos n) = ltb n ansi_numeric_prefix_depth
prefixes_ok ansi_state_escbracket (negsuc n) = false
prefixes_ok ansi_state_normal i = true
prefixes_ok ansi_state_escaped i = true

abbrev pub sm_ok : AnsiStateMachine → Bool
sm_ok sm = prefixes_ok sm.state sm.numeric_prefixes_last

-- The cell is inside the window.
abbrev pub inside : Window → ℕ → ℕ → Bool
inside w row col =
    leb w.win_start_row row
    && ltb row (w.win_start_row + w.win_height)
    && leb w.win_start_col col
    && ltb col (w.win_start_col + w.win_width)

abbrev pub drawn_inside : Window → List VideoCall → Bool
drawn_inside w [] = true
drawn_inside w (video_draw_char ch a row col ∷ v) = inside w row col && drawn_inside w v
drawn_inside w (video_set_cursor_pos row col ∷ v) = drawn_inside w v
drawn_inside w (video_scroll row col wd h n ∷ v) = drawn_inside w v

pub record Sound (w : Window) (c : Console) : Type 0 where
  pub output_ok : sm_ok c.ansi_sm ≡ true
  pub line_mode_ok : sm_ok c.line_mode_sm ≡ true
  pub drawn : drawn_inside w c.video ≡ true

pub record InWindow (w : Window) (c : Console) : Type 0 where
  pub sound : Sound w c
  pub row_lt : c.cur_row < w.win_height
  pub col_lt : c.cur_col < w.win_width

-- What a character drawn leaves as it is.
abbrev pub Drawn : Window → Console → Console → Type 0
Drawn w c d = Sound w d × (d.cur_row ≡ c.cur_row) × (d.cur_col ≡ c.cur_col)

module _ (w : Window) (tall : 0 < w.win_height) (wide : 0 < w.win_width) where
  inside_of :
      (row col : ℕ)
      → row < w.win_height
      → col < w.win_width
      → inside w (w.win_start_row + row) (w.win_start_col + col) ≡ true
  inside_of row col h k = ground arith

  sync-InWindow : (c : Console) → InWindow w c → InWindow w (virtual_console_sync_cursor w c)
  unfolding virtual_console_sync_cursor
  sync-InWindow c i = record {
    sound = record {
      output_ok = i.sound.output_ok;
      line_mode_ok = i.sound.line_mode_ok;
      drawn = i.sound.drawn;
    };
    row_lt = i.row_lt;
    col_lt = i.col_lt;
  }

  set_position-InWindow :
      (row col : ℕ) (c : Console)
      → Sound w c
      → row < w.win_height
      → col < w.win_width
      → InWindow w (virtual_console_set_position w row col c)
  unfolding virtual_console_set_position
  set_position-InWindow row col c i h k = record {
    sound = record { output_ok = i.output_ok; line_mode_ok = i.line_mode_ok; drawn = i.drawn };
    row_lt = h;
    col_lt = k;
  }

  cls-InWindow : (c : Console) → Sound w c → InWindow w (virtual_console_cls w c)
  unfolding virtual_console_cls
  cls-InWindow c i =
      set_position-InWindow 0 0
        (push_video
          (video_scroll w.win_start_row w.win_start_col w.win_width w.win_height
            (pos 0 -ℤ pos w.win_height))
          c)
        (record { output_ok = i.output_ok; line_mode_ok = i.line_mode_ok; drawn = i.drawn }) tall
        wide

  reset-InWindow : (c : Console) → Sound w c → InWindow w (virtual_console_reset w c)
  unfolding virtual_console_reset
  reset-InWindow c i =
      cls-InWindow
        (record c { ansi_sm = record c.ansi_sm { state = ansi_state_normal }; attribute = 0x7 })
        (record { output_ok = refl; line_mode_ok = i.line_mode_ok; drawn = i.drawn })

  new_line-InWindow :
      (c : Console)
      → Sound w c
      → c.cur_row < w.win_height
      → InWindow w (virtual_console_new_line w c)
  unfolding virtual_console_new_line
  new_line-InWindow c i h = elim (Bool-cases (leb w.win_height (c.cur_row + 1))) [
    | inl e ↦ rw (e) (
        sync-InWindow _ (record {
          sound = record {
            output_ok = i.output_ok;
            line_mode_ok = i.line_mode_ok;
            drawn = i.drawn;
          };
          row_lt = h;
          col_lt = wide;
        }))
    | inr e ↦ rw (e) (
        sync-InWindow _ (record {
          sound = record {
            output_ok = i.output_ok;
            line_mode_ok = i.line_mode_ok;
            drawn = i.drawn;
          };
          row_lt = ground arith;
          col_lt = wide;
        }))
  ]

  move_cursor-InWindow :
      (rrow rcol : ℤ) (c : Console)
      → Sound w c
      → InWindow w (virtual_console_move_cursor w rrow rcol c)
  unfolding virtual_console_move_cursor
  move_cursor-InWindow rrow rcol c i =
      set_position-InWindow _ _ c i (clamp-lt (wrap32 (pos c.cur_row +ℤ rrow)) w.win_height tall)
        (clamp-lt (wrap32 (pos c.cur_col +ℤ rcol)) w.win_width wide)

  add_to_buffer-InWindow : (ch : ℕ) (c : Console) → InWindow w c → InWindow w (add_to_buffer ch c)
  unfolding add_to_buffer
  add_to_buffer-InWindow ch c i = record {
    sound = record {
      output_ok = i.sound.output_ok;
      line_mode_ok = i.sound.line_mode_ok;
      drawn = i.sound.drawn;
    };
    row_lt = i.row_lt;
    col_lt = i.col_lt;
  }

  -- A character drawn at a place in the window.
  draw_char-Sound :
      (ch row col : ℕ) (c : Console)
      → Sound w c
      → row < w.win_height
      → col < w.win_width
      → Succeeds (Drawn w c) (virtual_console_draw_char w ch row col c)
  unfolding virtual_console_draw_char
  draw_char-Sound ch row col c i h k =
      if-holds (Succeeds (Drawn w c)) (ltb row w.win_height)
        (λ e. (
          record {
            output_ok = i.output_ok;
            line_mode_ok = i.line_mode_ok;
            drawn = rw (inside_of row col h k) i.drawn;
          },
          refl,
          refl,
        ))
        (λ e. ground arith)

  pub draw-Sound :
      (m : Machine) (ch row col : ℕ) (c : Console)
      → Sound w c
      → row < w.win_height
      → col < w.win_width
      → Succeeds (Drawn w c) ((ops_of w m).draw_char ch row col c)
  unfolding ops_of virtual_console_line_mode_draw_char add_to_buffer
  draw-Sound output ch row col c i h k = draw_char-Sound ch row col c i h k
  draw-Sound line_mode ch row col c i h k =
      let j : Sound w (add_to_buffer ch c) = record {
        output_ok = i.output_ok;
        line_mode_ok = i.line_mode_ok;
        drawn = i.drawn;
      } in
      if-holds (Succeeds (Drawn w c)) c.echo
        (λ e. draw_char-Sound ch row col (add_to_buffer ch c) j h k) (λ e. (j, refl, refl))

  pub new_line_op-InWindow :
      (m : Machine) (c : Console)
      → Sound w c
      → c.cur_row < w.win_height
      → InWindow w ((ops_of w m).new_line c)
  unfolding ops_of virtual_console_line_mode_new_line
  new_line_op-InWindow output c i h = new_line-InWindow c i h
  new_line_op-InWindow line_mode c i h = add_to_buffer-InWindow b'\n' _ (new_line-InWindow c i h)

  pub reset_op-InWindow :
      (m : Machine) (c : Console) → InWindow w c → InWindow w ((ops_of w m).reset c)
  unfolding ops_of
  reset_op-InWindow output c i = reset-InWindow c i.sound
  reset_op-InWindow line_mode c i = reset-InWindow c i.sound

  pub sync_op-InWindow :
      (m : Machine) (c : Console) → InWindow w c → InWindow w ((ops_of w m).sync_cursor c)
  unfolding ops_of
  sync_op-InWindow output c i = sync-InWindow c i
  sync_op-InWindow line_mode c i = sync-InWindow c i

  pub cls_op-InWindow : (m : Machine) (c : Console) → InWindow w c → InWindow w ((ops_of w m).cls c)
  unfolding ops_of virtual_console_line_mode_cls
  cls_op-InWindow output c i = cls-InWindow c i.sound
  cls_op-InWindow line_mode c i = i

  pub move_op-InWindow :
      (m : Machine) (rrow rcol : ℤ) (c : Console)
      → InWindow w c
      → InWindow w ((ops_of w m).move_cursor rrow rcol c)
  unfolding ops_of virtual_console_line_mode_move_cursor
  move_op-InWindow output rrow rcol c i = move_cursor-InWindow rrow rcol c i.sound
  move_op-InWindow line_mode rrow rcol c i = i

  pub backspace-InWindow :
      (m : Machine) (c : Console) → InWindow w c → Succeeds (InWindow w) ((ops_of w m).backspace c)
  unfolding ops_of virtual_console_backspace virtual_console_line_mode_backspace backspace_buffer
  backspace-InWindow output c i = i
  backspace-InWindow line_mode c i =
      let s : Sound w (backspace_buffer c) = record {
        output_ok = i.sound.output_ok;
        line_mode_ok = i.sound.line_mode_ok;
        drawn = i.sound.drawn;
      } in
      let c' = virtual_console_move_cursor w (pos 0) (negsuc 0) (backspace_buffer c) in
      let j : InWindow w c' = move_cursor-InWindow (pos 0) (negsuc 0) (backspace_buffer c) s in
      let (d, h, (k, r, l)) =
        Succeeds-result (Drawn w c') _
          (draw_char-Sound b' ' c'.cur_row c'.cur_col c' j.sound j.row_lt j.col_lt) in
      if-holds (Succeeds (InWindow w)) (c.idx == 0) (λ e. i)
        (λ e. rw (h) (record { sound = k; row_lt = rw (r) j.row_lt; col_lt = rw (l) j.col_lt }))

  pub set_sm-InWindow :
      (m : Machine) (sm : AnsiStateMachine) (c : Console)
      → sm_ok sm ≡ true
      → InWindow w c
      → InWindow w (set_sm m sm c)
  set_sm-InWindow output sm c h i = record {
    sound = record { output_ok = h; line_mode_ok = i.sound.line_mode_ok; drawn = i.sound.drawn };
    row_lt = i.row_lt;
    col_lt = i.col_lt;
  }
  set_sm-InWindow line_mode sm c h i = record {
    sound = record { output_ok = i.sound.output_ok; line_mode_ok = h; drawn = i.sound.drawn };
    row_lt = i.row_lt;
    col_lt = i.col_lt;
  }

  pub sm_of_ok : (m : Machine) (c : Console) → InWindow w c → sm_ok (sm_of m c) ≡ true
  sm_of_ok output c i = i.sound.output_ok
  sm_of_ok line_mode c i = i.sound.line_mode_ok
