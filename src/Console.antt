-- ===== src/Console.antt =====
-- virtual_console.c, virtual_console_ansi.c and virtual_console_line_mode.c: the text console with
-- its escape sequences. What goes to the screen is kept as a list of calls of video.c, the latest
-- first. The window (`win_*`), set by `virtual_console_device_init` only, is a parameter. The two
-- machines of the device, one for output and one for the line that is read, are fields of one state.
pub mod Screen
pub mod Machine
pub mod Bounds
pub mod Safe
pub mod Line
pub mod Examples
use mikucos.Base.{
  ℕ, zero, suc, ◌+◌, ◌*◌, ◌-◌, ◌/◌, ◌%◌, ◌^◌, Bool, true, false, ◌&&◌, ◌||◌, ◌==◌, ltb, leb,
  if◌then◌else◌, List, [], ◌∷◌,
}
use mikucos.Base.Int.{ℤ, pos, negsuc, ◌+ℤ◌, ◌-ℤ◌, ltb_ℤ, eq_ℤ, wrap32, signed32, max_ℤ, min_ℤ}
use mikucos.Base.Outcome.{Outcome, ok, panic, blocked, ◌>>=◌}

pub data AnsiState : Type 0 where
  ansi_state_normal ansi_state_escaped ansi_state_escbracket : AnsiState

-- `numeric_prefixes` is the memory from the start of the array on, and around it; an `int` in it is
-- kept as its 32 bits.
pub record AnsiStateMachine : Type 0 where
  pub state : AnsiState
  pub numeric_prefixes : ℤ → ℕ
  pub numeric_prefixes_last : ℤ

abbrev pub ansi_numeric_prefix_depth : ℕ
ansi_numeric_prefix_depth = 4

abbrev pub line_buffer_size : ℕ
line_buffer_size = 4096

-- The calls of video.c, with their arguments; `draw_char` has the attribute set before.
pub data VideoCall : Type 0 where
  video_draw_char : (ch attribute row col : ℕ) → VideoCall
  video_set_cursor_pos : (row col : ℕ) → VideoCall
  video_scroll : (row col w h : ℕ) (lines : ℤ) → VideoCall

pub record Window : Type 0 where
  pub win_start_row : ℕ
  pub win_height : ℕ
  pub win_start_col : ℕ
  pub win_width : ℕ

-- `icanon` and `echo` are the two bits of `termios.c_lflag` that are read; `line_buffer` and `idx`
-- are the fields of `line_mode`, the buffer with the memory behind it.
pub record Console : Type 0 where
  pub cur_row : ℕ
  pub cur_col : ℕ
  pub ansi_sm : AnsiStateMachine
  pub line_mode_sm : AnsiStateMachine
  pub line_buffer : ℕ → ℕ
  pub idx : ℕ
  pub icanon : Bool
  pub echo : Bool
  pub attribute : ℕ
  pub video : List VideoCall

pub ansi_numeric_prefix_set : ℕ → AnsiStateMachine → AnsiStateMachine
ansi_numeric_prefix_set val sm = record sm {
  numeric_prefixes = λ i. if eq_ℤ i sm.numeric_prefixes_last then val else sm.numeric_prefixes i;
}

pub ansi_numeric_prefixes_reset : AnsiStateMachine → AnsiStateMachine
unfolding ansi_numeric_prefix_set
ansi_numeric_prefixes_reset sm =
    ansi_numeric_prefix_set 0 (record sm { numeric_prefixes_last = pos 0 })

pub ansi_numeric_prefix_get : AnsiStateMachine → ℕ
ansi_numeric_prefix_get sm = sm.numeric_prefixes sm.numeric_prefixes_last

pub ansi_numeric_prefix_push : AnsiStateMachine → Bool × AnsiStateMachine
unfolding ansi_numeric_prefix_set
ansi_numeric_prefix_push sm =
    let last = sm.numeric_prefixes_last +ℤ pos 1 in
    let sm' = record sm { numeric_prefixes_last = last } in
    let res = ltb_ℤ last (pos ansi_numeric_prefix_depth) in
    (res, (if res then ansi_numeric_prefix_set 0 sm' else sm'))

pub ansi_numeric_prefix_pop : AnsiStateMachine → Bool × AnsiStateMachine
ansi_numeric_prefix_pop sm = (
  ltb_ℤ (pos 0) sm.numeric_prefixes_last,
  record sm { numeric_prefixes_last = sm.numeric_prefixes_last -ℤ pos 1 },
)

-- The permutation of the three colour bits.
pub colour : ℕ → ℕ
colour attr = attr / 2 % 2 * 2 + attr % 2 * 4 + attr / 4

-- One attribute number of an `m` sequence, on the attribute byte.
pub set_attribute : ℕ → ℕ → ℕ
unfolding colour
set_attribute attr a =
    if attr == 0
    then 0x7
    else if attr == 1
    then (if a / 8 % 2 == 0 then a + 0x8 else a)
    else if leb 30 attr && leb attr 37
    then a / 8 * 8 + colour (attr - 30)
    else if leb 40 attr && leb attr 47
    then a / 128 * 128 + a % 16 + colour (attr - 40) * 16
    else a

-- The `do … while` of an `m` sequence: one round more than the index of the last prefix.
pub set_attributes : ℕ → ℕ → AnsiStateMachine → ℕ × AnsiStateMachine
unfolding set_attribute ansi_numeric_prefix_get ansi_numeric_prefix_pop
set_attributes zero a sm =
    (set_attribute (ansi_numeric_prefix_get sm) a, (ansi_numeric_prefix_pop sm).1)
set_attributes (suc rounds) a sm =
    set_attributes rounds (set_attribute (ansi_numeric_prefix_get sm) a)
      (ansi_numeric_prefix_pop sm).1

abbrev pub push_video : VideoCall → Console → Console
push_video v c = record c { video = v ∷ c.video }
