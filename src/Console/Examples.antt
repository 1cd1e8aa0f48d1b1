-- ===== src/Console/Examples.antt =====
-- The console as the device starts, in a window of 22 rows and 80 columns below a header of 3.
use mikucos.Base.{ℕ, ◌≡◌, refl, true, List, [], ◌∷◌, arith}
use mikucos.Base.Int.{pos}
use mikucos.Base.Outcome.{ok}
use mikucos.Console.{Console, Window, AnsiStateMachine, ansi_state_normal}
use mikucos.Console.Machine.{virtual_console_write}
use mikucos.Console.Bounds.{InWindow}
use mikucos.Console.Safe.{write-InWindow}

abbrev screen : Window
screen = record { win_start_row = 3; win_height = 22; win_start_col = 0; win_width = 80 }

abbrev machine : AnsiStateMachine
machine = record {
  state = ansi_state_normal;
  numeric_prefixes = λ i. 0;
  numeric_prefixes_last = pos 0;
}

abbrev fresh : Console
fresh = record {
  cur_row = 0;
  cur_col = 0;
  ansi_sm = machine;
  line_mode_sm = machine;
  line_buffer = λ i. 0;
  idx = 0;
  icanon = true;
  echo = true;
  attribute = 0x7;
  video = [];
}

fresh-InWindow : InWindow screen fresh
fresh-InWindow = record {
  sound = record { output_ok = refl; line_mode_ok = refl; drawn = refl };
  row_lt = omega arith;
  col_lt = omega arith;
}

-- `ESC [ 5 B`: five rows down.
abbrev down_5 : List ℕ
down_5 = 0x1b ∷ b'[' ∷ b'5' ∷ b'B' ∷ []

write-InWindow_example :
    (d : Console) × (virtual_console_write screen down_5 fresh ≡ ok (4, d)) × InWindow screen d
write-InWindow_example =
    write-InWindow screen (omega arith) (omega arith) down_5 fresh fresh-InWindow

abbrev last_column : Console
last_column = record fresh { cur_col = 79; idx = 79 }
