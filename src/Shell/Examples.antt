-- ===== src/Shell/Examples.antt =====
-- A command line with spaces, the same with one before it, and a shell that knows `exit`.
use mikucos.Base.{Option, ℕ, ◌≡◌, refl, true, false, ◌==◌, if◌then◌else◌, List, [], ◌∷◌, take}
use mikucos.Base.Int.{pos}
use mikucos.Base.Outcome.{Outcome, ok}
use mikucos.Avl.{null, node, avl_none, avl_find}
use mikucos.CString.{strcmp}
use mikucos.Shell.{
  split_arguments, split_word, skip_spaces, next_argument, max_argc, ShellApplication,
  shell_app_builtin, Shell, command_not_found, executed, shell_main, shell_command,
  shell_find_application, shell_execute_application,
}
use mikucos.Vfs.{Node, file_resolve_path}
use mikucos.CString.{strcmp}
use mikucos.Rootfs.{rootfs_read_dir}
use mikucos.Shell.Directory.{slash}
use mikucos.Shell.Split.{words, split_arguments-words}

-- "cd  tmp \nls"
abbrev cd_tmp : List ℕ
cd_tmp = b'd' ∷ b' ' ∷ b' ' ∷ b't' ∷ b'm' ∷ b'p' ∷ b' ' ∷ b'\n' ∷ b'l' ∷ b's' ∷ []

split_arguments-words_example : split_arguments max_argc (b'c' ∷ cd_tmp) ≡ (
    if b'c' == b' '
    then [] ∷ take 19 (words [] cd_tmp)
    else take max_argc (words [] (b'c' ∷ cd_tmp)))
split_arguments-words_example = split_arguments-words 19 b'c' cd_tmp

two_arguments :
    split_arguments max_argc (b'c' ∷ cd_tmp) ≡ (b'c' ∷ b'd' ∷ []) ∷ (b't' ∷ b'm' ∷ b'p' ∷ []) ∷ []
unfolding split_arguments split_word skip_spaces next_argument
two_arguments = refl

abbrev exit : ShellApplication
exit = record { name = b'e' ∷ b'x' ∷ b'i' ∷ b't' ∷ []; flags = shell_app_builtin }

abbrev shell : Shell
shell = record {
  applications_by_name = node null exit avl_none null;
  ready_to_exit = false;
  events = [];
}

-- " exit" is not found, "exit" is, and the third line is not read.
leaves :
    shell_main
      (λ app argv ready. true)
      shell
      ((b' ' ∷ b'e' ∷ b'x' ∷ b'i' ∷ b't' ∷ []) ∷ (b'e' ∷ b'x' ∷ b'i' ∷ b't' ∷ []) ∷ cd_tmp ∷ [])
    ≡ ok (record shell {
      ready_to_exit = true;
      events = executed exit (exit.name ∷ []) ∷ command_not_found [] ∷ [];
    })
unfolding shell_main shell_command shell_find_application shell_execute_application split_arguments
    split_word skip_spaces next_argument avl_find strcmp
leaves = refl

abbrev node_at : ℕ → Node
node_at id = record {
  fnode = record { mounted = 4096; file_id = pos id };
  dirent_file = false;
  dirent_dir = true;
}

-- `cd System` in the root of the root filesystem.
abbrev resolve : List ℕ → Outcome (Option Node)
resolve path =
    file_resolve_path rootfs_read_dir null (λ m. node_at 0) true 13 6 slash (node_at 0) path
