-- ===== src/Shell.antt =====
-- shell.c: how the shell splits a command line, finds the application and runs it. A string is the
-- list of its characters without the final 0. An application is a record with the name and the flags
-- of shell_application_t; what it does is a parameter.
pub mod Split
pub mod Directory
pub mod Examples
use mikucos.Base.{
  ℕ, zero, suc, Bool, true, false, ◌||◌, ◌==◌, if◌then◌else◌, Option, none, some, List, [], ◌∷◌,
  length,
}
use mikucos.Base.Int.{ℤ}
use mikucos.Base.Outcome.{Outcome, ok, panic, blocked, ◌>>=◌}
use mikucos.Avl.{Tree, avl_find}
use mikucos.CString.{strcmp}

abbrev pub max_argc : ℕ
max_argc = 20

-- `while(*cmdline && *cmdline != ' ' && *cmdline != '\n')`: the characters passed, and the rest.
pub split_word : List ℕ → List ℕ × List ℕ
split_word [] = ([], [])
split_word (c ∷ line) =
    let (word, rest) = split_word line in
    if (c == b' ') || (c == b'\n') then ([], c ∷ line) else (c ∷ word, rest)

-- `while(*cmdline == ' ')`.
pub skip_spaces : List ℕ → List ℕ
skip_spaces [] = []
skip_spaces (c ∷ line) = let rest = skip_spaces line in if c == b' ' then rest else c ∷ line

-- The line behind the word, whose first character has become a 0; `none` leaves the loop.
pub next_argument : List ℕ → Option (List ℕ)
next_argument [] = none
next_argument (old ∷ line) = if old == b' ' then some (skip_spaces line) else none

-- The loop over the line, with room for so many arguments. An argument is the string that its
-- pointer reads, up to the 0 that is written behind it.
pub split_arguments : ℕ → List ℕ → List (List ℕ)
split_arguments zero line = []
split_arguments (suc room) [] = []
split_arguments (suc room) (c ∷ line) =
    let (word, rest) = split_word (c ∷ line) in
    let more : List (List ℕ) = elim (next_argument rest) [
      | none ↦ []
      | some line' ↦ split_arguments room line'
    ] in
    if c == b'\n' then [] else word ∷ more

pub data ShellFlags : Type 0 where
  shell_app_builtin shell_app_internal shell_app_external shell_app_other : ShellFlags

pub record ShellApplication : Type 0 where
  pub name : List ℕ
  pub flags : ShellFlags

abbrev pub shell_application_avlmatch : List ℕ → ShellApplication → ℤ
shell_application_avlmatch key app = strcmp key app.name

pub shell_find_application : Tree ShellApplication → List ℕ → Option ShellApplication
shell_find_application applications name = avl_find shell_application_avlmatch name applications

-- What the shell has done: a command that it did not find, or an application run with its arguments.
pub data ShellEvent : Type 0 where
  command_not_found : List ℕ → ShellEvent
  executed : ShellApplication → List (List ℕ) → ShellEvent

-- `events` has the latest first.
pub record Shell : Type 0 where
  pub applications_by_name : Tree ShellApplication
  pub ready_to_exit : Bool
  pub events : List ShellEvent

-- `call` is the routine of an application of the kernel: from the arguments and `ready_to_exit` to the
-- new `ready_to_exit`.
module _ (call : ShellApplication → List (List ℕ) → Bool → Bool) where
  pub shell_execute_application : Shell → ShellApplication → List (List ℕ) → Outcome Shell
  shell_execute_application shell app argv =
      let run = ok (record shell {
        ready_to_exit = call app argv shell.ready_to_exit;
        events = executed app argv ∷ shell.events;
      }) in
      elim app.flags [
        | shell_app_builtin ↦ run
        | shell_app_internal ↦ run
        | shell_app_external ↦ panic
        | shell_app_other ↦ panic
      ]

  -- One round of the loop of `shell_main`, on the line that `fgets` has read.
  pub shell_command : Shell → List ℕ → Outcome Shell
  shell_command shell line = elim (split_arguments max_argc line) [
    | [] ↦ ok shell
    | name ∷ argv ↦ elim (shell_find_application shell.applications_by_name name) [
      | none ↦ ok (record shell { events = command_not_found name ∷ shell.events })
      | some app ↦ shell_execute_application shell app (name ∷ argv)
    ]
  ]

  -- The loop, on the lines up to the null of `fgets`.
  pub shell_main : Shell → List (List ℕ) → Outcome Shell
  shell_main shell [] = ok shell
  shell_main shell (line ∷ lines) =
      let next = shell_command shell line >>= λ shell'. shell_main shell' lines in
      if shell.ready_to_exit then ok shell else next
