-- ===== src/Console.antt =====
-- src/main.rs: the reader of the command line, and the settings file. A text of the console is the
-- list of its characters. The parser that `clap` derives from src/cmds.rs is a parameter: what it
-- makes of the arguments, the program's name first.
pub mod Laws
use smo_multi_rs.Base.{
  ℕ, List, [], ◌∷◌, ◌++◌, Bool, ◌||◌, ◌&&◌, Option, none, some, leb, ◌==◌, if◌then◌else◌,
}
use smo_multi_rs.Commands.{CliCommand, cli}
use smo_multi_rs.Coordinator.Shines.{send}
use smo_multi_rs.Coordinator.State.{State, Task, ◌>>=◌, throw, crash, return}
use smo_multi_rs.Errors.{SmoError, io, clap, thread_join, Outcome, ok, err, panic}
use smo_multi_rs.Settings.{codes}

-- `char::is_whitespace`
abbrev pub is_white : ℕ → Bool
is_white c =
    (leb 9 c && leb c 13)
    || c == 32
    || c == 0x85
    || c == 0xa0
    || c == 0x1680
    || (leb 0x2000 c && leb c 0x200a)
    || c == 0x2028
    || c == 0x2029
    || c == 0x202f
    || c == 0x205f
    || c == 0x3000

trim_start : List ℕ → List ℕ
trim_start [] = []
trim_start (c ∷ cs) = let rest = trim_start cs in if is_white c then rest else c ∷ cs

kept : ℕ → List ℕ → List ℕ
kept c [] = if is_white c then [] else c ∷ []
kept c (d ∷ ds) = c ∷ d ∷ ds

trim_end : List ℕ → List ℕ
unfolding kept
trim_end [] = []
trim_end (c ∷ cs) = kept c (trim_end cs)

-- `str::trim`
unfoldable pub trim : List ℕ → List ℕ
unfolding trim_start trim_end
trim s = trim_start (trim_end s)

onto_first : ℕ → List (List ℕ) → List (List ℕ)
onto_first c [] = (c ∷ []) ∷ []
onto_first c (w ∷ ws) = (c ∷ w) ∷ ws

-- `split(' ')`: the pieces between the spaces, the empty ones too.
unfoldable pub split : List ℕ → List (List ℕ)
unfolding onto_first
split [] = [] ∷ []
split (c ∷ cs) = let rest = split cs in if c == 32 then [] ∷ rest else onto_first c rest

-- What the console does for one call: whether the prompt can be flushed, and the line that
-- `read_line` appends, with the line break, if it does not fail.
pub record Console : Type 0 where
  pub flushes : Bool
  pub line : Option (List ℕ)

-- `print!("{}", input)` and what `read_line` makes of the same string.
abbrev pub prompt : List ℕ
prompt = codes "> "

parsed : Option CliCommand → Outcome SmoError CliCommand
parsed none = err clap
parsed (some c) = ok c

entered : (List (List ℕ) → Option CliCommand) → Option (List ℕ) → Outcome SmoError CliCommand
unfolding parsed split trim
entered try_parse_from none = err io
entered try_parse_from (some line) = parsed (try_parse_from (split (trim (prompt ++ line))))

unfoldable pub read_command :
    (List (List ℕ) → Option CliCommand) → Console → Outcome SmoError CliCommand
unfolding entered
read_command try_parse_from console =
    if console.flushes then entered try_parse_from console.line else err io

-- An outcome as a task.
lift : {A : Type 0} → Outcome SmoError A → Task A
lift r s = (r, s)

module _ (accepts : ℕ → ℕ → Bool) (try_parse_from : List (List ℕ) → Option CliCommand)
    (to_coord : ℕ) where
  read_and_send : Console → Task (Unit {0})
  unfolding lift read_command
  read_and_send console = do
    command ← lift (read_command try_parse_from console)
    send accepts to_coord (cli command)

  -- `joined` says whether the blocking task can be joined. The task only makes the future: it is
  -- `await` that reads.
  unfoldable pub parse_command : (joined : Bool) → Console → Task (Unit {0})
  unfolding read_and_send
  parse_command joined console = if joined then read_and_send console else throw thread_join

  -- An error is printed; the printed errors are in the result. At the end of the list the loop
  -- still waits.
  printed :
      (State → List SmoError × Outcome SmoError (Unit {0}) × State)
      → Outcome SmoError (Unit {0}) × State
      → List SmoError × Outcome SmoError (Unit {0}) × State
  printed more (ok a, s) = more s
  printed more (err e, s) = let (errors, answer, s') = more s in (e ∷ errors, answer, s')
  printed more (panic, s) = ([], panic, s)

  unfoldable pub parse_commands :
      List (Bool × Console) → State → List SmoError × Outcome SmoError (Unit {0}) × State
  unfolding printed parse_command
  parse_commands [] s = ([], ok tt, s)
  parse_commands ((joined, console) ∷ rest) s =
      printed (parse_commands rest) (parse_command joined console s)
