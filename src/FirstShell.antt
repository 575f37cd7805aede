-- ===== src/FirstShell.antt =====
-- The shell of SP_HW2: builtin.c, is_background.c, parse.c, run_command.c and shell.c. It has no pipes
-- and no redirections, and prints the words of each line.
pub mod Vectors
pub mod Laws
use network_system_programmi.Base.{
  ℕ, zero, suc, ◌+◌, ◌-◌, Bool, true, false, Option, none, some, List, [], ◌∷◌, ◌++◌, if◌then◌else◌,
  ◌==◌, eq_bytes, set, map, codes, decimal, length, c_string, not,
}
use network_system_programmi.Shell.Words.{Word, Span, strtok}
use network_system_programmi.Shell.Parse.{Cell, Argv, Built, install, terminate, nothing}
use network_system_programmi.Shell.Scan.{cell_at, ampersand}
use network_system_programmi.Shell.Pipeline.{Os, End, exited, became, execvp, end_or}
use network_system_programmi.Shell.Builtin.{Outcome, printed, exits, crashes, run_echo}
use network_system_programmi.Shell.Main.{Line, fgets}

-- A vector, and what `parse` has printed.
pub record Printed : Type 0 where
  pub built : Built
  pub output : Word

-- `printf("[%d] : %s\n", i, newArgv[i])`
abbrev pub token_line : ℕ → Word → Word
token_line i w = 91 ∷ (decimal i ++ (codes "] : " ++ (w ++ 10 ∷ [])))

abbrev pub put_token : ℕ → Printed → Word → Printed
put_token i p w = record { built = install p.built w; output = p.output ++ token_line i w }

-- `while (token = strtok(NULL, delim)) { i++; ... }`
unfoldable pub parse_loop : ℕ → ℕ → Word → Printed → Printed
parse_loop zero i s p = p
parse_loop (suc f) i s p = elim (strtok s) [
  | none ↦ p
  | some t ↦ parse_loop f (i + 1) t.rest (put_token (i + 1) p t.token)
]

abbrev pub closed : Printed → Printed
closed p = record p { built = terminate p.built }

abbrev pub blank_start : Printed
blank_start = record { built = nothing; output = [] }

unfoldable pub parse : Option Word → Option Printed
unfolding parse_loop
parse none = none
parse (some line) = elim (strtok line) [
  | none ↦ none
  | some t ↦
      some (closed (parse_loop (suc (length line)) 0 t.rest (put_token 0 blank_start t.token)))
]

-- `is_background`: is there an "&" in front of the closing NULL?
unfoldable pub is_background : Argv → Bool
is_background [] = false
is_background (none ∷ v) = false
is_background (some w ∷ v) =
    let rest = is_background v in if eq_bytes w ampersand then true else rest

-- The child: `while (*ptr) { if (!strcmp(*ptr, "&")) break; ptr++; } *ptr = NULL;`
unfoldable pub cut_at_ampersand : Argv → Argv
cut_at_ampersand [] = []
cut_at_ampersand (none ∷ v) = none ∷ v
cut_at_ampersand (some w ∷ v) =
    let rest = some w ∷ cut_at_ampersand v in if eq_bytes w ampersand then none ∷ v else rest

unfoldable pub child : Os → Argv → End
child os v = end_or (execvp os (map some (cut_at_ampersand v))) exited

-- What `waitpid` stores; `untouched` is the uninitialised variable that `WNOHANG` leaves alone.
pub data Status : Type 0 where
  signaled_by exited_with stopped_by : ℕ → Status
  continued untouched : Status

pub data Report : Type 0 where
  terminated_by exit_status stop_signal : ℕ → Report
  went_on : Report
  -- a variable that was never set decides
  indeterminate : Report

unfoldable pub report : Status → Report
report (signaled_by n) = terminated_by n
report (exited_with n) = exit_status n
report (stopped_by n) = stop_signal n
report continued = went_on
report untouched = indeterminate

-- How the parent's side ends. `waits`: without `WNOHANG`.
pub data Ran : Type 0 where
  fork_failed : Ran
  wait_failed : (child : End) → Ran
  forked : (child : End) (waits : Bool) (report : Report) → Ran

-- The answers of `fork`, and of `waitpid` when it is given the option `WNOHANG` or not; no status
-- is the failure of the call.
pub record Calls : Type 0 where
  pub os : Os
  pub fork_ok : Bool
  pub waitpid : (no_hang : Bool) → Option Status

unfoldable pub run_command : Calls → Argv → Ran
run_command c v =
    let t = child c.os v in
    let parent : Ran = elim (c.waitpid (is_background v)) [
      | none ↦ wait_failed t
      | some s ↦ forked t (not (is_background v)) (report s)
    ] in
    if c.fork_ok then parent else fork_failed

pub data Handler : Type 0 where
  bi_exit bi_echo : Handler

abbrev pub inbuilts : List (Word × Handler)
inbuilts =
    (codes "quit", bi_exit)
    ∷ (codes "exit", bi_exit)
    ∷ (codes "logout", bi_exit)
    ∷ (codes "bye", bi_exit)
    ∷ (codes "echo", bi_echo)
    ∷ []

unfoldable pub lookup : Word → List (Word × Handler) → Option Handler
lookup cmd [] = none
lookup cmd ((k, h) ∷ t) = let rest = lookup cmd t in if eq_bytes k cmd then some h else rest

unfoldable pub is_builtin : Word → Option Handler → Bool × Option Handler
is_builtin cmd this = elim (lookup cmd inbuilts) [ none ↦ (false, this) | some h ↦ (true, some h) ]

unfoldable pub do_builtin : Option Handler → Argv → Outcome
do_builtin none v = crashes
do_builtin (some bi_exit) v = exits 0
do_builtin (some bi_echo) v = run_echo v (cell_at v 1)

-- What becomes of a line, with the output of `parse`.
pub data Step : Type 0 where
  blank : Step
  built_in : Word → Outcome → Step
  ran : Word → Ran → Step

abbrev pub goes_on : Step → Bool
goes_on blank = true
goes_on (built_in o (printed w)) = true
goes_on (built_in o (exits n)) = false
goes_on (built_in o crashes) = false
goes_on (ran o fork_failed) = false
goes_on (ran o (wait_failed t)) = false
goes_on (ran o (forked t w r)) = true

pub record Turn : Type 0 where
  pub step : Step
  pub this : Option Handler

abbrev dispatch : Calls → Word → Argv → Bool × Option Handler → Turn
dispatch c o v (true, this) = record { step = built_in o (do_builtin this v); this = this }
dispatch c o v (false, this) = record { step = ran o (run_command c v); this = this }

abbrev on_argv : Calls → Option Handler → Option Printed → Turn
on_argv c this none = record { step = blank; this = this }
on_argv c this (some p) = elim p.built.argv [
  | [] ↦ record { step = blank; this = this }
  | none ∷ v ↦ record { step = blank; this = this }
  | some w ∷ v ↦ dispatch c p.output (some w ∷ v) (is_builtin w this)
]

-- The body of the loop of `main`.
unfoldable pub turn : Calls → Option Handler → Word → Turn
turn c this line = on_argv c this (parse (some (c_string line)))

pub data Session : Type 0 where
  end_of_input : Session
  stopped : Step → Session
  no_fuel : Session
  line_done : Step → Session → Session

-- `main`, with the answers of the system for each line.
unfoldable pub shell_loop : (ℕ → Calls) → ℕ → ℕ → Option Handler → Word → Session
shell_loop calls zero n this input = no_fuel
shell_loop calls (suc f) n this input = elim (fgets input) [
  | none ↦ end_of_input
  | some l ↦
      let t = turn (calls n) this l.line in
      let rest = line_done t.step (shell_loop calls f (n + 1) t.this l.input) in
      if goes_on t.step then rest else stopped t.step
]
