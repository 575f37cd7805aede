-- ===== src/Shell/Main.antt =====
-- SP_HW4/part2/shell.c: the loop of `main` over the bytes of the standard input.
pub mod Laws
use network_system_programmi.Base.{
  ℕ, zero, suc, ◌+◌, ◌-◌, Bool, true, false, Option, none, some, List, [], ◌∷◌, ◌++◌, if◌then◌else◌,
  ◌==◌, c_string,
}
use network_system_programmi.Shell.Words.{Word}
use network_system_programmi.Shell.Parse.{Cell, Argv, Built, parse, free_argv}
use network_system_programmi.Shell.Pipeline.{Os}
use network_system_programmi.Shell.Builtin.{
  Handler, Host, Outcome, printed, exits, crashes, is_builtin, do_builtin,
}
use network_system_programmi.Shell.Command.{Status, Ran, fork_failed, forked, run_command}

abbrev pub longline : ℕ
longline = 255

-- A line and what is left of the input.
pub record Line : Type 0 where
  pub line : Word
  pub input : Word

abbrev pub cons_line : ℕ → Line → Line
cons_line c l = record { line = c ∷ l.line; input = l.input }

-- The bytes that `fgets` stores in `n` places: up to the newline, which is stored too.
unfoldable pub read_line : ℕ → Word → Line
read_line zero s = record { line = []; input = s }
read_line (suc n) [] = record { line = []; input = [] }
read_line (suc n) (c ∷ s) =
    let more = cons_line c (read_line n s) in
    if c == 10 then record { line = c ∷ []; input = s } else more

-- `fgets(line, LONGLINE, stdin)`; one place is kept for the closing NUL.
unfoldable pub fgets : Word → Option Line
unfolding read_line
fgets [] = none
fgets (c ∷ s) = some (read_line (longline - 1) (c ∷ s))

-- What the system answers while the n-th line is run.
pub record World : Type 0 where
  pub host : ℕ → Host
  pub os : ℕ → Os
  pub fork_ok : ℕ → Bool
  pub stat : ℕ → Status

-- What becomes of a line.
pub data Step : Type 0 where
  blank : Step
  built_in : Outcome → Step
  ran : Ran → Step

-- Does the shell go on?
abbrev pub goes_on : Step → Bool
goes_on blank = true
goes_on (built_in (printed w)) = true
goes_on (built_in (exits n)) = false
goes_on (built_in crashes) = false
goes_on (ran fork_failed) = false
goes_on (ran (forked t w r)) = true

pub record Turn : Type 0 where
  pub step : Step
  pub this : Option Handler

abbrev dispatch : World → ℕ → Argv → Bool × Option Handler → Turn
dispatch w n v (true, this) = record { step = built_in (do_builtin (w.host n) this v); this = this }
dispatch w n v (false, this) = record {
  step = ran (run_command (w.os n) (w.fork_ok n) (w.stat n) v);
  this = this;
}

-- `if ((myArgv = parse(line)) != NULL) ...`: `myArgv[0]` is a word, since `parse` found one.
abbrev on_argv : World → ℕ → Option Handler → Option Built → Turn
on_argv w n this none = record { step = blank; this = this }
on_argv w n this (some b) = elim b.argv [
  | [] ↦ record { step = blank; this = this }
  | none ∷ v ↦ record { step = blank; this = this }
  | some c ∷ v ↦ dispatch w n (some c ∷ v) (is_builtin c this)
]

-- The body of the loop.
unfoldable pub turn : World → ℕ → Option Handler → Word → Turn
turn w n this line = on_argv w n this (parse (some (c_string line)))

-- What the shell does: a step for each line, and whether it reached the end of the input, where it
-- exits with status 0, or stopped before.
pub data Session : Type 0 where
  end_of_input : Session
  stopped : Step → Session
  no_fuel : Session
  line_done : Step → Session → Session

unfoldable pub shell_loop : World → ℕ → ℕ → Option Handler → Word → Session
shell_loop w zero n this input = no_fuel
shell_loop w (suc f) n this input = elim (fgets input) [
  | none ↦ end_of_input
  | some l ↦
      let t = turn w n this l.line in
      let rest = line_done t.step (shell_loop w f (n + 1) t.this l.input) in
      if goes_on t.step then rest else stopped t.step
]
