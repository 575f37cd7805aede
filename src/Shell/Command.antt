-- ===== src/Shell/Command.antt =====
-- SP_HW4/part2/run_command.c: the parent and the child of `fork`. `exit(errno)` and `exit(1)` are
-- `exited`; the text that `strerror` and `strsignal` print is left out.
pub mod Laws
use network_system_programmi.Base.{
  ℕ, zero, suc, ◌+◌, ◌-◌, Bool, true, false, Option, none, some, List, [], ◌∷◌, ◌++◌, if◌then◌else◌,
  set, map, ℤ, pos, negsuc, ◌==◌, length,
}
use network_system_programmi.Shell.Words.{Word}
use network_system_programmi.Shell.Parse.{Cell, Argv}
use network_system_programmi.Shell.Scan.{
  is_background, pipe_present, Redirected, redirect_in, redirect_out,
}
use network_system_programmi.Shell.Pipeline.{
  Raw, Os, Event, stdin_from, stdout_into, End, returned, exited, crashed, became, Trace, after,
  just, execvp, end_or, pipe_and_exec,
}

-- What `waitpid` stores.
pub data Status : Type 0 where
  exited_with : ℕ → Status
  signaled_by : ℕ → Status
  other : Status

-- What the parent prints about the child.
pub data Report : Type 0 where
  silent : Report
  error_status : ℕ → Report
  due_to_signal : ℕ → Report

unfoldable pub report : Status → Report
report (exited_with n) = if n == 0 then silent else error_status n
report (signaled_by n) = if n == 0 then silent else due_to_signal n
report other = silent

abbrev opened : (Cell → Event) → Redirected → List Event
opened e r = elim r.file [ none ↦ [] | some c ↦ e c ∷ [] ]

-- The argv vector of the child as `execvp` sees it.
abbrev pub raw : Argv → Raw
raw = map some

-- `if ((has_pipe = pipe_present(myArgv)) > 0) pipe_and_exec(myArgv); else execvp(..); exit(errno);`
abbrev pub launch : Os → Argv → Option ℤ → Trace
launch os v none = just crashed
launch os v (some (negsuc n)) = just (end_or (execvp os (raw v)) exited)
launch os v (some (pos zero)) = just (end_or (execvp os (raw v)) exited)
launch os v (some (pos (suc i))) =
    let t = pipe_and_exec os (suc (length v)) 0 v in
    record t { end = elim t.end [ returned ↦ exited | e ↦ e ] }

-- `if (run_in_background) myArgv[run_in_background] = NULL;`
unfoldable pub drop_ampersand : ℕ → Argv → Argv
drop_ampersand background v = if background == 0 then v else set v background none

-- `case 0`.
unfoldable pub child : Os → ℕ → Argv → Trace
child os background v =
    let input = redirect_in (drop_ampersand background v) in
    let output = redirect_out input.argv in
    after (opened stdin_from input ++ opened stdout_into output)
      (launch os output.argv (pipe_present output.argv))

-- What `run_command` does: the shell exits if `fork` fails; else the child runs, and the parent waits
-- and reports unless the job is in the background.
pub data Ran : Type 0 where
  fork_failed : Ran
  forked : (child : Trace) (waited : Bool) (report : Report) → Ran

unfoldable pub run_command : Os → Bool → Status → Argv → Ran
run_command os fork_ok stat v =
    let background = is_background v in
    let t = child os background v in
    if fork_ok
    then (if background == 0 then forked t true (report stat) else forked t false silent)
    else fork_failed
