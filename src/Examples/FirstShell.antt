-- ===== src/Examples/FirstShell.antt =====
-- The theorems on the shell of SP_HW2 at small command lines.
use mathlib.Core.Option
use network_system_programmi.Base.{◌≡◌, true, false, some, [], ◌∷◌, codes}
use network_system_programmi.Shell.Words.Split.{words}
use network_system_programmi.Shell.Parse.{cells}
use network_system_programmi.Shell.Parse
use network_system_programmi.FirstShell.{Printed, parse, exited_with, Calls}
use network_system_programmi.FirstShell.Vectors.{printed_of, parse-agree}

abbrev calls : Calls
calls = record {
  os = record {
    pipe_ok = λ d. true;
    fork_ok = λ d. true;
    can_exec = λ w. true;
    takes_unclosed = λ v. false;
  };
  fork_ok = true;
  waitpid = λ no_hang. some (exited_with 0);
}

parse-agree_example :
    (Option.map (λ (p : Printed). p.built) (parse (some (codes "ls -l\n")))
      ≡ Parse.parse (some (codes "ls -l\n")))
    × (parse (some (codes "ls -l\n")) ≡ printed_of (codes "ls" ∷ codes "-l" ∷ []))
unfolding words
parse-agree_example = parse-agree (codes "ls -l\n")
