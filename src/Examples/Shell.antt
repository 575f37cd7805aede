-- ===== src/Examples/Shell.antt =====
-- The theorems on the shells of SP_HW4/part2 and SP_HW2 at small command lines.
use network_system_programmi.Base.{
  ◌≡◌, refl, true, none, some, [], ◌∷◌, ◌++◌, codes, not, eq_bytes, arith,
}
use Prim.Native.String.{String}
use network_system_programmi.Shell.Words.Split.{words, last, more}
use network_system_programmi.Shell.Parse.{cells, Built, Argv, Cell, free_argv}
use network_system_programmi.Shell.Parse
use network_system_programmi.Shell.Parse.Laws.{vector_of, parse_lem, print_line, parse-print_line}
use network_system_programmi.Shell.Scan.{less, greater}
use network_system_programmi.Shell.Pipeline.{Os, pipe_and_exec, became, stdin_from}
use network_system_programmi.Shell.Pipeline.Segments.{Segment, pipeline_events, pipeline_end}
use network_system_programmi.Shell.Pipeline.Run.{vector, pipe_and_exec_lem}
use network_system_programmi.Shell.Command.{child, raw, exited_with, run_command}
use network_system_programmi.Shell.Command.Laws.{child-in_out}
use network_system_programmi.Shell.Builtin.{Host, lookup}
use network_system_programmi.Shell.Main.{World, turn, shell_loop, ran}
use network_system_programmi.Shell.Main.Laws.{Finishes, shell_loop-Finishes, turn-print_line}

-- A system that grants everything.
abbrev granting : Os
granting = record {
  pipe_ok = λ d. true;
  fork_ok = λ d. true;
  can_exec = λ w. true;
  takes_unclosed = λ v. true;
}

abbrev host : Host
host = record {
  chdir = λ w. true;
  nodename = some (codes "n");
  login = codes "u";
  passwd = [];
  cwd = codes "/";
}

abbrev world : World
world = record {
  host = λ n. host;
  os = λ n. granting;
  fork_ok = λ n. true;
  stat = λ n. exited_with 0;
}

abbrev segment : String → Segment
segment w = record { head = codes w; args = [] }

-- "a | b | c"
pipe_and_exec_lem_example :
    pipe_and_exec granting 3 0 (vector [] (segment "a") (segment "b" ∷ segment "c" ∷ [])) ≡ record {
      events = pipeline_events (segment "a") (segment "b" ∷ segment "c" ∷ []);
      end = pipeline_end granting (segment "a") (segment "b" ∷ segment "c" ∷ []);
    }
pipe_and_exec_lem_example =
    pipe_and_exec_lem [] granting (λ d. refl) (λ d. refl) (segment "b" ∷ segment "c" ∷ [])
      (segment "a") 3 0 (omega arith) ((refl, tt), ((refl, tt), ((refl, tt), tt)))
      (refl, (refl, (refl, tt)))

parse_lem_example : Parse.parse (some (codes "ls -l\n")) ≡ vector_of (codes "ls" ∷ codes "-l" ∷ [])
unfolding words
parse_lem_example = parse_lem (codes "ls -l\n")

parse-print_line_example :
    Parse.parse (some (print_line (codes "ls" ∷ codes "-l" ∷ [])))
    ≡ vector_of (codes "ls" ∷ codes "-l" ∷ [])
parse-print_line_example =
    parse-print_line (codes "ls" ∷ codes "-l" ∷ [])
      (more 108 refl (last 115 refl), (more 45 refl (last 108 refl), tt))

-- A system where "b" is not found.
abbrev lacking : Os
lacking = record {
  pipe_ok = λ d. true;
  fork_ok = λ d. true;
  can_exec = λ w. not (eq_bytes w (codes "b"));
  takes_unclosed = λ v. true;
}

child-in_out_example :
    child granting 0 (
      cells (codes "a" ∷ [])
      ++ some less ∷ some (codes "i") ∷ some greater ∷ some (codes "o") ∷ none ∷ [])
    ≡ record {
      events = stdin_from (some (codes "i")) ∷ [];
      end = became (
          raw
            (cells (codes "a" ∷ []) ++ none ∷ none ∷ some greater ∷ some (codes "o") ∷ none ∷ []));
    }
child-in_out_example =
    child-in_out granting (segment "a") refl (codes "o") (codes "i") (none ∷ []) (refl, tt)
      (refl, tt) (refl, tt)

shell_loop-Finishes_example : Finishes (shell_loop world 5 0 none (codes "ls\n"))
shell_loop-Finishes_example = shell_loop-Finishes world 5 0 none (codes "ls\n") (omega arith)

turn-print_line_example :
    (turn world 0 none (print_line (codes "ls" ∷ []))).step
    ≡ ran (run_command granting true (exited_with 0) (cells (codes "ls" ∷ []) ++ none ∷ []))
unfolding lookup
turn-print_line_example =
    turn-print_line world 0 none (codes "ls") [] (more 108 refl (last 115 refl), tt)
      ((refl, (refl, tt)), tt)
