-- ===== src/FirstShell/Laws.antt =====
-- The first shell against the second: its `parse` builds the same vectors, and its jobs run in the
-- background in one case more.
use network_system_programmi.Base.{
  suc, ◌≡◌, refl, true, false, none, some, List, [], ◌∷◌, ◌++◌, arith, ◌==◌, eq_bytes, not,
}
use network_system_programmi.Shell.Words.{Word}
use network_system_programmi.Shell.Parse.{Argv, cells}
use network_system_programmi.Shell.Scan.{ampersand}
use network_system_programmi.Shell.Scan
use network_system_programmi.Shell.Scan.Laws.{Lacks}
use network_system_programmi.Shell.Pipeline.{Os, became, execvp}
use network_system_programmi.Shell.Pipeline.Segments.{is_closed-cells}
use network_system_programmi.Shell.Command.{raw}
use network_system_programmi.FirstShell.{
  is_background, cut_at_ampersand, child, Status, Calls, forked, report, run_command,
}

is_background-find :
    (v : Argv)
    → is_background v ≡ elim (Scan.find_word ampersand v) [ none ↦ false | some i ↦ true ]
unfolding is_background Scan.find_word
is_background-find [] = refl
is_background-find (none ∷ v) = refl
is_background-find (some w ∷ v) = ground (arith, is_background-find v)

Scan-positive :
    (w : Word) (v : Argv)
    → eq_bytes w ampersand ≡ false
    → Scan.is_background (some w ∷ v)
      ≡ elim (Scan.find_word ampersand v) [ none ↦ 0 | some i ↦ suc i ]
unfolding Scan.is_background Scan.find_word
Scan-positive w v h = ground arith

is_background-cons :
    (w : Word) (v : Argv)
    → eq_bytes w ampersand ≡ false
    → is_background (some w ∷ v) ≡ is_background v
unfolding is_background
is_background-cons w v h = rw h

-- The two shells agree on which jobs run in the background unless "&" is the first word: then the
-- first shell takes the line for a background job, and the second, whose answer is an index, does
-- not.
pub is_background-agree :
    (w : Word) (v : Argv)
    → eq_bytes w ampersand ≡ false
    → (is_background (some w ∷ v) ≡ not (Scan.is_background (some w ∷ v) == 0))
      × (is_background (some ampersand ∷ v) ≡ true)
      × (Scan.is_background (some ampersand ∷ v) ≡ 0)
is_background-agree w v h = (
  rw (Scan-positive w v h, is_background-cons w v h, is_background-find v) (ground arith),
  unfold is_background in refl,
  unfold Scan.is_background Scan.find_word in refl,
)

cut-found :
    (ws : List Word) (v : Argv)
    → Lacks ampersand ws
    → cut_at_ampersand (cells ws ++ some ampersand ∷ v) ≡ cells ws ++ none ∷ v
unfolding cut_at_ampersand
cut-found [] v h = refl
cut-found (w ∷ ws) v h = rw (h.0, cut-found ws v h.1)

cut-Lacks :
    (ws : List Word) (v : Argv)
    → Lacks ampersand ws
    → cut_at_ampersand (cells ws ++ none ∷ v) ≡ cells ws ++ none ∷ v
unfolding cut_at_ampersand
cut-Lacks [] v h = refl
cut-Lacks (w ∷ ws) v h = rw (h.0, cut-Lacks ws v h.1)

background-Lacks :
    (ws : List Word) (v : Argv) → Lacks ampersand ws → is_background (cells ws ++ none ∷ v) ≡ false
unfolding is_background
background-Lacks [] v h = refl
background-Lacks (w ∷ ws) v h = rw (h.0, background-Lacks ws v h.1)

background-found :
    (ws : List Word) (v : Argv)
    → Lacks ampersand ws
    → is_background (cells ws ++ some ampersand ∷ v) ≡ true
unfolding is_background
background-found [] v h = refl
background-found (w ∷ ws) v h = rw (h.0, background-found ws v h.1)

child-cut :
    (os : Os) (w : Word) (ws : List Word) (v u : Argv)
    → os.can_exec w ≡ true
    → cut_at_ampersand u ≡ cells (w ∷ ws) ++ none ∷ v
    → child os u ≡ became (raw (cells (w ∷ ws) ++ none ∷ v))
unfolding child execvp
child-cut os w ws v u h e = rw (e, h, is_closed-cells ws v)

-- Where `fork` and `waitpid` succeed, the program is found and no word is "&": the child of the
-- first shell becomes the command, and a "&" with what follows it is cut off; the parent waits for
-- it exactly when no "&" is there, and reports what `waitpid` stored.
pub run_command_lem :
    (c : Calls) (w : Word) (ws : List Word) (v : Argv) (a b : Status)
    → c.fork_ok ≡ true
    → c.os.can_exec w ≡ true
    → Lacks ampersand (w ∷ ws)
    → c.waitpid false ≡ some a
    → c.waitpid true ≡ some b
    → (run_command c (cells (w ∷ ws) ++ none ∷ v)
        ≡ forked (became (raw (cells (w ∷ ws) ++ none ∷ v))) true (report a))
      × (run_command c (cells (w ∷ ws) ++ some ampersand ∷ v)
          ≡ forked (became (raw (cells (w ∷ ws) ++ none ∷ v))) false (report b))
unfolding run_command
run_command_lem c w ws v a b forks found h p q = (
  rw (
    forks,
    background-Lacks (w ∷ ws) v h,
    p,
    child-cut c.os w ws v (cells (w ∷ ws) ++ none ∷ v) found (cut-Lacks (w ∷ ws) v h),
    background-Lacks (w ∷ ws) v h,
  ),
  rw (
    forks,
    background-found (w ∷ ws) v h,
    q,
    child-cut c.os w ws v (cells (w ∷ ws) ++ some ampersand ∷ v) found (cut-found (w ∷ ws) v h),
    background-found (w ∷ ws) v h,
  ),
)
