-- ===== src/Shell/Command/Laws.antt =====
-- What the child of `run_command` runs, with redirections in either order, and who waits for it.
use network_system_programmi.Base.{
  ℕ, suc, ◌≡◌, refl, true, false, none, some, List, [], ◌∷◌, ◌++◌, length, set, arith, ◌==◌,
  eq_bytes, append_assoc, pos,
}
use mathlib.Core.List.{map-append}
use network_system_programmi.Shell.Words.{Word}
use network_system_programmi.Shell.Parse.{Cell, Argv, cells}
use network_system_programmi.Shell.Scan.{
  pipe_word, ampersand, less, greater, redirect_in, pipe_present,
}
use network_system_programmi.Shell.Scan.Laws.{Lacks, is_background-found, is_background-Lacks}
use network_system_programmi.Shell.Scan.Redirect.{
  redirect_in-found, set-length, redirect_out-found, redirect_out-Lacks,
}
use network_system_programmi.Shell.Pipeline.{Os, stdin_from, stdout_into, became, execvp}
use network_system_programmi.Shell.Pipeline.Segments.{Segment, words_of, is_closed-cells}
use network_system_programmi.Shell.Pipeline.Run.{pipe_present-single}
use network_system_programmi.Shell.Command.{
  Status, silent, report, raw, launch, drop_ampersand, child, forked, run_command,
}

Lacks-append : (x : Word) (ws ys : List Word) → Lacks x ws → Lacks x ys → Lacks x (ws ++ ys)
Lacks-append x [] ys h k = k
Lacks-append x (w ∷ ws) ys h k = (h.0, Lacks-append x ws ys h.1 k)

-- The scan for "<" passes two words more.
redirect_in-behind :
    (ws : List Word) (a b : Word) (c : Cell) (v : Argv)
    → Lacks less ws
    → eq_bytes a less ≡ false
    → eq_bytes b less ≡ false
    → redirect_in (cells ws ++ some a ∷ some b ∷ some less ∷ c ∷ v) ≡ record {
      file = some c;
      argv = cells ws ++ some a ∷ some b ∷ none ∷ none ∷ v;
      result = pos 0;
    }
redirect_in-behind ws a b c v l p q =
    simp (map-append, append_assoc) at
      (redirect_in-found (ws ++ a ∷ b ∷ []) c v (Lacks-append less ws (a ∷ b ∷ []) l (p, (q, tt))))

module _ (os : Os) (s : Segment) (found : os.can_exec s.head ≡ true) where
  -- No pipe: the child becomes the program.
  launch-single :
      (v : Argv)
      → Lacks pipe_word (words_of s)
      → launch os (cells (words_of s) ++ none ∷ v) (pipe_present (cells (words_of s) ++ none ∷ v))
        ≡ record { events = []; end = became (raw (cells (words_of s) ++ none ∷ v)) }
  unfolding execvp
  launch-single v p = rw (pipe_present-single v s p, found, is_closed-cells s.args v)

  -- On "cmd args > o < i", with a program that is found, no "|", "<" or ">" among its words and o
  -- not "<", both streams are redirected, and the program sees its words.
  pub child-out_in :
      (o i : Word) (v : Argv)
      → Lacks pipe_word (words_of s)
      → Lacks less (words_of s)
      → Lacks greater (words_of s)
      → eq_bytes o less ≡ false
      → child os 0 (cells (words_of s) ++ some greater ∷ some o ∷ some less ∷ some i ∷ v) ≡ record {
        events = stdin_from (some i) ∷ stdout_into (some o) ∷ [];
        end = became (raw (cells (words_of s) ++ none ∷ none ∷ none ∷ none ∷ v));
      }
  unfolding child drop_ampersand
  child-out_in o i v p l g h = rw (
    redirect_in-behind (words_of s) greater o (some i) v l refl h,
    redirect_out-found (words_of s) (some o) (none ∷ none ∷ v) g,
    launch-single (none ∷ none ∷ none ∷ v) p,
  )

  -- On "cmd args < i > o", with a program that is found and no "|", "<" or ">" among its words, the
  -- output redirection is lost: the program runs with its output where it was.
  pub child-in_out :
      (o i : Word) (v : Argv)
      → Lacks pipe_word (words_of s)
      → Lacks less (words_of s)
      → Lacks greater (words_of s)
      → child os 0 (cells (words_of s) ++ some less ∷ some i ∷ some greater ∷ some o ∷ v) ≡ record {
        events = stdin_from (some i) ∷ [];
        end = became (raw (cells (words_of s) ++ none ∷ none ∷ some greater ∷ some o ∷ v));
      }
  unfolding child drop_ampersand
  child-in_out o i v p l g = rw (
    redirect_in-found (words_of s) (some i) (some greater ∷ some o ∷ v) l,
    redirect_out-Lacks (words_of s) (none ∷ some greater ∷ some o ∷ v) g,
    launch-single (none ∷ some greater ∷ some o ∷ v) p,
  )

  -- On "cmd args < i | ...", with a program that is found and no "|", "<" or ">" among its words,
  -- all behind the file name is lost, other commands included: the child only redirects its input.
  pub child-in_pipe :
      (i : Word) (v : Argv)
      → Lacks pipe_word (words_of s)
      → Lacks less (words_of s)
      → Lacks greater (words_of s)
      → (child os 0 (cells (words_of s) ++ some less ∷ some i ∷ some pipe_word ∷ v)).events
        ≡ stdin_from (some i) ∷ []
  unfolding child drop_ampersand
  child-in_pipe i v p l g = rw (
    redirect_in-found (words_of s) (some i) (some pipe_word ∷ v) l,
    redirect_out-Lacks (words_of s) (none ∷ some pipe_word ∷ v) g,
    launch-single (none ∷ some pipe_word ∷ v) p,
  )

suc-ne-zero : (n : ℕ) → (suc n == 0) ≡ false
suc-ne-zero n = ground arith

child-background :
    (os : Os) (n : ℕ) (v : Argv) → child os (suc n) v ≡ child os 0 (set v (suc n) none)
unfolding child drop_ampersand
child-background os n v = rw (suc-ne-zero n)

-- The shell waits for a command that holds no "&", and reports a status or a signal that is not 0;
-- a command with a "&" behind its words runs these words, and is not waited for.
pub run_command-waits :
    (os : Os) (stat : Status) (w : Word) (ws : List Word) (v : Argv)
    → Lacks ampersand (w ∷ ws)
    → (run_command os true stat (cells (w ∷ ws) ++ none ∷ v)
        ≡ forked (child os 0 (cells (w ∷ ws) ++ none ∷ v)) true (report stat))
      × (run_command os true stat (cells (w ∷ ws) ++ some ampersand ∷ v)
          ≡ forked (child os 0 (cells (w ∷ ws) ++ none ∷ v)) false silent)
unfolding run_command
run_command-waits os stat w ws v h = (
  rw (is_background-Lacks (w ∷ ws) v h),
  rw (
    is_background-found (w ∷ ws) v h,
    child-background os (length ws) (cells (w ∷ ws) ++ some ampersand ∷ v),
    set-length (w ∷ ws) (some ampersand) none v,
    suc-ne-zero (length ws),
  ),
)
