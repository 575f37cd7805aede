-- ===== src/Shell/Scan/Redirect.antt =====
-- What `redirect_in` and `redirect_out` leave of a vector, and the order of two redirections.
use network_system_programmi.Base.{
  ◌+◌, ◌≡◌, refl, ap, none, some, List, [], ◌∷◌, ◌++◌, length, set, pos, negsuc,
}
use native.Mathlib.Numerals.{add-one}
use network_system_programmi.Shell.Words.{Word}
use network_system_programmi.Shell.Parse.{Cell, Argv, cells}
use network_system_programmi.Shell.Scan.{less, greater, cell_at, redirect_in, redirect_out}
use network_system_programmi.Shell.Scan.Laws.{Lacks, find_word-found, find_word-Lacks}

pub set-length :
    (ws : List Word) (c x : Cell) (v : Argv)
    → set (cells ws ++ c ∷ v) (length ws) x ≡ cells ws ++ x ∷ v
set-length [] c x v = refl
set-length (w ∷ ws) c x v = ap (λ r. some w ∷ r) (set-length ws c x v)

set-suc_length :
    (ws : List Word) (b c x : Cell) (v : Argv)
    → set (cells ws ++ b ∷ c ∷ v) (length ws + 1) x ≡ cells ws ++ b ∷ x ∷ v
set-suc_length [] b c x v = refl
set-suc_length (w ∷ ws) b c x v =
    rw add-one (ap (λ r. some w ∷ r) (rw add-one at (set-suc_length ws b c x v)))

cell_at-suc_length :
    (ws : List Word) (b c : Cell) (v : Argv) → cell_at (cells ws ++ b ∷ c ∷ v) (length ws + 1) ≡ c
cell_at-suc_length [] b c v = refl
cell_at-suc_length (w ∷ ws) b c v = rw add-one (rw add-one at (cell_at-suc_length ws b c v))

-- The sign and the file name are replaced by NULL: all behind them is out of reach.
pub redirect_in-found :
    (ws : List Word) (c : Cell) (v : Argv)
    → Lacks less ws
    → redirect_in (cells ws ++ some less ∷ c ∷ v)
      ≡ record { file = some c; argv = cells ws ++ none ∷ none ∷ v; result = pos 0 }
unfolding redirect_in
redirect_in-found ws c v h = rw (
  find_word-found less ws (c ∷ v) h,
  cell_at-suc_length ws (some less) c v,
  set-length ws (some less) none (c ∷ v),
  set-suc_length ws none c none v,
)

pub redirect_out-found :
    (ws : List Word) (c : Cell) (v : Argv)
    → Lacks greater ws
    → redirect_out (cells ws ++ some greater ∷ c ∷ v)
      ≡ record { file = some c; argv = cells ws ++ none ∷ none ∷ v; result = pos 0 }
unfolding redirect_out
redirect_out-found ws c v h = rw (
  find_word-found greater ws (c ∷ v) h,
  cell_at-suc_length ws (some greater) c v,
  set-length ws (some greater) none (c ∷ v),
  set-suc_length ws none c none v,
)

pub redirect_in-Lacks :
    (ws : List Word) (v : Argv)
    → Lacks less ws
    → redirect_in (cells ws ++ none ∷ v)
      ≡ record { file = none; argv = cells ws ++ none ∷ v; result = negsuc 0 }
unfolding redirect_in
redirect_in-Lacks ws v h = rw (find_word-Lacks less ws v h)

pub redirect_out-Lacks :
    (ws : List Word) (v : Argv)
    → Lacks greater ws
    → redirect_out (cells ws ++ none ∷ v)
      ≡ record { file = none; argv = cells ws ++ none ∷ v; result = negsuc 0 }
unfolding redirect_out
redirect_out-Lacks ws v h = rw (find_word-Lacks greater ws v h)
