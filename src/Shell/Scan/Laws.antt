-- ===== src/Shell/Scan/Laws.antt =====
-- Where the scans stop, and what the redirections leave of a vector.
use network_system_programmi.Base.{
  ℕ, suc, ◌-◌, ◌≡◌, refl, ap, ◌||◌, false, Option, none, some, List, [], ◌∷◌, ◌++◌, length, arith,
  if◌then◌else◌, All, eq_bytes, eq_bytes_refl, ℤ, pos, negsuc,
}
use mathlib.Core.Option
use native.Mathlib.Numerals.{sub-one}
use network_system_programmi.Shell.Words.{Word}
use network_system_programmi.Shell.Parse.{Cell, Argv, cells}
use network_system_programmi.Shell.Scan.{
  pipe_word, ampersand, find_word, count, cell_at, is_background, pipe_present,
}

-- The words of a list with none of them `x`.
abbrev pub Lacks : Word → List Word → Type 0
Lacks x = All (λ w. eq_bytes w x ≡ false)

pub find_word-Lacks :
    (x : Word) (ws : List Word) (v : Argv) → Lacks x ws → find_word x (cells ws ++ none ∷ v) ≡ none
unfolding find_word
find_word-Lacks x [] v h = refl
find_word-Lacks x (w ∷ ws) v h = rw (h.0, find_word-Lacks x ws v h.1)

pub find_word-found :
    (x : Word) (ws : List Word) (v : Argv)
    → Lacks x ws
    → find_word x (cells ws ++ some x ∷ v) ≡ some (length ws)
unfolding find_word
find_word-found x [] v h = rw (eq_bytes_refl x)
find_word-found x (w ∷ ws) v h = rw (h.0, find_word-found x ws v h.1)

pub count-cells : (ws : List Word) (v : Argv) → count (cells ws ++ none ∷ v) ≡ length ws
unfolding count
count-cells [] v = refl
count-cells (w ∷ ws) v = ap suc (count-cells ws v)

pub cell_at-length :
    (ws : List Word) (c : Cell) (v : Argv) → cell_at (cells ws ++ c ∷ v) (length ws) ≡ c
cell_at-length [] c v = refl
cell_at-length (w ∷ ws) c v = cell_at-length ws c v

-- A job is in the background exactly when "&" stands behind its first word; the index is returned.
pub is_background-found :
    (ws : List Word) (v : Argv)
    → Lacks ampersand ws
    → is_background (cells ws ++ some ampersand ∷ v) ≡ length ws
unfolding is_background
is_background-found ws v h = rw (find_word-found ampersand ws v h)

pub is_background-Lacks :
    (ws : List Word) (v : Argv) → Lacks ampersand ws → is_background (cells ws ++ none ∷ v) ≡ 0
unfolding is_background
is_background-Lacks ws v h = rw (find_word-Lacks ampersand ws v h)

unfoldable pub last_word : Word → List Word → Word
last_word w [] = w
last_word w (x ∷ ws) = last_word x ws

cell_at-last :
    (w : Word) (ws : List Word) (v : Argv)
    → cell_at (cells (w ∷ ws) ++ none ∷ v) (length ws) ≡ some (last_word w ws)
unfolding last_word
cell_at-last w [] v = refl
cell_at-last w (x ∷ ws) v = cell_at-last x ws v

last_cell :
    (w : Word) (ws : List Word) (v : Argv)
    → cell_at (cells (w ∷ ws) ++ none ∷ v) (count (cells (w ∷ ws) ++ none ∷ v) - 1)
      ≡ some (last_word w ws)
last_cell w ws v = rw (count-cells (w ∷ ws) v, sub-one) (cell_at-last w ws v)

-- The number of words in front of the first "|", or 0 if there is none.
unfoldable pub before_pipe : List Word → Option ℕ
before_pipe [] = none
before_pipe (w ∷ ws) =
    let rest = Option.map suc (before_pipe ws) in if eq_bytes w pipe_word then some 0 else rest

-- The answer that the comment of `pipe_present` promises, for a vector of words.
unfoldable pub pipe_place : Word → List Word → ℤ
pipe_place w ws =
    if eq_bytes w pipe_word || eq_bytes (last_word w ws) pipe_word
    then negsuc 0
    else elim (before_pipe (w ∷ ws)) [ none ↦ pos 0 | some i ↦ pos i ]

find_word-before_pipe :
    (ws : List Word) (v : Argv) → find_word pipe_word (cells ws ++ none ∷ v) ≡ before_pipe ws
unfolding find_word before_pipe
find_word-before_pipe [] v = refl
find_word-before_pipe (w ∷ ws) v = rw (find_word-before_pipe ws v)

-- On a vector of at least one word `pipe_present` answers -1 if a "|" is the first or the last
-- word, else the index of the first "|", or 0 if there is none.
pub pipe_present_lem :
    (w : Word) (ws : List Word) (v : Argv)
    → pipe_present (cells (w ∷ ws) ++ none ∷ v) ≡ some (pipe_place w ws)
unfolding pipe_present pipe_place
pipe_present_lem w ws v = rw (last_cell w ws v, find_word-before_pipe (w ∷ ws) v) (ground arith)
