-- ===== src/Shell/Scan.antt =====
-- The scans of an argv vector: SP_HW4/part2/is_background.c, pipe_present.c, redirect_in.c and
-- redirect_out.c. A scan stops at the first NULL, whatever stands behind it.
pub mod Laws
pub mod Redirect
use network_system_programmi.Base.{
  ℕ, zero, suc, ◌+◌, ◌-◌, Bool, true, false, ◌||◌, Option, none, some, List, [], ◌∷◌, ◌==◌,
  if◌then◌else◌, eq_bytes, get_elem?, set, ℤ, pos, negsuc,
}
use mathlib.Core.Option
use network_system_programmi.Shell.Words.{Word}
use network_system_programmi.Shell.Parse.{Cell, Argv}

abbrev pub pipe_word : Word
pipe_word = b'|' ∷ []

abbrev pub ampersand : Word
ampersand = b'&' ∷ []

abbrev pub less : Word
less = b'<' ∷ []

abbrev pub greater : Word
greater = b'>' ∷ []

-- `for (; v[i]; i++) if (!strcmp(v[i], x)) break;`: the index, if the loop breaks.
unfoldable pub find_word : Word → Argv → Option ℕ
find_word x [] = none
find_word x (none ∷ v) = none
find_word x (some w ∷ v) =
    let rest = Option.map suc (find_word x v) in if eq_bytes w x then some 0 else rest

-- `while (v[i]) i++;`
unfoldable pub count : Argv → ℕ
count [] = 0
count (none ∷ v) = 0
count (some w ∷ v) = suc (count v)

-- The cell at an index; a read past the vector gives NULL.
abbrev pub cell_at : Argv → ℕ → Cell
cell_at [] i = none
cell_at (c ∷ v) zero = c
cell_at (c ∷ v) (suc i) = cell_at v i

-- `strcmp(c, x) == 0`, where a NULL argument crashes.
abbrev pub strcmp_eq : Cell → Word → Option Bool
strcmp_eq none x = none
strcmp_eq (some w) x = some (eq_bytes w x)

abbrev index_or_zero : Option ℕ → ℕ
index_or_zero none = 0
index_or_zero (some i) = i

-- `is_background`: the index of the first "&", or 0.
unfoldable pub is_background : Argv → ℕ
is_background v = index_or_zero (find_word ampersand v)

abbrev index_or_none : Option ℕ → ℤ
index_or_none none = pos 0
index_or_none (some i) = pos i

abbrev pipe_result : Option Bool → Option Bool → Option ℕ → Option ℤ
pipe_result none last found = none
pipe_result (some true) last found = some (negsuc 0)
pipe_result (some false) none found = none
pipe_result (some false) (some true) found = some (negsuc 0)
pipe_result (some false) (some false) found = some (index_or_none found)

-- `pipe_present`; `none` is the crash of `strcmp` on NULL, when the vector is empty.
unfoldable pub pipe_present : Argv → Option ℤ
pipe_present v =
    pipe_result (strcmp_eq (cell_at v 0) pipe_word) (strcmp_eq (cell_at v (count v - 1)) pipe_word)
      (find_word pipe_word v)

-- What `redirect_in` and `redirect_out` do: the file that the stream is reopened on, if the sign was
-- found, the vector that is left, and the value returned.
pub record Redirected : Type 0 where
  pub file : Option Cell
  pub argv : Argv
  pub result : ℤ

abbrev redirect_at : Argv → Option ℕ → Redirected
redirect_at v none = record { file = none; argv = v; result = negsuc 0 }
redirect_at v (some i) = record {
  file = some (cell_at v (i + 1));
  argv = set (set v i none) (i + 1) none;
  result = pos 0;
}

unfoldable pub redirect_in : Argv → Redirected
redirect_in v = redirect_at v (find_word less v)

unfoldable pub redirect_out : Argv → Redirected
redirect_out v = redirect_at v (find_word greater v)
