-- ===== src/Shell/Parse.antt =====
-- SP_HW4/part2/parse.c: a line into an argv vector, and the vector freed again.
pub mod Laws
use network_system_programmi.Base.{
  ℕ, zero, suc, ◌+◌, ◌-◌, Bool, true, false, Option, none, some, List, [], ◌∷◌, ◌++◌, length, map,
  if◌then◌else◌, eq_bytes,
}
use network_system_programmi.Shell.Words.{Word, Span, strtok}

-- One `char *` of an argv vector; `none` is NULL.
abbrev pub Cell : Type 0
Cell = Option Word

abbrev pub Argv : Type 0
Argv = List Cell

-- The cells of a vector that hold words.
abbrev pub cells : List Word → Argv
cells = map some

-- A vector under construction, and the bytes that `strcpy` has written past the ends of blocks.
pub record Built : Type 0 where
  pub argv : Argv
  pub overrun : ℕ

-- `strcpy` of `w` into a block of `size` bytes writes the closing NUL too.
abbrev pub strcpy_overrun : ℕ → Word → ℕ
strcpy_overrun size w = (length w + 1) - size

-- `realloc` to one more cell, `malloc(strlen(token))`, `strcpy`.
unfoldable pub install : Built → Word → Built
install b w = record {
  argv = b.argv ++ some w ∷ [];
  overrun = b.overrun + strcpy_overrun (length w) w;
}

-- `while (token = strtok(NULL, delim))`, a round for each unit of fuel.
unfoldable pub parse_loop : ℕ → Word → Built → Built
parse_loop zero s b = b
parse_loop (suc f) s b = elim (strtok s) [
  | none ↦ b
  | some t ↦ parse_loop f t.rest (install b t.token)
]

-- The last `realloc`, and the closing NULL.
unfoldable pub terminate : Built → Built
terminate b = record b { argv = b.argv ++ none ∷ [] }

abbrev pub nothing : Built
nothing = record { argv = []; overrun = 0 }

-- From the first call of `strtok` on.
unfoldable pub parse_tokens : Word → Option Built
unfolding parse_loop terminate
parse_tokens line = elim (strtok line) [
  | none ↦ none
  | some t ↦ some (terminate (parse_loop (suc (length line)) t.rest (install nothing t.token)))
]

-- `parse`; a missing result is NULL.
unfoldable pub parse : Option Word → Option Built
unfolding parse_tokens
parse none = none
parse (some line) = if eq_bytes line (10 ∷ []) then none else parse_tokens line

-- `free_argv`: the blocks that are freed, before the vector itself is.
unfoldable pub free_argv : Argv → List Word
free_argv [] = []
free_argv (none ∷ v) = []
free_argv (some w ∷ v) = w ∷ free_argv v
