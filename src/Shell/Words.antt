-- ===== src/Shell/Words.antt =====
-- C strings as lists of bytes without the closing NUL, and `strtok` over " \t\n", which the parsers
-- of both shells call.
pub mod Split
use network_system_programmi.Base.{
  ℕ, zero, suc, Bool, true, false, ◌||◌, Option, none, some, List, [], ◌∷◌, ◌==◌, if◌then◌else◌,
}

abbrev pub Word : Type 0
Word = List ℕ

-- `delim`: SPACE or TAB or NL.
abbrev pub is_delim : ℕ → Bool
is_delim c = c == 32 || c == 9 || c == 10

-- The delimiters that `strtok` passes before a token.
unfoldable pub skip_delims : Word → Word
skip_delims [] = []
skip_delims (c ∷ s) = if is_delim c then skip_delims s else c ∷ s

pub record Span : Type 0 where
  pub token : Word
  pub rest : Word

abbrev pub cons_token : ℕ → Span → Span
cons_token c t = record { token = c ∷ t.token; rest = t.rest }

-- The bytes up to the next delimiter, which is overwritten by NUL: the saved pointer stands after it.
unfoldable pub scan_token : Word → Span
scan_token [] = record { token = []; rest = [] }
scan_token (c ∷ s) =
    let more = cons_token c (scan_token s) in
    if is_delim c then record { token = []; rest = s } else more

-- `strtok`: the token, if there is one, and the saved pointer.
unfoldable pub strtok : Word → Option Span
unfolding skip_delims scan_token
strtok s = elim (skip_delims s) [ [] ↦ none | c ∷ r ↦ some (scan_token (c ∷ r)) ]

abbrev pub cons_option : Option Span → (Word → List Word) → List Word
cons_option none k = []
cons_option (some t) k = t.token ∷ k t.rest

-- `while (token = strtok(NULL, delim))`: the tokens, a call of `strtok` for each unit of fuel.
unfoldable pub strtok_loop : ℕ → Word → List Word
strtok_loop zero s = []
strtok_loop (suc f) s = cons_option (strtok s) (strtok_loop f)
