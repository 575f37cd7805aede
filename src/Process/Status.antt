-- ===== src/Process/Status.antt =====
-- SP_HW3: an entry of /proc with the lines of its file "status".
use network_system_programmi.Base.{
  ℕ, zero, suc, Bool, true, false, Option, List, ◌||◌, ◌==◌, ℤ, pos, negsuc, Key, eq_bytes, codes,
}
use Prim.Native.String.{String}

abbrev pub Bytes : Type 0
Bytes = List ℕ

-- `" \t\n"`
abbrev pub is_space : ℕ → Bool
is_space c = c == 32 || c == 9 || c == 10

pub record Entry : Type 0 where
  pub d_name : Bytes
  -- `none` when `fopen` gives NULL
  pub status : Option (List Bytes)

abbrev pub is_zero : ℤ → Bool
is_zero (pos zero) = true
is_zero (pos (suc n)) = false
is_zero (negsuc n) = false

-- `!strcmp(key, text)`
abbrev pub reads_as : Key → String → Bool
reads_as key text = eq_bytes key.token (codes text)
