-- ===== src/Process/Owned.antt =====
-- SP_HW3/hw3_part1.c: the processes of a user.
pub mod Laws
use network_system_programmi.Base.{
  ℕ, Bool, true, false, Option, none, some, List, [], ◌∷◌, ◌++◌, if◌then◌else◌, atoi, ℤ, eq_int,
  Key, strtok,
}
use network_system_programmi.Process.Status.{Bytes, Entry, is_space, is_zero, reads_as}

-- A line of the output: "Name: ... Pid: ..."
pub record Found : Type 0 where
  pub p_name : Bytes
  pub pid : Bytes

-- What the lines of a file lead to: `none` when `strtok` gives NULL to `strcmp`, `strcpy` or `atoi`.
abbrev pub Scanned : Type 0
Scanned = Option (List Found)

abbrev pub print_found : Found → Scanned → Scanned
print_found f none = none
print_found f (some fs) = some (f ∷ fs)

-- The next token of the line.
abbrev pub with_value : Option Key → (Bytes → Scanned) → Scanned
with_value none use_it = none
with_value (some value) use_it = use_it value.token

-- The loop of `getline`; it goes on behind a "Uid:" of the user, and breaks at another one.
unfoldable pub scan_lines : ℤ → List Bytes → (p_name pid : Bytes) → Scanned
scan_lines uid [] p_name pid = some []
scan_lines uid (l ∷ ls) p_name pid = elim (strtok is_space l) [
  | none ↦ none
  | some key ↦
      let value = strtok is_space key.rest in
      let named = with_value value (λ v. scan_lines uid ls v pid) in
      let numbered = with_value value (λ v. scan_lines uid ls p_name v) in
      let rest = scan_lines uid ls p_name pid in
      let owned = with_value value (λ v.
        if eq_int (atoi v) uid
        then print_found (record { p_name = p_name; pid = pid }) rest
        else some []) in
      if reads_as key "Name:"
      then named
      else if reads_as key "Pid:"
      then numbered
      else if reads_as key "Uid:"
      then owned
      else rest
]

pub data Ended : Type 0 where
  -- `getpwnam` gives NULL
  no_user : Ended
  crashes : Ended
  lists : List Found → Ended

abbrev pub prints_first : Scanned → Ended → Ended
prints_first none rest = crashes
prints_first (some fs) (lists gs) = lists (fs ++ gs)
prints_first (some fs) no_user = no_user
prints_first (some fs) crashes = crashes

-- The loop over /proc; a file that cannot be opened ends the program.
unfoldable pub scan_entries : ℤ → List Entry → Ended
scan_entries uid [] = lists []
scan_entries uid (e ∷ es) =
    let rest = scan_entries uid es in
    let one : Ended = elim e.status [
      | none ↦ lists []
      | some lines ↦ prints_first (scan_lines uid lines [] []) rest
    ] in
    if is_zero (atoi e.d_name) then rest else one

-- `main`, with the answer of `getpwnam`.
unfoldable pub main : Option ℤ → List Entry → Ended
main none es = no_user
main (some pw_uid) es = scan_entries pw_uid es
