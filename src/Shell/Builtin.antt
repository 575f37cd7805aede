-- ===== src/Shell/Builtin.antt =====
-- SP_HW4/part2/builtin.c: the commands that the shell runs itself, and the table that finds them.
pub mod Laws
use network_system_programmi.Base.{
  ℕ, zero, suc, ◌+◌, ◌-◌, Bool, true, false, Option, none, some, List, [], ◌∷◌, ◌++◌, if◌then◌else◌,
  eq_bytes, get_elem?, ℤ, pos, negsuc, ◌+ℤ◌, codes, decimal, atoi,
}
use network_system_programmi.Shell.Words.{Word}
use network_system_programmi.Shell.Parse.{Cell, Argv}
use network_system_programmi.Shell.Scan.{cell_at}

pub data Handler : Type 0 where
  bi_builtin bi_cd bi_echo bi_hostname bi_id bi_pwd bi_quit : Handler

abbrev pub Table : Type 0
Table = List (Word × Handler)

-- `inbuilts`, up to its closing NULL.
abbrev pub inbuilts : Table
inbuilts =
    (codes "builtin", bi_builtin)
    ∷ (codes "echo", bi_echo)
    ∷ (codes "quit", bi_quit)
    ∷ (codes "exit", bi_quit)
    ∷ (codes "bye", bi_quit)
    ∷ (codes "logout", bi_quit)
    ∷ (codes "cd", bi_cd)
    ∷ (codes "pwd", bi_pwd)
    ∷ (codes "id", bi_id)
    ∷ (codes "hostname", bi_hostname)
    ∷ []

pub record Passwd : Type 0 where
  pub pw_name : Word
  pub pw_uid : ℕ
  pub pw_gid : ℕ

-- The answers of the system. `chdir` fails on NULL.
pub record Host : Type 0 where
  pub chdir : Word → Bool
  pub nodename : Option Word
  pub login : Word
  pub passwd : List Passwd
  pub cwd : Word

-- What a built-in command does to the shell: it prints, exits with a status, or crashes.
pub data Outcome : Type 0 where
  printed : Word → Outcome
  exits : ℕ → Outcome
  crashes : Outcome

unfoldable pub lookup : Word → Table → Option Handler
lookup cmd [] = none
lookup cmd ((k, h) ∷ t) = let rest = lookup cmd t in if eq_bytes k cmd then some h else rest

-- `is_builtin`: the answer, and the static pointer `this` after the call.
unfoldable pub is_builtin : Word → Option Handler → Bool × Option Handler
is_builtin cmd this = elim (lookup cmd inbuilts) [ none ↦ (false, this) | some h ↦ (true, some h) ]

-- The loop over `inbuilts` of `bi_builtin`.
unfoldable pub is_feature : Word → Table → Bool
is_feature name [] = false
is_feature name ((k, h) ∷ t) =
    let rest = is_feature name t in if eq_bytes k name then true else rest

unfoldable pub run_builtin : Cell → Outcome
run_builtin none = crashes
run_builtin (some name) =
    if is_feature name inbuilts
    then printed (name ++ codes " is a builtin feature.\n")
    else printed (name ++ codes " is NOT a builtin feature.\n")

unfoldable pub run_cd : Host → Cell → Outcome
run_cd os none = exits 1
run_cd os (some dir) = if os.chdir dir then printed [] else exits 1

-- `while (argv[i]) printf("%s ", argv[i++]);`
unfoldable pub echo_words : Argv → Word
echo_words [] = []
echo_words (none ∷ v) = []
echo_words (some w ∷ v) = w ++ 32 ∷ echo_words v

-- `printf("%s\n", argv[index])`: NULL prints as "(null)", and an index outside the vector is a crash.
unfoldable pub print_at : Argv → ℤ → Outcome
print_at v (negsuc n) = crashes
print_at v (pos i) = elim (get_elem? v i) [
  | none ↦ crashes
  | some none ↦ printed (codes "(null)\n")
  | some (some w) ↦ printed (w ++ 10 ∷ [])
]

abbrev tail_of : Argv → Argv
tail_of [] = []
tail_of (c ∷ v) = v

abbrev echo_index : Argv → Cell → Outcome
echo_index v none = crashes
echo_index v (some n) = print_at v (atoi n +ℤ pos 2)

unfoldable pub run_echo : Argv → Cell → Outcome
run_echo v none = crashes
run_echo v (some first) =
    if eq_bytes first (codes "-n")
    then echo_index v (cell_at v 2)
    else printed (echo_words (tail_of v) ++ 10 ∷ [])

unfoldable pub run_hostname : Option Word → Outcome
run_hostname none = exits 1
run_hostname (some name) = printed (codes "hostname: " ++ (name ++ 10 ∷ []))

-- `while (strcmp(pw->pw_name, buf)) pw = getpwent();`: NULL at the end of the file is a crash.
unfoldable pub find_passwd : Word → List Passwd → Option Passwd
find_passwd name [] = none
find_passwd name (p ∷ ps) =
    let rest = find_passwd name ps in if eq_bytes p.pw_name name then some p else rest

abbrev id_line : Passwd → Word
id_line p =
    codes "UserId = "
    ++ (decimal p.pw_uid
        ++ (codes "("
            ++ (p.pw_name
                ++ (codes "), GroupId = "
                    ++ (decimal p.pw_gid ++ (codes "(" ++ (p.pw_name ++ codes ")\n")))))))

unfoldable pub run_id : Host → Outcome
run_id os = elim (find_passwd os.login os.passwd) [ none ↦ crashes | some p ↦ printed (id_line p) ]

unfoldable pub run_handler : Host → Handler → Argv → Outcome
run_handler os bi_builtin v = run_builtin (cell_at v 1)
run_handler os bi_cd v = run_cd os (cell_at v 1)
run_handler os bi_echo v = run_echo v (cell_at v 1)
run_handler os bi_hostname v = run_hostname os.nodename
run_handler os bi_id v = run_id os
run_handler os bi_pwd v = printed (os.cwd ++ 10 ∷ [])
run_handler os bi_quit v = exits 0

-- `do_builtin`: the function that `this` points to.
unfoldable pub do_builtin : Host → Option Handler → Argv → Outcome
do_builtin os none v = crashes
do_builtin os (some h) v = run_handler os h v
