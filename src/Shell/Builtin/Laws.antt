-- ===== src/Shell/Builtin/Laws.antt =====
-- The table of the built-in commands, and what "echo" prints.
use network_system_programmi.Base.{
  ℕ, zero, suc, ◌≡◌, refl, true, false, Option, none, some, List, [], ◌∷◌, ◌++◌, map, arith,
  eq_bytes, append_assoc, ◌+ℤ◌, pos, get_elem?, codes, decimal, atoi-decimal, concat,
}
use network_system_programmi.Shell.Words.{Word}
use network_system_programmi.Shell.Parse.{Argv, cells}
use network_system_programmi.Shell.Builtin.{
  Handler, bi_echo, Table, inbuilts, Host, printed, lookup, is_builtin, is_feature, run_echo,
  echo_words, print_at, run_handler, do_builtin,
}

is_feature-lookup :
    (name : Word) (t : Table)
    → is_feature name t ≡ elim (lookup name t) [ none ↦ false | some h ↦ true ]
unfolding is_feature lookup
is_feature-lookup name [] = refl
is_feature-lookup name ((k, h) ∷ t) = ground (arith, is_feature-lookup name t)

-- After `is_builtin` has found a command, `do_builtin` runs the handler of that very command,
-- whatever `this` pointed to before; after it has found none, `do_builtin` does what it did before.
pub do_builtin-is_builtin :
    (os : Host) (cmd : Word) (this : Option Handler) (v : Argv)
    → do_builtin os (is_builtin cmd this).1 v
      ≡ elim (lookup cmd inbuilts) [ none ↦ do_builtin os this v | some h ↦ run_handler os h v ]
unfolding is_builtin do_builtin
do_builtin-is_builtin os cmd this v = ground arith

abbrev pub spaced : Word → Word
spaced w = w ++ 32 ∷ []

pub echo_words-cells :
    (ws : List Word) (v : Argv) → echo_words (cells ws ++ none ∷ v) ≡ concat (map spaced ws)
unfolding echo_words
echo_words-cells [] v = refl
echo_words-cells (w ∷ ws) v = simp (append_assoc, echo_words-cells ws v)

get_elem?-cells :
    (ws : List Word) (i : ℕ) (w : Word) (v : Argv)
    → get_elem? ws i ≡ some w
    → get_elem? (cells ws ++ v) i ≡ some (some w)
get_elem?-cells [] i w v h = cc
get_elem?-cells (x ∷ ws) zero w v h = ground arith
get_elem?-cells (x ∷ ws) (suc i) w v h = get_elem?-cells ws i w v h

print_at-found :
    (v : Argv) (i : ℕ) (w : Word)
    → get_elem? v i ≡ some (some w)
    → print_at v (pos i) ≡ printed (w ++ 10 ∷ [])
unfolding print_at
print_at-found v i w h = rw (h, print_at)

plus_two : (i : ℕ) → pos (suc i) +ℤ pos 2 ≡ pos (suc (suc (suc i)))
plus_two i = ground arith

-- "echo w1 w2 ..." with w1 not "-n" prints each word with a space behind it and a newline; "echo -n
-- k w1 w2 ..." prints the k-th word alone, and a newline too.
pub run_echo_lem :
    (os : Host) (w x : Word) (ws : List Word) (i : ℕ) (v : Argv)
    → eq_bytes w (codes "-n") ≡ false
    → get_elem? ws i ≡ some x
    → (run_handler os bi_echo (cells (codes "echo" ∷ w ∷ ws) ++ none ∷ v)
        ≡ printed (concat (map spaced (w ∷ ws)) ++ 10 ∷ []))
      × (run_handler os bi_echo
            (cells (codes "echo" ∷ codes "-n" ∷ decimal (suc i) ∷ ws) ++ none ∷ v)
          ≡ printed (x ++ 10 ∷ []))
unfolding run_handler run_echo
run_echo_lem os w x ws i v h e = (
  rw (h, echo_words-cells (w ∷ ws) v),
  rw (atoi-decimal (suc i)) (
      rw (plus_two i)
        (print_at-found _ (suc (suc (suc i))) x (get_elem?-cells ws i x (none ∷ v) e))),
)
