-- ===== src/Shell/Main/Laws.antt =====
-- `fgets` cuts the input into lines, and the loop of `main` comes to an end on every input.
use network_system_programmi.Base.{
  ℕ, zero, suc, ◌+◌, ◌≤◌, ◌<◌, ◌≡◌, refl, ap, Option, none, some, List, [], ◌∷◌, ◌++◌, length,
  length-append, arith, NoNul, c_string_lem, Bool-cases, inl, inr, All,
}
use mathlib.Core.Option.{some-injective}
use mathlib.Core.Path.{subst}
use network_system_programmi.Shell.Words.{Word}
use network_system_programmi.Shell.Words.Split.{IsToken}
use network_system_programmi.Shell.Parse.{cells}
use network_system_programmi.Shell.Parse.Laws.{print_line, parse-print_line}
use network_system_programmi.Shell.Builtin.{
  Handler, is_builtin, do_builtin, lookup, inbuilts, run_handler,
}
use network_system_programmi.Shell.Command.{run_command}
use network_system_programmi.Shell.Main.{
  Line, read_line, fgets, World, ran, built_in, goes_on, turn, Session, end_of_input, stopped,
  no_fuel, line_done, shell_loop,
}

read_line_lem : (n : ℕ) (s : Word) → (read_line n s).line ++ (read_line n s).input ≡ s
unfolding read_line
read_line_lem zero s = refl
read_line_lem (suc n) [] = refl
read_line_lem (suc n) (c ∷ s) = ground (arith, read_line_lem n s)

length-read_line : (n : ℕ) (s : Word) → length (read_line n s).line ≤ n
unfolding read_line
length-read_line zero s = omega arith
length-read_line (suc n) [] = omega arith
length-read_line (suc n) (c ∷ s) = ground (arith, length-read_line n s)

length-input : (n : ℕ) (c : ℕ) (s : Word) → length (read_line (suc n) (c ∷ s)).input ≤ length s
unfolding read_line
length-input n c s =
    ground (
      arith,
      ap length (read_line_lem n s),
      length-append (read_line n s).line (read_line n s).input,
    )

-- Each call of `fgets` takes at least one byte and at most 254 off the front of the input, and
-- loses none.
pub fgets_lem :
    (s : Word) (l : Line)
    → fgets s ≡ some l
    → (l.line ++ l.input ≡ s) × (length l.line ≤ 254) × (length l.input < length s)
unfolding fgets
fgets_lem [] l h = cc
fgets_lem (c ∷ s) l h =
    subst
      (λ (x : Line).
        (x.line ++ x.input ≡ c ∷ s) × (length x.line ≤ 254) × (length x.input < suc (length s)))
      (some-injective _ _ h)
      (read_line_lem 254 (c ∷ s), length-read_line 254 (c ∷ s), omega (arith, length-input 253 c s))

-- The session comes to a real end.
abbrev pub Finishes : Session → Type 0
Finishes no_fuel = ⊥
Finishes end_of_input = Unit
Finishes (stopped s) = Unit
Finishes (line_done s r) = Finishes r

shell_loop-step :
    (w : World) (f n : ℕ) (this : Option Handler) (input : Word) (o : Option Line)
    → fgets input ≡ o
    → ((l : Line)
        → o ≡ some l
        → (this' : Option Handler) → Finishes (shell_loop w f (n + 1) this' l.input))
    → Finishes (shell_loop w (suc f) n this input)
unfolding shell_loop
shell_loop-step w f n this input none e ih = rw (e, shell_loop) tt
shell_loop-step w f n this input (some l) e ih =
    rw (e, shell_loop)
      (elim (Bool-cases (goes_on (turn w n this l.line).step)) [
        | inl on ↦ rw on (ih l refl (turn w n this l.line).this)
        | inr off ↦ rw off tt
      ])

-- With fuel for every byte of the input `main` of the shell comes to an end: at the end of the
-- input, or at a line that ends the shell.
pub shell_loop-Finishes :
    (w : World) (f n : ℕ) (this : Option Handler) (input : Word)
    → length input < f
    → Finishes (shell_loop w f n this input)
unfolding shell_loop
shell_loop-Finishes w zero n this input h = absurd (omega arith)
shell_loop-Finishes w (suc f) n this input h =
    shell_loop-step w f n this input (fgets input) refl
      (λ l e m. shell_loop-Finishes w f (n + 1) m l.input (omega (arith, (fgets_lem input l e).2)))

NoNul-append : (s t : Word) → NoNul s → NoNul t → NoNul (s ++ t)
NoNul-append [] t h k = k
NoNul-append (c ∷ s) t h k = (h.0, NoNul-append s t h.1 k)

NoNul-print_line : (ws : List Word) → All NoNul ws → NoNul (print_line ws)
unfolding print_line
NoNul-print_line [] h = (refl, tt)
NoNul-print_line (w ∷ []) h = NoNul-append w (10 ∷ []) h.0 (refl, tt)
NoNul-print_line (w ∷ v ∷ ws) h =
    NoNul-append w (32 ∷ print_line (v ∷ ws)) h.0 (refl, NoNul-print_line (v ∷ ws) h.1)

-- On a line of words without delimiters and NULs the shell runs the handler of the first word on
-- the vector of the words if the word is in the table of built-in commands, and hands the vector to
-- `run_command` otherwise.
pub turn-print_line :
    (w : World) (n : ℕ) (this : Option Handler) (c : Word) (ws : List Word)
    → All IsToken (c ∷ ws)
    → All NoNul (c ∷ ws)
    → (turn w n this (print_line (c ∷ ws))).step ≡ elim (lookup c inbuilts) [
      | none ↦ ran (run_command (w.os n) (w.fork_ok n) (w.stat n) (cells (c ∷ ws) ++ none ∷ []))
      | some h ↦ built_in (run_handler (w.host n) h (cells (c ∷ ws) ++ none ∷ []))
    ]
unfolding turn is_builtin do_builtin
turn-print_line w n this c ws t z =
    rw
      (
        c_string_lem (print_line (c ∷ ws)) (NoNul-print_line (c ∷ ws) z),
        parse-print_line (c ∷ ws) t,
      )
      (ground arith)
