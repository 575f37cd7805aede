-- ===== src/FirstShell/Vectors.antt =====
-- The vectors that the two shells build from a line.
use network_system_programmi.Base.{
  ℕ, zero, suc, ◌+◌, ◌≡◌, refl, ap, sym, ◌∙◌, Option, none, some, List, [], ◌∷◌, ◌++◌, length,
  arith, append_assoc, append-nil,
}
use mathlib.Core.Option
use network_system_programmi.Shell.Words.{Word, Span, strtok, strtok_loop, cons_option}
use network_system_programmi.Shell.Words.Split.{words, strtok_loop_lem}
use network_system_programmi.Shell.Parse
use network_system_programmi.Shell.Parse.{Cell, Argv, Built, cells, install, terminate, nothing}
use network_system_programmi.Shell.Parse.Laws.{vector_of, parse_lem as Parse_lem}
use network_system_programmi.FirstShell.{
  Printed, token_line, put_token, parse_loop, closed, blank_start, parse,
}

-- The numbered lines that `parse` prints for the words from the i-th on.
abbrev pub numbered : ℕ → List Word → Word
numbered i [] = []
numbered i (w ∷ ws) = token_line i w ++ numbered (i + 1) ws

abbrev pub grown : ℕ → Printed → List Word → Printed
grown i p ws = record {
  built = record { argv = p.built.argv ++ cells ws; overrun = p.built.overrun + length ws };
  output = p.output ++ numbered i ws;
}

pub put_token-grown :
    (i : ℕ) (p : Printed) (w : Word) (ws : List Word)
    → grown (i + 1) (put_token i p w) ws ≡ grown i p (w ∷ ws)
unfolding install
put_token-grown i p w ws = ground (
  arith,
  append_assoc p.built.argv (some w ∷ []) (cells ws),
  append_assoc p.output (token_line i w) (numbered (i + 1) ws),
)

pub grown-nil : (i : ℕ) (p : Printed) → grown i p [] ≡ p
grown-nil i p = ground (arith, append-nil p.built.argv, append-nil p.output)

pub parse_loop_lem :
    (f i : ℕ) (s : Word) (p : Printed) → parse_loop f i s p ≡ grown (i + 1) p (strtok_loop f s)
unfolding parse_loop strtok_loop
parse_loop_lem zero i s p = sym (grown-nil (i + 1) p)
parse_loop_lem (suc f) i s p =
    elim (strtok s)
      as (λ o.
        elim o [ none ↦ p | some t ↦ parse_loop f (i + 1) t.rest (put_token (i + 1) p t.token) ]
        ≡ grown (i + 1) p (cons_option o (strtok_loop f))) [
          | none ↦ sym (grown-nil (i + 1) p)
          | some t ↦
              parse_loop_lem f (i + 1) t.rest (put_token (i + 1) p t.token)
              ∙ put_token-grown (i + 1) p t.token (strtok_loop f t.rest)
        ]

-- The vector of the words, and a numbered line for each of them; no words give NULL.
abbrev pub printed_of : List Word → Option Printed
printed_of [] = none
printed_of (w ∷ ws) = some (record {
  built = record { argv = cells (w ∷ ws) ++ none ∷ []; overrun = length (w ∷ ws) };
  output = numbered 0 (w ∷ ws);
})

pub one_token :
    (f : ℕ) (t : Span)
    → closed (parse_loop f 0 t.rest (put_token 0 blank_start t.token)) ≡ record {
      built = record {
        argv = cells (t.token ∷ strtok_loop f t.rest) ++ none ∷ [];
        overrun = length (t.token ∷ strtok_loop f t.rest);
      };
      output = numbered 0 (t.token ∷ strtok_loop f t.rest);
    }
unfolding terminate install
one_token f t = rw parse_loop_lem (ground arith)

pub strtok_loop-suc :
    (f : ℕ) (s : Word) → strtok_loop (suc f) s ≡ cons_option (strtok s) (strtok_loop f)
unfolding strtok_loop
strtok_loop-suc f s = refl

pub parse-loop : (s : Word) → parse (some s) ≡ printed_of (strtok_loop (suc (suc (length s))) s)
unfolding parse
parse-loop s =
    rw (strtok_loop-suc (suc (length s)) s)
      (elim (strtok s)
        as (λ o.
          elim o [
            | none ↦ none
            | some t ↦
                some
                  (closed (parse_loop (suc (length s)) 0 t.rest (put_token 0 blank_start t.token)))
          ]
          ≡ printed_of (cons_option o (strtok_loop (suc (length s))))) [
            | none ↦ refl
            | some t ↦ ap some (one_token (suc (length s)) t)
          ])

pub parse_lem : (s : Word) → parse (some s) ≡ printed_of (words s)
parse_lem s = parse-loop s ∙ ap printed_of (strtok_loop_lem _ s (omega arith))

pub built-printed_of :
    (ws : List Word) → Option.map (λ (p : Printed). p.built) (printed_of ws) ≡ vector_of ws
built-printed_of [] = refl
built-printed_of (w ∷ ws) = refl

-- From every line the two shells build the same vector, though only the second tests for an empty
-- line first; and the first prints each word of it on a line with its number, in order.
pub parse-agree :
    (s : Word)
    → (Option.map (λ (p : Printed). p.built) (parse (some s)) ≡ Parse.parse (some s))
      × (parse (some s) ≡ printed_of (words s))
parse-agree s = (rw (parse_lem s) (built-printed_of (words s) ∙ sym (Parse_lem s)), parse_lem s)
