-- ===== src/Shell/Parse/Laws.antt =====
-- What `parse` returns, in terms of the fields of the line; printing words and parsing them again.
use network_system_programmi.Base.{
  ℕ, zero, suc, ◌+◌, ◌≡◌, refl, ap, sym, ◌∙◌, true, Option, none, some, List, [], ◌∷◌, ◌++◌, length,
  arith, Bool-cases, inl, inr, All, eq_bytes, eq_bytes→eq, append_assoc, append-nil,
}
use mathlib.Core.Option.{some-injective}
use mathlib.Core.Path.{subst}
use network_system_programmi.Shell.Words.{Word, Span, is_delim, strtok, strtok_loop, cons_option}
use network_system_programmi.Shell.Words.Split.{words, fields, nonempty, IsToken, strtok_loop_lem}
use network_system_programmi.Shell.Parse.{
  cells, Built, install, parse_loop, terminate, nothing, parse_tokens, parse, free_argv,
}

-- A vector that already holds `b` grows by the tokens.
abbrev grown : Built → List Word → Built
grown b ws = record { argv = b.argv ++ cells ws; overrun = b.overrun + length ws }

install-grown : (b : Built) (w : Word) (ws : List Word) → grown (install b w) ws ≡ grown b (w ∷ ws)
unfolding install
install-grown b w ws = ground (arith, append_assoc b.argv (some w ∷ []) (cells ws))

grown-nil : (b : Built) → grown b [] ≡ b
grown-nil b = ground (arith, append-nil b.argv)

parse_loop_lem : (f : ℕ) (s : Word) (b : Built) → parse_loop f s b ≡ grown b (strtok_loop f s)
unfolding parse_loop strtok_loop
parse_loop_lem zero s b = sym (grown-nil b)
parse_loop_lem (suc f) s b =
    elim (strtok s)
      as (λ o.
        elim o [ none ↦ b | some t ↦ parse_loop f t.rest (install b t.token) ]
        ≡ grown b (cons_option o (strtok_loop f))) [
          | none ↦ sym (grown-nil b)
          | some t ↦
              parse_loop_lem f t.rest (install b t.token)
              ∙ install-grown b t.token (strtok_loop f t.rest)
        ]

-- The vector that stands for a list of words; no words give NULL.
abbrev pub vector_of : List Word → Option Built
vector_of [] = none
vector_of (w ∷ ws) = some (record { argv = cells (w ∷ ws) ++ none ∷ []; overrun = length (w ∷ ws) })

strtok_loop-suc :
    (f : ℕ) (s : Word) → strtok_loop (suc f) s ≡ cons_option (strtok s) (strtok_loop f)
unfolding strtok_loop
strtok_loop-suc f s = refl

built :
    (f : ℕ) (t : Span)
    → terminate (parse_loop f t.rest (install nothing t.token)) ≡ record {
      argv = cells (t.token ∷ strtok_loop f t.rest) ++ none ∷ [];
      overrun = length (t.token ∷ strtok_loop f t.rest);
    }
unfolding terminate install
built f t = rw parse_loop_lem (ground arith)

parse_tokens-loop : (s : Word) → parse_tokens s ≡ vector_of (strtok_loop (suc (suc (length s))) s)
unfolding parse_tokens
parse_tokens-loop s =
    rw (strtok_loop-suc (suc (length s)) s)
      (elim (strtok s)
        as (λ o.
          elim o [
            | none ↦ none
            | some t ↦
                some (terminate (parse_loop (suc (length s)) t.rest (install nothing t.token)))
          ]
          ≡ vector_of (cons_option o (strtok_loop (suc (length s))))) [
            | none ↦ refl
            | some t ↦ ap some (built (suc (length s)) t)
          ])

pub parse_tokens_lem : (s : Word) → parse_tokens s ≡ vector_of (words s)
parse_tokens_lem s = parse_tokens-loop s ∙ ap vector_of (strtok_loop_lem _ s (omega arith))

-- For every line `parse` returns the vector of its words, closed by NULL, or NULL if the line has
-- none; and each word is copied with one byte too many for its block.
pub parse_lem : (s : Word) → parse (some s) ≡ vector_of (words s)
unfolding parse
parse_lem s = elim (Bool-cases (eq_bytes s (10 ∷ []))) [
  | inl e ↦ rw (e, eq_bytes→eq s (10 ∷ []) e) (unfold words fields nonempty in refl)
  | inr n ↦ rw n (parse_tokens_lem s)
]

free_argv-cells : (ws : List Word) → free_argv (cells ws ++ none ∷ []) ≡ ws
unfolding free_argv
free_argv-cells [] = refl
free_argv-cells (w ∷ ws) = ap (λ x. w ∷ x) (free_argv-cells ws)

-- Whatever words `parse` has allocated for a line, `free_argv` frees each of them once, in order.
pub free_argv-parse : (s : Word) (b : Built) → parse (some s) ≡ some b → free_argv b.argv ≡ words s
free_argv-parse s b h = go (words s) (sym (parse_lem s) ∙ h)
  where
    go : (ws : List Word) → vector_of ws ≡ some b → free_argv b.argv ≡ ws
    go [] e = cc
    go (w ∷ ws) e =
        subst (λ (x : Built). free_argv x.argv ≡ w ∷ ws) (some-injective _ _ e)
          (free_argv-cells (w ∷ ws))

-- Words printed on one line, a space between two and a newline at the end.
unfoldable pub print_line : List Word → Word
print_line [] = 10 ∷ []
print_line (w ∷ []) = w ++ 10 ∷ []
print_line (w ∷ v ∷ ws) = w ++ 32 ∷ print_line (v ∷ ws)

fields-append :
    {w : Word} (t : IsToken w) (d : ℕ) (s : Word)
    → is_delim d ≡ true
    → fields (w ++ d ∷ s) ≡ w ∷ fields s
unfolding fields
fields-append (IsToken.last c n) d s h = rw (n, h)
fields-append (IsToken.more c n t) d s h = rw (n, fields-append t d s h)

nonempty-token : {w : Word} → IsToken w → (ws : List Word) → nonempty (w ∷ ws) ≡ w ∷ nonempty ws
unfolding nonempty
nonempty-token (IsToken.last c n) ws = refl
nonempty-token (IsToken.more c n t) ws = refl

words-append :
    {w : Word} (t : IsToken w) (d : ℕ) (s : Word)
    → is_delim d ≡ true
    → words (w ++ d ∷ s) ≡ w ∷ words s
unfolding words
words-append t d s h = rw (fields-append t d s h) (nonempty-token t (fields s))

pub words-print_line : (ws : List Word) → All IsToken ws → words (print_line ws) ≡ ws
unfolding print_line
words-print_line [] h = unfold words fields nonempty in refl
words-print_line (w ∷ []) h = words-append h.0 10 [] refl ∙ (unfold words fields nonempty in refl)
words-print_line (w ∷ v ∷ ws) h =
    words-append h.0 32 (print_line (v ∷ ws)) refl ∙ ap (λ r. w ∷ r) (words-print_line (v ∷ ws) h.1)

-- A printed command line is parsed back: for words without delimiters, none of them empty, `parse`
-- of the line returns the vector of exactly those words.
pub parse-print_line :
    (ws : List Word) → All IsToken ws → parse (some (print_line ws)) ≡ vector_of ws
parse-print_line ws h = parse_lem (print_line ws) ∙ ap vector_of (words-print_line ws h)
