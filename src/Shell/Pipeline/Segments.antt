-- ===== src/Shell/Pipeline/Segments.antt =====
-- The commands of a pipeline, and where "|" stands among their words.
use network_system_programmi.Base.{
  ◌≡◌, refl, false, none, some, List, [], ◌∷◌, ◌++◌, length, All, eq_bytes, true, map,
  if◌then◌else◌,
}
use network_system_programmi.Shell.Words.{Word}
use network_system_programmi.Shell.Parse.{Argv, cells}
use network_system_programmi.Shell.Scan.{pipe_word}
use network_system_programmi.Shell.Scan.Laws.{Lacks, before_pipe, last_word}
use network_system_programmi.Shell.Pipeline.{
  Raw, Os, is_closed, Event, left_ran, stdin_from_pipe, End, returned, became,
}
use network_system_programmi.Shell.Pipeline.Laws.{filled}

-- One command of a pipeline.
pub record Segment : Type 0 where
  pub head : Word
  pub args : List Word

abbrev pub words_of : Segment → List Word
words_of s = s.head ∷ s.args

abbrev pub IsPlain : Segment → Type 0
IsPlain s = Lacks pipe_word (words_of s)

-- The words of a pipeline behind the first, with a "|" between two segments.
abbrev pub join_tail : Segment → List Segment → List Word
join_tail s [] = s.args
join_tail s (t ∷ r) = s.args ++ pipe_word ∷ t.head ∷ join_tail t r

abbrev pub join : Segment → List Segment → List Word
join s r = s.head ∷ join_tail s r

abbrev pub left_vector : Segment → Raw
left_vector s = filled (words_of s) ++ some none ∷ []

abbrev pub right_vector : Segment → Raw
right_vector s = filled (words_of s) ++ none ∷ []

-- Each command but the last runs in a child, in order, and the process reads what it wrote.
abbrev pub pipeline_events : Segment → List Segment → List Event
pipeline_events s [] = []
pipeline_events s (t ∷ r) = left_ran (left_vector s) ∷ stdin_from_pipe ∷ pipeline_events t r

-- What the process itself becomes after the left sides: the last command, or the one before it when
-- `execvp` does not take the last vector, which no NULL closes.
abbrev pub last_program : Os → Segment → Segment → List Segment → Raw
last_program os s t [] =
    if os.takes_unclosed (right_vector t) then right_vector t else left_vector s
last_program os s t (u ∷ r) = last_program os t u r

abbrev pub pipeline_end : Os → Segment → List Segment → End
pipeline_end os s [] = returned
pipeline_end os s (t ∷ r) = became (last_program os s t r)

pub is_closed-left : (ws : List Word) → is_closed (filled ws ++ some none ∷ []) ≡ true
is_closed-left [] = refl
is_closed-left (w ∷ ws) = is_closed-left ws

pub is_closed-right : (ws : List Word) → is_closed (filled ws ++ none ∷ []) ≡ false
is_closed-right [] = refl
is_closed-right (w ∷ ws) = is_closed-right ws

pub is_closed-cells :
    (ws : List Word) (v : Argv) → is_closed (map some (cells ws ++ none ∷ v)) ≡ true
is_closed-cells [] v = refl
is_closed-cells (w ∷ ws) v = is_closed-cells ws v

pub last_word-append :
    (w : Word) (ws : List Word) (x y : Word) (ys : List Word)
    → last_word w (ws ++ x ∷ y ∷ ys) ≡ last_word y ys
unfolding last_word
last_word-append w [] x y ys = refl
last_word-append w (v ∷ ws) x y ys = last_word-append v ws x y ys

pub last_word-Lacks :
    (w : Word) (ws : List Word)
    → Lacks pipe_word (w ∷ ws)
    → eq_bytes (last_word w ws) pipe_word ≡ false
unfolding last_word
last_word-Lacks w [] h = h.0
last_word-Lacks w (v ∷ ws) h = last_word-Lacks v ws h.1

pub last_word-join :
    (s : Segment) (r : List Segment)
    → IsPlain s
    → All IsPlain r
    → eq_bytes (last_word s.head (join_tail s r)) pipe_word ≡ false
last_word-join s [] p h = last_word-Lacks s.head s.args p
last_word-join s (t ∷ r) p h =
    rw (last_word-append s.head s.args pipe_word t.head (join_tail t r))
      (last_word-join t r h.0 h.1)

pub before_pipe-append :
    (ws ys : List Word) → Lacks pipe_word ws → before_pipe (ws ++ pipe_word ∷ ys) ≡ some (length ws)
unfolding before_pipe
before_pipe-append [] ys h = refl
before_pipe-append (w ∷ ws) ys h = rw (h.0, before_pipe-append ws ys h.1)

pub before_pipe-Lacks : (ws : List Word) → Lacks pipe_word ws → before_pipe ws ≡ none
unfolding before_pipe
before_pipe-Lacks [] h = refl
before_pipe-Lacks (w ∷ ws) h = rw (h.0, before_pipe-Lacks ws h.1)
