-- ===== src/Shell/Pipeline/Run.antt =====
-- What a pipeline of any length runs.
use network_system_programmi.Base.{
  ℕ, zero, suc, ◌+◌, ◌<◌, ◌≡◌, refl, ◌∙◌, Bool, Bool-cases, inl, inr, if◌then◌else◌, true, false,
  none, some, List, [], ◌∷◌, ◌++◌, length, drop, arith, All, append_assoc, pos,
}
use mathlib.Core.List.{map-append}
use network_system_programmi.Shell.Parse.{Argv, cells}
use network_system_programmi.Shell.Scan.{pipe_word, pipe_present}
use network_system_programmi.Shell.Scan.Laws.{pipe_present_lem, pipe_place}
use network_system_programmi.Shell.Pipeline.{
  Os, left_ran, stdin_from_pipe, returned, became, Trace, execvp, left_argv, right_argv, in_middle,
  rest_of_parent, pipe_and_exec,
}
use network_system_programmi.Shell.Pipeline.Laws.{Stops, left_argv_lem, right_argv_lem, drop-length}
use network_system_programmi.Shell.Pipeline.Segments.{
  IsPlain, Segment, before_pipe-Lacks, before_pipe-append, join, join_tail, last_word-Lacks,
  last_word-join, left_vector, pipeline_end, pipeline_events, right_vector, words_of,
  is_closed-left, is_closed-right,
}

module _ (v : Argv) where
  abbrev pub vector : Segment → List Segment → Argv
  vector s r = cells (join s r) ++ none ∷ v

  pub pipe_present-single : (s : Segment) → IsPlain s → pipe_present (vector s []) ≡ some (pos 0)
  unfolding pipe_place
  pipe_present-single s p = rw (
    pipe_present_lem s.head s.args v,
    p.0,
    last_word-Lacks s.head s.args p,
    before_pipe-Lacks (words_of s) p,
  )

  pub pipe_present-join :
      (s t : Segment) (r : List Segment)
      → IsPlain s
      → All IsPlain (t ∷ r)
      → pipe_present (vector s (t ∷ r)) ≡ some (pos (length (words_of s)))
  unfolding pipe_place
  pipe_present-join s t r p h = rw (
    pipe_present_lem s.head (join_tail s (t ∷ r)) v,
    p.0,
    last_word-join s (t ∷ r) p h,
    before_pipe-append (words_of s) (t.head ∷ join_tail t r) p,
  )

  -- The vector with its first pipe sign pulled out.
  vector-split :
      (s t : Segment) (r : List Segment)
      → vector s (t ∷ r) ≡ cells (words_of s) ++ some pipe_word ∷ vector t r
  vector-split s t r = simp (map-append, append_assoc)

  vector-head :
      (t : Segment) (r : List Segment)
      → (rest : Argv) × Stops rest × (vector t r ≡ cells (words_of t) ++ rest)
  vector-head t [] = (none ∷ v, Stops.null v, refl)
  vector-head t (u ∷ r) = (some pipe_word ∷ vector u r, Stops.pipe (vector u r), vector-split t u r)

  left-vector :
      (s t : Segment) (r : List Segment)
      → left_argv (vector s (t ∷ r)) (length (words_of s)) ≡ left_vector s
  left-vector s t r =
      rw (vector-split s t r) (left_argv_lem (words_of s) (some pipe_word ∷ vector t r))

  right-vector :
      (s t : Segment) (r : List Segment)
      → IsPlain t
      → right_argv (vector s (t ∷ r)) (length (words_of s)) ≡ right_vector t
  right-vector s t r p =
      let (rest, stops, e) = vector-head t r in
      rw (vector-split s t r, e) (right_argv_lem (words_of s) (words_of t) (some pipe_word) stops p)

  drop-vector :
      (s t : Segment) (r : List Segment)
      → drop (length (words_of s) + 1) (vector s (t ∷ r)) ≡ vector t r
  drop-vector s t r =
      rw (vector-split s t r) (drop-length (words_of s) (some pipe_word) (vector t r))

  module _ (os : Os) (pipes : (d : ℕ) → os.pipe_ok d ≡ true)
      (forks : (d : ℕ) → os.fork_ok d ≡ true) where
    abbrev Found : Segment → Type 0
    Found s = os.can_exec s.head ≡ true

    execvp-left :
        (s : Segment) → Found s → execvp os (left_vector s) ≡ some (became (left_vector s))
    unfolding execvp
    execvp-left s h = rw (h, is_closed-left s.args)

    execvp-right :
        (s : Segment) (taken : Bool)
        → Found s
        → os.takes_unclosed (right_vector s) ≡ taken
        → execvp os (right_vector s) ≡ (if taken then some (became (right_vector s)) else none)
    unfolding execvp
    execvp-right s taken h e = rw (h, is_closed-right s.args, e)

    execvp-missing : (s : Segment) → os.can_exec s.head ≡ false → execvp os (right_vector s) ≡ none
    unfolding execvp
    execvp-missing s h = rw h

    single :
        (s : Segment) (f d : ℕ)
        → IsPlain s
        → pipe_and_exec os (suc f) d (vector s []) ≡ record { events = []; end = returned }
    unfolding pipe_and_exec
    single s f d p = rw (pipes d, pipe_present-single s p)

    -- The child runs the left side, and the rest of the trace is the recursive call's.
    abbrev after_left : Segment → Segment → Trace → Trace
    after_left s t inner = record {
      events = left_ran (left_vector s) ∷ stdin_from_pipe ∷ inner.events;
      end = rest_of_parent os (left_vector s) (right_vector t) inner.end;
    }

    step :
        (f d : ℕ) (s t : Segment) (r : List Segment)
        → IsPlain s
        → All IsPlain (t ∷ r)
        → Found s
        → pipe_and_exec os (suc f) d (vector s (t ∷ r))
          ≡ after_left s t (pipe_and_exec os f (d + 1) (vector t r))
    unfolding pipe_and_exec in_middle
    step f d s t r p h found = rw (
      pipes d,
      pipe_present-join s t r p h,
      forks d,
      left-vector s t r,
      right-vector s t r h.0,
      drop-vector s t r,
      execvp-left s found,
    )

    end-step :
        (s t : Segment) (r : List Segment)
        → Found s
        → Found t
        → rest_of_parent os (left_vector s) (right_vector t) (pipeline_end os t r)
          ≡ pipeline_end os s (t ∷ r)
    end-step s t [] g h = elim (Bool-cases (os.takes_unclosed (right_vector t))) [
      | inl e ↦ rw (execvp-right t true h e, e)
      | inr e ↦ rw (execvp-right t false h e, execvp-left s g, e)
    ]
    end-step s t (u ∷ r) g h = refl

    step-eq :
        (s t : Segment) (r : List Segment) (inner : Trace)
        → Found s
        → Found t
        → inner ≡ record { events = pipeline_events t r; end = pipeline_end os t r }
        → after_left s t inner
          ≡ record { events = pipeline_events s (t ∷ r); end = pipeline_end os s (t ∷ r) }
    step-eq s t r inner g h e = rw (e, end-step s t r g h)

    -- A pipeline of any length, in which no word is "|", where the system grants every `pipe` and
    -- `fork` and each program is found: `pipe_and_exec` runs each command but the last once, in
    -- order, in a child whose output feeds the next, and then becomes the last, if `execvp` takes
    -- its vector, which no NULL closes within its block, and else the one before it, which has run
    -- already; on a single command it returns without a trace. One unit of fuel for each command is
    -- enough.
    pub pipe_and_exec_lem :
        (r : List Segment) (s : Segment) (f d : ℕ)
        → length r < f
        → All IsPlain (s ∷ r)
        → All Found (s ∷ r)
        → pipe_and_exec os f d (vector s r)
          ≡ record { events = pipeline_events s r; end = pipeline_end os s r }
    pipe_and_exec_lem r s zero d lt p h = absurd (omega arith)
    pipe_and_exec_lem [] s (suc f) d lt p h = single s f d p.0
    pipe_and_exec_lem (t ∷ r) s (suc f) d lt p h =
        step f d s t r p.0 p.1 h.0
        ∙ step-eq s t r _ h.0 h.1.0 (pipe_and_exec_lem r t f (d + 1) (omega arith) p.1 h.1)

    -- If the second of two commands of a pipeline is not found, the process becomes the first one,
    -- which a child has run already.
    pub pipe_and_exec-not_found :
        (s t : Segment) (f d : ℕ)
        → IsPlain s
        → IsPlain t
        → Found s
        → os.can_exec t.head ≡ false
        → pipe_and_exec os (suc (suc f)) d (vector s (t ∷ [])) ≡ record {
          events = left_ran (left_vector s) ∷ stdin_from_pipe ∷ [];
          end = became (left_vector s);
        }
    pipe_and_exec-not_found s t f d p q h missing =
        step (suc f) d s t [] p (q, tt) h
        ∙ rw (single t f (d + 1) q, execvp-missing t missing, execvp-left s h)
