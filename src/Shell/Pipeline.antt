-- ===== src/Shell/Pipeline.antt =====
-- SP_HW4/part2/pipe_command.c: `pipe_and_exec`, as the sequence of what the calling process does.
-- Its calls of the system are answered by `Os`.
pub mod Laws
pub mod Segments
pub mod Run
use network_system_programmi.Base.{
  ℕ, zero, suc, ◌+◌, ◌-◌, Bool, true, false, Option, none, some, List, [], ◌∷◌, ◌++◌, if◌then◌else◌,
  eq_bytes, set, drop, ◌&&◌, ◌||◌, replicate, ℤ, pos, negsuc,
}
use network_system_programmi.Shell.Words.{Word}
use network_system_programmi.Shell.Parse.{Cell, Argv}
use network_system_programmi.Shell.Scan.{pipe_word, cell_at, pipe_present}

-- A vector from `malloc`; `none` is a cell that was never written.
abbrev pub Raw : Type 0
Raw = List (Option Cell)

-- The answers of `pipe` and `fork` at each depth of the recursion, the programs that `execvp`
-- finds, and the vectors without a closing NULL that it takes: it reads on in what happens to stand
-- in the cells that were never written, which may be a NULL, a word, or no address at all.
pub record Os : Type 0 where
  pub pipe_ok : ℕ → Bool
  pub fork_ok : ℕ → Bool
  pub can_exec : Word → Bool
  pub takes_unclosed : Raw → Bool

pub data Event : Type 0 where
  -- the forked child ran the left command, its output into the pipe, and was waited for
  left_ran : Raw → Event
  -- the forked child failed in `execvp`
  left_failed : Raw → Event
  -- `dup2(pfd[0], 0)`
  stdin_from_pipe : Event
  -- "Missing command next to pipe in commandline."
  missing_command : Event
  -- `freopen` of the standard input and output, in redirect_in.c and redirect_out.c
  stdin_from : Cell → Event
  stdout_into : Cell → Event

-- How a function ends: it returns, or its process becomes another program, exits, or crashes.
pub data End : Type 0 where
  returned exited crashed out_of_fuel : End
  became : Raw → End

pub record Trace : Type 0 where
  pub events : List Event
  pub end : End

abbrev pub after : List Event → Trace → Trace
after es t = record { events = es ++ t.events; end = t.end }

abbrev pub just : End → Trace
just e = record { events = []; end = e }

-- Is there a NULL behind cells that were all written?
abbrev pub is_closed : Raw → Bool
is_closed [] = false
is_closed (none ∷ v) = false
is_closed (some none ∷ v) = true
is_closed (some (some w) ∷ v) = is_closed v

-- `execvp(v[0], v)`: it ends the process, or fails and returns.
unfoldable pub execvp : Os → Raw → Option End
execvp os [] = some crashed
execvp os (none ∷ v) = some crashed
execvp os (some none ∷ v) = none
execvp os (some (some w) ∷ v) =
    if os.can_exec w && (is_closed v || os.takes_unclosed (some (some w) ∷ v))
    then some (became (some (some w) ∷ v))
    else none

-- `n` rounds of `to[j] = malloc(..); strcpy(to[j], v[i]); i++, j++`.
unfoldable pub copy_words : ℕ → ℕ → ℕ → Argv → Raw → Raw
copy_words zero i j v to = to
copy_words (suc n) i j v to = copy_words n (i + 1) (j + 1) v (set to j (some (cell_at v i)))

-- `while (myArgv[i] != NULL && strcmp(myArgv[i], "|")) i++;`: the rounds, from the start of `v`.
unfoldable pub segment_length : Argv → ℕ
segment_length [] = 0
segment_length (none ∷ v) = 0
segment_length (some w ∷ v) =
    let rest = suc (segment_length v) in if eq_bytes w pipe_word then 0 else rest

-- `left_argv`, for a "|" at index `p`.
unfoldable pub left_argv : Argv → ℕ → Raw
left_argv v p = set (copy_words p 0 0 v (replicate (p + 1) none)) p (some none)

-- `right_argv`: `end - p` cells, of which `j = end - p - 1` are filled; NULL is written at `j + 1`,
-- past the block; what that does to the heap is not modelled.
unfoldable pub right_argv : Argv → ℕ → Raw
right_argv v p =
    let j = segment_length (drop (p + 1) v) in
    set (copy_words j (p + 1) 0 v (replicate (j + 1) none)) (j + 1) (some none)

abbrev pub end_or : Option End → End → End
end_or none e = e
end_or (some e) _ = e

abbrev left_event : Option End → Raw → Event
left_event none v = left_failed v
left_event (some e) v = left_ran v

-- After the recursive call: if it returned, `execvp` of the right side, and if that fails the code of
-- `case 0`, `execvp` of the left side; then `exit(errno)`.
abbrev pub rest_of_parent : Os → Raw → Raw → End → End
rest_of_parent os left right returned = end_or (execvp os right) (end_or (execvp os left) exited)
rest_of_parent os left right exited = exited
rest_of_parent os left right crashed = crashed
rest_of_parent os left right out_of_fuel = out_of_fuel
rest_of_parent os left right (became v) = became v

-- `default`, with the trace of the recursive call.
unfoldable pub in_middle : Os → ℕ → Argv → ℕ → Trace → Trace
in_middle os depth v p inner =
    if os.fork_ok depth
    then record {
      events =
          left_event (execvp os (left_argv v p)) (left_argv v p) ∷ stdin_from_pipe ∷ inner.events;
      end = rest_of_parent os (left_argv v p) (right_argv v p) inner.end;
    }
    else just exited

-- The `switch` on `pipe_present`.
abbrev pub by_place : Option ℤ → (ℕ → Trace) → Trace
by_place none middle = just crashed
by_place (some (negsuc n)) middle = record { events = missing_command ∷ []; end = exited }
by_place (some (pos zero)) middle = just returned
by_place (some (pos (suc i))) middle = middle (suc i)

-- A call for each unit of fuel.
unfoldable pub pipe_and_exec : Os → ℕ → ℕ → Argv → Trace
pipe_and_exec os zero depth v = just out_of_fuel
pipe_and_exec os (suc f) depth v =
    let switch =
      by_place (pipe_present v)
        (λ p. in_middle os depth v p (pipe_and_exec os f (depth + 1) (drop (p + 1) v))) in
    if os.pipe_ok depth then switch else just exited
