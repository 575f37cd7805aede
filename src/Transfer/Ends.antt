-- ===== src/Transfer/Ends.antt =====
-- How many turns the transfer of SP_HW9/54 can take.
use network_system_programmi.Base.{
  IfSome-some, ap, IfSome, ℕ, zero, suc, ◌+◌, ◌*◌, ◌≤◌, ◌<◌, ◌≡◌, ◌≢◌, ◌⊎◌, inl, inr, length, ℤ,
  pos, negsuc, arith, sym,
}
use network_system_programmi.Transfer.State.{
  Bytes, WriterAt, w_reserve, w_read, w_release, w_check, w_last, w_remove, w_ended, w_failed,
  ReaderAt, Counts, r_reserve, r_look, r_write, r_release, r_last, r_ended, r_failed, State,
  completes,
}
use network_system_programmi.Transfer.Turns.{
  writer_turn, reader_turn, start, Step, writer_step, reader_step, Reach, first, later,
}
use network_system_programmi.Transfer.Reached.{Moves, Reach-Moves, Reach-output}
use network_system_programmi.Transfer.Control.{state}
use network_system_programmi.Transfer.Measure.{Less, Step-Less, measure}

-- A run, with the number of its turns that changed something: all but the waits and those calls
-- of `semop` that a signal interrupted and `reserveSem` makes again.
pub data Run (all : Bytes) : ℕ → State → Type 0 where
  begins : Run all 0 (start all)
  repeats : {n : ℕ} {s t : State} → Run all n s → Step s t → s ≡ t → Run all n t
  moves : {n : ℕ} {s t : State} → Run all n s → Step s t → s ≢ t → Run all (suc n) t

Less-moves : {s t : State} → Less s t → s ≢ t → measure t < measure s
Less-moves (inl e) h = absurd (h e)
Less-moves (inr l) h = l

Run-measure : {all : Bytes} {n : ℕ} {s : State} → Run all n s → n + measure s ≤ 8 * length all + 11
Run-measure begins = omega arith
Run-measure (repeats r e same) = rw (sym same) (Run-measure r)
Run-measure (moves r e other) = omega (arith, Run-measure r, Less-moves (Step-Less e) other)

Run-Reach : {all : Bytes} {n : ℕ} {s : State} → Run all n s → Reach all s
Run-Reach begins = first
Run-Reach (repeats r e same) = later (Run-Reach r) e
Run-Reach (moves r e other) = later (Run-Reach r) e

-- A call that completes brings its process to another place.
writer_moves :
    (w : WriterAt) (ws rs : ℕ) (r : ReaderAt) (c : ℤ) (buf input output : Bytes)
    (sent received : Counts)
    → IfSome
        (λ t. w ≢ t.writer)
        (writer_turn w (completes 0) (state ws rs w r c buf input output sent received))
unfolding writer_turn
writer_moves w_reserve zero rs r c b x y s t = tt
writer_moves w_reserve (suc v) rs r c b x y s t = λ e. cc
writer_moves w_read ws rs r c b x y s t = λ e. cc
writer_moves w_release ws rs r c b x y s t = λ e. cc
writer_moves w_check ws rs r (pos zero) b x y s t = λ e. cc
writer_moves w_check ws rs r (pos (suc n)) b x y s t = λ e. cc
writer_moves w_check ws rs r (negsuc n) b x y s t = λ e. cc
writer_moves w_last zero rs r c b x y s t = tt
writer_moves w_last (suc v) rs r c b x y s t = λ e. cc
writer_moves w_remove ws rs r c b x y s t = λ e. cc
writer_moves w_ended ws rs r c b x y s t = tt
writer_moves w_failed ws rs r c b x y s t = tt

reader_moves :
    (r : ReaderAt) (ws rs : ℕ) (w : WriterAt) (c : ℤ) (buf input output : Bytes)
    (sent received : Counts)
    → IfSome
        (λ t. r ≢ t.reader)
        (reader_turn r (completes 0) (state ws rs w r c buf input output sent received))
unfolding reader_turn
reader_moves r_reserve ws zero w c b x y s t = tt
reader_moves r_reserve ws (suc v) w c b x y s t = λ e. cc
reader_moves r_look ws rs w (pos zero) b x y s t = λ e. cc
reader_moves r_look ws rs w (pos (suc n)) b x y s t = λ e. cc
reader_moves r_look ws rs w (negsuc n) b x y s t = λ e. cc
reader_moves r_write ws rs w (pos n) b x y s t = λ e. cc
reader_moves r_write ws rs w (negsuc n) b x y s t = λ e. cc
reader_moves r_release ws rs w c b x y s t = λ e. cc
reader_moves r_last ws rs w c b x y s t = λ e. cc
reader_moves r_ended ws rs w c b x y s t = tt
reader_moves r_failed ws rs w c b x y s t = tt

Moves-changes : (s : State) → Moves s → (t : State) × (Step s t × (s ≢ t))
Moves-changes s (inl (t, e)) =
    let other : s.writer ≢ t.writer =
      IfSome-some (λ u. s.writer ≢ u.writer) (writer_turn s.writer (completes 0) s)
        (writer_moves s.writer s.sems.write_sem s.sems.read_sem s.reader s.shm.cnt s.shm.buf s.input
          s.output s.sent s.received)
        e in
    (t, (writer_step (completes 0) e, λ q. other (ap (λ u. u.writer) q)))
Moves-changes s (inr (t, e)) =
    let other : s.reader ≢ t.reader =
      IfSome-some (λ u. s.reader ≢ u.reader) (reader_turn s.reader (completes 0) s)
        (reader_moves s.reader s.sems.write_sem s.sems.read_sem s.writer s.shm.cnt s.shm.buf s.input
          s.output s.sent s.received)
        e in
    (t, (reader_step (completes 0) e, λ q. other (ap (λ u. u.reader) q)))

-- In a run over some number of bytes, whatever the order of the turns and whatever calls are
-- interrupted or fail, at most 11 turns and 8 more for each byte change something; and as long as
-- no process has failed, there is a turn that changes something, or both have ended and the reader
-- has written the input, whole and in order.
pub Run-bounded :
    (all : Bytes) (n : ℕ) (s : State)
    → Run all n s
    → (n ≤ 8 * length all + 11)
      × (s.writer ≢ w_failed
          → s.reader ≢ r_failed
          → (((s.writer ≡ w_ended) × (s.reader ≡ r_ended)) × (s.output ≡ all))
            ⊎ ((t : State) × (Step s t × (s ≢ t))))
Run-bounded all n s r = (
  omega (arith, Run-measure r),
  λ w_ok r_ok. elim (Reach-Moves all s (Run-Reach r) w_ok r_ok) [
    | inl both ↦ inl (both, Reach-output all s (Run-Reach r) (inl both.1))
    | inr m ↦ inr (Moves-changes s m)
  ],
)
