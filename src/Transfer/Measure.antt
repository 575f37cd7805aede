-- ===== src/Transfer/Measure.antt =====
-- A measure that every turn of the transfer of SP_HW9/54 lowers that changes something.
use network_system_programmi.Base.{
  IfSome, ℕ, zero, suc, ◌+◌, ◌*◌, ◌≤◌, ◌<◌, ◌≡◌, ◌⊎◌, inl, inr, refl, [], ◌∷◌, take, drop, length,
  ℤ, pos, negsuc, min, arith, length-drop,
}
use network_system_programmi.Transfer.State.{
  Bytes, buf_size, WriterAt, w_reserve, w_read, w_release, w_check, w_last, w_remove, w_ended,
  w_failed, ReaderAt, Counts, r_reserve, r_look, r_write, r_release, r_last, r_ended, r_failed,
  State, Answer, completes, interrupted, fails,
}
use network_system_programmi.Transfer.Turns.{
  writer_turn, reader_turn, Step, writer_step, reader_step,
}
use network_system_programmi.Transfer.Control.{state}

-- The turns of the writer in its round, with those of the reader that it sets off.
abbrev pub writer_turns : WriterAt → ℕ
writer_turns w_release = 8
writer_turns w_check = 3
writer_turns w_reserve = 2
writer_turns w_last = 2
writer_turns w_read = 1
writer_turns w_remove = 1
writer_turns w_ended = 0
writer_turns w_failed = 0

abbrev pub reader_turns : ReaderAt → ℕ
reader_turns r_look = 4
reader_turns r_write = 3
reader_turns r_release = 2
reader_turns r_reserve = 1
reader_turns r_last = 1
reader_turns r_ended = 0
reader_turns r_failed = 0

-- 1 unless the buffer is the empty one at the end of the input.
abbrev pub chunk : ℤ → ℕ
chunk (pos zero) = 0
chunk (pos (suc n)) = 1
chunk (negsuc n) = 1

-- 1 while the writer has a round to come that may find the end of the input.
abbrev pub rounds : WriterAt → ℤ → ℕ
rounds w_reserve c = 1
rounds w_read c = 1
rounds w_release c = chunk c
rounds w_check c = chunk c
rounds w_last c = 0
rounds w_remove c = 0
rounds w_ended c = 0
rounds w_failed c = 0

abbrev pub measure : State → ℕ
measure s =
    8 * (length s.input + rounds s.writer s.shm.cnt)
    + writer_turns s.writer
    + reader_turns s.reader
    + 4 * s.sems.read_sem

abbrev pub Less : State → State → Type 0
Less s t = (s ≡ t) ⊎ (measure t < measure s)

pub read-less :
    (n : ℕ) (input : Bytes)
    → 0 < n
    → length (drop n input) + chunk (pos (length (take n input))) ≤ length input
read-less zero input lo = elim lo [ ]
read-less (suc n) [] lo = omega arith
read-less (suc n) (b ∷ input) lo = omega (arith, length-drop n input)

pub writer_turn-Less :
    (w : WriterAt) (a : Answer) (ws rs : ℕ) (r : ReaderAt) (c : ℤ) (buf input output : Bytes)
    (sent received : Counts)
    → IfSome
        (Less (state ws rs w r c buf input output sent received))
        (writer_turn w a (state ws rs w r c buf input output sent received))
unfolding writer_turn
writer_turn-Less w_reserve (completes k) zero rs r c b x y s t = tt
writer_turn-Less w_reserve (completes k) (suc v) rs r c b x y s t = inr (omega arith)
writer_turn-Less w_reserve interrupted ws rs r c b x y s t = inl refl
writer_turn-Less w_reserve (fails k) ws rs r c b x y s t = inr (omega arith)
writer_turn-Less w_read (completes k) ws rs r c b x y s t =
    inr (omega (arith, read-less (min (k + 1) buf_size) x (omega arith)))
writer_turn-Less w_read interrupted ws rs r c b x y s t = inr (omega arith)
writer_turn-Less w_read (fails k) ws rs r c b x y s t = inr (omega arith)
writer_turn-Less w_release (completes k) ws rs r c b x y s t = inr (omega arith)
writer_turn-Less w_release interrupted ws rs r c b x y s t = inr (omega arith)
writer_turn-Less w_release (fails k) ws rs r c b x y s t = inr (omega arith)
writer_turn-Less w_check a ws rs r (pos zero) b x y s t = inr (omega arith)
writer_turn-Less w_check a ws rs r (pos (suc n)) b x y s t = inr (omega arith)
writer_turn-Less w_check a ws rs r (negsuc n) b x y s t = inr (omega arith)
writer_turn-Less w_last (completes k) zero rs r c b x y s t = tt
writer_turn-Less w_last (completes k) (suc v) rs r c b x y s t = inr (omega arith)
writer_turn-Less w_last interrupted ws rs r c b x y s t = inl refl
writer_turn-Less w_last (fails k) ws rs r c b x y s t = inr (omega arith)
writer_turn-Less w_remove (completes k) ws rs r c b x y s t = inr (omega arith)
writer_turn-Less w_remove interrupted ws rs r c b x y s t = inr (omega arith)
writer_turn-Less w_remove (fails k) ws rs r c b x y s t = inr (omega arith)
writer_turn-Less w_ended a ws rs r c b x y s t = tt
writer_turn-Less w_failed a ws rs r c b x y s t = tt

pub reader_turn-Less :
    (r : ReaderAt) (a : Answer) (ws rs : ℕ) (w : WriterAt) (c : ℤ) (buf input output : Bytes)
    (sent received : Counts)
    → IfSome
        (Less (state ws rs w r c buf input output sent received))
        (reader_turn r a (state ws rs w r c buf input output sent received))
unfolding reader_turn
reader_turn-Less r_reserve (completes k) ws zero w c b x y s t = tt
reader_turn-Less r_reserve (completes k) ws (suc v) w c b x y s t = inr (omega arith)
reader_turn-Less r_reserve interrupted ws rs w c b x y s t = inl refl
reader_turn-Less r_reserve (fails k) ws rs w c b x y s t = inr (omega arith)
reader_turn-Less r_look a ws rs w (pos zero) b x y s t = inr (omega arith)
reader_turn-Less r_look a ws rs w (pos (suc n)) b x y s t = inr (omega arith)
reader_turn-Less r_look a ws rs w (negsuc n) b x y s t = inr (omega arith)
reader_turn-Less r_write (completes k) ws rs w (pos n) b x y s t = inr (omega arith)
reader_turn-Less r_write interrupted ws rs w (pos n) b x y s t = inr (omega arith)
reader_turn-Less r_write (fails k) ws rs w (pos n) b x y s t = inr (omega arith)
reader_turn-Less r_write a ws rs w (negsuc n) b x y s t = inr (omega arith)
reader_turn-Less r_release (completes k) ws rs w c b x y s t = inr (omega arith)
reader_turn-Less r_release interrupted ws rs w c b x y s t = inr (omega arith)
reader_turn-Less r_release (fails k) ws rs w c b x y s t = inr (omega arith)
reader_turn-Less r_last (completes k) ws rs w c b x y s t = inr (omega arith)
reader_turn-Less r_last interrupted ws rs w c b x y s t = inr (omega arith)
reader_turn-Less r_last (fails k) ws rs w c b x y s t = inr (omega arith)
reader_turn-Less r_ended a ws rs w c b x y s t = tt
reader_turn-Less r_failed a ws rs w c b x y s t = tt

pub Step-Less : {s t : State} → Step s t → Less s t
Step-Less {s = s} (writer_step a e) =
    let k : IfSome (Less s) (writer_turn s.writer a s) =
      writer_turn-Less s.writer a s.sems.write_sem s.sems.read_sem s.reader s.shm.cnt s.shm.buf
        s.input s.output s.sent s.received in
    rw e at k
Step-Less {s = s} (reader_step a e) =
    let k : IfSome (Less s) (reader_turn s.reader a s) =
      reader_turn-Less s.reader a s.sems.write_sem s.sems.read_sem s.writer s.shm.cnt s.shm.buf
        s.input s.output s.sent s.received in
    rw e at k
