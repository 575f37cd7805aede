-- ===== src/Transfer/Counts.antt =====
-- The counts `bytes` and `xfrs` that the two processes of the transfer of SP_HW9/54 print at the end.
use network_system_programmi.Base.{
  IfSome, ℕ, ◌+◌, ◌*◌, ◌%◌, ◌≡◌, refl, sym, ap, ◌∙◌, inl, length, ℤ, arith,
}
use network_system_programmi.Transfer.State.{Bytes, w_ended, r_ended, State}
use network_system_programmi.Transfer.Turns.{
  writer_turn, reader_turn, Step, writer_step, reader_step, Reach, first, later,
}
use network_system_programmi.Transfer.Control.{Mode, Control, over, handed, left, ended}
use network_system_programmi.Transfer.Reached.{Reach-Inv, Reach-exclusive, Reach-output}
use network_system_programmi.Transfer.Counted.{Counted, Even, Received, Sent}
use network_system_programmi.Transfer.Counting.{reader_counts, writer_counts}

module _ {all : Bytes} where
  Counted-Step :
      {s t : State} → Reach all s → Counted (length all) s → Step s t → Counted (length all) t
  Counted-Step {s = s} q h (writer_step a e) =
      let k : IfSome (Counted (length all)) (writer_turn s.writer a s) =
        writer_counts (length all) s.writer a s.sems.write_sem s.sems.read_sem s.reader s.shm.cnt
          s.shm.buf s.input s.output s.sent s.received (Reach-exclusive all s q) h in
      rw e at k
  Counted-Step {s = s} q h (reader_step a e) =
      let i = Reach-Inv q in
      let k : IfSome (Counted (length all)) (reader_turn s.reader a s) =
        reader_counts (length all) s.reader a s.sems.write_sem s.sems.read_sem s.writer s.shm.cnt
          s.shm.buf s.input s.output s.sent s.received i.mode i.control i.size h in
      rw e at k

  Reach-Counted : {s : State} → Reach all s → Counted (length all) s
  Reach-Counted first = (
    omega arith,
    (
      record { counted = 0; count = refl; all_of = omega arith },
      (
        refl,
        λ wo ro. record {
          sent_by = 0;
          got_by = 0;
          sent_count = refl;
          got_count = refl;
          same = refl;
        },
      ),
    ),
  )
  Reach-Counted (later r e) = Counted-Step r (Reach-Counted r) e

ended-sem : {ws rs : ℕ} {c : ℤ} {m : Mode} → Control ws rs w_ended r_ended c m → rs ≡ 0
ended-sem (over w i) = elim w [ ]
ended-sem (handed w i) = elim w [ ]
ended-sem (left w) = refl
ended-sem ended = refl

Even-ended : {k p m sent received : ℕ} → p ≡ 0 → m ≡ 0 → Even k p m sent received → received ≡ sent
Even-ended {k = k} none_p none_m h =
    let g = h.same ∙ ap (λ t. h.got_by + k * t) none_m in
    omega (arith, h.sent_count, h.got_count, g)

-- In every state that the two processes can reach in which both have ended: both have counted the
-- same number of transfers and the same number of bytes, which is the length of the writer's input,
-- modulo 2 ^ 32.
pub Reach-counts :
    (all : Bytes) (s : State)
    → Reach all s
    → s.writer ≡ w_ended
    → s.reader ≡ r_ended
    → (s.received.xfrs ≡ s.sent.xfrs)
      × ((s.received.bytes ≡ s.sent.bytes) × (s.sent.bytes ≡ length all % 4294967296))
Reach-counts all s q w_end r_end =
    let i = Reach-Inv q in
    let h = Reach-Counted q in
    let sent : Sent (length all) s.writer s.shm.cnt s.input s.sent.bytes = h.1.0 in
    let sent_all : s.sent.bytes ≡ length all % 4294967296 = rw w_end at sent in
    let received : Received s.reader s.shm.cnt (length s.output) s.received.bytes = h.1.1.0 in
    let received_all : s.received.bytes ≡ length s.output % 4294967296 = rw r_end at received in
    let control : Control s.sems.write_sem s.sems.read_sem w_ended r_ended s.shm.cnt i.mode =
      rw (w_end, r_end) at i.control in
    let even = h.1.1.1 (λ e. cc) (λ e. cc) in
    (
      Even-ended (rw w_end refl) (rw (w_end, r_end) (omega (arith, ended-sem control))) even,
      (
        received_all
            ∙ ap (λ t. length t % 4294967296) (Reach-output all s q (inl r_end))
            ∙ sym sent_all,
        sent_all,
      ),
    )
