-- ===== src/Examples/Transfer.antt =====
-- The theorems on the transfer of SP_HW9/54 at the end of a run over one byte.
use network_system_programmi.Base.{
  ℕ, suc, ◌+◌, ◌*◌, ◌%◌, ◌≤◌, ◌≡◌, ◌≢◌, ◌⊎◌, ap, length, inl, refl, Bool, true, false, Option, none,
  some, List, [], ◌∷◌,
}
use network_system_programmi.Transfer.State.{
  Bytes, State, completes, w_ended, r_ended, w_failed, r_failed,
}
use network_system_programmi.Transfer.Turns.{
  writer_turn, reader_turn, start, Step, Reach, first, later, writer_step, reader_step,
}
use network_system_programmi.Transfer.Reached.{
  writer_holds, reader_holds, Reach-exclusive, Reach-output, Moves, Reach-Moves,
}
use network_system_programmi.Transfer.Ends.{Run, begins, moves, Run-bounded}
use network_system_programmi.Transfer.Counts.{Reach-counts}

abbrev or_stays : State → Option State → State
or_stays s none = s
or_stays s (some t) = t

-- Turns of the writer (`true`) and of the reader whose calls complete; a process that waits stays.
abbrev played : List Bool → State → State
played [] s = s
played (true ∷ ms) s = played ms (or_stays s (writer_turn s.writer (completes 0) s))
played (false ∷ ms) s = played ms (or_stays s (reader_turn s.reader (completes 0) s))

Reach-writer :
    {all : Bytes} (s : State) (o : Option State)
    → Reach all s
    → writer_turn s.writer (completes 0) s ≡ o
    → Reach all (or_stays s o)
Reach-writer s none r e = r
Reach-writer s (some t) r e = later r (writer_step (completes 0) e)

Reach-reader :
    {all : Bytes} (s : State) (o : Option State)
    → Reach all s
    → reader_turn s.reader (completes 0) s ≡ o
    → Reach all (or_stays s o)
Reach-reader s none r e = r
Reach-reader s (some t) r e = later r (reader_step (completes 0) e)

Reach-played : {all : Bytes} (ms : List Bool) (s : State) → Reach all s → Reach all (played ms s)
Reach-played [] s r = r
Reach-played (true ∷ ms) s r = Reach-played ms _ (Reach-writer s _ r refl)
Reach-played (false ∷ ms) s r = Reach-played ms _ (Reach-reader s _ r refl)

-- A chunk of one byte, then the end of the input.
abbrev turns : List Bool
turns =
    true ∷ true ∷ true ∷ true ∷ false ∷ false ∷ false ∷ false ∷ true ∷ true ∷ true ∷ true ∷ false
    ∷ false ∷ false ∷ []

abbrev one_byte : Bytes
one_byte = 5 ∷ []

abbrev final : State
final = played turns (start (5 ∷ []))

final-Reach : Reach (5 ∷ []) final
final-Reach = Reach-played turns (start (5 ∷ [])) first

Reach-output_example : final.output ≡ 5 ∷ []
unfolding writer_turn reader_turn
Reach-output_example = Reach-output (5 ∷ []) final final-Reach (inl refl)

Reach-exclusive_example :
    final.sems.write_sem
      + final.sems.read_sem
      + writer_holds final.writer
      + reader_holds final.reader
    ≤ 1
Reach-exclusive_example = Reach-exclusive (5 ∷ []) final final-Reach

Reach-Moves_example : ((final.writer ≡ w_ended) × (final.reader ≡ r_ended)) ⊎ Moves final
unfolding writer_turn reader_turn
Reach-Moves_example = Reach-Moves (5 ∷ []) final final-Reach (λ e. cc) (λ e. cc)

-- The writer waits for the reader once more, and removes the semaphores.
abbrev both_ended : State
both_ended = played (true ∷ true ∷ []) final

both_ended-Reach : Reach (5 ∷ []) both_ended
both_ended-Reach = Reach-played (true ∷ true ∷ []) final final-Reach

Reach-counts_example :
    (both_ended.received.xfrs ≡ both_ended.sent.xfrs)
    × ((both_ended.received.bytes ≡ both_ended.sent.bytes)
        × (both_ended.sent.bytes ≡ length one_byte % 4294967296))
unfolding writer_turn reader_turn
Reach-counts_example = Reach-counts one_byte both_ended both_ended-Reach refl refl

Run-writer :
    {all : Bytes} {n : ℕ} {s : State} (t : State)
    → Run all n s
    → writer_turn s.writer (completes 0) s ≡ some t
    → s.writer ≢ t.writer
    → Run all (suc n) t
Run-writer t r e h = moves r (writer_step (completes 0) e) (λ q. h (ap (λ u. u.writer) q))

abbrev after_round : State
after_round = played (true ∷ true ∷ true ∷ true ∷ []) (start (5 ∷ []))

-- A round of the writer.
four_turns : Run (5 ∷ []) 4 after_round
unfolding writer_turn
four_turns =
    Run-writer _
      (Run-writer _ (Run-writer _ (Run-writer _ begins refl (λ q. cc)) refl (λ q. cc)) refl
        (λ q. cc))
      refl (λ q. cc)

Run-bounded_example :
    (4 ≤ 8 * length one_byte + 11)
    × (after_round.writer ≢ w_failed
        → after_round.reader ≢ r_failed
        → (((after_round.writer ≡ w_ended) × (after_round.reader ≡ r_ended))
            × (after_round.output ≡ one_byte))
          ⊎ ((t : State) × (Step after_round t × (after_round ≢ t))))
Run-bounded_example = Run-bounded one_byte 4 after_round four_turns
