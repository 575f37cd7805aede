-- ===== src/Examples/Speed.antt =====
-- The theorem on the signals that a child and its parent send each other, after one round.
use network_system_programmi.Base.{◌*◌, ◌<◌, ◌≡◌, ◌⊎◌, refl, false, arith}
use network_system_programmi.Signals.Speed.{
  State, exited, child_turn, parent_turn, next_round, Step, child_step, parent_step, Reach, first,
  later, AllTaken, Reach-ends,
}

abbrev final : State
final = record {
  child = record { at = exited; scnt = 1; pending = false };
  parent = record { at = exited; scnt = 1; pending = false };
}

-- The child signals, the parent takes it and signals, and the child takes that.
final-Reach : Reach 1 4 final
unfolding child_turn parent_turn next_round
final-Reach =
    later (later (later (later first (child_step refl)) (parent_step refl)) (parent_step refl))
      (child_step refl)

Reach-ends_example :
    (AllTaken 1 final × (4 ≡ 4 * 1)) ⊎ (((t : State) × Step 1 final t) × (4 < 4 * 1))
Reach-ends_example = Reach-ends 1 4 final (omega arith) final-Reach
