-- ===== src/Examples/Ring.antt =====
-- The theorems on the messages of SP_HW10, with a ring of two slots.
use network_system_programmi.Base.{
  ◌+◌, ◌*◌, ◌≡◌, false, replicate, arith, if◌then◌else◌, decimal, pos,
}
use network_system_programmi.Messages.{totals, program}
use network_system_programmi.Messages.Ring.{Short, up, program_lem}

three-Short : Short 3 0
unfolding decimal
three-Short = (omega arith, (omega arith, (omega arith, tt)))

program_lem_example :
    program up false 3 2 2 (λ ss i. ss) (replicate 160 0)
    ≡ totals (pos (3 * 2)) (pos (2 * ((if false then 1 else 0) + 2)))
program_lem_example =
    program_lem 1 2 2 false (replicate 160 0) (omega arith) three-Short (omega arith)
