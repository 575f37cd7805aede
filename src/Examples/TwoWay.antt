-- ===== src/Examples/TwoWay.antt =====
-- The theorem on the two pipes.
use network_system_programmi.Base.{◌≡◌, refl, map, arith, codes}
use network_system_programmi.TwoWay.{toupper, round}
use network_system_programmi.TwoWay.Laws.{round_lem}

round_lem_example : round (codes "ab 1\n") ≡ map toupper (codes "ab 1\n")
round_lem_example =
    round_lem (codes "ab 1\n") (refl, (refl, (refl, (refl, (refl, tt))))) (omega arith)
