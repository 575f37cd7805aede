-- ===== src/Examples/Notify.antt =====
-- The theorem on the events of files, with two events in one read.
use network_system_programmi.Base.{true, ◌≡◌, refl, [], ◌∷◌, ◌++◌, arith, codes}
use network_system_programmi.Notify.{Bytes, round}
use network_system_programmi.Notify.Events.{all_watched, event_shown, encode, round-encode}

-- "a" is made, and "b" is deleted.
abbrev second : Bytes
second = encode 1 512 0 14 (codes "b")

round-encode_example :
    round (all_watched (1 ∷ [])) (encode 1 256 0 14 (codes "a") ++ second)
    ≡ record { shown = event_shown (1 ∷ []) 1 256 0 (codes "a"); goes_on = true }
round-encode_example =
    round-encode (1 ∷ []) 1 256 0 14 (codes "a") second (omega arith) (omega arith) (omega arith)
      (omega arith) (refl, tt) (omega arith)
