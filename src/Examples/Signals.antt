-- ===== src/Examples/Signals.antt =====
-- The theorems on the signal functions of System V.
use network_system_programmi.Base.{◌≡◌, refl, true, false, List, [], ◌∷◌, arith, update}
use network_system_programmi.Signals.{sig_dfl, State, is_signal, can_change, my_sighold, fresh}
use network_system_programmi.Signals.Release.{hold, relse, run_calls, run_calls-held}
use network_system_programmi.Signals.SystemV.{
  SysV, set_function, ignore, Models, promise_calls, run_calls-Models,
}
use network_system_programmi.Signals.SystemV as Promised

abbrev calls : List Promised.Call
calls = Promised.hold 2 ∷ set_function 10 7 ∷ ignore 13 ∷ []

abbrev nothing : SysV
nothing = record { held = λ s. false; disposition = λ s. sig_dfl }

fresh-Models : Models fresh nothing
fresh-Models = record {
  held = λ s. refl;
  disposition = λ s. refl;
  mask = λ s h. absurd (ground (arith, h));
}

run_calls-Models_example : Models (Promised.run_calls calls fresh) (promise_calls calls nothing)
unfolding can_change is_signal update
run_calls-Models_example = run_calls-Models calls fresh nothing (tt, (refl, (tt, tt))) fresh-Models

run_calls-held_example : (run_calls 2 (hold ∷ relse ∷ relse ∷ []) fresh).process.blocked 2 ≡ true
unfolding can_change is_signal
run_calls-held_example = run_calls-held 2 (relse ∷ relse ∷ []) fresh refl

-- SIGINT and SIGQUIT are held.
abbrev both_held : State
both_held = (my_sighold 3 (my_sighold 2 fresh).state).state
