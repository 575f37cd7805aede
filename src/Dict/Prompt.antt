-- ===== src/Dict/Prompt.antt =====
-- SP_HW4/part3/main.c: the prompt around `lookup` of lookup1.c. `gets`, the `switch` and what it prints
-- are those of the clients of SP_HW11.
pub mod Laws
use network_system_programmi.Base.{Option, none, some, List, [], ◌∷◌}
use network_system_programmi.Dict.Record.{Bytes, Dictrec}
use network_system_programmi.Dict.Client.{answered, Shown, dies, show, gets_word, goes_on}
use network_system_programmi.Dict.Linear.{Statics, lookup}

-- `while(1)`, over the words that are typed in; a `lookup` without a reply is a crash. `file` is what
-- `fopen` of `argv[1]` opens. The record is not cleared between words.
unfoldable pub prompt : Statics → (file : Option Bytes) → Dictrec → List Bytes → List Shown
prompt st file tryit [] = []
prompt st file tryit (w ∷ ws) = elim (lookup st file (gets_word w tryit)) [
  | none ↦ dies ∷ []
  | some r ↦
      goes_on (show (answered r.result.answer r.result.sought))
        (prompt r.statics file r.result.sought ws)
]
