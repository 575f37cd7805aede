-- ===== src/Dict/Remote/Session.antt =====
-- A whole session: the client of main.c, over a connection, against a server of SP_HW11.
use network_system_programmi.Base.{◌<◌, length, NoNul}
use network_system_programmi.Dict.Record.{Bytes, word_size}
use network_system_programmi.Dict.Search.Laws.{IsSorted, records}
use network_system_programmi.Dict.Remote.Serve.{meaning, TextsFit}

-- A line that fits the word of a record with its NUL.
abbrev pub IsWord : Bytes → Type 0
IsWord w = NoNul w × (length w < word_size)

module _ (file : Bytes) (sorted : IsSorted file (records file)) (fit : TextsFit file) where
  -- A query and an answer of no bytes would not be seen on a stream.
  abbrev pub Answered : Bytes → Type 0
  Answered w = IsWord w × ((0 < length w) × (0 < length (meaning file w)))
