-- ===== src/Examples/Network.antt =====
-- The theorems on the clients and servers of SP_HW11, for a file of two records.
use network_system_programmi.Base.{
  zero, suc, ◌≡◌, refl, some, List, [], ◌∷◌, ◌++◌, codes, map, drop, arith, replicate, All,
  c_string,
}
use network_system_programmi.Dict.Record.{Bytes, Dictrec, record_size, word_of}
use network_system_programmi.Dict.Search.{first_time}
use network_system_programmi.Dict.Server.{serve_requests}
use network_system_programmi.Dict.Client.{Shown}
use network_system_programmi.Dict.Remote.Serve.{meaning, TextsFit, serve_requests_lem}
use network_system_programmi.Dict.Remote.Ask.{told, first_told}
use network_system_programmi.Dict.Remote.Session.{IsWord}
use network_system_programmi.Examples.Dict.{shelf, shelf-IsSorted}

shelf-TextsFit : TextsFit shelf
unfolding c_string
shelf-TextsFit zero hi = omega arith
shelf-TextsFit (suc zero) hi = omega arith
shelf-TextsFit (suc (suc i)) hi = absurd (omega arith)

abbrev blank : Dictrec
blank = replicate record_size 0

abbrev queries : List Bytes
queries = codes "bee" ∷ codes "cat" ∷ []

queries-IsWord : All IsWord queries
queries-IsWord =
    (((refl, (refl, (refl, tt))), omega arith), (((refl, (refl, (refl, tt))), omega arith), tt))

-- A record that holds no NUL where the word ends.
abbrev garbage : Dictrec
garbage = replicate 32 120 ++ 33 ∷ 33 ∷ replicate 478 0

abbrev replies : List Bytes
replies = serve_requests (some shelf) first_time blank queries

abbrev expected : List Shown
expected = first_told shelf (codes "bee") garbage ∷ map (told shelf) (codes "cat" ∷ [])

serve_requests_lem_example :
    serve_requests (some shelf) first_time garbage queries
    ≡ meaning shelf (codes "bee" ++ word_of (drop 3 garbage))
      ∷ map (meaning shelf) (codes "cat" ∷ [])
serve_requests_lem_example =
    serve_requests_lem shelf shelf-IsSorted shelf-TextsFit garbage refl (codes "bee")
      (codes "cat" ∷ []) queries-IsWord
