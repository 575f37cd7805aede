-- ===== src/Dict/Server.antt =====
-- The servers of SP_HW11: part1/usock_server.c and part2/isock_server.c, which fork a child for each
-- connection, and part3/udp_server.c, one process for all datagrams. All three call lookup5.c.
-- Each `recv` gives one message of a client; what the network does to them is not modelled.
use network_system_programmi.Base.{
  ℕ, Bool, Option, none, some, List, [], ◌∷◌, if◌then◌else◌, ◌==◌, take, write_at, replicate, codes,
}
use network_system_programmi.Dict.Record.{
  Bytes, Dictrec, word_size, text_of, strcpy_text, found, not_found, unavail,
}
use network_system_programmi.Dict.Search
use network_system_programmi.Dict.Search.{Statics, Reply}

abbrev pub no_entry : Bytes
no_entry = codes "XXXX"

-- `recv(cd, tryit.word, sizeof(tryit.word), 0)`
abbrev pub receive_word : Bytes → Dictrec → Dictrec
receive_word msg mem = write_at 0 (take word_size msg) mem

-- `memset(tryit.word, 0, sizeof(tryit.word))`
abbrev pub clear_word : Dictrec → Dictrec
clear_word mem = write_at 0 (replicate word_size 0) mem

-- The process after one request: the record, the static variables of `lookup`, and the reply sent.
pub record Served : Type 0 where
  pub tryit : Dictrec
  pub statics : Statics
  pub reply : Bytes

abbrev respond : Reply → Option Served
respond r = elim r.answer [
  | found ↦
      some (record { tryit = clear_word r.sought; statics = r.statics; reply = text_of r.sought })
  | not_found ↦ some (record {
    tryit = clear_word (strcpy_text no_entry r.sought);
    statics = r.statics;
    reply = text_of (strcpy_text no_entry r.sought);
  })
  | unavail ↦ none
]

abbrev respond_if : Option Reply → Option Served
respond_if none = none
respond_if (some r) = respond r

-- The body of the loop: `recv`, `lookup`, `send`, `memset`. No result is the end of the process.
unfoldable pub serve_request : Option Bytes → Statics → Dictrec → Bytes → Option Served
serve_request file st mem msg = respond_if (Search.lookup st file (receive_word msg mem))

abbrev continue : Option Served → (Served → List Bytes) → List Bytes
continue none k = []
continue (some s) k = s.reply ∷ k s

-- `while (recv(...) >= 0)`: the replies to the messages of a connection, or of all datagrams.
unfoldable pub serve_requests : Option Bytes → Statics → Dictrec → List Bytes → List Bytes
serve_requests file st mem [] = []
serve_requests file st mem (msg ∷ msgs) =
    continue (serve_request file st mem msg) (λ s. serve_requests file s.statics s.tryit msgs)

-- What happens at the rendezvous socket.
pub data Arrival : Type 0 where
  accept_failed : Arrival
  fork_failed : Arrival
  -- a child serves these messages
  client : List Bytes → Arrival

pub data Exit : Type 0 where
  usage socket_error bind_error listen_error accept_error dies : Exit
  waiting : Exit

-- What the children sent, connection by connection, and how the parent stands.
pub record ServedAll : Type 0 where
  pub replies : List (List Bytes)
  pub exit : Exit

abbrev pub cons_replies : List Bytes → ServedAll → ServedAll
cons_replies r s = record { replies = r ∷ s.replies; exit = s.exit }

-- `for (;;) accept, fork`: each child starts with the parent's `tryit`, which was never set, and with
-- the static variables as the parent left them.
unfoldable pub accept_loop : Option Bytes → Dictrec → List Arrival → ServedAll
accept_loop file garbage [] = record { replies = []; exit = waiting }
accept_loop file garbage (accept_failed ∷ later) = record { replies = []; exit = accept_error }
accept_loop file garbage (fork_failed ∷ later) = record { replies = []; exit = dies }
accept_loop file garbage (client msgs ∷ later) =
    cons_replies (serve_requests file Search.first_time garbage msgs)
      (accept_loop file garbage later)

-- The answers of `socket`, `bind` and `listen`.
pub record Calls : Type 0 where
  pub socket_ok : Bool
  pub bind_ok : Bool
  pub listen_ok : Bool

abbrev stop : Exit → ServedAll
stop e = record { replies = []; exit = e }

-- `main` of usock_server.c (3 arguments) and of isock_server.c (2).
unfoldable pub stream_server : ℕ → ℕ → Calls → Option Bytes → Dictrec → List Arrival → ServedAll
stream_server wanted argc c file garbage later =
    let run = accept_loop file garbage later in
    if argc == wanted
    then (if c.socket_ok
        then (if c.bind_ok
            then (if c.listen_ok then run else stop listen_error)
            else stop bind_error)
        else stop socket_error)
    else stop usage

abbrev pub usock_server : ℕ → Calls → Option Bytes → Dictrec → List Arrival → ServedAll
usock_server = stream_server 3

abbrev pub isock_server : ℕ → Calls → Option Bytes → Dictrec → List Arrival → ServedAll
isock_server = stream_server 2

abbrev one_process : List Bytes → ServedAll
one_process r = record { replies = r ∷ []; exit = waiting }

-- `main` of udp_server.c: the replies to the datagrams, in order.
unfoldable pub udp_server : ℕ → Calls → Option Bytes → Dictrec → List Bytes → ServedAll
udp_server argc c file garbage msgs =
    let run = one_process (serve_requests file Search.first_time garbage msgs) in
    if argc == 2
    then (if c.socket_ok then (if c.bind_ok then run else stop bind_error) else stop socket_error)
    else stop usage
