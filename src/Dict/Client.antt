-- ===== src/Dict/Client.antt =====
-- The clients of SP_HW11: `lookup` of part1/lookup7.c, part2/lookup8.c and part3/lookup9.c, which ask a
-- server, and the loop of main.c (the same in the three parts).
use network_system_programmi.Base.{
  ℕ, ◌+◌, Bool, Option, none, some, List, [], ◌∷◌, ◌++◌, if◌then◌else◌, take, write_at, replicate,
  eq_bytes,
}
use network_system_programmi.Dict.Record.{
  Bytes, Dictrec, word_size, text_size, record_size, word_of, text_of, Answer, found, not_found,
  unavail,
}
use network_system_programmi.Dict.Server.{no_entry}

-- The answers of the system: those of the first call, and of each `send` and `recv`; no reply is -1.
pub record Net : Type 0 where
  pub host_known : Bool
  pub socket_ok : Bool
  pub connect_ok : Bool
  pub send_ok : Bool
  pub reply : Option Bytes

-- A call of `lookup`: the answer and the record, or `exit(1)`.
pub data Asked : Type 0 where
  exits : Asked
  answered : Answer → Dictrec → Asked

-- `recv(sockfd, sought->text, sizeof(sought->text), 0)`
abbrev pub receive_text : Bytes → Dictrec → Dictrec
receive_text msg mem = write_at word_size (take text_size msg) mem

-- `if (strcmp(sought->text, "XXXX") != 0) return FOUND; return NOTFOUND;`
unfoldable pub judge : Dictrec → Asked
judge mem = if eq_bytes (text_of mem) no_entry then answered not_found mem else answered found mem

abbrev received : Dictrec → Option Bytes → Asked
received mem none = exits
received mem (some msg) = judge (receive_text msg mem)

-- The query on a connected stream, in lookup7.c and lookup8.c.
abbrev exchange : Net → Dictrec → Asked
exchange n mem = if n.send_ok then received mem n.reply else exits

-- `lookup` of lookup7.c, with `first_time`.
unfoldable pub lookup_unix : Bool → Net → Dictrec → Asked
lookup_unix first n mem =
    let connecting =
      if n.socket_ok then (if n.connect_ok then exchange n mem else exits) else exits in
    if first then connecting else exchange n mem

-- `lookup` of lookup8.c.
unfoldable pub lookup_inet : Bool → Net → Dictrec → Asked
lookup_inet first n mem =
    let connecting =
      if n.socket_ok then (if n.connect_ok then exchange n mem else exits) else exits in
    let resolving = if n.host_known then connecting else exits in
    if first then resolving else exchange n mem

-- `sendto` and `recvfrom` of lookup9.c, whose failures are not looked at.
abbrev datagrams : Net → Dictrec → Asked
datagrams n mem = elim n.reply [ none ↦ judge mem | some msg ↦ judge (receive_text msg mem) ]

-- `lookup` of lookup9.c.
unfoldable pub lookup_udp : Bool → Net → Dictrec → Asked
lookup_udp first n mem =
    let resolving =
      if n.host_known then (if n.socket_ok then datagrams n mem else exits) else exits in
    if first then resolving else datagrams n mem

-- What the client sends: `send(sockfd, sought->word, strlen(sought->word), 0)`.
abbrev pub query : Dictrec → Bytes
query mem = word_of mem

-- What main.c shows for a word.
pub data Shown : Type 0 where
  -- "%s : %s"
  definition : Bytes → Bytes → Shown
  -- "%s : Not Found!"
  missing : Bytes → Shown
  dies : Shown

-- The `switch` on what `lookup` returned, `none` being the end of the process.
unfoldable pub show : Asked → Shown
show exits = dies
show (answered found mem) = definition (word_of mem) (text_of mem)
show (answered not_found mem) = missing (word_of mem)
show (answered unavail mem) = dies

abbrev pub cleared : Dictrec
cleared = replicate record_size 0

-- `gets(tryit.word)`
abbrev pub gets_word : Bytes → Dictrec → Dictrec
gets_word w mem = write_at 0 (w ++ 0 ∷ []) mem

abbrev pub goes_on : Shown → List Shown → List Shown
goes_on dies rest = dies ∷ []
goes_on (definition w t) rest = definition w t ∷ rest
goes_on (missing w) rest = missing w ∷ rest

-- The loop of `main`: `gets`, `lookup`, the `switch`, `memset`. The n-th call of `lookup` is `ask n`.
unfoldable pub prompt_loop : (ℕ → Dictrec → Asked) → ℕ → Dictrec → List Bytes → List Shown
prompt_loop ask n mem [] = []
prompt_loop ask n mem (w ∷ ws) =
    goes_on (show (ask n (gets_word w mem))) (prompt_loop ask (n + 1) cleared ws)
