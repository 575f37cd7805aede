-- ===== src/Seqnum.antt =====
-- SP_HW8: a server that gives out ranges of numbers over FIFOs, and its clients, in two versions. In
-- 44-6 only the server's `open` of a client's FIFO is non-blocking; in 44-7 every descriptor is.
pub mod Laws
pub mod Starts
use network_system_programmi.Base.{
  ℕ, zero, suc, ◌+◌, ◌%◌, Bool, true, false, Option, none, some, List, [], ◌∷◌, if◌then◌else◌, ltb,
  ◌&&◌,
}

-- `struct request`; `seqLen` is an `int`, as its 32-bit pattern.
pub record Request : Type 0 where
  pub pid : ℕ
  pub seq_len : ℕ

-- A response that reached its client: to whom, `seqNum`, and the length that was asked for.
pub record Grant : Type 0 where
  pub pid : ℕ
  pub seq_num : ℕ
  pub seq_len : ℕ

-- What the system answers in a round of the server: `read` did not give a whole request; or it gave
-- this one, the `open` of the client's FIFO succeeds or not, and so does the `write`.
pub data Round : Type 0 where
  discarded : Round
  received : Request → (opens writes : Bool) → Round

-- The variable `seqNum` after a round, and the response written.
pub record Turn : Type 0 where
  pub seq_num : ℕ
  pub response : Option Grant

-- `resp.seqNum = seqNum`
abbrev pub grant : ℕ → Request → Grant
grant seq r = record { pid = r.pid; seq_num = seq; seq_len = r.seq_len }

-- `seqNum += req.seqLen`
abbrev pub advance : ℕ → Request → ℕ
advance seq r = (seq + r.seq_len) % 4294967296

abbrev pub respond : ℕ → Request → Bool → Turn
respond seq r written = record {
  seq_num = advance seq r;
  response = if written then some (grant seq r) else none;
}

abbrev pub skip : ℕ → Turn
skip seq = record { seq_num = seq; response = none }

-- A round of the server of 44-6, which gives up on a client whose FIFO has no reader.
unfoldable pub round_blocking : ℕ → Round → Turn
round_blocking seq discarded = skip seq
round_blocking seq (received r opens writes) = if opens then respond seq r writes else skip seq

-- A round of the server of 44-7: after a failed `open` it writes to descriptor -1, which fails.
unfoldable pub round_nonblocking : ℕ → Round → Turn
round_nonblocking seq discarded = skip seq
round_nonblocking seq (received r opens writes) = respond seq r (opens && writes)

abbrev pub add_response : Option Grant → List Grant → List Grant
add_response none gs = gs
add_response (some g) gs = g ∷ gs

-- The loop of a server: the responses that reach a client, in order.
unfoldable pub serve : (ℕ → Round → Turn) → ℕ → List Round → List Grant
serve round seq [] = []
serve round seq (r ∷ rs) =
    add_response (round seq r).response (serve round (round seq r).seq_num rs)

-- The answers to `mkfifo`, to the two `open`s of the server's FIFO, and to `signal`.
pub record Setup : Type 0 where
  pub mkfifo_ok : Bool
  pub open_ok : Bool
  pub open_dummy_ok : Bool
  pub signal_ok : Bool

-- `main` of a server; no list is `errExit`.
unfoldable pub server : (ℕ → Round → Turn) → Setup → List Round → Option (List Grant)
server round s rs =
    let grants = serve round 0 rs in
    if s.mkfifo_ok
    then (if s.open_ok
        then (if s.open_dummy_ok then (if s.signal_ok then some grants else none) else none)
        else none)
    else none

abbrev pub server_blocking : Setup → List Round → Option (List Grant)
server_blocking = server round_blocking

abbrev pub server_nonblocking : Setup → List Round → Option (List Grant)
server_nonblocking = server round_nonblocking

-- The `open` of a client's own FIFO for reading, which without O_NONBLOCK waits for a writer.
pub data Opening : Type 0 where
  open_succeeds open_waits open_fails : Opening

-- The answers to a client: `getInt` of the length, the calls up to the request, and what comes back.
pub record ClientCalls : Type 0 where
  pub mkfifo_ok : Bool
  pub open_server_ok : Bool
  pub write_ok : Bool
  pub own : Opening
  -- a read gives a whole response, or not
  pub reads : List (Option ℕ)

pub data ClientEnd : Type 0 where
  -- `errExit`, `fatal`
  exits : ClientEnd
  -- `printf("%d\n", resp.seqNum)`
  prints : ℕ → ClientEnd
  -- it waits, in `open` or for a response
  hangs : ClientEnd

abbrev first_read : List (Option ℕ) → ClientEnd
first_read [] = hangs
first_read (none ∷ rs) = exits
first_read (some n ∷ rs) = prints n

-- `while (read(...) != sizeof(struct response))`
unfoldable pub poll : List (Option ℕ) → ClientEnd
poll [] = hangs
poll (none ∷ rs) = poll rs
poll (some n ∷ rs) = prints n

abbrev own_fifo : Opening → ClientEnd → ClientEnd
own_fifo open_succeeds e = e
own_fifo open_waits e = hangs
own_fifo open_fails e = exits

abbrev asks : ClientCalls → ClientEnd → ClientEnd
asks c e =
    if c.mkfifo_ok
    then (if c.open_server_ok then (if c.write_ok then e else exits) else exits)
    else exits

-- `main` of fifo_seqnum_client_normal.c of 44-6.
unfoldable pub client_blocking : ClientCalls → ClientEnd
client_blocking c = asks c (own_fifo c.own (first_read c.reads))

-- `main` of fifo_seqnum_client_normal.c of 44-7, whose `open` does not wait.
unfoldable pub client_nonblocking : ClientCalls → ClientEnd
client_nonblocking c = asks c (own_fifo c.own (poll c.reads))

-- `usageErr` for "--help", else the request: the length given, or 1.
abbrev pub request_of : ℕ → Option ℕ → Request
request_of pid none = record { pid = pid; seq_len = 1 }
request_of pid (some n) = record { pid = pid; seq_len = n }
