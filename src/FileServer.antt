-- ===== src/FileServer.antt =====
-- SP_HW9/52: svmsg_file_server.c sends a file in messages of a POSIX queue to svmsg_file_client.c, which
-- counts its bytes (svmsg_file.h). A message is a number of bytes from the start of a `struct`.
pub mod Laws
pub mod Request
pub mod Counted
use network_system_programmi.Base.{
  as_int, ℤ, ℕ, zero, suc, ◌+◌, ◌-◌, Bool, true, false, Option, none, some, List, [], ◌∷◌, ◌++◌,
  if◌then◌else◌, ltb, leb, ◌==◌, eq_bytes, take, drop, write_at, length, replicate, c_string, codes,
}

abbrev pub Bytes : Type 0
Bytes = List ℕ

-- `RESP_MSG_SIZE`
abbrev pub resp_msg_size : ℕ
resp_msg_size = 8192

-- A `long` below 256, in little-endian order: `RESP_MT_FAILURE`, `RESP_MT_DATA` and `RESP_MT_END`.
abbrev pub long : ℕ → Bytes
long n = n ∷ replicate 7 0

abbrev pub mt_failure : Bytes
mt_failure = long 1

abbrev pub mt_data : Bytes
mt_data = long 2

abbrev pub mt_end : Bytes
mt_end = long 3

-- `struct responseMsg` in memory: 8 bytes of `mtype`, then `data`.
abbrev pub Response : Type 0
Response = Bytes

abbrev pub mtype : Response → Bytes
mtype r = take 8 r

abbrev pub set_mtype : Bytes → Response → Response
set_mtype t r = write_at 0 t r

abbrev pub set_data : Bytes → Response → Response
set_data d r = write_at 8 d r

-- `mq_send(clientId, (char*) &resp, n, 0)`: the message is the first n bytes of the struct.
abbrev pub sent : ℕ → Response → Bytes
sent n r = take n r

-- `while ((numRead = read(fd, resp.data, RESP_MSG_SIZE)) > 0)`, a round for each unit of fuel, with
-- the answer of each `mq_send`: the messages, and the end.
unfoldable pub send_loop : ℕ → (ℕ → Bool) → Response → Bytes → List Bytes
send_loop zero ok r file = []
send_loop (suc f) ok r [] = []
send_loop (suc f) ok r (b ∷ file) =
    let chunk = take resp_msg_size (b ∷ file) in
    let filled = set_data chunk r in
    let rest = send_loop f (λ n. ok (n + 1)) filled (drop resp_msg_size (b ∷ file)) in
    if ok 0 then sent (length chunk) filled ∷ rest else []

-- The message of `RESP_MT_END`: one byte.
abbrev pub end_message : Bytes
end_message = sent 1 (mt_end ++ replicate resp_msg_size 0)

-- `snprintf(resp.data, ..., "Couldn't open")`, and `strlen(resp.data) + 1` bytes of the struct.
abbrev pub failure_message : Response → Bytes
failure_message r = sent 14 (set_data (codes "Couldn't open" ++ 0 ∷ []) (set_mtype mt_failure r))

-- `serveRequest`: the file is what `open` gives.
unfoldable pub serve_request : (ℕ → Bool) → Response → Option Bytes → List Bytes
serve_request ok r none = failure_message r ∷ []
serve_request ok r (some file) =
    send_loop (suc (length file)) ok (set_mtype mt_data r) file ++ end_message ∷ []

-- What the server's `mq_receive` and `fork` give.
pub data Arrival : Type 0 where
  interrupted receive_failed fork_failed : Arrival
  request : Bytes → Arrival

-- `for (;;)` of the server: the requests for which a child runs `serveRequest`.
unfoldable pub receive_loop : List Arrival → List Bytes
receive_loop [] = []
receive_loop (interrupted ∷ later) = receive_loop later
receive_loop (receive_failed ∷ later) = []
receive_loop (fork_failed ∷ later) = []
receive_loop (request m ∷ later) = m ∷ receive_loop later

-- What the client prints, or how it ends.
pub data Printed : Type 0 where
  -- `printf("%s\n", resp.data)`
  message : Bytes → Printed
  -- "Received %ld bytes (%d messages)"
  received : ℕ → ℤ → Printed
  -- it waits for a message
  hangs : Printed

-- `mq_receive(clientId, (char*) &resp, RESP_MSG_SIZE, NULL)`
abbrev pub receive : Bytes → Response → Response
receive msg r = write_at 0 msg r

-- `for (numMsgs = 1; resp.mtype == RESP_MT_DATA; numMsgs++)`, where `numMsgs` is an `int`.
unfoldable pub count_loop : ℕ → ℕ → Response → List Bytes → Printed
count_loop tot_bytes num_msgs r [] =
    if eq_bytes (mtype r) mt_data then hangs else received (tot_bytes - 1) (as_int num_msgs)
count_loop tot_bytes num_msgs r (m ∷ ms) =
    let next = count_loop (tot_bytes + length m) (num_msgs + 1) (receive m r) ms in
    if eq_bytes (mtype r) mt_data then next else received (tot_bytes - 1) (as_int num_msgs)

abbrev first_response : Response → ℕ → List Bytes → Printed
first_response r n ms =
    if eq_bytes (mtype r) mt_failure then message (c_string (drop 8 r)) else count_loop n 1 r ms

-- The client from its first `mq_receive` on, with `resp` as it was.
unfoldable pub client : Response → List Bytes → Printed
client r [] = hangs
client r (m ∷ ms) = first_response (receive m r) (length m) ms

-- `PATH_MAX`
abbrev pub path_max : ℕ
path_max = 4096

-- `REQ_MSG_SIZE`: from `clientId` on, with `pathname`.
abbrev pub req_msg_size : ℕ
req_msg_size = 4 + path_max

-- `strncpy(req.pathname, argv[1], sizeof(req.pathname) - 1)` and the NUL behind it.
abbrev pub pathname_field : Bytes → Bytes
pathname_field path =
    take (path_max - 1) (path ++ replicate (path_max - 1 - length path) 0) ++ 0 ∷ []

-- `mq_send(serverId, (char*) &req, REQ_MSG_SIZE, 0)`: the struct has 8 bytes of `mtype`, 4 of `clientId`.
unfoldable pub request_message : Bytes → Bytes → Bytes
request_message client_id path = take req_msg_size ((long 1 ++ client_id) ++ pathname_field path)

-- The `pathname` that the server reads from its `req`, after the message came.
unfoldable pub pathname_of : Bytes → Bytes → Bytes
pathname_of msg req = c_string (drop 12 (write_at 0 msg req))

-- `strlen(argv[1]) > sizeof(req.pathname) - 1` ends the client.
abbrev pub path_fits : Bytes → Bool
path_fits path = leb (length path) (path_max - 1)

-- The answers to the client up to its request, and the messages that come back.
pub record ClientCalls : Type 0 where
  pub open_server_ok : Bool
  pub open_own_ok : Bool
  pub send_ok : Bool
  pub responses : List Bytes

pub data ClientEnd : Type 0 where
  usage too_long exits : ClientEnd
  done : Printed → ClientEnd

abbrev asks : ClientCalls → Response → ClientEnd
asks c r =
    if c.open_server_ok
    then (if c.open_own_ok
        then (if c.send_ok then done (client r c.responses) else exits)
        else exits)
    else exits

-- `main` of the client, given the arguments behind its name, with `resp` as it was.
unfoldable pub client_main : List Bytes → ClientCalls → Response → ClientEnd
client_main [] c r = usage
client_main (path ∷ []) c r =
    let asking = asks c r in
    if eq_bytes path (codes "--help") then usage else (if path_fits path then asking else too_long)
client_main (path ∷ x ∷ xs) c r = usage

pub data ServerEnd : Type 0 where
  exits_at_once : ServerEnd
  -- the requests for which children ran, then `mq_unlink` and `exit`, or it waits
  served : List Bytes → ServerEnd

-- `main` of the server: `mq_open`, `atexit` and `sigaction`, then the loop.
unfoldable pub server_main : (open_ok atexit_ok sigaction_ok : Bool) → List Arrival → ServerEnd
server_main open_ok atexit_ok sigaction_ok later =
    let loop = receive_loop later in
    if open_ok
    then (if atexit_ok
        then (if sigaction_ok then served loop else exits_at_once)
        else exits_at_once)
    else exits_at_once
