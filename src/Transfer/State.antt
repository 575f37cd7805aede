-- ===== src/Transfer/State.antt =====
-- The state of the transfer of SP_HW9/54: semaphores, shared memory, and the two processes.
use network_system_programmi.Base.{
  ℕ, zero, suc, ◌+◌, ◌%◌, Option, none, some, List, ◌++◌, take, drop, write_at, length, ℤ, pos,
}

abbrev pub Bytes : Type 0
Bytes = List ℕ

-- `BUF_SIZE`
abbrev pub buf_size : ℕ
buf_size = 1024

-- `struct shmseg`; `cnt` is an `int`, which is -1 after a failed `read`.
pub record Shmseg : Type 0 where
  pub cnt : ℤ
  pub buf : Bytes

-- The set of two semaphores, `WRITE_SEM` and `READ_SEM`.
pub record Sems : Type 0 where
  pub write_sem : ℕ
  pub read_sem : ℕ

-- Where the writer is: the call or the test it does next.
pub data WriterAt : Type 0 where
  w_reserve w_read w_release w_check w_last w_remove w_ended w_failed : WriterAt

pub data ReaderAt : Type 0 where
  r_reserve r_look r_write r_release r_last r_ended r_failed : ReaderAt

-- The variables `bytes` and `xfrs` of a process, as 32-bit patterns.
pub record Counts : Type 0 where
  pub bytes : ℕ
  pub xfrs : ℕ

pub record State : Type 0 where
  pub sems : Sems
  pub shm : Shmseg
  -- what the writer's standard input still has, and what the reader has written
  pub input : Bytes
  pub output : Bytes
  pub writer : WriterAt
  pub sent : Counts
  pub reader : ReaderAt
  pub received : Counts

-- What the system answers to a call. `read` gives at most n + 1 bytes, and at least one unless it is at
-- the end of the input; a failed `write` has written n bytes at most.
pub data Answer : Type 0 where
  completes : ℕ → Answer
  interrupted : Answer
  fails : ℕ → Answer

-- `semop` with -1, and the loop of `reserveSem` around it: it waits, tries again after EINTR, ends.
pub data Reserved : Type 0 where
  waits again gives_up : Reserved
  got : ℕ → Reserved

abbrev pub reserve_sem : Answer → ℕ → Reserved
reserve_sem (completes n) zero = waits
reserve_sem (completes n) (suc v) = got v
reserve_sem interrupted v = again
reserve_sem (fails n) v = gives_up

-- `semop` with 1: the value after it, or -1.
abbrev pub release_sem : Answer → ℕ → Option ℕ
release_sem (completes n) v = some (v + 1)
release_sem interrupted v = none
release_sem (fails n) v = none

abbrev pub add_bytes : ℕ → Counts → Counts
add_bytes n c = record { bytes = (c.bytes + n) % 4294967296; xfrs = c.xfrs }

abbrev pub add_xfr : Counts → Counts
add_xfr c = record { bytes = c.bytes; xfrs = (c.xfrs + 1) % 4294967296 }

module _ (s : State) where
  abbrev pub goes_writer : WriterAt → State
  goes_writer w = record {
    sems = s.sems;
    shm = s.shm;
    input = s.input;
    output = s.output;
    writer = w;
    sent = s.sent;
    reader = s.reader;
    received = s.received;
  }

  abbrev pub goes_reader : ReaderAt → State
  goes_reader r = record {
    sems = s.sems;
    shm = s.shm;
    input = s.input;
    output = s.output;
    writer = s.writer;
    sent = s.sent;
    reader = r;
    received = s.received;
  }

  abbrev pub sets_sems : ℕ → ℕ → State
  sets_sems w r = record {
    sems = record { write_sem = w; read_sem = r };
    shm = s.shm;
    input = s.input;
    output = s.output;
    writer = s.writer;
    sent = s.sent;
    reader = s.reader;
    received = s.received;
  }

  -- `read` put n bytes at the start of the buffer, or failed.
  abbrev pub fills : ℕ → State
  fills n = record {
    sems = s.sems;
    shm = record {
      cnt = pos (length (take n s.input));
      buf = write_at 0 (take n s.input) s.shm.buf;
    };
    input = drop n s.input;
    output = s.output;
    writer = s.writer;
    sent = s.sent;
    reader = s.reader;
    received = s.received;
  }

  abbrev pub sets_cnt : ℤ → State
  sets_cnt c = record {
    sems = s.sems;
    shm = record { cnt = c; buf = s.shm.buf };
    input = s.input;
    output = s.output;
    writer = s.writer;
    sent = s.sent;
    reader = s.reader;
    received = s.received;
  }

  abbrev pub writes : ℕ → State
  writes n = record {
    sems = s.sems;
    shm = s.shm;
    input = s.input;
    output = s.output ++ take n s.shm.buf;
    writer = s.writer;
    sent = s.sent;
    reader = s.reader;
    received = s.received;
  }

  abbrev pub counts_sent : ℕ → State
  counts_sent n = record {
    sems = s.sems;
    shm = s.shm;
    input = s.input;
    output = s.output;
    writer = s.writer;
    sent = add_xfr (add_bytes n s.sent);
    reader = s.reader;
    received = s.received;
  }

  abbrev pub counts_bytes : ℕ → State
  counts_bytes n = record {
    sems = s.sems;
    shm = s.shm;
    input = s.input;
    output = s.output;
    writer = s.writer;
    sent = s.sent;
    reader = s.reader;
    received = add_bytes n s.received;
  }

  abbrev pub counts_xfr : State
  counts_xfr = record {
    sems = s.sems;
    shm = s.shm;
    input = s.input;
    output = s.output;
    writer = s.writer;
    sent = s.sent;
    reader = s.reader;
    received = add_xfr s.received;
  }
