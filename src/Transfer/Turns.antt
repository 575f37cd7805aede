-- ===== src/Transfer/Turns.antt =====
-- The turns of svshm_xfr_writer.c and svshm_xfr_reader.c, and what any order of turns can reach.
use network_system_programmi.Base.{
  ℕ, zero, suc, ◌+◌, ◌-◌, Option, none, some, [], ℤ, pos, negsuc, replicate, min, ◌≡◌,
}
use network_system_programmi.Transfer.State.{
  Answer, Bytes, ReaderAt, Reserved, State, WriterAt, again, buf_size, completes, counts_bytes,
  counts_sent, counts_xfr, fails, fills, gives_up, goes_reader, goes_writer, got, interrupted,
  r_ended, r_failed, r_last, r_look, r_release, r_reserve, r_write, release_sem, reserve_sem,
  sets_cnt, sets_sems, w_check, w_ended, w_failed, w_last, w_read, w_release, w_remove, w_reserve,
  waits, writes,
}

-- `reserveSem(semid, WRITE_SEM)`, and where the writer goes then.
abbrev pub writer_reserves : WriterAt → State → Reserved → Option State
writer_reserves next s waits = none
writer_reserves next s again = some s
writer_reserves next s gives_up = some (goes_writer s w_failed)
writer_reserves next s (got v) = some (goes_writer (sets_sems s v s.sems.read_sem) next)

abbrev pub writer_releases : State → Option ℕ → State
writer_releases s none = goes_writer s w_failed
writer_releases s (some v) = goes_writer (sets_sems s s.sems.write_sem v) w_check

-- `if (shmp->cnt == 0) break;` and the end of the round
abbrev pub writer_checks : State → ℤ → State
writer_checks s (pos zero) = goes_writer s w_last
writer_checks s (pos (suc n)) = goes_writer (counts_sent s (suc n)) w_reserve
writer_checks s (negsuc n) = goes_writer (counts_sent s (4294967296 - (n + 1))) w_reserve

-- The next call or test of the writer; no result while it waits, and after its end.
unfoldable pub writer_turn : WriterAt → Answer → State → Option State
writer_turn w_reserve a s = writer_reserves w_read s (reserve_sem a s.sems.write_sem)
writer_turn w_read (completes n) s = some (goes_writer (fills s (min (n + 1) buf_size)) w_release)
writer_turn w_read interrupted s = some (goes_writer (sets_cnt s (negsuc 0)) w_failed)
writer_turn w_read (fails n) s = some (goes_writer (sets_cnt s (negsuc 0)) w_failed)
writer_turn w_release a s = some (writer_releases s (release_sem a s.sems.read_sem))
writer_turn w_check a s = some (writer_checks s s.shm.cnt)
writer_turn w_last a s = writer_reserves w_remove s (reserve_sem a s.sems.write_sem)
writer_turn w_remove (completes n) s = some (goes_writer s w_ended)
writer_turn w_remove interrupted s = some (goes_writer s w_failed)
writer_turn w_remove (fails n) s = some (goes_writer s w_failed)
writer_turn w_ended a s = none
writer_turn w_failed a s = none

abbrev pub reader_reserves : State → Reserved → Option State
reader_reserves s waits = none
reader_reserves s again = some s
reader_reserves s gives_up = some (goes_reader s r_failed)
reader_reserves s (got v) = some (goes_reader (sets_sems s s.sems.write_sem v) r_look)

-- `if (shmp->cnt == 0) break; bytes += shmp->cnt;`
abbrev pub reader_looks : State → ℤ → State
reader_looks s (pos zero) = goes_reader s r_last
reader_looks s (pos (suc n)) = goes_reader (counts_bytes s (suc n)) r_write
reader_looks s (negsuc n) = goes_reader (counts_bytes s (4294967296 - (n + 1))) r_write

-- `write(STDOUT_FILENO, shmp->buf, shmp->cnt) != shmp->cnt`
abbrev pub reader_writes : State → Answer → ℕ → State
reader_writes s (completes k) n = goes_reader (writes s n) r_release
reader_writes s interrupted n = goes_reader s r_failed
reader_writes s (fails k) n = goes_reader (writes s (min k n)) r_failed

-- A count of -1 is a length that `write` refuses with -1, which is the count.
abbrev pub reader_writes_cnt : State → Answer → ℤ → State
reader_writes_cnt s a (pos n) = reader_writes s a n
reader_writes_cnt s a (negsuc n) = goes_reader s r_release

abbrev pub reader_releases : ReaderAt → State → State → Option ℕ → State
reader_releases next counted s none = goes_reader s r_failed
reader_releases next counted s (some v) = goes_reader (sets_sems counted v s.sems.read_sem) next

-- The next call or test of the reader.
unfoldable pub reader_turn : ReaderAt → Answer → State → Option State
reader_turn r_reserve a s = reader_reserves s (reserve_sem a s.sems.read_sem)
reader_turn r_look a s = some (reader_looks s s.shm.cnt)
reader_turn r_write a s = some (reader_writes_cnt s a s.shm.cnt)
reader_turn r_release a s =
    some (reader_releases r_reserve (counts_xfr s) s (release_sem a s.sems.write_sem))
reader_turn r_last a s = some (reader_releases r_ended s s (release_sem a s.sems.write_sem))
reader_turn r_ended a s = none
reader_turn r_failed a s = none

-- Once the writer has made the semaphores and the shared memory, before the first turn.
abbrev pub start : Bytes → State
start all = record {
  sems = record { write_sem = 1; read_sem = 0 };
  shm = record { cnt = pos 0; buf = replicate buf_size 0 };
  input = all;
  output = [];
  writer = w_reserve;
  sent = record { bytes = 0; xfrs = 0 };
  reader = r_reserve;
  received = record { bytes = 0; xfrs = 0 };
}

-- One turn of one of the two processes.
pub data Step : State → State → Type 0 where
  writer_step : {s t : State} → (a : Answer) → writer_turn s.writer a s ≡ some t → Step s t
  reader_step : {s t : State} → (a : Answer) → reader_turn s.reader a s ≡ some t → Step s t

-- What any order of turns can reach.
pub data Reach (all : Bytes) : State → Type 0 where
  first : Reach all (start all)
  later : {s t : State} → Reach all s → Step s t → Reach all t
