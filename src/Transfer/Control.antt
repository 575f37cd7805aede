-- ===== src/Transfer/Control.antt =====
-- Who holds the turn in the transfer of SP_HW9/54, and what is in the buffer then.
use network_system_programmi.Base.{
  IfSome, ℕ, zero, suc, ◌≡◌, refl, [], ◌++◌, take, length, ℤ, pos, length-replicate,
}
use network_system_programmi.Transfer.State.{
  Bytes, buf_size, WriterAt, w_reserve, w_read, w_release, w_check, w_last, w_remove, w_ended,
  w_failed, ReaderAt, r_reserve, r_look, r_write, r_release, r_last, r_ended, r_failed, Counts,
  State, Answer, completes, interrupted, fails,
}
use network_system_programmi.Transfer.Turns.{writer_turn, reader_turn, start}

-- The writer does not hold the turn; after a chunk it comes back, after the end of the input it leaves.
pub data Away : ℕ → WriterAt → Type 0 where
  checks : {n : ℕ} → Away n w_check
  returns : {n : ℕ} → Away (suc n) w_reserve
  leaves : Away 0 w_last
  dead : {n : ℕ} → Away n w_failed

-- The reader waits for its turn, or has ended while it had none.
pub data Idle : ReaderAt → Type 0 where
  waiting : Idle r_reserve
  dead : Idle r_failed

-- How the bytes stand: all of them are written or to be read; some are in the buffer; all are written;
-- a process that failed may have lost some.
pub data Mode : Type 0 where
  settled complete lost : Mode
  pending : ℕ → Mode

-- The values of the semaphores with the places of the two processes, and the count in the memory.
pub data Control : ℕ → ℕ → WriterAt → ReaderAt → ℤ → Mode → Type 0 where
  begins : {r : ReaderAt} → Idle r → Control 1 0 w_reserve r (pos 0) settled
  never : {r : ReaderAt} → Idle r → Control 1 0 w_failed r (pos 0) settled
  over :
      {n : ℕ} {w : WriterAt} {r : ReaderAt}
      → Away (suc n) w
      → Idle r
      → Control 1 0 w r (pos (suc n)) settled
  reads : {c : ℤ} {r : ReaderAt} → Idle r → Control 0 0 w_read r c settled
  has_read : {n : ℕ} {r : ReaderAt} → Idle r → Control 0 0 w_release r (pos n) (pending n)
  handed :
      {n : ℕ} {w : WriterAt} {r : ReaderAt}
      → Away n w
      → Idle r
      → Control 0 1 w r (pos n) (pending n)
  looks : {n : ℕ} {w : WriterAt} → Away n w → Control 0 0 w r_look (pos n) (pending n)
  writes :
      {n : ℕ} {w : WriterAt}
      → Away (suc n) w
      → Control 0 0 w r_write (pos (suc n)) (pending (suc n))
  releases : {n : ℕ} {w : WriterAt} → Away (suc n) w → Control 0 0 w r_release (pos (suc n)) settled
  last : {w : WriterAt} → Away 0 w → Control 0 0 w r_last (pos 0) complete
  left : {w : WriterAt} → Away 0 w → Control 1 0 w r_ended (pos 0) complete
  removes : Control 0 0 w_remove r_ended (pos 0) complete
  ended : Control 0 0 w_ended r_ended (pos 0) complete
  not_removed : Control 0 0 w_failed r_ended (pos 0) complete
  writer_lost : {c : ℤ} {r : ReaderAt} → Idle r → Control 0 0 w_failed r c lost
  reader_lost : {n : ℕ} {w : WriterAt} → Away n w → Control 0 0 w r_failed (pos n) lost

abbrev pub Holds : Bytes → Mode → Bytes → Bytes → Bytes → Type 0
Holds all settled buf input output = all ≡ output ++ input
Holds all (pending n) buf input output =
    (all ≡ output ++ (take n buf ++ input)) × (n ≡ 0 → input ≡ [])
Holds all complete buf input output = all ≡ output
Holds all lost buf input output = (rest : Bytes) × (all ≡ output ++ rest)

pub record Inv (all : Bytes) (s : State) : Type 0 where
  pub mode : Mode
  pub control : Control s.sems.write_sem s.sems.read_sem s.writer s.reader s.shm.cnt mode
  pub size : length s.shm.buf ≡ buf_size
  pub bytes : Holds all mode s.shm.buf s.input s.output

-- The state with these parts.
abbrev pub state : ℕ → ℕ → WriterAt → ReaderAt → ℤ → Bytes → Bytes → Bytes → Counts → Counts → State
state ws rs w r c buf input output sent received = record {
  sems = record { write_sem = ws; read_sem = rs };
  shm = record { cnt = c; buf = buf };
  input = input;
  output = output;
  writer = w;
  sent = sent;
  reader = r;
  received = received;
}

pub Inv-start : (all : Bytes) → Inv all (start all)
Inv-start all = record {
  mode = settled;
  control = begins waiting;
  size = length-replicate {A = ℕ} buf_size 0;
  bytes = refl;
}

-- A writer that is away changes nothing but its own place and counts.
pub writer-Away :
    {n : ℕ} {w : WriterAt}
    → Away n w
    → (P : State → Type 0) (a : Answer) (rs : ℕ) (r : ReaderAt) (buf input output : Bytes)
      (sent received : Counts)
    → ((v : WriterAt) (counts : Counts)
        → Away n v
        → P (state 0 rs v r (pos n) buf input output counts received))
    → IfSome P (writer_turn w a (state 0 rs w r (pos n) buf input output sent received))
unfolding writer_turn
writer-Away (checks {n = zero}) P a rs r buf input output sent received p = p _ _ leaves
writer-Away (checks {n = suc n}) P a rs r buf input output sent received p = p _ _ returns
writer-Away returns P (completes k) rs r buf input output sent received p = tt
writer-Away returns P interrupted rs r buf input output sent received p = p _ _ returns
writer-Away returns P (fails k) rs r buf input output sent received p = p _ _ dead
writer-Away leaves P (completes k) rs r buf input output sent received p = tt
writer-Away leaves P interrupted rs r buf input output sent received p = p _ _ leaves
writer-Away leaves P (fails k) rs r buf input output sent received p = p _ _ dead
writer-Away dead P a rs r buf input output sent received p = tt

-- A reader that is idle stays so while the semaphore is 0.
pub reader-Idle :
    {r : ReaderAt}
    → Idle r
    → (P : State → Type 0) (a : Answer) (ws : ℕ) (w : WriterAt) (c : ℤ) (buf input output : Bytes)
      (sent received : Counts)
    → ((v : ReaderAt) → Idle v → P (state ws 0 w v c buf input output sent received))
    → IfSome P (reader_turn r a (state ws 0 w r c buf input output sent received))
unfolding reader_turn
reader-Idle waiting P (completes k) ws w c buf input output sent received p = tt
reader-Idle waiting P interrupted ws w c buf input output sent received p = p _ waiting
reader-Idle waiting P (fails k) ws w c buf input output sent received p = p _ dead
reader-Idle dead P a ws w c buf input output sent received p = tt
