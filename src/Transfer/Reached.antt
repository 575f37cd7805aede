-- ===== src/Transfer/Reached.antt =====
-- What holds in every state that the transfer of SP_HW9/54 can reach.
use network_system_programmi.Base.{
  IfSome, ℕ, ◌+◌, ◌≤◌, ◌≡◌, ◌⊎◌, inl, inr, ◌≢◌, refl, sym, ◌∙◌, some, [], ◌++◌, ℤ, arith,
  append-nil,
}
use network_system_programmi.Transfer.State.{
  Bytes, WriterAt, w_read, w_release, w_remove, w_ended, w_failed, ReaderAt, r_look, r_write,
  r_release, r_last, r_ended, r_failed, Counts, State, completes,
}
use network_system_programmi.Transfer.Turns.{writer_turn, reader_turn}
use network_system_programmi.Transfer.Control.{
  Away, checks, returns, leaves, dead, Idle, waiting, Mode, settled, complete, lost, pending,
  Control, begins, never, over, reads, has_read, handed, looks, writes, releases, last, left,
  removes, ended, not_removed, writer_lost, reader_lost, Holds, Inv, state, Inv-start,
}
use network_system_programmi.Transfer.Laws.{writer_keeps, reader_keeps}
use network_system_programmi.Transfer.Turns.{Step, writer_step, reader_step, Reach, first, later}

module _ {all : Bytes} where
  Inv-Step : {s t : State} → Inv all s → Step s t → Inv all t
  Inv-Step {s = s} i (writer_step a e) =
      let k : IfSome (Inv all) (writer_turn s.writer a s) =
        writer_keeps all i.control a s.shm.buf s.input s.output s.sent s.received i.size i.bytes in
      rw e at k
  Inv-Step {s = s} i (reader_step a e) =
      let k : IfSome (Inv all) (reader_turn s.reader a s) =
        reader_keeps all i.control a s.shm.buf s.input s.output s.sent s.received i.size i.bytes in
      rw e at k

  pub Reach-Inv : {s : State} → Reach all s → Inv all s
  Reach-Inv first = Inv-start all
  Reach-Inv (later r e) = Inv-Step (Reach-Inv r) e

-- A process between its `reserveSem` and its `releaseSem`.
abbrev pub writer_holds : WriterAt → ℕ
writer_holds w_read = 1
writer_holds w_release = 1
writer_holds w_remove = 1
writer_holds w = 0

abbrev pub reader_holds : ReaderAt → ℕ
reader_holds r_look = 1
reader_holds r_write = 1
reader_holds r_release = 1
reader_holds r_last = 1
reader_holds r = 0

Away-holds : {n : ℕ} {w : WriterAt} → Away n w → writer_holds w ≡ 0
Away-holds checks = refl
Away-holds returns = refl
Away-holds leaves = refl
Away-holds dead = refl

Idle-holds : {r : ReaderAt} → Idle r → reader_holds r ≡ 0
Idle-holds waiting = refl
Idle-holds dead = refl

Control-holds :
    {ws rs : ℕ} {w : WriterAt} {r : ReaderAt} {c : ℤ} {m : Mode}
    → Control ws rs w r c m
    → ws + rs + writer_holds w + reader_holds r ≤ 1
Control-holds (begins i) = omega (arith, Idle-holds i)
Control-holds (never i) = omega (arith, Idle-holds i)
Control-holds (over w i) = omega (arith, Away-holds w, Idle-holds i)
Control-holds (reads i) = omega (arith, Idle-holds i)
Control-holds (has_read i) = omega (arith, Idle-holds i)
Control-holds (handed w i) = omega (arith, Away-holds w, Idle-holds i)
Control-holds (looks w) = omega (arith, Away-holds w)
Control-holds (writes w) = omega (arith, Away-holds w)
Control-holds (releases w) = omega (arith, Away-holds w)
Control-holds (last w) = omega (arith, Away-holds w)
Control-holds (left w) = omega (arith, Away-holds w)
Control-holds removes = omega arith
Control-holds ended = omega arith
Control-holds not_removed = omega arith
Control-holds (writer_lost i) = omega (arith, Idle-holds i)
Control-holds (reader_lost w) = omega (arith, Away-holds w)

-- In every state that the two processes can reach in any order of turns, whatever calls were
-- interrupted or failed: the values of the two semaphores and the number of processes between their
-- `reserveSem` and their `releaseSem` sum up to at most one.
pub Reach-exclusive :
    (all : Bytes) (s : State)
    → Reach all s
    → s.sems.write_sem + s.sems.read_sem + writer_holds s.writer + reader_holds s.reader ≤ 1
Reach-exclusive all s r = Control-holds (Reach-Inv r).control

Holds-prefix :
    (all : Bytes) (m : Mode) (buf input output : Bytes)
    → Holds all m buf input output
    → (rest : Bytes) × (all ≡ output ++ rest)
Holds-prefix all settled buf input output h = (input, h)
Holds-prefix all (pending n) buf input output h = (_, h.0)
Holds-prefix all complete buf input output h = ([], h ∙ sym (append-nil output))
Holds-prefix all lost buf input output h = h

Holds-complete :
    (all : Bytes) (m : Mode) (buf input output : Bytes)
    → m ≡ complete
    → Holds all m buf input output
    → output ≡ all
Holds-complete all settled buf input output e h = cc
Holds-complete all (pending n) buf input output e h = cc
Holds-complete all complete buf input output e h = sym h
Holds-complete all lost buf input output e h = cc

Away-open : {n : ℕ} {w : WriterAt} → Away n w → (w ≢ w_remove) × (w ≢ w_ended)
Away-open checks = (λ e. cc, λ e. cc)
Away-open returns = (λ e. cc, λ e. cc)
Away-open leaves = (λ e. cc, λ e. cc)
Away-open dead = (λ e. cc, λ e. cc)

Idle-open : {r : ReaderAt} → Idle r → r ≢ r_ended
Idle-open waiting e = cc
Idle-open dead e = cc

Control-complete :
    {ws rs : ℕ} {w : WriterAt} {r : ReaderAt} {c : ℤ} {m : Mode}
    → Control ws rs w r c m
    → (r ≡ r_ended) ⊎ ((w ≡ w_remove) ⊎ (w ≡ w_ended))
    → m ≡ complete
Control-complete (begins i) q = ground (arith, Idle-open i)
Control-complete (never i) q = ground (arith, Idle-open i)
Control-complete (over w i) q = ground (arith, Away-open w, Idle-open i)
Control-complete (reads i) q = ground (arith, Idle-open i)
Control-complete (has_read i) q = ground (arith, Idle-open i)
Control-complete (handed w i) q = ground (arith, Away-open w, Idle-open i)
Control-complete (looks w) q = ground (arith, Away-open w)
Control-complete (writes w) q = ground (arith, Away-open w)
Control-complete (releases w) q = ground (arith, Away-open w)
Control-complete (last w) q = refl
Control-complete (left w) q = refl
Control-complete removes q = refl
Control-complete ended q = refl
Control-complete not_removed q = refl
Control-complete (writer_lost i) q = ground (arith, Idle-open i)
Control-complete (reader_lost w) q = ground (arith, Away-open w)

-- In every state that the two processes can reach in any order of turns, whatever calls were
-- interrupted or failed, what the reader has written is a prefix of the writer's input.
pub Reach-prefix :
    (all : Bytes) (s : State) → Reach all s → (rest : Bytes) × (all ≡ s.output ++ rest)
Reach-prefix all s r =
    let i = Reach-Inv r in Holds-prefix all i.mode s.shm.buf s.input s.output i.bytes

-- In every state that the two processes can reach in any order of turns, whatever calls were
-- interrupted or failed: once the reader has ended, or the writer has begun to remove the
-- semaphores or has ended, the reader has written the writer's input, whole and in order.
pub Reach-output :
    (all : Bytes) (s : State)
    → Reach all s
    → (s.reader ≡ r_ended) ⊎ ((s.writer ≡ w_remove) ⊎ (s.writer ≡ w_ended))
    → s.output ≡ all
Reach-output all s r q =
    let i = Reach-Inv r in
    Holds-complete all i.mode s.shm.buf s.input s.output (Control-complete i.control q) i.bytes

-- A process can go on, its call not being interrupted and not failing.
abbrev pub Moves : State → Type 0
Moves s =
    ((t : State) × (writer_turn s.writer (completes 0) s ≡ some t))
    ⊎ ((t : State) × (reader_turn s.reader (completes 0) s ≡ some t))

Control-Moves :
    {ws rs : ℕ} {w : WriterAt} {r : ReaderAt} {c : ℤ} {m : Mode}
    → Control ws rs w r c m
    → w ≢ w_failed
    → r ≢ r_failed
    → (buf input output : Bytes) (sent received : Counts)
    → ((w ≡ w_ended) × (r ≡ r_ended)) ⊎ Moves (state ws rs w r c buf input output sent received)
unfolding writer_turn reader_turn
Control-Moves (begins i) wo ro b x y s t = inr (inl (_, refl))
Control-Moves (never i) wo ro b x y s t = absurd (wo refl)
Control-Moves (over checks i) wo ro b x y s t = inr (inl (_, refl))
Control-Moves (over returns i) wo ro b x y s t = inr (inl (_, refl))
Control-Moves (over dead i) wo ro b x y s t = absurd (wo refl)
Control-Moves (reads i) wo ro b x y s t = inr (inl (_, refl))
Control-Moves (has_read i) wo ro b x y s t = inr (inl (_, refl))
Control-Moves (handed w waiting) wo ro b x y s t = inr (inr (_, refl))
Control-Moves (handed w dead) wo ro b x y s t = absurd (ro refl)
Control-Moves (looks w) wo ro b x y s t = inr (inr (_, refl))
Control-Moves (writes w) wo ro b x y s t = inr (inr (_, refl))
Control-Moves (releases w) wo ro b x y s t = inr (inr (_, refl))
Control-Moves (last w) wo ro b x y s t = inr (inr (_, refl))
Control-Moves (left checks) wo ro b x y s t = inr (inl (_, refl))
Control-Moves (left leaves) wo ro b x y s t = inr (inl (_, refl))
Control-Moves (left dead) wo ro b x y s t = absurd (wo refl)
Control-Moves removes wo ro b x y s t = inr (inl (_, refl))
Control-Moves ended wo ro b x y s t = inl (refl, refl)
Control-Moves not_removed wo ro b x y s t = absurd (wo refl)
Control-Moves (writer_lost i) wo ro b x y s t = absurd (wo refl)
Control-Moves (reader_lost w) wo ro b x y s t = absurd (ro refl)

-- In every state that the two processes can reach, unless one of them has failed, one of them can
-- go on with a call that is neither interrupted nor fails, or both have ended: no order of turns
-- leads to a state where both wait.
pub Reach-Moves :
    (all : Bytes) (s : State)
    → Reach all s
    → s.writer ≢ w_failed
    → s.reader ≢ r_failed
    → ((s.writer ≡ w_ended) × (s.reader ≡ r_ended)) ⊎ Moves s
Reach-Moves all s r w_ok r_ok =
    Control-Moves (Reach-Inv r).control w_ok r_ok s.shm.buf s.input s.output s.sent s.received
