-- ===== src/Transfer/Counted.antt =====
-- What the two processes of the transfer of SP_HW9/54 have counted, with what they have yet to count.
use network_system_programmi.Base.{
  ℕ, zero, suc, ◌+◌, ◌*◌, ◌%◌, ◌≤◌, ◌<◌, ◌≡◌, ◌≢◌, refl, ap, ◌∙◌, take, drop, length, ℤ, pos,
  negsuc, arith, length-take, length-drop,
}
use network_system_programmi.Transfer.State.{
  Bytes, buf_size, WriterAt, w_reserve, w_read, w_release, w_check, w_last, w_remove, w_ended,
  w_failed, ReaderAt, r_reserve, r_look, r_write, r_release, r_last, r_ended, r_failed, State,
}
use network_system_programmi.Transfer.Measure.{chunk}
use network_system_programmi.Transfer.Laws.{read-end}
use network_system_programmi.Transfer.Reached.{reader_holds}

abbrev pub Fits : ℤ → Type 0
Fits (pos n) = n ≤ buf_size
Fits (negsuc n) = Unit

-- The count stands for x bytes; with n that are not counted yet and `rest` they are all of them.
pub record Carried (b n rest total : ℕ) : Type 0 where
  pub counted : ℕ
  pub count : b ≡ counted % 4294967296
  pub all_of : counted + n + rest ≡ total

abbrev pub Sent : ℕ → WriterAt → ℤ → Bytes → ℕ → Type 0
Sent total w_reserve c input b = Carried b 0 (length input) total
Sent total w_read c input b = Carried b 0 (length input) total
Sent total w_release (pos n) input b = Carried b n (length input) total × (n ≡ 0 → length input ≡ 0)
Sent total w_release (negsuc n) input b = ⊥
Sent total w_check (pos n) input b = Carried b n (length input) total × (n ≡ 0 → length input ≡ 0)
Sent total w_check (negsuc n) input b = ⊥
Sent total w_last c input b = b ≡ total % 4294967296
Sent total w_remove c input b = b ≡ total % 4294967296
Sent total w_ended c input b = b ≡ total % 4294967296
Sent total w_failed c input b = Unit

abbrev pub Received : ReaderAt → ℤ → ℕ → ℕ → Type 0
Received r_reserve c done b = b ≡ done % 4294967296
Received r_look (pos n) done b = b ≡ done % 4294967296
Received r_look (negsuc n) done b = ⊥
Received r_write (pos zero) done b = ⊥
Received r_write (pos (suc n)) done b = b ≡ (done + suc n) % 4294967296
Received r_write (negsuc n) done b = ⊥
Received r_release (pos zero) done b = ⊥
Received r_release (pos (suc n)) done b = b ≡ done % 4294967296
Received r_release (negsuc n) done b = ⊥
Received r_last c done b = b ≡ done % 4294967296
Received r_ended c done b = b ≡ done % 4294967296
Received r_failed c done b = Unit

-- The chunk that the writer has not counted yet.
abbrev pub uncounted : WriterAt → ℤ → ℕ
uncounted w_release c = chunk c
uncounted w_check c = chunk c
uncounted w c = 0

-- Who has the chunk, between `read` of the writer and the count of the reader.
abbrev pub releasing : WriterAt → ℕ
releasing w_release = 1
releasing w = 0

abbrev pub holds_chunk : ReaderAt → ℕ
holds_chunk r_look = 1
holds_chunk r_write = 1
holds_chunk r_release = 1
holds_chunk r = 0

-- The counts stand for numbers of chunks, which are the same once p and k * m are added.
pub record Even (k p m sent received : ℕ) : Type 0 where
  pub sent_by : ℕ
  pub got_by : ℕ
  pub sent_count : sent ≡ sent_by % 4294967296
  pub got_count : received ≡ got_by % 4294967296
  pub same : sent_by + p ≡ got_by + k * m

abbrev pub EvenState : ℕ → WriterAt → ReaderAt → ℤ → ℕ → ℕ → Type 0
EvenState rs w r c sent received =
    w ≢ w_failed
    → r ≢ r_failed
    → Even (chunk c) (uncounted w c) (releasing w + rs + holds_chunk r) sent received

abbrev pub Counted : ℕ → State → Type 0
Counted total s =
    Fits s.shm.cnt
    × (Sent total s.writer s.shm.cnt s.input s.sent.bytes
        × (Received s.reader s.shm.cnt (length s.output) s.received.bytes
            × EvenState s.sems.read_sem s.writer s.reader s.shm.cnt s.sent.xfrs s.received.xfrs))

pub Even-moved : {k p m n s r : ℕ} → m ≡ n → Even k p m s r → Even k p n s r
Even-moved {k = k} e h = record {
  sent_by = h.sent_by;
  got_by = h.got_by;
  sent_count = h.sent_count;
  got_count = h.got_count;
  same = h.same ∙ ap (λ t. h.got_by + k * t) e;
}

pub Received-idle :
    (r : ReaderAt) (c d : ℤ) (done b : ℕ)
    → reader_holds r ≡ 0
    → Received r c done b
    → Received r d done b
Received-idle r_reserve c d done b e h = h
Received-idle r_look c d done b e h = absurd (omega arith)
Received-idle r_write c d done b e h = absurd (omega arith)
Received-idle r_release c d done b e h = absurd (omega arith)
Received-idle r_last c d done b e h = h
Received-idle r_ended c d done b e h = h
Received-idle r_failed c d done b e h = h

pub holds-chunk : (r : ReaderAt) → reader_holds r ≡ 0 → holds_chunk r ≡ 0
holds-chunk r_reserve e = refl
holds-chunk r_look e = e
holds-chunk r_write e = e
holds-chunk r_release e = e
holds-chunk r_last e = refl
holds-chunk r_ended e = refl
holds-chunk r_failed e = refl

pub Carried-add :
    {b n rest total : ℕ} → Carried b n rest total → Carried ((b + n) % 4294967296) 0 rest total
Carried-add {n = n} h = record {
  counted = h.counted + n;
  count = omega (arith, h.count);
  all_of = omega (arith, h.all_of);
}

pub Carried-all : {b rest total : ℕ} → Carried b 0 rest total → rest ≡ 0 → b ≡ total % 4294967296
Carried-all h z = omega (arith, h.count, h.all_of)

-- What `read` takes off the input is the chunk.
pub read-Sent :
    (total n b : ℕ) (input : Bytes)
    → 0 < n
    → Carried b 0 (length input) total
    → Sent total w_release (pos (length (take n input))) (drop n input) b
read-Sent total n b input lo h = (
  record {
    counted = h.counted;
    count = h.count;
    all_of = omega (arith, h.all_of, length-take n input, length-drop n input);
  },
  λ z. ap length (read-end n input lo z),
)

-- Between its two semaphore calls the writer is alone with the memory.
pub read-Even :
    (rs : ℕ) (r : ReaderAt) (c d : ℤ) (sent received : ℕ)
    → rs + reader_holds r ≡ 0
    → Even (chunk c) 0 (0 + rs + holds_chunk r) sent received
    → Even (chunk d) (chunk d) (1 + rs + holds_chunk r) sent received
read-Even rs r c d sent received e h =
    let z = holds-chunk r (omega arith) in
    let g : Even (chunk c) 0 0 sent received = Even-moved (omega (arith, z)) h in
    let given : Even (chunk d) (chunk d) 1 sent received = record {
      sent_by = g.sent_by;
      got_by = g.got_by;
      sent_count = g.sent_count;
      got_count = g.got_count;
      same = omega (arith, g.same);
    } in
    Even-moved (omega (arith, z)) given

pub Even-sent :
    {m sent received : ℕ} → Even 1 1 m sent received → Even 1 0 m ((sent + 1) % 4294967296) received
Even-sent h = record {
  sent_by = h.sent_by + 1;
  got_by = h.got_by;
  sent_count = omega (arith, h.sent_count);
  got_count = h.got_count;
  same = omega (arith, h.same);
}

pub Even-got :
    {p m sent received : ℕ}
    → Even 1 p (suc m) sent received
    → Even 1 p m sent ((received + 1) % 4294967296)
Even-got h = record {
  sent_by = h.sent_by;
  got_by = h.got_by + 1;
  sent_count = h.sent_count;
  got_count = omega (arith, h.got_count);
  same = omega (arith, h.same);
}

pub Even-zero : {p m n sent received : ℕ} → Even 0 p m sent received → Even 0 p n sent received
Even-zero h = record {
  sent_by = h.sent_by;
  got_by = h.got_by;
  sent_count = h.sent_count;
  got_count = h.got_count;
  same = omega (arith, h.same);
}
