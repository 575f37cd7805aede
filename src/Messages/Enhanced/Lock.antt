-- ===== src/Messages/Enhanced/Lock.antt =====
-- SP_HW10/program_enhanced.c: the producer and the consumers interleaved, one shared access at a time.
pub mod Owner
pub mod Whole
pub mod Release
use network_system_programmi.Base.{
  ℕ, suc, ◌+◌, ◌-◌, ◌%◌, ◌≤◌, ◌<◌, ◌≡◌, ◌≢◌, Bool, true, false, [], ◌∷◌, ◌++◌, if◌then◌else◌, ◌==◌,
  update,
}
use network_system_programmi.Messages.{Bytes, message, recognised}
use network_system_programmi.Messages.Enhanced.{seqcmp}

-- Byte i of slot s stands at `addr + 80 * s + i`. The messages, shorter than 40 bytes, reach neither
-- the next slot nor the count and the lock, which stand behind byte 40 of the last slot.
abbrev pub Slots : Type 0
Slots = ℕ → ℕ → ℕ

abbrev pub store : Slots → ℕ → ℕ → ℕ → Slots
store m s i c = update m s (update (m s) i c)

-- Where the producer stands, with `n` and the slot of `ptr`.
pub data Producer : Type 0 where
  spins : (n s : ℕ) → Producer
  -- inside `strcpy`: the next byte, and what is left to write
  writes : (n s i : ℕ) → Bytes → Producer
  signals : (n s : ℕ) → Producer
  waits : Producer

-- Where a consumer stands, with `b` and the slot of `ptr`.
pub data Consumer : Type 0 where
  pauses : (b s : ℕ) → Consumer
  spins : (b s : ℕ) → Consumer
  -- inside `sprintf`: the next byte, and what was read so far
  reads : (b s i : ℕ) → Bytes → Consumer
  -- `split`, less its newline, is complete
  prints : (b s : ℕ) → Bytes → Consumer
  compares : (b s : ℕ) → Bytes → Consumer
  exited : Consumer

pub record System : Type 0 where
  pub lock : ℕ  -- *p1
  pub count : ℕ  -- *p
  pub slots : Slots
  pub sent : ℕ  -- how many numbers were queued as signals
  pub producer : Producer
  pub consumer : ℕ → Consumer
  pub recv_seq : ℕ → ℕ

-- Between the compare-and-swap and `*p1 = 0`.
abbrev pub in_section_p : Producer → Bool
in_section_p (writes n s i rest) = true
in_section_p (spins n s) = false
in_section_p (signals n s) = false
in_section_p waits = false

abbrev pub in_section : Consumer → Bool
in_section (reads b s i got) = true
in_section (prints b s text) = true
in_section (pauses b s) = false
in_section (spins b s) = false
in_section (compares b s text) = false
in_section exited = false

-- `ptr += 80; if((n % buf) == (buf-1)) ptr = addr;`
abbrev pub next_slot : ℕ → ℕ → ℕ → ℕ
next_slot buf n s = if n % buf == buf - 1 then 0 else s + 1

abbrev set_consumer : System → ℕ → Consumer → System
set_consumer t i c = record t { consumer = update t.consumer i c }

-- `data_num`, `buf`, and what comes of a value that was never returned.
module _ (data_num buf : ℕ) (luck : Bool) where
  abbrev pub after_signals : ℕ → ℕ → Producer
  after_signals n s = if suc n == data_num then waits else spins (suc n) (next_slot buf n s)

  abbrev pub after_message : ℕ → ℕ → Consumer
  after_message b s = if suc b == data_num then exited else pauses (suc b) (next_slot buf b s)

  -- When a signal arrives is left open: a number that was queued may reach a consumer at any time.
  pub data Step (t : System) : System → Type 0 where
    producer_spin : {n s : ℕ} → t.producer ≡ spins n s → t.lock ≢ 0 → Step t t
    producer_swap :
        {n s : ℕ}
        → t.producer ≡ spins n s
        → t.lock ≡ 0
        → Step t (record t { lock = 1; producer = writes n s 0 (message n ++ 0 ∷ []) })
    producer_write :
        {n s i c : ℕ} {rest : Bytes}
        → t.producer ≡ writes n s i (c ∷ rest)
        → Step t (record t { slots = store t.slots s i c; producer = writes n s (i + 1) rest })
    producer_release :
        {n s i : ℕ}
        → t.producer ≡ writes n s i []
        → Step t (record t { lock = 0; producer = signals n s })
    producer_signal :
        {n s : ℕ}
        → t.producer ≡ signals n s
        → Step t (record t { sent = suc n; producer = after_signals n s })
    capture : (i n : ℕ) → n < t.sent → Step t (record t { recv_seq = update t.recv_seq i n })
    wake :
        (i : ℕ) {b s : ℕ} (n : ℕ)
        → n < t.sent
        → t.consumer i ≡ pauses b s
        → Step t (set_consumer (record t { recv_seq = update t.recv_seq i n }) i (spins b s))
    consumer_spin : (i : ℕ) {b s : ℕ} → t.consumer i ≡ spins b s → t.lock ≢ 0 → Step t t
    consumer_swap :
        (i : ℕ) {b s : ℕ}
        → t.consumer i ≡ spins b s
        → t.lock ≡ 0
        → Step t (set_consumer (record t { lock = 1 }) i (reads b s 0 []))
    consumer_read :
        (i : ℕ) {b s at : ℕ} {got : Bytes}
        → t.consumer i ≡ reads b s at got
        → t.slots s at ≢ 0
        → Step t (set_consumer t i (reads b s (at + 1) (got ++ t.slots s at ∷ [])))
    consumer_end :
        (i : ℕ) {b s at : ℕ} {got : Bytes}
        → t.consumer i ≡ reads b s at got
        → t.slots s at ≡ 0
        → Step t (set_consumer t i (prints b s got))
    consumer_release :
        (i : ℕ) {b s : ℕ} {text : Bytes}
        → t.consumer i ≡ prints b s text
        → Step t (set_consumer (record t { lock = 0 }) i (compares b s text))
    consumer_count :
        (i : ℕ) {b s : ℕ} {text : Bytes}
        → t.consumer i ≡ compares b s text
        → recognised luck (t.recv_seq i) (seqcmp (text ++ 10 ∷ [])) ≡ true
        → Step t (set_consumer (record t { count = t.count + 1 }) i (after_message b s))
    consumer_skip :
        (i : ℕ) {b s : ℕ} {text : Bytes}
        → t.consumer i ≡ compares b s text
        → recognised luck (t.recv_seq i) (seqcmp (text ++ 10 ∷ [])) ≡ false
        → Step t (set_consumer t i (after_message b s))

  -- Fresh shared memory is zero.
  abbrev pub start : System
  start = record {
    lock = 0;
    count = 0;
    slots = λ s i. 0;
    sent = 0;
    producer = if data_num == 0 then waits else spins 0 0;
    consumer = λ i. pauses 0 0;
    recv_seq = λ i. 0;
  }

  pub data Reach : System → Type 0 where
    begin : Reach start
    later : {t u : System} → Reach t → Step t u → Reach u
