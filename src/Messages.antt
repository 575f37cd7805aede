-- ===== src/Messages.antt =====
-- SP_HW10/program.c: a producer writes numbered messages into a ring of slots in shared memory and sends
-- each consumer a signal with the number; a consumer counts the messages it recognises.
pub mod Enhanced
pub mod Laws
pub mod Ring
use network_system_programmi.Base.{
  ℕ, zero, suc, ◌+◌, ◌-◌, ◌*◌, ◌%◌, Bool, true, false, Option, none, some, List, [], ◌∷◌, ◌++◌,
  ◌&&◌, ◌||◌, strtok, if◌then◌else◌, ◌==◌, ltb, drop, write_at, c_string, codes, decimal, atoi,
  as_int, ℤ, pos, negsuc,
}

abbrev pub Bytes : Type 0
Bytes = List ℕ

-- `" \t"`
abbrev pub is_blank : ℕ → Bool
is_blank c = c == 32 || c == 9

-- What `seqcmp` returns; it may end without a `return`.
pub data Compared : Type 0 where
  returns : ℤ → Compared
  no_return : Compared

-- `if(seq = atoi(key)) return seq;`
abbrev pub unless_zero : ℤ → Compared → Compared
unless_zero (pos zero) next = next
unless_zero (pos (suc n)) next = returns (pos (suc n))
unless_zero (negsuc n) next = returns (negsuc n)

-- `while(key)`, with so many keys until `i > 4`, and what is returned then.
unfoldable pub key_loop : Compared → ℕ → Bytes → Compared
key_loop many zero s = elim (strtok is_blank s) [ none ↦ no_return | some k ↦ many ]
key_loop many (suc left) s = elim (strtok is_blank s) [
  | none ↦ no_return
  | some k ↦ unless_zero (atoi k.token) (key_loop many left k.rest)
]

unfoldable pub seqcmp : Bytes → Compared
seqcmp str = key_loop (returns (pos 0)) 4 str

-- `strcat(msg1, seq)`, with `sprintf(seq, "%d", n)`
abbrev pub message : ℕ → Bytes
message n = codes "This is message " ++ decimal n

-- `ptr += 80; if((n % buf) == (buf-1)) ptr = addr;`, as an offset from `addr`; buf is positive.
abbrev pub next_slot : ℕ → ℕ → ℕ → ℕ
next_slot buf n ptr = if n % buf == buf - 1 then 0 else ptr + 80

-- A signal: the number it carries, and the memory at that time.
pub record Signal : Type 0 where
  pub number : ℕ
  pub memory : Bytes

-- The loop of the producer, for so many messages from the n-th on: `strcpy(ptr, seq_msg)`, `sigqueue`.
unfoldable pub producer_loop : (left n buf ptr : ℕ) → Bytes → List Signal
producer_loop zero n buf ptr mem = []
producer_loop (suc left) n buf ptr mem =
    let written = write_at ptr (message n ++ 0 ∷ []) mem in
    record { number = n; memory = written }
    ∷ producer_loop left (n + 1) buf (next_slot buf n ptr) written

-- `sprintf(split, "%s\n", ptr)`
abbrev pub split_at : ℕ → Bytes → Bytes
split_at ptr mem = c_string (drop ptr mem) ++ 10 ∷ []

abbrev pub same_number : ℕ → ℤ → Bool
same_number n (pos m) = n == m
same_number n (negsuc m) = false

-- `recv_seq == seqcmp(split)`; `luck` is what comes of a value that was never returned.
abbrev pub recognised : Bool → ℕ → Compared → Bool
recognised luck n (returns v) = same_number n v
recognised luck n no_return = luck

-- The loop of a consumer, awake once for each signal it catches: what it adds to the common count.
-- `compare` is the `seqcmp` of the program.
module _ (compare : Bytes → Compared) where
  unfoldable pub consumer_loop : Bool → (left b buf ptr : ℕ) → List Signal → ℕ
  consumer_loop luck zero b buf ptr ss = 0
  consumer_loop luck (suc left) b buf ptr [] = 0
  consumer_loop luck (suc left) b buf ptr (s ∷ ss) =
      let rest = consumer_loop luck left (b + 1) buf (next_slot buf b ptr) ss in
      if recognised luck s.number (compare (split_at ptr s.memory)) then 1 + rest else rest

  -- The common count after so many consumers, consumer i being awake for the signals `caught i`.
  unfoldable pub received : Bool → ℕ → ℕ → (ℕ → List Signal) → ℕ → ℕ
  received luck data_num buf caught zero = 0
  received luck data_num buf caught (suc i) =
      received luck data_num buf caught i + consumer_loop luck data_num 0 buf 0 (caught i)

-- The answers of `shm_open`, `ftruncate`, `mmap`, and of `fork` and `sigqueue`.
pub record Calls : Type 0 where
  pub shm_open_ok : Bool
  pub ftruncate_ok : Bool
  pub mmap_ok : Bool
  pub fork_ok : Bool
  pub sigqueue_ok : Bool

abbrev pub all_succeed : Calls → Bool
all_succeed c = c.shm_open_ok && c.ftruncate_ok && c.mmap_ok && c.fork_ok && c.sigqueue_ok

pub data Ended : Type 0 where
  exits : Ended
  -- "Total message" and "Sum of received messages by all consumers"
  totals : ℤ → ℤ → Ended

-- `main`, where the product and the common count are `int`: `caught` says which of the signals sent each consumer is awake for.
unfoldable pub program :
    Calls
    → (luck : Bool) → (data_num consumer buf : ℕ) → (caught : List Signal → ℕ → List Signal) → Bytes
    → Ended
program c luck data_num consumer buf caught mem =
    let signals = producer_loop data_num 0 buf 0 mem in
    let run =
      totals (as_int (data_num * consumer))
        (as_int (received seqcmp luck data_num buf (caught signals) consumer)) in
    if all_succeed c then run else exits
