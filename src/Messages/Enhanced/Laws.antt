-- ===== src/Messages/Enhanced/Laws.antt =====
-- The loss rate that SP_HW10/program_enhanced.c prints.
use network_system_programmi.Base.{
  ℕ, zero, suc, ◌+◌, ◌*◌, ◌/◌, ◌≤◌, ◌<◌, ◌≡◌, refl, Bool, false, List, [], ◌∷◌, ◌++◌, ◌∙◌, ℤ,
  if◌then◌else◌, ◌==◌, length, arith, pos, negsuc, as_int-fits, Bool-cases, inl, inr,
}
use native.Mathlib.Nat.{mul_comm, suc-mul, mul-suc, div-eq_of_lt, div_self}
use network_system_programmi.Messages.{
  Bytes, Compared, returns, message, next_slot, Signal, producer_loop, split_at, recognised,
  consumer_loop, received,
}
use network_system_programmi.Messages.Enhanced.{seqcmp, totals, report, program}
use network_system_programmi.Messages.Laws.{number_of, key_loop-message}
use network_system_programmi.Messages.Ring.{Short, up, received-all}

-- `seqcmp` of the second program reads the messages as that of the first.
seqcmp-message : (n : ℕ) → seqcmp (message n ++ 10 ∷ []) ≡ number_of n
unfolding seqcmp
seqcmp-message n = key_loop-message (returns (negsuc 0)) n

module _ (compare : Bytes → Compared) (luck : Bool) (buf : ℕ) where
  consumer_loop-le :
      (left b ptr : ℕ) (ss : List Signal) → consumer_loop compare luck left b buf ptr ss ≤ left
  unfolding consumer_loop
  consumer_loop-le zero b ptr ss = omega arith
  consumer_loop-le (suc left) b ptr [] = omega arith
  consumer_loop-le (suc left) b ptr (s ∷ ss) =
      let rest = consumer_loop-le left (b + 1) (next_slot buf b ptr) ss in
      elim (Bool-cases (recognised luck s.number (compare (split_at ptr s.memory)))) [
        | inl e ↦ rw e (omega (arith, rest))
        | inr e ↦ rw e (omega (arith, rest))
      ]

  received-le :
      (data_num : ℕ) (caught : ℕ → List Signal) (c : ℕ)
      → received compare luck data_num buf caught c ≤ data_num * c
  unfolding received
  received-le data_num caught zero = omega arith
  received-le data_num caught (suc c) =
      rw (mul-suc data_num c)
        (omega (arith, received-le data_num caught c, consumer_loop-le data_num 0 0 (caught c)))

-- The loss rate can only be 0 or 1.
abbrev pub rate : (total sum : ℕ) → ℤ
rate total sum = pos (if sum == total then 0 else 1)

report-rate :
    (total sum : ℕ)
    → 0 < total
    → sum ≤ total
    → report (pos total) (pos sum) ≡ totals (pos total) (pos sum) (rate total sum)
report-rate total sum h le =
    let positive : (total == 0) ≡ false = ground arith in
    elim (Bool-cases (sum == total)) [
      | inl e ↦
          let same : sum ≡ total = ground arith in
          let one : sum / total ≡ 1 = rw same (div_self h) in rw (positive, one, e) refl
      | inr e ↦
          let none : sum / total ≡ 0 = div-eq_of_lt (ground arith) in rw (positive, none, e) refl
    ]

-- Whatever the consumers are awake for, with at least one message and one consumer and fewer than
-- 2 ^ 31 messages for all consumers: `main` prints 0 as loss rate if the common count is the total,
-- and 1 otherwise.
pub program-rate :
    (luck : Bool) (data_num consumer buf : ℕ) (caught : List Signal → ℕ → List Signal) (mem : Bytes)
    → 0 < data_num * consumer
    → data_num * consumer < 2147483648
    → let sum =
        received seqcmp luck data_num buf (caught (producer_loop data_num 0 buf 0 mem)) consumer in
      program up luck data_num consumer buf caught mem
      ≡ totals (pos (data_num * consumer)) (pos sum) (rate (data_num * consumer) sum)
unfolding program
program-rate luck data_num consumer buf caught mem h fits =
    let ss = caught (producer_loop data_num 0 buf 0 mem) in
    let sum = received seqcmp luck data_num buf ss consumer in
    let le : sum ≤ data_num * consumer = received-le seqcmp luck buf data_num ss consumer in
    rw (as_int-fits (data_num * consumer) fits, as_int-fits sum (omega (arith, le, fits)))
      (report-rate (data_num * consumer) sum h le)

-- In a ring of at least one slot, with messages shorter than the buffers of 40 bytes, at least one
-- consumer, all of them awake for every signal, and fewer than 2 ^ 31 messages for all of them:
-- `main` prints 1 as loss rate, though it has counted each message but the first once for each
-- consumer, if a value that `seqcmp` never returned is not taken for 0.
pub program-loses_all :
    (k left c : ℕ) (mem : Bytes)
    → 80 * suc k ≤ length mem
    → Short (suc left) 0
    → suc left * suc c < 2147483648
    → program up false (suc left) (suc c) (suc k) (λ ss i. ss) mem
      ≡ totals (pos (suc left * suc c)) (pos (suc c * left)) (pos 1)
unfolding program
program-loses_all k left c mem room short fits =
    let less : suc c * left < suc left * suc c =
      rw (suc-mul left (suc c), mul_comm (suc c) left) (omega arith) in
    let e : (suc c * left == suc left * suc c) ≡ false = ground arith in
    let counted : (if false then 1 else 0) + left ≡ left = omega arith in
    rw
      (
        received-all k seqcmp seqcmp-message false left (suc c) mem room short,
        counted,
        as_int-fits (suc left * suc c) fits,
        as_int-fits (suc c * left) (omega (arith, less, fits)),
      )
      (report-rate (suc left * suc c) (suc c * left) (omega (arith, less)) (omega (arith, less))
        ∙ rw e refl)
