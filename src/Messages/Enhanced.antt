-- ===== src/Messages/Enhanced.antt =====
-- SP_HW10/program_enhanced.c: the ring of messages again, with another answer of `seqcmp` and the loss
-- rate in whole numbers. The lock around the slots is in Lock.
pub mod Laws
pub mod Lock
use network_system_programmi.Base.{
  ℕ, ◌+◌, ◌*◌, ◌&&◌, ◌||◌, Bool, List, if◌then◌else◌, ℤ, pos, negsuc, sub_ℕ, as_int, eq_int, quot,
}
use network_system_programmi.Messages.{
  Bytes, Compared, returns, key_loop, Signal, producer_loop, received, Calls, all_succeed,
}

-- `if(i > 4) return -1;`
unfoldable pub seqcmp : Bytes → Compared
seqcmp str = key_loop (returns (negsuc 0)) 4 str

pub data Ended : Type 0 where
  exits : Ended
  -- a division by 0, or of the least int by -1
  divide_error : Ended
  -- "Total message", "Sum of received messages by all consumers" and "Loss rate", whose value is an
  -- int until it is stored
  totals : ℤ → ℤ → ℤ → Ended

-- `1 - (*p/(data_num*consumer))` is a division of two values of type int.
abbrev pub one_minus : ℤ → ℤ
one_minus (pos n) = sub_ℕ 1 n
one_minus (negsuc n) = as_int (n + 2)

abbrev pub overflows : ℤ → ℤ → Bool
overflows sum total = eq_int sum (negsuc 2147483647) && eq_int total (negsuc 0)

abbrev pub report : (total sum : ℤ) → Ended
report total sum =
    if eq_int total (pos 0) || overflows sum total
    then divide_error
    else totals total sum (one_minus (quot sum total))

-- `main`: `caught` says which of the signals sent each consumer is awake for.
unfoldable pub program :
    Calls
    → (luck : Bool) → (data_num consumer buf : ℕ) → (caught : List Signal → ℕ → List Signal) → Bytes
    → Ended
program c luck data_num consumer buf caught mem =
    let signals = producer_loop data_num 0 buf 0 mem in
    let run =
      report (as_int (data_num * consumer))
        (as_int (received seqcmp luck data_num buf (caught signals) consumer)) in
    if all_succeed c then run else exits
