-- ===== src/Messages/Laws.antt =====
-- What a consumer of SP_HW10 recognises.
use network_system_programmi.Base.{
  ℕ, zero, suc, ◌+◌, ◌/◌, ◌%◌, ◌≡◌, refl, ap, ◌∙◌, Bool, true, false, some, List, [], ◌∷◌, ◌++◌,
  if◌then◌else◌, ◌==◌, drop, c_string, digits, decimal, digits_value, atoi, Starts-decimal,
  atoi-digit, digits_value-digits, pos, NoDelim, skip_delims, scan_key, strtok, strtok-NoDelim,
  arith, Bool-cases, inl, inr, length,
}
use network_system_programmi.Messages.{
  Bytes, is_blank, Compared, returns, no_return, unless_zero, key_loop, seqcmp, message, next_slot,
  Signal, recognised, consumer_loop,
}

digits-append : (f n : ℕ) (acc t : Bytes) → digits f n acc ++ t ≡ digits f n (acc ++ t)
unfolding digits
digits-append zero n acc t = refl
digits-append (suc f) n acc t = elim (Bool-cases (n / 10 == 0)) [
  | inl e ↦ rw e refl
  | inr e ↦ rw e (digits-append f (n / 10) ((48 + n % 10) ∷ acc) t)
]

digits-NoDelim : (f n : ℕ) (acc : Bytes) → NoDelim is_blank acc → NoDelim is_blank (digits f n acc)
unfolding digits
digits-NoDelim zero n acc h = h
digits-NoDelim (suc f) n acc h =
    let d : is_blank (48 + n % 10) ≡ false = ground arith in
    elim (Bool-cases (n / 10 == 0)) [
      | inl e ↦ rw e (d, h)
      | inr e ↦ rw e (digits-NoDelim f (n / 10) ((48 + n % 10) ∷ acc) (d, h))
    ]

-- The last key of a message, with the newline that the consumer put behind it.
abbrev last_key : ℕ → Bytes
last_key n = decimal n ++ 10 ∷ []

last_key-NoDelim : (n : ℕ) → NoDelim is_blank (last_key n)
unfolding decimal
last_key-NoDelim n =
    rw (digits-append (suc n) n [] (10 ∷ [])) (digits-NoDelim (suc n) n (10 ∷ []) (refl, tt))

strtok-last_key :
    (n : ℕ) → strtok is_blank (last_key n) ≡ some (record { token = last_key n; rest = [] })
strtok-last_key n =
    let (d, r, e, h) = Starts-decimal n in
    let nb : NoDelim is_blank (((48 + d) ∷ r) ++ 10 ∷ []) = rw e at (last_key-NoDelim n) in
    rw e (strtok-NoDelim is_blank (48 + d) (r ++ 10 ∷ []) nb)

digits_value-last_key : (n : ℕ) → digits_value 0 (last_key n) ≡ n
unfolding decimal digits_value
digits_value-last_key n =
    rw (digits-append (suc n) n [] (10 ∷ []))
      (digits_value-digits (suc n) n (10 ∷ []) (omega arith))

atoi-last_key : (n : ℕ) → atoi (last_key n) ≡ pos n
atoi-last_key n =
    let (d, r, e, h) = Starts-decimal n in
    let v : digits_value 0 (((48 + d) ∷ r) ++ 10 ∷ []) ≡ n = rw e at (digits_value-last_key n) in
    rw e (atoi-digit d (r ++ 10 ∷ []) h ∙ ap pos v)

-- What `seqcmp` is to answer.
abbrev pub number_of : ℕ → Compared
number_of zero = no_return
number_of (suc n) = returns (pos (suc n))

unless_zero-number : (n : ℕ) → unless_zero (pos n) no_return ≡ number_of n
unless_zero-number zero = refl
unless_zero-number (suc n) = refl

key_loop-nil : (many : Compared) → key_loop many 0 [] ≡ no_return
unfolding key_loop strtok skip_delims
key_loop-nil many = refl

key_loop-last_key : (many : Compared) (n : ℕ) → key_loop many 1 (last_key n) ≡ number_of n
unfolding key_loop
key_loop-last_key many n =
    rw (key_loop, strtok-last_key n, atoi-last_key n, key_loop-nil many) (unless_zero-number n)

-- Three words that are no numbers, and the number.
pub key_loop-message :
    (many : Compared) (n : ℕ) → key_loop many 4 (message n ++ 10 ∷ []) ≡ number_of n
unfolding key_loop strtok skip_delims scan_key atoi digits_value
key_loop-message many n = key_loop-last_key many n

-- From a message with its newline `seqcmp` returns the number in it, if that is not 0; on message 0
-- it ends without a return.
pub seqcmp-message : (n : ℕ) → seqcmp (message n ++ 10 ∷ []) ≡ number_of n
unfolding seqcmp
seqcmp-message n = key_loop-message (returns (pos 0)) n

-- At each wake-up the slot that the consumer looks at holds the message of the signal.
abbrev pub Shows : (b buf ptr : ℕ) → List Signal → Type 0
Shows b buf ptr [] = Unit
Shows b buf ptr (s ∷ ss) =
    (c_string (drop ptr s.memory) ≡ message s.number) × Shows (b + 1) buf (next_slot buf b ptr) ss

-- Of the signals, those with a number other than 0; and those with 0, if luck has it.
abbrev pub known : Bool → List Signal → ℕ
known luck [] = 0
known luck (s ∷ ss) = (if s.number == 0 then (if luck then 1 else 0) else 1) + known luck ss

recognised-number :
    (luck : Bool) (n : ℕ) (k : ℕ)
    → (if recognised luck n (number_of n) then 1 + k else k)
      ≡ (if n == 0 then (if luck then 1 else 0) else 1) + k
recognised-number true zero k = omega arith
recognised-number false zero k = omega arith
recognised-number luck (suc n) k = ground arith

-- Each signal that the consumer catches counts by its number alone, for a `seqcmp` that reads the
-- number of every message.
pub consumer_loop_lem :
    (compare : Bytes → Compared)
    → ((n : ℕ) → compare (message n ++ 10 ∷ []) ≡ number_of n)
    → (luck : Bool) (ss : List Signal) (b buf ptr : ℕ) → Shows b buf ptr ss
    → consumer_loop compare luck (length ss) b buf ptr ss ≡ known luck ss
unfolding consumer_loop
consumer_loop_lem compare reads luck [] b buf ptr h = refl
consumer_loop_lem compare reads luck (s ∷ ss) b buf ptr h =
    let rest = consumer_loop_lem compare reads luck ss (b + 1) buf (next_slot buf b ptr) h.1 in
    rw (h.0, reads s.number, rest) (recognised-number luck s.number (known luck ss))
