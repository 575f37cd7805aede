-- ===== src/Messages/Ring.antt =====
-- The slots of the ring of SP_HW10, and a consumer that keeps up with the producer.
use network_system_programmi.Base.{
  ℕ, zero, suc, ◌+◌, ◌-◌, ◌*◌, ◌/◌, ◌%◌, ◌≤◌, ◌<◌, ◌≡◌, refl, ap, sym, ◌∙◌, Bool, true, false, List,
  [], ◌∷◌, ◌++◌, if◌then◌else◌, ◌==◌, drop, write_at, write_at-start, drop-write_at,
  length-write_at, c_string, c_string-append, NoNul, codes, digits, decimal, length, length-append,
  length-drop, append_assoc, arith, Bool-cases, inl, inr, pos, as_int-fits,
}
use native.Mathlib.Nat.{mul_comm, suc-mul, mod-eq_of_lt, mod_self, suc-mod, zero-mod}
use native.Mathlib.Omega.{mod_fact}
use network_system_programmi.Messages.{
  Bytes, Compared, seqcmp, message, next_slot, Signal, producer_loop, consumer_loop, Calls, totals,
  received, program,
}
use network_system_programmi.Messages.Laws.{
  number_of, seqcmp-message, Shows, known, consumer_loop_lem,
}

mod_next : (n k : ℕ) → suc n % suc k ≡ (if n % suc k == k then 0 else suc (n % suc k))
mod_next n k = suc-mod n (suc k) ∙ elim (Bool-cases (n % suc k == k)) [
  | inl e ↦ let same : n % suc k ≡ k = ground arith in rw (e, same) (mod_self (suc k))
  | inr e ↦ rw e (mod-eq_of_lt (ground (arith, mod_fact n k)))
]

-- The pointer stands at slot n modulo the number of slots.
next_slot_lem : (n k : ℕ) → next_slot (suc k) n (80 * (n % suc k)) ≡ 80 * ((n + 1) % suc k)
next_slot_lem n k =
    let a : n + 1 ≡ suc n = omega arith in
    let b : suc k - 1 ≡ k = omega arith in
    rw (a, b, mod_next n k)
      (elim (Bool-cases (n % suc k == k)) [ inl e ↦ rw e refl | inr e ↦ rw e (omega arith) ])

digits-NoNul : (f n : ℕ) (acc : Bytes) → NoNul acc → NoNul (digits f n acc)
unfolding digits
digits-NoNul zero n acc h = h
digits-NoNul (suc f) n acc h =
    let d : (48 + n % 10 == 0) ≡ false = ground arith in
    elim (Bool-cases (n / 10 == 0)) [
      | inl e ↦ rw e (d, h)
      | inr e ↦ rw e (digits-NoNul f (n / 10) ((48 + n % 10) ∷ acc) (d, h))
    ]

NoNul-append : (s t : Bytes) → NoNul s → NoNul t → NoNul (s ++ t)
NoNul-append [] t h k = k
NoNul-append (c ∷ s) t h k = (h.0, NoNul-append s t h.1 k)

pub NoNul-message : (n : ℕ) → NoNul (message n)
unfolding decimal
NoNul-message n =
    NoNul-append (codes "This is message ") (decimal n)
      (
        refl,
        (
          refl,
          (
            refl,
            (
              refl,
              (
                refl,
                (
                  refl,
                  (
                    refl,
                    (refl, (refl, (refl, (refl, (refl, (refl, (refl, (refl, (refl, tt))))))))),
                  ),
                ),
              ),
            ),
          ),
        ),
      )
      (digits-NoNul (suc n) n [] tt)

-- A message that fits its slot is read back from it.
c_string-slot :
    (ptr : ℕ) (w mem : Bytes)
    → NoNul w
    → ptr + (length w + 1) ≤ length mem
    → c_string (drop ptr (write_at ptr (w ++ 0 ∷ []) mem)) ≡ w
c_string-slot ptr w mem h room =
    rw
      (
        drop-write_at ptr (w ++ 0 ∷ []) mem,
        write_at-start (w ++ 0 ∷ []) (drop ptr mem)
            (omega (arith, length-append w (0 ∷ []), length-drop ptr mem)),
        append_assoc w (0 ∷ []) (drop (length (w ++ 0 ∷ [])) (drop ptr mem)),
      )
      (c_string-append w _ h)

-- The buffers of 40 bytes hold the messages.
abbrev pub Short : (left n : ℕ) → Type 0
Short zero n = Unit
Short (suc left) n = (length (message n) < 40) × Short left (n + 1)

module _ (k : ℕ) where
  abbrev ptr_of : ℕ → ℕ
  ptr_of n = 80 * (n % suc k)

  producer_loop-Shows :
      (left n ptr : ℕ) (mem : Bytes)
      → ptr ≡ ptr_of n
      → 80 * suc k ≤ length mem
      → Short left n
      → Shows n (suc k) ptr (producer_loop left n (suc k) ptr mem)
  unfolding producer_loop
  producer_loop-Shows zero n ptr mem at room short = tt
  producer_loop-Shows (suc left) n ptr mem at room short = (
    c_string-slot ptr (message n) mem (NoNul-message n) (omega (arith, at, mod_fact n k, short.0)),
    producer_loop-Shows left (n + 1) (next_slot (suc k) n ptr) _ (rw at (next_slot_lem n k))
        (omega (arith, length-write_at ptr (message n ++ 0 ∷ []) mem)) short.1,
  )

  length-producer_loop :
      (left n ptr : ℕ) (mem : Bytes) → length (producer_loop left n (suc k) ptr mem) ≡ left
  unfolding producer_loop
  length-producer_loop zero n ptr mem = refl
  length-producer_loop (suc left) n ptr mem = ap suc (length-producer_loop left (n + 1) _ _)

  known-producer_loop :
      (luck : Bool) (left n ptr : ℕ) (mem : Bytes)
      → 0 < n
      → known luck (producer_loop left n (suc k) ptr mem) ≡ left
  unfolding producer_loop
  known-producer_loop luck zero n ptr mem h = refl
  known-producer_loop luck (suc left) n ptr mem h =
      let e : (n == 0) ≡ false = ground arith in
      rw (e, known-producer_loop luck left (n + 1) (next_slot (suc k) n ptr) _ (omega arith))
        (omega arith)

  known-first :
      (luck : Bool) (left : ℕ) (mem : Bytes)
      → known luck (producer_loop (suc left) 0 (suc k) 0 mem) ≡ (if luck then 1 else 0) + left
  unfolding producer_loop
  known-first luck left mem =
      rw
        (known-producer_loop luck left 1 (next_slot (suc k) 0 0)
          (write_at 0 (message 0 ++ 0 ∷ []) mem) (omega arith))
        refl

  -- From here on with a `seqcmp` that reads the number of every message.
  module _ (compare : Bytes → Compared)
      (reads : (n : ℕ) → compare (message n ++ 10 ∷ []) ≡ number_of n) where
    consumer_loop-producer_loop :
        (luck : Bool) (left : ℕ) (mem : Bytes)
        → 80 * suc k ≤ length mem
        → Short (suc left) 0
        → consumer_loop compare luck
            (suc left)
            0
            (suc k)
            0
            (producer_loop (suc left) 0 (suc k) 0 mem)
          ≡ (if luck then 1 else 0) + left
    consumer_loop-producer_loop luck left mem room short =
        let ss : List Signal = producer_loop (suc left) 0 (suc k) 0 mem in
        let at : 0 ≡ ptr_of 0 = omega (arith, zero-mod (suc k)) in
        let counted : consumer_loop compare luck (length ss) 0 (suc k) 0 ss ≡ known luck ss =
          consumer_loop_lem compare reads luck ss 0 (suc k) 0
            (producer_loop-Shows (suc left) 0 0 mem at room short) in
        ap (λ n. consumer_loop compare luck n 0 (suc k) 0 ss)
          (sym (length-producer_loop (suc left) 0 0 mem))
        ∙ counted
        ∙ known-first luck left mem

    pub received-all :
        (luck : Bool) (left c : ℕ) (mem : Bytes)
        → 80 * suc k ≤ length mem
        → Short (suc left) 0
        → received compare luck (suc left) (suc k) (λ i. producer_loop (suc left) 0 (suc k) 0 mem) c
          ≡ c * ((if luck then 1 else 0) + left)
    unfolding received
    received-all luck left zero mem room short = omega arith
    received-all luck left (suc c) mem room short =
        rw
          (
            received-all luck left c mem room short,
            consumer_loop-producer_loop luck left mem room short,
          )
          (sym (suc-mul c _))

-- Every call succeeds.
abbrev pub up : Calls
up = record {
  shm_open_ok = true;
  ftruncate_ok = true;
  mmap_ok = true;
  fork_ok = true;
  sigqueue_ok = true;
}

most : (luck : Bool) (left c : ℕ) → c * ((if luck then 1 else 0) + left) ≤ suc left * c
most true left c = rw (mul_comm (suc left) c) (omega arith)
most false left c = rw (suc-mul left c, mul_comm left c) (omega arith)

-- In a ring of at least one slot, with messages shorter than the buffers of 40 bytes, and consumers
-- that are awake for every signal, fewer than 2 ^ 31 messages for all of them: `main` prints as sum
-- of received messages all but the first, number 0, once for each consumer; the first is counted
-- only if a value that `seqcmp` never returned happens to be 0.
pub program_lem :
    (k left c : ℕ) (luck : Bool) (mem : Bytes)
    → 80 * suc k ≤ length mem
    → Short (suc left) 0
    → suc left * c < 2147483648
    → program up luck (suc left) c (suc k) (λ ss i. ss) mem
      ≡ totals (pos (suc left * c)) (pos (c * ((if luck then 1 else 0) + left)))
unfolding program
program_lem k left c luck mem room short fits =
    let sum = received-all k seqcmp seqcmp-message luck left c mem room short in
    let less : c * ((if luck then 1 else 0) + left) ≤ suc left * c = most luck left c in
    rw
      (
        sum,
        as_int-fits (suc left * c) fits,
        as_int-fits (c * ((if luck then 1 else 0) + left)) (omega (arith, less, fits)),
      )
      refl
