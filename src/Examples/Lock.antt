-- ===== src/Examples/Lock.antt =====
-- The theorems on SP_HW10/program_enhanced.c.
use network_system_programmi.Base.{
  ℕ, zero, suc, ◌+◌, ◌*◌, ◌≡◌, not, ◌&&◌, update-same, refl, Bool, true, false, arith, update,
  replicate, decimal, pos, ◌==◌, [], ◌∷◌, ◌++◌, ltb→lt,
}
use network_system_programmi.Messages.{Bytes, message}
use network_system_programmi.Messages.Ring.{Short, up}
use network_system_programmi.Messages.Enhanced.{totals, program}
use network_system_programmi.Messages.Enhanced.Laws.{program-loses_all}
use network_system_programmi.Messages.Enhanced.Lock.{
  in_section, in_section_p, store, writes, waits, spins, reads, start, System, producer_swap,
  producer_write, producer_release, producer_signal, wake, consumer_swap, consumer_read,
  consumer_end, consumer_release, Reach, begin, later,
}
use network_system_programmi.Messages.Enhanced.Lock.Owner.{Reach-alone}
use network_system_programmi.Messages.Enhanced.Lock.Whole.{Whole, Reach-Whole}
use network_system_programmi.Messages.Enhanced.Lock.Release.{Freed, Reach-Freed}

-- The producer alone, until `strcpy` is done.
abbrev store_all : ℕ → Bytes → System → System
store_all i [] t = t
store_all i (c ∷ rest) t =
    store_all (i + 1) rest
      (record t { slots = store t.slots 0 i c; producer = writes 0 0 (i + 1) rest })

store_all-Reach :
    (i : ℕ) (rest : Bytes) {t : System}
    → Reach 1 1 false t
    → t.producer ≡ writes 0 0 i rest
    → Reach 1 1 false (store_all i rest t)
store_all-Reach i [] r e = r
store_all-Reach i (c ∷ rest) r e = store_all-Reach (i + 1) rest (later r (producer_write e)) refl

-- Consumer 0 alone, for so many bytes.
abbrev read_all : ℕ → ℕ → Bytes → System → System
read_all zero at got t = t
read_all (suc k) at got t =
    let more = got ++ t.slots 0 at ∷ [] in
    read_all k (at + 1) more (record t { consumer = update t.consumer 0 (reads 0 0 (at + 1) more) })

abbrev no_end : ℕ → ℕ → (ℕ → ℕ) → Bool
no_end zero at f = true
no_end (suc k) at f = not (f at == 0) && no_end k (at + 1) f

read_all-Reach :
    (k at : ℕ) (got : Bytes) {t : System}
    → Reach 1 1 false t
    → t.consumer 0 ≡ reads 0 0 at got
    → no_end k at (t.slots 0) ≡ true
    → Reach 1 1 false (read_all k at got t)
read_all-Reach zero at got r e h = r
read_all-Reach (suc k) at got {t} r e h =
    read_all-Reach k (at + 1) _ (later r (consumer_read 0 e (ground (arith, h))))
      (update-same t.consumer 0 _) (ground (arith, h))

abbrev inside : System
inside = record (start 1 1 false) { lock = 1; producer = writes 0 0 0 (message 0 ++ 0 ∷ []) }

abbrev stored : System
stored = store_all 0 (message 0 ++ 0 ∷ []) inside

inside-Reach : Reach 1 1 false inside
inside-Reach = later begin (producer_swap refl refl)

abbrev awake : System
awake = record stored {
  lock = 1;
  sent = 1;
  producer = waits;
  consumer = update (update stored.consumer 0 (spins 0 0)) 0 (reads 0 0 0 []);
  recv_seq = update stored.recv_seq 0 0;
}

awake-Reach : Reach 1 1 false awake
unfolding decimal
awake-Reach =
    let written = store_all-Reach 0 (message 0 ++ 0 ∷ []) inside-Reach refl in
    let sent = later (later written (producer_release refl)) (producer_signal refl) in
    later (later sent (wake 0 0 (ltb→lt _ _ refl) refl)) (consumer_swap 0 (update-same _ 0 _) refl)

-- One message, written and read.
Reach-Whole_example : Whole (message 0)
unfolding update decimal
Reach-Whole_example =
    let read = read_all-Reach 17 0 [] awake-Reach refl refl in
    Reach-Whole 1 1 false {text = message 0}
      (later (later read (consumer_end 0 refl refl)) (consumer_release 0 refl)) 0 refl

Reach-alone_example :
    ((i : ℕ) → in_section_p inside.producer ≡ true → in_section (inside.consumer i) ≡ false)
    × ((i j : ℕ)
        → in_section (inside.consumer i) ≡ true
        → in_section (inside.consumer j) ≡ true
        → j ≡ i)
Reach-alone_example = Reach-alone 1 1 false inside-Reach

Reach-Freed_example : Freed 1 1 false inside
Reach-Freed_example = Reach-Freed 1 1 false inside-Reach

two-Short : Short 2 0
unfolding decimal
two-Short = (omega arith, (omega arith, tt))

program-loses_all_example :
    program up false 2 3 1 (λ ss i. ss) (replicate 80 0)
    ≡ totals (pos (2 * 3)) (pos (3 * 1)) (pos 1)
program-loses_all_example =
    program-loses_all 0 1 2 (replicate 80 0) (omega arith) two-Short (omega arith)
