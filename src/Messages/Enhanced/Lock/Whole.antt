-- ===== src/Messages/Enhanced/Lock/Whole.antt =====
-- The texts that the consumers of SP_HW10/program_enhanced.c take from the slots.
use network_system_programmi.Base.{
  ℕ, suc, ◌+◌, ◌≡◌, ◌≢◌, refl, sym, ap, ◌∙◌, ◌⊎◌, inl, inr, Bool, false, [], ◌∷◌, ◌++◌, arith,
  update, update-same, update-other, update-All, ◌==◌, Bool-cases, length, append_assoc, append-nil,
  NoNul, length-append,
}
use mathlib.Core.Path.{subst}
use network_system_programmi.Messages.{Bytes, message}
use network_system_programmi.Messages.Ring.{NoNul-message}
use network_system_programmi.Messages.Enhanced.Lock.{
  after_message, Slots, Producer, writes, Consumer, pauses, reads, prints, compares, exited, System,
  in_section_p, in_section, Step, producer_spin, producer_swap, producer_write, producer_release,
  producer_signal, capture, wake, consumer_spin, consumer_swap, consumer_read, consumer_end,
  consumer_release, consumer_count, consumer_skip, start, Reach, begin, later,
}
use network_system_programmi.Messages.Enhanced.Lock.Owner.{
  Owner, unlocked, producer_alone, after_signals-out, start_producer-out, Reach-Owner,
}

-- No text, or a message from its first byte to its last.
abbrev pub Whole : Bytes → Type 0
Whole w = (w ≡ []) ⊎ ((n : ℕ) × (w ≡ message n))

-- From byte i on, the string w with the NUL behind it.
abbrev pub Text : (ℕ → ℕ) → ℕ → Bytes → Type 0
Text f i [] = f i ≡ 0
Text f i (c ∷ w) = (f i ≡ c) × (c ≢ 0) × Text f (i + 1) w

-- From byte i on, the bytes w.
abbrev Stored : (ℕ → ℕ) → ℕ → Bytes → Type 0
Stored f i [] = Unit
Stored f i (c ∷ w) = (f i ≡ c) × Stored f (i + 1) w

Stored-update :
    (f : ℕ → ℕ) (i : ℕ) (w : Bytes) (k c : ℕ)
    → Stored f i w
    → i + length w ≡ k
    → Stored (update f k c) i (w ++ c ∷ [])
Stored-update f i [] k c h e = (let at : k ≡ i = omega (arith, e) in rw at (update-same f i c), tt)
Stored-update f i (d ∷ w) k c h e =
    (update-other f k c (omega arith) ∙ h.0, Stored-update f (i + 1) w k c h.1 (omega arith))

Stored-Text : (f : ℕ → ℕ) (i : ℕ) (w : Bytes) → NoNul w → Stored f i (w ++ 0 ∷ []) → Text f i w
Stored-Text f i [] nn h = h.0
Stored-Text f i (c ∷ w) nn h = (h.0, ground (arith, nn.0), Stored-Text f (i + 1) w nn.1 h.1)

abbrev WholeAt : (ℕ → ℕ) → Type 0
WholeAt f = (w : Bytes) × Whole w × Text f 0 w

-- The producer has stored the bytes up to i.
abbrev ProducerOk : Slots → Producer → Type 0
ProducerOk m (writes n s i rest) =
    (done : Bytes) × (done ++ rest ≡ message n ++ 0 ∷ []) × (length done ≡ i) × Stored (m s) 0 done
ProducerOk m (Producer.spins n s) = Unit
ProducerOk m (Producer.signals n s) = Unit
ProducerOk m Producer.waits = Unit

-- The producer is not about to change slot s.
abbrev Away : Producer → ℕ → Type 0
Away (writes n k i rest) s = s ≢ k
Away (Producer.spins n k) s = Unit
Away (Producer.signals n k) s = Unit
Away Producer.waits s = Unit

-- What was read so far is the first part of a whole text, the rest of which is still there.
abbrev pub Reading : (ℕ → ℕ) → ℕ → Bytes → Type 0
Reading f i got = (rest : Bytes) × Whole (got ++ rest) × Text f i rest

abbrev pub ConsumerOk : Slots → Consumer → Type 0
ConsumerOk m (reads b s i got) = Reading (m s) i got
ConsumerOk m (prints b s text) = Whole text
ConsumerOk m (compares b s text) = Whole text
ConsumerOk m (pauses b s) = Unit
ConsumerOk m (Consumer.spins b s) = Unit
ConsumerOk m exited = Unit

pub record Inv (t : System) : Type 0 where
  pub written : ProducerOk t.slots t.producer
  pub whole : (s : ℕ) → Away t.producer s → WholeAt (t.slots s)
  pub texts : (i : ℕ) → ConsumerOk t.slots (t.consumer i)

out-Away : (p : Producer) (s : ℕ) → in_section_p p ≡ false → Away p s
out-Away (writes n k i rest) s e = absurd (ground (arith, e))
out-Away (Producer.spins n k) s e = tt
out-Away (Producer.signals n k) s e = tt
out-Away Producer.waits s e = tt

out-ProducerOk : (m : Slots) (p : Producer) → in_section_p p ≡ false → ProducerOk m p
out-ProducerOk m (writes n k i rest) e = absurd (ground (arith, e))
out-ProducerOk m (Producer.spins n k) e = tt
out-ProducerOk m (Producer.signals n k) e = tt
out-ProducerOk m Producer.waits e = tt

-- Outside the section a consumer does not depend on the slots.
out-ConsumerOk :
    (m k : Slots) (c : Consumer) → in_section c ≡ false → ConsumerOk m c → ConsumerOk k c
out-ConsumerOk m k (reads b s i got) e h = absurd (ground (arith, e))
out-ConsumerOk m k (prints b s text) e h = h
out-ConsumerOk m k (compares b s text) e h = h
out-ConsumerOk m k (pauses b s) e h = tt
out-ConsumerOk m k (Consumer.spins b s) e h = tt
out-ConsumerOk m k exited e h = tt

read_on :
    (f : ℕ → ℕ) (i : ℕ) (got : Bytes)
    → f i ≢ 0
    → Reading f i got
    → Reading f (i + 1) (got ++ f i ∷ [])
read_on f i got d ([], w, t) = absurd (d t)
read_on f i got d (c ∷ rest, w, t) = (rest, rw (append_assoc got (f i ∷ []) rest, t.0) w, t.2)

read_end : (f : ℕ → ℕ) (i : ℕ) (got : Bytes) → f i ≡ 0 → Reading f i got → Whole got
read_end f i got e ([], w, t) = rw (append-nil got) at w
read_end f i got e (c ∷ rest, w, t) = absurd (t.1 (sym t.0 ∙ e))

module _ (data_num buf : ℕ) (luck : Bool) where
  after_message-Ok : (m : Slots) (b s : ℕ) → ConsumerOk m (after_message data_num buf luck b s)
  after_message-Ok m b s = elim (Bool-cases (suc b == data_num)) [
    | inl e ↦ rw e tt
    | inr e ↦ rw e tt
  ]

  Step-Inv : {t u : System} → Step data_num buf luck t u → Owner t → Inv t → Inv u
  Step-Inv (producer_spin e l) o h = h
  Step-Inv {t} (producer_swap {n} {s} e l) o h = record {
    written = ([], refl, refl, tt);
    whole = λ k _. h.whole k (out-Away t.producer k (unlocked o l).0);
    texts = h.texts;
  }
  Step-Inv {t} (producer_write {n} {s} {i} {c} {rest} e) o h =
      let (done, all, len, st) = subst (ProducerOk t.slots) e h.written in
      let out = producer_alone o (ap in_section_p e) in
      record {
        written = (
          done ++ c ∷ [],
          append_assoc done (c ∷ []) rest ∙ all,
          omega (arith, length-append done (c ∷ []), len),
          rw (update-same t.slots s (update (t.slots s) i c))
              (Stored-update (t.slots s) 0 done i c st (omega (arith, len))),
        );
        whole = λ k d. rw (update-other t.slots s (update (t.slots s) i c) d) (h.whole k (rw e d));
        texts = λ j. out-ConsumerOk t.slots _ (t.consumer j) (out j) (h.texts j);
      }
  Step-Inv {t} (producer_release {n} {s} {i} e) o h =
      let (done, all, len, st) = subst (ProducerOk t.slots) e h.written in
      record {
        written = tt;
        whole = λ k _. elim (Bool-cases (k == s)) [
          | inl same ↦
              let here : k ≡ s = ground arith in
              let bytes : Stored (t.slots s) 0 (message n ++ 0 ∷ []) =
                subst (Stored (t.slots s) 0) (sym (append-nil done) ∙ all) st in
              subst (λ x. WholeAt (t.slots x)) (sym here)
                (
                  message n,
                  inr (n, refl),
                  Stored-Text (t.slots s) 0 (message n) (NoNul-message n) bytes,
                )
          | inr other ↦ h.whole k (rw e (ground (arith, other)))
        ];
        texts = h.texts;
      }
  Step-Inv {t} (producer_signal {n} {s} e) o h = record {
    written = out-ProducerOk t.slots _ (after_signals-out data_num buf luck n s);
    whole = λ k _. h.whole k (rw e tt);
    texts = h.texts;
  }
  Step-Inv (capture i n e) o h = record { written = h.written; whole = h.whole; texts = h.texts }
  Step-Inv {t} (wake i n lt e) o h = record {
    written = h.written;
    whole = h.whole;
    texts = update-All (ConsumerOk t.slots) t.consumer i _ h.texts tt;
  }
  Step-Inv (consumer_spin i e l) o h = h
  Step-Inv {t} (consumer_swap i {b} {s} e l) o h = record {
    written = h.written;
    whole = h.whole;
    texts =
        update-All (ConsumerOk t.slots) t.consumer i _ h.texts
          (h.whole s (out-Away t.producer s (unlocked o l).0));
  }
  Step-Inv {t} (consumer_read i {b} {s} {at} {got} e c) o h = record {
    written = h.written;
    whole = h.whole;
    texts =
        update-All (ConsumerOk t.slots) t.consumer i _ h.texts
          (read_on (t.slots s) at got c (subst (ConsumerOk t.slots) e (h.texts i)));
  }
  Step-Inv {t} (consumer_end i {b} {s} {at} {got} e c) o h = record {
    written = h.written;
    whole = h.whole;
    texts =
        update-All (ConsumerOk t.slots) t.consumer i _ h.texts
          (read_end (t.slots s) at got c (subst (ConsumerOk t.slots) e (h.texts i)));
  }
  Step-Inv {t} (consumer_release i e) o h = record {
    written = h.written;
    whole = h.whole;
    texts =
        update-All (ConsumerOk t.slots) t.consumer i _ h.texts
          (subst (ConsumerOk t.slots) e (h.texts i));
  }
  Step-Inv {t} (consumer_count i {b} {s} e c) o h = record {
    written = h.written;
    whole = h.whole;
    texts = update-All (ConsumerOk t.slots) t.consumer i _ h.texts (after_message-Ok t.slots b s);
  }
  Step-Inv {t} (consumer_skip i {b} {s} e c) o h = record {
    written = h.written;
    whole = h.whole;
    texts = update-All (ConsumerOk t.slots) t.consumer i _ h.texts (after_message-Ok t.slots b s);
  }

  start-Inv : Inv (start data_num buf luck)
  start-Inv = record {
    written = out-ProducerOk _ _ (start_producer-out data_num buf luck);
    whole = λ s _. ([], inl refl, refl);
    texts = λ i. tt;
  }

  pub Reach-Inv : {t : System} → Reach data_num buf luck t → Inv t
  Reach-Inv begin = start-Inv
  Reach-Inv (later r st) = Step-Inv st (Reach-Owner data_num buf luck r) (Reach-Inv r)

  -- However the producer and the consumers are interleaved, byte by byte: the text that a consumer
  -- compares is that of a slot not yet written, which is empty, or a whole message.
  pub Reach-Whole :
      {t : System} {b s : ℕ} {text : Bytes}
      → Reach data_num buf luck t
      → (i : ℕ) → t.consumer i ≡ compares b s text
      → Whole text
  Reach-Whole {t} r i e = subst (ConsumerOk t.slots) e ((Reach-Inv r).texts i)
