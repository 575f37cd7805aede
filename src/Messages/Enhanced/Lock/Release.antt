-- ===== src/Messages/Enhanced/Lock/Release.antt =====
-- The way out of the section of SP_HW10/program_enhanced.c.
use network_system_programmi.Base.{ℕ, ◌≡◌, refl, sym, ◌∙◌, Bool, true, [], ◌∷◌, arith, update-same}
use network_system_programmi.Messages.{Bytes}
use network_system_programmi.Messages.Enhanced.Lock.{
  Producer, writes, Consumer, pauses, reads, prints, compares, exited, System, in_section_p,
  in_section, Step, producer_write, producer_release, consumer_read, consumer_end, consumer_release,
  Reach,
}
use network_system_programmi.Messages.Enhanced.Lock.Owner.{
  free, producer_in, consumer_in, Reach-Owner,
}
use network_system_programmi.Messages.Enhanced.Lock.Whole.{Text, ConsumerOk, Reach-Inv}

module _ (data_num buf : ℕ) (luck : Bool) where
  -- Any number of steps.
  pub data Steps : System → System → Type 0 where
    none_left : {t : System} → Steps t t
    step : {t u v : System} → Step data_num buf luck t u → Steps u v → Steps t v

  abbrev pub Freed : System → Type 0
  Freed t = (u : System) × Steps t u × (u.lock ≡ 0)

  one_more : {t u : System} → Step data_num buf luck t u → Freed u → Freed t
  one_more st (v, ss, l) = (v, step st ss, l)

  producer_frees :
      (rest : Bytes) {t : System} {n s i : ℕ} → t.producer ≡ writes n s i rest → Freed t
  producer_frees [] e = (_, step (producer_release e) none_left, refl)
  producer_frees (c ∷ rest) e = one_more (producer_write e) (producer_frees rest refl)

  printing_frees :
      (i : ℕ) {t : System} {b s : ℕ} {text : Bytes} → t.consumer i ≡ prints b s text → Freed t
  printing_frees i e = (_, step (consumer_release i e) none_left, refl)

  reading_frees :
      (i : ℕ) (rest : Bytes) {t : System} {b s at : ℕ} {got : Bytes}
      → t.consumer i ≡ reads b s at got
      → Text (t.slots s) at rest
      → Freed t
  reading_frees i [] {t} e x =
      one_more (consumer_end i e x) (printing_frees i (update-same t.consumer i _))
  reading_frees i (c ∷ rest) {t} e x =
      one_more (consumer_read i e (λ z. x.1 (sym x.0 ∙ z)))
        (reading_frees i rest (update-same t.consumer i _) x.2)

  producer_out : {t : System} (p : Producer) → t.producer ≡ p → in_section_p p ≡ true → Freed t
  producer_out (writes n s i rest) e h = producer_frees rest e
  producer_out (Producer.spins n s) e h = absurd (ground (arith, h))
  producer_out (Producer.signals n s) e h = absurd (ground (arith, h))
  producer_out Producer.waits e h = absurd (ground (arith, h))

  consumer_out :
      {t : System} (i : ℕ) (c : Consumer)
      → t.consumer i ≡ c
      → in_section c ≡ true
      → ConsumerOk t.slots c
      → Freed t
  consumer_out i (reads b s at got) e h (rest, w, x) = reading_frees i rest e x
  consumer_out i (prints b s text) e h w = printing_frees i e
  consumer_out i (compares b s text) e h w = absurd (ground (arith, h))
  consumer_out i (pauses b s) e h w = absurd (ground (arith, h))
  consumer_out i (Consumer.spins b s) e h w = absurd (ground (arith, h))
  consumer_out i exited e h w = absurd (ground (arith, h))

  -- From every state that the producer and the consumers can come to, steps lead to a state where
  -- the lock is free: nobody spins on it for want of a way out of the section.
  pub Reach-Freed : {t : System} → Reach data_num buf luck t → Freed t
  Reach-Freed {t} r = elim (Reach-Owner data_num buf luck r) [
    | free l p c ↦ (t, none_left, l)
    | producer_in l p c ↦ producer_out t.producer refl p
    | consumer_in i l p c only ↦
        consumer_out i (t.consumer i) refl c ((Reach-Inv data_num buf luck r).texts i)
  ]
