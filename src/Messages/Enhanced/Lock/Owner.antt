-- ===== src/Messages/Enhanced/Lock/Owner.antt =====
-- Who is between the compare-and-swap and the release in SP_HW10/program_enhanced.c.
use network_system_programmi.Base.{
  ℕ, suc, ◌≡◌, refl, sym, ap, ◌∙◌, inl, inr, Bool, true, false, arith, update, update-same, ◌==◌,
  Bool-cases,
}
use network_system_programmi.Messages.Enhanced.Lock.{
  after_signals, after_message, Consumer, System, in_section_p, in_section, Step, producer_spin,
  producer_swap, producer_write, producer_release, producer_signal, capture, wake, consumer_spin,
  consumer_swap, consumer_read, consumer_end, consumer_release, consumer_count, consumer_skip,
  start, Reach, begin, later,
}

abbrev NoConsumer : System → Type 0
NoConsumer t = (i : ℕ) → in_section (t.consumer i) ≡ false

pub data Owner (t : System) : Type 0 where
  free : t.lock ≡ 0 → in_section_p t.producer ≡ false → NoConsumer t → Owner t
  producer_in : t.lock ≡ 1 → in_section_p t.producer ≡ true → NoConsumer t → Owner t
  consumer_in :
      (i : ℕ)
      → t.lock ≡ 1
      → in_section_p t.producer ≡ false
      → in_section (t.consumer i) ≡ true
      → ((j : ℕ) → in_section (t.consumer j) ≡ true → j ≡ i)
      → Owner t

update-section :
    (f : ℕ → Consumer) (i : ℕ) (c : Consumer) {b : Bool}
    → in_section (f i) ≡ b
    → in_section c ≡ b
    → (j : ℕ) → in_section (update f i c j) ≡ in_section (f j)
unfolding update
update-section f i c before after j = elim (Bool-cases (j == i)) [
  | inl e ↦ let same : j ≡ i = ground arith in rw (e, same) (after ∙ sym before)
  | inr e ↦ rw e refl
]

module _ (f : ℕ → Consumer) (i : ℕ) (c : Consumer) where
  enters_alone :
      ((j : ℕ) → in_section (f j) ≡ false) → (j : ℕ) → in_section (update f i c j) ≡ true → j ≡ i
  unfolding update
  enters_alone out j e = elim (Bool-cases (j == i)) [
    | inl same ↦ ground arith
    | inr other ↦ absurd (ground (arith, out j, rw other at e))
  ]

  leaves_nobody :
      in_section c ≡ false
      → ((j : ℕ) → in_section (f j) ≡ true → j ≡ i)
      → (j : ℕ) → in_section (update f i c j) ≡ false
  unfolding update
  leaves_nobody out only j = elim (Bool-cases (j == i)) [
    | inl same ↦ rw same out
    | inr other ↦ rw other (elim (Bool-cases (in_section (f j))) [
      | inl e ↦ absurd (ground (arith, only j e))
      | inr e ↦ e
    ])
  ]

-- Steps that take nobody into the section or out of it.
same-Owner :
    {t u : System}
    → u.lock ≡ t.lock
    → in_section_p u.producer ≡ in_section_p t.producer
    → ((j : ℕ) → in_section (u.consumer j) ≡ in_section (t.consumer j))
    → Owner t
    → Owner u
same-Owner l p c (free a b d) = free (l ∙ a) (p ∙ b) (λ j. c j ∙ d j)
same-Owner l p c (producer_in a b d) = producer_in (l ∙ a) (p ∙ b) (λ j. c j ∙ d j)
same-Owner l p c (consumer_in i a b d only) =
    consumer_in i (l ∙ a) (p ∙ b) (c i ∙ d) (λ j e. only j (sym (c j) ∙ e))

-- With the lock free nobody is in the section; and one who is in it is there alone.
pub unlocked :
    {t : System} → Owner t → t.lock ≡ 0 → (in_section_p t.producer ≡ false) × NoConsumer t
unlocked (free a b c) l = (b, c)
unlocked (producer_in a b c) l = absurd (omega (arith, a, l))
unlocked (consumer_in i a b c d) l = absurd (omega (arith, a, l))

pub producer_alone : {t : System} → Owner t → in_section_p t.producer ≡ true → NoConsumer t
producer_alone (free a b c) p = c
producer_alone (producer_in a b c) p = c
producer_alone (consumer_in i a b c d) p = absurd (ground (arith, b, p))

pub consumer_alone :
    {t : System} (i : ℕ)
    → Owner t
    → in_section (t.consumer i) ≡ true
    → (in_section_p t.producer ≡ false) × ((j : ℕ) → in_section (t.consumer j) ≡ true → j ≡ i)
consumer_alone i (free a b c) h = absurd (ground (arith, c i, h))
consumer_alone i (producer_in a b c) h = absurd (ground (arith, c i, h))
consumer_alone i (consumer_in k a b c only) h = (b, λ j e. only j e ∙ sym (only i h))

module _ (data_num buf : ℕ) (luck : Bool) where
  pub after_signals-out : (n s : ℕ) → in_section_p (after_signals data_num buf luck n s) ≡ false
  after_signals-out n s = elim (Bool-cases (suc n == data_num)) [
    | inl e ↦ rw e refl
    | inr e ↦ rw e refl
  ]

  pub after_message-out : (b s : ℕ) → in_section (after_message data_num buf luck b s) ≡ false
  after_message-out b s = elim (Bool-cases (suc b == data_num)) [
    | inl e ↦ rw e refl
    | inr e ↦ rw e refl
  ]

  Step-Owner : {t u : System} → Step data_num buf luck t u → Owner t → Owner u
  unfolding update
  Step-Owner (producer_spin e l) o = o
  Step-Owner (producer_swap e l) o = producer_in refl refl (unlocked o l).1
  Step-Owner (producer_write e) o = same-Owner refl (ap in_section_p (sym e)) (λ j. refl) o
  Step-Owner (producer_release e) o = free refl refl (producer_alone o (ap in_section_p e))
  Step-Owner (producer_signal {n} {s} e) o =
      same-Owner refl (after_signals-out n s ∙ ap in_section_p (sym e)) (λ j. refl) o
  Step-Owner (capture i n h) o = same-Owner refl refl (λ j. refl) o
  Step-Owner {t} (wake i n h e) o =
      same-Owner refl refl (update-section t.consumer i _ (ap in_section e) refl) o
  Step-Owner (consumer_spin i e l) o = o
  Step-Owner {t} (consumer_swap i e l) o =
      let (p, out) = unlocked o l in
      consumer_in i refl p (ap in_section (update-same t.consumer i _))
        (enters_alone t.consumer i _ out)
  Step-Owner {t} (consumer_read i e c) o =
      same-Owner refl refl (update-section t.consumer i _ (ap in_section e) refl) o
  Step-Owner {t} (consumer_end i e c) o =
      same-Owner refl refl (update-section t.consumer i _ (ap in_section e) refl) o
  Step-Owner {t} (consumer_release i e) o =
      let (p, only) = consumer_alone i o (ap in_section e) in
      free refl p (leaves_nobody t.consumer i _ refl only)
  Step-Owner {t} (consumer_count i {b} {s} e c) o =
      same-Owner refl refl (update-section t.consumer i _ (ap in_section e) (after_message-out b s))
        o
  Step-Owner {t} (consumer_skip i {b} {s} e c) o =
      same-Owner refl refl (update-section t.consumer i _ (ap in_section e) (after_message-out b s))
        o

  pub start_producer-out : in_section_p (start data_num buf luck).producer ≡ false
  start_producer-out = elim (Bool-cases (data_num == 0)) [ inl e ↦ rw e refl | inr e ↦ rw e refl ]

  start-Owner : Owner (start data_num buf luck)
  start-Owner = free refl start_producer-out (λ i. refl)

  pub Reach-Owner : {t : System} → Reach data_num buf luck t → Owner t
  Reach-Owner begin = start-Owner
  Reach-Owner (later r st) = Step-Owner st (Reach-Owner r)

  -- However the producer and the consumers are interleaved: no two of them are ever between the
  -- compare-and-swap and the release at once.
  pub Reach-alone :
      {t : System}
      → Reach data_num buf luck t
      → ((i : ℕ) → in_section_p t.producer ≡ true → in_section (t.consumer i) ≡ false)
        × ((i j : ℕ) → in_section (t.consumer i) ≡ true → in_section (t.consumer j) ≡ true → j ≡ i)
  Reach-alone r =
      let o = Reach-Owner r in
      (λ i p. producer_alone o p i, λ i j a b. (consumer_alone i o a).1 j b)
