-- ===== src/Signals/SystemV.antt =====
-- What System V promises of the signal functions, and where system_v.c keeps it.
use network_system_programmi.Base.{
  ℕ, ◌≡◌, ◌≢◌, refl, sym, ◌∙◌, Bool, true, false, ◌&&◌, ◌||◌, List, [], ◌∷◌, arith, if◌then◌else◌,
  ◌==◌, update, update-same, update-other, Bool-cases, inl, inr,
}
use network_system_programmi.Signals.{
  Handler, Flags, Sigaction, sig_dfl, sig_ign, function, Signals, State, is_signal, can_change,
  can_change→is_signal, sigaddset, my_sigset, my_sigignore, my_sighold, set_handler,
}

-- The signals that are held, and the disposition of each.
pub record SysV : Type 0 where
  pub held : Signals
  pub disposition : ℕ → Handler

-- `sigset` with SIG_DFL or with a function, `sighold` and `sigignore`.
pub data Call : Type 0 where
  set_default : ℕ → Call
  set_function : ℕ → ℕ → Call
  hold : ℕ → Call
  ignore : ℕ → Call

abbrev dispose : ℕ → Handler → SysV → SysV
dispose sig h a =
    if can_change sig then record a { disposition = update a.disposition sig h } else a

-- A signal whose disposition is set by `sigset` is no longer held.
abbrev release_held : ℕ → SysV → SysV
release_held sig a = record a { held = update a.held sig false }

abbrev pub promise : Call → SysV → SysV
promise (set_default sig) a = release_held sig (dispose sig sig_dfl a)
promise (set_function sig f) a = release_held sig (dispose sig (function f) a)
promise (hold sig) a = if can_change sig then record a { held = update a.held sig true } else a
promise (ignore sig) a = dispose sig sig_ign a

abbrev pub run_call : Call → State → State
run_call (set_default sig) t = (my_sigset sig sig_dfl t).state
run_call (set_function sig f) t = (my_sigset sig (function f) t).state
run_call (hold sig) t = (my_sighold sig t).state
run_call (ignore sig) t = (my_sigignore sig t).state

-- The process is as promised, and all that the static mask would block is blocked.
pub record Models (t : State) (a : SysV) : Type 0 where
  pub held : (s : ℕ) → t.process.blocked s ≡ a.held s
  pub disposition : (s : ℕ) → (t.process.actions s).sa_handler ≡ a.disposition s
  pub mask : (s : ℕ) → (t.sa.sa_mask s && can_change s) ≡ true → t.process.blocked s ≡ true

-- `sigset` is only used on signals that are not held.
abbrev pub Allowed : Call → SysV → Type 0
Allowed (set_default sig) a = a.held sig ≡ false
Allowed (set_function sig f) a = a.held sig ≡ false
Allowed (hold sig) a = Unit
Allowed (ignore sig) a = Unit

abbrev pub AllAllowed : List Call → SysV → Type 0
AllAllowed [] a = Unit
AllAllowed (c ∷ cs) a = Allowed c a × AllAllowed cs (promise c a)

unfoldable pub run_calls : List Call → State → State
run_calls [] t = t
run_calls (c ∷ cs) t = run_calls cs (run_call c t)

unfoldable pub promise_calls : List Call → SysV → SysV
promise_calls [] a = a
promise_calls (c ∷ cs) a = promise_calls cs (promise c a)

-- Setting an action sets the disposition.
disposed :
    (sig : ℕ) (act : Sigaction) (actions : ℕ → Sigaction) (disposition : ℕ → Handler)
    → ((s : ℕ) → (actions s).sa_handler ≡ disposition s)
    → (s : ℕ) → (update actions sig act s).sa_handler ≡ update disposition sig act.sa_handler s
unfolding update
disposed sig act actions disposition h s = elim (Bool-cases (s == sig)) [
  | inl e ↦ rw e refl
  | inr e ↦ rw e (h s)
]

-- Blocking what is blocked already changes nothing.
or_absorb : (b m : Bool) → (m ≡ true → b ≡ true) → (b || m) ≡ b
or_absorb true m h = refl
or_absorb false true h = sym (h refl)
or_absorb false false h = refl

or_right : (b m : Bool) → m ≡ true → (b || m) ≡ true
or_right true m h = refl
or_right false m h = h

and_false : (b : Bool) {A : Type 0} → (b && false) ≡ true → A
and_false true h = absurd (ground (arith, h))
and_false false h = absurd (ground (arith, h))

-- The mask with the signal added, at a signal that is not the one that can be held.
added-mask :
    (sig s : ℕ) (mask : Signals)
    → (s ≡ sig → can_change sig ≡ false)
    → (sigaddset sig mask s && can_change s) ≡ true
    → (mask s && can_change s) ≡ true
unfolding update
added-mask sig s mask off h = elim (Bool-cases (is_signal sig)) [
  | inr e ↦ rw e at h
  | inl e ↦ elim (Bool-cases (s == sig)) [
    | inr other ↦ rw (e, other) at h
    | inl same ↦
        let at : s ≡ sig = ground arith in let no = off at in and_false _ (rw (e, at, no) at h)
  ]
]

hold-Models :
    (sig : ℕ) (t : State) (a : SysV)
    → Models t a
    → Models (run_call (hold sig) t) (promise (hold sig) a)
unfolding my_sighold
hold-Models sig t a h = elim (Bool-cases (can_change sig)) [
  | inl can ↦ rw can (record {
    held = λ s. elim (Bool-cases (s == sig)) [
      | inl same ↦
          let at : s ≡ sig = ground arith in
          let signal = can_change→is_signal sig can in
          rw (at, update-same a.held sig true, signal, update-same t.sa.sa_mask sig true, can)
            (or_right (t.process.blocked sig) true refl)
      | inr other ↦
          let off : s ≢ sig = ground arith in
          or_absorb _ _ (λ m. h.mask s (added-mask sig s t.sa.sa_mask (λ e. absurd (off e)) m))
          ∙ h.held s
          ∙ sym (update-other a.held sig true off)
    ];
    disposition = h.disposition;
    mask = λ s m. or_right _ _ m;
  })
  | inr cannot ↦ rw cannot (record {
    held = λ s.
        or_absorb _ _ (λ m. h.mask s (added-mask sig s t.sa.sa_mask (λ e. cannot) m)) ∙ h.held s;
    disposition = h.disposition;
    mask = λ s m. or_right _ _ m;
  })
]

update-held :
    (held : Signals) (sig : ℕ) → held sig ≡ false → (s : ℕ) → update held sig false s ≡ held s
unfolding update
update-held held sig e s = elim (Bool-cases (s == sig)) [
  | inl same ↦ let at : s ≡ sig = ground arith in rw (same, at) (sym e)
  | inr other ↦ rw other refl
]

set_handler-Models :
    (sig : ℕ) (handler : Handler) (flags : Flags) (t : State) (a : SysV)
    → a.held sig ≡ false
    → Models t a
    → Models (set_handler sig handler flags t).state (release_held sig (dispose sig handler a))
unfolding set_handler
set_handler-Models sig handler flags t a free h = elim (Bool-cases (can_change sig)) [
  | inl can ↦ rw can (record {
    held = λ s. h.held s ∙ sym (update-held a.held sig free s);
    disposition = disposed sig _ t.process.actions a.disposition h.disposition;
    mask = λ s m. absurd (ground (arith, m));
  })
  | inr cannot ↦ rw cannot (record {
    held = λ s. h.held s ∙ sym (update-held a.held sig free s);
    disposition = h.disposition;
    mask = λ s m. absurd (ground (arith, m));
  })
]

ignore-Models :
    (sig : ℕ) (t : State) (a : SysV)
    → Models t a
    → Models (my_sigignore sig t).state (dispose sig sig_ign a)
unfolding my_sigignore
ignore-Models sig t a h = elim (Bool-cases (can_change sig)) [
  | inl can ↦ rw can (record {
    held = h.held;
    disposition = disposed sig _ t.process.actions a.disposition h.disposition;
    mask = h.mask;
  })
  | inr cannot ↦ rw cannot (record { held = h.held; disposition = h.disposition; mask = h.mask })
]

call-Models :
    (c : Call) (t : State) (a : SysV)
    → Allowed c a
    → Models t a
    → Models (run_call c t) (promise c a)
unfolding my_sigset
call-Models (hold sig) t a ok h = hold-Models sig t a h
call-Models (set_default sig) t a ok h = set_handler-Models sig sig_dfl _ t a ok h
call-Models (set_function sig f) t a ok h = set_handler-Models sig (function f) _ t a ok h
call-Models (ignore sig) t a ok h = ignore-Models sig t a h

-- Any sequence of calls of `my_sigset` with a function or SIG_DFL, of `my_sighold` and of
-- `my_sigignore`, in which `my_sigset` is not used on a held signal, does to a process what System
-- V promises of `sigset`, `sighold` and `sigignore`: the same signals are held, and each has the
-- same disposition.
pub run_calls-Models :
    (cs : List Call) (t : State) (a : SysV)
    → AllAllowed cs a
    → Models t a
    → Models (run_calls cs t) (promise_calls cs a)
unfolding run_calls promise_calls
run_calls-Models [] t a ok h = h
run_calls-Models (c ∷ cs) t a ok h =
    run_calls-Models cs (run_call c t) (promise c a) ok.1 (call-Models c t a ok.0 h)
