-- ===== src/Signals/Release.antt =====
-- What `my_sigrelse` and `my_sigpause` of system_v.c release.
use network_system_programmi.Base.{
  ℕ, ◌≡◌, ◌≢◌, refl, ◌∙◌, Bool, true, false, ◌&&◌, ◌||◌, List, [], ◌∷◌, update-same, update-other,
}
use network_system_programmi.Signals.{
  State, is_signal, can_change, can_change→is_signal, my_sighold, my_sigrelse, my_sigpause,
}

and_true : (b : Bool) → (b && true) ≡ b
and_true true = refl
and_true false = refl

or_true : (b : Bool) → (b || true) ≡ true
or_true true = refl
or_true false = refl

and_false : (b : Bool) → (b && false) ≡ false
and_false true = refl
and_false false = refl

-- After `my_sigrelse` each other signal of the static mask is unblocked, and the signal itself is
-- blocked as it was before.
pub my_sigrelse_lem :
    (sig : ℕ) (t : State)
    → is_signal sig ≡ true
    → ((my_sigrelse sig t).state.process.blocked sig ≡ t.process.blocked sig)
      × ((s : ℕ)
          → s ≢ sig
          → t.sa.sa_mask s ≡ true
          → (my_sigrelse sig t).state.process.blocked s ≡ false)
unfolding my_sigrelse
my_sigrelse_lem sig t ok = (
  rw (ok, update-same t.sa.sa_mask sig false) (and_true _),
  λ s off held. rw (ok, update-other t.sa.sa_mask sig false off, held) (and_false _),
)

pub data Call : Type 0 where
  hold : Call
  relse : Call

abbrev pub run_call : ℕ → Call → State → State
run_call sig hold t = (my_sighold sig t).state
run_call sig relse t = (my_sigrelse sig t).state

unfoldable pub run_calls : ℕ → List Call → State → State
run_calls sig [] t = t
run_calls sig (c ∷ cs) t = run_calls sig cs (run_call sig c t)

hold-blocked :
    (sig : ℕ) (t : State) → can_change sig ≡ true → (run_call sig hold t).process.blocked sig ≡ true
unfolding my_sighold
hold-blocked sig t ok =
    let signal = can_change→is_signal sig ok in
    rw (signal, update-same t.sa.sa_mask sig true, ok) (or_true _)

call-blocked :
    (sig : ℕ) (c : Call) (t : State)
    → is_signal sig ≡ true
    → t.process.blocked sig ≡ true
    → (run_call sig c t).process.blocked sig ≡ true
unfolding my_sighold
call-blocked sig hold t ok h = rw h refl
call-blocked sig relse t ok h = (my_sigrelse_lem sig t ok).0 ∙ h

calls-blocked :
    (sig : ℕ) (cs : List Call) (t : State)
    → is_signal sig ≡ true
    → t.process.blocked sig ≡ true
    → (run_calls sig cs t).process.blocked sig ≡ true
unfolding run_calls
calls-blocked sig [] t ok h = h
calls-blocked sig (c ∷ cs) t ok h =
    calls-blocked sig cs (run_call sig c t) ok (call-blocked sig c t ok h)

-- A signal that can be blocked stays blocked once it was held, whatever calls of `my_sighold` and
-- `my_sigrelse` for it come after.
pub run_calls-held :
    (sig : ℕ) (cs : List Call) (t : State)
    → can_change sig ≡ true
    → (run_calls sig (hold ∷ cs) t).process.blocked sig ≡ true
unfolding run_calls
run_calls-held sig cs t ok =
    calls-blocked sig cs (run_call sig hold t) (can_change→is_signal sig ok) (hold-blocked sig t ok)

waits : (sig : ℕ) (t : State) → is_signal sig ≡ true → (my_sigpause sig t).waiting sig ≡ false
unfolding my_sigpause my_sigrelse
waits sig t ok = rw (ok, update-same t.sa.sa_mask sig false) refl

-- `my_sigpause` waits with the signal not blocked; when it ends the signal is blocked if it was before, and each
-- other signal of the static mask is unblocked.
pub my_sigpause_lem :
    (sig : ℕ) (t : State)
    → is_signal sig ≡ true
    → ((my_sigpause sig t).waiting sig ≡ false)
      × ((my_sigpause sig t).ended.state.process.blocked sig ≡ t.process.blocked sig)
      × ((s : ℕ)
          → s ≢ sig
          → t.sa.sa_mask s ≡ true
          → (my_sigpause sig t).ended.state.process.blocked s ≡ false)
unfolding my_sigpause
my_sigpause_lem sig t ok =
    let (same, others) = my_sigrelse_lem sig t ok in (waits sig t ok, same, others)
