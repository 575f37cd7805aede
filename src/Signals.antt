-- ===== src/Signals.antt =====
-- SP_HW7/SP_HW7-2/system_v.c: the signal functions of System V by means of those of POSIX.
pub mod SystemV
pub mod Release
pub mod Speed
use network_system_programmi.Base.{
  ℕ, Bool, true, false, not, ◌&&◌, ◌||◌, Option, none, some, if◌then◌else◌, ◌==◌, leb, update, ◌≡◌,
  refl, arith,
}

-- `sighandler_t`: the constants, and the functions of the program.
pub data Handler : Type 0 where
  sig_dfl : Handler
  sig_ign : Handler
  sig_hold : Handler
  sig_err : Handler
  function : ℕ → Handler

-- `sigset_t`
abbrev pub Signals : Type 0
Signals = ℕ → Bool

pub data Flags : Type 0 where
  no_flags : Flags
  restart : Flags
  resethand_nodefer : Flags

-- `struct sigaction`
pub record Sigaction : Type 0 where
  pub sa_handler : Handler
  pub sa_mask : Signals
  pub sa_flags : Flags

-- What the system keeps of a process: its signal mask and its dispositions.
pub record Process : Type 0 where
  pub blocked : Signals
  pub actions : ℕ → Sigaction

-- The static `sa`, and the process.
pub record State : Type 0 where
  pub sa : Sigaction
  pub process : Process

unfoldable pub is_signal : ℕ → Bool
is_signal sig = leb 1 sig && leb sig 64

-- SIGKILL and SIGSTOP cannot be caught, ignored or blocked.
unfoldable pub can_change : ℕ → Bool
can_change sig = is_signal sig && not (sig == 9) && not (sig == 19)

pub can_change→is_signal : (sig : ℕ) → can_change sig ≡ true → is_signal sig ≡ true
unfolding can_change is_signal
can_change→is_signal sig h = ground (arith, h)

abbrev pub sigaddset : ℕ → Signals → Signals
sigaddset sig set = if is_signal sig then update set sig true else set

abbrev pub sigdelset : ℕ → Signals → Signals
sigdelset sig set = if is_signal sig then update set sig false else set

-- `sigaction(sig, act, 0)`; `none` is -1.
abbrev pub sigaction : ℕ → Sigaction → Process → Option Process
sigaction sig act p =
    if can_change sig then some (record p { actions = update p.actions sig act }) else none

-- `sigprocmask(SIG_BLOCK, set, 0)` and `sigprocmask(SIG_UNBLOCK, set, 0)`
abbrev pub block : Signals → Process → Process
block set p = record p { blocked = λ s. p.blocked s || (set s && can_change s) }

abbrev pub unblock : Signals → Process → Process
unblock set p = record p { blocked = λ s. p.blocked s && not (set s) }

-- The state in which a function ends, and what it returns, if it does.
pub record Ended (A : Type 0) : Type 0 where
  pub state : State
  pub returned : Option A

-- 0 for success
pub data Status : Type 0 where
  success : Status
  failure : Status

abbrev pub with_process : State → (failed well : Option Handler) → Option Process → Ended Handler
with_process t failed well none = record { state = t; returned = failed }
with_process t failed well (some p) = record { state = record t { process = p }; returned = well }

abbrev pub status_of : State → Option Process → Ended Status
status_of t none = record { state = t; returned = some failure }
status_of t (some p) = record { state = record t { process = p }; returned = some success }

unfoldable pub my_sigignore : ℕ → State → Ended Status
my_sigignore sig t =
    let sa = record t.sa { sa_handler = sig_ign } in
    status_of (record t { sa = sa }) (sigaction sig sa t.process)

-- The last branch of `my_sigset`.
unfoldable pub set_handler : ℕ → Handler → Flags → State → Ended Handler
set_handler sig handler flags t =
    let sa : Sigaction = record { sa_handler = handler; sa_mask = λ s. false; sa_flags = flags } in
    with_process (record t { sa = sa }) (some sig_err) (some sig_hold) (sigaction sig sa t.process)

-- The branches for SIG_HOLD and SIG_IGN end without a `return`.
unfoldable pub my_sigset : ℕ → Handler → State → Ended Handler
my_sigset sig sig_hold t = record {
  state = record t { sa = record (t.sa) { sa_mask = sigaddset sig t.sa.sa_mask } };
  returned = none;
}
my_sigset sig sig_ign t = record { state = (my_sigignore sig t).state; returned = none }
my_sigset sig sig_dfl t = set_handler sig sig_dfl resethand_nodefer t
my_sigset sig sig_err t = set_handler sig sig_err restart t
my_sigset sig (function f) t = set_handler sig (function f) restart t

unfoldable pub my_sighold : ℕ → State → Ended Status
my_sighold sig t =
    let mask = sigaddset sig t.sa.sa_mask in
    record {
      state = record { sa = record (t.sa) { sa_mask = mask }; process = block mask t.process };
      returned = some success;
    }

unfoldable pub my_sigrelse : ℕ → State → Ended Status
my_sigrelse sig t =
    let mask = sigdelset sig t.sa.sa_mask in
    record {
      state = record { sa = record (t.sa) { sa_mask = mask }; process = unblock mask t.process };
      returned = some success;
    }

-- `sigsuspend` waits with the mask it is given, and puts the old one back; it returns -1.
pub record Paused : Type 0 where
  pub waiting : Signals
  pub ended : Ended Status

unfoldable pub my_sigpause : ℕ → State → Paused
my_sigpause sig t =
    let released = (my_sigrelse sig t).state in
    record {
      waiting = λ s. released.sa.sa_mask s && can_change s;
      ended = record { state = released; returned = some failure };
    }

-- At the start `sa` is zero, and no signal is blocked.
abbrev pub no_action : Sigaction
no_action = record { sa_handler = sig_dfl; sa_mask = λ s. false; sa_flags = no_flags }

abbrev pub fresh : State
fresh = record {
  sa = no_action;
  process = record { blocked = λ s. false; actions = λ s. no_action };
}
