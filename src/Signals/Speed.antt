-- ===== src/Signals/Speed.antt =====
-- SP_HW7/SP_HW7-1/sig_speed_sigwaitinfo.c: a child and its parent that send each other SIGUSR1 in
-- turn. It is blocked, so that `sigwaitinfo` takes one that is pending or waits for one. No other
-- signal is sent to the two, and `kill` fails only when there is no such process.
use network_system_programmi.Base.{
  ℕ, suc, ◌+◌, ◌*◌, ◌<◌, ◌≡◌, ◌⊎◌, inl, inr, refl, Bool, true, false, Option, none, some,
  if◌then◌else◌, ltb, arith, lt→ltb, IfSome, IfSome-some,
}

-- The call that a process does next.
pub data At : Type 0 where
  kills sigwaits exited failed : At

-- A process, with `scnt`; a signal that is pending already is not queued again.
pub record Proc : Type 0 where
  pub at : At
  pub scnt : ℕ
  pub pending : Bool

pub record State : Type 0 where
  pub child : Proc
  pub parent : Proc

-- `scnt++` and `scnt < numSigs`
unfoldable pub next_round : ℕ → At → ℕ → Bool → Proc
next_round num_sigs body scnt pending = record {
  at = if ltb scnt num_sigs then body else exited;
  scnt = scnt;
  pending = pending;
}

abbrev pub with_pending : Bool → Proc → Proc
with_pending b p = record { at = p.at; scnt = p.scnt; pending = b }

abbrev pub with_at : At → Proc → Proc
with_at a p = record { at = a; scnt = p.scnt; pending = p.pending }

abbrev pub start : ℕ → State
start num_sigs = record {
  child = next_round num_sigs kills 0 false;
  parent = next_round num_sigs sigwaits 0 false;
}

-- `kill(getppid(), TESTSIG)`: a child whose parent has exited has another one, which is not to be
-- signalled.
abbrev pub kill_parent : At → State → State
kill_parent exited s = record { child = with_at failed s.child; parent = s.parent }
kill_parent failed s = record { child = with_at failed s.child; parent = s.parent }
kill_parent a s = record { child = with_at sigwaits s.child; parent = with_pending true s.parent }

abbrev pub child_receives : ℕ → Bool → State → Option State
child_receives num_sigs false s = none
child_receives num_sigs true s =
    some (record { child = next_round num_sigs kills (s.child.scnt + 1) false; parent = s.parent })

-- The next call of the child; no result while it waits, and after its end.
unfoldable pub child_turn : ℕ → At → State → Option State
child_turn num_sigs kills s = some (kill_parent s.parent.at s)
child_turn num_sigs sigwaits s = child_receives num_sigs s.child.pending s
child_turn num_sigs exited s = none
child_turn num_sigs failed s = none

abbrev pub parent_receives : Bool → State → Option State
parent_receives false s = none
parent_receives true s =
    some (record { child = s.child; parent = with_at kills (with_pending false s.parent) })

-- The next call of the parent. A child that has exited is not reaped, so `kill` does not fail.
unfoldable pub parent_turn : ℕ → At → State → Option State
parent_turn num_sigs kills s = some (record {
  child = with_pending true s.child;
  parent = next_round num_sigs sigwaits (s.parent.scnt + 1) s.parent.pending;
})
parent_turn num_sigs sigwaits s = parent_receives s.parent.pending s
parent_turn num_sigs exited s = none
parent_turn num_sigs failed s = none

pub data Step (num_sigs : ℕ) : State → State → Type 0 where
  child_step : {s t : State} → child_turn num_sigs s.child.at s ≡ some t → Step num_sigs s t
  parent_step : {s t : State} → parent_turn num_sigs s.parent.at s ≡ some t → Step num_sigs s t

-- What the two can reach in any order, with the number of turns.
pub data Reach (num_sigs : ℕ) : ℕ → State → Type 0 where
  first : Reach num_sigs 0 (start num_sigs)
  later : {k : ℕ} {s t : State} → Reach num_sigs k s → Step num_sigs s t → Reach num_sigs (suc k) t

-- The rounds: the child signals, the parent takes the signal and signals, the child takes that.
data Phase (num_sigs : ℕ) : ℕ → State → Type 0 where
  asks :
      {k : ℕ} (j : ℕ)
      → k ≡ 4 * j
      → j < num_sigs
      → Phase num_sigs k (record {
        child = record { at = kills; scnt = j; pending = false };
        parent = record { at = sigwaits; scnt = j; pending = false };
      })
  asked :
      {k : ℕ} (j : ℕ)
      → k ≡ 4 * j + 1
      → j < num_sigs
      → Phase num_sigs k (record {
        child = record { at = sigwaits; scnt = j; pending = false };
        parent = record { at = sigwaits; scnt = j; pending = true };
      })
  answers :
      {k : ℕ} (j : ℕ)
      → k ≡ 4 * j + 2
      → j < num_sigs
      → Phase num_sigs k (record {
        child = record { at = sigwaits; scnt = j; pending = false };
        parent = record { at = kills; scnt = j; pending = false };
      })
  answered :
      {k : ℕ} (j : ℕ)
      → k ≡ 4 * j + 3
      → j + 1 < num_sigs
      → Phase num_sigs k (record {
        child = record { at = sigwaits; scnt = j; pending = true };
        parent = record { at = sigwaits; scnt = j + 1; pending = false };
      })
  last_answered :
      {k : ℕ} (j : ℕ)
      → k ≡ 4 * j + 3
      → j + 1 ≡ num_sigs
      → Phase num_sigs k (record {
        child = record { at = sigwaits; scnt = j; pending = true };
        parent = record { at = exited; scnt = j + 1; pending = false };
      })
  both_exited :
      {k j : ℕ}
      → k ≡ 4 * num_sigs
      → j ≡ num_sigs
      → Phase num_sigs k (record {
        child = record { at = exited; scnt = j; pending = false };
        parent = record { at = exited; scnt = j; pending = false };
      })

next_round-goes_on :
    (n : ℕ) (body : At) (j : ℕ) (b : Bool)
    → j < n
    → next_round n body j b ≡ record { at = body; scnt = j; pending = b }
unfolding next_round
next_round-goes_on n body j b h = rw (lt→ltb j n h) refl

next_round-ends :
    (n : ℕ) (body : At) (j : ℕ) (b : Bool)
    → j ≡ n
    → next_round n body j b ≡ record { at = exited; scnt = j; pending = b }
unfolding next_round
next_round-ends n body j b h = let e : ltb j n ≡ false = ground arith in rw e refl

child-Phase :
    (n k : ℕ) (s : State) → Phase n k s → IfSome (Phase n (suc k)) (child_turn n s.child.at s)
unfolding child_turn
child-Phase n k _ (asks j e h) = asked j (omega arith) h
child-Phase n k _ (asked j e h) = tt
child-Phase n k _ (answers j e h) = tt
child-Phase n k _ (answered j e h) =
    rw (next_round-goes_on n kills (j + 1) false h) (asks (j + 1) (omega arith) h)
child-Phase n k _ (last_answered j e h) =
    rw (next_round-ends n kills (j + 1) false h) (both_exited (omega arith) h)
child-Phase n k _ (both_exited e h) = tt

more-or-last : (j n : ℕ) → j < n → (j + 1 < n) ⊎ (j + 1 ≡ n)
more-or-last j n h = ground arith

parent-Phase :
    (n k : ℕ) (s : State) → Phase n k s → IfSome (Phase n (suc k)) (parent_turn n s.parent.at s)
unfolding parent_turn
parent-Phase n k _ (asks j e h) = tt
parent-Phase n k _ (asked j e h) = answers j (omega arith) h
parent-Phase n k _ (answers j e h) = elim (more-or-last j n h) [
  | inl more ↦ rw (next_round-goes_on n sigwaits (j + 1) false more) (answered j (omega arith) more)
  | inr no_more ↦
      rw (next_round-ends n sigwaits (j + 1) false no_more) (last_answered j (omega arith) no_more)
]
parent-Phase n k _ (answered j e h) = tt
parent-Phase n k _ (last_answered j e h) = tt
parent-Phase n k _ (both_exited e h) = tt

Reach-Phase : (n k : ℕ) (s : State) → 0 < n → Reach n k s → Phase n k s
Reach-Phase n _ _ some_round first =
    rw
      (
        next_round-goes_on n kills 0 false some_round,
        next_round-goes_on n sigwaits 0 false some_round,
      )
      (asks 0 refl some_round)
Reach-Phase n _ _ some_round (later {k = k} {s = s} r (child_step e)) =
    IfSome-some (Phase n (suc k)) (child_turn n s.child.at s)
      (child-Phase n k s (Reach-Phase n k s some_round r)) e
Reach-Phase n _ _ some_round (later {k = k} {s = s} r (parent_step e)) =
    IfSome-some (Phase n (suc k)) (parent_turn n s.parent.at s)
      (parent-Phase n k s (Reach-Phase n k s some_round r)) e

-- Child and parent have exited, and each has taken a signal in each of its rounds.
abbrev pub AllTaken : ℕ → State → Type 0
AllTaken n s =
    ((s.child.at ≡ exited) × (s.parent.at ≡ exited)) × ((s.child.scnt ≡ n) × (s.parent.scnt ≡ n))

Phase-ends :
    (n k : ℕ) (s : State)
    → Phase n k s
    → (AllTaken n s × (k ≡ 4 * n)) ⊎ (((t : State) × Step n s t) × (k < 4 * n))
unfolding child_turn parent_turn
Phase-ends n k _ (asks j e h) = inr ((_, child_step refl), omega arith)
Phase-ends n k _ (asked j e h) = inr ((_, parent_step refl), omega arith)
Phase-ends n k _ (answers j e h) = inr ((_, parent_step refl), omega arith)
Phase-ends n k _ (answered j e h) = inr ((_, child_step refl), omega arith)
Phase-ends n k _ (last_answered j e h) = inr ((_, child_step refl), omega arith)
Phase-ends n k _ (both_exited e h) = inl (((refl, refl), (h, h)), e)

-- For a number of rounds that is not 0, in every state that the two can reach, in any order of
-- turns: one of them can go on, after fewer than four turns for each round, or all of these have
-- been made, both have exited, and each has taken a signal in each of its rounds. So no signal is
-- lost, and the two do not wait for each other for ever.
pub Reach-ends :
    (n k : ℕ) (s : State)
    → 0 < n
    → Reach n k s
    → (AllTaken n s × (k ≡ 4 * n)) ⊎ (((t : State) × Step n s t) × (k < 4 * n))
Reach-ends n k s some_round r = Phase-ends n k s (Reach-Phase n k s some_round r)
