-- ===== src/Popen/Table.antt =====
-- The table of children of popen_pclose.c.
use network_system_programmi.Base.{
  ℕ, ◌≡◌, ◌≢◌, ◌<◌, refl, sym, ap, ◌∙◌, true, false, Option, none, some, arith, ◌==◌, update,
  update-same, update-other,
}
use mathlib.Core.Path.{subst}
use network_system_programmi.Popen.{
  Bytes, Calls, mode_of, File, reads_pipe, writes_pipe, Mode, mode_r, mode_w, mode_other, close,
  dup2, child_fds, State, after_pipe, Opened, exits, stream, no_stream, my_popen_parent, my_popen,
  Closed, waits_for, my_pclose,
}

-- The end of the pipe that the parent keeps.
abbrev pub kept_end : Mode → (r w : ℕ) → ℕ
kept_end mode_w r w = w
kept_end _ r w = r

abbrev pub kept_file : Mode → ℕ → File
kept_file mode_w p = writes_pipe p
kept_file _ p = reads_pipe p

abbrev pub answers : (r w pid : ℕ) → Calls
answers r w pid = record { pipe = some (r, w); fork = some pid; fdopen_ok = true }

-- A call in mode "r" or "w" that succeeds: the descriptors are free, and the child has a number other than 0.
pub record Open (t : State) (mode : Mode) (r w pid junk : ℕ) (u : State) : Type 0 where
  pub known : mode ≢ mode_other
  pub free_r : t.fds r ≡ none
  pub free_w : t.fds w ≡ none
  pub apart : r ≢ w
  pub child : pid ≢ 0
  pub text : Bytes
  pub is_mode : mode_of text ≡ mode
  pub opened : my_popen (answers r w pid) junk text t ≡ stream (kept_end mode r w) u

-- Any number of further calls.
pub data Opens : State → State → Type 0 where
  no_more : {t : State} → Opens t t
  more :
      {t u v : State} {mode : Mode} {r w pid junk : ℕ}
      → Opens t u
      → Open u mode r w pid junk v
      → Opens t v

-- A stream with its child, and its end of the pipe open.
pub record Stream (t : State) (fd pid : ℕ) (f : File) : Type 0 where
  pub listed : t.fdtopid fd ≡ pid
  pub open_end : t.fds fd ≡ some f

state_of : State → Opened → State
state_of d (stream fd t) = t
state_of d (no_stream t) = t
state_of d exits = d

-- The state after a call, in each mode.
Open-state : {t u : State} {r w pid junk : ℕ} (mode : Mode) → Open t mode r w pid junk u → State
Open-state {t} {r} {w} {pid} {junk} mode h =
    state_of t (my_popen_parent true mode junk r w pid (after_pipe r w t))

Open-is :
    {t u : State} {r w pid junk : ℕ} (mode : Mode) (h : Open t mode r w pid junk u)
    → Open-state mode h ≡ u
unfolding Open-state state_of my_popen
Open-is {t} {u} {r} {w} {pid} {junk} mode h = ap (state_of t) (
    subst
      (λ m. my_popen_parent true m junk r w pid (after_pipe r w t) ≡ stream (kept_end mode r w) u)
      h.is_mode h.opened)

Open-Stream :
    {t u : State} {r w pid junk : ℕ} (mode : Mode)
    → Open t mode r w pid junk u
    → Stream u (kept_end mode r w) pid (kept_file mode t.pipes)
unfolding my_popen_parent Open-state state_of
Open-Stream {t} {u} {r} {w} {pid} mode_r h =
    subst (λ x. Stream x r pid (reads_pipe t.pipes)) (Open-is mode_r h)
      (record {
        listed = update-same t.fdtopid r pid;
        open_end =
            update-other (after_pipe r w t).fds w none h.apart
            ∙ update-other (update t.fds r (some (reads_pipe t.pipes))) w _ h.apart
            ∙ update-same t.fds r _;
      })
Open-Stream {t} {u} {r} {w} {pid} mode_w h =
    let apart : w ≢ r = λ e. h.apart (sym e) in
    subst (λ x. Stream x w pid (writes_pipe t.pipes)) (Open-is mode_w h)
      (record {
        listed = update-same t.fdtopid w pid;
        open_end =
            update-other (after_pipe r w t).fds r none apart
            ∙ update-same (update t.fds r (some (reads_pipe t.pipes))) w _;
      })
Open-Stream mode_other h = absurd (h.known refl)

after_pipe-other : (t : State) {r w fd : ℕ} → fd ≢ r → fd ≢ w → (after_pipe r w t).fds fd ≡ t.fds fd
after_pipe-other t {r} {w} off_r off_w =
    update-other (update t.fds r _) w _ off_w ∙ update-other t.fds r _ off_r

-- A descriptor that is open is none of the two that `pipe` gives.
not_free : (fds : ℕ → Option File) {fd r : ℕ} {f : File} → fds fd ≡ some f → fds r ≡ none → fd ≢ r
not_free fds {fd} {r} {f} e free at =
    let both : some f ≡ none = sym e ∙ ap fds at ∙ free in absurd (ground (arith, both))

Open-keeps :
    {t u : State} {r w pid junk fd child : ℕ} {f : File} (mode : Mode)
    → Open t mode r w pid junk u
    → Stream t fd child f
    → Stream u fd child f
unfolding my_popen_parent Open-state state_of
Open-keeps {t} {u} {r} {w} {pid} {fd} {child} {f} mode_r h s =
    let off_r = not_free t.fds s.open_end h.free_r in
    let off_w = not_free t.fds s.open_end h.free_w in
    subst (λ x. Stream x fd child f) (Open-is mode_r h)
      (record {
        listed = update-other t.fdtopid r pid off_r ∙ s.listed;
        open_end =
            update-other (after_pipe r w t).fds w none off_w
            ∙ after_pipe-other t off_r off_w
            ∙ s.open_end;
      })
Open-keeps {t} {u} {r} {w} {pid} {fd} {child} {f} mode_w h s =
    let off_r = not_free t.fds s.open_end h.free_r in
    let off_w = not_free t.fds s.open_end h.free_w in
    subst (λ x. Stream x fd child f) (Open-is mode_w h)
      (record {
        listed = update-other t.fdtopid w pid off_w ∙ s.listed;
        open_end =
            update-other (after_pipe r w t).fds r none off_r
            ∙ after_pipe-other t off_r off_w
            ∙ s.open_end;
      })
Open-keeps mode_other h s = absurd (h.known refl)

Opens-keeps :
    {t u : State} {fd child : ℕ} {f : File} → Opens t u → Stream t fd child f → Stream u fd child f
Opens-keeps no_more s = s
Opens-keeps (more {mode} os h) s = Open-keeps mode h (Opens-keeps os s)

-- What `my_pclose` leaves of a stream: it waits for the child with the stream's end of the pipe open,
-- and ends with that end open and the child, which has ended, in the table.
pub record Leaves (closed : Closed) (fd pid : ℕ) (f : File) : Type 0 where
  pub meanwhile : State
  pub left : State
  pub waits : closed ≡ waits_for pid meanwhile left
  pub open_meanwhile : meanwhile.fds fd ≡ some f
  pub open_left : left.fds fd ≡ some f
  pub listed_left : left.fdtopid fd ≡ pid

-- Of a stream that `my_popen` gave in mode "r" or "w", and whatever other streams were opened
-- since: `my_pclose` waits for the child that was made for it, with the stream's end of the pipe
-- still open; after it this end is open, and the child that has ended is in the table.
pub my_pclose-my_popen :
    {t u v : State} {r w pid junk : ℕ} (mode : Mode)
    → Open t mode r w pid junk u
    → Opens u v
    → Leaves
        (my_pclose (some (kept_end mode r w)) v)
        (kept_end mode r w)
        pid
        (kept_file mode t.pipes)
unfolding my_pclose
my_pclose-my_popen {v} {r} {w} {pid} mode h os =
    let s = Opens-keeps os (Open-Stream mode h) in
    let child : (pid == 0) ≡ false = (let nz = h.child in ground arith) in
    record {
      meanwhile = v;
      left = v;
      waits = rw (s.listed, child) refl;
      open_meanwhile = s.open_end;
      open_left = s.open_end;
      listed_left = s.listed;
    }

-- The descriptor of the standard stream that the pipe replaces in the child.
abbrev pub standard : Mode → ℕ
standard mode_r = 1
standard _ = 0

abbrev pub child_file : Mode → ℕ → File
child_file mode_r p = writes_pipe p
child_file _ p = reads_pipe p

-- A child in mode "r" or "w", with descriptors of the pipe that are apart and none of the standard two: the shell has
-- the other end of the pipe as standard output or input, and no other descriptor of the pipe.
pub child_fds_lem :
    (t : State) (mode : Mode) (r w : ℕ)
    → mode ≢ mode_other
    → r ≢ w
    → 1 < r
    → 1 < w
    → let fds = child_fds mode r w (after_pipe r w t).fds in
      (fds (standard mode) ≡ some (child_file mode t.pipes)) × (fds r ≡ none) × (fds w ≡ none)
unfolding child_fds
child_fds_lem t mode_r r w known apart low_r low_w =
    let made = (after_pipe r w t).fds in
    let closed = close r made in
    (
      update-other (dup2 w 1 closed) w none (omega (arith, low_w))
          ∙ update-same closed 1 _
          ∙ update-other made r none (λ e. apart (sym e))
          ∙ update-same (update t.fds r _) w _,
      update-other (dup2 w 1 closed) w none apart
          ∙ update-other closed 1 _ (omega (arith, low_r))
          ∙ update-same made r none,
      update-same (dup2 w 1 closed) w none,
    )
child_fds_lem t mode_w r w known apart low_r low_w =
    let made = (after_pipe r w t).fds in
    let closed = close w made in
    (
      update-other (dup2 r 0 closed) r none (omega (arith, low_r))
          ∙ update-same closed 0 _
          ∙ update-other made w none apart
          ∙ update-other (update t.fds r _) w _ apart
          ∙ update-same t.fds r _,
      update-same (dup2 r 0 closed) r none,
      update-other (dup2 r 0 closed) r none (λ e. apart (sym e))
          ∙ update-other closed 0 _ (omega (arith, low_w))
          ∙ update-same made w none,
    )
child_fds_lem t mode_other r w known apart low_r low_w = absurd (known refl)
