-- ===== src/Popen.antt =====
-- SP_HW5/popen_pclose.c: `popen` and `pclose` with a table from descriptors to children.
pub mod Table
pub mod Reading
use network_system_programmi.Base.{
  ℕ, zero, suc, ◌-◌, Bool, true, false, Option, none, some, List, [], ◌∷◌, ◌++◌, if◌then◌else◌,
  ◌==◌, leb, eq_bytes, codes, update, write_at, c_string, replicate, length,
}

abbrev pub Bytes : Type 0
Bytes = List ℕ

-- What a descriptor stands for: the ends of pipe number p, or something else.
pub data File : Type 0 where
  reads_pipe : ℕ → File
  writes_pipe : ℕ → File
  other_file : File

abbrev pub Descriptors : Type 0
Descriptors = ℕ → Option File

abbrev pub close : ℕ → Descriptors → Descriptors
close fd fds = update fds fd none

abbrev pub dup2 : (old new : ℕ) → Descriptors → Descriptors
dup2 old new fds = update fds new (fds old)

-- The static `fdtopid`, 0 for no child, and the descriptors of the process.
pub record State : Type 0 where
  pub fdtopid : ℕ → ℕ
  pub fds : Descriptors
  pub pipes : ℕ  -- how many pipes were made

-- What the system answers: the descriptors of `pipe`, the child of `fork`, and whether `fdopen` gives
-- a stream. `none` stands for -1.
pub record Calls : Type 0 where
  pub pipe : Option (ℕ × ℕ)
  pub fork : Option ℕ
  pub fdopen_ok : Bool

pub data Mode : Type 0 where
  mode_r : Mode
  mode_w : Mode
  mode_other : Mode

-- `!strcmp(mode, "r")`, `!strcmp(mode, "w")`
abbrev pub mode_of : Bytes → Mode
mode_of mode =
    if eq_bytes mode (codes "r")
    then mode_r
    else if eq_bytes mode (codes "w")
    then mode_w
    else mode_other

abbrev pub after_pipe : ℕ → ℕ → State → State
after_pipe r w t = record t {
  fds = update (update t.fds r (some (reads_pipe t.pipes))) w (some (writes_pipe t.pipes));
  pipes = suc t.pipes;
}

pub data Opened : Type 0 where
  -- `exit(1)`
  exits : Opened
  -- the stream of a descriptor, and NULL
  stream : ℕ → State → Opened
  no_stream : State → Opened

-- `fdtopid[keep_fd] = pid; return fdopen(keep_fd, mode);`
abbrev pub keep : Bool → ℕ → ℕ → State → Opened
keep fdopen_ok keep_fd pid t =
    let kept = record t { fdtopid = update t.fdtopid keep_fd pid } in
    if fdopen_ok then stream keep_fd kept else no_stream kept

-- The parent. For another mode `keep_fd` is never set, and is what the memory held.
unfoldable pub my_popen_parent : Bool → Mode → (junk r w pid : ℕ) → State → Opened
my_popen_parent ok mode_r junk r w pid t = keep ok r pid (record t { fds = close w t.fds })
my_popen_parent ok mode_w junk r w pid t = keep ok w pid (record t { fds = close r t.fds })
my_popen_parent ok mode_other junk r w pid t = keep ok junk pid t

unfoldable pub my_popen : Calls → (junk : ℕ) → Bytes → State → Opened
my_popen c junk mode t = elim c.pipe [
  | none ↦ exits
  | some p ↦ elim c.fork [
    | none ↦ exits
    | some pid ↦ my_popen_parent c.fdopen_ok (mode_of mode) junk p.0 p.1 pid (after_pipe p.0 p.1 t)
  ]
]

-- The descriptors with which the child executes "/bin/sh", when `dup2` does not fail.
unfoldable pub child_fds : Mode → (r w : ℕ) → Descriptors → Descriptors
child_fds mode_r r w fds = close w (dup2 w 1 (close r fds))
child_fds mode_w r w fds = close r (dup2 r 0 (close w fds))
child_fds mode_other r w fds = fds

-- What `my_pclose` does: it returns -1, or waits for a child, and then returns -1 or ends without a
-- `return`; with the states in which it returns, or waits and then ends.
pub data Closed : Type 0 where
  exits_close : Closed
  returns_error : State → Closed
  waits_for : (pid : ℕ) (meanwhile left : State) → Closed

-- `fileno` gives `none` for -1. No statement closes the stream or clears the entry of the table.
unfoldable pub my_pclose : Option ℕ → State → Closed
my_pclose none t = exits_close
my_pclose (some keep_fd) t =
    if t.fdtopid keep_fd == 0 then returns_error t else waits_for (t.fdtopid keep_fd) t t

-- `main`, mode "r": `fread` fills `buf1`, which is never cleared, and `printf("%s")` prints it up to
-- the first NUL. `beyond` is the memory behind the 200 bytes.
unfoldable pub read_loop : (beyond : Bytes) → List Bytes → (buf1 : Bytes) → Bytes
read_loop beyond [] buf1 = []
read_loop beyond (chunk ∷ chunks) buf1 =
    let filled = write_at 0 chunk buf1 in
    c_string (filled ++ beyond) ++ read_loop beyond chunks filled

-- The pieces of an output, with so many for fuel.
abbrev pub zeroed : Bytes
zeroed = replicate 200 0
