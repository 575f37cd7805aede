-- ===== src/Examples/Popen.antt =====
-- The theorems on `my_popen` and `my_pclose`.
use network_system_programmi.Base.{
  ℕ, ◌≡◌, refl, false, zero, suc, ◌==◌, none, some, arith, replicate, codes, update, NoNul,
}
use network_system_programmi.Popen.{
  Bytes, other_file, mode_w, writes_pipe, close, State, after_pipe, my_popen_parent, my_popen,
  my_pclose,
}
use network_system_programmi.Popen.Table.{Open, no_more, Leaves, my_pclose-my_popen}

-- Standard input, output and error are open.
abbrev start : State
start = record {
  fdtopid = λ fd. 0;
  fds =
      update (update (update (λ fd. none) 0 (some other_file)) 1 (some other_file)) 2
        (some other_file);
  pipes = 0;
}

abbrev opened : State
opened = record {
  fdtopid = update start.fdtopid 4 100;
  fds = close 3 (after_pipe 3 4 start).fds;
  pipes = 1;
}

opened-Open : Open start mode_w 3 4 100 0 opened
unfolding my_popen my_popen_parent update
opened-Open = record {
  known = λ e. absurd (ground (arith, e));
  free_r = refl;
  free_w = refl;
  apart = omega arith;
  child = omega arith;
  text = codes "w";
  is_mode = refl;
  opened = refl;
}

my_pclose-my_popen_example : Leaves (my_pclose (some 4) opened) 4 100 (writes_pipe 0)
my_pclose-my_popen_example = my_pclose-my_popen mode_w opened-Open no_more

abbrev filled : Bytes
filled = replicate 200 97

replicate-NoNul : (n c : ℕ) → (c == 0) ≡ false → NoNul (replicate n c)
replicate-NoNul zero c h = tt
replicate-NoNul (suc n) c h = (h, replicate-NoNul n c h)
