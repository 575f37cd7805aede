-- ===== src/Files/Tee.antt =====
-- What hw1-1.c writes to standard output and to the file.
use network_system_programmi.Base.{
  ◌<◌, ◌≡◌, refl, sym, ap, ◌∙◌, false, some, List, [], ◌∷◌, ◌++◌, arith, length, concat, NoNul,
  c_string-buffer, append_assoc, append-nil, ◌==◌, eq_bytes, codes,
}
use network_system_programmi.Files.{
  Bytes, FileSystem, put, content_of, Written, Teed, read_error, fails_open, put_target, Target,
  truncates, appends, buffered, tee_loop, tee,
}
use network_system_programmi.Files.Copy.{put-same}

-- What a read gives: some bytes, fewer than the buffer holds, and none of them zero.
abbrev pub Text : Bytes → Type 0
Text s = NoNul s × (0 < length s) × (length s < 1024)

abbrev pub Texts : List Bytes → Type 0
Texts [] = Unit
Texts (s ∷ ss) = Text s × Texts ss

-- The last of the chunks, or what was there before.
abbrev pub last_of : Bytes → List Bytes → Bytes
last_of s [] = s
last_of s (t ∷ ts) = last_of t ts

-- One round on a text, for a target that can be opened.
tee_round :
    (beyond : Bytes) (to : Target) (s : Bytes) (ss : List Bytes) (w : Written)
    → Text s
    → fails_open to ≡ false
    → tee_loop beyond to (s ∷ ss) w
      ≡ tee_loop beyond to ss (record { out = w.out ++ s; files = put_target to s w.files })
unfolding tee_loop
tee_round beyond to [] ss w t ok = absurd (omega (arith, t.1))
tee_round beyond to (c ∷ cs) ss w t ok =
    let same : buffered beyond (c ∷ cs) ≡ c ∷ cs = c_string-buffer 1024 (c ∷ cs) beyond t.0 t.2 in
    let some_bytes : (length (c ∷ cs) == 0) ≡ false = (let l = t.1 in ground arith) in
    rw (same, some_bytes, ok) refl

-- What a run over texts ends with: all of them on standard output, and the file as its target says.
pub record Ends (result : Teed) (out : Bytes) (path content : Bytes) : Type 0 where
  pub written : Written
  pub ends : result ≡ read_error written
  pub shows : written.out ≡ out
  pub holds : written.files path ≡ some content

tee_loop-truncates :
    (beyond path : Bytes) (ss : List Bytes) (w : Written) (old : Bytes)
    → Texts ss
    → w.files path ≡ some old
    → Ends (tee_loop beyond (truncates path) ss w) (w.out ++ concat ss) path (last_of old ss)
unfolding tee_loop
tee_loop-truncates beyond path [] w old ts h = record {
  written = w;
  ends = refl;
  shows = sym (append-nil w.out);
  holds = h;
}
tee_loop-truncates beyond path (s ∷ ss) w old (t, ts) h =
    let r =
      tee_loop-truncates beyond path ss (record { out = w.out ++ s; files = put w.files path s }) s
        ts (put-same w.files path s) in
    record {
      written = r.written;
      ends = tee_round beyond (truncates path) s ss w t refl ∙ r.ends;
      shows = r.shows ∙ append_assoc w.out s (concat ss);
      holds = r.holds;
    }

tee_loop-appends :
    (beyond path : Bytes) (ss : List Bytes) (w : Written) (old : Bytes)
    → Texts ss
    → w.files path ≡ some old
    → Ends (tee_loop beyond (appends path) ss w) (w.out ++ concat ss) path (old ++ concat ss)
unfolding tee_loop
tee_loop-appends beyond path [] w old ts h = record {
  written = w;
  ends = refl;
  shows = sym (append-nil w.out);
  holds = h ∙ ap some (sym (append-nil old));
}
tee_loop-appends beyond path (s ∷ ss) w old (t, ts) h =
    let now = ap content_of h in
    let r =
      tee_loop-appends beyond path ss
        (record { out = w.out ++ s; files = put w.files path (content_of (w.files path) ++ s) })
        (old ++ s) ts (put-same w.files path _ ∙ ap (λ x. some (x ++ s)) now) in
    record {
      written = r.written;
      ends = tee_round beyond (appends path) s ss w t refl ∙ r.ends;
      shows = r.shows ∙ append_assoc w.out s (concat ss);
      holds = r.holds ∙ ap some (append_assoc old s (concat ss));
    }

-- With one argument, a path other than "-a", and input whose reads are texts: all of the input is
-- printed, and the file holds only what the last read gave.
pub tee-truncates :
    (beyond path : Bytes) (s : Bytes) (ss : List Bytes) (fs : FileSystem)
    → eq_bytes path (codes "-a") ≡ false
    → Texts (s ∷ ss)
    → Ends (tee beyond (path ∷ []) (s ∷ ss) fs) (concat (s ∷ ss)) path (last_of s ss)
unfolding tee
tee-truncates beyond path s ss fs plain (t, ts) =
    let first : Written = record { out = s; files = put fs path s } in
    let r = tee_loop-truncates beyond path ss first s ts (put-same fs path s) in
    rw plain (record {
      written = r.written;
      ends =
          tee_round beyond (truncates path) s ss (record { out = []; files = fs }) t refl ∙ r.ends;
      shows = r.shows;
      holds = r.holds;
    })

-- With "-a" and a path, and input whose reads are texts: all of the input is printed, and the file holds what it held, nothing if
-- there was none, and all of the input behind it.
pub tee-appends :
    (beyond path : Bytes) (s : Bytes) (ss : List Bytes) (fs : FileSystem)
    → Texts (s ∷ ss)
    → Ends
        (tee beyond (codes "-a" ∷ path ∷ []) (s ∷ ss) fs)
        (concat (s ∷ ss))
        path
        (content_of (fs path) ++ concat (s ∷ ss))
unfolding tee
tee-appends beyond path s ss fs (t, ts) =
    let old = content_of (fs path) in
    let first : Written = record { out = s; files = put fs path (old ++ s) } in
    let r = tee_loop-appends beyond path ss first (old ++ s) ts (put-same fs path (old ++ s)) in
    record {
      written = r.written;
      ends = tee_round beyond (appends path) s ss (record { out = []; files = fs }) t refl ∙ r.ends;
      shows = r.shows;
      holds = r.holds ∙ ap some (append_assoc old s (concat ss));
    }
