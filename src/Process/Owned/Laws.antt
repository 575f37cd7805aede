-- ===== src/Process/Owned/Laws.antt =====
-- Which processes hw3_part1.c prints.
use network_system_programmi.Base.{
  ◌≡◌, refl, sym, ap, ◌∙◌, true, false, none, some, List, [], ◌∷◌, ◌++◌, if◌then◌else◌, atoi, ℤ,
  eq_int, Key, strtok, All, codes, Bool-cases, inl, inr, append_assoc, append-nil,
}
use network_system_programmi.Process.Status.{Bytes, Entry, is_space, is_zero, reads_as}
use network_system_programmi.Process.Owned.{Found, scan_lines, lists, scan_entries, main}
use Prim.Native.String.{String}

-- A line with a key that the program does not look for.
pub record Plain (l : Bytes) : Type 0 where
  pub key : Key
  pub is_key : strtok is_space l ≡ some key
  pub no_name : reads_as key "Name:" ≡ false
  pub no_pid : reads_as key "Pid:" ≡ false
  pub no_uid : reads_as key "Uid:" ≡ false

-- A line with a key and a value.
pub record Field (l : Bytes) (text : String) (v : Bytes) : Type 0 where
  pub key : Key
  pub value : Key
  pub is_key : strtok is_space l ≡ some key
  pub reads : key.token ≡ codes text
  pub is_value : strtok is_space key.rest ≡ some value
  pub token : value.token ≡ v

-- A file "status": a name, a number and a user, with other lines in between and behind.
pub data Status : List Bytes → Bytes → Bytes → ℤ → Type 0 where
  fields :
      {n p u name pid uid : Bytes} (xs ys zs : List Bytes)
      → Field n "Name:" name
      → All Plain xs
      → Field p "Pid:" pid
      → All Plain ys
      → Field u "Uid:" uid
      → All Plain zs
      → Status (n ∷ (xs ++ p ∷ (ys ++ u ∷ zs))) name pid (atoi uid)

module _ (uid : ℤ) where
  scan_lines-Plain :
      (xs rest : List Bytes) (p_name pid : Bytes)
      → All Plain xs
      → scan_lines uid (xs ++ rest) p_name pid ≡ scan_lines uid rest p_name pid
  unfolding scan_lines
  scan_lines-Plain [] rest p_name pid h = refl
  scan_lines-Plain (l ∷ xs) rest p_name pid (h, hs) =
      rw (scan_lines, h.is_key, h.no_name, h.no_pid, h.no_uid)
        (scan_lines-Plain xs rest p_name pid hs)

  scan_lines-at_end :
      (xs : List Bytes) (p_name pid : Bytes) → All Plain xs → scan_lines uid xs p_name pid ≡ some []
  unfolding scan_lines
  scan_lines-at_end [] p_name pid h = refl
  scan_lines-at_end (l ∷ xs) p_name pid (h, hs) =
      rw (scan_lines, h.is_key, h.no_name, h.no_pid, h.no_uid) (scan_lines-at_end xs p_name pid hs)

  name-line :
      {l v : Bytes} (rest : List Bytes) (p_name pid : Bytes)
      → Field l "Name:" v
      → scan_lines uid (l ∷ rest) p_name pid ≡ scan_lines uid rest v pid
  unfolding scan_lines
  name-line rest p_name pid h = rw (scan_lines, h.is_key, h.reads, h.is_value, h.token) refl

  pid-line :
      {l v : Bytes} (rest : List Bytes) (p_name pid : Bytes)
      → Field l "Pid:" v
      → scan_lines uid (l ∷ rest) p_name pid ≡ scan_lines uid rest p_name v
  unfolding scan_lines
  pid-line rest p_name pid h = rw (scan_lines, h.is_key, h.reads, h.is_value, h.token) refl

  -- What a status file adds to the output.
  abbrev owned : Bytes → Bytes → ℤ → List Found
  owned name pid u = if eq_int u uid then record { p_name = name; pid = pid } ∷ [] else []

  uid-line :
      {l v : Bytes} (rest : List Bytes) (p_name pid : Bytes)
      → Field l "Uid:" v
      → All Plain rest
      → scan_lines uid (l ∷ rest) p_name pid ≡ some (owned p_name pid (atoi v))
  unfolding scan_lines
  uid-line {l} {v} rest p_name pid h hs = elim (Bool-cases (eq_int (atoi v) uid)) [
    | inl same ↦
        rw
          (
            scan_lines,
            h.is_key,
            h.reads,
            h.is_value,
            h.token,
            same,
            scan_lines-at_end rest p_name pid hs,
          )
          refl
    | inr other ↦ rw (scan_lines, h.is_key, h.reads, h.is_value, h.token, other) refl
  ]

  scan_lines-Status :
      {ls : List Bytes} {name pid : Bytes} {u : ℤ}
      → Status ls name pid u
      → scan_lines uid ls [] [] ≡ some (owned name pid u)
  scan_lines-Status (fields xs ys zs n ha p hb u hc) =
      name-line _ [] [] n
      ∙ scan_lines-Plain xs _ _ [] ha
      ∙ pid-line _ _ [] p
      ∙ scan_lines-Plain ys _ _ _ hb
      ∙ uid-line zs _ _ u hc

  -- The entries of /proc that can be read to the end, and what the program prints of them.
  pub data Listing : List Entry → List Found → Type 0 where
    no_entry : Listing [] []
    other_file :
        {es : List Entry} {fs : List Found}
        → (e : Entry) → is_zero (atoi e.d_name) ≡ true
        → Listing es fs
        → Listing (e ∷ es) fs
    process :
        {es : List Entry} {fs : List Found} {name pid : Bytes} {u : ℤ}
        → (e : Entry) (ls : List Bytes) → is_zero (atoi e.d_name) ≡ false
        → e.status ≡ some ls
        → Status ls name pid u
        → Listing es fs
        → Listing (e ∷ es) (owned name pid u ++ fs)

  scan_entries-Listing :
      {es : List Entry} {fs : List Found}
      → Listing es fs
      → (more : List Entry) (gs : List Found) → scan_entries uid more ≡ lists gs
      → scan_entries uid (es ++ more) ≡ lists (fs ++ gs)
  unfolding scan_entries
  scan_entries-Listing no_entry more gs h = h
  scan_entries-Listing (other_file e zero_name l) more gs h =
      rw (scan_entries, zero_name) (scan_entries-Listing l more gs h)
  scan_entries-Listing (process {fs} {name} {pid} {u} e ls number status st l) more gs h =
      rw
        (
          scan_entries,
          number,
          status,
          scan_lines-Status st,
          scan_entries-Listing l more gs h,
          append_assoc (owned name pid u) fs gs,
        )
        refl

  -- Where every "status" has a name, a number and a user in this order, with other lines in between
  -- and behind: the program prints name and number of the processes of the user, in the order of
  -- the entries, and no others.
  pub main-Listing :
      {es : List Entry} {fs : List Found} → Listing es fs → main (some uid) es ≡ lists fs
  unfolding main scan_entries
  main-Listing {es} {fs} l =
      ap (scan_entries uid) (sym (append-nil es))
      ∙ scan_entries-Listing l [] [] refl
      ∙ ap lists (append-nil fs)

  -- A process whose "status" cannot be opened, since it has ended: nothing behind its entry is
  -- printed, and what comes in front of it is, where that can be read.
  pub main-stops :
      {es : List Entry} {fs : List Found}
      → Listing es fs
      → (e : Entry) (more : List Entry) → is_zero (atoi e.d_name) ≡ false
      → e.status ≡ none
      → main (some uid) (es ++ e ∷ more) ≡ lists fs
  unfolding main scan_entries
  main-stops {es} {fs} l e more number closed =
      scan_entries-Listing l (e ∷ more) [] (rw (scan_entries, number, closed) refl)
      ∙ ap lists (append-nil fs)
