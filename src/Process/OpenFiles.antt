-- ===== src/Process/OpenFiles.antt =====
-- SP_HW3/hw3_part3.c: the open files of every process.
use network_system_programmi.Base.{
  ◌≡◌, refl, true, false, Option, none, some, List, [], ◌∷◌, ◌++◌, if◌then◌else◌, atoi, ℤ,
}
use network_system_programmi.Process.Status.{Bytes, is_zero}

-- An entry of /proc/<pid>/fd, with the answer of `readlink`, `none` for -1.
pub record Fd : Type 0 where
  pub d_name : Bytes
  pub link : Option Bytes

-- An entry of /proc; `none` when `opendir` of its "fd" gives NULL, on which `readdir` crashes.
pub record Proc : Type 0 where
  pub d_name : Bytes
  pub fds : Option (List Fd)

pub data Shown : Type 0 where
  -- "pid %d:"
  pid_is : ℤ → Shown
  -- " %s"
  link_is : Bytes → Shown

-- What was printed, and how the program ends or goes on.
pub data Run : Type 0 where
  goes_on : List Shown → Run
  -- "readlink error", and `return 0`
  gives_up : List Shown → Run
  crashes : List Shown → Run

abbrev pub after : List Shown → Run → Run
after xs (goes_on ys) = goes_on (xs ++ ys)
after xs (gives_up ys) = gives_up (xs ++ ys)
after xs (crashes ys) = crashes (xs ++ ys)

abbrev pub then_run : Run → Run → Run
then_run (goes_on xs) next = after xs next
then_run (gives_up xs) next = gives_up xs
then_run (crashes xs) next = crashes xs

-- The inner loop. Descriptor 0 is taken for an entry that is no number.
unfoldable pub list_fds : List Fd → Run
list_fds [] = goes_on []
list_fds (f ∷ fs) =
    let rest = list_fds fs in
    let one : Run = elim f.link [
      | none ↦ gives_up []
      | some target ↦ after (link_is target ∷ []) rest
    ] in
    if is_zero (atoi f.d_name) then rest else one

abbrev pub list_proc : Option (List Fd) → Run
list_proc none = crashes []
list_proc (some fds) = list_fds fds

-- The loop over /proc.
unfoldable pub main : List Proc → Run
main [] = goes_on []
main (p ∷ ps) =
    let rest = main ps in
    let one = after (pid_is (atoi p.d_name) ∷ []) (then_run (list_proc p.fds) rest) in
    if is_zero (atoi p.d_name) then rest else one

-- What should be printed of descriptors that can all be read: the links but that of descriptor 0.
pub data Links : List Fd → List Shown → Type 0 where
  no_fd : Links [] []
  skipped :
      {fs : List Fd} {xs : List Shown}
      → (f : Fd) → is_zero (atoi f.d_name) ≡ true
      → Links fs xs
      → Links (f ∷ fs) xs
  linked :
      {fs : List Fd} {xs : List Shown}
      → (f : Fd) (target : Bytes) → is_zero (atoi f.d_name) ≡ false
      → f.link ≡ some target
      → Links fs xs
      → Links (f ∷ fs) (link_is target ∷ xs)

pub list_fds-Links : {fs : List Fd} {xs : List Shown} → Links fs xs → list_fds fs ≡ goes_on xs
unfolding list_fds
list_fds-Links no_fd = refl
list_fds-Links (skipped f number l) = rw (list_fds, number) (list_fds-Links l)
list_fds-Links (linked f target number read l) = rw (list_fds, number, read, list_fds-Links l) refl

-- Processes that can all be read.
pub data Listing : List Proc → List Shown → Type 0 where
  no_proc : Listing [] []
  other_file :
      {ps : List Proc} {xs : List Shown}
      → (p : Proc) → is_zero (atoi p.d_name) ≡ true
      → Listing ps xs
      → Listing (p ∷ ps) xs
  process :
      {ps : List Proc} {xs ys : List Shown}
      → (p : Proc) (fds : List Fd) → is_zero (atoi p.d_name) ≡ false
      → p.fds ≡ some fds
      → Links fds ys
      → Listing ps xs
      → Listing (p ∷ ps) (pid_is (atoi p.d_name) ∷ (ys ++ xs))

-- Of processes that can all be read the program prints the number, and then where each descriptor
-- but 0 leads, in the order of the entries.
pub main-Listing_fds : {ps : List Proc} {xs : List Shown} → Listing ps xs → main ps ≡ goes_on xs
unfolding main
main-Listing_fds no_proc = refl
main-Listing_fds (other_file p number l) = rw (main, number) (main-Listing_fds l)
main-Listing_fds (process p fds number opened links l) =
    rw (main, number, opened, list_fds-Links links, main-Listing_fds l) refl
