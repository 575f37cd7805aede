-- ===== src/Notify.antt =====
-- SP_HW6/file_notify.c: what is shown of the events of a directory.
pub mod Events
use network_system_programmi.Base.{
  ℕ, zero, suc, ◌+◌, ◌*◌, ◌/◌, ◌%◌, Bool, true, false, Option, none, some, List, [], ◌∷◌, ◌++◌,
  if◌then◌else◌, ◌==◌, ltb, ◌&&◌, drop, replicate, write_at, c_string,
}

abbrev pub Bytes : Type 0
Bytes = List ℕ

-- `sizeof(struct inotify_event) + NAME_MAX + 1`
abbrev pub event_size : ℕ
event_size = 272

-- `BUF_LEN`
abbrev pub buf_len : ℕ
buf_len = 2720

-- No read is out of bounds, so the 0 for one is never seen.
abbrev pub byte_at : Bytes → ℕ → ℕ
byte_at [] p = 0
byte_at (b ∷ bs) zero = b
byte_at (b ∷ bs) (suc p) = byte_at bs p

-- Four bytes, the lowest first.
abbrev pub word_at : Bytes → ℕ → ℕ
word_at mem p =
    byte_at mem p
    + 256 * byte_at mem (p + 1)
    + 65536 * byte_at mem (p + 2)
    + 16777216 * byte_at mem (p + 3)

-- `struct inotify_event`; `wd` is the pattern of an `int`.
pub record Event : Type 0 where
  pub wd : ℕ
  pub mask : ℕ
  pub cookie : ℕ
  pub len : ℕ
  pub name : Bytes

abbrev pub event_at : Bytes → ℕ → Event
event_at mem p = record {
  wd = word_at mem p;
  mask = word_at mem (p + 4);
  cookie = word_at mem (p + 8);
  len = word_at mem (p + 12);
  name = c_string (drop (p + 16) mem);
}

pub data Flag : Type 0 where
  access attrib close_nowrite close_write create delete delete_self ignored isdir modify move_self
        moved_from moved_to opened q_overflow unmount :
      Flag

-- IN_ACCESS and so on.
abbrev pub bit_of : Flag → ℕ
bit_of access = 1
bit_of modify = 2
bit_of attrib = 4
bit_of close_write = 8
bit_of close_nowrite = 16
bit_of opened = 32
bit_of moved_from = 64
bit_of moved_to = 128
bit_of create = 256
bit_of delete = 512
bit_of delete_self = 1024
bit_of move_self = 2048
bit_of unmount = 8192
bit_of q_overflow = 16384
bit_of ignored = 32768
bit_of isdir = 1073741824

-- In the order of the tests.
abbrev pub all_flags : List Flag
all_flags =
    access ∷ attrib ∷ close_nowrite ∷ close_write ∷ create ∷ delete ∷ delete_self ∷ ignored ∷ isdir
    ∷ modify ∷ move_self ∷ moved_from ∷ moved_to ∷ opened ∷ q_overflow ∷ unmount ∷ []

-- `i->mask & IN_...`
abbrev pub has_flag : ℕ → Flag → Bool
has_flag mask f = mask / bit_of f % 2 == 1

-- After these the files are watched anew.
abbrev pub rewatches : Flag → Bool
rewatches create = true
rewatches delete = true
rewatches moved_from = true
rewatches moved_to = true
rewatches _ = false

pub data Shown : Type 0 where
  wd_is : ℕ → Shown
  cookie_is : ℕ → Shown
  name_is : Bytes → Shown
  flag_is : Flag → Shown
  watching : ℕ → Shown
  end_of_event : Shown

-- What was printed, and whether the program goes on or calls `exit`.
pub record Display : Type 0 where
  pub shown : List Shown
  pub goes_on : Bool

abbrev pub nothing : Display
nothing = record { shown = []; goes_on = true }

abbrev pub stop : Display
stop = record { shown = []; goes_on = false }

abbrev pub show_one : Shown → Display
show_one s = record { shown = s ∷ []; goes_on = true }

infixl 30 ◌then◌
abbrev pub ◌then◌ : Display → Display → Display
d then e = record {
  shown = if d.goes_on then d.shown ++ e.shown else d.shown;
  goes_on = d.goes_on && e.goes_on;
}

-- `display_file_info` of each file that `nftw` visits, with the answer of `inotify_add_watch`, `none`
-- for a negative one.
abbrev pub display_files : List (Option ℕ) → Display
display_files [] = nothing
display_files (none ∷ files) = stop
display_files (some wd ∷ files) = show_one (watching wd) then display_files files

-- `nftw`, `none` when it gives -1
abbrev pub walk_files : Option (List (Option ℕ)) → Display
walk_files none = stop
walk_files (some files) = display_files files

abbrev pub display_flags : Option (List (Option ℕ)) → ℕ → List Flag → Display
display_flags files mask [] = nothing
display_flags files mask (f ∷ fs) =
    let rest = display_flags files mask fs in
    if has_flag mask f
    then show_one (flag_is f)
    then (if rewatches f then walk_files files then rest else rest)
    else rest

-- `i -> wd > 0`
abbrev pub is_positive : ℕ → Bool
is_positive wd = ltb 0 wd && ltb wd 2147483648

unfoldable pub display_all_event : Option (List (Option ℕ)) → Event → Display
display_all_event files i =
    let head = show_one (wd_is i.wd) in
    let cookie = if ltb 0 i.cookie then show_one (cookie_is i.cookie) else nothing in
    let all =
      head
      then cookie
      then show_one (name_is i.name)
      then display_flags files i.mask all_flags
      then show_one end_of_event in
    if is_positive i.wd && ltb 0 i.len then all else nothing

-- `for(ptr = buf ; ptr < (buf + BUF_LEN) ; ptr += ...)`, with so many places left.
unfoldable pub display_places : Option (List (Option ℕ)) → ℕ → Bytes → ℕ → Display
display_places files zero mem p = nothing
display_places files (suc n) mem p =
    display_all_event files (event_at mem p) then display_places files n mem (p + event_size)

-- One `read` into the buffer of zeros, which holds ten places.
unfoldable pub round : Option (List (Option ℕ)) → Bytes → Display
round files bytes = display_places files 10 (write_at 0 bytes (replicate buf_len 0)) 0

-- `main`, over what each `read` gives; no more is a read that fails.
unfoldable pub main : Option (List (Option ℕ)) → List Bytes → Display
main files reads = walk_files files then rounds reads
  where
    rounds : List Bytes → Display
    rounds [] = stop
    rounds ([] ∷ more) = stop
    rounds ((b ∷ bs) ∷ more) = round files (b ∷ bs) then rounds more
