-- ===== src/Files.antt =====
-- Programs that copy files: SP_HW1, SP_HW4/part1/mycat.c and SP_HW9/49/49-1.c.
pub mod Copy
pub mod Tee
use network_system_programmi.Base.{
  ℕ, zero, suc, Bool, true, false, Option, none, some, List, [], ◌∷◌, ◌++◌, if◌then◌else◌, eq_bytes,
  codes, take, drop, length, replicate, write_at, c_string, leb, ◌%◌, ◌&&◌, ◌==◌,
}

abbrev pub Bytes : Type 0
Bytes = List ℕ

-- The contents of the files, by their paths; no two paths name the same file.
abbrev pub FileSystem : Type 0
FileSystem = Bytes → Option Bytes

unfoldable pub put : FileSystem → Bytes → Bytes → FileSystem
put fs path content p = if eq_bytes p path then some content else fs p

abbrev pub content_of : Option Bytes → Bytes
content_of none = []
content_of (some s) = s

-- mycat.c: `read` fills the buffer as far as the file goes, and all of it is written.
unfoldable pub mycat_loop : ℕ → Bytes → Bytes
mycat_loop zero file = []
mycat_loop (suc fuel) [] = []
mycat_loop (suc fuel) (c ∷ rest) = take 1024 (c ∷ rest) ++ mycat_loop fuel (drop 1024 (c ∷ rest))

pub data Shown : Type 0 where
  usage : Shown
  open_error : Shown
  output : Bytes → Shown

abbrev pub shown_file : Option Bytes → Shown
shown_file none = open_error
shown_file (some file) = output (mycat_loop (length file) file)

-- `main` of mycat.c, with the arguments behind the name of the program.
unfoldable pub mycat : List Bytes → FileSystem → Shown
mycat [] fs = usage
mycat (path ∷ more) fs = shown_file (fs path)

-- hw1-2.c: the call that fails, if one does.
pub data CopyStep : Type 0 where
  open_source lseek close_source reopen read_source close_again open_target write_target
        close_target :
      CopyStep

-- The block that `malloc` gives, and how many bytes `read` and `write` take of those asked for.
pub record CopyCalls : Type 0 where
  pub failing : Option CopyStep
  pub buffer : Bytes
  pub read_count : ℕ
  pub write_count : ℕ

-- The files that a program leaves, with `exit(1)`, at its end, or killed by a signal.
pub data Left : Type 0 where
  exits : FileSystem → Left
  ends : FileSystem → Left
  killed : FileSystem → Left

-- `open(argv[1], O_RDONLY | O_CREAT | O_APPEND)` makes a file that is not there.
abbrev pub create : FileSystem → Bytes → FileSystem
create fs path = put fs path (content_of (fs path))

-- What is left by the call that fails: the files before the source was made, with the source made, with
-- the target emptied, and with the target written.
abbrev pub copy_left : Option CopyStep → (before made emptied written : FileSystem) → Left
copy_left none before made emptied written = ends written
copy_left (some open_source) before made emptied written = exits before
copy_left (some write_target) before made emptied written = exits emptied
copy_left (some close_target) before made emptied written = exits written
copy_left (some lseek) before made emptied written = exits made
copy_left (some close_source) before made emptied written = exits made
copy_left (some reopen) before made emptied written = exits made
copy_left (some read_source) before made emptied written = exits made
copy_left (some close_again) before made emptied written = exits made
copy_left (some open_target) before made emptied written = exits made

-- `int buf_size = lseek(..)`: the 32 bits of the size, which are a negative number from 2 ^ 31 on.
abbrev pub buf_size_of : ℕ → ℕ
buf_size_of size = size % 4294967296

abbrev pub is_negative : ℕ → Bool
is_negative size = leb 2147483648 (buf_size_of size)

-- A negative size ends the program as a failed `lseek` does.
abbrev pub failing_step : Option CopyStep → Bool → Option CopyStep
failing_step (some open_source) negative = some open_source
failing_step (some s) negative = if negative then some lseek else some s
failing_step none negative = if negative then some lseek else none

-- `main` of hw1-2.c.
unfoldable pub copy : CopyCalls → (source target : Bytes) → FileSystem → Left
copy c source target fs =
    let made = create fs source in
    let content = content_of (made source) in
    let size = buf_size_of (length content) in
    let buf = write_at 0 (take size (take c.read_count content)) c.buffer in
    copy_left (failing_step c.failing (is_negative (length content))) fs made (put made target [])
      (put made target (take size (take c.write_count buf)))

abbrev pub pad_to : ℕ → Bytes → Bytes
pad_to n s = take n (s ++ replicate n 0)

-- 49-1.c: the call that fails, other than for a source that is not there.
pub data MapStep : Type 0 where
  stat mmap_source open_target ftruncate mmap_target : MapStep

-- `mmap` that fails does not give NULL, so the program goes on, and `memcpy` of more than 0 bytes
-- kills it.
abbrev pub unmapped : ℕ → FileSystem → Left
unmapped size fs = if size == 0 then ends fs else killed fs

abbrev pub map_left : Option MapStep → ℕ → (before emptied sized written : FileSystem) → Left
map_left none size before emptied sized written = ends written
map_left (some stat) size before emptied sized written = exits before
map_left (some open_target) size before emptied sized written = exits before
map_left (some ftruncate) size before emptied sized written = exits emptied
map_left (some mmap_source) size before emptied sized written = unmapped size sized
map_left (some mmap_target) size before emptied sized written = unmapped size sized

-- `main` of 49-1.c. The mapping of the source shows what the file holds when `memcpy` reads it.
unfoldable pub mmap_copy : Option MapStep → (source target : Bytes) → FileSystem → Left
mmap_copy failing source target fs = elim (fs source) [
  | none ↦ exits fs
  | some content ↦
      let size = length content in
      let emptied = put fs target [] in
      let sized = put emptied target (pad_to size []) in
      map_left failing size fs emptied sized
        (put sized target (pad_to size (content_of (sized source))))
]

-- hw1-1.c: standard output so far, and the files.
pub record Written : Type 0 where
  pub out : Bytes
  pub files : FileSystem

pub data Teed : Type 0 where
  -- `exit(1)`, with the message of the call that failed
  read_error : Written → Teed
  write_error : Written → Teed
  open_failed : Written → Teed

pub data Target : Type 0 where
  no_target : Target
  truncates : Bytes → Target
  appends : Bytes → Target
  -- "-a" alone: a file of that name is written first, and `open(NULL)` fails then
  appends_null : Bytes → Target

abbrev pub is_option : Bytes → Bool
is_option s = eq_bytes s (codes "-a")

-- The two tests on `argv` and `args`.
abbrev pub target_of : List Bytes → Target
target_of [] = no_target
target_of (path ∷ []) = if is_option path then appends_null path else truncates path
target_of (first ∷ path ∷ more) = if is_option first then appends path else no_target

-- `buf`, with what lies behind it, as `strlen` sees it.
abbrev pub buffered : Bytes → Bytes → Bytes
buffered beyond chunk = c_string (write_at 0 chunk (replicate 1024 0) ++ beyond)

abbrev pub put_target : Target → Bytes → FileSystem → FileSystem
put_target no_target text fs = fs
put_target (truncates path) text fs = put fs path text
put_target (appends path) text fs = put fs path (content_of (fs path) ++ text)
put_target (appends_null path) text fs = put fs path text

abbrev pub fails_open : Target → Bool
fails_open (appends_null path) = true
fails_open no_target = false
fails_open (truncates path) = false
fails_open (appends path) = false

-- `while(1)`, over what each `read` gives; at the end of the input it gives 0 bytes. A `write` of no
-- bytes returns 0, which counts as an error.
unfoldable pub tee_loop : (beyond : Bytes) → Target → List Bytes → Written → Teed
tee_loop beyond to [] w = read_error w
tee_loop beyond to ([] ∷ chunks) w = read_error w
tee_loop beyond to ((c ∷ cs) ∷ chunks) w =
    let text = buffered beyond (c ∷ cs) in
    let next : Written = record { out = w.out ++ text; files = put_target to text w.files } in
    let rest = tee_loop beyond to chunks next in
    if length text == 0 then write_error w else if fails_open to then open_failed next else rest

unfoldable pub tee : (beyond : Bytes) → List Bytes → List Bytes → FileSystem → Teed
tee beyond argv input fs = tee_loop beyond (target_of argv) input (record { out = []; files = fs })

-- produce_file.c: the bytes of "nullbyte.txt".
abbrev pub nullbyte_txt : Bytes
nullbyte_txt = codes "sa" ++ 0 ∷ 0 ∷ 0 ∷ codes "dscdcsc" ++ 0 ∷ 0 ∷ 0 ∷ 0 ∷ codes "ssccddsc"

unfoldable pub produce_file : FileSystem → FileSystem
produce_file fs = put fs (codes "nullbyte.txt") nullbyte_txt
