-- ===== src/TwoWay.antt =====
-- SP_HW5/bidirection_pipe.c: a text goes to a child through one pipe, and comes back in capitals
-- through another.
pub mod Laws
use network_system_programmi.Base.{
  ℕ, zero, suc, ◌+◌, ◌-◌, Bool, true, false, List, [], ◌∷◌, ◌++◌, if◌then◌else◌, ◌&&◌, leb, ◌==◌,
  take, replicate, write_at, c_string,
}

abbrev pub Bytes : Type 0
Bytes = List ℕ

-- `toupper` of the C locale
abbrev pub toupper : ℕ → ℕ
toupper c = if leb 97 c && leb c 122 then c - 32 else c

-- `char buf[200] = "";`
abbrev pub fresh : Bytes
fresh = replicate 200 0

-- `read(fd, buf, sizeof(buf))` of what is in a pipe.
abbrev pub read_into : Bytes → Bytes → Bytes
read_into piped buf = write_at 0 (take 200 piped) buf

-- `for(; child_buf[i] != '\0' ; i++)`
unfoldable pub capitals : Bytes → Bytes
capitals [] = []
capitals (c ∷ s) = let rest = toupper c ∷ capitals s in if c == 0 then c ∷ s else rest

-- The child: what it reads from the first pipe, and writes to the second.
unfoldable pub child : Bytes → Bytes
child piped = c_string (capitals (read_into piped fresh))

-- The parent: `buf` with its NUL goes into the first pipe.
unfoldable pub send : Bytes → Bytes
send buf = c_string buf ++ 0 ∷ []

-- What the parent writes to its old standard output.
unfoldable pub receive : Bytes → Bytes
receive piped = c_string (read_into piped fresh)

-- One round of the loop, for what `read` gives of standard input. `buf` is zero before.
unfoldable pub round : Bytes → Bytes
round input = receive (child (send (read_into input fresh)))

-- How many processes read standard input after so many rounds: the child of a round has no `exit`, and
-- goes on with the loop.
unfoldable pub readers : ℕ → ℕ
readers zero = 1
readers (suc rounds) = readers rounds + 1
