-- ===== src/Dict/Record.antt =====
-- dict.h: a record is 32 bytes of word and 480 bytes of text, one after the other in memory.
use network_system_programmi.Base.{ℕ, List, [], ◌∷◌, ◌++◌, c_string, drop, write_at}

abbrev pub word_size : ℕ
word_size = 32

abbrev pub text_size : ℕ
text_size = 480

-- `sizeof(Dictrec)`
abbrev pub record_size : ℕ
record_size = 512

abbrev pub Bytes : Type 0
Bytes = List ℕ

-- The memory of a `Dictrec`. A pointer to one in a table is the memory from there on.
abbrev pub Dictrec : Type 0
Dictrec = Bytes

-- `word` and `text` as C strings: without a NUL they run on into what follows.
abbrev pub word_of : Dictrec → Bytes
word_of r = c_string r

abbrev pub text_of : Dictrec → Bytes
text_of r = c_string (drop word_size r)

-- `strcpy(r->text, s)`
abbrev pub strcpy_text : Bytes → Dictrec → Dictrec
strcpy_text s r = write_at word_size (s ++ 0 ∷ []) r

-- `FOUND`, `NOTFOUND`, `UNAVAIL`
pub data Answer : Type 0 where
  found not_found unavail : Answer
