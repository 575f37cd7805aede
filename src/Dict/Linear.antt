-- ===== src/Dict/Linear.antt =====
-- SP_HW4/part3/lookup1.c: a search from the top of the file at each call. A missing reply is a crash.
pub mod Memory
pub mod Laws
pub mod Shown
use network_system_programmi.Base.{
  ℕ, zero, suc, ◌+◌, ◌-◌, ◌*◌, Bool, true, false, Option, none, some, List, [], ◌∷◌, ◌++◌,
  if◌then◌else◌, ◌==◌, eq_bytes, drop, take, length, c_string, write_at, replicate,
}
use network_system_programmi.Dict.Record.{
  Bytes, Dictrec, word_size, text_size, word_of, Answer, found, not_found,
}

-- A stream open for reading, by the bytes that are left, and a buffer.
pub record Reading : Type 0 where
  pub buffer : Bytes
  pub rest : Bytes

-- `fread(buffer, 1, n, in)`: the bytes read replace the start of the buffer.
abbrev pub fread : ℕ → Bytes → Bytes → Reading
fread n buffer input = record { buffer = write_at 0 (take n input) buffer; rest = drop n input }

-- `s[strlen(s) - 1] = '\0'`, which stores in front of an empty string: that store is left out.
abbrev pub chop : ℕ → Bytes → Bytes
chop n mem = write_at (n - 1) (0 ∷ []) mem

pub record Found : Type 0 where
  pub answer : Answer
  pub sought : Dictrec

abbrev matched : Dictrec → Reading → Found
matched sought r = record {
  answer = found;
  sought = write_at word_size (take text_size r.rest) (chop (length (c_string r.buffer)) sought);
}

-- `while (fread(word, 1, 32, in) != 0)`: a round for each unit of fuel. `sought` has its newline.
unfoldable pub search_loop : ℕ → Bytes → Bytes → Dictrec → Found
search_loop zero word input sought = record { answer = not_found; sought = sought }
search_loop (suc f) word [] sought = record {
  answer = not_found;
  sought = chop (length (word_of sought)) sought;
}
search_loop (suc f) word (c ∷ input) sought =
    let r = fread word_size word (c ∷ input) in
    let next = search_loop f r.buffer (drop text_size r.rest) sought in
    if eq_bytes (c_string r.buffer) (word_of sought) then matched sought r else next

-- `strcat(sought->word, "\n")`
abbrev pub add_newline : Dictrec → Dictrec
add_newline r = write_at (length (word_of r)) (10 ∷ 0 ∷ []) r

-- The static variables: `first_time`, and the stream with the whole file, or NULL.
pub record Statics : Type 0 where
  pub first_time : Bool
  pub stream : Option Bytes

pub record Reply : Type 0 where
  pub result : Found
  pub statics : Statics

abbrev from_top : Dictrec → Option Bytes → Option Reply
from_top sought none = none
from_top sought (some file) = some (record {
  result = search_loop (suc (length file)) (replicate word_size 0) file (add_newline sought);
  statics = record { first_time = false; stream = some file };
})

-- `lookup`; `file` is what `fopen` would open. If it cannot, the call returns 0, which is `FOUND`.
unfoldable pub lookup : Statics → Option Bytes → Dictrec → Option Reply
lookup st file sought =
    let opening : Option Reply = elim file [
      | none ↦ some (record {
        result = record { answer = found; sought = sought };
        statics = record { first_time = false; stream = none };
      })
      | some bytes ↦ from_top sought (some bytes)
    ] in
    if st.first_time then opening else from_top sought st.stream
