-- ===== src/Dict/Convert.antt =====
-- SP_HW4/part3/convert.c: a text of words and their definitions into a file of records.
pub mod Lines
pub mod Laws
pub mod Unclosed
use network_system_programmi.Base.{
  ℕ, zero, suc, ◌+◌, Bool, true, false, Option, none, some, List, [], ◌∷◌, ◌++◌, if◌then◌else◌,
  ◌==◌, eq_bytes, length, c_string, write_at, replicate,
}
use network_system_programmi.Dict.Record.{Bytes, Dictrec, word_size, record_size}

-- A stream: the bytes left, and the indicator that `feof` tests.
pub record Stream : Type 0 where
  pub rest : Bytes
  pub eof : Bool

pub record Got : Type 0 where
  pub line : Bytes
  pub stream : Stream

abbrev pub cons_got : ℕ → Got → Got
cons_got c g = record { line = c ∷ g.line; stream = g.stream }

-- The bytes up to the newline, which is kept; the end of the file sets the indicator.
unfoldable pub to_newline : Bytes → Got
to_newline [] = record { line = []; stream = record { rest = []; eof = true } }
to_newline (c ∷ s) =
    let more = cons_got c (to_newline s) in
    if c == 10 then record { line = c ∷ []; stream = record { rest = s; eof = false } } else more

-- `getline`; none is -1, at the end of the file.
unfoldable pub getline : Stream → Option Got
unfolding to_newline
getline s = elim s.rest [ [] ↦ none | c ∷ r ↦ some (to_newline (c ∷ r)) ]

abbrev pub at_end : Stream
at_end = record { rest = []; eof = true }

abbrev pub newline : Bytes
newline = 10 ∷ []

-- A record being filled, and the stream behind what was read.
pub record Filled : Type 0 where
  pub blank : Dictrec
  pub stream : Stream

-- `while (getline(&buf, &line, in) != -1)`: each line is stored with its NUL, one behind the other;
-- a round for each unit of fuel.
unfoldable pub definition_loop : ℕ → ℕ → Dictrec → Stream → Filled
definition_loop zero index blank s = record { blank = blank; stream = s }
definition_loop (suc f) index blank s = elim (getline s) [
  | none ↦ record { blank = blank; stream = at_end }
  | some g ↦
      let buf = c_string g.line in
      let next =
        definition_loop f (index + (length buf + 1))
          (write_at (word_size + index) (buf ++ 0 ∷ []) blank) g.stream in
      if eq_bytes buf newline then record { blank = blank; stream = g.stream } else next
]

-- What the loop over `buffer` stores in `word`: the string and its NUL, or a newline alone.
abbrev pub word_bytes : Bytes → Bytes
word_bytes [] = 0 ∷ []
word_bytes (c ∷ s) = if c == 10 then newline else (c ∷ s) ++ 0 ∷ []

abbrev pub zeroed : Dictrec
zeroed = replicate record_size 0

-- One round of the main loop, up to the writing of the record.
unfoldable pub read_record : Stream → Filled
unfolding getline definition_loop
read_record s = elim (getline s) [
  | none ↦ definition_loop 1 0 zeroed at_end
  | some g ↦
      definition_loop (suc (length g.stream.rest)) 0
        (write_at 0 (word_bytes (c_string g.line)) zeroed) g.stream
]

-- `while (!feof(in))`: what is written to `out`, a round for each unit of fuel.
unfoldable pub convert_loop : ℕ → Stream → Bytes
convert_loop zero s = []
convert_loop (suc f) s =
    let r = read_record s in
    let next = convert_loop f r.stream in
    let written = if r.stream.eof then next else r.blank ++ next in if s.eof then [] else written

-- How `main` ends.
pub data Exit : Type 0 where
  usage dies : Exit
  wrote : Bytes → Exit

-- `main`, with what the two calls of `fopen` give.
unfoldable pub main : ℕ → Option Bytes → Bool → Exit
main argc none out = if argc == 3 then dies else usage
main argc (some file) out =
    let written =
      wrote (convert_loop (suc (suc (length file))) (record { rest = file; eof = false })) in
    if argc == 3 then (if out then written else dies) else usage
