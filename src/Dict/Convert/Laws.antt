-- ===== src/Dict/Convert/Laws.antt =====
-- The records that `convert` writes for a text of entries, each a word, its lines and a blank line.
use network_system_programmi.Base.{
  ℕ, zero, suc, ◌+◌, ◌-◌, ◌≤◌, ◌<◌, ◌≡◌, refl, ap, sym, ◌∙◌, true, some, List, [], ◌∷◌, ◌++◌,
  length, arith, All, write_at, append_assoc, length-append,
}
use network_system_programmi.Dict.Record.{Bytes, Dictrec, word_size, text_size, record_size}
use network_system_programmi.Dict.Convert.{
  newline, word_bytes, zeroed, read_record, convert_loop, main, wrote, at_end,
}
use network_system_programmi.Dict.Convert.Lines.{
  IsText, IsText-IsPlain, c_string-newline, definition_loop_lem, getline_lem, length-zeros, open_at,
  source_lines, stored, write_at-blank, zeros,
}

pub record Entry : Type 0 where
  pub word : Bytes
  pub lines : List Bytes

-- The entry fits a record: its word leaves room for a newline and a NUL.
pub record Fits (e : Entry) : Type 0 where
  pub word_text : IsText e.word
  pub line_texts : All IsText e.lines
  pub word_room : length e.word ≤ 30
  pub text_room : length (stored e.lines) ≤ text_size

-- The text of an entry, in front of the rest of the file.
abbrev pub source : Entry → Bytes → Bytes
source e r = e.word ++ 10 ∷ source_lines e.lines r

abbrev pub source_all : List Entry → Bytes
source_all [] = []
source_all (e ∷ es) = source e (source_all es)

abbrev pub record_of : Entry → Dictrec
record_of e =
    ((e.word ++ newline) ++ zeros (31 - length e.word))
    ++ (stored e.lines ++ zeros (text_size - length (stored e.lines)))

abbrev pub records_of : List Entry → Bytes
records_of [] = []
records_of (e ∷ es) = record_of e ++ records_of es

pub zeros-append : (a b n : ℕ) → n ≡ a + b → zeros n ≡ zeros a ++ zeros b
zeros-append zero b n e = ap zeros (omega arith)
zeros-append (suc a) b zero e = absurd (omega arith)
zeros-append (suc a) b (suc n) e = ap (λ (t : Bytes). 0 ∷ t) (zeros-append a b n (omega arith))

pub length-source_lines : (ls : List Bytes) (r : Bytes) → length ls ≤ length (source_lines ls r)
length-source_lines [] r = omega arith
length-source_lines (l ∷ ls) r =
    omega (arith, length-append l (10 ∷ source_lines ls r), length-source_lines ls r)

abbrev pub word_part : Bytes → Bytes
word_part w = (w ++ newline) ++ zeros (31 - length w)

word_bytes-text : (w : Bytes) → IsText w → word_bytes (w ++ newline) ≡ (w ++ newline) ++ 0 ∷ []
word_bytes-text [] h = elim h [ ]
word_bytes-text (c ∷ w) h = rw h.0.0

word-stored :
    (w : Bytes)
    → IsText w
    → length w ≤ 30
    → write_at 0 (word_bytes (w ++ newline)) zeroed ≡ word_part w ++ ([] ++ zeros text_size)
word-stored w h room = rw (word_bytes-text w h) (
    write_at-blank ((w ++ newline) ++ 0 ∷ []) record_size (510 - length w)
      (omega (arith, length-append (w ++ newline) (0 ∷ []), length-append w newline))
    ∙ append_assoc (w ++ newline) (0 ∷ []) (zeros (510 - length w))
    ∙ ap (λ t. (w ++ newline) ++ t)
        (zeros-append (31 - length w) text_size (suc (510 - length w)) (omega arith))
    ∙ sym (append_assoc (w ++ newline) (zeros (31 - length w)) (zeros text_size)))

pub length-word_part : (w : Bytes) → length w ≤ 30 → length (word_part w) ≡ word_size
length-word_part w h = omega (
  arith,
  length-append (w ++ newline) (zeros (31 - length w)),
  length-append w newline,
  length-zeros (31 - length w),
)

pub read_record_lem :
    (e : Entry) (r : Bytes)
    → Fits e
    → read_record (open_at (source e r)) ≡ record { blank = record_of e; stream = open_at r }
unfolding read_record
read_record_lem e r h =
    rw
      (
        getline_lem e.word (source_lines e.lines r) (IsText-IsPlain e.word h.word_text),
        read_record,
        c_string-newline e.word (IsText-IsPlain e.word h.word_text),
        word-stored e.word h.word_text h.word_room,
      )
      (definition_loop_lem e.lines (suc (length (source_lines e.lines r))) 0 text_size
        (text_size - length (stored e.lines)) (word_part e.word) [] r h.line_texts
        (omega (arith, length-source_lines e.lines r)) (length-word_part e.word h.word_room) refl
        (omega (arith, h.text_room)))

pub length-rest : (ls : List Bytes) (r : Bytes) → length r < length (source_lines ls r)
length-rest [] r = omega arith
length-rest (l ∷ ls) r = omega (arith, length-append l (10 ∷ source_lines ls r), length-rest ls r)

pub convert_loop-at_end : (f : ℕ) → convert_loop f at_end ≡ []
unfolding convert_loop
convert_loop-at_end zero = refl
convert_loop-at_end (suc f) = refl

read_record-empty : read_record (open_at []) ≡ record { blank = zeroed; stream = at_end }
unfolding read_record
read_record-empty = refl

convert_loop_lem :
    (es : List Entry) (f : ℕ)
    → All Fits es
    → length es < f
    → convert_loop f (open_at (source_all es)) ≡ records_of es
unfolding convert_loop
convert_loop_lem es zero h lt = absurd (omega arith)
convert_loop_lem [] (suc f) h lt = rw (read_record-empty, convert_loop-at_end f)
convert_loop_lem (e ∷ es) (suc f) h lt =
    rw (read_record_lem e (source_all es) h.0, convert_loop_lem es f h.1 (omega arith))

length-source_all : (es : List Entry) → length es ≤ length (source_all es)
length-source_all [] = omega arith
length-source_all (e ∷ es) = omega (
  arith,
  length-append e.word (10 ∷ source_lines e.lines (source_all es)),
  length-source_all es,
  length-rest e.lines (source_all es),
)

-- From a text of entries that fit, each closed by a blank line, `convert` writes one record for
-- each, in order: the word with its newline, and the lines of the definition with a newline and a
-- NUL each, both filled up with NULs.
pub main-source_all :
    (es : List Entry) → All Fits es → main 3 (some (source_all es)) true ≡ wrote (records_of es)
unfolding main
main-source_all es h = ap wrote (
    convert_loop_lem es (suc (suc (length (source_all es)))) h
      (omega (arith, length-source_all es)))
