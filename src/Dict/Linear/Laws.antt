-- ===== src/Dict/Linear/Laws.antt =====
-- `lookup` of lookup1.c on a file that `convert` wrote.
use network_system_programmi.Base.{
  ℕ, zero, suc, ◌≤◌, ◌<◌, ◌≡◌, refl, ap, sym, ◌∙◌, true, false, Option, none, some, List, [], ◌∷◌,
  ◌++◌, length, take, drop, replicate, arith, All, if◌then◌else◌, Bool-cases, inl, inr, eq_bytes,
  eq_bytes→eq, NoNul, c_string, write_at, append_assoc, length-append,
}
use network_system_programmi.Dict.Record.{
  Bytes, Dictrec, word_size, text_size, word_of, found, not_found,
}
use network_system_programmi.Dict.Convert.{main, wrote}
use network_system_programmi.Dict.Convert.Lines.{IsText, IsPlain, IsText-IsPlain}
use network_system_programmi.Dict.Convert.Laws.{
  Entry, Fits, word_part, length-word_part, record_of, records_of, source_all, main-source_all,
}
use network_system_programmi.Dict.Linear.{
  Reading, fread, chop, Found, search_loop, add_newline, Statics, lookup,
}
use network_system_programmi.Dict.Linear.Memory.{
  add_newline_lem, c_string-word_part, chop_lem, drop-length, eq_bytes-newline, length-text_part,
  memory, take-length, text_part, word_of-newline, write_at-all,
}

-- The first entry of a word.
unfoldable pub find_entry : Bytes → List Entry → Option Entry
find_entry w [] = none
find_entry w (e ∷ es) = let rest = find_entry w es in if eq_bytes e.word w then some e else rest

-- What the search leaves: the word sought, and behind it the text of the entry found.
abbrev pub outcome : Bytes → Bytes → Option Entry → Found
outcome w tail none = record { answer = not_found; sought = memory w 0 tail }
outcome w tail (some e) = record {
  answer = found;
  sought = write_at word_size (text_part e) (memory w 0 tail);
}

search_loop-nil :
    (f : ℕ) (word : Bytes) (r : Dictrec)
    → search_loop (suc f) word [] r
      ≡ record { answer = not_found; sought = chop (length (word_of r)) r }
unfolding search_loop
search_loop-nil f word r = refl

module _ (w tail : Bytes) (plain : IsPlain w) where
  abbrev sought : Dictrec
  sought = w ++ 10 ∷ 0 ∷ tail

  -- One round of the loop, on a file that is not empty.
  abbrev round : ℕ → Reading → Found
  round f r =
      if eq_bytes (c_string r.buffer) (word_of sought)
      then record {
        answer = found;
        sought =
            write_at word_size (take text_size r.rest) (chop (length (c_string r.buffer)) sought);
      }
      else search_loop f r.buffer (drop text_size r.rest) sought

  search_loop-cons :
      (f : ℕ) (word : Bytes) (c : ℕ) (input : Bytes)
      → search_loop (suc f) word (c ∷ input) sought ≡ round f (fread word_size word (c ∷ input))
  unfolding search_loop
  search_loop-cons f word c input = refl

  search_loop-record :
      (f : ℕ) (word v rest : Bytes)
      → IsText v
      → search_loop (suc f) word (word_part v ++ rest) sought
        ≡ round f (fread word_size word (word_part v ++ rest))
  search_loop-record f word [] rest h = elim h [ ]
  search_loop-record f word (c ∷ v) rest h = search_loop-cons f word c _

  module _ (e : Entry) (h : Fits e) (rest word : Bytes) (full : length word ≡ word_size) where
    open h use {word_text, word_room}

    fread-record :
        fread word_size word (word_part e.word ++ (text_part e ++ rest))
        ≡ record { buffer = word_part e.word; rest = text_part e ++ rest }
    fread-record =
        let n = length-word_part e.word word_room in
        rw (
          take-length (word_part e.word) (text_part e ++ rest) word_size (sym n),
          drop-length (word_part e.word) (text_part e ++ rest) word_size (sym n),
          write_at-all (word_part e.word) word (n ∙ sym full),
        )

    round-record :
        (f : ℕ)
        → round f (record { buffer = word_part e.word; rest = text_part e ++ rest }) ≡ (
            if eq_bytes e.word w
            then outcome w tail (some e)
            else search_loop f (word_part e.word) rest sought)
    round-record f =
        let t = length-text_part e h in
        rw
          (
            c_string-word_part e.word (IsText-IsPlain e.word word_text) word_room,
            word_of-newline w tail plain,
            eq_bytes-newline e.word w,
            take-length (text_part e) rest text_size (sym t),
            drop-length (text_part e) rest text_size (sym t),
          )
          (elim (Bool-cases (eq_bytes e.word w)) [
            | inl same ↦ rw (same, eq_bytes→eq e.word w same, chop_lem w tail)
            | inr other ↦ rw other
          ])

    search_loop-step :
        (f : ℕ)
        → search_loop (suc f) word (record_of e ++ rest) sought ≡ (
            if eq_bytes e.word w
            then outcome w tail (some e)
            else search_loop f (word_part e.word) rest sought)
    search_loop-step f = rw (append_assoc (word_part e.word) (text_part e) rest) (
        search_loop-record f word e.word (text_part e ++ rest) word_text
        ∙ ap (round f) fread-record
        ∙ round-record f)

  search_loop_lem :
      (es : List Entry) (f : ℕ) (word : Bytes)
      → All Fits es
      → length word ≡ word_size
      → length es < f
      → search_loop f word (records_of es) sought ≡ outcome w tail (find_entry w es)
  unfolding find_entry
  search_loop_lem es zero word h full lt = absurd (omega arith)
  search_loop_lem [] (suc f) word h full lt =
      search_loop-nil f word sought ∙ rw (word_of-newline w tail plain, chop_lem w tail)
  search_loop_lem (e ∷ es) (suc f) word h full lt =
      search_loop-step e h.0 (records_of es) word full f ∙ elim (Bool-cases (eq_bytes e.word w)) [
        | inl same ↦ rw same
        | inr other ↦ rw other (
            search_loop_lem es f (word_part e.word) h.1 (length-word_part e.word h.0.word_room)
              (omega arith))
      ]

pub IsPlain-NoNul : (w : Bytes) → IsPlain w → NoNul w
IsPlain-NoNul [] h = tt
IsPlain-NoNul (c ∷ w) h = (h.0.1, IsPlain-NoNul w h.1)

length-records_of : (es : List Entry) → All Fits es → length es ≤ length (records_of es)
length-records_of [] h = omega arith
length-records_of (e ∷ es) h = omega (
  arith,
  length-append (record_of e) (records_of es),
  length-append (word_part e.word) (text_part e),
  length-word_part e.word h.0.word_room,
  length-records_of es h.1,
)

abbrev pub fresh : Statics
fresh = record { first_time = true; stream = none }

abbrev pub opened : Bytes → Statics
opened file = record { first_time = false; stream = some file }

pub from_top_lem :
    (w tail : Bytes) (y : ℕ) (es : List Entry)
    → IsPlain w
    → All Fits es
    → search_loop
        (suc (length (records_of es)))
        (replicate word_size 0)
        (records_of es)
        (add_newline (memory w y tail))
      ≡ outcome w tail (find_entry w es)
from_top_lem w tail y es plain h = rw (add_newline_lem w y tail (IsPlain-NoNul w plain)) (
    search_loop_lem w tail plain es (suc (length (records_of es))) (replicate word_size 0) h refl
      (omega (arith, length-records_of es h)))

-- From the text of entries that fit their records to an answer: `convert` writes a file in which
-- `lookup` of lookup1.c finds the first entry of the word sought and stores its text, or leaves the
-- word as it was if there is none; the first call and every later one answer alike.
pub convert-lookup :
    (es : List Entry) (w tail : Bytes) (y : ℕ) (later : Option Bytes)
    → All Fits es
    → IsPlain w
    → (file : Bytes) × (main 3 (some (source_all es)) true ≡ wrote file)
      × (lookup fresh (some file) (memory w y tail)
          ≡ some (record { result = outcome w tail (find_entry w es); statics = opened file }))
      × (lookup (opened file) later (memory w y tail) ≡ lookup fresh (some file) (memory w y tail))
unfolding lookup
convert-lookup es w tail y later h plain =
    (records_of es, main-source_all es h, rw (from_top_lem w tail y es plain h), refl)
