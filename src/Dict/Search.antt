-- ===== src/Dict/Search.antt =====
-- SP_HW11/part1/lookup5.c (the same in part2 and part3): a file in memory, searched by `bsearch`.
pub mod Laws
use network_system_programmi.Base.{
  ℕ, zero, suc, ◌+◌, ◌*◌, ◌/◌, Bool, true, false, Option, none, some, List, [], ◌∷◌, if◌then◌else◌,
  ltb, drop, length, strcmp, Ordering,
}
use network_system_programmi.Dict.Record.{
  Bytes, Dictrec, record_size, word_of, text_of, strcpy_text, Answer, found, not_found,
}

unfoldable pub dict_cmp : Dictrec → Dictrec → Ordering
dict_cmp a b = strcmp (word_of a) (word_of b)

-- The C library's `bsearch` between `l` and `u`, with `cmp i` the answer of the comparison of the key
-- with element i; a round for each unit of fuel.
unfoldable pub bsearch : (ℕ → Ordering) → ℕ → ℕ → ℕ → Option ℕ
bsearch cmp zero l u = none
bsearch cmp (suc f) l u =
    let mid = (l + u) / 2 in
    let halves : Option ℕ = elim (cmp mid) [
      | Ordering.lt ↦ bsearch cmp f l mid
      | Ordering.gt ↦ bsearch cmp f (mid + 1) u
      | Ordering.eq ↦ some mid
    ] in
    if ltb l u then halves else none

-- The static variables; `table` is `none` while `first_time` is set.
pub record Statics : Type 0 where
  pub table : Option Bytes
  pub numrec : ℕ

-- The record at index i of a table.
abbrev pub entry : Bytes → ℕ → Dictrec
entry table i = drop (record_size * i) table

pub record Reply : Type 0 where
  pub answer : Answer
  pub sought : Dictrec
  pub statics : Statics

abbrev answer_of : Statics → Bytes → Dictrec → Option ℕ → Reply
answer_of st table sought none = record { answer = not_found; sought = sought; statics = st }
answer_of st table sought (some i) = record {
  answer = found;
  sought = strcpy_text (text_of (entry table i)) sought;
  statics = st;
}

-- `bsearch(sought, table, numrec, sizeof(Dictrec), dict_cmp)` and what follows it.
unfoldable pub search : Statics → Bytes → Dictrec → Reply
search st table sought =
    answer_of st table sought
      (bsearch (λ i. dict_cmp sought (entry table i)) (suc st.numrec) 0 st.numrec)

abbrev opened : Bytes → Statics
opened file = record { table = some file; numrec = length file / record_size }

-- `lookup`: the file is what `open` and `mmap` give; no reply is `exit(1)`.
unfoldable pub lookup : Statics → Option Bytes → Dictrec → Option Reply
unfolding search
lookup st file sought = elim st.table [
  | some table ↦ some (search st table sought)
  | none ↦ elim file [ none ↦ none | some bytes ↦ some (search (opened bytes) bytes sought) ]
]

abbrev pub first_time : Statics
first_time = record { table = none; numrec = 0 }
