-- ===== src/Dict/Prompt/Laws.antt =====
-- A session with the local dictionary.
use network_system_programmi.Base.{
  ℕ, ◌+◌, ◌≤◌, ◌<◌, ◌≡◌, refl, ap, ◌∙◌, true, Option, none, some, List, [], ◌∷◌, ◌++◌, map, arith,
  All, length, drop, length-append, length-drop, length-write_at, write_at, write_at-start,
  drop-write_at, c_string, c_string-append, append_assoc, inl, inr, Bool-cases, eq_bytes,
}
use mathlib.Core.Path.{subst}
use network_system_programmi.Dict.Record.{Bytes, Dictrec, word_size, record_size, word_of, text_of}
use network_system_programmi.Dict.Client.{
  answered, Shown, definition, missing, show, gets_word, goes_on,
}
use network_system_programmi.Dict.Convert.{newline, main, wrote}
use network_system_programmi.Dict.Convert.Lines.{IsPlain}
use network_system_programmi.Dict.Convert.Laws.{
  Entry, Fits, source_all, records_of, main-source_all,
}
use network_system_programmi.Dict.Linear.{Statics, lookup}
use network_system_programmi.Dict.Linear.Memory.{memory, text_part}
use network_system_programmi.Dict.Linear.Laws.{
  outcome, find_entry, IsPlain-NoNul, fresh, opened, from_top_lem,
}
use network_system_programmi.Dict.Linear.Shown.{word_of-kept, outcome-shown}
use network_system_programmi.Dict.Prompt.{prompt}

-- A word that can be typed in, and fits its field.
abbrev pub Typed : Bytes → Type 0
Typed w = IsPlain w × (length w ≤ 30)

-- The first line of a definition.
abbrev pub first_line : List Bytes → Bytes
first_line [] = []
first_line (l ∷ ls) = l ++ newline

-- What a dictionary of these entries should show for a word.
abbrev pub shown_entry : Bytes → Option Entry → Shown
shown_entry w none = missing w
shown_entry w (some e) = definition w (first_line e.lines)

abbrev pub shown_word : List Entry → Bytes → Shown
shown_word es w = shown_entry w (find_entry w es)

cons_of : (s : Bytes) → 0 < length s → (y : ℕ) × (tail : Bytes) × (s ≡ y ∷ tail)
cons_of [] h = absurd (omega (arith, h))
cons_of (y ∷ tail) h = (y, tail, refl)

-- The record with a word typed in.
typed_memory :
    (w : Bytes) (mem : Dictrec)
    → length mem ≡ record_size
    → length w ≤ 30
    → (y : ℕ) × (tail : Bytes) × (gets_word w mem ≡ memory w y tail)
      × (length (memory w 0 tail) ≡ record_size)
typed_memory w mem full room =
    let at : length (w ++ 0 ∷ []) ≡ length w + 1 = length-append w (0 ∷ []) in
    let left = length-drop (length (w ++ 0 ∷ [])) mem in
    let (y, tail, e) =
      cons_of (drop (length (w ++ 0 ∷ [])) mem) (omega (arith, at, left, full, room)) in
    (
      y,
      tail,
      write_at-start (w ++ 0 ∷ []) mem (omega (arith, at, full, room))
          ∙ ap (λ r. (w ++ 0 ∷ []) ++ r) e
          ∙ append_assoc w (0 ∷ []) (y ∷ tail),
      (let behind = ap length e in
          omega (arith, length-append w (0 ∷ 0 ∷ tail), behind, left, at, full, room)),
    )

outcome-length :
    (w tail : Bytes) (o : Option Entry)
    → length (memory w 0 tail) ≡ record_size
    → length (outcome w tail o).sought ≡ record_size
outcome-length w tail none full = full
outcome-length w tail (some e) full =
    length-write_at word_size (text_part e) (memory w 0 tail) ∙ full

abbrev entry_with : Bytes → List Bytes → Entry
entry_with v ls = record { word = v; lines = ls }

-- An entry without lines leaves an empty text.
empty-shown :
    (w v tail : Bytes)
    → Typed w
    → length (memory w 0 tail) ≡ record_size
    → let left = write_at word_size (text_part (entry_with v [])) (memory w 0 tail) in
      (word_of left ≡ w) × (text_of left ≡ [])
unfolding c_string
empty-shown w v tail t full =
    let part = text_part (entry_with v []) in
    let mem = memory w 0 tail in
    (
      word_of-kept w part tail t.0 t.1,
      ap c_string (
          drop-write_at word_size part mem
          ∙ write_at-start part (drop word_size mem)
              (omega (arith, length-drop word_size mem, full))),
    )

found-shown :
    (w v tail : Bytes) (ls : List Bytes)
    → Typed w
    → Fits (entry_with v ls)
    → length (memory w 0 tail) ≡ record_size
    → let left = write_at word_size (text_part (entry_with v ls)) (memory w 0 tail) in
      (word_of left ≡ w) × (text_of left ≡ first_line ls)
found-shown w v tail [] t h full = empty-shown w v tail t full
found-shown w v tail (l ∷ ls) (plain, room) h full = outcome-shown v l ls h w tail plain room full

show-outcome :
    (w tail : Bytes) (o : Option Entry)
    → Typed w
    → ((e : Entry) → o ≡ some e → Fits e)
    → length (memory w 0 tail) ≡ record_size
    → show (answered (outcome w tail o).answer (outcome w tail o).sought) ≡ shown_entry w o
unfolding show
show-outcome w tail none t h full = ap missing (c_string-append w (0 ∷ tail) (IsPlain-NoNul w t.0))
show-outcome w tail (some e) t h full =
    let (word, text) = found-shown w e.word tail e.lines t (h e refl) full in
    λ i. definition (word i) (text i)

find_entry-Fits :
    (w : Bytes) (es : List Entry) → All Fits es → (e : Entry) → find_entry w es ≡ some e → Fits e
unfolding find_entry
find_entry-Fits w [] h e found_it = absurd (ground (arith, found_it))
find_entry-Fits w (x ∷ es) h e found_it = elim (Bool-cases (eq_bytes x.word w)) [
  | inl same ↦
      let it : some x ≡ some e = rw (find_entry, same) at found_it in
      let is_x : x ≡ e = ground arith in subst Fits is_x h.0
  | inr other ↦ find_entry-Fits w es h.1 e (rw (find_entry, other) at found_it)
]

-- One `lookup` of a typed word, from either state of the static variables.
data Ready (file : Bytes) : Statics → Option Bytes → Type 0 where
  first_call : Ready file fresh (some file)
  later_call : {again : Option Bytes} → Ready file (opened file) again

lookup-Ready :
    (es : List Entry) (w tail : Bytes) (y : ℕ) {st : Statics} {again : Option Bytes}
    → All Fits es
    → IsPlain w
    → Ready (records_of es) st again
    → lookup st again (memory w y tail)
      ≡ some
          (record { result = outcome w tail (find_entry w es); statics = opened (records_of es) })
unfolding lookup
lookup-Ready es w tail y h plain first_call = rw (from_top_lem w tail y es plain h) refl
lookup-Ready es w tail y h plain later_call = rw (from_top_lem w tail y es plain h) refl

goes_on-entry :
    (w : Bytes) (o : Option Entry) (rest : List Shown)
    → goes_on (shown_entry w o) rest ≡ shown_entry w o ∷ rest
goes_on-entry w none rest = refl
goes_on-entry w (some e) rest = refl

prompt-Ready :
    (es : List Entry) (ws : List Bytes) (mem : Dictrec) {st : Statics} (again : Option Bytes)
    → All Fits es
    → All Typed ws
    → length mem ≡ record_size
    → Ready (records_of es) st again
    → prompt st again mem ws ≡ map (shown_word es) ws
unfolding prompt
prompt-Ready es [] mem again h ts full r = refl
prompt-Ready es (w ∷ ws) mem again h (t, ts) full r =
    let (y, tail, typed, long) = typed_memory w mem full t.1 in
    let o = find_entry w es in
    rw
      (
        prompt,
        typed,
        lookup-Ready es w tail y h t.0 r,
        show-outcome w tail o t (find_entry-Fits w es h) long,
        prompt-Ready es ws (outcome w tail o).sought again h ts (outcome-length w tail o long)
            later_call,
      )
      (goes_on-entry w o (map (shown_word es) ws))

-- From the text of entries that fit their records to a session: `convert` writes a file with which
-- the prompt of SP_HW4/part3 shows, for words of at most 30 bytes and whatever the record held
-- before, the first line of the definition of each word that has an entry, and that any other one
-- is not found.
pub convert-prompt :
    (es : List Entry) (ws : List Bytes) (mem : Dictrec)
    → All Fits es
    → All Typed ws
    → length mem ≡ record_size
    → (file : Bytes) × (main 3 (some (source_all es)) true ≡ wrote file)
      × (prompt fresh (some file) mem ws ≡ map (shown_word es) ws)
convert-prompt es ws mem h ts full = (
  records_of es,
  main-source_all es h,
  prompt-Ready es ws mem (some (records_of es)) h ts full first_call,
)
