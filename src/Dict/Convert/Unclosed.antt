-- ===== src/Dict/Convert/Unclosed.antt =====
-- An entry at the end of the text with no blank line behind it.
use network_system_programmi.Base.{
  ℕ, zero, suc, ◌+◌, ◌-◌, ◌≤◌, ◌<◌, ◌≡◌, refl, ap, sym, ◌∙◌, true, some, List, [], ◌∷◌, ◌++◌,
  length, arith, All, append_assoc, append-nil, length-append,
}
use network_system_programmi.Dict.Record.{Bytes, Dictrec}
use network_system_programmi.Dict.Convert.{
  getline, definition_loop, read_record, convert_loop, main, wrote, at_end,
}
use network_system_programmi.Dict.Convert.Laws
use network_system_programmi.Dict.Convert.Lines.{source_lines}
use network_system_programmi.Dict.Convert.Lines.{
  IsText, open_at, getline_lem, IsText-IsPlain, loop-line,
}
use network_system_programmi.Dict.Convert.Laws.{
  length-rest, convert_loop-at_end, read_record_lem, Entry, Fits, source, records_of,
}

abbrev pub unclosed_lines : List Bytes → Bytes
unclosed_lines [] = []
unclosed_lines (l ∷ ls) = l ++ 10 ∷ unclosed_lines ls

-- The text of an entry without the blank line.
abbrev pub unclosed : Entry → Bytes
unclosed e = e.word ++ 10 ∷ unclosed_lines e.lines

-- The closed entries, and what follows them.
abbrev pub source_then : List Entry → Bytes → Bytes
source_then [] t = t
source_then (e ∷ es) t = source e (source_then es t)

loop-end :
    (f index : ℕ) (mem : Dictrec)
    → definition_loop (suc f) index mem (open_at []) ≡ record { blank = mem; stream = at_end }
unfolding definition_loop getline
loop-end f index mem = refl

loop-unclosed :
    (ls : List Bytes) (f index : ℕ) (mem : Dictrec)
    → All IsText ls
    → length ls < f
    → (definition_loop f index mem (open_at (unclosed_lines ls))).stream ≡ at_end
loop-unclosed ls zero index mem h lt = absurd (omega arith)
loop-unclosed [] (suc f) index mem h lt = rw (loop-end f index mem)
loop-unclosed (l ∷ ls) (suc f) index mem h lt =
    rw (loop-line f index mem l (unclosed_lines ls) h.0) (loop-unclosed ls f _ _ h.1 (omega arith))

length-unclosed_lines : (ls : List Bytes) → length ls ≤ length (unclosed_lines ls)
length-unclosed_lines [] = omega arith
length-unclosed_lines (l ∷ ls) =
    omega (arith, length-append l (10 ∷ unclosed_lines ls), length-unclosed_lines ls)

read_record-unclosed : (e : Entry) → Fits e → (read_record (open_at (unclosed e))).stream ≡ at_end
unfolding read_record
read_record-unclosed e h =
    rw
      (getline_lem e.word (unclosed_lines e.lines) (IsText-IsPlain e.word h.word_text), read_record)
      (loop-unclosed e.lines (suc (length (unclosed_lines e.lines))) 0 _ h.line_texts
        (omega (arith, length-unclosed_lines e.lines)))

convert_loop-unclosed :
    (e : Entry) (f : ℕ) → Fits e → convert_loop (suc f) (open_at (unclosed e)) ≡ []
unfolding convert_loop
convert_loop-unclosed e f h = rw (read_record-unclosed e h, convert_loop-at_end f)

convert_loop-source :
    (e : Entry) (t : Bytes) (f : ℕ)
    → Fits e
    → convert_loop (suc f) (open_at (source e t)) ≡ Laws.record_of e ++ convert_loop f (open_at t)
unfolding convert_loop
convert_loop-source e t f h = rw (read_record_lem e t h)

convert_loop-then :
    (es : List Entry) (t : Bytes) (f g : ℕ)
    → All Fits es
    → f ≡ length es + suc g
    → convert_loop f (open_at (source_then es t))
      ≡ records_of es ++ convert_loop (suc g) (open_at t)
convert_loop-then [] t f g h e = let q : f ≡ suc g = omega arith in rw q
convert_loop-then (x ∷ es) t zero g h e = absurd (omega arith)
convert_loop-then (x ∷ es) t (suc f) g h e =
    convert_loop-source x (source_then es t) f h.0
    ∙ ap (λ r. Laws.record_of x ++ r) (convert_loop-then es t f g h.1 (omega arith))
    ∙ sym (append_assoc (Laws.record_of x) (records_of es) (convert_loop (suc g) (open_at t)))

length-source_then : (es : List Entry) (t : Bytes) → length es ≤ length (source_then es t)
length-source_then [] t = omega arith
length-source_then (e ∷ es) t = omega (
  arith,
  length-append e.word (10 ∷ source_lines e.lines (source_then es t)),
  length-source_then es t,
  length-rest e.lines (source_then es t),
)

-- If the last entry of the text is not followed by a blank line, `convert` writes the records of
-- the entries in front of it, and none for it: the end of the file is already known when it is
-- complete.
pub main-unclosed :
    (es : List Entry) (e : Entry)
    → All Fits es
    → Fits e
    → main 3 (some (source_then es (unclosed e))) true ≡ wrote (records_of es)
unfolding main
main-unclosed es e h k =
    let file = source_then es (unclosed e) in
    let g = suc (length file) - length es in
    ap wrote (
      convert_loop-then es (unclosed e) (suc (suc (length file))) g h
        (omega (arith, length-source_then es (unclosed e)))
      ∙ rw (convert_loop-unclosed e g k) (append-nil (records_of es)))
