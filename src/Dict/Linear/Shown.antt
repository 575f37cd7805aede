-- ===== src/Dict/Linear/Shown.antt =====
-- What SP_HW4/part3/main.c prints of a definition of several lines: `printf("%s : %s\n", ...)`.
use network_system_programmi.Base.{
  ℕ, zero, suc, ◌-◌, ◌≤◌, ◌≡◌, ap, List, [], ◌∷◌, ◌++◌, length, drop, arith, some, c_string-append,
  write_at, write_at-start, drop-write_at, append_assoc, length-drop,
}
use network_system_programmi.Dict.Record.{
  Bytes, Dictrec, word_size, text_size, record_size, word_of, text_of,
}
use network_system_programmi.Dict.Convert.{newline}
use network_system_programmi.Dict.Convert.Lines.{IsText-IsPlain, IsPlain, zeros, stored}
use network_system_programmi.Dict.Convert.Laws.{Entry, Fits}
use network_system_programmi.Dict.Linear.Memory.{text_part, length-text_part, memory, NoNul-word}
use network_system_programmi.Dict.Linear.Laws.{outcome, IsPlain-NoNul}

write_at-behind :
    (pre bs mem : Bytes) (n : ℕ)
    → length pre ≤ n
    → write_at n bs (pre ++ mem) ≡ pre ++ write_at (n - length pre) bs mem
unfolding write_at
write_at-behind [] bs mem n h = let e : n - 0 ≡ n = omega arith in rw e
write_at-behind (p ∷ pre) bs mem zero h = elim h [ ]
write_at-behind (p ∷ pre) bs mem (suc n) h =
    let e : suc n - suc (length pre) ≡ n - length pre = omega arith in
    rw e (ap (λ t. p ∷ t) (write_at-behind pre bs mem n (omega arith)))

-- What is stored behind the field of the word leaves the word.
pub word_of-kept :
    (w bs tail : Bytes)
    → IsPlain w
    → length w ≤ 30
    → word_of (write_at word_size bs (memory w 0 tail)) ≡ w
unfolding write_at
word_of-kept w bs tail plain room =
    let e : word_size - length w ≡ suc (31 - length w) = omega arith in
    rw (write_at-behind w bs (0 ∷ 0 ∷ tail) word_size (omega arith))
      (rw (e, write_at) (c_string-append w _ (IsPlain-NoNul w plain)))

-- An entry with at least one line.
abbrev pub entry_of : Bytes → Bytes → List Bytes → Entry
entry_of v l ls = record { word = v; lines = l ∷ ls }

module _ (v l : Bytes) (ls : List Bytes) (h : Fits (entry_of v l ls)) where
  abbrev padding : Bytes
  padding = zeros (text_size - length (stored (l ∷ ls)))

  text_part-cons : text_part (entry_of v l ls) ≡ (l ++ newline) ++ 0 ∷ (stored ls ++ padding)
  text_part-cons = simp append_assoc

  text_of-text :
      (mem : Dictrec)
      → length mem ≡ record_size
      → text_of (write_at word_size (text_part (entry_of v l ls)) mem) ≡ l ++ newline
  text_of-text mem full =
      let room : length (text_part (entry_of v l ls)) ≤ length (drop word_size mem) =
        omega (arith, length-text_part (entry_of v l ls) h, length-drop word_size mem, full) in
      rw
        (
          drop-write_at word_size (text_part (entry_of v l ls)) mem,
          write_at-start (text_part (entry_of v l ls)) (drop word_size mem) room,
          text_part-cons,
        )
        (rw (append_assoc (l ++ newline) (0 ∷ (stored ls ++ padding)))
          (c_string-append (l ++ newline) _ (NoNul-word l (IsText-IsPlain l h.line_texts.0))))

  -- Of a definition of several lines only the first can be read back: when the entry is found, the
  -- word is still the word sought, and its text, as `printf` sees it, ends behind the first line of
  -- the definition.
  pub outcome-shown :
      (w tail : Bytes)
      → IsPlain w
      → length w ≤ 30
      → length (memory w 0 tail) ≡ record_size
      → (word_of (outcome w tail (some (entry_of v l ls))).sought ≡ w)
        × (text_of (outcome w tail (some (entry_of v l ls))).sought ≡ l ++ newline)
  outcome-shown w tail plain room full = (
    word_of-kept w (text_part (entry_of v l ls)) tail plain room,
    text_of-text (memory w 0 tail) full,
  )
