-- ===== src/Dict/Linear/Memory.antt =====
-- The record sought of lookup1.c and the fields of a file, as bytes.
use network_system_programmi.Base.{
  ℕ, suc, ◌-◌, ◌≤◌, ◌≡◌, refl, ap, ◌∙◌, false, [], ◌∷◌, ◌++◌, length, take, drop, arith, eq_bytes,
  NoNul, c_string, c_string-append, write_at, write_at-append, write_at-start, append_assoc,
  append-nil, length-append,
}
use network_system_programmi.Dict.Record.{Bytes, Dictrec, text_size, word_of}
use network_system_programmi.Dict.Convert.{newline}
use network_system_programmi.Dict.Convert.Lines.{IsPlain, zeros, length-zeros, stored}
use network_system_programmi.Dict.Convert.Laws.{Entry, Fits, word_part}
use network_system_programmi.Dict.Linear.{chop, add_newline}

pub take-length : (a b : Bytes) (n : ℕ) → n ≡ length a → take n (a ++ b) ≡ a
take-length [] b n e = rw e
take-length (x ∷ a) b n e = rw e (ap (λ t. x ∷ t) (take-length a b (length a) refl))

pub drop-length : (a b : Bytes) (n : ℕ) → n ≡ length a → drop n (a ++ b) ≡ b
drop-length [] b n e = rw e
drop-length (x ∷ a) b n e = rw e (drop-length a b (length a) refl)

pub drop-all : (b : Bytes) (n : ℕ) → n ≡ length b → drop n b ≡ []
drop-all [] n e = rw e
drop-all (x ∷ b) n e = rw e (drop-all b (length b) refl)

-- A buffer of the size of what is read holds what is read.
pub write_at-all : (a b : Bytes) → length a ≡ length b → write_at 0 a b ≡ a
write_at-all a b e =
    write_at-start a b (omega (arith, e)) ∙ rw (drop-all b (length a) e) (append-nil a)

abbrev pub text_part : Entry → Bytes
text_part e = stored e.lines ++ zeros (text_size - length (stored e.lines))

pub length-text_part : (e : Entry) → Fits e → length (text_part e) ≡ text_size
length-text_part e h = omega (
  arith,
  length-append (stored e.lines) (zeros (text_size - length (stored e.lines))),
  length-zeros (text_size - length (stored e.lines)),
  h.text_room,
)

-- The string in the word of a record: the word and its newline.
pub NoNul-word : (w : Bytes) → IsPlain w → NoNul (w ++ newline)
NoNul-word [] h = (refl, tt)
NoNul-word (c ∷ w) h = (h.0.1, NoNul-word w h.1)

pub c_string-word_part :
    (w : Bytes) → IsPlain w → length w ≤ 30 → c_string (word_part w) ≡ w ++ newline
c_string-word_part w h room =
    let e : 31 - length w ≡ suc (30 - length w) = omega arith in
    rw e (c_string-append (w ++ newline) (zeros (30 - length w)) (NoNul-word w h))

-- The memory of the record sought, with a word, a byte behind its NUL, and the rest.
abbrev pub memory : Bytes → ℕ → Bytes → Dictrec
memory w y tail = w ++ 0 ∷ y ∷ tail

pub add_newline_lem :
    (w : Bytes) (y : ℕ) (tail : Bytes)
    → NoNul w
    → add_newline (memory w y tail) ≡ w ++ 10 ∷ 0 ∷ tail
add_newline_lem w y tail h =
    rw (c_string-append w (y ∷ tail) h)
      (write_at-append w (10 ∷ 0 ∷ []) (0 ∷ y ∷ tail) (length w) refl ∙ (unfold write_at in refl))

pub chop_lem :
    (w tail : Bytes) → chop (length (w ++ newline)) (w ++ 10 ∷ 0 ∷ tail) ≡ memory w 0 tail
chop_lem w tail =
    let e : length (w ++ newline) - 1 ≡ length w = omega (arith, length-append w newline) in
    rw e (write_at-append w (0 ∷ []) (10 ∷ 0 ∷ tail) (length w) refl ∙ (unfold write_at in refl))

pub word_of-newline : (w tail : Bytes) → IsPlain w → word_of (w ++ 10 ∷ 0 ∷ tail) ≡ w ++ newline
word_of-newline w tail h =
    rw (← append_assoc w newline (0 ∷ tail)) (c_string-append (w ++ newline) tail (NoNul-word w h))

pub nil-newline :
    (b : Bytes) → (eq_bytes [] (b ++ newline) ≡ false) × (eq_bytes (b ++ newline) [] ≡ false)
nil-newline [] = (refl, refl)
nil-newline (y ∷ b) = (refl, refl)

pub eq_bytes-newline : (a b : Bytes) → eq_bytes (a ++ newline) (b ++ newline) ≡ eq_bytes a b
eq_bytes-newline [] [] = refl
eq_bytes-newline [] (y ∷ b) = ground (arith, nil-newline b)
eq_bytes-newline (x ∷ a) [] = ground (arith, nil-newline a)
eq_bytes-newline (x ∷ a) (y ∷ b) = ground (arith, eq_bytes-newline a b)
