-- ===== src/Dict/Remote/Memory.antt =====
-- The record of a server: its strings after a query is received and after `memset`.
use network_system_programmi.Base.{
  ℕ, zero, suc, ◌≤◌, ◌<◌, ◌≡◌, refl, ap, ◌∙◌, [], ◌∷◌, ◌++◌, length, take, drop, replicate, arith,
  NoNul, c_string, c_string-append, write_at-start, drop-write_at, append_assoc, append-nil,
  length-append, length-drop,
}
use network_system_programmi.Dict.Record.{
  Bytes, Dictrec, word_size, text_size, record_size, word_of, text_of, strcpy_text,
}
use network_system_programmi.Dict.Server.{receive_word, clear_word}

abbrev pub zeros : ℕ → Bytes
zeros n = replicate n 0

-- The word is cleared.
pub record Ready (mem : Dictrec) : Type 0 where
  pub text : Bytes
  pub cleared : mem ≡ zeros word_size ++ text
  pub size : length text ≡ text_size

pub take-all : (s : Bytes) (n : ℕ) → length s ≤ n → take n s ≡ s
take-all [] zero h = refl
take-all [] (suc n) h = refl
take-all (c ∷ s) zero h = elim h [ ]
take-all (c ∷ s) (suc n) h = ap (λ t. c ∷ t) (take-all s n (omega arith))

pub c_string-split : (s t : Bytes) → NoNul s → c_string (s ++ t) ≡ s ++ c_string t
unfolding c_string
c_string-split [] t h = refl
c_string-split (c ∷ s) t h = rw (h.0, c_string-split s t h.1)

-- The query as the server reads it: what was received, and what stood behind it.
pub word_of-receive_word :
    (w mem : Bytes)
    → NoNul w
    → length w ≤ word_size
    → length mem ≡ record_size
    → word_of (receive_word w mem) ≡ w ++ word_of (drop (length w) mem)
word_of-receive_word w mem h short size =
    rw (take-all w word_size short, write_at-start w mem (omega arith))
      (c_string-split w (drop (length w) mem) h)

pub drop-zeros : (n k : ℕ) (t : Bytes) → n < k → c_string (drop n (zeros k ++ t)) ≡ []
unfolding c_string
drop-zeros n zero t h = elim h [ ]
drop-zeros zero (suc k) t h = refl
drop-zeros (suc n) (suc k) t h = drop-zeros n k t (omega arith)

pub word_of-Ready :
    (w mem : Bytes) → NoNul w → length w < word_size → Ready mem → word_of (receive_word w mem) ≡ w
word_of-Ready w mem h short r =
    word_of-receive_word w mem h (omega arith)
      (omega (arith, ap length r.cleared, length-append (zeros word_size) r.text, r.size))
    ∙ rw r.cleared (rw (drop-zeros (length w) word_size r.text short) (append-nil w))

pub Ready-clear_word : (mem : Dictrec) → length mem ≡ record_size → Ready (clear_word mem)
Ready-clear_word mem h = record {
  text = drop word_size mem;
  cleared = write_at-start (zeros word_size) mem (omega (arith, h));
  size = omega (arith, length-drop word_size mem, h);
}

-- A string that fits is read back from the text.
pub text_of-strcpy_text :
    (s mem : Bytes)
    → NoNul s
    → length s < text_size
    → length mem ≡ record_size
    → text_of (strcpy_text s mem) ≡ s
text_of-strcpy_text s mem h short size =
    rw
      (
        drop-write_at word_size (s ++ 0 ∷ []) mem,
        write_at-start (s ++ 0 ∷ []) (drop word_size mem)
            (omega (arith, length-append s (0 ∷ []), length-drop word_size mem, size)),
        append_assoc s (0 ∷ []) (drop (length (s ++ 0 ∷ [])) (drop word_size mem)),
      )
      (c_string-append s _ h)
