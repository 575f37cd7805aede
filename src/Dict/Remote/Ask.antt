-- ===== src/Dict/Remote/Ask.antt =====
-- What main.c of SP_HW11 shows when lookup7.c, lookup8.c or lookup9.c asks a server for the words.
use network_system_programmi.Base.{
  ℕ, zero, suc, ◌≤◌, ◌<◌, ◌≡◌, refl, ap, ◌∙◌, Bool, true, false, Option, none, some, List, [], ◌∷◌,
  ◌++◌, length, take, drop, arith, if◌then◌else◌, ◌==◌, Bool-cases, Option-cases, inl, inr, NoNul,
  NoNul-c_string, eq_bytes, get_elem?, write_at, write_at-start, drop-write_at, c_string,
  c_string-append, append_assoc, append-nil, length-append, length-drop,
}
use network_system_programmi.Dict.Record.{
  Bytes, Dictrec, word_size, text_size, record_size, word_of, text_of,
}
use network_system_programmi.Dict.Search.{entry}
use network_system_programmi.Dict.Search.Laws.{records}
use network_system_programmi.Dict.Server.{no_entry}
use network_system_programmi.Dict.Client.{
  Net, Asked, exits, receive_text, judge, lookup_unix, lookup_inet, lookup_udp, Shown, definition,
  missing, show, cleared, gets_word,
}
use network_system_programmi.Dict.Remote.Memory.{zeros, take-all, c_string-split}
use network_system_programmi.Dict.Remote.Serve.{entry_for, meaning, TextsFit, scan-found}

-- Every call succeeds, and this is what `recv` gives.
abbrev pub up : Option Bytes → Net
up r = record { host_known = true; socket_ok = true; connect_ok = true; send_ok = true; reply = r }

-- The calls of `lookup` over a connection: the n-th gets the n-th reply.
abbrev pub over : (Bool → Net → Dictrec → Asked) → List Bytes → ℕ → Dictrec → Asked
over ask replies n mem = ask (n == 0) (up (get_elem? replies n)) mem

-- What the user is to see for a word.
abbrev shown_for : Bytes → Bytes → Option ℕ → Shown
shown_for file w none = missing w
shown_for file w (some i) =
    if eq_bytes (text_of (entry file i)) no_entry
    then missing w
    else definition w (text_of (entry file i))

abbrev pub told : Bytes → Bytes → Shown
told file w = shown_for file w (entry_for file w)

-- The same for the first word: the reply has no NUL, and what stood behind it in the client's record
-- counts as text.
abbrev pub first_text : Bytes → Bytes → Dictrec → Bytes
first_text file w mem =
    meaning file w ++ c_string (drop (length (meaning file w)) (drop word_size mem))

abbrev pub first_told : Bytes → Bytes → Dictrec → Shown
first_told file w mem =
    if eq_bytes (first_text file w mem) no_entry
    then missing w
    else definition w (first_text file w mem)

meaning-fits :
    (file w : Bytes)
    → TextsFit file
    → NoNul (meaning file w) × (length (meaning file w) < text_size)
meaning-fits file w fit = elim (Option-cases (entry_for file w)) [
  | inl q ↦ rw q ((refl, (refl, (refl, (refl, tt)))), omega arith)
  | inr (i, q) ↦
      let (hi, e) = scan-found file w (records file) i q in rw q (NoNul-c_string _, fit i hi)
]

word_of-gets_word :
    (w mem : Bytes)
    → NoNul w
    → length w < word_size
    → length mem ≡ record_size
    → word_of (gets_word w mem) ≡ w
word_of-gets_word w mem h short size =
    rw
      (
        write_at-start (w ++ 0 ∷ []) mem (omega (arith, length-append w (0 ∷ []), size)),
        append_assoc w (0 ∷ []) (drop (length (w ++ 0 ∷ [])) mem),
      )
      (c_string-append w _ h)

drop-write_before :
    (n : ℕ) (bs mem : Bytes) → length bs ≤ n → drop n (write_at 0 bs mem) ≡ drop n mem
unfolding write_at
drop-write_before n [] mem h = refl
drop-write_before zero (b ∷ bs) mem h = elim h [ ]
drop-write_before (suc n) (b ∷ bs) [] h = refl
drop-write_before (suc n) (b ∷ bs) (m ∷ mem) h = drop-write_before n bs mem (omega arith)

-- A string before a write stays.
c_string-write_after :
    (off : ℕ) (bs w r : Bytes)
    → NoNul w
    → length w < off
    → c_string (write_at off bs (w ++ 0 ∷ r)) ≡ w
unfolding write_at c_string
c_string-write_after zero bs w r h lt = elim lt [ ]
c_string-write_after (suc off) bs [] r h lt = refl
c_string-write_after (suc off) bs (c ∷ w) r h lt =
    rw (h.0, c_string-write_after off bs w r h.1 (omega arith)) refl

drop-cleared : (n k : ℕ) → c_string (drop n (zeros k)) ≡ []
unfolding c_string
drop-cleared zero zero = refl
drop-cleared (suc n) zero = refl
drop-cleared zero (suc k) = refl
drop-cleared (suc n) (suc k) = drop-cleared n k

module _ (w : Bytes) (h : NoNul w) (short : length w < word_size) where
  -- The record after `gets` and `recv`.
  abbrev pub after : Bytes → Dictrec
  after t = receive_text t (gets_word w cleared)

  -- The strings of a record of any content after `gets` and `recv`.
  word_of-received :
      (mem t : Bytes) → length mem ≡ record_size → word_of (receive_text t (gets_word w mem)) ≡ w
  word_of-received mem t size =
      rw
        (
          write_at-start (w ++ 0 ∷ []) mem (omega (arith, length-append w (0 ∷ []), size)),
          append_assoc w (0 ∷ []) (drop (length (w ++ 0 ∷ [])) mem),
        )
        (c_string-write_after word_size (take text_size t) w _ h short)

  text_of-received :
      (mem t : Bytes)
      → length mem ≡ record_size
      → NoNul t
      → length t < text_size
      → text_of (receive_text t (gets_word w mem))
        ≡ t ++ c_string (drop (length t) (drop word_size mem))
  text_of-received mem t size nn fits =
      rw
        (
          take-all t text_size (omega arith),
          drop-write_at word_size t (gets_word w mem),
          drop-write_before word_size (w ++ 0 ∷ []) mem (omega (arith, length-append w (0 ∷ []))),
          write_at-start t (drop word_size mem) (omega (arith, length-drop word_size mem, size)),
        )
        (c_string-split t (drop (length t) (drop word_size mem)) nn)

  word_of-after : (t : Bytes) → word_of (after t) ≡ w
  word_of-after t = word_of-received cleared t refl

  text_of-after : (t : Bytes) → NoNul t → length t < text_size → text_of (after t) ≡ t
  text_of-after t nn fits =
      text_of-received cleared t refl nn fits
      ∙ ap (λ k. t ++ k) (drop-cleared (length t) text_size)
      ∙ append-nil t

  -- What is shown of a reply that comes to a record of any content.
  pub show-judge_first :
      (file mem : Bytes)
      → length mem ≡ record_size
      → TextsFit file
      → show (judge (receive_text (meaning file w) (gets_word w mem))) ≡ first_told file w mem
  unfolding judge show
  show-judge_first file mem size fit =
      let (nn, fits) = meaning-fits file w fit in
      let text = text_of-received mem (meaning file w) size nn fits in
      let word = word_of-received mem (meaning file w) size in
      elim (Bool-cases (eq_bytes (first_text file w mem) no_entry)) [
        | inl y ↦ rw (text, y) (ap missing word)
        | inr n ↦ rw (text, n) (rw (text, word) refl)
      ]

  -- What is shown when the reply is what the file says.
  pub show-judge :
      (file : Bytes) → TextsFit file → show (judge (after (meaning file w))) ≡ told file w
  unfolding judge show
  show-judge file fit = elim (Option-cases (entry_for file w)) [
    | inl q ↦
        rw (q, text_of-after no_entry (refl, (refl, (refl, (refl, tt)))) (omega arith))
          (ap missing (word_of-after no_entry))
    | inr (i, q) ↦
        let (hi, e) = scan-found file w (records file) i q in
        let text = text_of-after (text_of (entry file i)) (NoNul-c_string _) (fit i hi) in
        let word = word_of-after (text_of (entry file i)) in
        rw (q, text)
          (elim (Bool-cases (eq_bytes (text_of (entry file i)) no_entry)) [
            | inl y ↦ rw y (ap missing word)
            | inr n ↦ rw n (rw (text, word) refl)
          ])
  ]

-- The three `lookup`s of a client agree while the calls succeed, in the first call and in later
-- ones. When no reply comes, those of lookup7.c and lookup8.c end the program, and that of
-- lookup9.c judges what the record held before.
pub lookup_lem :
    (first : Bool) (mem : Dictrec) (t : Bytes)
    → (lookup_unix first (up (some t)) mem ≡ judge (receive_text t mem))
      × (lookup_inet first (up (some t)) mem ≡ judge (receive_text t mem))
      × (lookup_udp first (up (some t)) mem ≡ judge (receive_text t mem))
      × (lookup_unix first (up none) mem ≡ exits)
      × (lookup_inet first (up none) mem ≡ exits)
      × (lookup_udp first (up none) mem ≡ judge mem)
unfolding lookup_unix lookup_inet lookup_udp
lookup_lem true mem t = (refl, refl, refl, refl, refl, refl)
lookup_lem false mem t = (refl, refl, refl, refl, refl, refl)
