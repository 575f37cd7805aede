-- ===== src/Shell/Words/Split.antt =====
-- The tokens of `strtok` are the non-empty fields between delimiters.
use network_system_programmi.Base.{
  ℕ, zero, suc, ◌≤◌, ◌<◌, ◌≡◌, refl, ap, false, none, some, List, [], ◌∷◌, length, arith,
  if◌then◌else◌, Bool-cases, inl, inr,
}
use network_system_programmi.Shell.Words.{
  Word, is_delim, skip_delims, scan_token, strtok, strtok_loop,
}

abbrev pub cons_head : ℕ → List Word → List Word
cons_head c [] = (c ∷ []) ∷ []
cons_head c (w ∷ ws) = (c ∷ w) ∷ ws

-- The fields between delimiters, empty ones included.
unfoldable pub fields : Word → List Word
fields [] = [] ∷ []
fields (c ∷ s) = let rest = fields s in if is_delim c then [] ∷ rest else cons_head c rest

-- The fields that are not empty.
unfoldable pub nonempty : List Word → List Word
nonempty [] = []
nonempty ([] ∷ ws) = nonempty ws
nonempty ((c ∷ w) ∷ ws) = (c ∷ w) ∷ nonempty ws

unfoldable pub words : Word → List Word
unfolding fields nonempty
words s = nonempty (fields s)

-- A word: not empty, and without delimiters.
pub data IsToken : Word → Type 0 where
  last : (c : ℕ) → is_delim c ≡ false → IsToken (c ∷ [])
  more : {w : Word} (c : ℕ) → is_delim c ≡ false → IsToken w → IsToken (c ∷ w)

words-skip_delims : (s : Word) → words (skip_delims s) ≡ words s
unfolding words skip_delims
words-skip_delims [] = refl
words-skip_delims (c ∷ s) = ground (arith, words-skip_delims s)

-- The first field is the token, and the fields after it are those of the saved pointer.
record Cut (s : Word) : Type 0 where
  others : List Word
  first : fields s ≡ (scan_token s).token ∷ others
  after : nonempty others ≡ words (scan_token s).rest

cut : (s : Word) → Cut s
unfolding words scan_token
cut [] = record { others = []; first = refl; after = refl }
cut (c ∷ s) = elim (Bool-cases (is_delim c)) [
  | inl d ↦ record { others = fields s; first = rw d; after = rw d }
  | inr n ↦ record {
    others = (cut s).others;
    first = rw (n, (cut s).first);
    after = rw n (cut s).after;
  }
]

length-skip_delims : (s : Word) → length (skip_delims s) ≤ length s
unfolding skip_delims
length-skip_delims [] = omega arith
length-skip_delims (c ∷ s) = ground (arith, length-skip_delims s)

length-scan_token : (s : Word) → length (scan_token s).rest ≤ length s
unfolding scan_token
length-scan_token [] = omega arith
length-scan_token (c ∷ s) = ground (arith, length-scan_token s)

-- The first byte after the delimiters is none of them.
skip_delims-head : (s : Word) (c : ℕ) (r : Word) → skip_delims s ≡ c ∷ r → is_delim c ≡ false
unfolding skip_delims
skip_delims-head [] c r h = cc
skip_delims-head (b ∷ s) c r h = ground (arith, skip_delims-head s c r)

words-token :
    (c : ℕ) (r : Word)
    → is_delim c ≡ false
    → words (c ∷ r) ≡ (scan_token (c ∷ r)).token ∷ words (scan_token (c ∷ r)).rest
unfolding words scan_token
words-token c r n = rw (n, (cut r).first, (cut r).after)

length-rest :
    (c : ℕ) (r : Word) → is_delim c ≡ false → length (scan_token (c ∷ r)).rest < length (c ∷ r)
unfolding scan_token
length-rest c r n = rw n (omega (arith, length-scan_token r))

strtok-none : (s : Word) → skip_delims s ≡ [] → strtok s ≡ none
unfolding strtok
strtok-none s e = rw (e, strtok)

strtok-some :
    (s : Word) (c : ℕ) (r : Word) → skip_delims s ≡ c ∷ r → strtok s ≡ some (scan_token (c ∷ r))
unfolding strtok
strtok-some s c r e = rw (e, strtok)

words-of_skip : (s t : Word) → skip_delims s ≡ t → words s ≡ words t
words-of_skip s t e = rw (← e, words-skip_delims s)

strtok_loop-step :
    (f : ℕ) (s : Word)
    → length s < suc f
    → ((r : Word) → length r < f → strtok_loop f r ≡ words r)
    → (t : Word) → skip_delims s ≡ t
    → strtok_loop (suc f) s ≡ words s
unfolding strtok_loop
strtok_loop-step f s fits ih [] e =
    rw (strtok-none s e, words-of_skip s [] e) (unfold words fields nonempty in refl)
strtok_loop-step f s fits ih (c ∷ r) e =
    let n = skip_delims-head s c r e in
    let shorter : length (c ∷ r) ≤ length s = omega (arith, length-skip_delims s, ap length e) in
    rw (strtok-some s c r e, words-of_skip s (c ∷ r) e, words-token c r n)
      (ap (λ ws. (scan_token (c ∷ r)).token ∷ ws)
        (ih (scan_token (c ∷ r)).rest (omega (arith, length-rest c r n))))

-- With fuel for every byte the loop of `strtok` returns the non-empty fields, in order.
pub strtok_loop_lem : (f : ℕ) (s : Word) → length s < f → strtok_loop f s ≡ words s
strtok_loop_lem zero s h = absurd (omega arith)
strtok_loop_lem (suc f) s h = strtok_loop-step f s h (strtok_loop_lem f) (skip_delims s) refl
