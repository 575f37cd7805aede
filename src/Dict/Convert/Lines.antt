-- ===== src/Dict/Convert/Lines.antt =====
-- `getline` and the loop of `convert` over the lines of a definition.
use network_system_programmi.Base.{
  ℕ, zero, suc, ◌+◌, ◌<◌, ◌≡◌, refl, ap, sym, ◌∙◌, false, some, List, [], ◌∷◌, ◌++◌, length, arith,
  ◌==◌, All, NoNul, c_string, c_string_lem, write_at, write_at-start, write_at-append, drop,
  replicate, eq_bytes, append_assoc, length-append,
}
use network_system_programmi.Dict.Record.{Bytes, Dictrec, word_size}
use network_system_programmi.Dict.Convert.{Stream, to_newline, getline, newline, definition_loop}

abbrev pub zeros : ℕ → Bytes
zeros n = replicate n 0

-- No newline and no NUL.
abbrev pub IsPlain : Bytes → Type 0
IsPlain = All (λ c. ((c == 10) ≡ false) × ((c == 0) ≡ false))

-- A word or a line of a definition: plain, and not empty.
abbrev pub IsText : Bytes → Type 0
IsText [] = ⊥
IsText (c ∷ s) = IsPlain (c ∷ s)

abbrev pub open_at : Bytes → Stream
open_at s = record { rest = s; eof = false }

pub to_newline_lem :
    (l r : Bytes)
    → IsPlain l
    → to_newline (l ++ 10 ∷ r) ≡ record { line = l ++ newline; stream = open_at r }
unfolding to_newline
to_newline_lem [] r h = refl
to_newline_lem (c ∷ l) r h = rw (h.0.0, to_newline_lem l r h.1)

pub getline_lem :
    (l r : Bytes)
    → IsPlain l
    → getline (open_at (l ++ 10 ∷ r)) ≡ some (record { line = l ++ newline; stream = open_at r })
unfolding getline
getline_lem [] r h = rw (to_newline_lem [] r h)
getline_lem (c ∷ l) r h = rw (to_newline_lem (c ∷ l) r h)

pub NoNul-newline : (l : Bytes) → IsPlain l → NoNul (l ++ newline)
NoNul-newline [] h = (refl, tt)
NoNul-newline (c ∷ l) h = (h.0.1, NoNul-newline l h.1)

pub c_string-newline : (l : Bytes) → IsPlain l → c_string (l ++ newline) ≡ l ++ newline
c_string-newline l h = c_string_lem (l ++ newline) (NoNul-newline l h)

pub drop-zeros : (n k m : ℕ) → k ≡ n + m → drop n (zeros k) ≡ zeros m
drop-zeros zero k m e = ap zeros (omega arith)
drop-zeros (suc n) zero m e = absurd (omega arith)
drop-zeros (suc n) (suc k) m e = drop-zeros n k m (omega arith)

pub length-zeros : (k : ℕ) → length (zeros k) ≡ k
length-zeros zero = refl
length-zeros (suc k) = ap suc (length-zeros k)

pub write_at-blank :
    (bs : Bytes) (k m : ℕ) → k ≡ length bs + m → write_at 0 bs (zeros k) ≡ bs ++ zeros m
write_at-blank bs k m e =
    write_at-start bs (zeros k) (omega (arith, length-zeros k))
    ∙ ap (λ t. bs ++ t) (drop-zeros (length bs) k m e)

-- A store into memory that is still zero behind what was written.
pub write_at-zeros :
    (w done bs : Bytes) (k m off : ℕ)
    → off ≡ length w + length done
    → k ≡ length bs + m
    → write_at off bs (w ++ (done ++ zeros k)) ≡ w ++ (done ++ (bs ++ zeros m))
write_at-zeros w done bs k m off e fits =
    let split : off ≡ length (w ++ done) = omega (arith, length-append w done) in
    rw
      (
        ← append_assoc w done (zeros k),
        write_at-append (w ++ done) bs (zeros k) off split,
        write_at-blank bs k m fits,
      )
      (append_assoc w done (bs ++ zeros m))

-- The lines as they stand in the text, in front of the blank line and the rest.
abbrev pub source_lines : List Bytes → Bytes → Bytes
source_lines [] r = 10 ∷ r
source_lines (l ∷ ls) r = l ++ 10 ∷ source_lines ls r

-- The lines as they are stored: each with its newline and a NUL.
abbrev pub stored : List Bytes → Bytes
stored [] = []
stored (l ∷ ls) = (l ++ 10 ∷ 0 ∷ []) ++ stored ls

pub eq_bytes-line : (l : Bytes) → IsText l → eq_bytes (l ++ newline) newline ≡ false
eq_bytes-line [] h = elim h [ ]
eq_bytes-line (c ∷ l) h = ground (arith, h.0.0)

pub IsText-IsPlain : (l : Bytes) → IsText l → IsPlain l
IsText-IsPlain [] h = elim h [ ]
IsText-IsPlain (c ∷ l) h = h

pub loop-blank :
    (f index : ℕ) (mem : Dictrec) (r : Bytes)
    → definition_loop (suc f) index mem (open_at (10 ∷ r))
      ≡ record { blank = mem; stream = open_at r }
unfolding definition_loop
loop-blank f index mem r = rw (getline_lem [] r tt, definition_loop, c_string-newline [] tt)

pub loop-line :
    (f index : ℕ) (mem : Dictrec) (l r : Bytes)
    → IsText l
    → definition_loop (suc f) index mem (open_at (l ++ 10 ∷ r))
      ≡ definition_loop f
          (index + (length (l ++ newline) + 1))
          (write_at (word_size + index) ((l ++ newline) ++ 0 ∷ []) mem)
          (open_at r)
unfolding definition_loop
loop-line f index mem l r h = rw (
  getline_lem l r (IsText-IsPlain l h),
  definition_loop,
  c_string-newline l (IsText-IsPlain l h),
  eq_bytes-line l h,
)

pub length-line :
    (l done : Bytes)
    → length (done ++ (l ++ 10 ∷ 0 ∷ [])) ≡ length done + (length (l ++ newline) + 1)
length-line l done = omega (
  arith,
  length-append done (l ++ 10 ∷ 0 ∷ []),
  length-append l (10 ∷ 0 ∷ []),
  length-append l newline,
)

pub stored-step :
    (l : Bytes) (ls : List Bytes) (m k : ℕ)
    → k ≡ length (stored (l ∷ ls)) + m
    → (w done : Bytes) (index : ℕ) → length w ≡ word_size
    → index ≡ length done
    → write_at (word_size + index) (l ++ 10 ∷ 0 ∷ []) (w ++ (done ++ zeros k))
      ≡ w ++ ((done ++ (l ++ 10 ∷ 0 ∷ [])) ++ zeros (length (stored ls) + m))
stored-step l ls m k fits w done index p q =
    write_at-zeros w done (l ++ 10 ∷ 0 ∷ []) k (length (stored ls) + m) (word_size + index)
      (omega arith) (omega (arith, length-append (l ++ 10 ∷ 0 ∷ []) (stored ls)))
    ∙ ap (λ t. w ++ t) (sym (append_assoc done (l ++ 10 ∷ 0 ∷ []) (zeros (length (stored ls) + m))))

pub definition_loop_lem :
    (ls : List Bytes) (f index k m : ℕ) (w done r : Bytes)
    → All IsText ls
    → length ls < f
    → length w ≡ word_size
    → index ≡ length done
    → k ≡ length (stored ls) + m
    → definition_loop f index (w ++ (done ++ zeros k)) (open_at (source_lines ls r))
      ≡ record { blank = w ++ (done ++ (stored ls ++ zeros m)); stream = open_at r }
definition_loop_lem ls zero index k m w done r h lt p q fits = absurd (omega arith)
definition_loop_lem [] (suc f) index k m w done r h lt p q fits =
    let e : k ≡ m = omega arith in rw e (loop-blank f index (w ++ (done ++ zeros m)) r)
definition_loop_lem (l ∷ ls) (suc f) index k m w done r h lt p q fits =
    loop-line f index (w ++ (done ++ zeros k)) l (source_lines ls r) h.0
    ∙ rw (append_assoc l newline (0 ∷ []), stored-step l ls m k fits w done index p q)
        (definition_loop_lem ls f (index + (length (l ++ newline) + 1)) (length (stored ls) + m) m w
            (done ++ (l ++ 10 ∷ 0 ∷ [])) r h.1 (omega arith) p
            (omega (arith, q, length-line l done)) refl
          ∙ ap (λ t. record { blank = w ++ t; stream = open_at r }) (simp append_assoc))
