-- ===== src/Shell/Pipeline/Laws.antt =====
-- The two vectors that `pipe_and_exec` builds, and what a whole pipeline runs.
use network_system_programmi.Base.{
  ℕ, zero, suc, ◌+◌, ◌≤◌, ◌≡◌, refl, ap, sym, Option, none, some, List, [], ◌∷◌, ◌++◌, length, set,
  drop, replicate, arith, append_assoc,
}
use native.Mathlib.Numerals.{add-one}
use network_system_programmi.Shell.Words.{Word}
use network_system_programmi.Shell.Parse.{Cell, Argv, cells}
use network_system_programmi.Shell.Scan.{pipe_word, cell_at}
use network_system_programmi.Shell.Scan.Laws.{Lacks}
use network_system_programmi.Shell.Pipeline.{Raw, copy_words, segment_length, left_argv, right_argv}

-- The cells of `malloc` that hold words.
abbrev pub filled : List Word → Raw
filled [] = []
filled (w ∷ ws) = some (some w) ∷ filled ws

set-length :
    (l : Raw) (c x : Option Cell) (r : Raw) (i : ℕ)
    → i ≡ length l
    → set (l ++ c ∷ r) i x ≡ l ++ x ∷ r
set-length [] c x r i e = rw e
set-length (a ∷ l) c x r i e = rw e (ap (λ t. a ∷ t) (set-length l c x r (length l) refl))

cell_at-length :
    (l : Argv) (c : Cell) (r : Argv) (i : ℕ) → i ≡ length l → cell_at (l ++ c ∷ r) i ≡ c
cell_at-length [] c r i e = rw e
cell_at-length (a ∷ l) c r i e = rw e (cell_at-length l c r (length l) refl)

length-snoc {ℓ} :
    {A : Type ℓ} (l : List A) (c : A) (i : ℕ) → i ≡ length l → i + 1 ≡ length (l ++ c ∷ [])
length-snoc [] c i e = omega arith
length-snoc (a ∷ l) c i e = omega (arith, length-snoc l c (length l) refl)

copy_words-suc :
    (n i j : ℕ) (v : Argv) (to : Raw)
    → copy_words (suc n) i j v to ≡ copy_words n (i + 1) (j + 1) v (set to j (some (cell_at v i)))
unfolding copy_words
copy_words-suc n i j v to = refl

copy_words-zero : (i j : ℕ) (v : Argv) (to : Raw) → copy_words zero i j v to ≡ to
unfolding copy_words
copy_words-zero i j v to = refl

copy_words_lem :
    (ws : List Word) (pre post : Argv) (done tail : Raw) (i j : ℕ)
    → i ≡ length pre
    → j ≡ length done
    → copy_words
        (length ws)
        i
        j
        (pre ++ (cells ws ++ post))
        (done ++ (replicate (length ws) none ++ tail))
      ≡ done ++ (filled ws ++ tail)
copy_words_lem [] pre post done tail i j p q = copy_words-zero i j _ _
copy_words_lem (w ∷ ws) pre post done tail i j p q =
    rw
      (
        copy_words-suc (length ws) i j (pre ++ some w ∷ (cells ws ++ post))
            (done ++ none ∷ (replicate (length ws) none ++ tail)),
        cell_at-length pre (some w) (cells ws ++ post) i p,
        set-length done none (some (some w)) (replicate (length ws) none ++ tail) j q,
      )
      (simp append_assoc at (
        copy_words_lem ws (pre ++ some w ∷ []) post (done ++ some (some w) ∷ []) tail (i + 1)
          (j + 1) (length-snoc pre (some w) i p) (length-snoc done (some (some w)) j q)))

abbrev blank : ℕ → Raw
blank n = replicate n none

replicate-suc : (n : ℕ) → blank (n + 1) ≡ blank n ++ none ∷ []
replicate-suc zero = refl
replicate-suc (suc n) = rw add-one (ap (λ (t : Raw). none ∷ t) (rw add-one at (replicate-suc n)))

length-filled : (ws : List Word) → length (filled ws) ≡ length ws
length-filled [] = refl
length-filled (w ∷ ws) = ap suc (length-filled ws)

length-cells : (ws : List Word) → length (cells ws) ≡ length ws
length-cells [] = refl
length-cells (w ∷ ws) = ap suc (length-cells ws)

pub left_argv_lem :
    (ws : List Word) (post : Argv)
    → left_argv (cells ws ++ post) (length ws) ≡ filled ws ++ some none ∷ []
unfolding left_argv
left_argv_lem ws post =
    rw (replicate-suc (length ws), copy_words_lem ws [] post [] (none ∷ []) 0 0 refl refl)
      (set-length (filled ws) none (some none) [] (length ws) (sym (length-filled ws)))

pub drop-length :
    (ws : List Word) (c : Cell) (v : Argv) → drop (length ws + 1) (cells ws ++ c ∷ v) ≡ v
drop-length [] c v = refl
drop-length (w ∷ ws) c v = rw add-one (rw add-one at (drop-length ws c v))

-- What may follow the words of a segment: NULL or "|".
pub data Stops : Argv → Type 0 where
  null : (v : Argv) → Stops (none ∷ v)
  pipe : (v : Argv) → Stops (some pipe_word ∷ v)

segment_length_lem :
    (ws : List Word) {v : Argv}
    → Stops v
    → Lacks pipe_word ws
    → segment_length (cells ws ++ v) ≡ length ws
unfolding segment_length
segment_length_lem [] (null v) h = refl
segment_length_lem [] (pipe v) h = refl
segment_length_lem (w ∷ ws) s h = rw (h.0, segment_length_lem ws s h.1)

set-past : (l : Raw) (x : Option Cell) (i : ℕ) → length l ≤ i → set l i x ≡ l
set-past [] x i h = refl
set-past (a ∷ l) x zero h = elim h [ ]
set-past (a ∷ l) x (suc i) h = ap (λ t. a ∷ t) (set-past l x i (omega arith))

length-snoc_filled : (ws : List Word) → length (filled ws ++ none ∷ []) ≡ length ws + 1
length-snoc_filled [] = refl
length-snoc_filled (w ∷ ws) = omega (arith, length-snoc_filled ws)

-- The vector built for the right side of a pipe holds the words up to the next "|" or NULL and one
-- cell more, which no statement writes: the closing NULL is stored one cell past the block.
pub right_argv_lem :
    (ws rs : List Word) (c : Cell) {v : Argv}
    → Stops v
    → Lacks pipe_word rs
    → right_argv (cells ws ++ c ∷ (cells rs ++ v)) (length ws) ≡ filled rs ++ none ∷ []
unfolding right_argv
right_argv_lem ws rs c {v} s h =
    rw
      (
        drop-length ws c (cells rs ++ v),
        segment_length_lem rs s h,
        replicate-suc (length rs),
        rw (append_assoc (cells ws) (c ∷ []) (cells rs ++ v)) at (
            copy_words_lem rs (cells ws ++ c ∷ []) v [] (none ∷ []) (length ws + 1) 0
              (length-snoc (cells ws) c (length ws) (sym (length-cells ws))) refl),
      )
      (set-past (filled rs ++ none ∷ []) (some none) (length rs + 1)
        (omega (arith, length-snoc_filled rs)))
