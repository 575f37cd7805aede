-- ===== src/Base/Bytes.antt =====
-- C strings and buffers as lists of bytes.
use Prim.Native.Nat.{ℕ, zero, suc, ◌≤◌, ◌<◌, compare, Ordering}
use mathlib.Core.Path.{◌≡◌, refl, ap}
use mathlib.Core.Logic.{inl, inr}
use mathlib.Core.Bool.{false}
use mathlib.Core.List.{List, [], ◌∷◌, ◌++◌, append_assoc}
use native.Mathlib.Omega.{arith}
use network_system_programmi.Base.Tests.{◌==◌, if◌then◌else◌, Bool-cases}
use network_system_programmi.Base.Lists.{length, All, drop, replicate, length-replicate}

-- A C string ends at the first NUL.
unfoldable pub c_string : List ℕ → List ℕ
c_string [] = []
c_string (c ∷ s) = let rest = c_string s in if c == 0 then [] else c ∷ rest

abbrev pub NoNul : List ℕ → Type 0
NoNul = All (λ c. (c == 0) ≡ false)

pub c_string_lem : (s : List ℕ) → NoNul s → c_string s ≡ s
unfolding c_string
c_string_lem [] h = refl
c_string_lem (c ∷ s) h = rw (h.0, c_string_lem s h.1)

pub c_string-append : (s t : List ℕ) → NoNul s → c_string (s ++ 0 ∷ t) ≡ s
unfolding c_string
c_string-append [] t h = refl
c_string-append (c ∷ s) t h = rw (h.0, c_string-append s t h.1)

pub NoNul-c_string : (s : List ℕ) → NoNul (c_string s)
unfolding c_string
NoNul-c_string [] = tt
NoNul-c_string (c ∷ s) = elim (Bool-cases (c == 0)) [
  | inl z ↦ rw z tt
  | inr n ↦ rw n (n, NoNul-c_string s)
]

-- Bytes stored from an offset on; what lies past the end of the memory is not stored.
unfoldable pub write_at : ℕ → List ℕ → List ℕ → List ℕ
write_at zero [] mem = mem
write_at zero (b ∷ bs) [] = []
write_at zero (b ∷ bs) (m ∷ mem) = b ∷ write_at zero bs mem
write_at (suc off) bs [] = []
write_at (suc off) bs (m ∷ mem) = m ∷ write_at off bs mem

pub length-write_at : (off : ℕ) (bs mem : List ℕ) → length (write_at off bs mem) ≡ length mem
unfolding write_at
length-write_at zero [] mem = refl
length-write_at zero (b ∷ bs) [] = refl
length-write_at zero (b ∷ bs) (m ∷ mem) = ap suc (length-write_at zero bs mem)
length-write_at (suc off) bs [] = refl
length-write_at (suc off) bs (m ∷ mem) = ap suc (length-write_at off bs mem)

-- The start of a memory is overwritten by bytes that fit.
pub write_at-start :
    (bs mem : List ℕ) → length bs ≤ length mem → write_at 0 bs mem ≡ bs ++ drop (length bs) mem
unfolding write_at
write_at-start [] mem h = refl
write_at-start (b ∷ bs) [] h = elim h [ ]
write_at-start (b ∷ bs) (m ∷ mem) h = ap (λ r. b ∷ r) (write_at-start bs mem (omega arith))

-- A store behind a prefix leaves the prefix.
pub write_at-append :
    (pre bs mem : List ℕ) (off : ℕ)
    → off ≡ length pre
    → write_at off bs (pre ++ mem) ≡ pre ++ write_at 0 bs mem
unfolding write_at
write_at-append [] bs mem off e = rw e
write_at-append (p ∷ pre) bs mem off e =
    rw e (ap (λ r. p ∷ r) (write_at-append pre bs mem (length pre) refl))

pub drop-write_at :
    (n : ℕ) (bs mem : List ℕ) → drop n (write_at n bs mem) ≡ write_at 0 bs (drop n mem)
unfolding write_at
drop-write_at zero bs mem = refl
drop-write_at (suc n) [] [] = refl
drop-write_at (suc n) (b ∷ bs) [] = refl
drop-write_at (suc n) bs (m ∷ mem) = drop-write_at n bs mem

drop-replicate : (n m : ℕ) → n < m → (t : List ℕ) × (drop n (replicate m 0) ≡ 0 ∷ t)
drop-replicate n zero h = absurd (omega (arith, h))
drop-replicate zero (suc m) h = (replicate m 0, refl)
drop-replicate (suc n) (suc m) h = drop-replicate n m (omega (arith, h))

-- A string that is shorter than a buffer of zeros is read back from it.
pub c_string-buffer :
    (n : ℕ) (s beyond : List ℕ)
    → NoNul s
    → length s < n
    → c_string (write_at 0 s (replicate n 0) ++ beyond) ≡ s
c_string-buffer n s beyond h short =
    let (t, e) = drop-replicate (length s) n short in
    rw
      (
        write_at-start s (replicate n 0) (omega (arith, short, length-replicate n zero)),
        e,
        append_assoc s (0 ∷ t) beyond,
      )
      (c_string-append s (t ++ beyond) h)

-- `strcmp`, by its sign.
unfoldable pub strcmp : List ℕ → List ℕ → Ordering
strcmp [] [] = Ordering.eq
strcmp [] (y ∷ ys) = Ordering.lt
strcmp (x ∷ xs) [] = Ordering.gt
strcmp (x ∷ xs) (y ∷ ys) = elim (compare x y) [
  | Ordering.lt ↦ Ordering.lt
  | Ordering.gt ↦ Ordering.gt
  | Ordering.eq ↦ strcmp xs ys
]
