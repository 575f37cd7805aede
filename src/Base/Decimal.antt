-- ===== src/Base/Decimal.antt =====
-- Decimal text: `printf("%d")` of a number that is not negative, and `atoi`.
use Prim.Native.Nat.{ℕ, zero, suc, ◌+◌, ◌-◌, ◌*◌, ◌/◌, ◌%◌, ◌<◌}
use Prim.Native.Char.{code}
use Prim.Native.String.{String}
use mathlib.Core.Path.{◌≡◌, refl, ap, ◌∙◌}
use mathlib.Core.Logic.{inl, inr}
use mathlib.Core.Bool.{Bool, true, false, ◌&&◌, ◌||◌}
use mathlib.Core.List.{List, [], ◌∷◌}
use native.Mathlib.Omega.{arith}
use network_system_programmi.Base.Tests.{leb, ◌==◌, if◌then◌else◌, Bool-cases}
use network_system_programmi.Base.Int.{ℤ, pos, negsuc}

-- The bytes of an ASCII text.
abbrev pub codes : String → List ℕ
codes String.[] = []
codes (String.◌∷◌ c s) = code c ∷ codes s

-- The digits of `n` in front of `acc`.
unfoldable pub digits : ℕ → ℕ → List ℕ → List ℕ
digits zero n acc = acc
digits (suc f) n acc =
    let rest = digits f (n / 10) ((48 + n % 10) ∷ acc) in
    if n / 10 == 0 then (48 + n % 10) ∷ acc else rest

unfoldable pub decimal : ℕ → List ℕ
unfolding digits
decimal n = digits (suc n) n []

abbrev pub is_digit : ℕ → Bool
is_digit c = leb 48 c && leb c 57

abbrev pub is_space : ℕ → Bool
is_space c = c == 32 || (leb 9 c && leb c 13)

unfoldable pub digits_value : ℕ → List ℕ → ℕ
digits_value acc [] = acc
digits_value acc (c ∷ s) =
    let rest = digits_value (acc * 10 + (c - 48)) s in if is_digit c then rest else acc

abbrev pub negate : ℕ → ℤ
negate zero = pos 0
negate (suc n) = negsuc n

-- A value past the range of `int` is left as it is.
unfoldable pub atoi : List ℕ → ℤ
unfolding digits_value
atoi [] = pos 0
atoi (c ∷ s) =
    let rest = atoi s in
    if is_space c
    then rest
    else if c == 45
    then negate (digits_value 0 s)
    else if c == 43
    then pos (digits_value 0 s)
    else pos (digits_value 0 (c ∷ s))

digits_value-digit :
    (a n : ℕ) (acc : List ℕ)
    → digits_value a ((48 + n % 10) ∷ acc) ≡ digits_value (a * 10 + n % 10) acc
unfolding digits_value
digits_value-digit a n acc =
    let e : 48 + n % 10 - 48 ≡ n % 10 = omega arith in
    let d : is_digit (48 + n % 10) ≡ true = ground arith in rw (d, e)

pub digits_value-digits :
    (f n : ℕ) (acc : List ℕ) → n < f → digits_value 0 (digits f n acc) ≡ digits_value n acc
unfolding digits
digits_value-digits zero n acc h = elim h [ ]
digits_value-digits (suc f) n acc h = elim (Bool-cases (n / 10 == 0)) [
  | inl last ↦
      let e : 0 * 10 + n % 10 ≡ n = ground arith in rw (last, digits_value-digit 0 n acc, e)
  | inr more ↦
      let e : n / 10 * 10 + n % 10 ≡ n = omega arith in
      rw (
        more,
        digits_value-digits f (n / 10) ((48 + n % 10) ∷ acc) (ground arith),
        digits_value-digit (n / 10) n acc,
        e,
      )
]

-- A text that starts with a digit.
abbrev pub Starts : List ℕ → Type 0
Starts l = (d : ℕ) × (r : List ℕ) × (l ≡ (48 + d) ∷ r) × (d < 10)

Starts-digits : (f n : ℕ) (acc : List ℕ) → Starts acc → Starts (digits f n acc)
unfolding digits
Starts-digits zero n acc h = h
Starts-digits (suc f) n acc h = elim (Bool-cases (n / 10 == 0)) [
  | inl last ↦ rw last (n % 10, acc, refl, omega arith)
  | inr more ↦
      rw more (Starts-digits f (n / 10) ((48 + n % 10) ∷ acc) (n % 10, acc, refl, omega arith))
]

pub Starts-decimal : (n : ℕ) → Starts (decimal n)
unfolding decimal
Starts-decimal n = elim (Bool-cases (n / 10 == 0)) [
  | inl last ↦ rw last (n % 10, [], refl, omega arith)
  | inr more ↦
      rw more (Starts-digits n (n / 10) ((48 + n % 10) ∷ []) (n % 10, [], refl, omega arith))
]

pub atoi-digit :
    (d : ℕ) (r : List ℕ) → d < 10 → atoi ((48 + d) ∷ r) ≡ pos (digits_value 0 ((48 + d) ∷ r))
unfolding atoi
atoi-digit d r h =
    let a : is_space (48 + d) ≡ false = ground arith in
    let b : (48 + d == 45) ≡ false = ground arith in
    let c : (48 + d == 43) ≡ false = ground arith in rw (a, b, c)

digits_value-decimal : (n : ℕ) → digits_value 0 (decimal n) ≡ n
unfolding decimal digits_value
digits_value-decimal n = digits_value-digits (suc n) n [] (omega arith)

-- What `%d` prints, `atoi` reads back.
pub atoi-decimal : (n : ℕ) → atoi (decimal n) ≡ pos n
atoi-decimal n =
    let (d, r, e, h) = Starts-decimal n in
    rw e (atoi-digit d r h) ∙ ap pos (rw e at (digits_value-decimal n))
