-- ===== src/Base/Strcmp.antt =====
-- `strcmp` orders the byte strings.
use Prim.Native.Nat.{ℕ, Ordering}
use mathlib.Core.Path.{◌≡◌, refl}
use mathlib.Core.List.{List, [], ◌∷◌}
use native.Mathlib.Omega.{arith}
use network_system_programmi.Base.Bytes.{strcmp}

pub strcmp_refl : (s : List ℕ) → strcmp s s ≡ Ordering.eq
unfolding strcmp
strcmp_refl [] = refl
strcmp_refl (x ∷ s) = ground (arith, strcmp_refl s)

pub strcmp-eq→eq : (s t : List ℕ) → strcmp s t ≡ Ordering.eq → s ≡ t
unfolding strcmp
strcmp-eq→eq [] [] h = refl
strcmp-eq→eq [] (y ∷ t) h = ground arith
strcmp-eq→eq (x ∷ s) [] h = ground arith
strcmp-eq→eq (x ∷ s) (y ∷ t) h = ground (arith, strcmp-eq→eq s t)

pub strcmp-gt→lt : (s t : List ℕ) → strcmp s t ≡ Ordering.gt → strcmp t s ≡ Ordering.lt
unfolding strcmp
strcmp-gt→lt [] [] h = ground arith
strcmp-gt→lt [] (y ∷ t) h = ground arith
strcmp-gt→lt (x ∷ s) [] h = refl
strcmp-gt→lt (x ∷ s) (y ∷ t) h = ground (arith, strcmp-gt→lt s t)

pub strcmp-lt→gt : (s t : List ℕ) → strcmp s t ≡ Ordering.lt → strcmp t s ≡ Ordering.gt
unfolding strcmp
strcmp-lt→gt [] [] h = ground arith
strcmp-lt→gt [] (y ∷ t) h = refl
strcmp-lt→gt (x ∷ s) [] h = ground arith
strcmp-lt→gt (x ∷ s) (y ∷ t) h = ground (arith, strcmp-lt→gt s t)

pub strcmp_trans :
    (s t u : List ℕ)
    → strcmp s t ≡ Ordering.lt
    → strcmp t u ≡ Ordering.lt
    → strcmp s u ≡ Ordering.lt
unfolding strcmp
strcmp_trans [] [] u h k = ground arith
strcmp_trans [] (y ∷ t) [] h k = ground arith
strcmp_trans [] (y ∷ t) (z ∷ u) h k = refl
strcmp_trans (x ∷ s) [] u h k = ground arith
strcmp_trans (x ∷ s) (y ∷ t) [] h k = ground arith
strcmp_trans (x ∷ s) (y ∷ t) (z ∷ u) h k = ground (arith, strcmp_trans s t u)
