-- ===== src/Base/Strtok.antt =====
-- `strtok` of the C library, for a set of delimiters given by its test.
use Prim.Native.Nat.{ℕ}
use mathlib.Core.Path.{◌≡◌, refl, ap}
use mathlib.Core.Bool.{Bool, false}
use mathlib.Core.Option.{Option, none, some}
use mathlib.Core.List.{List, [], ◌∷◌}
use network_system_programmi.Base.Tests.{if◌then◌else◌}
use network_system_programmi.Base.Lists.{All}

pub record Key : Type 0 where
  pub token : List ℕ
  pub rest : List ℕ

abbrev cons_key : ℕ → Key → Key
cons_key c k = record { token = c ∷ k.token; rest = k.rest }

module _ (is_delim : ℕ → Bool) where
  unfoldable pub skip_delims : List ℕ → List ℕ
  skip_delims [] = []
  skip_delims (c ∷ s) = if is_delim c then skip_delims s else c ∷ s

  unfoldable pub scan_key : List ℕ → Key
  scan_key [] = record { token = []; rest = [] }
  scan_key (c ∷ s) =
      let more = cons_key c (scan_key s) in
      if is_delim c then record { token = []; rest = s } else more

  unfoldable pub strtok : List ℕ → Option Key
  strtok s = elim (skip_delims s) [ [] ↦ none | c ∷ r ↦ some (scan_key (c ∷ r)) ]

  abbrev pub NoDelim : List ℕ → Type 0
  NoDelim = All (λ c. is_delim c ≡ false)

  pub scan_key-NoDelim : (s : List ℕ) → NoDelim s → scan_key s ≡ record { token = s; rest = [] }
  unfolding scan_key
  scan_key-NoDelim [] h = refl
  scan_key-NoDelim (c ∷ s) h = rw (h.0, scan_key-NoDelim s h.1) refl

  pub skip_delims-NoDelim : (c : ℕ) (s : List ℕ) → is_delim c ≡ false → skip_delims (c ∷ s) ≡ c ∷ s
  unfolding skip_delims
  skip_delims-NoDelim c s h = rw h refl

  pub strtok-NoDelim :
      (c : ℕ) (s : List ℕ)
      → NoDelim (c ∷ s)
      → strtok (c ∷ s) ≡ some (record { token = c ∷ s; rest = [] })
  unfolding strtok
  strtok-NoDelim c s h =
      rw (strtok, skip_delims-NoDelim c s h.0) (ap some (scan_key-NoDelim (c ∷ s) h))
