-- ===== src/Base/Maps.antt =====
-- Functions as maps with an entry that changes.
use Prim.Native.Nat.{ℕ}
use mathlib.Core.Path.{◌≡◌, refl}
use mathlib.Core.Bool.{true, false}
use mathlib.Core.Logic.{◌≢◌, inl, inr}
use native.Mathlib.Omega.{arith}
use network_system_programmi.Base.Tests.{if◌then◌else◌, ◌==◌, Bool-cases}

module _ {ℓ} {A : Type ℓ} where
  unfoldable pub update : (ℕ → A) → ℕ → A → ℕ → A
  update f i x k = if k == i then x else f k

  pub update-same : (f : ℕ → A) (i : ℕ) (x : A) → update f i x i ≡ x
  unfolding update
  update-same f i x = let e : (i == i) ≡ true = ground arith in rw e refl

  pub update-other : (f : ℕ → A) (i : ℕ) (x : A) {k : ℕ} → k ≢ i → update f i x k ≡ f k
  unfolding update
  update-other f i x {k} d = let e : (k == i) ≡ false = ground arith in rw e refl

  pub update-All {κ} :
      (P : A → Type κ) (f : ℕ → A) (i : ℕ) (x : A)
      → ((k : ℕ) → P (f k))
      → P x
      → (k : ℕ) → P (update f i x k)
  unfolding update
  update-All P f i x all at_i k = elim (Bool-cases (k == i)) [
    | inl e ↦ rw e at_i
    | inr e ↦ rw e (all k)
  ]
