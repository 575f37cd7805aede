-- ===== src/Base/Options.antt =====
-- What holds of an optional result, if there is one.
use mathlib.Core.Option.{Option, none, some}
use mathlib.Core.Path.{◌≡◌}

abbrev pub IfSome {ℓ} : {A : Type 0} → (A → Type ℓ) → Option A → Type ℓ
IfSome P none = Unit
IfSome P (some x) = P x

pub IfSome-some :
    {A : Type 0} (P : A → Type 0) (o : Option A) {x : A} → IfSome P o → o ≡ some x → P x
IfSome-some P o h e = rw e at h
