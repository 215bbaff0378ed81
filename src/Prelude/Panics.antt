-- ===== src/Prelude/Panics.antt =====
-- What a piece of Go code does: it returns, or it panics (an index out of range, a nil pointer).
use mathlib.Core.Path.{◌≡◌, refl, ap}
use mathlib.Core.Logic.{◌⊎◌, inl, inr}
use mathlib.Core.Option.{Option, none, some}
use Prim.Native.Nat.{ℕ}
use mathlib.Core.List.{List}
use gorigin.Prelude.Tests.{leb, if◌then◌else◌}
use gorigin.Prelude.Lists.{length, get_elem?, slice}
use mathlib.Core.Bool.{◌&&◌}

pub data Outcome {ℓ} (A : Type ℓ) : Type ℓ where
  value : A → Outcome A
  panic : Outcome A

infixl 5 ◌>>=◌
abbrev pub ◌>>=◌ {ℓ κ} : {A : Type ℓ} {B : Type κ} → Outcome A → (A → Outcome B) → Outcome B
value a >>= f = f a
panic >>= f = panic

abbrev pub or_panic {ℓ} : {A : Type ℓ} → Option A → Outcome A
or_panic none = panic
or_panic (some a) = value a

-- `xs[i]`.
abbrev pub index {ℓ} : {A : Type ℓ} → List A → ℕ → Outcome A
index xs i = or_panic (get_elem? xs i)

-- `xs[lo:hi]`, on a slice whose capacity is its length.
abbrev pub sub_slice {ℓ} : {A : Type ℓ} → List A → ℕ → ℕ → Outcome (List A)
sub_slice xs lo hi = if leb lo hi && leb hi (length xs) then value (slice xs lo hi) else panic

pub Outcome-cases {ℓ} : {A : Type ℓ} (m : Outcome A) → (m ≡ panic) ⊎ ((a : A) × (m ≡ value a))
Outcome-cases panic = inl refl
Outcome-cases (value a) = inr (a, refl)

pub value-injective {ℓ} : {A : Type ℓ} (a b : A) → value a ≡ value b → a ≡ b
value-injective a b e = ap (λ m. elim m [ value x ↦ x | panic ↦ a ]) e
