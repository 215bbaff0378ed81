-- ===== src/Prelude/Eq.antt =====
-- Boolean equality as an instance: of numbers, and of byte strings, the model of Go's `string`.
use Prim.Native.Nat.{ℕ}
use mathlib.Core.Path.{◌≡◌, refl}
use mathlib.Core.Logic.{◌↔◌}
use mathlib.Core.Bool.{Bool, true, false, ◌&&◌}
use mathlib.Core.List.{List, [], ◌∷◌}
use native.Mathlib.Omega.{arith}
use gorigin.Prelude.Tests.{◌==◌, ==_iff}

-- A Go string, or a byte slice, as the list of its bytes.
abbrev pub Bytes : Type 0
Bytes = List ℕ

pub record KeyEq {ℓ} (K : Type ℓ) : Type ℓ where
  pub beq : K → K → Bool
  pub beq_iff : (a b : K) → (beq a b ≡ true) ↔ (a ≡ b)

infix 50 ◌=?◌
abbrev pub ◌=?◌ {ℓ} : {K : Type ℓ} ⦃e : KeyEq K⦄ → K → K → Bool
◌=?◌ ⦃e⦄ = e.beq

pub key_refl {ℓ} : {K : Type ℓ} ⦃e : KeyEq K⦄ (k : K) → e.beq k k ≡ true
key_refl ⦃e⦄ k = (e.beq_iff k k).1 refl

unfoldable pub bytes_beq : Bytes → Bytes → Bool
bytes_beq [] [] = true
bytes_beq [] (y ∷ ys) = false
bytes_beq (x ∷ xs) [] = false
bytes_beq (x ∷ xs) (y ∷ ys) = (x == y) && bytes_beq xs ys

pub bytes_beq_iff : (a b : Bytes) → (bytes_beq a b ≡ true) ↔ (a ≡ b)
unfolding bytes_beq
bytes_beq_iff [] [] = (λ h. refl, λ h. refl)
bytes_beq_iff [] (y ∷ ys) = (λ h. cc, λ h. cc)
bytes_beq_iff (x ∷ xs) [] = (λ h. cc, λ h. cc)
bytes_beq_iff (x ∷ xs) (y ∷ ys) = ground (arith, bytes_beq_iff xs ys)

instance abbrev pub nat_key : KeyEq ℕ
nat_key = record { beq = ◌==◌; beq_iff = ==_iff }

instance abbrev pub bytes_key : KeyEq Bytes
bytes_key = record { beq = bytes_beq; beq_iff = bytes_beq_iff }
