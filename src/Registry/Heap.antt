-- ===== src/Registry/Heap.antt =====
-- Objects behind pointers.
use gorigin.Prelude.{
  ℕ, zero, suc, ◌≡◌, ◌≢◌, refl, ap, List, [], ◌∷◌, ◌++◌, some, length, get_elem?, set,
}

module _ {ℓ} {A : Type ℓ} where
  pub get_elem?-append_new : (xs : List A) (x : A) → get_elem? (xs ++ (x ∷ [])) (length xs) ≡ some x
  get_elem?-append_new [] x = refl
  get_elem?-append_new (y ∷ xs) x = get_elem?-append_new xs x

  pub get_elem?-append_old :
      (xs : List A) (y x : A) (i : ℕ)
      → get_elem? xs i ≡ some x
      → get_elem? (xs ++ (y ∷ [])) i ≡ some x
  get_elem?-append_old [] y x i h = absurd (cc)
  get_elem?-append_old (z ∷ xs) y x zero h = h
  get_elem?-append_old (z ∷ xs) y x (suc i) h = get_elem?-append_old xs y x i h

  pub get_elem?-set_self :
      (xs : List A) (i : ℕ) (x v : A) → get_elem? xs i ≡ some x → get_elem? (set xs i v) i ≡ some v
  get_elem?-set_self [] i x v h = absurd (cc)
  get_elem?-set_self (y ∷ xs) zero x v h = refl
  get_elem?-set_self (y ∷ xs) (suc i) x v h = get_elem?-set_self xs i x v h

  pub get_elem?-set_ne :
      (xs : List A) (i j : ℕ) (v : A) → i ≢ j → get_elem? (set xs i v) j ≡ get_elem? xs j
  get_elem?-set_ne [] i j v h = refl
  get_elem?-set_ne (x ∷ xs) zero zero v h = absurd (h refl)
  get_elem?-set_ne (x ∷ xs) zero (suc j) v h = refl
  get_elem?-set_ne (x ∷ xs) (suc i) zero v h = refl
  get_elem?-set_ne (x ∷ xs) (suc i) (suc j) v h = get_elem?-set_ne xs i j v (λ e. h (ap suc e))
