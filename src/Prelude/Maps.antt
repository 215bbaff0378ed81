-- ===== src/Prelude/Maps.antt =====
-- Go's maps and `sync.Map` as association lists without order: load, store and delete.
use gorigin.Prelude.Tests.{if◌then◌else◌, Bool-cases}
use gorigin.Prelude.Eq.{KeyEq, key_refl}
use mathlib.Core.Path.{◌≡◌, refl, sym, subst, subst₂}
use mathlib.Core.Bool.{Bool, true, false}
use mathlib.Core.Logic.{◌≢◌, inl, inr}
use mathlib.Core.Option.{Option, none, some, some-injective}
use mathlib.Core.List.{List, [], ◌∷◌}
use native.Mathlib.Omega.{arith}

abbrev pub Dict {ℓ κ} : Type ℓ → Type κ → Type (ℓ ⊔ κ)
Dict K V = List (K × V)

module _ {ℓ κ} {K : Type ℓ} {V : Type κ} ⦃e : KeyEq K⦄ where
  unfoldable pub load : K → Dict K V → Option V
  load k [] = none
  load k ((j, v) ∷ m) = if e.beq j k then some v else load k m

  unfoldable pub store : K → V → Dict K V → Dict K V
  store k v [] = (k, v) ∷ []
  store k v ((j, w) ∷ m) = if e.beq j k then (k, v) ∷ m else (j, w) ∷ store k v m

  unfoldable pub delete : K → Dict K V → Dict K V
  delete k [] = []
  delete k ((j, w) ∷ m) = let rest = delete k m in if e.beq j k then rest else (j, w) ∷ rest

  pub load-store :
      (k j : K) (v : V) (m : Dict K V)
      → load j (store k v m) ≡ (if e.beq k j then some v else load j m)
  unfolding load store
  load-store k j v [] = refl
  load-store k j v ((i, w) ∷ m) =
      ground (arith, e.beq_iff k j, e.beq_iff i k, e.beq_iff i j, load-store k j v m)

  pub load-delete :
      (k j : K) (m : Dict K V) → load j (delete k m) ≡ (if e.beq k j then none else load j m)
  unfolding load delete
  load-delete k j [] = ground arith
  load-delete k j ((i, w) ∷ m) =
      ground (arith, e.beq_iff k j, e.beq_iff i k, e.beq_iff i j, load-delete k j m)

  pub load-store_self : (k : K) (v : V) (m : Dict K V) → load k (store k v m) ≡ some v
  load-store_self k v m = ground (arith, load-store k k v m, key_refl k)

  -- A predicate on the entries.
  abbrev pub Every {ι} : (K → V → Type ι) → Dict K V → Type ι
  Every P [] = Unit {ι}
  Every P ((k, v) ∷ m) = P k v × Every P m

  pub Every-load {ι} :
      (P : K → V → Type ι) (k : K) (v : V) (m : Dict K V) → Every P m → load k m ≡ some v → P k v
  unfolding load
  Every-load P k v [] h p = cc
  Every-load P k v ((j, w) ∷ m) h p = elim (Bool-cases (e.beq j k)) [
    | inl same ↦ subst₂ P ((e.beq_iff j k).0 same) (some-injective w v (rw same at p)) h.0
    | inr other ↦ Every-load P k v m h.1 (rw other at p)
  ]

  pub Every-store {ι} :
      (P : K → V → Type ι) (k : K) (v : V) (m : Dict K V)
      → P k v
      → Every P m
      → Every P (store k v m)
  unfolding store
  Every-store P k v [] p h = (p, tt)
  Every-store P k v ((j, w) ∷ m) p h = elim (Bool-cases (e.beq j k)) [
    | inl same ↦ rw same (p, h.1)
    | inr other ↦ rw other (h.0, Every-store P k v m p h.1)
  ]

  pub Every-delete {ι} :
      (P : K → V → Type ι) (k : K) (m : Dict K V) → Every P m → Every P (delete k m)
  unfolding delete
  Every-delete P k [] h = tt
  Every-delete P k ((j, w) ∷ m) h = elim (Bool-cases (e.beq j k)) [
    | inl same ↦ rw same (Every-delete P k m h.1)
    | inr other ↦ rw other (h.0, Every-delete P k m h.1)
  ]

  -- Deleting during a `Range`: what the test rejects goes.
  unfoldable pub keep : (K → V → Bool) → Dict K V → Dict K V
  keep p [] = []
  keep p ((k, v) ∷ m) = let rest = keep p m in if p k v then (k, v) ∷ rest else rest

  pub Every-keep {ι} :
      (P : K → V → Type ι) (p : K → V → Bool) (m : Dict K V) → Every P m → Every P (keep p m)
  unfolding keep
  Every-keep P p [] h = tt
  Every-keep P p ((j, w) ∷ m) h = elim (Bool-cases (p j w)) [
    | inl kept ↦ rw kept (h.0, Every-keep P p m h.1)
    | inr gone ↦ rw gone (Every-keep P p m h.1)
  ]

  -- What is kept passed the test.
  pub keep-Every : (p : K → V → Bool) (m : Dict K V) → Every (λ k v. p k v ≡ true) (keep p m)
  unfolding keep
  keep-Every p [] = tt
  keep-Every p ((j, w) ∷ m) = elim (Bool-cases (p j w)) [
    | inl kept ↦ rw kept (kept, keep-Every p m)
    | inr gone ↦ rw gone (keep-Every p m)
  ]

  -- No key twice, as in every map that `store` builds.
  abbrev pub Unique : Dict K V → Type (ℓ ⊔ κ)
  Unique [] = Unit
  Unique ((k, v) ∷ m) = Every (λ j w. j ≢ k) m × Unique m

  pub store-Unique : (k : K) (v : V) (m : Dict K V) → Unique m → Unique (store k v m)
  unfolding store
  store-Unique k v [] h = (tt, tt)
  store-Unique k v ((j, w) ∷ m) h = elim (Bool-cases (e.beq j k)) [
    | inl same ↦ rw same (subst (λ t. Every (λ i u. i ≢ t) m) ((e.beq_iff j k).0 same) h.0, h.1)
    | inr other ↦ rw other (
      Every-store (λ i u. i ≢ j) k v m (λ eq. cc (other, (e.beq_iff j k).1 (sym eq))) h.0,
      store-Unique k v m h.1,
    )
  ]

  pub keep-Unique : (p : K → V → Bool) (m : Dict K V) → Unique m → Unique (keep p m)
  unfolding keep
  keep-Unique p [] h = tt
  keep-Unique p ((j, w) ∷ m) h = elim (Bool-cases (p j w)) [
    | inl kept ↦ rw kept (Every-keep (λ i u. i ≢ j) p m h.0, keep-Unique p m h.1)
    | inr gone ↦ rw gone (keep-Unique p m h.1)
  ]

  -- What a `Range` that deletes leaves under a key.
  abbrev pub passed : (K → V → Bool) → K → Option V → Option V
  passed p k none = none
  passed p k (some v) = if p k v then some v else none

  pub load-absent : (k : K) (m : Dict K V) → Every (λ j w. j ≢ k) m → load k m ≡ none
  unfolding load
  load-absent k [] h = refl
  load-absent k ((j, w) ∷ m) h = elim (Bool-cases (e.beq j k)) [
    | inl same ↦ absurd (h.0 ((e.beq_iff j k).0 same))
    | inr other ↦ rw other (load-absent k m h.1)
  ]

  pub load-keep :
      (p : K → V → Bool) (k : K) (m : Dict K V)
      → Unique m
      → load k (keep p m) ≡ passed p k (load k m)
  unfolding load keep
  load-keep p k [] h = refl
  load-keep p k ((j, w) ∷ m) h = elim (Bool-cases (e.beq j k)) [
    | inl same ↦
        let jk = (e.beq_iff j k).0 same in
        elim (Bool-cases (p j w)) [
          | inl kept ↦ rw (kept, same, (let t : p k w ≡ true = rw (← jk) kept in t)) refl
          | inr gone ↦
              rw (gone, same, (let t : p k w ≡ false = rw (← jk) gone in t))
                (load-absent k (keep p m)
                  (Every-keep (λ i u. i ≢ k) p m (subst (λ t. Every (λ i u. i ≢ t) m) jk h.0)))
        ]
    | inr other ↦ elim (Bool-cases (p j w)) [
      | inl kept ↦ rw (kept, other) (load-keep p k m h.1)
      | inr gone ↦ rw (gone, other) (load-keep p k m h.1)
    ]
  ]
