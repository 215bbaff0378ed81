-- ===== src/Conn/Joining.antt =====
-- The slots of a body that is being joined: which are filled, and when they are the body's pieces.
use gorigin.Prelude.{
  ℕ, zero, suc, ◌+◌, ◌≤◌, ◌<◌, ◌≡◌, ◌≢◌, ◌⊎◌, inl, inr, refl, ap, ◌∙◌, List, [], ◌∷◌, some, Bytes,
  length, get_or, set, replicate, All, arith,
}
use mathlib.Core.List.{flatten}
use gorigin.Conn.{gather}

pub count_of : Bytes → ℕ
count_of [] = 0
count_of (x ∷ xs) = 1

pub filled : List Bytes → ℕ
unfolding count_of
filled [] = 0
filled (b ∷ bs) = count_of b + filled bs

-- Each slot is still empty or holds its piece.
abbrev pub Partial : List Bytes → List Bytes → Type 0
Partial [] [] = Unit {0}
Partial [] (c ∷ cs) = ⊥
Partial (s ∷ ss) [] = ⊥
Partial (s ∷ ss) (c ∷ cs) = ((s ≡ []) ⊎ (s ≡ c)) × Partial ss cs

abbrev pub Distinct : List ℕ → Type 0
Distinct [] = Unit {0}
Distinct (i ∷ is) = All (λ j. j ≢ i) is × Distinct is

abbrev pub Vacant : List Bytes → List ℕ → Type 0
Vacant slots = All (λ i. get_or slots i [] ≡ [])

pub set-Partial :
    (slots cs : List Bytes) (i : ℕ) → Partial slots cs → Partial (set slots i (get_or cs i [])) cs
set-Partial [] [] i h = tt
set-Partial [] (c ∷ cs) i h = absurd h
set-Partial (s ∷ ss) [] i h = absurd h
set-Partial (s ∷ ss) (c ∷ cs) zero h = (inr refl, h.1)
set-Partial (s ∷ ss) (c ∷ cs) (suc i) h = (h.0, set-Partial ss cs i h.1)

pub replicate-Partial : (cs : List Bytes) → Partial (replicate (length cs) []) cs
replicate-Partial [] = tt
replicate-Partial (c ∷ cs) = (inl refl, replicate-Partial cs)

pub filled-replicate : (k : ℕ) → filled (replicate k []) ≡ 0
unfolding filled
filled-replicate zero = refl
filled-replicate (suc k) = omega (arith, filled-replicate k)

pub filled-set :
    (slots : List Bytes) (i : ℕ) (v : Bytes)
    → i < length slots
    → get_or slots i [] ≡ []
    → v ≢ []
    → filled (set slots i v) ≡ filled slots + 1
unfolding filled count_of
filled-set [] i v h e n = absurd (omega arith)
filled-set (s ∷ ss) zero [] h e n = absurd (n refl)
filled-set (s ∷ ss) zero (x ∷ xs) h e n = rw e (omega arith)
filled-set (s ∷ ss) (suc i) v h e n = omega (arith, filled-set ss i v (omega arith) e n)

pub filled-le : (slots : List Bytes) → filled slots ≤ length slots
unfolding filled count_of
filled-le [] = omega arith
filled-le ([] ∷ ss) = omega (arith, filled-le ss)
filled-le ((x ∷ xs) ∷ ss) = omega (arith, filled-le ss)

get_or-set_ne :
    (slots : List Bytes) (i j : ℕ) (v : Bytes)
    → j ≢ i
    → get_or (set slots i v) j [] ≡ get_or slots j []
get_or-set_ne [] i j v h = refl
get_or-set_ne (s ∷ ss) zero zero v h = absurd (h refl)
get_or-set_ne (s ∷ ss) zero (suc j) v h = refl
get_or-set_ne (s ∷ ss) (suc i) zero v h = refl
get_or-set_ne (s ∷ ss) (suc i) (suc j) v h = get_or-set_ne ss i j v (λ e. h (ap suc e))

pub set-Vacant :
    (slots : List Bytes) (i : ℕ) (v : Bytes) (js : List ℕ)
    → All (λ j. j ≢ i) js
    → Vacant slots js
    → Vacant (set slots i v) js
set-Vacant slots i v [] d h = tt
set-Vacant slots i v (j ∷ js) d h =
    (get_or-set_ne slots i j v d.0 ∙ h.0, set-Vacant slots i v js d.1 h.1)

pub replicate-Vacant : (k : ℕ) (js : List ℕ) → Vacant (replicate k []) js
replicate-Vacant k [] = tt
replicate-Vacant k (j ∷ js) = (at k j, replicate-Vacant k js)
  where
    at : (k j : ℕ) → get_or {A = Bytes} (replicate k []) j [] ≡ []
    at zero j = refl
    at (suc k) zero = refl
    at (suc k) (suc j) = at k j

-- When all slots are filled they are the pieces.
pub filled-Partial :
    (slots cs : List Bytes) → Partial slots cs → filled slots ≡ length slots → slots ≡ cs
unfolding filled count_of
filled-Partial [] [] h e = refl
filled-Partial [] (c ∷ cs) h e = absurd h
filled-Partial (s ∷ ss) [] h e = absurd h
filled-Partial ([] ∷ ss) (c ∷ cs) h e = absurd (omega (arith, filled-le ss))
filled-Partial ((x ∷ xs) ∷ ss) (c ∷ cs) (inl e', h) e = absurd (cc)
filled-Partial ((x ∷ xs) ∷ ss) (c ∷ cs) (inr e', h) e =
    cc (e', filled-Partial ss cs h (omega arith))

pub gather-flatten : (cs : List Bytes) → All (λ c. c ≢ []) cs → gather cs ≡ some (flatten cs)
unfolding gather flatten
gather-flatten [] h = refl
gather-flatten ([] ∷ cs) h = absurd (h.0 refl)
gather-flatten ((x ∷ xs) ∷ cs) h = rw (gather-flatten cs h.1) refl

pub get_or-nonempty :
    (cs : List Bytes) (i : ℕ) → All (λ c. c ≢ []) cs → i < length cs → get_or cs i [] ≢ []
get_or-nonempty [] i h p = absurd (omega arith)
get_or-nonempty (c ∷ cs) zero h p = h.0
get_or-nonempty (c ∷ cs) (suc i) h p = get_or-nonempty cs i h.1 (omega arith)
