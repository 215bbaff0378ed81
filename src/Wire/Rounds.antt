-- ===== src/Wire/Rounds.antt =====
-- The bodies that a list of frames stands for, and the places of the rounds that make the frames.
use gorigin.Prelude.{
  ℕ, zero, suc, ◌+◌, ◌-◌, ◌*◌, ◌<◌, ◌≤◌, ◌≡◌, refl, ap, ◌∙◌, List, [], ◌∷◌, ◌++◌, Bytes, length,
  take, drop, slice, arith, length-take, length-drop, take_all, drop-drop,
}
use gorigin.Wire.{NetworkBuffer}
use gorigin.Wire.Parse.{JoinBodyData, parse, accepted}
use native.Mathlib.Nat.{add-zero}
use gorigin.Wire.Chunks.{chunks}

-- The frames are read back as the given bodies, and each is as long as the buffer.
abbrev pub Reads : NetworkBuffer → List Bytes → List JoinBodyData → Type 0
Reads n [] [] = Unit {0}
Reads n [] (j ∷ js) = ⊥
Reads n (f ∷ fs) [] = ⊥
Reads n (f ∷ fs) (j ∷ js) = (length f ≡ n.total_size) × (parse n f ≡ accepted j) × Reads n fs js

-- The chunks as bodies, numbered from `i`.
unfoldable pub pieces : ℕ → ℕ → ℕ → ℕ → List Bytes → List JoinBodyData
pieces num fid count i [] = []
pieces num fid count i (c ∷ cs) =
    record { uuid = num; func = fid; buck = count; sort = i; content = c }
    ∷ pieces num fid count (i + 1) cs

pub Reads-append :
    (n : NetworkBuffer) (fs gs : List Bytes) (js ks : List JoinBodyData)
    → Reads n fs js
    → Reads n gs ks
    → Reads n (fs ++ gs) (js ++ ks)
Reads-append n [] gs [] ks h k = k
Reads-append n [] gs (j ∷ js) ks h k = absurd h
Reads-append n (f ∷ fs) gs [] ks h k = absurd h
Reads-append n (f ∷ fs) gs (j ∷ js) ks h k = (h.0, h.1, Reads-append n fs gs js ks h.2 k)

pub chunks_snoc :
    (split k : ℕ) (bts : Bytes)
    → chunks split (suc k) bts ≡ chunks split k bts ++ (take split (drop (split * k) bts) ∷ [])
unfolding chunks
chunks_snoc split zero bts =
    ap (λ t. take split (drop t bts) ∷ []) {x = 0} {y = split * 0} (omega arith)
chunks_snoc split (suc k) bts = ap (◌∷◌ (take split bts)) (
    chunks_snoc split k (drop split bts)
    ∙ ap (λ t. chunks split k (drop split bts) ++ (take split t ∷ []))
        (drop-drop (split * k) split bts
          ∙ ap (λ t. drop t bts) {x = split + split * k} {y = split * suc k} (omega arith)))

pub sum_suc : (i k : ℕ) → i + suc k ≡ i + 1 + k
sum_suc i k = omega arith

pub mul_pred : (s i : ℕ) → 0 < i → s * (i - 1) + s ≡ s * i
mul_pred s zero h = absurd (omega arith)
mul_pred s (suc j) h = omega (arith, ap (λ (t : ℕ). s * t) {x = suc j - 1} {y = j} (omega arith))

-- The slice of round `i`.
pub slice_round :
    (s i : ℕ) (bts : Bytes)
    → 0 < i
    → slice bts (s * (i - 1)) (s * i) ≡ take s (drop (s * (i - 1)) bts)
slice_round s i bts h =
    ap (λ t. take t (drop (s * (i - 1)) bts)) {x = s * i - s * (i - 1)} {y = s}
      (omega (arith, mul_pred s i h))

pub drop_round :
    (s i : ℕ) (bts : Bytes) → 0 < i → drop s (drop (s * (i - 1)) bts) ≡ drop (s * (i + 1 - 1)) bts
drop_round s i bts h =
    drop-drop s (s * (i - 1)) bts
    ∙ ap (λ t. drop t bts) {x = s * (i - 1) + s} {y = s * (i + 1 - 1)}
        (omega (arith, mul_pred s i h, ap (λ (t : ℕ). s * t) {x = i + 1 - 1} {y = i} (omega arith)))

pub round_fits :
    (s i k : ℕ) (bts : Bytes)
    → 0 < i
    → s * (i - 1 + suc k) ≤ length bts
    → (s * (i + 1 - 1 + k) ≤ length bts) × (length (take s (drop (s * (i - 1)) bts)) ≡ s)
round_fits s i k bts p h =
    let e : s * (i - 1 + suc k) ≡ s * (i - 1) + s + s * k = omega arith in
    let e' : s * (i + 1 - 1 + k) ≡ s * (i - 1) + s + s * k =
      ap (λ (t : ℕ). s * t) {x = i + 1 - 1 + k} {y = i - 1 + suc k} (omega arith) ∙ e in
    (
      omega arith,
      omega (arith, length-take s (drop (s * (i - 1)) bts), length-drop (s * (i - 1)) bts),
    )

pub pieces-append :
    (num fid count i : ℕ) (cs : List Bytes) (c : Bytes)
    → pieces num fid count i (cs ++ (c ∷ []))
      ≡ pieces num fid count i cs
        ++ (record { uuid = num; func = fid; buck = count; sort = i + length cs; content = c } ∷ [])
unfolding pieces
pieces-append num fid count i [] c = rw (add-zero i)
pieces-append num fid count i (b ∷ cs) c =
    rw (sum_suc i (length cs), pieces-append num fid count (i + 1) cs c) refl

pub first_slice : (s : ℕ) (bts : Bytes) → slice bts (s * 0) (s * 1) ≡ take s bts
first_slice s bts =
    ap (λ t. take t (drop (s * 0) bts)) {x = s * 1 - s * 0} {y = s} (omega arith)
    ∙ ap (λ t. take s (drop t bts)) {x = s * 0} {y = 0} (omega arith)

pub one_drop : (s : ℕ) (bts : Bytes) → drop (s * 1) bts ≡ drop s bts
one_drop s bts = ap (λ t. drop t bts) {x = s * 1} {y = s} (omega arith)

pub last_slice :
    (s count m : ℕ) (bts : Bytes)
    → count ≡ suc (suc m)
    → length (drop (s * suc m) bts) ≤ s
    → take s (drop (s * suc m) bts) ≡ drop (s * (count - 1)) bts
last_slice s count m bts e h =
    take_all s _ h ∙ ap (λ t. drop (s * t) bts) {x = suc m} {y = count - 1} (omega arith)
