-- ===== src/Wire/Chunks.antt =====
-- The body of a long request as its chunks, and the frames that `make_req_body` makes of them.
use gorigin.Prelude.{
  ℕ, zero, suc, ◌+◌, ◌-◌, ◌*◌, ◌/◌, ◌%◌, ◌<◌, ◌≤◌, ◌≡◌, refl, ap, ◌∙◌, List, [], ◌∷◌, ◌++◌, Bytes,
  length, take, drop, All, ltb, ltb→lt, arith, Bool-cases, inl, inr, length-drop, take-append-drop,
  ◌≢◌,
}
use mathlib.Core.List.{flatten}
use native.Mathlib.Nat.{div-add-mod, mod-lt}
use gorigin.Wire.Encode.{chunk_count, chunk_last}

-- `k` pieces of `split` bytes.
unfoldable pub chunks : ℕ → ℕ → Bytes → List Bytes
chunks split zero bts = []
chunks split (suc k) bts = take split bts ∷ chunks split k (drop split bts)

pub length-chunks : (split k : ℕ) (bts : Bytes) → length (chunks split k bts) ≡ k
unfolding chunks
length-chunks split zero bts = refl
length-chunks split (suc k) bts = ap suc (length-chunks split k (drop split bts))

-- Put together again the chunks are the body.
pub flatten-chunks :
    (split k : ℕ) (bts : Bytes) → length bts ≤ split * k → flatten (chunks split k bts) ≡ bts
unfolding chunks flatten
flatten-chunks split zero [] h = refl
flatten-chunks split zero (x ∷ bts) h = absurd (omega arith)
flatten-chunks split (suc k) bts h =
    ap (◌++◌ (take split bts))
      (flatten-chunks split k (drop split bts) (grind (arith, length-drop split bts)))
    ∙ take-append-drop split bts

take_ne_nil : (k : ℕ) (xs : Bytes) → 0 < k → 0 < length xs → take k xs ≢ []
take_ne_nil zero xs p h = absurd (omega arith)
take_ne_nil (suc k) [] p h = absurd (omega arith)
take_ne_nil (suc k) (x ∷ xs) p h = λ e. cc

-- No chunk is empty.
pub chunks-nonempty :
    (split k : ℕ) (bts : Bytes)
    → 0 < split
    → split * (k - 1) < length bts
    → All (λ c. c ≢ []) (chunks split k bts)
unfolding chunks
chunks-nonempty split zero bts p h = tt
chunks-nonempty split (suc zero) bts p h = (take_ne_nil split bts p (omega arith), tt)
chunks-nonempty split (suc (suc k)) bts p h = (
  take_ne_nil split bts p (grind arith),
  chunks-nonempty split (suc k) (drop split bts) p (grind (arith, length-drop split bts)),
)

quot_pos : (len split q r : ℕ) → len ≡ q * split + r → r < split → split < len → 0 < q
quot_pos len split zero r e p h = absurd (omega arith)
quot_pos len split (suc q) r e p h = omega arith

abbrev Cut : ℕ → ℕ → ℕ → ℕ → Type 0
Cut len split count last =
    (2 ≤ count) × (len ≡ split * (count - 1) + last) × (0 < last) × (last ≤ split)

uneven :
    (len split q r : ℕ) → split * q + r ≡ len → 0 < q → 0 < r → r < split → Cut len split (q + 1) r
uneven len split q r e hq hr hs = (
  omega arith,
  omega (arith, ap (λ (t : ℕ). split * t) {x = q + 1 - 1} {y = q} (omega arith)),
  hr,
  omega arith,
)

even :
    (len split q r : ℕ)
    → split * q + r ≡ len
    → 0 < split
    → split < len
    → r ≡ 0
    → Cut len split q split
even len split zero r e p h z = absurd (omega arith)
even len split (suc zero) r e p h z = absurd (omega arith)
even len split (suc (suc q)) r e p h z = (
  omega arith,
  omega (arith, ap (λ (t : ℕ). split * t) {x = suc (suc q) - 1} {y = suc q} (omega arith)),
  p,
  omega arith,
)

pub chunk_count_bounds :
    (len split : ℕ)
    → 0 < split
    → split < len
    → (2 ≤ chunk_count len split)
      × (len ≡ split * (chunk_count len split - 1) + chunk_last len split)
      × (0 < chunk_last len split)
      × (chunk_last len split ≤ split)
unfolding chunk_count chunk_last
chunk_count_bounds len split p h =
    let whole = div-add-mod len split in
    let part = mod-lt len p in
    let some_whole : 0 < len / split =
      quot_pos len split (len / split) (len % split) (omega arith) part h in
    elim (Bool-cases (ltb 0 (len % split))) [
      | inl e ↦ rw e (
          uneven len split (len / split) (len % split) whole some_whole (ltb→lt 0 (len % split) e)
            part)
      | inr e ↦ rw e (even len split (len / split) (len % split) whole p h (ground arith))
    ]
