-- ===== src/Conn/Midway.antt =====
-- The slots of an open body, between two of its pieces.
use gorigin.Prelude.{
  ℕ, ◌+◌, ◌<◌, ◌≡◌, ◌≢◌, ap, ◌∙◌, List, [], ◌∷◌, some, Bytes, length, get_or, set, replicate, All,
  arith, length-set, length-replicate,
}
use mathlib.Core.List.{flatten}
use gorigin.Conn.{gather}
use gorigin.Conn.Joining.{
  filled, Partial, Distinct, Vacant, set-Partial, replicate-Partial, filled-replicate, filled-set,
  set-Vacant, replicate-Vacant, filled-Partial, gather-flatten, get_or-nonempty,
}

module _ (cs : List Bytes) where
  abbrev pub Full : Type 0
  Full = All (λ c. c ≢ []) cs

  -- The state between two pieces: `r` slots are filled, and those of the pieces to come are empty.
  pub record Midway (slots : List Bytes) (r : ℕ) (is : List ℕ) : Type 0 where
    pub size : length slots ≡ length cs
    part : Partial slots cs
    seen : filled slots ≡ r
    pub vacant : Vacant slots is
    distinct : Distinct is
    pub bounded : All (λ i. i < length cs) is
    pub left : length is + r ≡ length cs

  pub Midway-step :
      (slots : List Bytes) (r i : ℕ) (is : List ℕ)
      → Full
      → Midway slots r (i ∷ is)
      → Midway (set slots i (get_or cs i [])) (r + 1) is
  Midway-step slots r i is full m = record {
    size = length-set slots i (get_or cs i []) ∙ m.size;
    part = set-Partial slots cs i m.part;
    seen =
        filled-set slots i (get_or cs i []) (omega (arith, m.bounded.0, m.size)) m.vacant.0
          (get_or-nonempty cs i full m.bounded.0)
        ∙ ap (λ t. t + 1) m.seen;
    vacant = set-Vacant slots i (get_or cs i []) is m.distinct.0 m.vacant.1;
    distinct = m.distinct.1;
    bounded = m.bounded.1;
    left = omega (arith, m.left);
  }

  pub Midway-full :
      (slots : List Bytes) (r : ℕ) → Full → Midway slots r [] → gather slots ≡ some (flatten cs)
  Midway-full slots r full m =
      ap gather (filled-Partial slots cs m.part (omega (arith, m.size, m.seen, m.left)))
      ∙ gather-flatten cs full

  pub Midway-start :
      (is : List ℕ)
      → Distinct is
      → All (λ i. i < length cs) is
      → length is ≡ length cs
      → Midway (replicate (length cs) []) 0 is
  Midway-start is d b h = record {
    size = length-replicate (length cs) [];
    part = replicate-Partial cs;
    seen = filled-replicate (length cs);
    vacant = replicate-Vacant (length cs) is;
    distinct = d;
    bounded = b;
    left = omega arith;
  }
