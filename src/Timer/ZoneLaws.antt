-- ===== src/Timer/ZoneLaws.antt =====
-- Which zones `SetTimeZone` takes, and what it makes of them.
use gorigin.Prelude.{
  ℕ, zero, suc, ◌+◌, ◌-◌, ◌*◌, ◌^◌, ◌/◌, ◌%◌, ◌≤◌, ◌<◌, ◌≡◌, ◌⊎◌, refl, inl, inr, ℤ, pos, negsuc,
  neg, List, [], ◌∷◌, ◌++◌, Option, none, some, Bytes, true, false, ltb, leb, ◌==◌, if◌then◌else◌,
  bytes_beq, Bool-cases, Option-cases, arith,
}
use gorigin.Timer.{TimerData}
use gorigin.Timer.Zone.{Error, split_colons, digits, parse_uint, set_parts, set_time_zone, utc}

abbrev pub size : ℤ → ℕ
size (pos n) = n
size (negsuc n) = n + 1

size-neg : (n : ℕ) → size (neg n) ≡ n
size-neg zero = refl
size-neg (suc n) = omega arith

-- A day is never reached, and a refused text changes nothing.
abbrev Sane : TimerData → TimerData × Option Error → Type 0
Sane t r =
    ((r.1 ≡ none) × (size r.0.zone ≤ 23 * 3600 + 59 * 60)) ⊎ ((e : Error) × (r ≡ (t, some e)))

set_parts-Sane :
    (t : TimerData) (sign : ℕ) (hour minute : Bytes) → Sane t (set_parts t sign hour minute)
unfolding set_parts
set_parts-Sane t sign hour minute = elim (Option-cases (parse_uint hour)) [
  | inl e ↦ rw (e, set_parts) (inr (_, refl))
  | inr (h, e) ↦ elim (Bool-cases (ltb 23 h)) [
    | inl more ↦ rw (e, set_parts, more) (inr (_, refl))
    | inr few ↦ elim (Option-cases (parse_uint minute)) [
      | inl e' ↦ rw (e, set_parts, few, e') (inr (_, refl))
      | inr (m, e') ↦ elim (Bool-cases (ltb 59 m)) [
        | inl more ↦ rw (e, set_parts, few, e', more) (inr (_, refl))
        | inr less ↦ elim (Bool-cases (sign == 43)) [
          | inl plus ↦ rw (e, set_parts, few, e', less, plus) (inl (refl, ground arith))
          | inr minus ↦
              rw (e, set_parts, few, e', less, minus)
                (inl (refl, ground (arith, size-neg (h * 3600 + m * 60))))
        ]
      ]
    ]
  ]
]

split-Sane :
    (t : TimerData) (sign : ℕ) (rest : Bytes) (rows : List Bytes)
    → split_colons rest ≡ rows
    → ((sign == 43) ≡ true) ⊎ ((sign == 45) ≡ true)
    → bytes_beq (sign ∷ rest) utc ≡ false
    → Sane t (set_time_zone t (sign ∷ rest))
unfolding set_time_zone
split-Sane t sign rest [] e h u = elim h [
  | inl p ↦ rw (p, u, e, set_time_zone) (inr (_, refl))
  | inr m ↦ elim (Bool-cases (sign == 43)) [
    | inl p ↦ rw (p, u, e, set_time_zone) (inr (_, refl))
    | inr p ↦ rw (p, m, u, e, set_time_zone) (inr (_, refl))
  ]
]
split-Sane t sign rest (a ∷ []) e h u = elim h [
  | inl p ↦ rw (p, u, e, set_time_zone) (inr (_, refl))
  | inr m ↦ elim (Bool-cases (sign == 43)) [
    | inl p ↦ rw (p, u, e, set_time_zone) (inr (_, refl))
    | inr p ↦ rw (p, m, u, e, set_time_zone) (inr (_, refl))
  ]
]
split-Sane t sign rest (a ∷ b ∷ []) e h u = elim h [
  | inl p ↦ rw (p, u, e, set_time_zone) (set_parts-Sane t sign a b)
  | inr m ↦ elim (Bool-cases (sign == 43)) [
    | inl p ↦ rw (p, u, e, set_time_zone) (set_parts-Sane t sign a b)
    | inr p ↦ rw (p, m, u, e, set_time_zone) (set_parts-Sane t sign a b)
  ]
]
split-Sane t sign rest (a ∷ b ∷ c ∷ rows) e h u = elim h [
  | inl p ↦ rw (p, u, e, set_time_zone) (inr (_, refl))
  | inr m ↦ elim (Bool-cases (sign == 43)) [
    | inl p ↦ rw (p, u, e, set_time_zone) (inr (_, refl))
    | inr p ↦ rw (p, m, u, e, set_time_zone) (inr (_, refl))
  ]
]

-- `SetTimeZone` either refuses a text, and then changes nothing, or sets a zone whose distance is at
-- most 23 hours and 59 minutes.
pub size-set_time_zone :
    (t : TimerData) (text : Bytes)
    → (((set_time_zone t text).1 ≡ none)
        × (size (set_time_zone t text).0.zone ≤ 23 * 3600 + 59 * 60))
      ⊎ ((e : Error) × (set_time_zone t text ≡ (t, some e)))
unfolding set_time_zone
size-set_time_zone t [] = inr (_, refl)
size-set_time_zone t (sign ∷ rest) = elim (Bool-cases (sign == 43)) [
  | inl p ↦ elim (Bool-cases (bytes_beq (sign ∷ rest) utc)) [
    | inl u ↦ rw (p, u, set_time_zone) (inl (refl, omega arith))
    | inr u ↦ split-Sane t sign rest (split_colons rest) refl (inl p) u
  ]
  | inr p ↦ elim (Bool-cases (sign == 45)) [
    | inl m ↦ elim (Bool-cases (bytes_beq (sign ∷ rest) utc)) [
      | inl u ↦ rw (p, m, u, set_time_zone) (inl (refl, omega arith))
      | inr u ↦ split-Sane t sign rest (split_colons rest) refl (inr m) u
    ]
    | inr m ↦ rw (p, m, set_time_zone) (inr (_, refl))
  ]
]

abbrev pub two_digits : ℕ → Bytes
two_digits n = (48 + n / 10) ∷ (48 + n % 10) ∷ []

parse_uint-two_digits : (n : ℕ) → n < 60 → parse_uint (two_digits n) ≡ some n
unfolding parse_uint digits
parse_uint-two_digits n h =
    let a : leb 48 (48 + n / 10) ≡ true = ground arith in
    let b : leb (48 + n / 10) 57 ≡ true = ground arith in
    let c : leb 48 (48 + n % 10) ≡ true = ground arith in
    let d : leb (48 + n % 10) 57 ≡ true = ground arith in
    let x : 0 * 10 + (48 + n / 10 - 48) ≡ n / 10 = omega arith in
    let y : (n / 10) * 10 + (48 + n % 10 - 48) ≡ n = omega arith in
    let e : ltb (n / 10) (2 ^ 64) ≡ true = ground arith in
    let f : ltb n (2 ^ 64) ≡ true = ground arith in rw (a, b, c, d, x, y, e, f) refl

split_colons-two_digits :
    (h m : ℕ)
    → h < 60
    → m < 60
    → split_colons (two_digits h ++ (58 ∷ two_digits m)) ≡ two_digits h ∷ two_digits m ∷ []
unfolding split_colons
split_colons-two_digits h m lh lm =
    let a : ((48 + h / 10) == 58) ≡ false = ground arith in
    let b : ((48 + h % 10) == 58) ≡ false = ground arith in
    let c : ((48 + m / 10) == 58) ≡ false = ground arith in
    let d : ((48 + m % 10) == 58) ≡ false = ground arith in rw (a, b, c, d) refl

set_parts-two_digits :
    (t : TimerData) (sign h m : ℕ)
    → h ≤ 23
    → m ≤ 59
    → set_parts t sign (two_digits h) (two_digits m) ≡ (
      record t { zone = (if sign == 43 then pos (h * 3600 + m * 60) else neg (h * 3600 + m * 60)) },
      none,
    )
unfolding set_parts
set_parts-two_digits t sign h m lh lm =
    let few : ltb 23 h ≡ false = ground arith in
    let less : ltb 59 m ≡ false = ground arith in
    rw
      (
        parse_uint-two_digits h (omega arith),
        set_parts,
        few,
        parse_uint-two_digits m (omega arith),
        less,
      )
      refl

-- "-hh:mm", with two digits each and within the bounds, sets the zone to so many seconds west.
pub set_time_zone-west :
    (t : TimerData) (h m : ℕ)
    → h ≤ 23
    → m ≤ 59
    → set_time_zone t (45 ∷ (two_digits h ++ (58 ∷ two_digits m)))
      ≡ (record t { zone = neg (h * 3600 + m * 60) }, none)
unfolding set_time_zone set_parts bytes_beq
set_time_zone-west t h m lh lm =
    let apart : bytes_beq (45 ∷ (two_digits h ++ (58 ∷ two_digits m))) utc ≡ false = refl in
    rw (apart, split_colons-two_digits h m (omega arith) (omega arith), set_time_zone)
      (set_parts-two_digits t 45 h m lh lm)
