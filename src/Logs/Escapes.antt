-- ===== src/Logs/Escapes.antt =====
-- logs/log.go: the three calls of `strings.Replace` in `sendChann`, which take back the escapes that
-- the encoder of JSON makes of `<`, `>` and `&`.
use gorigin.Prelude.{
  ℕ, zero, suc, ◌≡◌, refl, sym, ap, [], ◌∷◌, ◌++◌, Bytes, Bool, true, false, ◌&&◌, ◌==◌, ◌-◌, inl,
  inr, subst, ==_iff, if◌then◌else◌, Bool-cases, length,
}
use gorigin.Prelude.{All}

-- Whether a text begins with another.
unfoldable pub begins : Bytes → Bytes → Bool
begins [] s = true
begins (x ∷ xs) [] = false
begins (x ∷ xs) (y ∷ ys) = (x == y) && begins xs ys

-- `strings.Replace(s, old, by, -1)` for an `old` that is not empty; `skip` bytes of a match are left.
unfoldable pub replace_from : Bytes → Bytes → ℕ → Bytes → Bytes
replace_from old by skip [] = []
replace_from old by (suc skip) (c ∷ s) = replace_from old by skip s
replace_from old by zero (c ∷ s) =
    let matched = replace_from old by (length old - 1) s in
    let other = replace_from old by 0 s in if begins old (c ∷ s) then by ++ matched else c ∷ other

-- The escape `\u003c`, say, with its last two characters given.
abbrev pub escaped : ℕ → ℕ → Bytes
escaped x y = 92 ∷ 117 ∷ 48 ∷ 48 ∷ x ∷ y ∷ []

unfoldable pub unescape : Bytes → Bytes
unescape s =
    let a = replace_from (escaped 51 99) (60 ∷ []) 0 s in
    let b = replace_from (escaped 51 101) (62 ∷ []) 0 a in
    replace_from (escaped 50 54) (38 ∷ []) 0 b

-- What the encoder writes for a byte of a text, as far as the three characters go; the flags say which
-- of them it escapes.
abbrev pub escape_byte : Bool → Bool → Bool → ℕ → Bytes
escape_byte lt gt amp c =
    if lt && (c == 60)
    then escaped 51 99
    else if gt && (c == 62)
    then escaped 51 101
    else if amp && (c == 38)
    then escaped 50 54
    else c ∷ []

unfoldable pub escape : Bool → Bool → Bool → Bytes → Bytes
escape lt gt amp [] = []
escape lt gt amp (c ∷ s) = escape_byte lt gt amp c ++ escape lt gt amp s

abbrev pub NoBackslash : ℕ → Type 0
NoBackslash c = (92 == c) ≡ false

-- A byte that is a given one, or not.
byte_cases {ℓ} : (P : ℕ → Type ℓ) (c d : ℕ) → P d → ((c == d) ≡ false → P c) → P c
byte_cases P c d same other = elim (Bool-cases (c == d)) [
  | inl e ↦ subst P (sym ((==_iff c d).0 e)) same
  | inr e ↦ other e
]

-- Each call takes back one of the three escapes, and leaves the others.
replace_lt :
    (s : Bytes)
    → All NoBackslash s
    → replace_from (escaped 51 99) (60 ∷ []) 0 (escape true true true s) ≡ escape false true true s
unfolding replace_from escape begins
replace_lt [] h = refl
replace_lt (c ∷ s) (h, hs) =
    let ih = replace_lt s hs in
    let P : ℕ → Type 0 = λ c.
      replace_from (escaped 51 99) (60 ∷ []) 0 (escape true true true (c ∷ s))
      ≡ escape false true true (c ∷ s) in
    byte_cases P c 60 (ap (◌∷◌ 60) ih) (λ e60.
      byte_cases P c 62 (ap (◌++◌ (escaped 51 101)) ih) (λ e62.
        byte_cases P c 38 (ap (◌++◌ (escaped 50 54)) ih)
          (λ e38. rw (e60, e62, e38, h) (ap (◌∷◌ c) ih))))

replace_gt :
    (s : Bytes)
    → All NoBackslash s
    → replace_from (escaped 51 101) (62 ∷ []) 0 (escape false true true s)
      ≡ escape false false true s
unfolding replace_from escape begins
replace_gt [] h = refl
replace_gt (c ∷ s) (h, hs) =
    let ih = replace_gt s hs in
    let P : ℕ → Type 0 = λ c.
      replace_from (escaped 51 101) (62 ∷ []) 0 (escape false true true (c ∷ s))
      ≡ escape false false true (c ∷ s) in
    byte_cases P c 62 (ap (◌∷◌ 62) ih) (λ e62.
      byte_cases P c 38 (ap (◌++◌ (escaped 50 54)) ih) (λ e38. rw (e62, e38, h) (ap (◌∷◌ c) ih)))

replace_amp :
    (s : Bytes)
    → All NoBackslash s
    → replace_from (escaped 50 54) (38 ∷ []) 0 (escape false false true s) ≡ s
unfolding replace_from escape begins
replace_amp [] h = refl
replace_amp (c ∷ s) (h, hs) =
    let ih = replace_amp s hs in
    let P : ℕ → Type 0 =
      λ c. replace_from (escaped 50 54) (38 ∷ []) 0 (escape false false true (c ∷ s)) ≡ c ∷ s in
    byte_cases P c 38 (ap (◌∷◌ 38) ih) (λ e38. rw (e38, h) (ap (◌∷◌ c) ih))

-- What `sendChann` writes of a text in which the encoder has escaped `<`, `>` and `&`, if the text has
-- no backslash, is that text.
pub unescape-escape : (s : Bytes) → All NoBackslash s → unescape (escape true true true s) ≡ s
unfolding unescape
unescape-escape s h = rw (replace_lt s h, replace_gt s h) (replace_amp s h)
