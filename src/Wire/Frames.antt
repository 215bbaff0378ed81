-- ===== src/Wire/Frames.antt =====
-- The common shape of the frames, and what `parse` makes of a frame of that shape.
use gorigin.Prelude.{
  ℕ, ◌+◌, ◌-◌, ◌*◌, ◌/◌, ◌%◌, ◌^◌, ◌<◌, ◌≡◌, [], ◌∷◌, ◌++◌, some, true, Bytes, length, get_elem?,
  ◌==◌, ==_iff, arith, length-append, get_elem?-append_at,
}
use gorigin.Wire.{NetworkBuffer, IsGeometry, byte}
use gorigin.Wire.Parse.{JoinBodyData, expect, short_at, parse, parse_fields, parse_model}

-- A frame with the model byte `t`, the four bytes `a` to `d` behind the function, and a body.
abbrev pub framed : ℕ → ℕ → ℕ → ℕ → ℕ → ℕ → ℕ → Bytes → Bytes
framed num fid t a b c d payload =
    1
    ∷ 0
    ∷ byte (num / 2 ^ 16 % 256)
    ∷ byte (num / 2 ^ 8 % 256)
    ∷ byte (num % 256)
    ∷ t
    ∷ byte (fid / 256)
    ∷ byte (fid % 256)
    ∷ a
    ∷ b
    ∷ c
    ∷ d
    ∷ (payload ++ (0 ∷ 1 ∷ []))

abbrev stem : ℕ → ℕ → ℕ → ℕ → ℕ → ℕ → ℕ → Bytes → Bytes
stem num fid t a b c d payload =
    1
    ∷ 0
    ∷ byte (num / 2 ^ 16 % 256)
    ∷ byte (num / 2 ^ 8 % 256)
    ∷ byte (num % 256)
    ∷ t
    ∷ byte (fid / 256)
    ∷ byte (fid % 256)
    ∷ a
    ∷ b
    ∷ c
    ∷ d
    ∷ payload

abbrev pub unjoined : ℕ → ℕ → JoinBodyData
unjoined num fid = record { uuid = num; func = fid; buck = 0; sort = 0; content = [] }

length-framed :
    (num fid t a b c d : ℕ) (payload : Bytes)
    → length (framed num fid t a b c d payload) ≡ length payload + 14
length-framed num fid t a b c d payload = omega (arith, length-append payload (0 ∷ 1 ∷ []))

uuid_bytes :
    (num : ℕ)
    → num < 2 ^ 24
    → byte (num / 2 ^ 16 % 256) * 2 ^ 16 + byte (num / 2 ^ 8 % 256) * 2 ^ 8 + byte (num % 256) ≡ num
uuid_bytes num h = omega arith

pub short_bytes : (x : ℕ) → x < 65536 → byte (x / 256) * 2 ^ 8 + byte (x % 256) ≡ x
short_bytes x h = omega arith

pub short_bytes' : (x : ℕ) → x < 65536 → byte (x / 2 ^ 8 % 256) * 2 ^ 8 + byte (x % 256) ≡ x
short_bytes' x h = omega arith

module _ (n : NetworkBuffer) (g : IsGeometry n) where
  pub parse-framed :
      (num fid t a b c d : ℕ) (payload : Bytes)
      → num < 2 ^ 24
      → fid < 65536
      → length payload ≡ n.body_split
      → parse n (framed num fid t a b c d payload)
        ≡ parse_model n (framed num fid t a b c d payload) t (unjoined num fid)
  unfolding parse expect parse_fields short_at
  parse-framed num fid t a b c d payload hn hf hl =
      let f = framed num fid t a b c d payload in
      let len : length f ≡ n.body_split + 14 =
        omega (arith, hl, length-framed num fid t a b c d payload) in
      let same : (length f == n.total_size) ≡ true =
        (==_iff (length f) n.total_size).1 (omega (arith, g.total)) in
      let e1 : get_elem? f (length f - 1) ≡ some 1 =
        get_elem?-append_at (stem num fid t a b c d payload) (0 ∷ 1 ∷ []) (length f - 1) 1
          (omega arith) in
      let e2 : get_elem? f (length f - 2) ≡ some 0 =
        get_elem?-append_at (stem num fid t a b c d payload) (0 ∷ 1 ∷ []) (length f - 2) 0
          (omega arith) in
      rw (same, e1, e2, uuid_bytes num hn, short_bytes fid hf)
