-- ===== src/Monitor/Sums.antt =====
-- The figures of the memory.
use gorigin.Prelude.{
  ℕ, ◌+◌, ◌-◌, ◌*◌, ◌%◌, ◌^◌, ◌<◌, ◌≤◌, ◌≡◌, List, [], ◌∷◌, Bytes, inl, inr, Bool-cases, ltb,
  ltb→lt, ◌⊎◌, arith, bytes_beq,
}
use gorigin.Wire.{bytes_of}
use gorigin.Texts.{is_digit}
use gorigin.Monitor.{
  SystemMemInfo, number_of, byte_split_on_number, key_of, mem_line, mem_lines, split_lines,
  mem_stat, minus_wrap,
}

number_of-bound : (row : Bytes) (n : ℕ) → number_of row n < 2 ^ 63
unfolding number_of
number_of-bound [] n = elim (Bool-cases (ltb n (2 ^ 63))) [
  | inl e ↦ rw (number_of, e) (ground arith)
  | inr e ↦ rw (number_of, e) (omega arith)
]
number_of-bound (r ∷ row) n = elim (Bool-cases (is_digit r)) [
  | inl d ↦ rw (number_of, d) (number_of-bound row (n * 10 + (r - 48)))
  | inr d ↦ elim (Bool-cases (ltb n (2 ^ 63))) [
    | inl e ↦ rw (number_of, d, e) (ground arith)
    | inr e ↦ rw (number_of, d, e) (omega arith)
  ]
]

byte_split_on_number-bound : (row : Bytes) → byte_split_on_number row < 2 ^ 63
unfolding byte_split_on_number
byte_split_on_number-bound [] = omega arith
byte_split_on_number-bound (r ∷ row) = elim (Bool-cases (is_digit r)) [
  | inl d ↦ rw (byte_split_on_number, d) (number_of-bound (r ∷ row) 0)
  | inr d ↦ rw (byte_split_on_number, d) (byte_split_on_number-bound row)
]

mem_line-total :
    (tmp : SystemMemInfo) (line : Bytes) → tmp.total < 2 ^ 63 → (mem_line tmp line).total < 2 ^ 63
unfolding mem_line
mem_line-total tmp line h =
    let key = key_of line in
    elim (Bool-cases (bytes_beq key (bytes_of "MemTotal"))) [
      | inl t ↦ rw (mem_line, t) (byte_split_on_number-bound line)
      | inr t ↦ elim (Bool-cases (bytes_beq key (bytes_of "MemFree"))) [
        | inl f ↦ rw (mem_line, t, f) h
        | inr f ↦ elim (Bool-cases (bytes_beq key (bytes_of "Buffers"))) [
          | inl b ↦ rw (mem_line, t, f, b) h
          | inr b ↦ elim (Bool-cases (bytes_beq key (bytes_of "Cached"))) [
            | inl c ↦ rw (mem_line, t, f, b, c) h
            | inr c ↦ rw (mem_line, t, f, b, c) h
          ]
        ]
      ]
    ]

mem_lines-total :
    (lines : List Bytes) (tmp : SystemMemInfo)
    → tmp.total < 2 ^ 63
    → (mem_lines tmp lines).total < 2 ^ 63
unfolding mem_lines
mem_lines-total [] tmp h = h
mem_lines-total (line ∷ lines) tmp h =
    mem_lines-total lines (mem_line tmp line) (mem_line-total tmp line h)

used_back :
    (total free buff cache : ℕ)
    → total < 2 ^ 64
    → (minus_wrap (minus_wrap (minus_wrap total free) buff) cache + free + buff + cache) % 2 ^ 64
      ≡ total
used_back total free buff cache h = omega arith

used_exact :
    (total free buff cache : ℕ)
    → total < 2 ^ 64
    → free + buff + cache ≤ total
    → minus_wrap (minus_wrap (minus_wrap total free) buff) cache ≡ total - (free + buff + cache)
used_exact total free buff cache h fits = omega arith

-- Whatever the text of the memory's figures is: the total is below 2^63; the used, the free, the
-- buffers and the cached memory make up the total, but for multiples of 2^64; and if the last three
-- do not exceed the total, the used memory is what is left of it.
pub mem_stat-sum :
    (contents : Bytes)
    → ((mem_stat contents).total < 2 ^ 63)
      × (((mem_stat contents).used
              + (mem_stat contents).free
              + (mem_stat contents).buff
              + (mem_stat contents).cache)
            % 2 ^ 64
          ≡ (mem_stat contents).total)
      × (((mem_stat contents).total
            < (mem_stat contents).free + (mem_stat contents).buff + (mem_stat contents).cache)
          ⊎ ((mem_stat contents).used
              ≡ (mem_stat contents).total
                - ((mem_stat contents).free
                    + (mem_stat contents).buff
                    + (mem_stat contents).cache)))
unfolding mem_stat
mem_stat-sum contents =
    let start : SystemMemInfo = record { total = 0; used = 0; free = 0; cache = 0; buff = 0 } in
    let tmp = mem_lines start (split_lines 4 contents) in
    let bound = mem_lines-total (split_lines 4 contents) start (omega arith) in
    (
      bound,
      used_back tmp.total tmp.free tmp.buff tmp.cache (omega (arith, bound)),
      (elim (Bool-cases (ltb tmp.total (tmp.free + tmp.buff + tmp.cache))) [
        | inl more ↦ inl (ltb→lt tmp.total (tmp.free + tmp.buff + tmp.cache) more)
        | inr fits ↦
            inr (
              used_exact tmp.total tmp.free tmp.buff tmp.cache (omega (arith, bound))
                (ground arith))
      ]),
    )
