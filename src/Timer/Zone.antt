-- ===== src/Timer/Zone.antt =====
-- timer/time_zone.go: `SetTimeZone`. The strings package's `Split` and the strconv package's
-- `ParseUint` are written out for what the code asks of them.
use gorigin.Prelude.{
  ℕ, ◌+◌, ◌-◌, ◌*◌, ◌^◌, pos, neg, List, [], ◌∷◌, Option, none, some, Bytes, ltb, leb, ◌==◌, ◌&&◌,
  if◌then◌else◌, bytes_beq, not,
}
use gorigin.Timer.{TimerData}

pub data Error : Type 0 where
  zone_null first_byte_wrong format_wrong hour_error hour_more minute_error minute_more : Error

-- `strings.Split(s, ":")`.
unfoldable pub split_colons : Bytes → List Bytes
split_colons [] = [] ∷ []
split_colons (x ∷ xs) =
    let rest = split_colons xs in
    if x == 58 then [] ∷ rest else elim rest [ [] ↦ (x ∷ []) ∷ [] | r ∷ rs ↦ (x ∷ r) ∷ rs ]

-- The digits from the left, with the value so far; a value of 64 bits at most.
unfoldable pub digits : Bytes → ℕ → Option ℕ
digits [] n = some n
digits (x ∷ xs) n =
    let n' = n * 10 + (x - 48) in
    let rest = digits xs n' in if leb 48 x && leb x 57 && ltb n' (2 ^ 64) then rest else none

-- `strconv.ParseUint(s, 10, 64)`.
unfoldable pub parse_uint : Bytes → Option ℕ
parse_uint [] = none
parse_uint (x ∷ xs) = digits (x ∷ xs) 0

-- The two numbers, in seconds.
unfoldable pub set_parts : TimerData → ℕ → Bytes → Bytes → TimerData × Option Error
set_parts t sign hour minute = elim (parse_uint hour) [
  | none ↦ (t, some hour_error)
  | some h ↦ if ltb 23 h then (t, some hour_more) else elim (parse_uint minute) [
    | none ↦ (t, some minute_error)
    | some m ↦ if ltb 59 m then (t, some minute_more) else (
      record t { zone = (if sign == 43 then pos (h * 3600 + m * 60) else neg (h * 3600 + m * 60)) },
      none,
    )
  ]
]

-- "+00:00".
abbrev pub utc : Bytes
utc = 43 ∷ 48 ∷ 48 ∷ 58 ∷ 48 ∷ 48 ∷ []

unfoldable pub set_time_zone : TimerData → Bytes → TimerData × Option Error
set_time_zone t [] = (t, some zone_null)
set_time_zone t (sign ∷ rest) =
    if not (sign == 43) && not (sign == 45)
    then (t, some first_byte_wrong)
    else if bytes_beq (sign ∷ rest) utc
    then (record t { zone = pos 0 }, none)
    else elim (split_colons rest) [
      | hour ∷ minute ∷ [] ↦ set_parts t sign hour minute
      | _ ↦ (t, some format_wrong)
    ]
