-- ===== src/Timer/Stamps.antt =====
-- timer/timer.go: `checkTime`, which reads when a task is to run: an interval, as `10s`, or a time of
-- the day, the hour or the minute, as `15:04:05`. `parse` is the Unix time of so many characters of
-- now's text with the stamp behind them; the times are after the first day of 1970, so that they are
-- not negative in any time zone.
use gorigin.Prelude.{
  ℕ, zero, suc, ◌+◌, ◌-◌, ◌*◌, ◌/◌, ◌%◌, ◌^◌, ℤ, pos, neg, negsuc, [], ◌∷◌, Option, none, some,
  Bytes, length, get_or, take, leb, ltb, ◌==◌, ◌&&◌, ◌||◌, if◌then◌else◌, Outcome, value, panic,
}
use gorigin.Timer.Zone.{parse_uint}

-- The value of so many in an `int64`.
unfoldable pub wrap_int : ℕ → ℤ
wrap_int m = let r = m % 2 ^ 64 in if ltb r (2 ^ 63) then pos r else neg (2 ^ 64 - r)

-- A product in an `int64`.
unfoldable pub times_unit : ℤ → ℕ → ℤ
times_unit (pos n) unit = wrap_int (n * unit)
times_unit (negsuc n) unit = wrap_int (2 ^ 64 - suc n * unit % 2 ^ 64)

-- `strconv.Atoi`.
unfoldable pub atoi : Bytes → Option ℤ
atoi [] = none
atoi (x ∷ xs) =
    if x == 45
    then elim (parse_uint xs) [
      | none ↦ none
      | some n ↦ (if leb n (2 ^ 63) then some (neg n) else none)
    ]
    else elim (parse_uint (if x == 43 then xs else x ∷ xs)) [
      | none ↦ none
      | some n ↦ (if ltb n (2 ^ 63) then some (pos n) else none)
    ]

-- The milliseconds of a unit, by its letter.
unfoldable pub unit_of : ℕ → Option ℕ
unit_of c =
    if c == 115 || c == 83
    then some 1000
    else if c == 109 || c == 77
    then some 60000
    else if c == 104 || c == 72
    then some 3600000
    else if c == 100 || c == 68
    then some 86400000
    else none

-- What a time of so many characters stands for: how much of now's text is before it, and the seconds
-- of the period that it is in.
unfoldable pub period_of : ℕ → Option (ℕ × ℕ)
period_of len =
    if len == 2
    then some (17, 60)
    else if len == 5
    then some (14, 3600)
    else if len == 8
    then some (11, 86400)
    else none

-- `t - zone`.
abbrev pub less_zone : ℕ → ℤ → ℕ
less_zone t (pos z) = t - z
less_zone t (negsuc z) = t + suc z

-- The two cases of `checkTime`, up to the loop: the next run and the interval, or an error.
unfoldable pub interval_stamp : ℕ → Bytes → ℕ → Option (ℕ × ℤ)
interval_stamp now number unit = elim (atoi number) [
  | none ↦ none
  | some temp ↦ some (now, times_unit temp unit)
]

unfoldable pub clock_stamp : (ℕ → Bytes → Option ℕ) → ℤ → Bytes → Option (ℕ × ℤ)
clock_stamp parse zone stamp = elim (period_of (length stamp)) [
  | none ↦ none
  | some (before, period) ↦ elim (parse before stamp) [
    | none ↦ none
    | some t ↦ some (less_zone t zone / period * (period * 1000), pos (period * 1000))
  ]
]

-- The loop, at one time, which is below 2^63; `next` is an `int64` by its residue of 64 bits, which a
-- sum may make negative; none if the fuel is out.
unfoldable pub advance : ℕ → ℕ → ℕ → ℕ → Option ℕ
advance zero next interval now = none
advance (suc fuel) next interval now =
    let later = advance fuel ((next + interval) % 2 ^ 64) interval now in
    if leb (2 ^ 63) next || leb next now then later else some next

-- The end of `checkTime`: `if err == nil && interval > 0`.
unfoldable pub advanced : ℕ → Option (ℕ × ℤ) → Outcome (Option (ℕ × ℤ))
advanced now none = value none
advanced now (some (next, pos zero)) = value (some (next, pos zero))
advanced now (some (next, negsuc n)) = value (some (next, negsuc n))
advanced now (some (next, pos (suc i))) = elim (advance (now + 2) next (suc i) now) [
  | none ↦ panic
  | some later ↦ value (some (later, pos (suc i)))
]

-- `checkTime` up to the loop, by the last character.
unfoldable pub stamp_of : (ℕ → Bytes → Option ℕ) → ℕ → ℤ → Bytes → ℕ → Option (ℕ × ℤ)
stamp_of parse now zone stamp last = elim (unit_of last) [
  | some unit ↦ interval_stamp now (take (length stamp - 1) stamp) unit
  | none ↦ (if leb 48 last && leb last 57 then clock_stamp parse zone stamp else none)
]

-- `checkTime`; an empty text, which `AddTimerRun` refuses, is cut beyond its beginning.
unfoldable pub check_time : (ℕ → Bytes → Option ℕ) → ℕ → ℤ → Bytes → Outcome (Option (ℕ × ℤ))
check_time parse now zone [] = panic
check_time parse now zone (x ∷ xs) =
    let stamp = x ∷ xs in
    advanced now (stamp_of parse now zone stamp (get_or stamp (length stamp - 1) 0))
