-- ===== src/Timer/StampLaws.antt =====
-- When a task that is given a time text runs first.
use gorigin.Prelude.{
  ℕ, zero, suc, ◌+◌, ◌-◌, ◌*◌, ◌/◌, ◌^◌, ◌≤◌, ◌<◌, ◌≡◌, ◌⊎◌, refl, ℤ, pos, negsuc, [], ◌∷◌, Option,
  none, some, Bytes, true, leb, ◌&&◌, arith,
}
use gorigin.Timer.Stamps.{unit_of, period_of, clock_stamp, advanced, stamp_of, check_time}

-- Where the loop ends: behind the time, by so many intervals, and at most one behind it if it moves.
abbrev pub Later : ℕ → ℕ → ℕ → ℕ → Type 0
Later next interval now m =
    (now < m) × ((k : ℕ) × (m ≡ next + k * interval)) × ((m ≡ next) ⊎ (m ≤ now + interval))

-- The start and the interval of a text, and the end of the loop, fit an `int64`.
abbrev pub Fits : ℕ → Option (ℕ × ℤ) → Type 0
Fits now none = Unit
Fits now (some (next, pos zero)) = Unit
Fits now (some (next, negsuc n)) = Unit
Fits now (some (next, pos (suc i))) = (next < 2 ^ 63) × (now + suc i < 2 ^ 63)

-- What `checkTime` answers at the time `now` for the start and the interval of a text: these, if there
-- is an error or no positive interval; and else where the loop ends.
abbrev pub IsAnswer : ℕ → Option (ℕ × ℤ) → Option (ℕ × ℤ) → Type 0
IsAnswer now none r = r ≡ none
IsAnswer now (some (next, pos zero)) r = r ≡ some (next, pos zero)
IsAnswer now (some (next, negsuc n)) r = r ≡ some (next, negsuc n)
IsAnswer now (some (next, pos (suc i))) r =
    (m : ℕ) × (r ≡ some (m, pos (suc i))) × Later next (suc i) now m

clock_stamp-second :
    (parse : ℕ → Bytes → Option ℕ) (z m s x y : ℕ)
    → s < 60
    → parse 17 (x ∷ y ∷ []) ≡ some (60 * m + s)
    → clock_stamp parse (pos (60 * z)) (x ∷ y ∷ []) ≡ some ((m - z) * 60000, pos 60000)
unfolding clock_stamp period_of
clock_stamp-second parse z m s x y h e =
    let minute : (60 * m + s - 60 * z) / 60 ≡ m - z = omega arith in
    rw (clock_stamp, e, minute) refl

check_time-clock :
    (parse : ℕ → Bytes → Option ℕ) (now : ℕ) (zone : ℤ) (x y : ℕ)
    → 48 ≤ y
    → y ≤ 57
    → check_time parse now zone (x ∷ y ∷ []) ≡ advanced now (clock_stamp parse zone (x ∷ y ∷ []))
unfolding check_time stamp_of unit_of
check_time-clock parse now zone x y low high =
    let no_unit : unit_of y ≡ none = ground arith in
    let digit : (leb 48 y && leb y 57) ≡ true = ground arith in
    rw (check_time, stamp_of, no_unit, digit) refl

-- A task for a second of the minute, given by two digits: which second it is makes no difference, the
-- first run is at the beginning of a minute and the interval a minute. `m` is the minute now, and the
-- time zone is whole minutes to the east.
pub check_time-second :
    (parse : ℕ → Bytes → Option ℕ) (now z m s s' x y x' y' : ℕ)
    → s < 60
    → s' < 60
    → parse 17 (x ∷ y ∷ []) ≡ some (60 * m + s)
    → parse 17 (x' ∷ y' ∷ []) ≡ some (60 * m + s')
    → 48 ≤ y
    → y ≤ 57
    → 48 ≤ y'
    → y' ≤ 57
    → check_time parse now (pos (60 * z)) (x ∷ y ∷ [])
      ≡ check_time parse now (pos (60 * z)) (x' ∷ y' ∷ [])
check_time-second parse now z m s s' x y x' y' hs hs' e e' low high low' high' =
    rw
      (
        check_time-clock parse now (pos (60 * z)) x y low high,
        check_time-clock parse now (pos (60 * z)) x' y' low' high',
        clock_stamp-second parse z m s x y hs e,
        clock_stamp-second parse z m s' x' y' hs' e',
      )
      refl
