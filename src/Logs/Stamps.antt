-- ===== src/Logs/Stamps.antt =====
-- logs/log.go: the end of a period, the attempts of a write, and the directories of a period's file.
use gorigin.Prelude.{
  ℕ, zero, suc, ◌+◌, ◌*◌, ◌≤◌, ◌<◌, ◌≡◌, refl, inl, inr, ◌∙◌, ap, List, [], ◌∷◌, ◌++◌, Option, none,
  some, Bytes, Bool, true, false, ltb, leb, ltb→lt, le→leb, Bool-cases, pos, if◌then◌else◌,
  bytes_beq, arith,
}
use gorigin.Wire.{bytes_of}
use gorigin.Logs.{
  LogData, next_stamp, up_stamp, Severity, debug, info, warn, error, fatal, is_written, time_month,
  time_daily, time_hour,
}
use gorigin.Logs.Files.{
  Ended, done, waits, panics, deeper, reset, send_file, check_locked, rotate, is_late, create_dir,
}

-- `check`, for a caller that gets the mutex at once, and several calls at the same time.
unfoldable pub check : (ℕ → ℕ) → Bool → ℕ → LogData → Ended LogData
check month opens now l = if is_late l now then check_locked month opens now l else done l

unfoldable pub checks : ℕ → (ℕ → ℕ) → Bool → ℕ → LogData → Ended LogData
checks zero month opens now l = done l
checks (suc n) month opens now l = elim (check month opens now l) [
  | done l' ↦ checks n month opens now l'
  | waits l' ↦ waits l'
  | panics ↦ panics
  | deeper ↦ deeper
]

-- A log in use: no cache, the mutex free, the next period after `period` seconds.
pub record IsFree (month : ℕ → ℕ) (period : ℕ) (l : LogData) : Type 0 where
  pub cache : l.cache ≡ false
  pub mu : l.mu ≡ false
  pub later : (s : ℕ) → next_stamp month l.time s ≡ s + period

check-late :
    (month : ℕ → ℕ) (now : ℕ) (l : LogData)
    → l.cache ≡ false
    → l.mu ≡ false
    → l.stamp ≤ now
    → check month true now l ≡ done (record (up_stamp month l) { mu = false })
unfolding check is_late check_locked rotate up_stamp
check-late month now l c m h = elim (Bool-cases (ltb now l.stamp)) [
  | inl early ↦ absurd (ground (arith, ltb→lt now l.stamp early))
  | inr first ↦ rw (check, is_late, le→leb l.stamp now h, m, check_locked, first, rotate, c) refl
]

-- Behind a pause, each call of `check` ends one period only: behind `n` calls at the time `now`, with
-- the stamp at most `n` periods back, the stamp is after `now`, by one period at most, and the mutex
-- is free. The log has no cache, and its files open.
pub checks-catch_up :
    (n : ℕ) (month : ℕ → ℕ) (period now : ℕ) (l : LogData)
    → IsFree month period l
    → l.stamp ≤ now + period
    → now < l.stamp + n * period
    → (l' : LogData) × (checks n month true now l ≡ done l')
      × (l'.mu ≡ false)
      × (now < l'.stamp)
      × (l'.stamp ≤ now + period)
unfolding checks check is_late up_stamp
checks-catch_up zero month period now l f below above = (l, refl, f.mu, omega arith, below)
checks-catch_up (suc n) month period now l f below above = elim (Bool-cases (leb l.stamp now)) [
  | inl late ↦
      let h : l.stamp ≤ now = ground arith in
      let l' : LogData = record (up_stamp month l) { mu = false } in
      let f' : IsFree month period l' = record { cache = f.cache; mu = refl; later = f.later } in
      let (l'', e, free, after, near) =
        checks-catch_up n month period now l' f' (rw (f.later l.stamp) (omega arith))
          (rw (f.later l.stamp) (omega arith)) in
      (l'', rw (checks, check-late month now l f.cache f.mu h) e, free, after, near)
  | inr early ↦
      let (l'', e, free, after, near) =
        checks-catch_up n month period now l f below (ground arith) in
      (l'', rw (checks, early) e, free, after, near)
]

-- The first of `n` attempts from `num` on that takes.
unfoldable pub first_taken : ℕ → (ℕ → Bool) → ℕ → Option ℕ
first_taken zero takes num = none
first_taken (suc n) takes num =
    let rest = first_taken n takes (num + 1) in if takes num then some num else rest

abbrev pub attempted : Option ℕ → Ended ℕ
attempted none = panics
attempted (some i) = done i

-- `sendChann` writes its text at the first of five attempts that takes, and never again; if none takes,
-- it panics. Every file opens.
pub send_file-first :
    (opens takes : ℕ → Bool)
    → ((i : ℕ) → opens i ≡ true)
    → send_file opens takes ≡ attempted (first_taken 5 takes 0)
unfolding first_taken send_file reset
send_file-first opens takes o = elim (Bool-cases (takes 0)) [
  | inl e ↦ rw e refl
  | inr e0 ↦ elim (Bool-cases (takes 1)) [
    | inl e ↦ rw (e0, o 1, e) refl
    | inr e1 ↦ elim (Bool-cases (takes 2)) [
      | inl e ↦ rw (e0, o 1, e1, o 2, e) refl
      | inr e2 ↦ elim (Bool-cases (takes 3)) [
        | inl e ↦ rw (e0, o 1, e1, o 2, e2, o 3, e) refl
        | inr e3 ↦ elim (Bool-cases (takes 4)) [
          | inl e ↦ rw (e0, o 1, e1, o 2, e2, o 3, e3, o 4, e) refl
          | inr e4 ↦ rw (e0, o 1, e1, o 2, e2, o 3, e3, o 4, e4) refl
        ]
      ]
    ]
  ]
]

-- The rank of a line: 1 for debug up to 4 for an error, 5 for a fatal one.
abbrev pub rank : Severity → ℕ
rank debug = 1
rank info = 2
rank warn = 3
rank error = 4
rank fatal = 5

-- With one of the four levels, a line is written just if its rank is not below the level.
pub is_written-rank :
    (s : Severity) (n : ℕ) (l : LogData)
    → l.level ≡ pos n
    → 1 ≤ n
    → n ≤ 4
    → is_written s l ≡ leb n (rank s)
unfolding is_written
is_written-rank debug n l e low high = rw e (ground arith)
is_written-rank info n l e low high = rw e refl
is_written-rank warn n l e low high = rw e refl
is_written-rank error n l e low high = ground arith
is_written-rank fatal n l e low high = ground arith

-- The directory of a period's file is the last one that `createDir` makes. `date` prints a layout
-- piece by piece.
pub create_dir-last :
    (date : Bytes → Bytes) (l : LogData)
    → ((a b : Bytes) → date (a ++ b) ≡ date a ++ date b)
    → (date (bytes_of "/") ≡ bytes_of "/")
    → (outer : List Bytes) × (last : Bytes) × ((create_dir date l).0 ≡ outer ++ last ∷ [])
      × ((create_dir date l).1 ≡ last ++ bytes_of "/")
unfolding create_dir
create_dir-last date l pieces slash =
    let year = date (bytes_of "2006") in
    let month = date (bytes_of "2006/01") in
    let day = date (bytes_of "2006/01/02") in
    let hour = date (bytes_of "2006/01/02/15") in
    let ends : (a : Bytes) → date (a ++ bytes_of "/") ≡ date a ++ bytes_of "/" =
      λ a. pieces a (bytes_of "/") ∙ ap (◌++◌ (date a)) slash in
    elim (Bool-cases (bytes_beq l.time time_month)) [
      | inl e ↦ ([], year, rw (create_dir, e) refl, rw (create_dir, e) (ends (bytes_of "2006")))
      | inr e ↦ elim (Bool-cases (bytes_beq l.time time_daily)) [
        | inl e' ↦ (
          year ∷ [],
          month,
          rw (create_dir, e, e') refl,
          rw (create_dir, e, e') (ends (bytes_of "2006/01")),
        )
        | inr e' ↦ elim (Bool-cases (bytes_beq l.time time_hour)) [
          | inl e'' ↦ (
            year ∷ month ∷ [],
            day,
            rw (create_dir, e, e', e'') refl,
            rw (create_dir, e, e', e'') (ends (bytes_of "2006/01/02")),
          )
          | inr e'' ↦ (
            year ∷ month ∷ day ∷ [],
            hour,
            rw (create_dir, e, e', e'') refl,
            rw (create_dir, e, e', e'') (ends (bytes_of "2006/01/02/15")),
          )
        ]
      ]
    ]
