-- ===== src/Logs/Files.antt =====
-- logs/log.go: what one goroutine does with the mutex, the buffer and the file: `sendCache`,
-- `sendChann` with `reset`, `check`, `exit`, and the directories of `createDir`. Whether the file opens
-- and whether it takes a text are arguments; a write that fails leaves nothing.
use gorigin.Prelude.{
  ℕ, zero, suc, ◌+◌, List, [], ◌∷◌, ◌++◌, Option, none, some, Bytes, Bool, true, false, length, leb,
  ltb, if◌then◌else◌, bytes_beq,
}
use gorigin.Wire.{bytes_of}
use gorigin.Logs.{LogData, reaches, up_stamp, time_month, time_daily, time_hour}

-- How a call ends: it returns; it waits for a mutex that is held, for ever if it is the call's own;
-- it panics; it is deeper than the fuel.
pub data Ended {ℓ} (A : Type ℓ) : Type ℓ where
  done waits : A → Ended A
  panics deeper : Ended A

-- `sendCache`: the mutex does not know who holds it, and the call within has to wait for it.
unfoldable pub send_cache_fuel : ℕ → LogData → Bytes → Ended LogData
send_cache_fuel zero l str = deeper
send_cache_fuel (suc n) l str =
    let inner = send_cache_fuel n in
    if l.mu then waits l else elim l.buf [
      | none ↦ panics
      | some b ↦
          let text = b ++ str in
          let held : LogData = record l { mu = true; buf = some text } in
          if reaches (length text) l.size
          then elim (inner held text) [
            | done l' ↦ done (record l' { mu = false; buf = some [] })
            | waits l' ↦ waits l'
            | panics ↦ panics
            | deeper ↦ deeper
          ]
          else done (record held { mu = false })
    ]

unfoldable pub send_cache : LogData → Bytes → Ended LogData
send_cache = send_cache_fuel 2

-- `String` of a buffer, which for a nil pointer is a text, too.
unfoldable pub buffer_text : Option Bytes → Bytes
buffer_text none = bytes_of "<nil>"
buffer_text (some b) = b

-- `reset`, from attempt `num` on: whether the text was written. Behind the fourth attempt the nil
-- function is called.
unfoldable pub reset : ℕ → (ℕ → Bool) → (ℕ → Bool) → ℕ → Ended ℕ
reset zero opens takes num = deeper
reset (suc n) opens takes num =
    let again = reset n opens takes (num + 1) in
    if opens num
    then if takes num then done num else if leb 4 num then panics else again
    else panics

-- The write of `sendChann`, as attempt 0.
unfoldable pub send_file : (ℕ → Bool) → (ℕ → Bool) → Ended ℕ
send_file opens takes = if takes 0 then done 0 else reset 4 opens takes 1

-- The part of `check` that holds the mutex: `opens` for the new file.
unfoldable pub rotate : (ℕ → ℕ) → Bool → LogData → Ended LogData
rotate month opens l =
    let rest = λ (l : LogData).
      (if opens then done (record (up_stamp month l) { mu = false }) else panics) in
    if l.cache
    then elim (send_cache l (buffer_text l.buf)) [
      | done l' ↦ rest (record l' { buf = some [] })
      | waits l' ↦ waits l'
      | panics ↦ panics
      | deeper ↦ deeper
    ]
    else rest l

-- `check` behind its first test. The second test leaves with the mutex held.
unfoldable pub check_locked : (ℕ → ℕ) → Bool → ℕ → LogData → Ended LogData
check_locked month opens now l =
    if l.mu
    then waits l
    else let held : LogData = record l { mu = true } in
      if ltb now l.stamp then done held else rotate month opens held

-- The first test of `check`, outside the mutex.
unfoldable pub is_late : LogData → ℕ → Bool
is_late l now = leb l.stamp now

-- `exit`: the text that it writes, if it needs no mutex or gets it.
unfoldable pub exit : LogData → Ended (Option Bytes)
exit l = if l.cache then if l.mu then waits none else done (some (buffer_text l.buf)) else done none

-- `createDir`: the directories it makes, in order, and the one that the file goes to. `date` is the
-- text of now in a layout.
unfoldable pub create_dir : (Bytes → Bytes) → LogData → List Bytes × Bytes
create_dir date l =
    let year = date (bytes_of "2006") in
    let month = date (bytes_of "2006/01") in
    let day = date (bytes_of "2006/01/02") in
    if bytes_beq l.time time_month
    then (year ∷ [], date (bytes_of "2006/"))
    else if bytes_beq l.time time_daily
    then (year ∷ month ∷ [], date (bytes_of "2006/01/"))
    else if bytes_beq l.time time_hour
    then (year ∷ month ∷ day ∷ [], date (bytes_of "2006/01/02/"))
    else (
      year ∷ month ∷ day ∷ date (bytes_of "2006/01/02/15") ∷ [],
      date (bytes_of "2006/01/02/15/"),
    )

-- The name of the file that `open` opens: `join` is `filepath.Join`.
unfoldable pub open_name : (List Bytes → Bytes) → (Bytes → Bytes) → LogData → Bytes
open_name join date l =
    let file = l.name ++ (46 ∷ date l.time) in
    if l.dir then join (l.path ∷ (create_dir date l).1 ∷ file ∷ []) else join (l.path ∷ file ∷ [])
