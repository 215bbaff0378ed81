-- ===== src/Examples/Lines.antt =====
-- Logs with a small cache, and without one.
use gorigin.Prelude.{
  ℕ, zero, suc, ◌+◌, ◌≤◌, ◌<◌, ◌≡◌, ◌⊎◌, refl, [], ◌∷◌, none, some, Option, Bytes, Bool, arith,
  true, false, length, pos, map, bytes_beq,
}
use gorigin.Logs.{LogStruct, LogData, check_struct, reaches, next_stamp, init_stamp, up_stamp}
use gorigin.Logs.Files.{Ended, done, waits, send_cache, send_cache_fuel, check_locked, exit, rotate}
use gorigin.Logs.Escapes.{unescape, replace_from, begins}
use gorigin.Logs.Threads.{
  Thread, sending, System, new_logs, put_line, act, Reach, here, next, puts, checked,
}
use gorigin.Logs.Locks.{send_cache-ends, late_check-freezes}
use gorigin.Logs.Cached.{cached-exit}
use gorigin.Logs.Lines.{count, texts, direct-lines}
use gorigin.Logs.Stamps.{checks, IsFree, checks-catch_up}

abbrev month : ℕ → ℕ
month s = s + 2592000

-- A log with the default configuration but for the size of its cache, of four bytes, and one without.
abbrev conf : Bool → ℕ → LogStruct
conf cache size = record {
  cache = cache;
  cache_size = pos size;
  time_format = [];
  file_name = [];
  file_path = [];
  level = pos 0;
  file_time = [];
  dir = false;
  data_type = pos 0;
}

abbrev small : System
small = new_logs month 0 (some (conf true 4))

abbrev direct : System
direct = new_logs month 0 (some (conf false 0))

-- "ab" and the end of the line.
abbrev line : Bytes
line = 97 ∷ 98 ∷ 10 ∷ []

-- The first goroutine of a log, at once.
abbrev go : System → Thread → Option System
go s th = act month true (λ i. true) (λ i. true) (record s { threads = [] }) th

abbrev put_small : Reach month small (line ∷ []) (put_line small 5 line)
put_small = next (here small) (puts small 5 line)

cached-exit_example :
    ((put_line small 5 line).written ≡ [])
    × ((exit (put_line small 5 line).log ≡ waits none)
        ⊎ ((text : Bytes) × (exit (put_line small 5 line).log ≡ done (some text))
            × (reaches (length text) (pos 4) ≡ false)))
unfolding check_struct
cached-exit_example =
    cached-exit month 0 (some (conf true 4)) (line ∷ []) (put_line small 5 line) refl refl put_small

direct-lines_example :
    ((put_line direct 5 line).hung ≡ [])
    × ((x : Bytes)
        → count x (put_line direct 5 line).written
            + count x (texts (put_line direct 5 line).threads)
          ≡ count x (map unescape (line ∷ [])))
unfolding check_struct
direct-lines_example =
    direct-lines month 0 (some (conf false 0)) (line ∷ []) (put_line direct 5 line) refl
      (next (here direct) (puts direct 5 line))

abbrev left_held : System
left_held = record direct { log = record direct.log { mu = true }; threads = sending line ∷ [] }

late_check-freezes_example : (left_held.log.mu ≡ true) × (left_held.log.stamp ≡ 86400)
unfolding act check_locked checked new_logs init_stamp up_stamp check_struct next_stamp bytes_beq
late_check-freezes_example =
    late_check-freezes month true (λ i. true) (λ i. true) direct left_held left_held 5 line [] refl
      (omega arith) refl (here left_held)

send_cache-ends_example :
    ((reaches (length line) (pos 4) ≡ false)
      × (send_cache_fuel 2 small.log line
          ≡ done (record small.log { mu = false; buf = some line })))
    ⊎ ((reaches (length line) (pos 4) ≡ true)
        × (send_cache_fuel 2 small.log line
            ≡ waits (record small.log { mu = true; buf = some line })))
unfolding new_logs init_stamp up_stamp check_struct
send_cache-ends_example = send_cache-ends 0 small.log [] line refl refl

direct-IsFree : IsFree month 86400 direct.log
unfolding new_logs init_stamp up_stamp check_struct next_stamp bytes_beq
direct-IsFree = record { cache = refl; mu = refl; later = λ s. refl }

checks-catch_up_example :
    (l : LogData) × (checks 3 month true 259200 direct.log ≡ done l)
    × (l.mu ≡ false)
    × (259200 < l.stamp)
    × (l.stamp ≤ 259200 + 86400)
unfolding new_logs init_stamp up_stamp check_struct next_stamp bytes_beq
checks-catch_up_example =
    checks-catch_up 3 month 86400 259200 direct.log direct-IsFree (omega arith) (omega arith)

-- The third attempt takes.
abbrev third : ℕ → Bool
third zero = false
third (suc zero) = false
third (suc (suc i)) = true

-- The end of a period with a cache: the call waits for itself, and `exit` afterwards.
abbrev over : Ended LogData
over = check_locked month true 90000 small.log

over_waits : over ≡ waits (record small.log { mu = true })
unfolding check_locked rotate send_cache send_cache_fuel new_logs init_stamp up_stamp check_struct
    next_stamp bytes_beq
over_waits = refl

exit_waits : exit (record small.log { mu = true }) ≡ waits none
unfolding exit new_logs init_stamp up_stamp check_struct next_stamp bytes_beq
exit_waits = refl

-- A message that has the text of an escape loses its backslash: `\\u003c` becomes `\<`.
escape_broken : unescape (92 ∷ 92 ∷ 117 ∷ 48 ∷ 48 ∷ 51 ∷ 99 ∷ []) ≡ 92 ∷ 60 ∷ []
unfolding unescape replace_from begins
escape_broken = refl
