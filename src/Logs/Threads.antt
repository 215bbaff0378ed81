-- ===== src/Logs/Threads.antt =====
-- logs/log.go and logs/api.go: a log with the goroutines that use it, whose steps come in any order. A
-- caller that has passed the first test of `check` waits for the mutex; each line that is put gets a
-- goroutine of its own. A goroutine that waits for a mutex it holds itself is out of the list.
use gorigin.Prelude.{ℕ, ◌≡◌, List, [], ◌∷◌, ◌++◌, Option, none, some, Bytes, Bool, if◌then◌else◌, ℤ}
use gorigin.Logs.{LogStruct, LogData, check_struct, init_stamp, change_err_level}
use gorigin.Logs.Files.{
  Ended, done, waits, panics, deeper, send_cache, send_file, check_locked, is_late,
}
use gorigin.Logs.Escapes.{unescape}

-- `checking` with its time, and the line to put; `sending` a line.
pub data Thread : Type 0 where
  checking : ℕ → Bytes → Thread
  sending : Bytes → Thread

-- `written` holds the texts in the files, in order; `hung` the lines of goroutines that wait for
-- themselves.
pub record System : Type 0 where
  pub log : LogData
  pub threads : List Thread
  pub written : List Bytes
  pub hung : List Bytes

-- `NewLogs`.
unfoldable pub new_logs : (ℕ → ℕ) → ℕ → Option LogStruct → System
new_logs month parsed conf = record {
  log = init_stamp month parsed (check_struct conf);
  threads = [];
  written = [];
  hung = [];
}

-- `putByte` and `putString`, up to the mutex; the line has its end.
unfoldable pub put_line : System → ℕ → Bytes → System
put_line s now line = record s {
  threads = s.threads ++ ((if is_late s.log now then checking now line else sending line) ∷ []);
}

-- What a goroutine does behind a call of the log: behind `check` its line gets a goroutine.
unfoldable pub checked : System → Bytes → Ended LogData → Option System
checked s line (done l) = some (record s { log = l; threads = s.threads ++ (sending line ∷ []) })
checked s line (waits l) = some (record s { log = l; hung = s.hung ++ (line ∷ []) })
checked s line panics = none
checked s line deeper = none

unfoldable pub cached : System → Bytes → Ended LogData → Option System
cached s line (done l) = some (record s { log = l })
cached s line (waits l) = some (record s { log = l; hung = s.hung ++ (line ∷ []) })
cached s line panics = none
cached s line deeper = none

unfoldable pub filed : System → Bytes → Ended ℕ → Option System
filed s line (done num) = some (record s { written = s.written ++ (unescape line ∷ []) })
filed s line (waits num) = none
filed s line panics = none
filed s line deeper = none

-- A goroutine's next step, or none if it has to wait or the program panics. `opens` is for the file of
-- `check`, the other two for those of `sendChann`.
unfoldable pub act : (ℕ → ℕ) → Bool → (ℕ → Bool) → (ℕ → Bool) → System → Thread → Option System
act month opens reopens takes s (checking now line) =
    if s.log.mu then none else checked s line (check_locked month opens now s.log)
act month opens reopens takes s (sending line) =
    if s.log.cache
    then if s.log.mu then none else cached s line (send_cache s.log line)
    else filed s line (send_file reopens takes)

-- A step of the system, for the lines it puts.
pub data Step (month : ℕ → ℕ) : System → List Bytes → System → Type 0 where
  puts : (s : System) (now : ℕ) (line : Bytes) → Step month s (line ∷ []) (put_line s now line)
  acts :
      (s t : System) (before after : List Thread) (th : Thread) (opens : Bool)
      (reopens takes : ℕ → Bool)
      → s.threads ≡ before ++ th ∷ after
      → act month opens reopens takes (record s { threads = before ++ after }) th ≡ some t
      → Step month s [] t
  changes :
      (s : System) (level : ℤ) → Step month s [] (record s { log = change_err_level level s.log })

pub data Reach (month : ℕ → ℕ) : System → List Bytes → System → Type 0 where
  here : (s : System) → Reach month s [] s
  next :
      {s t u : System} {lines more : List Bytes}
      → Reach month s lines t
      → Step month t more u
      → Reach month s (lines ++ more) u
