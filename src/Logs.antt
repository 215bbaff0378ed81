-- ===== src/Logs.antt =====
-- logs/struct.go and logs/api.go: the configuration of a log, its levels, and the text of a line; with
-- `checkStruct`, `initStamp`, `upStamp`, `put` and `putf` of logs/log.go. The encoder of JSON, the text
-- of a time and the calendar's months are arguments. Times are seconds.
pub mod Files
pub mod Threads
pub mod Escapes
pub mod Kept
pub mod Cached
pub mod Stamps
pub mod Locks
pub mod Lines
use gorigin.Prelude.{
  ℕ, zero, suc, ◌+◌, ◌*◌, List, [], ◌∷◌, ◌++◌, Option, none, some, Bytes, Bool, true, false, not,
  ◌&&◌, leb, ◌==◌, if◌then◌else◌, bytes_beq, ℤ, pos, negsuc,
}
use gorigin.Wire.{bytes_of}
use gorigin.Registry.{no_text}

-- Comparisons of an `int`: with one of the code's constants, and of a length with it.
abbrev pub is_int : ℤ → ℕ → Bool
is_int (pos n) m = n == m
is_int (negsuc n) m = false

abbrev pub at_most : ℤ → ℕ → Bool
at_most (pos n) m = leb n m
at_most (negsuc n) m = true

abbrev pub reaches : ℕ → ℤ → Bool
reaches n (pos m) = leb m n
reaches n (negsuc m) = true

abbrev pub time_month : Bytes
time_month = bytes_of "200601"

abbrev pub time_daily : Bytes
time_daily = bytes_of "20060102"

abbrev pub time_hour : Bytes
time_hour = bytes_of "2006010215"

abbrev pub time_minute : Bytes
time_minute = bytes_of "200601021504"

-- `ErrFunc`, which nothing reads, is left out.
pub record LogStruct : Type 0 where
  pub cache : Bool
  pub cache_size : ℤ
  pub time_format : Bytes
  pub file_name : Bytes
  pub file_path : Bytes
  pub level : ℤ
  pub file_time : Bytes
  pub dir : Bool
  pub data_type : ℤ

pub data DataType : Type 0 where
  json_lines byte_lines : DataType

-- `buf` is none for a nil pointer. `mu` says that the mutex is held. `function`, which nothing sets, is
-- a nil pointer; the file and its lock belong to the writes.
pub record LogData : Type 0 where
  pub cache : Bool
  pub size : ℤ
  pub format : Bytes
  pub name : Bytes
  pub path : Bytes
  pub level : ℤ
  pub time : Bytes
  pub dir : Bool
  pub buf : Option Bytes
  pub stamp : ℕ
  pub mu : Bool
  pub types : DataType

-- The values that `checkStruct` starts with.
abbrev pub defaults : LogData
defaults = record {
  cache = true;
  size = pos 1048576;
  format = bytes_of "2006-01-02 15:04:05";
  name = bytes_of "log";
  path = bytes_of "./";
  level = pos 4;
  time = time_daily;
  dir = false;
  buf = none;
  stamp = 0;
  mu = false;
  types = json_lines;
}

abbrev pub or_default : Bytes → Bytes → Bytes
or_default text d = if no_text text then d else text

abbrev pub int_or : ℤ → ℤ → ℤ
int_or n d = if is_int n 0 then d else n

unfoldable pub check_struct : Option LogStruct → LogData
check_struct none = defaults
check_struct (some l) =
    let direct = is_int l.cache_size 0 && not l.cache in
    record {
      cache = not direct;
      size = int_or l.cache_size defaults.size;
      format = or_default l.time_format defaults.format;
      name = or_default l.file_name defaults.name;
      path = or_default l.file_path defaults.path;
      level = int_or l.level defaults.level;
      time = or_default l.file_time defaults.time;
      dir = l.dir;
      buf = if direct then none else some [];
      stamp = 0;
      mu = false;
      types = if is_int l.data_type 2 then byte_lines else json_lines;
    }

-- `AddDate(0, 1, 0)` is the argument `month`; a layout of the user's own has no case.
unfoldable pub next_stamp : (ℕ → ℕ) → Bytes → ℕ → ℕ
next_stamp month time stamp =
    if bytes_beq time time_month
    then month stamp
    else if bytes_beq time time_daily
    then stamp + 86400
    else if bytes_beq time time_hour
    then stamp + 3600
    else if bytes_beq time time_minute
    then stamp + 60
    else stamp

unfoldable pub up_stamp : (ℕ → ℕ) → LogData → LogData
up_stamp month l = record l { stamp = next_stamp month l.time l.stamp }

-- `parsed` is the time of now, printed and read back in the layout of the file's name.
unfoldable pub init_stamp : (ℕ → ℕ) → ℕ → LogData → LogData
init_stamp month parsed l = up_stamp month (record l { stamp = parsed })

pub data Severity : Type 0 where
  debug info warn error fatal : Severity

-- The text of a line in its column.
abbrev pub level_text : Severity → Bytes
level_text debug = bytes_of "DEBUG"
level_text info = bytes_of "INFO"
level_text warn = bytes_of "WARN"
level_text error = bytes_of "ERROR"
level_text fatal = bytes_of "FATAL"

-- The guards of `WriteDebug` to `WriteFatal`, which those of `WriteDebugf` to `WriteFatalf` repeat.
unfoldable pub is_written : Severity → LogData → Bool
is_written debug l = is_int l.level 1
is_written info l = at_most l.level 2
is_written warn l = at_most l.level 3
is_written error l = true
is_written fatal l = true

pub record JsonData : Type 0 where
  pub time : Bytes
  pub level : Bytes
  pub body : Bytes

-- `put` and `putf`, once the arguments are printed: what is given to `putByte` or `putString`.
unfoldable pub put_text : (JsonData → Bytes) → LogData → Bytes → Bytes → Bytes → Bytes
put_text marshal l now level body = elim l.types [
  | json_lines ↦ marshal (record { time = now; level = level; body = body })
  | byte_lines ↦ now ++ (9 ∷ level ++ (9 ∷ body))
]

-- `WriteDebug` to `WriteFatal`: the text that is put, if any.
unfoldable pub write : (JsonData → Bytes) → Severity → LogData → Bytes → Bytes → Option Bytes
write marshal s l now body =
    if is_written s l then some (put_text marshal l now (level_text s) body) else none

unfoldable pub change_err_level : ℤ → LogData → LogData
change_err_level level l = record l { level = level }

-- `putf`, which has the same two forms for a message that is printed already.
unfoldable pub putf_text : (JsonData → Bytes) → LogData → Bytes → Bytes → Bytes → Bytes
putf_text marshal l now level msg = elim l.types [
  | json_lines ↦ marshal (record { time = now; level = level; body = msg })
  | byte_lines ↦ now ++ (9 ∷ level ++ (9 ∷ msg))
]

-- `WriteDebugf` to `WriteFatalf`.
unfoldable pub writef : (JsonData → Bytes) → Severity → LogData → Bytes → Bytes → Option Bytes
writef marshal s l now msg =
    if is_written s l then some (putf_text marshal l now (level_text s) msg) else none
