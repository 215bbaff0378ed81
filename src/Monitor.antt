-- ===== src/Monitor.antt =====
-- monitor/mem.go, monitor/cpu.go and monitor/linux.go: the figures that are read from the texts of the
-- operating system, which are arguments. An `int` is its residue of 64 bits.
pub mod Sums
use gorigin.Prelude.{
  ℕ, zero, suc, ◌+◌, ◌-◌, ◌*◌, ◌%◌, ◌^◌, ℤ, pos, negsuc, List, [], ◌∷◌, ◌++◌, map, Option, none,
  some, Bytes, Bool, true, false, not, ◌&&◌, ◌||◌, length, get_or, leb, ltb, ◌==◌, if◌then◌else◌,
  bytes_beq,
}
use gorigin.Wire.{bytes_of}
use gorigin.Registry.{no_text}
use gorigin.Texts.{is_digit, split}
use gorigin.Timer.Stamps.{atoi}

-- The first number of a text, if any: `ParseInt` cuts what is too large to the largest number, whose
-- error is not looked at.
unfoldable pub number_of : Bytes → ℕ → ℕ
number_of [] n = if ltb n (2 ^ 63) then n else 2 ^ 63 - 1
number_of (r ∷ row) n =
    let ended = if ltb n (2 ^ 63) then n else 2 ^ 63 - 1 in
    let goes = number_of row (n * 10 + (r - 48)) in if is_digit r then goes else ended

unfoldable pub byte_split_on_number : Bytes → ℕ
byte_split_on_number [] = 0
byte_split_on_number (r ∷ row) =
    let rest = byte_split_on_number row in if is_digit r then number_of (r ∷ row) 0 else rest

-- `SplitN` by the end of a line, with so many cuts at most.
unfoldable pub split_lines : ℕ → Bytes → List Bytes
split_lines zero s = s ∷ []
split_lines (suc k) [] = [] ∷ []
split_lines (suc k) (c ∷ s) =
    let ended = split_lines k s in
    let goes = split_lines (suc k) s in
    if c == 10 then [] ∷ ended else elim goes [ [] ↦ (c ∷ []) ∷ [] | r ∷ rs ↦ (c ∷ r) ∷ rs ]

pub record SystemMemInfo : Type 0 where
  pub total : ℕ
  pub used : ℕ
  pub free : ℕ
  pub cache : ℕ
  pub buff : ℕ

-- The text before the first colon.
unfoldable pub key_of : Bytes → Bytes
key_of [] = []
key_of (c ∷ s) = let rest = key_of s in if c == 58 then [] else c ∷ rest

unfoldable pub mem_line : SystemMemInfo → Bytes → SystemMemInfo
mem_line tmp line =
    let key = key_of line in
    let num = byte_split_on_number line in
    if bytes_beq key (bytes_of "MemTotal")
    then record tmp { total = num }
    else if bytes_beq key (bytes_of "MemFree")
    then record tmp { free = num }
    else if bytes_beq key (bytes_of "Buffers")
    then record tmp { buff = num }
    else if bytes_beq key (bytes_of "Cached")
    then record tmp { cache = num }
    else tmp

unfoldable pub mem_lines : SystemMemInfo → List Bytes → SystemMemInfo
mem_lines tmp [] = tmp
mem_lines tmp (line ∷ lines) = mem_lines (mem_line tmp line) lines

-- A difference in a `uint64`.
abbrev pub minus_wrap : ℕ → ℕ → ℕ
minus_wrap a b = (a + (2 ^ 64 - b % 2 ^ 64)) % 2 ^ 64

-- `MemStat`, of the text of /proc/meminfo.
unfoldable pub mem_stat : Bytes → SystemMemInfo
mem_stat contents =
    let start : SystemMemInfo = record { total = 0; used = 0; free = 0; cache = 0; buff = 0 } in
    let tmp = mem_lines start (split_lines 4 contents) in
    record tmp { used = minus_wrap (minus_wrap (minus_wrap tmp.total tmp.free) tmp.buff) tmp.cache }

-- `strings.Fields`, for the spaces of ASCII; `word` is the word so far.
abbrev pub is_space : ℕ → Bool
is_space c = c == 32 || (leb 9 c && leb c 13)

unfoldable pub fields_from : Bytes → Bytes → List Bytes
fields_from word [] = if no_text word then [] else word ∷ []
fields_from word (c ∷ s) =
    let ended = fields_from [] s in
    let goes = fields_from (word ++ (c ∷ [])) s in
    if is_space c then (if no_text word then ended else word ∷ ended) else goes

abbrev pub word_of : ℤ → ℕ
word_of (pos n) = n
word_of (negsuc n) = 2 ^ 64 - suc n

-- The loop that reads the figures, or none for the first that is no number.
unfoldable pub read_figures : List Bytes → Option (List ℕ)
read_figures [] = some []
read_figures (field ∷ fields) =
    let rest = read_figures fields in
    elim (atoi field) [
      | none ↦ none
      | some n ↦ elim rest [ none ↦ none | some ns ↦ some (word_of n ∷ ns) ]
    ]

-- The two sums. The first of the numbers stands for the word `cpu` and is 0.
unfoldable pub cpu_sums : List ℕ → ℕ × ℕ
cpu_sums v =
    let at : ℕ → ℕ = λ i. get_or v i 0 in
    let work = (at 0 + at 1 + at 2 + at 5 + at 6 + at 7) % 2 ^ 64 in
    (work, (work + at 3 + at 4) % 2 ^ 64)

-- `checkCpuRun`, of the text of /proc/stat.
unfoldable pub check_cpu_run : Bytes → Option (ℕ × ℕ)
check_cpu_run contents = elim (split_lines 1 contents) [
  | [] ↦ none
  | line ∷ lines ↦ elim (fields_from [] line) [
    | [] ↦ none
    | name ∷ fields ↦
        if not (length (name ∷ fields) == 11) || not (bytes_beq name (bytes_of "cpu"))
        then none
        else elim (read_figures fields) [ none ↦ none | some ns ↦ some (cpu_sums (0 ∷ ns)) ]
  ]
]

pub record TopProc : Type 0 where
  pub pid : ℕ
  pub cpu : Bytes
  pub mem : Bytes
  pub cmd : Bytes
  pub stat : Bytes

-- A row of `top`: five columns, and a process with a number above 100.
unfoldable pub top_row : Bytes → Option TopProc
top_row row = elim (split row (bytes_of " ")) [
  | a ∷ b ∷ c ∷ d ∷ e ∷ [] ↦
      if no_text a || bytes_beq e (bytes_of "top") then none else elim (atoi a) [
        | none ↦ none
        | some (negsuc n) ↦ none
        | some (pos n) ↦
            (if leb n 100
              then none
              else some (record { pid = n; cpu = c; mem = d; cmd = e; stat = b }))
      ]
  | _ ↦ none
]

unfoldable pub top_rows : List Bytes → List TopProc
top_rows [] = []
top_rows (row ∷ rows) =
    let rest = top_rows rows in elim (top_row row) [ none ↦ rest | some p ↦ p ∷ rest ]

-- `ShellTop`, of the command's output.
unfoldable pub shell_top : Bytes → List TopProc
shell_top out = top_rows (split out (10 ∷ []))
