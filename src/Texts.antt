-- ===== src/Texts.antt =====
-- common/comm.go: rows of a text that have a given part, or no digit; with what the strings and bytes
-- packages do for it, for a separator that is not empty.
pub mod Rows
use gorigin.Prelude.{
  ℕ, zero, suc, ◌+◌, ◌-◌, List, [], ◌∷◌, ◌++◌, Bytes, Bool, true, false, not, ◌&&◌, ◌||◌, length,
  leb, if◌then◌else◌,
}
use gorigin.Registry.{no_text}
use gorigin.Logs.Escapes.{begins}

-- `strings.Split(s, sep)`; `skip` bytes of a separator are left, and `row` is the row so far.
unfoldable pub split_from : Bytes → ℕ → Bytes → Bytes → List Bytes
split_from sep skip row [] = row ∷ []
split_from sep (suc skip) row (c ∷ s) = split_from sep skip row s
split_from sep zero row (c ∷ s) =
    let ended = split_from sep (length sep - 1) [] s in
    let goes = split_from sep 0 (row ++ (c ∷ [])) s in
    if begins sep (c ∷ s) then row ∷ ended else goes

abbrev pub split : Bytes → Bytes → List Bytes
split s sep = split_from sep 0 [] s

-- `strings.Contains`, and `bytes.Contains`.
unfoldable pub contains_part : Bytes → Bytes → Bool
contains_part [] part = begins part []
contains_part (c ∷ s) part = let rest = contains_part s part in begins part (c ∷ s) || rest

-- Whether a byte is one of the ten digits.
abbrev pub is_digit : ℕ → Bool
is_digit r = leb 48 r && leb r 57

unfoldable pub has_digit : Bytes → Bool
has_digit [] = false
has_digit (r ∷ row) = let rest = has_digit row in is_digit r || rest

unfoldable pub keep_contain : Bytes → List Bytes → List Bytes
keep_contain part [] = []
keep_contain part (row ∷ rows) =
    let rest = keep_contain part rows in
    if no_text row then rest else if contains_part row part then row ∷ rest else rest

unfoldable pub keep_un_contain : Bytes → List Bytes → List Bytes
keep_un_contain part [] = []
keep_un_contain part (row ∷ rows) =
    let rest = keep_un_contain part rows in
    if no_text row then rest else if not (contains_part row part) then row ∷ rest else rest

unfoldable pub keep_un_number : List Bytes → List Bytes
keep_un_number [] = []
keep_un_number (row ∷ rows) =
    let rest = keep_un_number rows in
    if no_text row then rest else if has_digit row then rest else row ∷ rest

unfoldable pub byte_split_contain : Bytes → Bytes → Bytes → List Bytes
byte_split_contain bts sep part = keep_contain part (split bts sep)

unfoldable pub str_split_contain : Bytes → Bytes → Bytes → List Bytes
str_split_contain str sep part = keep_contain part (split str sep)

unfoldable pub str_split_un_contain : Bytes → Bytes → Bytes → List Bytes
str_split_un_contain str sep part = keep_un_contain part (split str sep)

unfoldable pub str_split_un_number : Bytes → Bytes → List Bytes
str_split_un_number str sep = keep_un_number (split str sep)
