-- ===== src/Texts/Rows.antt =====
-- The rows of a text, divided by whether they have a part.
use gorigin.Prelude.{◌+◌, ◌≡◌, List, [], ◌∷◌, Bytes, Bool-cases, inl, inr, arith, if◌then◌else◌}
use gorigin.Registry.{no_text}
use gorigin.Logs.Lines.{count}
use gorigin.Texts.{
  split, contains_part, keep_contain, keep_un_contain, str_split_contain, str_split_un_contain,
}

-- The rows that are not empty.
unfoldable pub filled : List Bytes → List Bytes
filled [] = []
filled (row ∷ rows) = let rest = filled rows in if no_text row then rest else row ∷ rest

keep-count :
    (x part : Bytes) (rows : List Bytes)
    → count x (keep_contain part rows) + count x (keep_un_contain part rows) ≡ count x (filled rows)
unfolding keep_contain keep_un_contain filled count
keep-count x part [] = omega arith
keep-count x part (row ∷ rows) =
    let ih = keep-count x part rows in
    elim (Bool-cases (no_text row)) [
      | inl empty ↦ rw (keep_contain, keep_un_contain, filled, empty) ih
      | inr full ↦ elim (Bool-cases (contains_part row part)) [
        | inl has ↦
            rw (keep_contain, keep_un_contain, filled, full, has)
              (ground (arith, keep-count x part rows))
        | inr has_not ↦
            rw (keep_contain, keep_un_contain, filled, full, has_not)
              (ground (arith, keep-count x part rows))
      ]
    ]

-- `StrSplitContain` and `StrSplitUnContain` divide the rows of a text between them: each row that is
-- not empty is in their two answers together just as often as in the text.
pub str_split-count :
    (x str sep part : Bytes)
    → count x (str_split_contain str sep part) + count x (str_split_un_contain str sep part)
      ≡ count x (filled (split str sep))
unfolding str_split_contain str_split_un_contain
str_split-count x str sep part = keep-count x part (split str sep)
