-- ===== src/Examples/Stamps.antt =====
-- A time text.
use gorigin.Prelude.{ℕ, none, Option, Bytes}

-- A library that takes no text.
abbrev parse : ℕ → Bytes → Option ℕ
parse before text = none
