-- ===== src/Names/Rpc.antt =====
-- `SplitServerName`, `SplitApiName`, `SplitServName` and `IsExportedName` of network/rpc/comm.go.
use gorigin.Prelude.{
  ℕ, [], ◌∷◌, ◌++◌, Bytes, Bool, true, false, ◌==◌, leb, ◌&&◌, ◌||◌, if◌then◌else◌,
}
use gorigin.Names.{dot, split_dots}

unfoldable pub split_server_name : Bytes → Bytes × Bytes × Bytes
split_server_name name = elim (split_dots name) [
  | a ∷ b ∷ c ∷ [] ↦ (a, b, c)
  | a ∷ b ∷ [] ↦ ([], a, b)
  | _ ↦ ([], [], [])
]

unfoldable pub split_api_name : Bytes → Bytes × Bytes
split_api_name name = elim (split_dots name) [
  | a ∷ b ∷ c ∷ [] ↦ (a, b ++ (dot ∷ c))
  | a ∷ b ∷ [] ↦ ([], name)
  | _ ↦ ([], [])
]

unfoldable pub split_serv_name : Bytes → Bytes
split_serv_name name = elim (split_dots name) [ a ∷ b ∷ [] ↦ a | a ∷ b ∷ c ∷ [] ↦ b | _ ↦ name ]

abbrev pub legal_char : ℕ → Bool
legal_char n =
    (leb 48 n && leb n 58)
    || (n == 45 || n == 95)
    || (leb 65 n && leb n 90)
    || (leb 97 n && leb n 122)

-- True for the nil error. The loop is over runes; every byte of a rune beyond ASCII is above 127, so
-- that the bytes are refused exactly when the runes are.
unfoldable pub is_exported_name : Bytes → Bool
is_exported_name [] = true
is_exported_name (n ∷ ns) = if legal_char n then is_exported_name ns else false
