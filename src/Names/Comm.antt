-- ===== src/Names/Comm.antt =====
-- `SplitServName`, `SplitFuncName` and `SplitApiName` of network/comm/recv.go.
use gorigin.Prelude.{[], ◌∷◌, Bytes}
use gorigin.Names.{split_dots}

unfoldable pub split_serv_name : Bytes → Bytes
split_serv_name name = elim (split_dots name) [
  | a ∷ [] ↦ name
  | a ∷ b ∷ [] ↦ a
  | a ∷ b ∷ c ∷ [] ↦ b
  | _ ↦ []
]

unfoldable pub split_func_name : Bytes → Bytes
split_func_name name = elim (split_dots name) [
  | a ∷ [] ↦ name
  | a ∷ b ∷ [] ↦ b
  | a ∷ b ∷ c ∷ [] ↦ c
  | _ ↦ []
]

unfoldable pub split_api_name : Bytes → Bytes × Bytes
split_api_name name = elim (split_dots name) [
  | a ∷ b ∷ [] ↦ (a, b)
  | a ∷ b ∷ c ∷ [] ↦ (b, c)
  | _ ↦ ([], [])
]
