-- ===== src/Names.antt =====
-- The names of server APIs, `Node.Server.Function` or `Server.Function`: network/rpc/comm.go and
-- network/comm/recv.go. A string is the list of its bytes.
pub mod Rpc
pub mod Comm
pub mod Laws
use gorigin.Prelude.{ℕ, List, [], ◌∷◌, ◌++◌, Bytes, ◌==◌, if◌then◌else◌}

-- `"."`.
abbrev pub dot : ℕ
dot = 46

abbrev pub cons_head : ℕ → List Bytes → List Bytes
cons_head x [] = (x ∷ []) ∷ []
cons_head x (r ∷ rs) = (x ∷ r) ∷ rs

-- `strings.Split(name, ".")`.
unfoldable pub split_dots : Bytes → List Bytes
split_dots [] = [] ∷ []
split_dots (x ∷ xs) = let rest = split_dots xs in if x == dot then [] ∷ rest else cons_head x rest
