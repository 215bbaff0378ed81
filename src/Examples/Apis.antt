-- ===== src/Examples/Apis.antt =====
-- Names of APIs: "n.s.f" and the like.
use gorigin.Prelude.{[], ◌∷◌, Bytes}

abbrev n : Bytes
n = 110 ∷ []

abbrev s : Bytes
s = 115 ∷ []

abbrev f : Bytes
f = 102 ∷ 45 ∷ 49 ∷ []
