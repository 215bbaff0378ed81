-- ===== src/Examples/Races.antt =====
-- Two pieces of three of one body.
use gorigin.Prelude.{ℕ, ◌≡◌, refl, [], ◌∷◌, none, value, arith}
use gorigin.Wire.Parse.{JoinBodyData}
use gorigin.Conn.{Links, nothing}
use gorigin.Conn.Races.{act_on, act_on-lost}

abbrev third : JoinBodyData
third = record { uuid = 300; func = 101; sort = 3; buck = 3; content = 7 ∷ [] }

abbrev second : JoinBodyData
second = record { uuid = 300; func = 101; sort = 2; buck = 3; content = 8 ∷ 9 ∷ [] }

abbrev no_links : Links
no_links k = none

act_on-lost_example :
    (l1 : Links) × (l2 : Links) × (l3 : Links) × (act_on no_links third none ≡ value (l1, nothing))
    × (act_on l1 second none ≡ value (l2, nothing))
    × (act_on no_links second none ≡ value (l3, nothing))
    × ((k : ℕ) → l2 k ≡ l3 k)
act_on-lost_example =
    act_on-lost no_links third second (omega arith, omega arith, omega arith)
      (omega arith, omega arith, omega arith) refl refl
