-- ===== src/Examples/Waiters.antt =====
-- A response that comes before the goroutine has its channels in the table, and one that comes after.
use gorigin.Prelude.{refl, [], ◌∷◌, none, some, false, load, store, nat_key}
use gorigin.Conn.{Reply, Waiting, new_chan, del_chan, deliver}
use gorigin.Waits.{got, Run, begins, early, registers, delivers, selects, waiting, on_body}
use gorigin.Waits.Heard.{Heard, Run-Heard}

abbrev first : Reply
first = record { uuid = 300; func = 101; body = 1 ∷ []; fail = none }

abbrev second : Reply
second = record { uuid = 300; func = 101; body = 2 ∷ []; fail = none }

abbrev registered : Waiting
registered = new_chan 5 300 []

abbrev delivered : Waiting
delivered = (300, record { body = some (2 ∷ []); err = none; stamp = 5 }) ∷ []

waited : Run 300 delivered waiting (second ∷ [])
unfolding deliver new_chan store load
waited =
    delivers registered delivered second [] (registers [] 5 (early [] [] first (begins []) refl))
      refl

Run-Heard_example : Heard 300 (got (2 ∷ [])) (second ∷ [])
unfolding load
Run-Heard_example = Run-Heard 300 (del_chan 300 delivered) (got (2 ∷ [])) (second ∷ []) (
    selects delivered (record { body = some (2 ∷ []); err = none; stamp = 5 }) (second ∷ []) false
      (got (2 ∷ [])) waited refl (on_body (2 ∷ []) refl))
