-- ===== src/Protocal/Trips.antt =====
-- Which of the functions that decode and encode agree.
use gorigin.Prelude.{◌≡◌, refl, ap, Bytes, some, value}
use gorigin.Pb.{Compiler, proto, json, jsonpb}
use gorigin.Services.{ptr}
use gorigin.Protocal.{Libs, unmarshal_into, interface_into, unmarshal_value, unmarshal_interface}

-- A value as `reflect.New` makes it.
abbrev pub IsNew : {V : Type 0} → Libs V → V → Type 0
IsNew l w = l.new_elem (l.type_of w) ≡ value w

-- The two functions, which have their own code, agree on each protocol.
into-into :
    {V : Type 0} (l : Libs V) (p : Compiler) (v : V) (bts : Bytes)
    → unmarshal_into l p v bts ≡ interface_into l p v bts
unfolding unmarshal_into interface_into
into-into l proto v bts = refl
into-into l json v bts = refl
into-into l jsonpb v bts = refl

-- The side that knows the type of a value only, and the side that gives a new value of that type for
-- it, decode any body by any protocol to the same result, error or value: if the type is a pointer.
pub unmarshal_value-interface :
    {V : Type 0} (l : Libs V) (p : Compiler) (w : V) (bts : Bytes)
    → IsNew l w
    → (l.type_of w).kind ≡ ptr
    → unmarshal_value l p (l.type_of w) bts ≡ unmarshal_interface l p (some w) bts
unfolding unmarshal_value unmarshal_interface
unmarshal_value-interface l p w bts new k =
    rw (unmarshal_value, new, unmarshal_interface, k) (ap value (into-into l p w bts))
