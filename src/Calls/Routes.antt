-- ===== src/Calls/Routes.antt =====
-- Where requests for functions of the own node go.
use gorigin.Prelude.{
  ◌≡◌, ◌⊎◌, refl, inl, inr, [], Option, none, some, Bytes, true, false, load, bytes_key, bytes_beq,
  bytes_beq_iff, Option-cases, value, panic,
}
use gorigin.Pb.{ApiType, send, FuncMsg}
use gorigin.Registry.{no_text}
use gorigin.Names.Rpc
use gorigin.Calls.{
  ServerFunc, Server, NodeDetail, same_api, local_not_found, local, route_own, route_named,
  route_found, route_one,
}

-- The function of the own node that a message names.
abbrev pub Own : NodeDetail → FuncMsg → ServerFunc → Type 0
Own n fmsg f =
    (s : Server) × (load fmsg.serv_name n.funcs ≡ some s) × (load fmsg.func_name s.funcs ≡ some f)

-- A node that sends to itself by its own uuid never reaches a function that takes messages only: the
-- branch asks for a function with an answer, and the request fails.
pub route_one_self :
    (query : Bytes → Option FuncMsg) (n : NodeDetail) (name : Bytes) (fmsg : FuncMsg)
    (f : ServerFunc)
    → no_text name ≡ false
    → no_text n.uuid ≡ false
    → query (Rpc.split_api_name name).1 ≡ some fmsg
    → same_api fmsg.api_type send ≡ true
    → Own n fmsg f
    → f.api ≡ send
    → route_one send query n n.uuid name ≡ value local_not_found
unfolding route_one route_found route_own
route_one_self query n name fmsg f named own found kind (s, es, ef) sends =
    let self : bytes_beq n.uuid n.uuid ≡ true = (bytes_beq_iff n.uuid n.uuid).1 refl in
    rw (named, found, route_found, kind, own, self, route_own, es, ef, sends) refl

-- A request that names no node, for a function of a service of this node, goes to that function; if
-- the service lacks it, the request panics. `multi` asks the other nodes instead.
pub route_one_local :
    (kind : ApiType) (query : Bytes → Option FuncMsg) (n : NodeDetail) (name : Bytes)
    (fmsg : FuncMsg) (s : Server)
    → no_text name ≡ false
    → (Rpc.split_api_name name).0 ≡ []
    → query (Rpc.split_api_name name).1 ≡ some fmsg
    → same_api fmsg.api_type kind ≡ true
    → load fmsg.serv_name n.funcs ≡ some s
    → ((load fmsg.func_name s.funcs ≡ none) × (route_one kind query n [] name ≡ panic))
      ⊎ ((f : ServerFunc) × (load fmsg.func_name s.funcs ≡ some f)
          × (route_one kind query n [] name ≡ value (local f)))
unfolding route_one route_found route_named
route_one_local kind query n name fmsg s named plain found same es =
    elim (Option-cases (load fmsg.func_name s.funcs)) [
      | inl e ↦ inl (e, rw (named, found, route_found, same, plain, route_named, es, e) refl)
      | inr (f, e) ↦
          inr (f, e, rw (named, found, route_found, same, plain, route_named, es, e) refl)
    ]
