-- ===== src/Services.antt =====
-- network/rpc/service.go: what `Register` makes of a structure's methods. What the reflect package says
-- of a method is its description here.
pub mod Laws
pub mod Shapes
use gorigin.Prelude.{
  ℕ, ◌+◌, ◌-◌, List, [], ◌∷◌, ◌++◌, map, Option, none, some, Bytes, Bool, true, false, length,
  get_elem?, not, ◌&&◌, ◌||◌, ◌==◌, if◌then◌else◌, Dict, load, store, bytes_key, bytes_beq, Outcome,
  value, panic, ◌>>=◌,
}
use gorigin.Wire.{bytes_of}
use gorigin.Pb.{Compiler, proto, json, jsonpb, ApiType, send, call, multi, FuncApi, FuncMsg}

-- `Kind` of a type, and which type it is.
pub data Kind : Type 0 where
  ptr interface_kind other_kind : Kind

pub record GoType : Type 0 where
  pub kind : Kind
  pub number : ℕ

-- `In(i)` from the receiver on, and `Out(i)`.
pub record Method : Type 0 where
  pub name : Bytes
  pub ins : List GoType
  pub outs : List GoType

pub record ServerFunc : Type 0 where
  pub method : Method
  pub fname : Bytes
  pub api : ApiType
  pub req : Option GoType
  pub rsp : Option GoType
  pub args : List GoType

pub data Error : Type 0 where
  num_in_wrong request_kind_wrong response_kind_wrong return_type_wrong outputs_wrong : Error

abbrev pub Result : Type 0
Result = Outcome (Option Error × ServerFunc)

-- `Kind() != reflect.Ptr && Kind() != reflect.Interface`.
abbrev pub is_wrong : GoType → Bool
is_wrong t = elim t.kind [ ptr ↦ false | interface_kind ↦ false | other_kind ↦ true ]

-- The last check, on what the method returns; `type_of_error` is the type `error`.
unfoldable pub check_out : ℕ → Method → ServerFunc → Result
check_out type_of_error m s = elim m.outs [
  | out ∷ [] ↦
      (if out.number == type_of_error then value (none, s) else value (some return_type_wrong, s))
  | _ ↦ value (some outputs_wrong, s)
]

-- The loop over the arguments of a function with several: its error message asks for the kind of
-- `s.req`, which is not set, and panics.
unfoldable pub parse_args : List GoType → Outcome (List GoType)
parse_args [] = value []
parse_args (arg ∷ args) =
    let rest = parse_args args in
    if is_wrong arg then panic else rest >>= λ tail. value (arg ∷ tail)

-- The arguments and the response, which is the last.
unfoldable pub split_last : GoType → List GoType → List GoType × GoType
split_last x [] = ([], x)
split_last x (y ∷ ys) = let rest = split_last y ys in (x ∷ rest.0, rest.1)

unfoldable pub parse_multi : ℕ → Method → ServerFunc → GoType → List GoType → Result
parse_multi type_of_error m s first others =
    let (ins, rsp) = split_last first others in
    parse_args ins >>= λ args.
    let s' : ServerFunc = record s { args = args; rsp = some rsp; api = multi } in
    if is_wrong rsp then value (some response_kind_wrong, s') else check_out type_of_error m s'

unfoldable pub parse_call : ℕ → Method → ServerFunc → GoType → GoType → Result
parse_call type_of_error m s req rsp =
    let s' : ServerFunc = record s { req = some req; rsp = some rsp; api = call } in
    if is_wrong req
    then value (some request_kind_wrong, s')
    else if is_wrong rsp
    then value (some response_kind_wrong, s')
    else check_out type_of_error m s'

unfoldable pub parse_send : ℕ → Method → ServerFunc → GoType → Result
parse_send type_of_error m s req =
    let s' : ServerFunc = record s { req = some req; api = send } in
    if is_wrong req then value (some request_kind_wrong, s') else check_out type_of_error m s'

unfoldable pub parse_methods_num_in : ℕ → Method → ServerFunc → Result
parse_methods_num_in type_of_error m s = elim m.ins [
  | [] ↦ value (some num_in_wrong, s)
  | recv ∷ [] ↦ value (some num_in_wrong, s)
  | recv ∷ req ∷ [] ↦ parse_send type_of_error m s req
  | recv ∷ req ∷ rsp ∷ [] ↦ parse_call type_of_error m s req rsp
  | recv ∷ a ∷ b ∷ c ∷ others ↦ parse_multi type_of_error m s a (b ∷ c ∷ others)
]

pub record Server : Type 0 where
  pub proto : Compiler
  pub sname : Bytes
  pub funcs : Dict Bytes ServerFunc

-- `&ServerFunc{fname: method.Name, method: method}`; the type of a new one is the first, `Send`.
abbrev pub new_func : Method → ServerFunc
new_func m = record { method = m; fname = m.name; api = send; req = none; rsp = none; args = [] }

-- `CheckProtocal` of network/rpc/protocal.go.
unfoldable pub check_protocal : Bytes → Option Compiler
check_protocal str =
    if bytes_beq str (bytes_of "Compiler_JSON")
    then some json
    else if bytes_beq str (bytes_of "Compiler_JSONPB")
    then some jsonpb
    else if bytes_beq str (bytes_of "Compiler_PROTO")
    then some proto
    else none

-- `parseFunc`: a method whose name is a protocol's sets the protocol. The first error ends it.
unfoldable pub parse_func : ℕ → List Method → Server → Outcome (Option Error × Server)
parse_func type_of_error [] s = value (none, s)
parse_func type_of_error (m ∷ ms) s =
    let named = parse_func type_of_error ms in
    elim (check_protocal m.name) [
      | some p ↦ named (record s { proto = p })
      | none ↦ parse_methods_num_in type_of_error m (new_func m) >>= λ r. elim r.0 [
        | some e ↦ value (some e, s)
        | none ↦ named (record s { funcs = store m.name r.1 s.funcs })
      ]
    ]

-- The APIs that `Register` adds to the node, in the order of the table.
unfoldable pub apis : Server → Dict Bytes ServerFunc → List FuncApi
apis s [] = []
apis s ((key, f) ∷ funcs) =
    record { id = 0; name = s.sname ++ (46 ∷ f.fname); api_type = f.api; kind = s.proto }
    ∷ apis s funcs
