-- ===== src/Serve.antt =====
-- network/rpc/encode.go, network/rpc/service.go and network/rpc/builtin.go: the side of a connection
-- that answers requests. `ParseRspByte` joins the frames, runs the function and makes the frames of
-- the response. What the libraries do and the methods themselves are arguments; the watcher that is asked, too.
pub mod Rounds
pub mod Args
pub mod Typed
pub mod Answers
pub mod Multis
pub mod Local
use gorigin.Prelude.{
  ℕ, suc, ◌+◌, ◌%◌, ◌^◌, List, [], ◌∷◌, ◌++◌, Option, none, some, Bytes, Bool, true, false, length,
  not, ◌&&◌, ◌||◌, ltb, ◌==◌, if◌then◌else◌, Dict, load, bytes_key, bytes_beq, Outcome, value,
  panic, ◌>>=◌, or_panic, index,
}
use gorigin.Wire.{NetworkBuffer, bytes_of}
use gorigin.Wire.Encode.{make_rsp_body}
use gorigin.Conn.{Links, Reply, parse_resp}
use gorigin.Pb.{Compiler, ApiType, send, call, multi, FuncApi, FuncMsg, NodeInfo, GetApiConnRsp}
use gorigin.Registry.{built_in_max, no_text}
use gorigin.FuncCache.{NodeConn, FuncMap, put_msg, set_conn, get_node_conn, query_func}
use gorigin.Calls.{node_base_to_conn, put_tested}
use gorigin.Services.{GoType, ServerFunc, Server}
use gorigin.Protocal.{Result, ok, fails, ◌>=>◌, Libs, unmarshal_value, marshal_value}

-- An output of a method: a nil, an error, or something else.
pub data Output : Type 0 where
  nothing : Output
  an_error : Bytes → Output
  other : Output

-- What the libraries and the methods do. `invoke` is `method.Func.Call` behind the receiver: the
-- values of the arguments afterwards, and the outputs.
pub record Codec (V : Type 0) : Type 0 where
  pub libs : Libs V
  pub invoke : ServerFunc → List V → Outcome (List V × List Output)
  pub multi_body : Bytes → Result (ℕ × List Bytes)
  pub node_info : Bytes → Result NodeInfo
  pub func_list : Bytes → Result (List FuncMsg)
  pub conn_rsp : Bytes → Result GetApiConnRsp

module _ {V : Type 0} (c : Codec V) where
  -- What `ValueMulti` leaves in its arguments, and the error that it returns.
  unfoldable pub value_call : ServerFunc → List V → Outcome (List V × Option Bytes)
  value_call f args = c.invoke f args >>= λ r. elim r.1 [
    | out ∷ [] ↦ elim out [
      | nothing ↦ value (r.0, none)
      | an_error e ↦ value (r.0, some e)
      | other ↦ panic
    ]
    | _ ↦ value (r.0, some (bytes_of "call result value length wrong"))
  ]

  -- `ValueMulti`, and with it `ValueSend` and `ValueCall`, where an error ends the request.
  unfoldable pub value_multi : ServerFunc → List V → Outcome (Result (List V))
  value_multi f args =
      value_call f args >>= λ r. elim r.1 [ none ↦ value (ok r.0) | some e ↦ value (fails e) ]

  unfoldable pub find_send : Server → ServerFunc → Bytes → Outcome (Result Bytes)
  find_send s f bts = or_panic f.req >>= λ t. unmarshal_value c.libs s.proto t bts >=> λ req.
      value_multi f (req ∷ []) >=> λ vs. value (ok [])

  -- The response is the last argument.
  unfoldable pub find_one : Server → ServerFunc → Bytes → Outcome (Result Bytes)
  find_one s f bts = or_panic f.rsp >>= λ r. c.libs.new_elem r >>= λ rsp. or_panic f.req >>= λ t.
      unmarshal_value c.libs s.proto t bts >=> λ req. value_multi f (req ∷ rsp ∷ []) >=> λ vs.
      index vs 1 >>= λ left. value (marshal_value c.libs s.proto left)

  -- The loop over the arguments, from number `i` on: `req.Data[i]` panics if the request has fewer.
  unfoldable pub decode_args : Compiler → List GoType → ℕ → List Bytes → Outcome (Result (List V))
  decode_args p [] i rows = value (ok [])
  decode_args p (t ∷ ts) i rows =
      let rest = decode_args p ts (suc i) rows in
      index rows i >>= λ bts.
      unmarshal_value c.libs p t bts >=> λ v. rest >=> λ vs. value (ok (v ∷ vs))

  unfoldable pub find_multi : Server → ServerFunc → Bytes → Outcome (Result Bytes)
  find_multi s f bts = value (c.multi_body bts) >=> λ req.
      if not (req.0 == length f.args % 2 ^ 32)
      then value (fails (bytes_of "request args number were wrong"))
      else (decode_args s.proto f.args 0 req.1 >=> λ args. or_panic f.rsp >>= λ r.
          c.libs.new_elem r >>= λ rsp. value_multi f (args ++ (rsp ∷ [])) >=> λ vs.
          index vs (length f.args) >>= λ left. value (marshal_value c.libs s.proto left))

  -- The cases of `findCall`, by the type of the function.
  unfoldable pub find_func : Server → ServerFunc → Bytes → Outcome (Result Bytes)
  find_func s f bts = elim f.api [
    | send ↦ find_send s f bts
    | call ↦ find_one s f bts
    | multi ↦ find_multi s f bts
  ]

  unfoldable pub find_call : Dict Bytes Server → FuncMsg → Bytes → Outcome (Result Bytes)
  find_call funcs fmsg bts = elim (load fmsg.serv_name funcs) [
    | none ↦ value (fails (bytes_of "not found server: " ++ fmsg.serv_name ++ bytes_of " by local"))
    | some s ↦ elim (load fmsg.func_name s.funcs) [
      | none ↦ value (fails (bytes_of "not found server function: " ++ fmsg.func_name))
      | some f ↦ find_func s f bts
    ]
  ]

abbrev pub ping_network : ℕ
ping_network = 1

abbrev pub dial_register : ℕ
dial_register = 2

abbrev pub up_func_map_list : ℕ
up_func_map_list = 11

abbrev pub up_node_conn_msg : ℕ
up_node_conn_msg = 12

-- The loop of `UpFuncMapList`.
unfoldable pub put_msgs : FuncMap → List FuncMsg → FuncMap
put_msgs f [] = f
put_msgs f (row ∷ rows) = put_msgs (put_msg f row).0 rows

-- `UpServNodeConn`, whose list of connections nothing reads.
unfoldable pub up_serv_node_conn :
    (NodeConn → Bool) → (NodeConn → Bool) → FuncMap → List NodeInfo → FuncMap
up_serv_node_conn test refresh f [] = f
up_serv_node_conn test refresh f (row ∷ rows) =
    let (g, made) = node_base_to_conn test refresh f row in
    let f' : FuncMap = elim (get_node_conn f row.uuid) [
      | some conn ↦ set_conn f row.uuid conn.wrong row.host
      | none ↦ elim made [ none ↦ g | some conn ↦ put_tested test g conn ]
    ] in
    up_serv_node_conn test refresh f' rows

-- A host that says nothing to others.
abbrev pub is_local_host : Bytes → Bool
is_local_host host =
    no_text host || bytes_beq host (bytes_of "127.0.0.1") || bytes_beq host (bytes_of "0.0.0.0")

-- `peer` is the host at the other end of a TCP or UDP connection.
abbrev pub dialled : Option Bytes → NodeInfo → NodeInfo
dialled peer rsp =
    if is_local_host rsp.host
    then elim peer [ none ↦ rsp | some host ↦ record rsp { host = host } ]
    else rsp

abbrev pub Answer : Type 0
Answer = FuncMap × Result Bytes

module _ {V : Type 0} (c : Codec V) (test refresh : NodeConn → Bool) (peer : Option Bytes) where
  unfoldable pub builtin : FuncMap → ℕ → Bytes → Answer
  builtin f fid bts =
      if fid == ping_network
      then (f, ok (bytes_of "PONG"))
      else if fid == dial_register
      then elim (c.node_info bts) [
        | fails e ↦ (f, fails e)
        | ok rsp ↦ ((node_base_to_conn test refresh f (dialled peer rsp)).0, ok [])
      ]
      else if fid == up_func_map_list
      then elim (c.func_list bts) [ fails e ↦ (f, fails e) | ok rows ↦ (put_msgs f rows, ok []) ]
      else if fid == up_node_conn_msg
      then elim (c.conn_rsp bts) [
        | fails e ↦ (f, fails e)
        | ok req ↦ (up_serv_node_conn test refresh f req.list, ok [])
      ]
      else (f, fails (bytes_of "parse build-in request byte wrong"))

  -- The part of `ParseRspByte` that finds the function of a number above 0. `from` is the uuid of the
  -- connection.
  unfoldable pub dispatch :
      Dict Bytes Server
      → (ℕ → Bytes → Option FuncApi)
      → Bytes
      → FuncMap
      → ℕ
      → Bytes
      → Outcome Answer
  dispatch funcs ask from f fid bts =
      let (g, found) = query_func ask f fid [] in
      if ltb fid built_in_max then value (builtin f fid bts) else elim found [
        | none ↦ value (g, fails (bytes_of "not found server api mapping in server: " ++ from))
        | some fmsg ↦ find_call c funcs fmsg bts >>= λ r. value (g, r)
      ]

-- What `MakeRspBody` gets of an answer: the body, and the error's message.
abbrev pub body_of : Result Bytes → Bytes
body_of (ok bts) = bts
body_of (fails e) = []

abbrev pub message_of : Result Bytes → Option Bytes
message_of (ok bts) = none
message_of (fails e) = some e

abbrev pub failed : Reply → Bool
failed r = elim r.fail [ none ↦ false | some e ↦ true ]

-- `ParseRspByte`, with what handles a request: the state, the table of open bodies, and the frames of
-- the response, if any.
unfoldable pub parse_rsp_byte :
    NetworkBuffer
    → (FuncMap → ℕ → Bytes → Outcome Answer)
    → FuncMap
    → Links
    → Bytes
    → Outcome (FuncMap × Links × List Bytes)
parse_rsp_byte n handle f links cb = parse_resp n links cb >>= λ p.
    let r = p.1 in
    if failed r || r.func == 0 || r.uuid == 0
    then value (f, p.0, [])
    else handle f r.func r.body >>= λ a.
        make_rsp_body n (body_of a.1) r.uuid r.func (message_of a.1) >>= λ fs. value (a.0, p.0, fs)
