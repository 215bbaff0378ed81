-- ===== src/Calls.antt =====
-- network/rpc/invoke.go: where `send`, `call` and `multi` look for a function, the numbers of requests,
-- and the choice of a connection. What a socket does is an argument.
pub mod Serials
pub mod Routes
pub mod Raw
pub mod Assign
pub mod Multi
pub mod Sending
use gorigin.Prelude.{
  ℕ, ◌+◌, ◌%◌, ◌^◌, List, [], ◌∷◌, ◌++◌, Option, none, some, Bytes, Bool, true, false, length, not,
  ◌&&◌, ◌||◌, ltb, leb, ◌==◌, if◌then◌else◌, Dict, load, bytes_key, bytes_beq, Outcome, value,
  panic, ◌>>=◌,
}
use gorigin.Pb.{ApiType, send, call, multi, FuncMsg, NodeInfo}
use gorigin.Registry.{no_text}
use gorigin.Names.Rpc
use gorigin.FuncCache.{
  NodeConn, FuncMap, up_func_node, put_conn, set_conn, del_conn, get_func_conn, get_node_conn,
}

-- The fields that routing reads.
pub record ServerFunc : Type 0 where
  pub fname : Bytes
  pub api : ApiType

pub record Server : Type 0 where
  pub sname : Bytes
  pub funcs : Dict Bytes ServerFunc

pub record NodeDetail : Type 0 where
  pub uuid : Bytes
  pub name : Bytes
  pub funcs : Dict Bytes Server

abbrev pub same_api : ApiType → ApiType → Bool
same_api send send = true
same_api call call = true
same_api multi multi = true
same_api _ _ = false

-- What a request becomes: an error of this node, the call of a function of this node, a request to
-- others.
pub data Route : Type 0 where
  name_null api_not_found local_not_found service_not_found remote : Route
  local : ServerFunc → Route

-- The branch of a request to the own uuid, for `send` and `call`.
unfoldable pub route_own : Dict Bytes Server → FuncMsg → Route
route_own funcs fmsg = elim (load fmsg.serv_name funcs) [
  | none ↦ service_not_found
  | some s ↦ elim (load fmsg.func_name s.funcs) [
    | none ↦ local_not_found
    | some f ↦ (if same_api f.api call then local f else local_not_found)
  ]
]

-- The branch of a request without another node's name: `ok || f.api != …` reads the nil pointer of a
-- function that is not there.
unfoldable pub route_named : Dict Bytes Server → FuncMsg → Outcome Route
route_named funcs fmsg = elim (load fmsg.serv_name funcs) [
  | none ↦ value remote
  | some s ↦ elim (load fmsg.func_name s.funcs) [ none ↦ panic | some f ↦ value (local f) ]
]

-- The rest of `send` and `call`, which differ in the type that they ask for, behind `QueryFunc`.
unfoldable pub route_found : ApiType → NodeDetail → Bytes → Bytes → Option FuncMsg → Outcome Route
route_found kind n uuid nodename none = value api_not_found
route_found kind n uuid nodename (some fmsg) =
    if not (same_api fmsg.api_type kind)
    then value api_not_found
    else if not (no_text uuid) && bytes_beq n.uuid uuid
    then value (route_own n.funcs fmsg)
    else if no_text nodename || bytes_beq n.name nodename
    then route_named n.funcs fmsg
    else value remote

-- `query` is `QueryFunc` by a name.
unfoldable pub route_one :
    ApiType → (Bytes → Option FuncMsg) → NodeDetail → Bytes → Bytes → Outcome Route
route_one kind query n uuid name =
    let (nodename, apiname) = Rpc.split_api_name name in
    if no_text name then value name_null else route_found kind n uuid nodename (query apiname)

unfoldable pub route_multi_own : Dict Bytes Server → FuncMsg → Route
route_multi_own funcs fmsg = elim (load fmsg.serv_name funcs) [
  | none ↦ service_not_found
  | some s ↦ elim (load fmsg.func_name s.funcs) [ none ↦ local_not_found | some f ↦ local f ]
]

unfoldable pub route_multi_named : Dict Bytes Server → FuncMsg → Route
route_multi_named funcs fmsg = elim (load fmsg.serv_name funcs) [
  | none ↦ remote
  | some s ↦ elim (load fmsg.func_name s.funcs) [ none ↦ remote | some f ↦ local f ]
]

unfoldable pub route_multi_found : NodeDetail → Bytes → Bytes → Option FuncMsg → Route
route_multi_found n uuid nodename none = api_not_found
route_multi_found n uuid nodename (some fmsg) =
    if not (same_api fmsg.api_type multi)
    then api_not_found
    else if not (no_text uuid) && bytes_beq n.uuid uuid
    then route_multi_own n.funcs fmsg
    else if no_text nodename || bytes_beq n.name nodename
    then route_multi_named n.funcs fmsg
    else remote

unfoldable pub route_multi : (Bytes → Option FuncMsg) → NodeDetail → Bytes → Bytes → Route
route_multi query n uuid name =
    let (nodename, apiname) = Rpc.split_api_name name in
    route_multi_found n uuid nodename (query apiname)

abbrev pub watch_in_max : ℕ
watch_in_max = 100

-- `serial`: the counter and the number. The counter is one of 32 bits.
unfoldable pub serial : ℕ → ℕ → ℕ × ℕ
serial reqnum fid =
    if ltb fid watch_in_max
    then (reqnum, fid)
    else (let num = (reqnum + 1) % 2 ^ 32 in
        if ltb num watch_in_max
        then (watch_in_max + 1, (watch_in_max + 1) % 65535)
        else (num, num % 65535))

-- The loop of `connsCall`: `attempt` sends over a connection and waits, and has no result if the
-- sending failed. No result in the end is the error that all nodes are wrong.
unfoldable pub conns_call {ℓ} :
    {A : Type ℓ} → (NodeConn → Option A) → Bytes → List NodeConn → Option A
conns_call attempt self [] = none
conns_call attempt self (conn ∷ conns) =
    let rest = conns_call attempt self conns in
    if bytes_beq conn.uuid self || conn.wrong
    then rest
    else elim (attempt conn) [ some resp ↦ some resp | none ↦ rest ]

-- `PutConn`, with the test of the connection that it finds.
abbrev pub put_tested : (NodeConn → Bool) → FuncMap → NodeConn → FuncMap
put_tested test f conn =
    put_conn f (elim (get_node_conn f conn.uuid) [ none ↦ false | some arg ↦ test arg ]) conn

-- `NodeBaseToConn`: `test` is `TestConn`, `refresh` says that `RefreshConn` connects.
unfoldable pub new_conn :
    (NodeConn → Bool) → (NodeConn → Bool) → FuncMap → NodeInfo → FuncMap × Option NodeConn
new_conn test refresh f node =
    let conn : NodeConn = record {
      uuid = node.uuid;
      host = node.host;
      tport = node.tport;
      uport = node.uport;
      hport = node.hport;
      wrong = false;
      stamp = 0;
    } in
    if refresh conn then (put_tested test f conn, some conn) else (f, none)

unfoldable pub node_base_to_conn :
    (NodeConn → Bool) → (NodeConn → Bool) → FuncMap → NodeInfo → FuncMap × Option NodeConn
node_base_to_conn test refresh f node = elim (get_node_conn f node.uuid) [
  | none ↦ new_conn test refresh f node
  | some conn ↦
      if not conn.wrong && not (bytes_beq conn.host node.host)
      then (f, none)
      else if test conn
      then (set_conn f node.uuid false conn.host, some (record conn { wrong = false }))
      else new_conn test refresh (del_conn f node.uuid) node
]

-- A node of the watcher's answer: its connection, which is there or is made.
unfoldable pub remote_row :
    (NodeConn → Bool) → (NodeConn → Bool) → FuncMap → NodeInfo → FuncMap × Option NodeConn
remote_row test refresh f node =
    let (g, made) = node_base_to_conn test refresh f node in
    let new : FuncMap × Option NodeConn = elim made [
      | none ↦ (g, none)
      | some conn ↦ (put_tested test g conn, some conn)
    ] in
    elim (get_node_conn f node.uuid) [
      | none ↦ new
      | some conn ↦ (if test conn then (f, some conn) else new)
    ]

-- The loop of `GetRemoteConn` over the watcher's answer: the cache, the uuids and the connections.
unfoldable pub remote_rows :
    (NodeConn → Bool)
    → (NodeConn → Bool)
    → FuncMap
    → List NodeInfo
    → FuncMap × List Bytes × List NodeConn
remote_rows test refresh f [] = (f, [], [])
remote_rows test refresh f (node ∷ nodes) =
    let (f', one) = remote_row test refresh f node in
    let (g, ids, rows) = remote_rows test refresh f' nodes in
    elim one [ none ↦ (g, ids, rows) | some conn ↦ (g, node.uuid ∷ ids, conn ∷ rows) ]

-- `asked` is the list of the watcher's answer, empty if the call failed.
unfoldable pub get_remote_conn :
    (NodeConn → Bool)
    → (NodeConn → Bool)
    → List NodeInfo
    → FuncMap
    → FuncMsg
    → Outcome (FuncMap × List NodeConn)
get_remote_conn test refresh asked f fmsg = get_func_conn f fmsg.func_id fmsg.api_name >>= λ rows.
    let (g, ids, new) = remote_rows test refresh f asked in
    if ltb 0 (length rows)
    then value (f, rows)
    else value (
      (if ltb (length ids) (length asked) then up_func_node g fmsg.func_id ids else g),
      rows ++ new,
    )
