-- ===== src/Calls/Assign.antt =====
-- network/rpc/invoke.go: requests to other nodes, `remoteCall` with `GetAssignConn`, which looks for the connections of a node that the caller names. Encoding is an argument.
use gorigin.Prelude.{
  ◌≡◌, refl, List, [], ◌∷◌, Option, none, some, Bytes, Bool, false, not, ◌||◌, if◌then◌else◌,
  Outcome, value, ◌>>=◌,
}
use gorigin.Pb.{FuncMsg, NodeInfo, GetNodeMsgRsp}
use gorigin.Registry.{no_text}
use gorigin.FuncCache.{NodeConn, FuncMap, get_node_conn}
use gorigin.Calls.{node_base_to_conn, put_tested, get_remote_conn, conns_call}

-- The loop of `GetAssignConn` over the watcher's list.
unfoldable pub assign_rows :
    (NodeConn → Bool) → (NodeConn → Bool) → FuncMap → List NodeInfo → FuncMap × List NodeConn
assign_rows test refresh f [] = (f, [])
assign_rows test refresh f (node ∷ nodes) =
    let (g, made) = node_base_to_conn test refresh f node in
    let (h, one) : FuncMap × Option NodeConn = elim (get_node_conn f node.uuid) [
      | none ↦ (g, made)
      | some conn ↦ (if test conn then (f, some conn) else (g, made))
    ] in
    let h' : FuncMap = elim one [ none ↦ h | some conn ↦ put_tested test h conn ] in
    let (k, conns) = assign_rows test refresh h' nodes in
    (k, elim one [ none ↦ conns | some conn ↦ conn ∷ conns ])

-- Behind the watcher's answer: the node that it names, or else those of its list.
unfoldable pub assign_answer :
    (NodeConn → Bool) → (NodeConn → Bool) → FuncMap → GetNodeMsgRsp → FuncMap × List NodeConn
assign_answer test refresh f rsp = elim rsp.node [
  | none ↦ assign_rows test refresh f rsp.list
  | some node ↦
      (let (g, made) = node_base_to_conn test refresh f node in
        elim made [
          | some conn ↦ (put_tested test g conn, conn ∷ [])
          | none ↦ assign_rows test refresh g rsp.list
        ])
]

-- `GetAssignConn`; `told` is the watcher's answer, none for an error.
unfoldable pub get_assign_conn :
    (NodeConn → Bool)
    → (NodeConn → Bool)
    → Option GetNodeMsgRsp
    → FuncMap
    → Bytes
    → Bytes
    → FuncMap × List NodeConn
get_assign_conn test refresh told f uuid name =
    let cached : Option NodeConn = if no_text uuid then none else get_node_conn f uuid in
    elim cached [
      | some conn ↦ (f, conn ∷ [])
      | none ↦
          if not (no_text name)
          then (f, [])
          else elim told [ none ↦ (f, []) | some rsp ↦ assign_answer test refresh f rsp ]
    ]

-- The connections of `remoteCall` and of `remoteMulti`.
unfoldable pub remote_conns :
    (NodeConn → Bool)
    → (NodeConn → Bool)
    → Option GetNodeMsgRsp
    → List NodeInfo
    → FuncMap
    → Bytes
    → Bytes
    → FuncMsg
    → Outcome (FuncMap × List NodeConn)
remote_conns test refresh told asked f uuid name fmsg =
    if not (no_text uuid) || not (no_text name)
    then value (get_assign_conn test refresh told f uuid name)
    else get_remote_conn test refresh asked f fmsg

pub data Remote (A : Type 0) : Type 0 where
  marshal_wrong no_remote nodes_wrong : Remote A
  responded : A → Remote A

abbrev pub remote_of : {A : Type 0} → Option A → Remote A
remote_of none = nodes_wrong
remote_of (some a) = responded a

-- `remoteCall`: `body` is the encoded request, none for an error; `attempt` sends it.
unfoldable pub remote_call :
    {A : Type 0}
    → (NodeConn → Bool)
    → (NodeConn → Bool)
    → Option GetNodeMsgRsp
    → List NodeInfo
    → (Bytes → NodeConn → Option A)
    → Bytes
    → FuncMap
    → Bytes
    → Bytes
    → FuncMsg
    → Option Bytes
    → Outcome (FuncMap × Remote A)
remote_call test refresh told asked attempt self f uuid name fmsg none = value (f, marshal_wrong)
remote_call test refresh told asked attempt self f uuid name fmsg (some body) =
    remote_conns test refresh told asked f uuid name fmsg >>= λ p. elim p.1 [
      | [] ↦ value (p.0, no_remote)
      | c ∷ cs ↦ value (p.0, remote_of (conns_call (attempt body) self (c ∷ cs)))
    ]

-- A request to another node by its name alone never reaches any node, whatever the cache holds and
-- whatever the watcher would answer: it fails for the want of a connection, and nobody is asked.
pub remote_call-by_name :
    {A : Type 0} (test refresh : NodeConn → Bool) (told : Option GetNodeMsgRsp)
    (asked : List NodeInfo) (attempt : Bytes → NodeConn → Option A) (self : Bytes) (f : FuncMap)
    (name : Bytes) (fmsg : FuncMsg) (body : Bytes)
    → no_text name ≡ false
    → remote_call test refresh told asked attempt self f [] name fmsg (some body)
      ≡ value (f, no_remote)
unfolding remote_call remote_conns get_assign_conn
remote_call-by_name test refresh told asked attempt self f name fmsg body named = rw named refl
