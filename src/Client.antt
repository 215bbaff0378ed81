-- ===== src/Client.antt =====
-- network/rpc/watch.go: the watchers that a node knows, how it comes to know them, and its requests to
-- them. What a socket does is an argument, as for the calls.
pub mod Watchers
pub mod Registering
pub mod Asking
pub mod Config
pub mod Nodes
pub mod Beats
pub mod Requests
use gorigin.Prelude.{
  ℕ, ◌+◌, ◌%◌, ◌^◌, List, [], ◌∷◌, ◌++◌, Option, none, some, Bytes, Bool, true, false, not, ◌&&◌,
  if◌then◌else◌, bytes_beq,
}
use gorigin.Pb.{FuncApi, NodeInfo, RegisteredRsp}
use gorigin.FuncCache.{NodeConn, FuncMap, add_data, get_node_conn, msg_of_api}
use gorigin.Calls.{node_base_to_conn}

pub record WatchNode : Type 0 where
  pub uuid : Bytes
  pub count : ℕ
  pub procid : ℕ
  pub config : List NodeInfo
  pub master : Option NodeConn
  pub slaves : List NodeConn

-- A master that is missing is taken from the slaves, at the end of `InitWatchConfig` and of
-- `WatchRegister`.
unfoldable pub promote : Option NodeConn → List NodeConn → Option NodeConn × List NodeConn
promote none (s ∷ ss) = (some s, ss)
promote none [] = (none, [])
promote (some m) ss = (some m, ss)

-- What becomes of the master and the slaves with a connection, or none, for one configuration; `works`
-- says that `TestTcpConn` finds no error.
unfoldable pub config_node :
    Bool
    → Bool
    → Option NodeConn
    → Option NodeConn
    → List NodeConn
    → Option NodeConn × List NodeConn
config_node main works none master slaves = (master, slaves)
config_node main false (some conn) master slaves = (master, slaves)
config_node main true (some conn) (some m) slaves = (some m, slaves ++ (conn ∷ []))
config_node true true (some conn) none slaves = (some conn, slaves)
config_node false true (some conn) none slaves = (none, slaves ++ (conn ∷ []))

abbrev pub works_of : (NodeConn → Bool) → Option NodeConn → Bool
works_of tcp none = false
works_of tcp (some conn) = tcp conn

-- The loop of `InitWatchConfig` over several configurations; `tcp` is `TestTcpConn`.
unfoldable pub config_loop :
    (NodeConn → Bool)
    → (NodeConn → Bool)
    → (NodeConn → Bool)
    → FuncMap
    → Option NodeConn
    → List NodeConn
    → List NodeInfo
    → FuncMap × Option NodeConn × List NodeConn
config_loop test refresh tcp f master slaves [] = (f, master, slaves)
config_loop test refresh tcp f master slaves (node ∷ nodes) =
    let (g, made) = node_base_to_conn test refresh f node in
    let (m, ss) = config_node node.main (works_of tcp made) made master slaves in
    config_loop test refresh tcp g m ss nodes

-- What `NodeBaseToConn` returns along with an error: no connection, or the new one without a socket.
unfoldable pub unconnected : FuncMap → NodeInfo → Option NodeConn
unconnected f node =
    let new : NodeConn = record {
      uuid = node.uuid;
      host = node.host;
      tport = node.tport;
      uport = node.uport;
      hport = node.hport;
      wrong = false;
      stamp = 0;
    } in
    elim (get_node_conn f node.uuid) [
      | none ↦ some new
      | some conn ↦
          (if not conn.wrong && not (bytes_beq conn.host node.host) then none else some new)
    ]

-- `InitWatchConfig`, which says whether it has a master; with one configuration the slaves stay.
unfoldable pub init_watch_config :
    (NodeConn → Bool)
    → (NodeConn → Bool)
    → (NodeConn → Bool)
    → FuncMap
    → WatchNode
    → FuncMap × WatchNode × Bool
init_watch_config test refresh tcp f w = elim w.config [
  | [] ↦ (f, record w { master = none }, false)
  | node ∷ [] ↦
      (let (g, made) = node_base_to_conn test refresh f node in
        elim made [
          | none ↦ (g, record w { master = unconnected f node }, false)
          | some conn ↦ (g, record w { master = some conn }, true)
        ])
  | node ∷ other ∷ nodes ↦
      (let (g, master, slaves) = config_loop test refresh tcp f none [] (node ∷ other ∷ nodes) in
        let (m, ss) = promote master slaves in
        (g, record w { master = m; slaves = ss }, elim m [ none ↦ false | some conn ↦ true ]))
]

-- The functions of the watcher's response, each of which gets a new entry.
unfoldable pub register_funcs : FuncMap → List FuncApi → FuncMap
register_funcs f [] = f
register_funcs f (api ∷ apis) = register_funcs (add_data f (msg_of_api api)) apis

-- The watchers of the response: each main one takes the place of the master.
unfoldable pub register_node :
    Bool → Option NodeConn → Option NodeConn → List NodeConn → Option NodeConn × List NodeConn
register_node main none master slaves = (master, slaves)
register_node true (some conn) master slaves = (some conn, slaves)
register_node false (some conn) master slaves = (master, slaves ++ (conn ∷ []))

unfoldable pub register_watch :
    (NodeConn → Bool)
    → (NodeConn → Bool)
    → FuncMap
    → Option NodeConn
    → List NodeConn
    → List NodeInfo
    → FuncMap × Option NodeConn × List NodeConn
register_watch test refresh f master slaves [] = (f, master, slaves)
register_watch test refresh f master slaves (node ∷ nodes) =
    let (g, made) = node_base_to_conn test refresh f node in
    let (m, ss) = register_node node.main made master slaves in
    register_watch test refresh g m ss nodes

-- `WatchRegister` of the node `uuid`, from the watcher's response, if there is one.
unfoldable pub watch_register :
    (NodeConn → Bool)
    → (NodeConn → Bool)
    → Bytes
    → ℕ
    → FuncMap
    → WatchNode
    → Option RegisteredRsp
    → FuncMap × WatchNode × Bool
watch_register test refresh uuid pid f w none = (f, w, false)
watch_register test refresh uuid pid f w (some rsp) = elim rsp.watch [
  | [] ↦ (f, w, false)
  | node ∷ nodes ↦
      (let known = register_funcs f rsp.funcs in
        let (g, master, slaves) =
          register_watch test refresh known w.master w.slaves (node ∷ nodes) in
        let (m, ss) = promote master slaves in
        (g, record w { uuid = uuid; procid = pid; master = m; slaves = ss }, true))
]

-- The number of a request, from a counter of 32 bits.
unfoldable pub next_number : ℕ → ℕ × ℕ
next_number count = let count' = (count + 1) % 2 ^ 32 in (count', count' % 65535)

-- `SlavesCall`: `attempt` writes a request with a number and waits; it has no result if the writing
-- failed.
unfoldable pub slaves_try {ℓ} :
    {A : Type ℓ} → (NodeConn → ℕ → Option A) → ℕ → List NodeConn → Option A
slaves_try attempt num [] = none
slaves_try attempt num (s ∷ ss) =
    let rest = slaves_try attempt num ss in elim (attempt s num) [ some a ↦ some a | none ↦ rest ]

unfoldable pub slaves_call {ℓ} :
    {A : Type ℓ} → (NodeConn → ℕ → Option A) → WatchNode → WatchNode × Option A
slaves_call attempt w =
    let (count, num) = next_number w.count in
    (record w { count = count }, slaves_try attempt num w.slaves)

-- `MasterCall`; `linked` says that a connection has a socket.
unfoldable pub master_call {ℓ} :
    {A : Type ℓ} → (NodeConn → Bool) → (NodeConn → ℕ → Option A) → WatchNode → WatchNode × Option A
master_call linked attempt w = elim w.master [
  | none ↦ slaves_call attempt w
  | some m ↦
      if not (linked m)
      then slaves_call attempt w
      else (let (count, num) = next_number w.count in
          elim (attempt m num) [
            | some a ↦ (record w { count = count }, some a)
            | none ↦ slaves_call attempt (record w { count = count })
          ])
]
