-- ===== src/FuncCache.antt =====
-- network/rpc/fmsg.go: a node's cache of functions and of connections, and `QueryFunc` of
-- network/rpc/node.go, which stands before it. The maps share a `funcdata` by pointer: a pointer is an
-- index into `objects`. Each operation is one step of its map.
pub mod Laws
pub mod Conns
use gorigin.Prelude.{
  ℕ, ◌+◌, List, [], ◌∷◌, ◌++◌, Option, none, some, Bytes, Bool, true, false, length, get_elem?, set,
  if◌then◌else◌, Dict, load, store, delete, keep, nat_key, bytes_key, ltb, ◌==◌, ◌||◌, not, Outcome,
  value, panic,
}
use gorigin.Pb.{FuncApi, FuncMsg}
use gorigin.Registry.{no_text}
use gorigin.Names.Comm

-- `one`, which nothing reads or writes, is left out.
pub record FuncData : Type 0 where
  pub msg : FuncMsg
  pub node : List Bytes

-- A connection, by its node and its marks. The sockets are known by the arguments that use them, so
-- that two connections to the same ports of a node are not told apart.
pub record NodeConn : Type 0 where
  pub uuid : Bytes
  pub host : Bytes
  pub tport : ℕ
  pub uport : ℕ
  pub hport : ℕ
  pub wrong : Bool
  pub stamp : ℕ

pub record FuncMap : Type 0 where
  pub ids : Dict ℕ ℕ
  pub str : Dict Bytes ℕ
  pub objects : List FuncData
  pub ser : Dict Bytes NodeConn

abbrev pub deref : FuncMap → Option ℕ → Option FuncData
deref f none = none
deref f (some a) = get_elem? f.objects a

unfoldable pub query_str : FuncMap → Bytes → Option FuncData
query_str f name = if no_text name then deref f (load name f.str) else none

unfoldable pub query : FuncMap → ℕ → Bytes → Option FuncData
query f fid name =
    let by_name = query_str f name in
    if fid == 0
    then elim (deref f (load fid f.ids)) [ some d ↦ some d | none ↦ by_name ]
    else by_name

-- The new entry of `PutMsg`.
unfoldable pub add_data : FuncMap → FuncMsg → FuncMap
add_data f arg = record f {
  ids = store arg.func_id (length f.objects) f.ids;
  str = store arg.api_name (length f.objects) f.str;
  objects = f.objects ++ (record { msg = arg; node = [] } ∷ []);
}

-- The table and the argument, whose number the code may write.
unfoldable pub put_msg : FuncMap → FuncMsg → FuncMap × FuncMsg
put_msg f arg =
    if arg.func_id == 0 || no_text arg.api_name then (f, arg) else elim (query f arg.func_id []) [
      | some d ↦ (f, record arg { func_id = d.msg.func_id })
      | none ↦ (add_data f arg, arg)
    ]

-- `data.node = …` through the pointer of `ids`.
unfoldable pub set_node : FuncMap → ℕ → (List Bytes → List Bytes) → FuncMap
set_node f fid change = elim (load fid f.ids) [
  | none ↦ f
  | some a ↦ elim (get_elem? f.objects a) [
    | none ↦ f
    | some d ↦ record f { objects = set f.objects a (record d { node = change d.node }) }
  ]
]

unfoldable pub up_func_node : FuncMap → ℕ → List Bytes → FuncMap
up_func_node f fid ids = set_node f fid (λ old. ids)

unfoldable pub add_func_node : FuncMap → ℕ → List Bytes → FuncMap
add_func_node f fid ids = set_node f fid (λ old. old ++ ids)

-- `tested` says that `TestConn` finds the connection that is there in order.
unfoldable pub put_conn : FuncMap → Bool → NodeConn → FuncMap
put_conn f tested conn =
    let new = record f { ser = store conn.uuid conn f.ser } in
    elim (load conn.uuid f.ser) [ none ↦ new | some arg ↦ (if tested then f else new) ]

-- What other code writes into a connection of the cache, through its pointer.
unfoldable pub set_conn : FuncMap → Bytes → Bool → Bytes → FuncMap
set_conn f uuid wrong host = elim (load uuid f.ser) [
  | none ↦ f
  | some conn ↦ record f { ser = store uuid (record conn { wrong = wrong; host = host }) f.ser }
]

unfoldable pub del_conn : FuncMap → Bytes → FuncMap
del_conn f uuid = record f { ser = delete uuid f.ser }

-- `v.stamp < now`, with `now` ten seconds ago; the code adds them to the stamp.
unfoldable pub clear_conn : FuncMap → ℕ → FuncMap
clear_conn f now = record f {
  ser = keep (λ uuid v. not (v.wrong || ltb (v.stamp + 10000) now)) f.ser;
}

-- The connections that can be used, of the nodes on a list.
unfoldable pub usable : Dict Bytes NodeConn → List Bytes → List NodeConn
usable ser [] = []
usable ser (id ∷ ids) =
    let rest = usable ser ids in
    elim (load id ser) [ none ↦ rest | some conn ↦ (if conn.wrong then rest else conn ∷ rest) ]

-- The function that `GetFuncConn` looks at.
unfoldable pub asked : FuncMap → ℕ → Bytes → Option FuncData
asked f fid name =
    if no_text name
    then (if fid == 0 then none else deref f (load fid f.ids))
    else deref f (load name f.str)

-- A function that is not there is a nil pointer, whose nodes the code reads.
unfoldable pub get_func_conn : FuncMap → ℕ → Bytes → Outcome (List NodeConn)
get_func_conn f fid name = elim (asked f fid name) [
  | none ↦ panic
  | some fmsg ↦ value (usable f.ser fmsg.node)
]

unfoldable pub get_node_conn : FuncMap → Bytes → Option NodeConn
get_node_conn f uuid = load uuid f.ser

-- The message that `QueryFunc` makes of a watcher's answer.
abbrev pub msg_of_api : FuncApi → FuncMsg
msg_of_api api =
    let parts = Comm.split_api_name api.name in
    record {
      func_id = api.id;
      api_name = api.name;
      serv_name = parts.0;
      func_name = parts.1;
      api_type = api.api_type;
      protocal = api.kind;
    }

-- `ask` is the call of the watcher's `GetFuncMsg`, with the function of its answer.
unfoldable pub query_func :
    (ℕ → Bytes → Option FuncApi) → FuncMap → ℕ → Bytes → FuncMap × Option FuncMsg
query_func ask f fid name = elim (query f fid name) [
  | some d ↦ (f, some d.msg)
  | none ↦ elim (ask fid name) [
    | none ↦ (f, none)
    | some api ↦ let (f', tmp) = put_msg f (msg_of_api api) in (f', some tmp)
  ]
]
