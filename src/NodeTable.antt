-- ===== src/NodeTable.antt =====
-- network/watch/node.go: the watcher's table of nodes. Times are milliseconds, given with each call.
pub mod Laws
use gorigin.Prelude.{
  ℕ, ◌+◌, List, [], ◌∷◌, Option, none, some, Bytes, Bool, true, false, if◌then◌else◌, Dict, load,
  store, keep, bytes_key, bytes_beq, ltb, not,
}
use mathlib.Core.Bool.{◌&&◌}
use gorigin.Pb.{NodeInfo, SystemStatus}
use gorigin.Registry.{no_text}

pub record NodeMsg : Type 0 where
  pub base : NodeInfo
  pub syst : Option SystemStatus
  pub stamp : ℕ
  pub state : Bool

-- `name` maps a server's name to uuids, `uuid` a uuid to its node.
pub record NodeMap : Type 0 where
  pub name : Dict Bytes (List Bytes)
  pub uuid : Dict Bytes NodeMsg

-- `NodeConnTimeOut` is four seconds before now; the code adds it to a time.
abbrev pub node_conn_time_out : ℕ
node_conn_time_out = 4000

unfoldable pub up_heartbeat : NodeMap → ℕ → SystemStatus → NodeMap × Bool
up_heartbeat n now sys = elim (load sys.uuid n.uuid) [
  | none ↦ (n, false)
  | some msg ↦ (
    record n {
      uuid = store sys.uuid (record msg { stamp = now; state = true; syst = some sys }) n.uuid;
    },
    true,
  )
]

unfoldable pub get_node_by_uuid : NodeMap → Bytes → Option NodeInfo
get_node_by_uuid n uuid =
    if no_text uuid
    then none
    else elim (load uuid n.uuid) [ none ↦ none | some msg ↦ some msg.base ]

-- A nil slice is an empty one.
unfoldable pub get_uuid_by_name : NodeMap → Bytes → List Bytes
get_uuid_by_name n name = elim (load name n.name) [ none ↦ [] | some ids ↦ ids ]

unfoldable pub nodes_of : NodeMap → List Bytes → List NodeInfo
nodes_of n [] = []
nodes_of n (id ∷ ids) =
    let rest = nodes_of n ids in
    elim (get_node_by_uuid n id) [ none ↦ rest | some tmp ↦ tmp ∷ rest ]

unfoldable pub get_node_by_name : NodeMap → Bytes → List NodeInfo
get_node_by_name n name = nodes_of n (get_uuid_by_name n name)

-- A node that is known is only marked as alive, if its host is the same.
unfoldable pub put_node_detail : NodeMap → ℕ → NodeInfo → NodeMap
put_node_detail n now msg = elim (load msg.uuid n.uuid) [
  | some arg ↦
      if bytes_beq arg.base.host msg.host
      then record n { uuid = store msg.uuid (record arg { stamp = now; state = true }) n.uuid }
      else n
  | none ↦ record n {
    uuid =
        store msg.uuid
          (record { base = record msg { funcs = [] }; syst = none; stamp = now; state = true })
          n.uuid;
  }
]

-- `v.stamp < exp`, with `exp` the time `node_conn_time_out` before `now`.
abbrev pub is_late : ℕ → NodeMsg → Bool
is_late now v = ltb (v.stamp + node_conn_time_out) now

-- What is deleted also has its state cleared, in an object that nothing else holds.
unfoldable pub clear_node_exprie : NodeMap → ℕ → NodeMap
clear_node_exprie n now = record n { uuid = keep (λ key v. v.state && not (is_late now v)) n.uuid }
