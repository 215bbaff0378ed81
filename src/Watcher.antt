-- ===== src/Watcher.antt =====
-- network/watch/watch.go: the handlers of the watcher, over the table of APIs and the table of nodes.
-- Logging is left out. Each handler takes the time, and returns the state, the response that it
-- fills, and its error.
pub mod Laws
pub mod Answers
pub mod Conns
pub mod Numbers
use gorigin.Prelude.{
  ℕ, List, [], ◌∷◌, ◌++◌, map, Option, none, some, Bytes, Bool, true, false, if◌then◌else◌, ◌==◌,
  load, nat_key, bytes_key, get_elem?, set, Dict,
}
use gorigin.Pb.{
  FuncApi, FuncMsg, NodeInfo, SystemStatus, RegisteredRsp, GetFuncMsgRsp, GetNodeMsgRsp,
  GetApiConnRsp,
}
use gorigin.Registry.{FuncData, FuncMap, no_text, put_api, get_ids, get_str, range_api}
use gorigin.NodeTable.{NodeMap, up_heartbeat, get_node_by_uuid, get_node_by_name, put_node_detail}

-- `watch` holds the base data of the `WatchNode`s of `WatchDetail`.
pub record Watcher : Type 0 where
  pub fmsg : FuncMap
  pub node : NodeMap
  pub watch : List NodeInfo

pub data Error : Type 0 where
  null_uuid node_not_found : Error

-- The loop of `Registered` over `req.Funcs`: what `PutApi` answers is not looked at, and each API goes
-- to the response, with its number.
unfoldable pub put_apis : FuncMap → Bytes → List FuncApi → FuncMap × List FuncApi
put_apis f uuid [] = (f, [])
put_apis f uuid (v ∷ vs) =
    let (f', v', _) = put_api f uuid v in let (f'', vs') = put_apis f' uuid vs in (f'', v' ∷ vs')

-- The fields of a watcher that a response carries.
abbrev pub watcher_info : NodeInfo → NodeInfo
watcher_info row = record {
  pid = 0;
  ver = [];
  uuid = row.uuid;
  name = [];
  main = row.main;
  host = row.host;
  tport = row.tport;
  uport = row.uport;
  hport = row.hport;
  funcs = [];
}

unfoldable pub registered :
    Watcher → ℕ → NodeInfo → RegisteredRsp → Watcher × RegisteredRsp × Option Error
registered w now req rsp =
    if no_text req.uuid
    then (w, rsp, some null_uuid)
    else (let (fmsg, funcs) = put_apis w.fmsg req.uuid req.funcs in
        (
          record w {
            fmsg = fmsg;
            node = put_node_detail w.node now (record req { funcs = funcs });
          },
          record { watch = rsp.watch ++ map watcher_info w.watch; funcs = rsp.funcs ++ funcs },
          none,
        ))

unfoldable pub heartbeats : Watcher → ℕ → SystemStatus → Watcher × Option Error
heartbeats w now req =
    let (node, found) = up_heartbeat w.node now req in
    (record w { node = node }, (if found then none else some node_not_found))

abbrev pub api_of : Option FuncData → Option FuncApi
api_of none = none
api_of (some d) = some d.api

abbrev pub msg_of : Option FuncData → Option FuncMsg
msg_of none = none
msg_of (some d) = some d.msg

unfoldable pub get_func_msg : Watcher → ℕ → Bytes → GetFuncMsgRsp → GetFuncMsgRsp
get_func_msg w func_id api_name rsp =
    if func_id == 0
    then (if no_text api_name
        then record rsp { list = rsp.list ++ range_api w.fmsg.ids w.fmsg.objects }
        else record rsp { api = api_of (get_str w.fmsg api_name) })
    else record rsp { api = api_of (get_ids w.fmsg func_id) }

unfoldable pub get_node_msg : Watcher → Bytes → Bytes → GetNodeMsgRsp → GetNodeMsgRsp × Option Error
get_node_msg w uuid name rsp =
    if no_text uuid
    then (if no_text name
        then (rsp, some node_not_found)
        else (record rsp { list = get_node_by_name w.node name }, none))
    else (record rsp { node = get_node_by_uuid w.node uuid }, none)

-- The loop of `GetApiConn`: the nodes that are in the table, and their uuids.
unfoldable pub live_nodes : NodeMap → List Bytes → List NodeInfo × List Bytes
live_nodes n [] = ([], [])
live_nodes n (id ∷ ids) =
    let (infos, uuids) = live_nodes n ids in
    elim (get_node_by_uuid n id) [ none ↦ (infos, uuids) | some tmp ↦ (tmp ∷ infos, id ∷ uuids) ]

abbrev pub asked_msg : Watcher → ℕ → Bytes → Option FuncMsg → Option FuncMsg
asked_msg w func_id api_name old =
    if func_id == 0
    then (if no_text api_name then old else msg_of (get_str w.fmsg api_name))
    else msg_of (get_ids w.fmsg func_id)

-- `rsp.GetFunc().GetFuncID()`.
abbrev pub id_of : Option FuncMsg → ℕ
id_of none = 0
id_of (some m) = m.func_id

unfoldable pub get_api_conn : Watcher → ℕ → Bytes → GetApiConnRsp → Watcher × GetApiConnRsp
get_api_conn w func_id api_name rsp =
    let msg = asked_msg w func_id api_name rsp.msg in
    let f = w.fmsg in
    let missing : Watcher × GetApiConnRsp = (w, record rsp { msg = msg }) in
    elim (load (id_of msg) f.ids) [
      | none ↦ missing
      | some a ↦ elim (get_elem? f.objects a) [
        | none ↦ missing
        | some d ↦
            let (infos, uuids) = live_nodes w.node d.node in
            (
              record w {
                fmsg = record f { objects = set f.objects a (record d { node = uuids }) };
              },
              record { msg = msg; list = rsp.list ++ infos },
            )
      ]
    ]
