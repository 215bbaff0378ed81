-- ===== src/Examples/Tables.antt =====
-- A watcher's tables with one API and one node.
use gorigin.Prelude.{
  sym, ap, some-injective, Option, ◌+◌, ◌≤◌, ◌<◌, ◌≡◌, ◌⊎◌, refl, [], ◌∷◌, none, some, Bytes, All,
  load, arith, true, false, nat_key, bytes_key, bytes_beq, store,
}
use gorigin.Registry.Files.{new_map, restart, EnvFile, up_env_file, deeper}
use gorigin.Registry.Restart.{restart-forgets, up_env_file-endless}
use gorigin.Pb.{FuncMsg, FuncApi, NodeInfo, SystemStatus, RegisteredRsp, GetApiConnRsp, proto, call}
use gorigin.Names.{split_dots}
use gorigin.Names.Comm
use gorigin.Registry.{FuncData, FuncMap, put_api, add_object, get_str, get_ids, built_in_max}
use gorigin.Registry.Invariant.{IsConsistent}
use gorigin.Registry.Laws.{Registered, put_api-Registered, put_api-IsConsistent}
use gorigin.Registry.Numbers.{func_id-injective, Survives, put_api-Survives}
use gorigin.NodeTable.{
  NodeMsg, NodeMap, node_conn_time_out, up_heartbeat, get_node_by_uuid, put_node_detail,
  clear_node_exprie,
}
use gorigin.NodeTable.Laws.{Reach, start, next, puts, load-clear_node_exprie, heartbeat-keeps}
use gorigin.Watcher.{Watcher, registered, get_api_conn}
use gorigin.Watcher.Conns.{get_api_conn-again}
use gorigin.Watcher.Answers.{Answered, registered-Answered}

abbrev no_apis : FuncMap
no_apis = record { ids = []; str = []; objects = []; num = built_in_max; written = [] }

no_apis-IsConsistent : IsConsistent no_apis
unfolding load
no_apis-IsConsistent = record { by_name = λ name a h. ground arith; by_id = λ id a h. ground arith }

-- "u", and "s.f".
abbrev u : Bytes
u = 117 ∷ []

abbrev api_name : Bytes
api_name = 115 ∷ 46 ∷ 102 ∷ []

abbrev api : FuncApi
api = record { id = 0; name = api_name; api_type = call; kind = proto }

abbrev one_api : FuncMap
one_api = (put_api no_apis u api).0

one_api-IsConsistent : IsConsistent one_api
one_api-IsConsistent = put_api-IsConsistent no_apis u api (omega arith) no_apis-IsConsistent

put_api-IsConsistent_example : IsConsistent (put_api no_apis u api).0
put_api-IsConsistent_example = put_api-IsConsistent no_apis u api (omega arith) no_apis-IsConsistent

put_api-Registered_example :
    ((put_api no_apis u api).2 ≡ none)
    × Registered (put_api no_apis u api).0 u (put_api no_apis u api).1 api_name
put_api-Registered_example =
    put_api-Registered no_apis u api (omega arith) no_apis-IsConsistent refl

abbrev the_api : FuncData
the_api = record {
  msg = record {
    func_id = built_in_max + 1;
    api_name = api_name;
    serv_name = 115 ∷ [];
    func_name = 102 ∷ [];
    api_type = call;
    protocal = proto;
  };
  api = record { id = built_in_max + 1; name = api_name; api_type = call; kind = proto };
  node = u ∷ [];
}

known : get_str one_api api_name ≡ some the_api
unfolding get_str load put_api add_object store bytes_beq Comm.split_api_name split_dots
known = refl

func_id-injective_example : api_name ≡ api_name
func_id-injective_example =
    func_id-injective no_apis ((u, api) ∷ []) api_name api_name the_api the_api no_apis-IsConsistent
      (omega arith) known known refl

abbrev v : Bytes
v = 118 ∷ []

put_api-Survives_example : Survives one_api (put_api one_api v api).0 api_name the_api
put_api-Survives_example =
    put_api-Survives one_api v api api_name the_api one_api-IsConsistent known

-- A line of the file, read as an API.
abbrev read : FuncMsg → Option FuncApi
read msg = some (record { id = 0; name = []; api_type = call; kind = proto })

abbrev before : FuncMap
before = (put_api (put_api new_map u api).0 u (record api { name = 120 ∷ [] })).0

restart-forgets_example :
    (restart read before ≡ new_map)
    × ((put_api (restart read before) u (record api { name = 121 ∷ [] })).1.id
        ≡ (put_api new_map u api).1.id)
restart-forgets_example =
    restart-forgets read before u u api (record api { name = 121 ∷ [] })
      (λ m x e. ap (λ (o : FuncApi). o.id) (some-injective x _ (sym e))) refl refl

abbrev empty_file : EnvFile
empty_file = record { conf = []; bak = []; backup = false; writes = 0 }

up_env_file-endless_example :
    up_env_file (λ k. false) (λ name. true) (λ a. some a.name) 5 (api ∷ []) empty_file ≡ deeper
up_env_file-endless_example =
    up_env_file-endless (λ k. false) (λ name. true) (λ a. some a.name) api [] api_name 5 empty_file
      (λ k. refl) (λ name. refl) refl

abbrev no_nodes : NodeMap
no_nodes = record { name = []; uuid = [] }

abbrev here : NodeInfo
here = record {
  pid = 1;
  ver = [];
  uuid = u;
  name = [];
  main = false;
  host = 49 ∷ [];
  tport = 1;
  uport = 2;
  hport = 3;
  funcs = [];
}

abbrev beat : SystemStatus
beat = record { uuid = u; cpu_rate = 0; mem_free = 0; mem_used = 0; conn_num = 0 }

abbrev one_node : NodeMap
one_node = put_node_detail no_nodes 100 here

one_node-Reach : Reach one_node
one_node-Reach = next start (puts no_nodes 100 here)

load-clear_node_exprie_example :
    ((load u one_node.uuid ≡ none) × (load u (clear_node_exprie one_node 9000).uuid ≡ none))
    ⊎ ((m : NodeMsg) × (load u one_node.uuid ≡ some m)
        × (((m.state ≡ true)
              × (9000 ≤ m.stamp + node_conn_time_out)
              × (load u (clear_node_exprie one_node 9000).uuid ≡ some m))
            ⊎ (((m.state ≡ false) ⊎ (m.stamp + node_conn_time_out < 9000))
                × (load u (clear_node_exprie one_node 9000).uuid ≡ none))))
load-clear_node_exprie_example = load-clear_node_exprie one_node 9000 u one_node-Reach

accepted_beat : (up_heartbeat one_node 2000 beat).1 ≡ true
unfolding up_heartbeat put_node_detail load store bytes_beq
accepted_beat = refl

heartbeat-keeps_example :
    (base : NodeInfo) × (get_node_by_uuid one_node u ≡ some base)
    × (get_node_by_uuid (clear_node_exprie (up_heartbeat one_node 2000 beat).0 5000) u ≡ some base)
heartbeat-keeps_example =
    heartbeat-keeps one_node 2000 5000 beat one_node-Reach accepted_beat refl (omega arith)

abbrev watcher : Watcher
watcher = record { fmsg = no_apis; node = no_nodes; watch = [] }

abbrev request : NodeInfo
request = record here { funcs = api ∷ [] }

abbrev empty_rsp : RegisteredRsp
empty_rsp = record { watch = []; funcs = [] }

registered-Answered_example :
    All
      (Answered (registered watcher 100 request empty_rsp).0.fmsg)
      (registered watcher 100 request empty_rsp).1.funcs
registered-Answered_example =
    registered-Answered watcher 100 request (omega arith) no_apis-IsConsistent refl

abbrev one_api_watcher : Watcher
one_api_watcher = record { fmsg = one_api; node = one_node; watch = [] }

abbrev conn_rsp : GetApiConnRsp
conn_rsp = record { msg = none; list = [] }

known_id : get_ids one_api 31 ≡ some the_api
unfolding get_ids load put_api add_object store bytes_beq Comm.split_api_name split_dots
known_id = refl

get_api_conn-again_example :
    get_api_conn (get_api_conn one_api_watcher 31 [] conn_rsp).0 31 [] conn_rsp
    ≡ get_api_conn one_api_watcher 31 [] conn_rsp
get_api_conn-again_example =
    get_api_conn-again one_api_watcher 31 [] conn_rsp the_api refl one_api-IsConsistent known_id
