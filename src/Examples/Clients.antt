-- ===== src/Examples/Clients.antt =====
-- A node and its watchers: two in its configuration, and the response to its registration.
use gorigin.Prelude.{
  ℕ, ◌+◌, pos, ◌≡◌, refl, [], ◌∷◌, none, some, List, Option, Bytes, Bool, All, arith, true, false,
  load, nat_key, bytes_key, store, if◌then◌else◌,
}
use gorigin.Pb.{FuncApi, NodeInfo, proto, call}
use gorigin.Registry.Invariant.{IsConsistent}
use gorigin.Registry.{built_in_max}
use gorigin.Watcher.{Watcher, registered}
use gorigin.FuncCache.{NodeConn, query}
use gorigin.FuncCache.Laws.{start, empty}
use gorigin.Client.{WatchNode, register_funcs}
use gorigin.Client.Config.{WatcherConfig, NodeConfig, Node, heartbeat_interval, new_watch}
use gorigin.Client.Registering.{HasNoConn, registered-register_funcs}

-- A watcher of the configuration: a host and a port.
abbrev watcher : ℕ → NodeInfo
watcher host = record {
  pid = 0;
  ver = [];
  uuid = [];
  name = [];
  main = false;
  host = host ∷ [];
  tport = 1;
  uport = 0;
  hport = 0;
  funcs = [];
}

abbrev client : WatchNode
client = record {
  uuid = [];
  count = 0;
  procid = 7;
  config = watcher 1 ∷ watcher 1 ∷ watcher 2 ∷ [];
  master = none;
  slaves = [];
}

abbrev works : NodeConn → Bool
works c = true

-- The connection to the first watcher.
abbrev first : NodeConn
first = record {
  uuid = [];
  host = 1 ∷ [];
  tport = 1;
  uport = 0;
  hport = 0;
  wrong = false;
  stamp = 0;
}

abbrev row : ℕ → WatcherConfig
row host = record { host = host ∷ []; tcp_port = 1; udp_port = 0; http_port = 0 }

-- A heartbeat of five seconds, and free ports from 1000 on.
abbrev config : NodeConfig
config = record {
  node_name = 110 ∷ [];
  watchers = row 1 ∷ row 1 ∷ row 2 ∷ [];
  heart_beat_time = pos 5000000000;
  tcp_port = 0;
  tcp_listen_off = false;
  udp_port = 0;
  udp_listen_on = false;
  http_port = 80;
  http_listen_off = false;
}

abbrev free : ℕ → Option ℕ
free k = some (1000 + k)

abbrev made : Node
made = record {
  tport = 1000;
  uport = 0;
  hport = 80;
  heart = heartbeat_interval;
  fmsg = record empty { ser = store [] first [] };
  wser = record (new_watch config.watchers) { master = some first; slaves = first ∷ [] };
}

-- A master that does not take requests, and a slave that answers with the number.
abbrev answers : NodeConn → ℕ → Option ℕ
answers c num = if c.wrong then none else some num

abbrev asking : WatchNode
asking = record client { master = some (record first { wrong = true }); slaves = first ∷ [] }

-- "u", and "s.f".
abbrev api : FuncApi
api = record { id = 0; name = 115 ∷ 46 ∷ 102 ∷ []; api_type = call; kind = proto }

abbrev node : NodeInfo
node = record (watcher 1) { uuid = 117 ∷ []; funcs = api ∷ [] }

abbrev new_watcher : Watcher
new_watcher = record {
  fmsg = record { ids = []; str = []; objects = []; num = built_in_max; written = [] };
  node = record { uuid = []; name = [] };
  watch = [];
}

new_watcher-IsConsistent : IsConsistent new_watcher.fmsg
unfolding load
new_watcher-IsConsistent = record {
  by_name = λ name a h. ground arith;
  by_id = λ id a h. ground arith;
}

abbrev told : List FuncApi
told = (registered new_watcher 0 node (record { watch = []; funcs = [] })).1.funcs

registered-register_funcs_example :
    ((fid : ℕ) (name : Bytes) → query (register_funcs empty told) fid name ≡ none)
    × All (HasNoConn (register_funcs empty told)) told
unfolding load
registered-register_funcs_example =
    registered-register_funcs new_watcher 0 node empty (omega arith) new_watcher-IsConsistent refl
      refl (refl, tt) start
