-- ===== src/Client/Config.antt =====
-- network/rpc/node.go: `newClient`, which makes a node from its configuration (network/node.go). Free
-- ports come from the operating system, and are arguments.
use gorigin.Prelude.{
  ℕ, List, [], ◌∷◌, Option, none, some, Bytes, Bool, true, false, not, ◌&&◌, ltb, ◌==◌,
  if◌then◌else◌, bytes_beq, ℤ, pos, negsuc,
}
use gorigin.Pb.{NodeInfo}
use gorigin.FuncCache.{NodeConn, FuncMap}
use gorigin.Client.{WatchNode, init_watch_config}

pub record WatcherConfig : Type 0 where
  pub host : Bytes
  pub tcp_port : ℕ
  pub udp_port : ℕ
  pub http_port : ℕ

-- The fields that `newClient` reads, but for the version.
pub record NodeConfig : Type 0 where
  pub node_name : Bytes
  pub watchers : List WatcherConfig
  pub heart_beat_time : ℤ
  pub tcp_port : ℕ
  pub tcp_listen_off : Bool
  pub udp_port : ℕ
  pub udp_listen_on : Bool
  pub http_port : ℕ
  pub http_listen_off : Bool

-- What `newClient` fills in, but for the host, the uuid and the process.
pub record Node : Type 0 where
  pub tport : ℕ
  pub uport : ℕ
  pub hport : ℕ
  pub heart : ℤ
  pub fmsg : FuncMap
  pub wser : WatchNode

-- "WATCHER".
abbrev pub watch_node_name : Bytes
watch_node_name = 87 ∷ 65 ∷ 84 ∷ 67 ∷ 72 ∷ 69 ∷ 82 ∷ []

-- Durations count nanoseconds: the constants are those of network/comm/watch.go.
abbrev pub heartbeat_interval : ℤ
heartbeat_interval = pos 2000000000

abbrev pub node_conn_time_out : ℤ
node_conn_time_out = negsuc 3999999999

abbrev pub second : ℤ
second = pos 1000000000

abbrev pub earlier : ℤ → ℤ → Bool
earlier (pos a) (pos b) = ltb a b
earlier (pos a) (negsuc b) = false
earlier (negsuc a) (pos b) = true
earlier (negsuc a) (negsuc b) = ltb b a

unfoldable pub heart_of : ℤ → ℤ
heart_of time =
    if earlier second time && earlier time node_conn_time_out then time else heartbeat_interval

-- A watcher of the configuration, as the code makes it: a host and two ports.
abbrev pub watcher_of : WatcherConfig → NodeInfo
watcher_of row = record {
  pid = 0;
  ver = [];
  uuid = [];
  name = [];
  main = false;
  host = row.host;
  tport = row.tcp_port;
  uport = row.udp_port;
  hport = 0;
  funcs = [];
}

unfoldable pub watchers_of : List WatcherConfig → List NodeInfo
watchers_of [] = []
watchers_of (row ∷ rows) = watcher_of row ∷ watchers_of rows

-- The port of a protocol, or none if a free one is wanted and there is none.
unfoldable pub port_of : Option ℕ → Bool → ℕ → Option ℕ
port_of free on port = if on && port == 0 then free else some (if on then port else 0)

-- The end of `newClient`, and whether there is no error: no node at all, or a node.
unfoldable pub join_watchers :
    (NodeConn → Bool)
    → (NodeConn → Bool)
    → (NodeConn → Bool)
    → NodeConfig
    → Node
    → Option (Node × Bool)
join_watchers test refresh tcp config n =
    if bytes_beq config.node_name watch_node_name then some (n, true) else elim config.watchers [
      | [] ↦ none
      | row ∷ rows ↦
          (let (f, w, ok) = init_watch_config test refresh tcp n.fmsg n.wser in
            some (record n { fmsg = f; wser = w }, ok))
    ]

-- What a node starts with.
abbrev pub new_watch : List WatcherConfig → WatchNode
new_watch rows = record {
  uuid = [];
  count = 0;
  procid = 0;
  config = watchers_of rows;
  master = none;
  slaves = [];
}

abbrev pub node_of : NodeConfig → ℕ → ℕ → ℕ → Node
node_of config tport uport hport = record {
  tport = tport;
  uport = uport;
  hport = hport;
  heart = heart_of config.heart_beat_time;
  fmsg = record { ids = []; str = []; objects = []; ser = [] };
  wser = new_watch config.watchers;
}

-- `marshals` says that `initMsgByte` makes its frames.
unfoldable pub new_client :
    (NodeConn → Bool)
    → (NodeConn → Bool)
    → (NodeConn → Bool)
    → (ℕ → Option ℕ)
    → Bool
    → NodeConfig
    → Option (Node × Bool)
new_client test refresh tcp free marshals config =
    elim (port_of (free 0) (not config.tcp_listen_off) config.tcp_port) [
      | none ↦ none
      | some tport ↦ elim (port_of (free 1) config.udp_listen_on config.udp_port) [
        | none ↦ none
        | some uport ↦ elim (port_of (free 2) (not config.http_listen_off) config.http_port) [
          | none ↦ none
          | some hport ↦
              (let n = node_of config tport uport hport in
                if marshals then join_watchers test refresh tcp config n else some (n, false))
        ]
      ]
    ]
