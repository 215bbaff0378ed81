-- ===== src/Starts.antt =====
-- network/rpc/node.go, `runServer`, and network/watch/watch.go, `NewWatcher`: what a node and a watcher
-- start, in the order of the code. Whether a step has an error is an argument.
pub mod Ports
use gorigin.Prelude.{
  ℕ, List, [], ◌∷◌, ◌++◌, Option, none, some, Bytes, Bool, true, false, not, ◌&&◌, ◌||◌, ◌==◌, ltb,
  if◌then◌else◌, bytes_beq, pos,
}
use gorigin.Wire.{bytes_of}
use gorigin.Registry.{no_text}
use gorigin.Client.Config.{WatcherConfig, NodeConfig, Node, watch_node_name}

pub data Act : Type 0 where
  listens_tcp listens_udp serves_http : ℕ → Act
  registers puts_functions starts_timer : Act

-- An error of the HTTP server is a panic of its own goroutine; the last two steps have no error.
abbrev pub has_error : Act → Bool
has_error (listens_tcp port) = true
has_error (listens_udp port) = true
has_error (serves_http port) = false
has_error registers = true
has_error puts_functions = false
has_error starts_timer = false

-- The steps of `runServer`: a protocol without a port is left out.
unfoldable pub run_steps : Bytes → Node → List Act
run_steps name n =
    let last = if bytes_beq name watch_node_name then puts_functions else registers in
    let http =
      (if ltb 0 n.hport then serves_http n.hport ∷ [] else []) ++ (last ∷ starts_timer ∷ []) in
    let udp = (if ltb 0 n.uport then listens_udp n.uport ∷ [] else []) ++ http in
    (if ltb 0 n.tport then listens_tcp n.tport ∷ [] else []) ++ udp

-- The steps that are done, which the first error ends, and whether there is none. What is started
-- before an error stays.
unfoldable pub run_all : (Act → Bool) → List Act → List Act × Bool
run_all works [] = ([], true)
run_all works (a ∷ rest) =
    let later = run_all works rest in
    if not (has_error a) || works a then (a ∷ later.0, later.1) else ([], false)

unfoldable pub run_server : (Act → Bool) → Bytes → Node → List Act × Bool
run_server works name n = run_all works (run_steps name n)

-- The configuration that `NewWatcher` gives to `WatchClient`.
unfoldable pub watch_config : WatcherConfig → NodeConfig
watch_config conf = record {
  node_name = watch_node_name;
  watchers = [];
  heart_beat_time = pos 0;
  tcp_port = conf.tcp_port;
  tcp_listen_off = false;
  udp_port = conf.udp_port;
  udp_listen_on = false;
  http_port = conf.http_port;
  http_listen_off = false;
}

-- `NewWatcher`, behind the test of the ports and the host: `client` is `WatchClient`, `registered` says
-- that `Register` takes the handlers. The cleaning of the table of nodes, which the timer gets in the
-- end, is left out.
unfoldable pub start_watcher :
    (NodeConfig → Option (Node × Bool)) → Bool → (Act → Bool) → WatcherConfig → List Act × Bool
start_watcher client registered works conf = elim (client (watch_config conf)) [
  | none ↦ ([], false)
  | some r ↦ (if r.1 && registered then run_server works watch_node_name r.0 else ([], false))
]

-- `local` is the address of the machine.
unfoldable pub new_watcher :
    Option Bytes
    → (NodeConfig → Option (Node × Bool))
    → Bool
    → (Act → Bool)
    → WatcherConfig
    → List Act × Bool
new_watcher local client registered works conf =
    let start = start_watcher client registered works conf in
    if conf.tcp_port == 0 && conf.udp_port == 0 && conf.http_port == 0
    then ([], false)
    else if no_text conf.host || bytes_beq conf.host (bytes_of "127.0.0.1")
    then elim local [ none ↦ ([], false) | some host ↦ start ]
    else start
