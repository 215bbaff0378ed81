-- ===== src/WatchFmsg.antt =====
-- network/comm/watch.go: the functions of the watcher, which a node calls by their numbers, and the end
-- of `runServer` (network/rpc/node.go), where the watcher puts them into its cache.
pub mod Unheard
use gorigin.Prelude.{ℕ, List, [], ◌∷◌, ◌++◌, Bytes, map}
use gorigin.Wire.{bytes_of}
use gorigin.Pb.{ApiType, send, call, proto, FuncMsg}
use gorigin.FuncCache.{FuncMap}
use gorigin.Serve.{put_msgs}

abbrev pub watch_name : Bytes
watch_name = bytes_of "WatchApi"

-- The literal of `WatchFmsg`: number, type and name.
abbrev pub watch_rows : List (ℕ × ApiType × Bytes)
watch_rows =
    (81, send, bytes_of "Heartbeats")
    ∷ (80, call, bytes_of "Registered")
    ∷ (82, call, bytes_of "GetNodeMsg")
    ∷ (83, call, bytes_of "GetFuncMsg")
    ∷ (84, call, bytes_of "GetWatcher")
    ∷ (85, call, bytes_of "GetApiConn")
    ∷ (86, call, bytes_of "NewServers")
    ∷ []

-- A row behind `init`.
unfoldable pub init_row : ℕ × ApiType × Bytes → FuncMsg
init_row (id, api, name) = record {
  func_id = id;
  api_name = watch_name ++ bytes_of "." ++ name;
  serv_name = watch_name;
  func_name = name;
  api_type = api;
  protocal = proto;
}

unfoldable pub watch_fmsg : List FuncMsg
watch_fmsg = map init_row watch_rows

-- The loop of `runServer` over the rows, which come in any order.
unfoldable pub put_watch : FuncMap → List FuncMsg → FuncMap
put_watch f rows = put_msgs f rows
