-- ===== src/Examples/Nodes.antt =====
-- A node's cache with one function and one connection.
use gorigin.Prelude.{ℕ, [], ◌∷◌, Option, some, Bytes, true, false, bytes_key, nat_key}
use gorigin.Pb.{FuncApi, FuncMsg, call, proto}
use gorigin.FuncCache.{NodeConn, FuncMap, put_msg, up_func_node, put_conn}
use gorigin.FuncCache.Laws.{empty}

abbrev msg : FuncMsg
msg = record {
  func_id = 101;
  api_name = 115 ∷ 46 ∷ 102 ∷ [];
  serv_name = 115 ∷ [];
  func_name = 102 ∷ [];
  api_type = call;
  protocal = proto;
}

abbrev uuid : Bytes
uuid = 117 ∷ []

abbrev conn : NodeConn
conn = record { uuid = uuid; host = []; tport = 0; uport = 0; hport = 0; wrong = false; stamp = 0 }

abbrev cache : FuncMap
cache = put_conn (up_func_node (put_msg empty msg).0 101 (uuid ∷ [])) true conn

abbrev ask : ℕ → Bytes → Option FuncApi
ask fid name = some (record { id = 101; name = msg.api_name; api_type = call; kind = proto })

abbrev reply : NodeConn → Option ℕ
reply c = some 5
