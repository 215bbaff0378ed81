-- ===== src/Examples/Remote.antt =====
-- Requests to other nodes, from a cache with one function and one connection.
use gorigin.Prelude.{
  ℕ, ◌≡◌, refl, [], ◌∷◌, none, some, List, Option, Bytes, Bool, true, false, map, value, load,
  nat_key, bytes_key, bytes_beq,
}
use gorigin.Pb.{FuncMsg, call, proto}
use gorigin.FuncCache.{NodeConn, FuncMap, get_func_conn, asked, usable}
use gorigin.Calls.{get_remote_conn, remote_rows}
use gorigin.Calls.Sending.{Sockets, SendRsp, sendall, reports, reached, sendall-reports}

-- "u".
abbrev conn : NodeConn
conn = record {
  uuid = 117 ∷ [];
  host = 1 ∷ [];
  tport = 0;
  uport = 0;
  hport = 0;
  wrong = false;
  stamp = 0;
}

abbrev msg : FuncMsg
msg = record {
  func_id = 40;
  api_name = 115 ∷ 46 ∷ 102 ∷ [];
  serv_name = 115 ∷ [];
  func_name = 102 ∷ [];
  api_type = call;
  protocal = proto;
}

abbrev cache : FuncMap
cache = record {
  ids = (40, 0) ∷ [];
  str = (115 ∷ 46 ∷ 102 ∷ [], 0) ∷ [];
  objects = record { msg = msg; node = (117 ∷ []) ∷ [] } ∷ [];
  ser = (117 ∷ [], conn) ∷ [];
}

abbrev works : NodeConn → Bool
works c = true

-- No TCP, and a UDP socket that fails.
abbrev sockets : Sockets
sockets = record { by_tcp = λ c. none; by_udp = λ c. some (true ∷ false ∷ []); by_http = λ c. none }

sendall-reports_example :
    (rs : List SendRsp) × (sendall works works [] sockets true cache
        (115 ∷ 46 ∷ 102 ∷ [])
        (some msg)
      ≡ value (cache, none, rs))
    × (reports rs ≡ map (λ c. (c.uuid, reached sockets c)) (conn ∷ []))
unfolding get_remote_conn get_func_conn asked usable load remote_rows bytes_beq
sendall-reports_example =
    sendall-reports works works [] sockets cache cache (115 ∷ 46 ∷ 102 ∷ []) msg conn [] refl refl

abbrev attempt : Bytes → NodeConn → Option ℕ
attempt body c = some 1
