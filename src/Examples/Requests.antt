-- ===== src/Examples/Requests.antt =====
-- Requests of a node.
use gorigin.Prelude.{
  ℕ, ◌≡◌, refl, List, [], ◌∷◌, Option, none, some, Bytes, Bool, true, false, load, bytes_key,
  bytes_beq, value,
}
use gorigin.Pb.{FuncMsg, send, proto}
use gorigin.FuncCache.{NodeConn}
use gorigin.Names.Rpc
use gorigin.Names.{split_dots}
use gorigin.Calls.{ServerFunc, Server, NodeDetail}
use gorigin.Services as Services
use gorigin.Services.{
  GoType, Method, ptr, is_wrong, check_out, parse_send, parse_methods_num_in, new_func,
}
use gorigin.Elect.{WatchElect, ElectCampReq}

abbrev conn : Bool → NodeConn
conn wrong = record {
  uuid = 117 ∷ [];
  host = [];
  tport = 0;
  uport = 0;
  hport = 0;
  wrong = wrong;
  stamp = 0;
}

abbrev conns : List NodeConn
conns = conn true ∷ conn false ∷ []

abbrev answers : NodeConn → Option ℕ
answers c = some 5

-- "s.f".
abbrev name : Bytes
name = 115 ∷ 46 ∷ 102 ∷ []

abbrev func : ServerFunc
func = record { fname = 102 ∷ []; api = send }

abbrev service : Server
service = record { sname = 115 ∷ []; funcs = (102 ∷ [], func) ∷ [] }

abbrev node : NodeDetail
node = record { uuid = 117 ∷ []; name = []; funcs = (115 ∷ [], service) ∷ [] }

abbrev msg : FuncMsg
msg = record {
  func_id = 101;
  api_name = name;
  serv_name = 115 ∷ [];
  func_name = 102 ∷ [];
  api_type = send;
  protocal = proto;
}

abbrev query : Bytes → Option FuncMsg
query n = some msg

has_service : load msg.serv_name node.funcs ≡ some service
unfolding load bytes_beq
has_service = refl

has_func : load msg.func_name service.funcs ≡ some func
unfolding load bytes_beq
has_func = refl

unnamed : (Rpc.split_api_name name).0 ≡ []
unfolding Rpc.split_api_name split_dots
unnamed = refl

abbrev pointer : GoType
pointer = record { kind = ptr; number = 2 }

abbrev method : Method
method = record {
  name = 102 ∷ [];
  ins = pointer ∷ pointer ∷ [];
  outs = record { kind = ptr; number = 1 } ∷ [];
}

abbrev parsed : Services.ServerFunc
parsed = record (new_func method) { req = some pointer }

parses : parse_methods_num_in 1 method (new_func method) ≡ value (none, parsed)
unfolding parse_methods_num_in parse_send check_out
parses = refl

abbrev own : WatchElect
own = record { center = false; begin = 50; exprie = 10050; node_id = 97 ∷ [] }

abbrev campaigns : List (ℕ × ElectCampReq)
campaigns = (70, record { base = 98 ∷ []; uuids = []; begin = 40; exprie = 10040 }) ∷ []
