-- ===== src/Examples/Rounds.antt =====
-- A request to a function that answers with what it is given.
use gorigin.Prelude.{
  ℕ, ◌≡◌, ◌≤◌, refl, length, [], ◌∷◌, ◌++◌, none, some, List, Option, Bytes, Bool, arith, true,
  false, replicate, value, load, nat_key, bytes_key, bytes_beq, Dict, map,
}
use gorigin.Pb.{FuncApi, NodeInfo, proto, call}
use gorigin.Wire.{tcpsplit, tcpsplit-IsGeometry}
use gorigin.Wire.Encode.{make_req_body}
use gorigin.Conn.{Links, nothing}
use gorigin.Conn.Transfer.{receive, arrive}
use gorigin.Conn.Frames.{frame_count, IsOrder, the_reply}
use gorigin.FuncCache.{NodeConn, FuncMap, query_func, query, query_str, put_msg}
use gorigin.FuncCache.Laws.{empty}
use gorigin.Names.{split_dots}
use gorigin.Names.Comm.{split_api_name}
use gorigin.Services.{GoType, Method, ServerFunc, Server, ptr, interface_kind}
use gorigin.Protocal.{ok, fails, Libs, unmarshal_value, unmarshal_into, marshal_value}
use gorigin.Serve.{
  Output, Codec, dispatch, parse_rsp_byte, find_call, find_func, find_one, value_multi, value_call,
}
use gorigin.Serve.Rounds.{request-response}

abbrev no_node : NodeInfo
no_node = record {
  pid = 0;
  ver = [];
  uuid = [];
  name = [];
  main = false;
  host = [];
  tport = 0;
  uport = 0;
  hport = 0;
  funcs = [];
}

-- What is left of the arguments: the first one in all.
abbrev echoed : List Bytes → List Bytes
echoed [] = []
echoed (x ∷ xs) = x ∷ map (λ y. x) xs

abbrev pointer : GoType
pointer = record { kind = ptr; number = 1 }

abbrev libs : Libs Bytes
libs = record {
  type_of = λ v. pointer;
  new_elem = λ t. value [];
  is_message = λ v. true;
  proto_unmarshal = λ bts v. ok bts;
  json_unmarshal = λ bts v. ok bts;
  protojson_unmarshal = λ bts v. fails [];
  proto_marshal = λ v. ok v;
  json_marshal = λ v. ok v;
}

-- Values are bytes as they are, and each method answers with its first argument.
abbrev echo : Codec Bytes
echo = record {
  libs = libs;
  invoke = λ f vs. value (echoed vs, Output.nothing ∷ []);
  multi_body = λ bts. ok (2, bts ∷ []);
  node_info = λ bts. ok no_node;
  func_list = λ bts. ok [];
  conn_rsp = λ bts. ok (record { msg = none; list = [] });
}

-- F(req, rsp) error.
abbrev method : Method
method = record {
  name = 102 ∷ [];
  ins = pointer ∷ pointer ∷ pointer ∷ [];
  outs = record { kind = interface_kind; number = 9 } ∷ [];
}

abbrev echo_func : ServerFunc
echo_func = record {
  method = method;
  fname = 102 ∷ [];
  api = call;
  req = some pointer;
  rsp = some pointer;
  args = [];
}

abbrev server : Server
server = record { proto = proto; sname = 115 ∷ []; funcs = (102 ∷ [], echo_func) ∷ [] }

abbrev servers : Dict Bytes Server
servers = (115 ∷ [], server) ∷ []

-- The watcher knows the function 40, "s.f".
abbrev ask : ℕ → Bytes → Option FuncApi
ask fid name = some (record { id = 40; name = 115 ∷ 46 ∷ 102 ∷ []; api_type = call; kind = proto })

abbrev works : NodeConn → Bool
works c = true

abbrev no_links : Links
no_links k = none

abbrev body : Bytes
body = 7 ∷ 8 ∷ []

abbrev after : FuncMap
after = (query_func ask empty 40 []).0

one_frame : frame_count tcpsplit body ≡ 1
unfolding tcpsplit
one_frame = refl

only : IsOrder (frame_count tcpsplit body) (0 ∷ [])
unfolding tcpsplit
only = record { distinct = (tt, tt); within = (omega arith, tt); complete = refl }

short : length body ≤ tcpsplit.body_split
unfolding tcpsplit
short = omega arith

request-response_example :
    (cb : Bytes) × (rs : List Bytes) × (clinks : Links) × (make_req_body tcpsplit body 300 40
      ≡ value (cb ∷ []))
    × (parse_rsp_byte tcpsplit (dispatch echo works works none servers ask []) empty no_links cb
        ≡ value (after, no_links, rs))
    × (receive tcpsplit no_links (arrive rs (0 ∷ []))
        ≡ value (clinks, replicate 0 nothing ++ (the_reply 300 40 body ∷ [])))
unfolding dispatch query_func query query_str put_msg find_call find_func find_one load bytes_beq
    value_multi value_call unmarshal_value unmarshal_into marshal_value split_api_name split_dots
request-response_example =
    request-response echo works works none servers ask [] tcpsplit tcpsplit-IsGeometry 300 40 body
      body empty after no_links no_links (0 ∷ []) (omega arith) (omega arith) (omega arith)
      (omega arith) short (rw one_frame (omega arith)) refl only refl
