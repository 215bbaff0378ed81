-- ===== src/Examples/Types.antt =====
-- Values with their types: texts that are written as they are, a service with a function of two
-- arguments, and a request for it.
use gorigin.Prelude.{
  ℕ, ◌≡◌, ◌⊎◌, refl, inl, inr, [], ◌∷◌, none, some, List, Bytes, arith, true, All, map, value,
  panic, load, store, bytes_key, bytes_beq, length, Outcome,
}
use gorigin.Pb.{call, FuncMsg, json, multi}
use gorigin.Services.{
  GoType, Method, Server, ServerFunc, ptr, interface_kind, other_kind, new_func, parse_func,
  parse_methods_num_in, parse_multi, parse_args, split_last, check_out, check_protocal,
}
use gorigin.Protocal.{
  Result, ok, fails, Libs, unmarshal_into, interface_into, unmarshal_value, unmarshal_interface,
  marshal_value,
}
use gorigin.Protocal.Trips.{unmarshal_value-interface}
use gorigin.Http.{Act, Response, api}
use gorigin.Http.Replies.{header, written, Carries, exchange, exchange-answer, exchange-error}
use gorigin.Calls.Multi.{multi_rows, all_but_last, count_of}
use gorigin.Serve.Multis.{find_multi-remote}
use gorigin.Serve.{find_one, find_multi, value_multi, value_call, Output, Codec, find_call}
use gorigin.Serve.Typed.{IsTyped, MethodPanics}
use gorigin.Serve.Local.{local_call, encoded, find_one-local_call}
use gorigin.FuncCache.Laws.{empty, start}
use gorigin.Client.{WatchNode}
use gorigin.WatchFmsg.{watch_fmsg, put_watch}
use gorigin.WatchFmsg.Unheard.{IsUnknown, put_watch-Reach, watch_fmsg-IsUnknown}
use gorigin.Serve.Answers.{find_call-answers}

record Value : Type 0 where
  type : GoType
  bytes : Bytes

abbrev new_value : GoType → Outcome Value
new_value t = elim t.kind [
  | ptr ↦ value (record { type = t; bytes = [] })
  | interface_kind ↦ panic
  | other_kind ↦ panic
]

abbrev libs : Libs Value
libs = record {
  type_of = λ v. v.type;
  new_elem = new_value;
  is_message = λ v. true;
  proto_unmarshal = λ bts v. ok (record v { bytes = bts });
  json_unmarshal = λ bts v. ok (record v { bytes = bts });
  protojson_unmarshal = λ bts v. fails (1 ∷ []);
  proto_marshal = λ v. ok v.bytes;
  json_marshal = λ v. ok v.bytes;
}

abbrev pointer : GoType
pointer = record { kind = ptr; number = 1 }

abbrev text : Value
text = record { type = pointer; bytes = 7 ∷ 8 ∷ [] }

abbrev blank : Value
blank = record { type = pointer; bytes = [] }

unmarshal_value-interface_example :
    unmarshal_value libs json pointer (7 ∷ 8 ∷ [])
    ≡ unmarshal_interface libs json (some blank) (7 ∷ 8 ∷ [])
unmarshal_value-interface_example = unmarshal_value-interface libs json blank (7 ∷ 8 ∷ []) refl refl

abbrev codec : Codec Value
codec = record {
  libs = libs;
  invoke = λ f vs. value (vs, Output.nothing ∷ []);
  multi_body = λ bts. ok (length bts, map (λ b. b ∷ []) bts);
  node_info = λ bts. fails [];
  func_list = λ bts. ok [];
  conn_rsp = λ bts. fails [];
}

new_value-typed : (t : GoType) → t.kind ≡ ptr → (v : Value) × (new_value t ≡ value v) × (v.type ≡ t)
new_value-typed t k = (record { type = t; bytes = [] }, rw k refl, refl)

written_typed : (bts : Bytes) (v w : Value) → ok (record v { bytes = bts }) ≡ ok w → w.type ≡ v.type
written_typed bts v w e = ground arith

codec-IsTyped : IsTyped 9 codec
codec-IsTyped = record {
  new_typed = new_value-typed;
  proto_typed = written_typed;
  json_typed = written_typed;
  protojson_typed = λ bts v w e. absurd (cc);
  call_typed = λ f vs fits. inr (vs, Output.nothing ∷ [], refl, refl, λ err. inl refl);
}

-- F(a, b, rsp) error, of a service that has JSON for its protocol.
abbrev pair : Method
pair = record {
  name = 102 ∷ [];
  ins = pointer ∷ pointer ∷ pointer ∷ pointer ∷ [];
  outs = record { kind = interface_kind; number = 9 } ∷ [];
}

abbrev unnamed : Server
unnamed = record { proto = json; sname = 115 ∷ []; funcs = [] }

abbrev service : Server
service = record unnamed {
  funcs =
      (
        102 ∷ [],
        record (new_func pair) { api = multi; args = pointer ∷ pointer ∷ []; rsp = some pointer },
      )
      ∷ [];
}

abbrev msg : FuncMsg
msg = record {
  func_id = 101;
  api_name = [];
  serv_name = 115 ∷ [];
  func_name = 102 ∷ [];
  api_type = multi;
  protocal = json;
}

carries_lem :
    (n : ℕ) (rows : List Bytes) → codec.multi_body (4 ∷ 5 ∷ []) ≡ ok (n, rows) → length rows ≡ n
carries_lem n rows e = ground arith

parses : parse_func 9 (pair ∷ []) unnamed ≡ value (none, service)
unfolding parse_func parse_methods_num_in parse_multi parse_args split_last check_out check_protocal
    store bytes_beq
parses = refl

find_call-answers_example :
    ((r : Result Bytes) × (find_call codec ((115 ∷ [], service) ∷ []) msg (4 ∷ 5 ∷ []) ≡ value r))
    ⊎ ((f : ServerFunc) × (load msg.func_name service.funcs ≡ some f)
        × (find_call codec ((115 ∷ [], service) ∷ []) msg (4 ∷ 5 ∷ []) ≡ panic)
        × MethodPanics codec f)
unfolding load bytes_beq
find_call-answers_example =
    find_call-answers 9 codec (pair ∷ []) unnamed service ((115 ∷ [], service) ∷ []) msg
      (4 ∷ 5 ∷ []) codec-IsTyped (((refl, (refl, (refl, tt))), omega arith), tt) refl parses refl
      (λ n rows e. carries_lem n rows e)

-- A method that answers with its request, and one that fails with "x" and answers, too.
abbrev answered : List Value → List Value
answered (q ∷ r ∷ []) = q ∷ record r { bytes = q.bytes } ∷ []
answered vs = vs

abbrev echo : Codec Value
echo = record codec { invoke = λ f vs. value (answered vs, Output.nothing ∷ []) }

abbrev failing : Codec Value
failing = record codec { invoke = λ f vs. value (answered vs, Output.an_error (120 ∷ []) ∷ []) }

abbrev one : ServerFunc
one = record (new_func pair) { api = call; req = some pointer; rsp = some pointer }

abbrev sent : List Act → Response
sent acts = record { code = header [] acts; body = ok (written acts) }

sent-Carries : Carries sent
sent-Carries = record { codes = λ acts. refl; bodies = λ acts. refl }

exchange-answer_example :
    exchange echo sent service one msg blank (7 ∷ 8 ∷ []) ≡ value (api (ok (some text)))
unfolding marshal_value value_call unmarshal_value unmarshal_into unmarshal_interface interface_into
exchange-answer_example =
    exchange-answer echo sent sent-Carries service one msg text blank text blank text (7 ∷ 8 ∷ [])
      pointer pointer refl refl refl refl refl 7 (8 ∷ []) text refl refl refl

exchange-error_example :
    exchange failing sent service one msg blank (7 ∷ 8 ∷ [])
    ≡ value (api (fails (120 ∷ 7 ∷ 8 ∷ [])))
unfolding marshal_value value_call unmarshal_value unmarshal_into
exchange-error_example =
    exchange-error failing sent sent-Carries service one msg text blank text blank text (7 ∷ 8 ∷ [])
      pointer pointer refl refl refl refl refl 120 [] refl

abbrev letter : ℕ → Value
letter b = record { type = pointer; bytes = b ∷ [] }

abbrev pair_func : ServerFunc
pair_func = record (new_func pair) {
  api = multi;
  args = pointer ∷ pointer ∷ [];
  rsp = some pointer;
}

find_multi-remote_example :
    find_multi codec service pair_func (4 ∷ 5 ∷ []) ≡ value (marshal_value libs json blank)
unfolding multi_rows all_but_last marshal_value count_of value_multi value_call unmarshal_value
    unmarshal_into
find_multi-remote_example =
    find_multi-remote codec service pair_func (letter 4 ∷ letter 5 ∷ []) (letter 4 ∷ letter 5 ∷ [])
      (letter 4 ∷ letter 5 ∷ blank ∷ []) blank blank blank pointer ((4 ∷ []) ∷ (5 ∷ []) ∷ [])
      (4 ∷ 5 ∷ []) refl refl (refl, (refl, tt)) refl refl (omega arith) refl refl

find_one-local_call_example :
    find_one echo service one (7 ∷ 8 ∷ []) ≡ encoded echo service (local_call echo one text blank)
unfolding marshal_value unmarshal_value unmarshal_into
find_one-local_call_example =
    find_one-local_call echo service one text blank pointer pointer (7 ∷ 8 ∷ []) refl refl refl refl

abbrev alone : WatchNode
alone = record { uuid = []; count = 0; procid = 0; config = []; master = none; slaves = [] }

-- The watcher behind `runServer`.
watch_fmsg-IsUnknown_example :
    All
      (λ row.
        IsUnknown codec
          (λ c. true)
          (λ c. true)
          (λ c. true)
          none
          ((115 ∷ [], service) ∷ [])
          (λ fid name. some name)
          (λ bts c num. none)
          alone
          (put_watch empty watch_fmsg)
          []
          []
          row.func_id)
      watch_fmsg
watch_fmsg-IsUnknown_example =
    watch_fmsg-IsUnknown codec (λ c. true) (λ c. true) (λ c. true) none ((115 ∷ [], service) ∷ [])
      (λ fid name. some name) (λ bts c num. none) alone (put_watch empty watch_fmsg) [] []
      (put_watch-Reach empty watch_fmsg start) refl refl
