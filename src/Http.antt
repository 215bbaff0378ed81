-- ===== src/Http.antt =====
-- network/rpc/http.go: the handlers that a node gives to the HTTP server, and a request to such a
-- handler. A handler is the list of what it does to the `http.ResponseWriter`; what the net/http
-- library makes of it is an argument of the requests.
pub mod Replies
use gorigin.Prelude.{
  ℕ, List, [], ◌∷◌, ◌++◌, Option, none, some, Bytes, Bool, true, false, length, ◌==◌, not, ◌&&◌,
  if◌then◌else◌, Dict, store, bytes_key, bytes_beq, Outcome, value, panic, ◌>>=◌, or_panic, index,
}
use gorigin.Wire.{bytes_of}
use gorigin.Pb.{ApiType, send, call, multi, FuncMsg}
use gorigin.Services.{ServerFunc, Server}
use gorigin.Protocal.{
  Result, ok, fails, ◌>=>◌, Libs, unmarshal_value, marshal_value, unmarshal_interface, some_value,
}
use gorigin.FuncCache.{FuncMap}
use gorigin.Serve.{Answer, Codec, value_call, value_multi}

-- The values of the header "code".
abbrev pub http_req_success_body : Bytes
http_req_success_body = bytes_of "000"

abbrev pub http_req_success_null : Bytes
http_req_success_null = bytes_of "001"

abbrev pub http_req_fail_message : Bytes
http_req_fail_message = bytes_of "002"

-- `w.Header().Set("code", …)`, and `w.Write`.
pub data Act : Type 0 where
  set_code : Bytes → Act
  write : Bytes → Act

unfoldable pub make_http_resp : Result Bytes → List Act
make_http_resp (fails e) = set_code http_req_fail_message ∷ write e ∷ []
make_http_resp (ok []) = set_code http_req_success_null ∷ []
make_http_resp (ok (b ∷ bts)) = set_code http_req_success_body ∷ write (b ∷ bts) ∷ []

-- The result of a method that answers nothing, for `makeHttpResp`.
abbrev pub no_body : {A : Type 0} → Result A → Result Bytes
no_body (ok a) = ok []
no_body (fails e) = fails e

-- A handler, by the body of the request or the error of reading it.
abbrev pub Handler : Type 0
Handler = Result Bytes → Outcome (List Act)

module _ {V : Type 0} (c : Codec V) where
  -- The branch for `Call`: behind an error, which is not returned, the response is written, too.
  unfoldable pub http_one : Server → ServerFunc → V → Outcome (List Act)
  http_one s f req = or_panic f.rsp >>= λ t. c.libs.new_elem t >>= λ rsp.
      value_call c f (req ∷ rsp ∷ []) >>= λ r. index r.0 1 >>= λ left.
      let answer = make_http_resp (marshal_value c.libs s.proto left) in
      elim r.1 [ none ↦ value answer | some e ↦ value (make_http_resp (fails e) ++ answer) ]

  unfoldable pub http_func : Server → ServerFunc → V → Outcome (List Act)
  http_func s f req = elim f.api [
    | send ↦ value_multi c f (req ∷ []) >>= λ r. value (make_http_resp (no_body r))
    | call ↦ http_one s f req
    | multi ↦ value []
  ]

  unfoldable pub handler : Server → ServerFunc → Handler
  handler s f (fails e) = value (make_http_resp (fails e))
  handler s f (ok bts) = or_panic f.req >>= λ t. unmarshal_value c.libs s.proto t bts >>= λ r.
      elim r [ fails e ↦ value (make_http_resp (fails e)) | ok req ↦ http_func s f req ]

  -- A function with several arguments gets no handler.
  unfoldable pub http_call : Dict Bytes Handler → Bytes → Server → ServerFunc → Dict Bytes Handler
  http_call hlist name s f = elim f.api [
    | multi ↦ hlist
    | send ↦ store name (handler s f) hlist
    | call ↦ store name (handler s f) hlist
  ]

  -- The last loop of `Register`, of a node that listens to HTTP.
  unfoldable pub http_calls :
      Dict Bytes Handler → Server → Dict Bytes ServerFunc → Dict Bytes Handler
  http_calls hlist s [] = hlist
  http_calls hlist s ((key, f) ∷ funcs) =
      http_calls (http_call hlist (s.sname ++ (46 ∷ f.fname)) s f) s funcs

-- `httpBuiltIn`: `comm_req` decodes a `CommReq`, whose data are none unless they are bytes, and
-- `handle` is `builtin`, whose answer nothing writes.
unfoldable pub http_built_in :
    (Bytes → Result (ℕ × Option Bytes))
    → (FuncMap → ℕ → Bytes → Answer)
    → FuncMap
    → Result Bytes
    → Outcome (FuncMap × List Act)
http_built_in comm_req handle f (fails e) = value (f, make_http_resp (fails e))
http_built_in comm_req handle f (ok bts) = elim (comm_req bts) [
  | fails e ↦ value (f, make_http_resp (fails e))
  | ok req ↦ or_panic req.1 >>= λ bytes. value ((handle f req.0 bytes).0, [])
]

-- `http.Response`: the header "code", and the body or the error of reading it.
pub record Response : Type 0 where
  pub code : Bytes
  pub body : Result Bytes

-- The two results of `postHttpApi`: an answer, with the response's value or the error of the API, or
-- the error of the request.
pub data Posted (V : Type 0) : Type 0 where
  api : Result (Option V) → Posted V
  net : Bytes → Posted V

abbrev pub http_post_wrong : Bytes
http_post_wrong = bytes_of "http post server api wrong"

module _ {V : Type 0} (l : Libs V) where
  -- The branch of a body that is read into the response.
  unfoldable pub post_body : FuncMsg → Option V → Result Bytes → Outcome (Posted V)
  post_body fmsg rsp (fails e) = value (net http_post_wrong)
  post_body fmsg rsp (ok bts) =
      unmarshal_interface l fmsg.protocal rsp bts >>= λ r. value (api (some_value r))

  -- The branch of an error: no text is no error.
  unfoldable pub post_fail : Option V → Result Bytes → Posted V
  post_fail rsp (fails e) = net e
  post_fail rsp (ok []) = api (ok rsp)
  post_fail rsp (ok (b ∷ bts)) = api (fails (b ∷ bts))

  abbrev is_there : Option V → Bool
  is_there none = false
  is_there (some v) = true

  -- `postHttpApi`, behind `http.Post`.
  unfoldable pub post_http_api : FuncMsg → Option V → Result Response → Outcome (Posted V)
  post_http_api fmsg rsp (fails e) = value (net e)
  post_http_api fmsg rsp (ok r) =
      if bytes_beq r.code http_req_success_body && is_there rsp
      then post_body fmsg rsp r.body
      else if bytes_beq r.code http_req_success_null
      then value (api (ok rsp))
      else if bytes_beq r.code http_req_fail_message
      then value (post_fail rsp r.body)
      else value (net http_post_wrong)
