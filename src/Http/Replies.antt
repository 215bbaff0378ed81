-- ===== src/Http/Replies.antt =====
-- What a request over HTTP gets of the answer of a handler.
use gorigin.Prelude.{
  ℕ, Outcome, ◌≡◌, refl, ap, List, [], ◌∷◌, ◌++◌, Option, none, some, Bytes, value, bytes_beq,
  ◌>>=◌,
}
use mathlib.Core.List.{append-nil}
use gorigin.Pb.{FuncMsg, call, send, multi}
use gorigin.Services.{GoType, ServerFunc, Server}
use gorigin.Protocal.{Result, ok, fails, unmarshal_value, unmarshal_interface, marshal_value}
use gorigin.Serve.{Codec, value_call, value_multi}
use gorigin.Http.{
  Act, Posted, no_body, set_code, write, Response, api, make_http_resp, http_one, http_func,
  handler, post_http_api, post_body, post_fail, http_req_success_body,
}

-- The header that is sent: the last one that is set before the first write.
abbrev pub header : Bytes → List Act → Bytes
header k [] = k
header k (set_code k' ∷ acts) = header k' acts
header k (write b ∷ acts) = k

abbrev pub written : List Act → Bytes
written [] = []
written (set_code k ∷ acts) = written acts
written (write b ∷ acts) = b ++ written acts

-- The net/http library between a handler and a request: the response has that header, and all that
-- was written.
pub record Carries (sent : List Act → Response) : Type 0 where
  pub codes : (acts : List Act) → (sent acts).code ≡ header [] acts
  pub bodies : (acts : List Act) → (sent acts).body ≡ ok (written acts)

-- What `makeHttpResp` writes of a result.
abbrev pub text_of : Result Bytes → Bytes
text_of (ok bts) = bts
text_of (fails e) = e

written-make_http_resp : (r : Result Bytes) → written (make_http_resp r) ≡ text_of r
unfolding make_http_resp
written-make_http_resp (ok []) = refl
written-make_http_resp (ok (b ∷ bts)) = append-nil (b ∷ bts)
written-make_http_resp (fails e) = append-nil e

-- A request and the handler of its function, with the answer that the library carries.
abbrev pub exchange :
    {V : Type 0}
    → Codec V
    → (List Act → Response)
    → Server
    → ServerFunc
    → FuncMsg
    → V
    → Bytes
    → Outcome (Posted V)
exchange c sent s f fmsg new bts =
    handler c s f (ok bts) >>= λ acts. post_http_api c.libs fmsg (some new) (ok (sent acts))

module _ {V : Type 0} (c : Codec V) (sent : List Act → Response) (carries : Carries sent)
    (s : Server) (f : ServerFunc) (fmsg : FuncMsg) (req r left new v' : V) (bts : Bytes) where
  -- The handler, with the request that was sent.
  handled :
      (t rt : GoType) (err : Option Bytes)
      → f.api ≡ call
      → f.req ≡ some t
      → f.rsp ≡ some rt
      → unmarshal_value c.libs s.proto t bts ≡ value (ok req)
      → c.libs.new_elem rt ≡ value r
      → value_call c f (req ∷ r ∷ []) ≡ value (v' ∷ left ∷ [], err)
      → handler c s f (ok bts) ≡ (elim err [
        | none ↦ value (make_http_resp (marshal_value c.libs s.proto left))
        | some e ↦
            value (make_http_resp (fails e) ++ make_http_resp (marshal_value c.libs s.proto left))
      ])
  unfolding handler http_func http_one
  handled t rt err a q p read made run =
      let one : http_func c s f req ≡ http_one c s f req =
        ap
          (λ k. elim k [
            | send ↦ value_multi c f (req ∷ []) >>= λ o. value (make_http_resp (no_body o))
            | call ↦ http_one c s f req
            | multi ↦ value []
          ])
          a in
      simp (q, read, one, p, made, run)

  module _ (t rt : GoType) (called : f.api ≡ call) (asks : f.req ≡ some t) (gives : f.rsp ≡ some rt)
      (made : c.libs.new_elem rt ≡ value r)
      (read : unmarshal_value c.libs s.proto t bts ≡ value (ok req)) where
    -- A call over HTTP whose body is decoded, whose method returns no error, and whose response is not
    -- written as nothing: the caller gets what it decodes, by the protocol that it knows of the
    -- function, of the bytes of the value that the method has left in the response.
    pub exchange-answer :
        (b : ℕ) (out : Bytes) (got : V)
        → value_call c f (req ∷ r ∷ []) ≡ value (v' ∷ left ∷ [], none)
        → marshal_value c.libs s.proto left ≡ ok (b ∷ out)
        → unmarshal_interface c.libs fmsg.protocal (some new) (b ∷ out) ≡ value (ok got)
        → exchange c sent s f fmsg new bts ≡ value (api (ok (some got)))
    unfolding post_http_api post_body make_http_resp bytes_beq
    exchange-answer b out got run wrote reads =
        let acts = set_code http_req_success_body ∷ write (b ∷ out) ∷ [] in
        simp (
          handled t rt none called asks gives read made run,
          wrote,
          carries.codes acts,
          carries.bodies acts,
          append-nil,
          reads,
        )

    -- A call over HTTP whose body is decoded and whose method returns an error with a text that is not
    -- empty: the caller gets an error, but its text is the method's with the bytes of the response
    -- behind it, or the text of the error of encoding that.
    pub exchange-error :
        (b : ℕ) (e : Bytes)
        → value_call c f (req ∷ r ∷ []) ≡ value (v' ∷ left ∷ [], some (b ∷ e))
        → exchange c sent s f fmsg new bts
          ≡ value (api (fails ((b ∷ e) ++ text_of (marshal_value c.libs s.proto left))))
    unfolding post_http_api post_fail make_http_resp bytes_beq
    exchange-error b e run =
        let out = marshal_value c.libs s.proto left in
        let acts = make_http_resp (fails (b ∷ e)) ++ make_http_resp out in
        simp (
          handled t rt (some (b ∷ e)) called asks gives read made run,
          carries.codes acts,
          carries.bodies acts,
          written-make_http_resp out,
        )
