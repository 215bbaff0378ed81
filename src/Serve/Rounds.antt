-- ===== src/Serve/Rounds.antt =====
-- A request and its response, through both ends of two connections.
use gorigin.Prelude.{
  ℕ, ◌-◌, ◌^◌, ◌≤◌, ◌<◌, ◌≡◌, refl, List, [], ◌∷◌, ◌++◌, none, Bytes, Bool, false, Option, length,
  replicate, value, Outcome, arith, ◌==◌, Dict,
}
use gorigin.Wire.{NetworkBuffer, IsGeometry}
use gorigin.Wire.Encode.{make_req_body, make_rsp_body}
use gorigin.Wire.Single.{parse-make_req_body_short}
use gorigin.Pb.{FuncApi}
use gorigin.Conn.{Links, nothing, parse_resp, join_body}
use gorigin.Conn.Transfer.{receive, arrive, parse_resp-accepted}
use gorigin.Conn.Frames.{frame_count, IsOrder, the_reply, receive-frames}
use gorigin.FuncCache.{NodeConn, FuncMap}
use gorigin.Services.{Server}
use gorigin.Protocal.{Result, ok}
use gorigin.Serve.{Codec, Answer, body_of, message_of, dispatch, parse_rsp_byte}

-- The frame with which a request is complete.
serve-reply :
    (n : NetworkBuffer) (handle : FuncMap → ℕ → Bytes → Outcome Answer) (f f' : FuncMap)
    (links l : Links) (cb : Bytes) (num fid : ℕ) (bts : Bytes) (a : Result Bytes) (rs : List Bytes)
    → (fid == 0) ≡ false
    → (num == 0) ≡ false
    → parse_resp n links cb ≡ value (l, the_reply num fid bts)
    → handle f fid bts ≡ value (f', a)
    → make_rsp_body n (body_of a) num fid (message_of a) ≡ value rs
    → parse_rsp_byte n handle f links cb ≡ value (f', l, rs)
unfolding parse_rsp_byte
serve-reply n handle f f' links l cb num fid bts a rs hf hn e h m =
    rw (parse_rsp_byte, e, hf, hn, h, m) refl

module _ {V : Type 0} (c : Codec V) (test refresh : NodeConn → Bool) (peer : Option Bytes)
    (funcs : Dict Bytes Server) (ask : ℕ → Bytes → Option FuncApi) (from : Bytes) where
  -- A call of a function that returns without an error, from end to end, whose request fits one frame,
  -- with a response of any length. Whatever bodies are open on the side that answers, the goroutine of
  -- the frame leaves them alone and makes the frames of the function's response. Whatever the order in
  -- which those arrive at the side that asks, its reader reports nothing until the last of them, and
  -- then the number of the request with exactly that response. The numbers fit their bytes and are not
  -- 0; the side that asks has no body open under the number of the request.
  pub request-response :
      (n : NetworkBuffer) (g : IsGeometry n) (num fid : ℕ) (bts resp : Bytes) (f f' : FuncMap)
      (slinks clinks : Links) (order : List ℕ)
      → 0 < num
      → num < 2 ^ 24
      → 0 < fid
      → fid < 65536
      → length bts ≤ n.body_split
      → frame_count n resp < 65536
      → clinks num ≡ none
      → IsOrder (frame_count n resp) order
      → dispatch c test refresh peer funcs ask from f fid bts ≡ value (f', ok resp)
      → (cb : Bytes) × (rs : List Bytes) × (clinks' : Links) × (make_req_body n bts num fid
          ≡ value (cb ∷ []))
        × (parse_rsp_byte n (dispatch c test refresh peer funcs ask from) f slinks cb
            ≡ value (f', slinks, rs))
        × (receive n clinks (arrive rs order)
            ≡ value
                (clinks', replicate (length order - 1) nothing ++ (the_reply num fid resp ∷ [])))
  unfolding make_rsp_body join_body
  request-response n g num fid bts resp f f' slinks clinks order n0 n24 f0 f16 short cr nc o run =
      let (cb, made, size, read) = parse-make_req_body_short n g num fid n24 f16 bts short in
      let (rs, clinks', made', read') =
        receive-frames n g num fid resp clinks order n24 f16 cr nc o in
      let hf : (fid == 0) ≡ false = ground arith in
      let hn : (num == 0) ≡ false = ground arith in
      let frames : make_rsp_body n resp num fid none ≡ value rs = rw hf made' in
      let whole : parse_resp n slinks cb ≡ value (slinks, the_reply num fid bts) =
        parse_resp-accepted n slinks cb _ read in
      (
        cb,
        rs,
        clinks',
        made,
        serve-reply n (dispatch c test refresh peer funcs ask from) f f' slinks slinks cb num fid
            bts (ok resp) rs hf hn whole run frames,
        read',
      )
