-- ===== src/Waits.antt =====
-- network/rpc/invoke.go, api.go and watch.go: the goroutine that has sent a request, and waits for the
-- response (`WaitRsp`, `WaitRspByte`, `ProtoWaitRsp`). It puts its channels into the table of the
-- connection when the request has gone, while the reader of the connection delivers responses.
pub mod Heard
use gorigin.Prelude.{
  ℕ, List, [], ◌∷◌, Option, none, some, Bytes, Bool, true, false, ◌≡◌, if◌then◌else◌, Outcome,
  value, ◌>>=◌, load, nat_key,
}
use gorigin.Wire.{bytes_of}
use gorigin.Wire.Parse.{WireError}
use gorigin.Pb.{FuncMsg}
use gorigin.Protocal.{Result, ok, fails, Libs, unmarshal_interface, some_value}
use gorigin.Conn.{Reply, RecvChan, Waiting, sent, new_chan, del_chan, deliver}

-- What a `select` over the context and both channels comes to.
pub data Waited : Type 0 where
  timed_out : Waited
  got : Bytes → Waited
  failed : WireError → Waited

-- Any of the cases that are ready; `over` says that the context is done.
pub data Selects (over : Bool) (c : RecvChan) : Waited → Type 0 where
  on_done : over ≡ true → Selects over c timed_out
  on_body : (bts : Bytes) → c.body ≡ some bts → Selects over c (got bts)
  on_err : (e : WireError) → c.err ≡ some e → Selects over c (failed e)

-- `detached` is a goroutine whose channels are no longer in the table: they were forgotten, or
-- another request took the number.
pub data Phase : Type 0 where
  requested : Phase
  waiting : Phase
  detached : RecvChan → Phase
  ended : Waited → Phase

-- The runs of the goroutine of the number `num`, with the replies that the reader has delivered since
-- its channels are in the table, the last one first.
pub data Run (num : ℕ) : Waiting → Phase → List Reply → Type 0 where
  begins : (rc : Waiting) → Run num rc requested []
  early :
      (rc rc' : Waiting) (r : Reply)
      → Run num rc requested []
      → deliver rc r ≡ sent rc'
      → Run num rc' requested []
  registers :
      (rc : Waiting) (now : ℕ) → Run num rc requested [] → Run num (new_chan now num rc) waiting []
  delivers :
      (rc rc' : Waiting) (r : Reply) (rs : List Reply)
      → Run num rc waiting rs
      → deliver rc r ≡ sent rc'
      → Run num rc' waiting (r ∷ rs)
  keeps :
      (rc rc' : Waiting) (rs : List Reply)
      → Run num rc waiting rs
      → load num rc' ≡ load num rc
      → Run num rc' waiting rs
  loses :
      (rc rc' : Waiting) (c : RecvChan) (rs : List Reply)
      → Run num rc waiting rs
      → load num rc ≡ some c
      → Run num rc' (detached c) rs
  selects :
      (rc : Waiting) (c : RecvChan) (rs : List Reply) (over : Bool) (w : Waited)
      → Run num rc waiting rs
      → load num rc ≡ some c
      → Selects over c w
      → Run num (del_chan num rc) (ended w) rs
  selects_detached :
      (rc : Waiting) (c : RecvChan) (rs : List Reply) (over : Bool) (w : Waited)
      → Run num rc (detached c) rs
      → Selects over c w
      → Run num (del_chan num rc) (ended w) rs

-- What the three functions return: the error of the context, that of the reader, or the response,
-- which is decoded for `WaitRsp` and `ProtoWaitRsp`.
pub data Returned (A : Type 0) : Type 0 where
  expired : Returned A
  refused : WireError → Returned A
  answered : Result A → Returned A

unfoldable pub wait_rsp_byte : Waited → Returned Bytes
wait_rsp_byte timed_out = expired
wait_rsp_byte (got bts) = answered (ok bts)
wait_rsp_byte (failed e) = refused e

module _ {V : Type 0} (l : Libs V) where
  unfoldable pub wait_rsp : FuncMsg → Option V → Waited → Outcome (Returned (Option V))
  wait_rsp fmsg rsp timed_out = value expired
  wait_rsp fmsg rsp (failed e) = value (refused e)
  wait_rsp fmsg rsp (got []) = value (answered (ok rsp))
  wait_rsp fmsg none (got (b ∷ bts)) = value (answered (ok none))
  wait_rsp fmsg (some v) (got (b ∷ bts)) =
      unmarshal_interface l fmsg.protocal (some v) (b ∷ bts) >>= λ r.
      value (answered (some_value r))

  unfoldable pub proto_wait_rsp : Option V → Waited → Returned (Option V)
  proto_wait_rsp rsp timed_out = expired
  proto_wait_rsp rsp (failed e) = refused e
  proto_wait_rsp rsp (got []) = answered (ok rsp)
  proto_wait_rsp none (got (b ∷ bts)) = answered (ok none)
  proto_wait_rsp (some v) (got (b ∷ bts)) =
      if l.is_message v
      then answered (some_value (l.proto_unmarshal (b ∷ bts) v))
      else answered (fails (bytes_of "not implement proto.Message"))
