-- ===== src/Client/Requests.antt =====
-- network/rpc/watch.go: the requests of a node to its watchers. Encoding is an argument, none for an
-- error; so is writing a request with a number and waiting: none if the writing failed, and within,
-- none for an error of waiting.
use gorigin.Prelude.{ℕ, [], Option, none, some, Bytes, Bool, ◌≡◌, refl, ap}
use gorigin.Wire.{bytes_of}
use gorigin.Pb.{FuncApi, GetFuncMsgRsp, GetNodeMsgRsp, GetApiConnRsp}
use gorigin.FuncCache.{NodeConn}
use gorigin.Client.{WatchNode, slaves_try, slaves_call, master_call}

-- No result of `MasterCall` is its error, as a result without an answer is one.
abbrev pub answer_of : {A : Type 0} → Option (Option A) → Option A
answer_of none = none
answer_of (some a) = a

module _ (linked : NodeConn → Bool) where
  -- A request whose body is encoded.
  unfoldable pub request :
      {A : Type 0}
      → (Bytes → NodeConn → ℕ → Option (Option A))
      → WatchNode
      → Option Bytes
      → WatchNode × Option A
  request attempt w none = (w, none)
  request attempt w (some bts) =
      let (w', r) = master_call linked (attempt bts) w in (w', answer_of r)

  -- `GetFuncMsg`, `GetNodeMsg` and `GetApiConn`.
  unfoldable pub ask_func_msg :
      (ℕ → Bytes → Option Bytes)
      → (Bytes → NodeConn → ℕ → Option (Option GetFuncMsgRsp))
      → WatchNode
      → ℕ
      → Bytes
      → WatchNode × Option GetFuncMsgRsp
  ask_func_msg encode attempt w fid name = request attempt w (encode fid name)

  unfoldable pub ask_node_msg :
      (Bytes → Bytes → Option Bytes)
      → (Bytes → NodeConn → ℕ → Option (Option GetNodeMsgRsp))
      → WatchNode
      → Bytes
      → Bytes
      → WatchNode × Option GetNodeMsgRsp
  ask_node_msg encode attempt w uuid name = request attempt w (encode uuid name)

  unfoldable pub ask_api_conn :
      (ℕ → Bytes → Option Bytes)
      → (Bytes → NodeConn → ℕ → Option (Option GetApiConnRsp))
      → WatchNode
      → ℕ
      → Bytes
      → WatchNode × Option GetApiConnRsp
  ask_api_conn encode attempt w fid name = request attempt w (encode fid name)

  -- `Heartbeats`: without the figures of the system, a text goes out in their place.
  unfoldable pub send_heartbeats :
      (Bytes → NodeConn → ℕ → Option (Option (Unit {0})))
      → WatchNode
      → Option Bytes
      → WatchNode × Option (Unit {0})
  send_heartbeats attempt w none = request attempt w (some (bytes_of "PING"))
  send_heartbeats attempt w (some bts) = request attempt w (some bts)

  -- What `QueryFunc` takes of the answer.
  unfoldable pub asked_func :
      (ℕ → Bytes → Option Bytes)
      → (Bytes → NodeConn → ℕ → Option (Option GetFuncMsgRsp))
      → WatchNode
      → ℕ
      → Bytes
      → Option FuncApi
  asked_func encode attempt w fid name = elim (ask_func_msg encode attempt w fid name).1 [
    | none ↦ none
    | some rsp ↦ rsp.api
  ]

  master_call-alone :
      {A : Type 0} (attempt : NodeConn → ℕ → Option A) (w : WatchNode)
      → w.master ≡ none
      → w.slaves ≡ []
      → (master_call linked attempt w).1 ≡ none
  unfolding master_call slaves_call slaves_try
  master_call-alone attempt w m s = rw (master_call, m, slaves_call, s, slaves_try) refl

  request-alone :
      {A : Type 0} (attempt : Bytes → NodeConn → ℕ → Option (Option A)) (w : WatchNode)
      (body : Option Bytes)
      → w.master ≡ none
      → w.slaves ≡ []
      → (request attempt w body).1 ≡ none
  unfolding request
  request-alone attempt w none m s = refl
  request-alone attempt w (some bts) m s = ap answer_of (master_call-alone (attempt bts) w m s)

  -- A node that knows no watcher gets no answer.
  pub asked_func-alone :
      (encode : ℕ → Bytes → Option Bytes)
      (attempt : Bytes → NodeConn → ℕ → Option (Option GetFuncMsgRsp)) (w : WatchNode) (fid : ℕ)
      (name : Bytes)
      → w.master ≡ none
      → w.slaves ≡ []
      → asked_func encode attempt w fid name ≡ none
  unfolding asked_func ask_func_msg
  asked_func-alone encode attempt w fid name m s =
      ap (λ o. elim o [ none ↦ none | some rsp ↦ rsp.api ])
        (request-alone attempt w (encode fid name) m s)
