-- ===== src/Calls/Multi.antt =====
-- network/rpc/invoke.go: `remoteMulti`, a request with several arguments, of which the last is the
-- response. Encoding the whole body is an argument, none for an error.
use gorigin.Prelude.{
  ℕ, ◌+◌, ◌-◌, ◌%◌, ◌^◌, List, [], ◌∷◌, ◌++◌, Option, none, some, Bytes, Bool, length, ltb,
  if◌then◌else◌, Outcome, value, ◌>>=◌,
}
use gorigin.Wire.{bytes_of}
use gorigin.Pb.{Compiler, FuncMsg, NodeInfo, GetNodeMsgRsp}
use gorigin.FuncCache.{NodeConn, FuncMap}
use gorigin.Protocal.{Result, ok, fails, Libs, marshal_value}
use gorigin.Calls.{conns_call}
use gorigin.Calls.Assign.{Remote, marshal_wrong, no_remote, remote_of, remote_conns}

-- `uint32(len(args) - 1)`.
unfoldable pub count_of : ℕ → ℕ
count_of n = (n + (2 ^ 32 - 1)) % 2 ^ 32

-- `args[0:len(args)-1]`, over which the loop goes.
unfoldable pub all_but_last : {A : Type 0} → List A → List A
all_but_last [] = []
all_but_last (x ∷ []) = []
all_but_last (x ∷ y ∷ ys) = x ∷ all_but_last (y ∷ ys)

module _ {V : Type 0} (l : Libs V) where
  -- The loop over the arguments, which the first error ends.
  unfoldable pub multi_rows : Compiler → List V → Result (List Bytes)
  multi_rows p [] = ok []
  multi_rows p (v ∷ vs) =
      let rest = multi_rows p vs in
      elim (marshal_value l p v) [
        | fails e ↦ fails (bytes_of "remoteCall marshal error: " ++ e)
        | ok bts ↦ elim rest [ fails e ↦ fails e | ok rows ↦ ok (bts ∷ rows) ]
      ]

  unfoldable pub remote_multi :
      {A : Type 0}
      → (NodeConn → Bool)
      → (NodeConn → Bool)
      → Option GetNodeMsgRsp
      → List NodeInfo
      → (ℕ → List Bytes → Option Bytes)
      → (Bytes → NodeConn → Option A)
      → Bytes
      → FuncMap
      → Bytes
      → Bytes
      → FuncMsg
      → List V
      → Outcome (FuncMap × Remote A)
  remote_multi test refresh told asked body attempt self f uuid name fmsg args =
      elim (multi_rows fmsg.protocal (all_but_last args)) [
        | fails e ↦ value (f, marshal_wrong)
        | ok rows ↦ remote_conns test refresh told asked f uuid name fmsg >>= λ p. elim p.1 [
          | [] ↦ value (p.0, no_remote)
          | c ∷ cs ↦
              if ltb (length args) 2
              then value (p.0, no_remote)
              else elim (body (count_of (length args)) rows) [
                | none ↦ value (p.0, marshal_wrong)
                | some bts ↦ value (p.0, remote_of (conns_call (attempt bts) self (c ∷ cs)))
              ]
        ]
      ]
