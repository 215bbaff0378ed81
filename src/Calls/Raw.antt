-- ===== src/Calls/Raw.antt =====
-- network/rpc/api.go: calls with encoded bodies.
use gorigin.Prelude.{
  ℕ, length, ◌%◌, ◌^◌, ◌≡◌, ◌⊎◌, refl, inl, inr, List, [], ◌∷◌, Option, none, some, Bytes, Bool,
  ◌==◌, ◌||◌, if◌then◌else◌, Outcome, value, ◌>>=◌, Bool-cases,
}
use gorigin.Pb.{NodeInfo}
use gorigin.Registry.{no_text}
use gorigin.Names.Rpc
use gorigin.FuncCache.{NodeConn, FuncMap, query, up_func_node, get_func_conn, get_node_conn}
use gorigin.FuncCache.Laws.{Reach, query-Reach}
use gorigin.Calls.{remote_rows, conns_call}

pub data Answer {ℓ} (A : Type ℓ) : Type ℓ where
  name_null function_not_found node_not_found all_wrong : Answer A
  answered : A → Answer A

abbrev pub answer_of {ℓ} : {A : Type ℓ} → Option A → Answer A
answer_of none = all_wrong
answer_of (some a) = answered a

-- Behind `TryRemote`, without a connection: the nodes of the watcher's answer are tried.
unfoldable pub try_remote {ℓ} :
    {A : Type ℓ}
    → (NodeConn → Bool)
    → (NodeConn → Bool)
    → List NodeInfo
    → (NodeConn → Option A)
    → Bytes
    → FuncMap
    → ℕ
    → FuncMap × Answer A
try_remote test refresh asked attempt self f fid =
    let (g, ids, rows) = remote_rows test refresh f asked in
    let f' : FuncMap = elim asked [ [] ↦ f | _ ∷ _ ↦ up_func_node g fid ids ] in
    elim rows [
      | [] ↦ (f', node_not_found)
      | c ∷ cs ↦ (f', answer_of (conns_call attempt self (c ∷ cs)))
    ]

-- `CallRemoteByte`: the function must be in the cache; its connections are tried, and then those of
-- the watcher's answer. `attempt` writes to a connection and waits.
unfoldable pub call_remote_byte {ℓ} :
    {A : Type ℓ}
    → (NodeConn → Bool)
    → (NodeConn → Bool)
    → List NodeInfo
    → (NodeConn → Option A)
    → Bytes
    → FuncMap
    → Bytes
    → Outcome (FuncMap × Answer A)
call_remote_byte test refresh asked attempt self f name =
    let apiname = (Rpc.split_api_name name).1 in
    if no_text apiname then value (f, name_null) else elim (query f 0 apiname) [
      | none ↦ value (f, function_not_found)
      | some tmp ↦ get_func_conn f 0 apiname >>= λ conns.
          let remote = try_remote test refresh asked attempt self f tmp.msg.func_id in
          elim conns [
            | [] ↦ value remote
            | c ∷ cs ↦ elim (conns_call attempt self (c ∷ cs)) [
              | none ↦ value remote
              | some a ↦ value (f, answered a)
            ]
          ]
    ]

-- What `CallMultiByByte` comes to: an error of its own, or a call with an encoded body.
pub data Combined {ℓ} (A : Type ℓ) : Type ℓ where
  args_null body_wrong : Combined A
  called : Outcome (FuncMap × Answer A) → Combined A

-- `CallMultiByByte`: `body` encodes several bodies with their number, and `call` is `CallRemoteByte`.
unfoldable pub call_multi_by_byte {ℓ} :
    {A : Type ℓ}
    → (ℕ → List Bytes → Option Bytes)
    → (Bytes → Outcome (FuncMap × Answer A))
    → List Bytes
    → Combined A
call_multi_by_byte body call [] = args_null
call_multi_by_byte body call (bts ∷ []) = called (call bts)
call_multi_by_byte body call (a ∷ b ∷ args) =
    elim (body (length (a ∷ b ∷ args) % 2 ^ 32) (a ∷ b ∷ args)) [
      | none ↦ body_wrong
      | some bts ↦ called (call bts)
    ]

-- `WatchSend` and `WatchCall`: one connection, by its uuid.
unfoldable pub watch_call {ℓ} :
    {A : Type ℓ} → (NodeConn → Option A) → Bytes → FuncMap → Bytes → ℕ → Answer A
watch_call attempt self f uuid fid =
    if no_text uuid || fid == 0 then name_null else elim (get_node_conn f uuid) [
      | none ↦ node_not_found
      | some conn ↦ answer_of (conns_call attempt self (conn ∷ []))
    ]

-- No call with an encoded body is ever sent: whatever the cache holds, whatever the watcher and the
-- other nodes would answer, `CallRemoteByte` fails, for the want of a name or of the function.
pub call_remote_byte-fails :
    {A : Type 0} (test refresh : NodeConn → Bool) (asked : List NodeInfo)
    (attempt : NodeConn → Option A) (self : Bytes) (f : FuncMap) (name : Bytes)
    → Reach f
    → (call_remote_byte test refresh asked attempt self f name ≡ value (f, name_null))
      ⊎ (call_remote_byte test refresh asked attempt self f name ≡ value (f, function_not_found))
unfolding call_remote_byte
call_remote_byte-fails test refresh asked attempt self f name r =
    let apiname = (Rpc.split_api_name name).1 in
    elim (Bool-cases (no_text apiname)) [
      | inl empty ↦ inl (rw empty refl)
      | inr full ↦ inr (rw (full, query-Reach f 0 apiname r) refl)
    ]
