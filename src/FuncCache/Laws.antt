-- ===== src/FuncCache/Laws.antt =====
-- What the cache finds: its functions never, its connections exactly.
use gorigin.Prelude.{
  ℕ, ◌≡◌, ◌⊎◌, refl, inl, inr, List, [], ◌∷◌, ◌++◌, Option, none, some, Bytes, Bool, false, length,
  get_elem?, load, load-store, load-store_self, nat_key, bytes_key, bytes_beq_iff, Bool-cases,
  Option-cases, arith, value, ◌||◌, ◌==◌,
}
use gorigin.Pb.{FuncApi, FuncMsg}
use gorigin.Registry.{no_text}
use gorigin.Registry.Heap.{get_elem?-append_new}
use gorigin.FuncCache.{
  FuncData, NodeConn, FuncMap, query_str, query, add_data, put_msg, set_node, up_func_node,
  add_func_node, put_conn, set_conn, del_conn, clear_conn, usable, asked, get_func_conn, msg_of_api,
  query_func,
}

-- The operations on the cache; `WatchRegister` stores into it directly, functions that have a number
-- and a name.
pub data Step : FuncMap → FuncMap → Type 0 where
  puts : (f : FuncMap) (arg : FuncMsg) → Step f (put_msg f arg).0
  stores :
      (f : FuncMap) (arg : FuncMsg)
      → (arg.func_id == 0 || no_text arg.api_name) ≡ false
      → Step f (add_data f arg)
  updates : (f : FuncMap) (fid : ℕ) (ids : List Bytes) → Step f (up_func_node f fid ids)
  adds : (f : FuncMap) (fid : ℕ) (ids : List Bytes) → Step f (add_func_node f fid ids)
  connects : (f : FuncMap) (tested : Bool) (conn : NodeConn) → Step f (put_conn f tested conn)
  sets :
      (f : FuncMap) (uuid : Bytes) (wrong : Bool) (host : Bytes)
      → Step f (set_conn f uuid wrong host)
  drops : (f : FuncMap) (uuid : Bytes) → Step f (del_conn f uuid)
  clears : (f : FuncMap) (now : ℕ) → Step f (clear_conn f now)

abbrev pub empty : FuncMap
empty = record { ids = []; str = []; objects = []; ser = [] }

pub data Reach : FuncMap → Type 0 where
  start : Reach empty
  next : {f g : FuncMap} → Reach f → Step f g → Reach g

-- The number 0 and the empty name are never keys.
record HasKeys (f : FuncMap) : Type 0 where
  id : load 0 f.ids ≡ none
  name : load [] f.str ≡ none

query-HasKeys : (f : FuncMap) (fid : ℕ) (name : Bytes) → HasKeys f → query f fid name ≡ none
unfolding query query_str
query-HasKeys f fid [] k = elim (Bool-cases (fid == 0)) [
  | inl zero' ↦ let at : load fid f.ids ≡ none = ground (arith, k.id) in rw (zero', at, k.name) refl
  | inr other ↦ rw (other, k.name) refl
]
query-HasKeys f fid (x ∷ xs) k = elim (Bool-cases (fid == 0)) [
  | inl zero' ↦ let at : load fid f.ids ≡ none = ground (arith, k.id) in rw (zero', at) refl
  | inr other ↦ rw other refl
]

-- The entry that `PutMsg` makes of a function with a number and a name.
put_msg-new :
    (f : FuncMap) (arg : FuncMsg)
    → HasKeys f
    → (arg.func_id == 0 || no_text arg.api_name) ≡ false
    → put_msg f arg ≡ (add_data f arg, arg)
unfolding put_msg
put_msg-new f arg k p = rw (p, query-HasKeys f arg.func_id [] k) refl

add_data-HasKeys :
    (f : FuncMap) (arg : FuncMsg)
    → HasKeys f
    → (arg.func_id == 0 || no_text arg.api_name) ≡ false
    → HasKeys (add_data f arg)
unfolding add_data
add_data-HasKeys f arg k p = record {
  id = ground (arith, load-store arg.func_id 0 (length f.objects) f.ids, k.id);
  name = ground (
    arith,
    load-store arg.api_name [] (length f.objects) f.str,
    k.name,
    bytes_beq_iff arg.api_name [],
  );
}

set_node-HasKeys :
    (f : FuncMap) (fid : ℕ) (change : List Bytes → List Bytes)
    → HasKeys f
    → HasKeys (set_node f fid change)
unfolding set_node
set_node-HasKeys f fid change k = elim (Option-cases (load fid f.ids)) [
  | inl e ↦ rw (e, set_node) k
  | inr (a, e) ↦ elim (Option-cases (get_elem? f.objects a)) [
    | inl e' ↦ rw (e, set_node, e') k
    | inr (d, e') ↦ rw (e, set_node, e') (record { id = k.id; name = k.name })
  ]
]

Step-HasKeys : {f g : FuncMap} → Step f g → HasKeys f → HasKeys g
unfolding up_func_node add_func_node put_conn set_conn del_conn clear_conn put_msg
Step-HasKeys (puts f arg) k = elim (Bool-cases (arg.func_id == 0 || no_text arg.api_name)) [
  | inl bad ↦ rw (bad, put_msg) k
  | inr p ↦ rw (put_msg-new f arg k p) (add_data-HasKeys f arg k p)
]
Step-HasKeys (stores f arg p) k = add_data-HasKeys f arg k p
Step-HasKeys (updates f fid ids) k = set_node-HasKeys f fid (λ old. ids) k
Step-HasKeys (adds f fid ids) k = set_node-HasKeys f fid (λ old. old ++ ids) k
Step-HasKeys (connects f tested conn) k = elim (Option-cases (load conn.uuid f.ser)) [
  | inl e ↦ rw (e, put_conn) (record { id = k.id; name = k.name })
  | inr (arg, e) ↦ elim (Bool-cases tested) [
    | inl fine ↦ rw (e, put_conn, fine) k
    | inr bad ↦ rw (e, put_conn, bad) (record { id = k.id; name = k.name })
  ]
]
Step-HasKeys (sets f uuid wrong host) k = elim (Option-cases (load uuid f.ser)) [
  | inl e ↦ rw (e, set_conn) k
  | inr (conn, e) ↦ rw (e, set_conn) (record { id = k.id; name = k.name })
]
Step-HasKeys (drops f uuid) k = record { id = k.id; name = k.name }
Step-HasKeys (clears f now) k = record { id = k.id; name = k.name }

Reach-HasKeys : {f : FuncMap} → Reach f → HasKeys f
unfolding load
Reach-HasKeys start = record { id = refl; name = refl }
Reach-HasKeys (next r s) = Step-HasKeys s (Reach-HasKeys r)

pub query-Reach : (f : FuncMap) (fid : ℕ) (name : Bytes) → Reach f → query f fid name ≡ none
query-Reach f fid name r = query-HasKeys f fid name (Reach-HasKeys r)

answer : Option FuncApi → Option FuncMsg
answer none = none
answer (some api) = some (msg_of_api api)

-- Each `QueryFunc` asks the watcher, also for a function that is in the cache, and answers what the
-- watcher answers.
pub query_func-asks :
    (ask : ℕ → Bytes → Option FuncApi) (f : FuncMap) (fid : ℕ) (name : Bytes)
    → Reach f
    → ((ask fid name ≡ none) × ((query_func ask f fid name).1 ≡ none))
      ⊎ ((api : FuncApi) × (ask fid name ≡ some api)
          × ((query_func ask f fid name).1 ≡ some (msg_of_api api)))
unfolding query_func put_msg
query_func-asks ask f fid name r = elim (Option-cases (ask fid name)) [
  | inl e ↦ inl (e, rw (query-Reach f fid name r, query_func, e) refl)
  | inr (api, e) ↦
      let msg = msg_of_api api in
      inr (
        api,
        e,
        (elim (Bool-cases (msg.func_id == 0 || no_text msg.api_name)) [
          | inl bad ↦ rw (query-Reach f fid name r, query_func, e, bad) refl
          | inr p ↦
              rw (query-Reach f fid name r, query_func, e, put_msg-new f msg (Reach-HasKeys r) p)
                refl
        ]),
      )
]

-- A function that is put again, as `QueryFunc` does each time, has no nodes afterwards: no connection
-- is found for it, by its number or by its name.
pub put_msg-forgets :
    (f : FuncMap) (arg : FuncMsg)
    → Reach f
    → (arg.func_id == 0 || no_text arg.api_name) ≡ false
    → (get_func_conn (put_msg f arg).0 arg.func_id [] ≡ value [])
      × (get_func_conn (put_msg f arg).0 arg.func_id arg.api_name ≡ value [])
unfolding get_func_conn asked add_data usable
put_msg-forgets f arg r p =
    let made = put_msg-new f arg (Reach-HasKeys r) p in
    let new : FuncData = record { msg = arg; node = [] } in
    let at = get_elem?-append_new f.objects new in
    let number : (arg.func_id == 0) ≡ false = ground arith in
    let named : no_text arg.api_name ≡ false = ground arith in
    (
      rw (made, get_func_conn, number, load-store_self arg.func_id (length f.objects) f.ids, at)
          refl,
      rw (made, get_func_conn, named, load-store_self arg.api_name (length f.objects) f.str, at)
          refl,
    )
