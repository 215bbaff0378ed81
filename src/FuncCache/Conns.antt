-- ===== src/FuncCache/Conns.antt =====
-- Which connections the cache hands out.
use gorigin.Prelude.{
  ℕ, ◌≡◌, refl, sym, ap, ◌∙◌, subst, inl, inr, List, [], ◌∷◌, ◌++◌, some, Bytes, Bool, false, All,
  Dict, load, Every, Every-load, Every-store, Every-delete, Every-keep, bytes_key, nat_key,
  get_elem?, ◌||◌, ◌==◌, if◌then◌else◌, Bool-cases, Option-cases, arith, value,
}
use gorigin.Pb.{FuncMsg}
use gorigin.Registry.{no_text}
use gorigin.FuncCache.{
  NodeConn, FuncMap, put_msg, query, add_data, set_node, up_func_node, add_func_node, put_conn,
  set_conn, del_conn, clear_conn, usable, asked, get_func_conn, get_node_conn,
}
use gorigin.FuncCache.Laws.{
  Step, puts, stores, updates, adds, connects, sets, drops, clears, Reach, start, next,
}

put_msg-ser : (f : FuncMap) (arg : FuncMsg) → (put_msg f arg).0.ser ≡ f.ser
unfolding put_msg add_data
put_msg-ser f arg = elim (Bool-cases (arg.func_id == 0 || no_text arg.api_name)) [
  | inl bad ↦ rw (bad, put_msg) refl
  | inr p ↦ elim (Option-cases (query f arg.func_id [])) [
    | inl e ↦ rw (p, e, put_msg) refl
    | inr (d, e) ↦ rw (p, e, put_msg) refl
  ]
]

set_node-ser :
    (f : FuncMap) (fid : ℕ) (change : List Bytes → List Bytes) → (set_node f fid change).ser ≡ f.ser
unfolding set_node
set_node-ser f fid change = elim (Option-cases (load fid f.ids)) [
  | inl e ↦ rw (e, set_node) refl
  | inr (a, e) ↦ elim (Option-cases (get_elem? f.objects a)) [
    | inl e' ↦ rw (e, set_node, e') refl
    | inr (d, e') ↦ rw (e, set_node, e') refl
  ]
]

-- A connection stands under its own uuid.
abbrev Keyed : FuncMap → Type 0
Keyed f = Every (λ uuid c. c.uuid ≡ uuid) f.ser

Step-Keyed : {f g : FuncMap} → Step f g → Keyed f → Keyed g
unfolding up_func_node add_func_node put_conn set_conn del_conn clear_conn add_data
Step-Keyed (puts f arg) k =
    subst (Every (λ uuid (c : NodeConn). c.uuid ≡ uuid)) (sym (put_msg-ser f arg)) k
Step-Keyed (stores f arg p) k = k
Step-Keyed (updates f fid ids) k =
    subst (Every (λ uuid (c : NodeConn). c.uuid ≡ uuid)) (sym (set_node-ser f fid (λ old. ids))) k
Step-Keyed (adds f fid ids) k =
    subst (Every (λ uuid (c : NodeConn). c.uuid ≡ uuid))
      (sym (set_node-ser f fid (λ old. old ++ ids))) k
Step-Keyed (connects f tested conn) k =
    let new = Every-store (λ uuid (c : NodeConn). c.uuid ≡ uuid) conn.uuid conn f.ser refl k in
    elim (Option-cases (load conn.uuid f.ser)) [
      | inl e ↦ rw (e, put_conn) new
      | inr (arg, e) ↦ elim (Bool-cases tested) [
        | inl fine ↦ rw (e, put_conn, set_conn, fine) k
        | inr bad ↦ rw (e, put_conn, set_conn, bad) new
      ]
    ]
Step-Keyed (sets f uuid wrong host) k = elim (Option-cases (load uuid f.ser)) [
  | inl e ↦ rw (e, set_conn) k
  | inr (conn, e) ↦
      let own = Every-load (λ key (c : NodeConn). c.uuid ≡ key) uuid conn f.ser k e in
      rw (e, set_conn)
        (Every-store (λ key (c : NodeConn). c.uuid ≡ key) uuid
          (record conn { wrong = wrong; host = host }) f.ser own k)
]
Step-Keyed (drops f uuid) k = Every-delete (λ uuid (c : NodeConn). c.uuid ≡ uuid) uuid f.ser k
Step-Keyed (clears f now) k = Every-keep (λ uuid (c : NodeConn). c.uuid ≡ uuid) _ f.ser k

Reach-Keyed : {f : FuncMap} → Reach f → Keyed f
Reach-Keyed start = tt
Reach-Keyed (next r s) = Step-Keyed s (Reach-Keyed r)

if-false : {A : Type 0} (b : Bool) (x y : A) → b ≡ false → (if b then x else y) ≡ y
if-false b x y e = ap (λ t. if t then x else y) e

usable-cons :
    (ser : Dict Bytes NodeConn) (id : Bytes) (ids : List Bytes) (c : NodeConn)
    → load id ser ≡ some c
    → c.wrong ≡ false
    → usable ser (id ∷ ids) ≡ c ∷ usable ser ids
unfolding usable
usable-cons ser id ids c e fine =
    rw (e, usable) (if-false c.wrong (usable ser ids) (c ∷ usable ser ids) fine)

usable-fine :
    (f : FuncMap) (ids : List Bytes)
    → Keyed f
    → All
        (λ (c : NodeConn). (c.wrong ≡ false) × (get_node_conn f c.uuid ≡ some c))
        (usable f.ser ids)
unfolding usable get_node_conn load
usable-fine f [] k = tt
usable-fine f (id ∷ ids) k =
    let rest = usable-fine f ids k in
    elim (Option-cases (load id f.ser)) [
      | inl e ↦ rw (e, usable) rest
      | inr (c, e) ↦ elim (Bool-cases c.wrong) [
        | inl bad ↦ rw (e, usable, bad) rest
        | inr fine ↦
            let own = Every-load (λ uuid (c : NodeConn). c.uuid ≡ uuid) id c f.ser k e in
            rw (usable-cons f.ser id ids c e fine) ((fine, ap (λ t. load t f.ser) own ∙ e), rest)
      ]
    ]

-- Every connection that `GetFuncConn` answers with can be used, and is the one that the cache holds
-- for its node.
pub get_func_conn-usable :
    (f : FuncMap) (fid : ℕ) (name : Bytes) (conns : List NodeConn)
    → Reach f
    → get_func_conn f fid name ≡ value conns
    → All (λ (c : NodeConn). (c.wrong ≡ false) × (get_node_conn f c.uuid ≡ some c)) conns
unfolding get_func_conn
get_func_conn-usable f fid name conns r e = elim (Option-cases (asked f fid name)) [
  | inl gone ↦ absurd (ground arith)
  | inr (d, there) ↦
      let same : usable f.ser d.node ≡ conns = ground arith in
      subst (All (λ (c : NodeConn). (c.wrong ≡ false) × (get_node_conn f c.uuid ≡ some c))) same
        (usable-fine f d.node (Reach-Keyed r))
]
