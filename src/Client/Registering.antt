-- ===== src/Client/Registering.antt =====
-- What a node's cache has of the functions that the watcher's response to its registration names.
use gorigin.Prelude.{
  ℕ, ◌+◌, ◌<◌, ◌^◌, ◌≡◌, ◌⊎◌, refl, ap, inl, inr, List, [], ◌∷◌, ◌++◌, none, some, Bytes, false,
  All, length, get_elem?, load, store, load-store, KeyEq, nat_key, bytes_key, Bool-cases, Dict,
  ◌==◌, value, arith,
}
use gorigin.Pb.{FuncApi, NodeInfo}
use gorigin.Registry.{no_text}
use gorigin.Registry.Heap.{get_elem?-append_new, get_elem?-append_old}
use gorigin.FuncCache.{FuncData, FuncMap, add_data, msg_of_api, query, get_func_conn, asked, usable}
use gorigin.FuncCache.Laws.{Reach, next, stores, query-Reach}
use gorigin.Watcher.{Watcher, put_apis, registered}
use gorigin.Watcher.Numbers.{IsNamed, put_apis-IsNamed}
use gorigin.Registry.Invariant.{IsConsistent}
use gorigin.Client.{register_funcs}

-- A key that leads to an entry without nodes.
abbrev Leads {ℓ} : {K : Type ℓ} ⦃e : KeyEq K⦄ → K → Dict K ℕ → List FuncData → Type 0
Leads k m objects =
    (a : ℕ) × (d : FuncData) × (load k m ≡ some a) × (get_elem? objects a ≡ some d) × (d.node ≡ [])

Leads-store :
    {K : Type 0} ⦃e : KeyEq K⦄ (k j : K) (m : Dict K ℕ) (objects : List FuncData) (new : FuncData)
    → new.node ≡ []
    → (k ≡ j) ⊎ Leads k m objects
    → Leads k (store j (length objects) m) (objects ++ new ∷ [])
Leads-store ⦃e⦄ k j m objects new n h = elim (Bool-cases (e.beq j k)) [
  | inl same ↦ (
    length objects,
    new,
    rw (load-store j k (length objects) m, same) refl,
    get_elem?-append_new objects new,
    n,
  )
  | inr other ↦ elim h [
    | inl eq ↦ absurd (ground (arith, e.beq_iff j k))
    | inr (a, d, l, at, empty) ↦ (
      a,
      d,
      rw (load-store j k (length objects) m, other) l,
      get_elem?-append_old objects new d a at,
      empty,
    )
  ]
]

-- Both keys of a function lead to an entry without nodes.
unfoldable Known : FuncMap → FuncApi → Type 0
Known f api = Leads api.id f.ids f.objects × Leads api.name f.str f.objects

add_data-Known :
    (f : FuncMap) (api v : FuncApi) → (v ≡ api) ⊎ Known f v → Known (add_data f (msg_of_api api)) v
unfolding add_data Known
add_data-Known f api v (inl e) = (
  Leads-store v.id api.id f.ids f.objects _ refl (inl (ap (λ (x : FuncApi). x.id) e)),
  Leads-store v.name api.name f.str f.objects _ refl (inl (ap (λ (x : FuncApi). x.name) e)),
)
add_data-Known f api v (inr (by_id, by_name)) = (
  Leads-store v.id api.id f.ids f.objects _ refl (inr by_id),
  Leads-store v.name api.name f.str f.objects _ refl (inr by_name),
)

register_funcs-keeps :
    (apis : List FuncApi) (f : FuncMap) (v : FuncApi) → Known f v → Known (register_funcs f apis) v
unfolding register_funcs
register_funcs-keeps [] f v k = k
register_funcs-keeps (api ∷ apis) f v k =
    register_funcs-keeps apis (add_data f (msg_of_api api)) v (add_data-Known f api v (inr k))

register_funcs-Known :
    (apis : List FuncApi) (f : FuncMap) → All (Known (register_funcs f apis)) apis
unfolding register_funcs
register_funcs-Known [] f = tt
register_funcs-Known (api ∷ apis) f =
    let f' = add_data f (msg_of_api api) in
    (
      register_funcs-keeps apis f' api (add_data-Known f api api (inl refl)),
      register_funcs-Known apis f',
    )

-- What `GetFuncConn` finds by the number of a function, and by its name.
abbrev pub HasNoConn : FuncMap → FuncApi → Type 0
HasNoConn f api =
    (get_func_conn f api.id [] ≡ value []) × (get_func_conn f api.id api.name ≡ value [])

Known-HasNoConn : (f : FuncMap) (v : FuncApi) → IsNamed v → Known f v → HasNoConn f v
unfolding Known get_func_conn asked usable
Known-HasNoConn f v p ((a, d, l, at, empty), (a', d', l', at', empty')) =
    let number : (v.id == 0) ≡ false = ground arith in
    let named : no_text v.name ≡ false = ground arith in
    (rw (get_func_conn, number, l, at, empty) refl, rw (get_func_conn, named, l', at', empty') refl)

All-HasNoConn :
    (f : FuncMap) (apis : List FuncApi)
    → All IsNamed apis
    → All (Known f) apis
    → All (HasNoConn f) apis
All-HasNoConn f [] n k = tt
All-HasNoConn f (v ∷ vs) (n, ns) (k, ks) = (Known-HasNoConn f v n k, All-HasNoConn f vs ns ks)

-- The functions of the response, with a number and a name each, are in the cache from then on, under
-- both, but without nodes: no connection is found for any of them.
register_funcs-HasNoConn :
    (apis : List FuncApi) (f : FuncMap)
    → All IsNamed apis
    → All (HasNoConn (register_funcs f apis)) apis
register_funcs-HasNoConn apis f n =
    All-HasNoConn (register_funcs f apis) apis n (register_funcs-Known apis f)

register_funcs-Reach :
    (apis : List FuncApi) (f : FuncMap) → All IsNamed apis → Reach f → Reach (register_funcs f apis)
unfolding register_funcs
register_funcs-Reach [] f n r = r
register_funcs-Reach (api ∷ apis) f (n, ns) r =
    register_funcs-Reach apis (add_data f (msg_of_api api)) ns
      (next r (stores f (msg_of_api api) n))

-- A node registers its functions with a watcher, and stores those of the response: no query finds any
-- function in its cache, though `GetFuncConn` finds each of them, by its number and by its name, with
-- no connection. The functions have names; the watcher's table is consistent, has no number 0 and has
-- numbers free.
pub registered-register_funcs :
    (w : Watcher) (now : ℕ) (req : NodeInfo) (f : FuncMap)
    → w.fmsg.num + length req.funcs < 2 ^ 32
    → IsConsistent w.fmsg
    → load 0 w.fmsg.ids ≡ none
    → no_text req.uuid ≡ false
    → All (λ v. no_text v.name ≡ false) req.funcs
    → Reach f
    → ((fid : ℕ) (name : Bytes)
        → query
            (register_funcs f (registered w now req (record { watch = []; funcs = [] })).1.funcs)
            fid
            name
          ≡ none)
      × All
          (HasNoConn
            (register_funcs f (registered w now req (record { watch = []; funcs = [] })).1.funcs))
          (registered w now req (record { watch = []; funcs = [] })).1.funcs
unfolding registered
registered-register_funcs w now req f h c z n names r =
    let apis = (put_apis w.fmsg req.uuid req.funcs).1 in
    let named = put_apis-IsNamed req.funcs w.fmsg req.uuid h c z n names in
    rw (n, registered)
      (
        (λ fid name.
            query-Reach (register_funcs f apis) fid name (register_funcs-Reach apis f named r)),
        register_funcs-HasNoConn apis f named,
      )
