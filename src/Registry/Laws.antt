-- ===== src/Registry/Laws.antt =====
-- What `PutApi` and `InitEnvFile` do to the table.
use gorigin.Prelude.{
  ℕ, ◌+◌, ◌^◌, ◌<◌, ◌≡◌, refl, ap, ◌∙◌, inl, inr, List, [], ◌∷◌, ◌++◌, none, some, Bytes, true,
  false, length, get_elem?, load, load-store_self, nat_key, bytes_key, bytes_beq_iff, Bool-cases,
  Option-cases, arith, ◌||◌,
}
use gorigin.Pb.{FuncApi, FuncMsg}
use gorigin.Registry.{
  FuncData, FuncMap, wrong_request, contains, add_node, add_object, next_id, new_api, put_api,
  no_text, get_ids, get_str,
}
use gorigin.Registry.Heap.{get_elem?-append_new, get_elem?-set_self}
use gorigin.Registry.Invariant.{
  IsConsistent, NameEntry, IsFresh, add_node-IsConsistent, add_object-IsConsistent,
}

-- A request that `PutApi` accepts.
abbrev pub IsProper : Bytes → FuncApi → Type 0
IsProper uuid arg = (no_text uuid || no_text arg.name) ≡ false

-- A table with a free number.
abbrev pub HasRoom : FuncMap → Type 0
HasRoom f = f.num + 1 < 2 ^ 32

pub put_api-old :
    (f : FuncMap) (uuid : Bytes) (arg : FuncApi) (a : ℕ) (d : FuncData)
    → IsProper uuid arg
    → load arg.name f.str ≡ some a
    → get_elem? f.objects a ≡ some d
    → put_api f uuid arg ≡ (add_node f a d uuid, record arg { id = d.msg.func_id }, none)
unfolding put_api
put_api-old f uuid arg a d p e at = rw (p, e, at) refl

pub put_api-new :
    (f : FuncMap) (uuid : Bytes) (arg : FuncApi)
    → IsProper uuid arg
    → load arg.name f.str ≡ none
    → put_api f uuid arg ≡ (
      add_object f (next_id f) arg.name (new_api arg (next_id f) uuid),
      record arg { id = next_id f },
      none,
    )
unfolding put_api
put_api-new f uuid arg p e = rw (p, e) refl

-- A request without uuid or name is refused, and changes nothing.
pub put_api-refuses :
    (f : FuncMap) (uuid : Bytes) (arg : FuncApi)
    → (no_text uuid || no_text arg.name) ≡ true
    → put_api f uuid arg ≡ (f, arg, some wrong_request)
unfolding put_api
put_api-refuses f uuid arg e = rw e refl

new_api-IsFresh :
    (f : FuncMap) (uuid : Bytes) (arg : FuncApi)
    → HasRoom f
    → load arg.name f.str ≡ none
    → IsFresh f (next_id f) arg.name (new_api arg (next_id f) uuid)
new_api-IsFresh f uuid arg h e = record {
  above = omega arith;
  unused = e;
  named = refl;
  api_named = refl;
  numbered = refl;
  api_numbered = refl;
}

-- Every request keeps the two maps of the table consistent, as long as a number is free.
pub put_api-IsConsistent :
    (f : FuncMap) (uuid : Bytes) (arg : FuncApi)
    → HasRoom f
    → IsConsistent f
    → IsConsistent (put_api f uuid arg).0
put_api-IsConsistent f uuid arg h v = elim (Bool-cases (no_text uuid || no_text arg.name)) [
  | inl bad ↦ rw (put_api-refuses f uuid arg bad) v
  | inr p ↦ elim (Option-cases (load arg.name f.str)) [
    | inl e ↦ rw (put_api-new f uuid arg p e) (
        add_object-IsConsistent f (next_id f) arg.name (new_api arg (next_id f) uuid)
          (new_api-IsFresh f uuid arg h e) v)
    | inr (a, e) ↦
        let w = v.by_name arg.name a e in
        rw (put_api-old f uuid arg a w.found p e w.at)
          (add_node-IsConsistent f a w.found uuid w.at v)
  ]
]

contains-append : (vs : List Bytes) (u : Bytes) → contains (vs ++ (u ∷ [])) u ≡ true
unfolding contains
contains-append [] u = rw ((bytes_beq_iff u u).1 refl) refl
contains-append (v ∷ vs) u = ground (arith, contains-append vs u)

-- What a lookup finds after a request: the object of the name, under the number that is returned, and
-- with the node on its list.
abbrev pub Registered : FuncMap → Bytes → FuncApi → Bytes → Type 0
Registered f uuid arg name =
    (d : FuncData) × (get_str f name ≡ some d)
    × (get_ids f arg.id ≡ some d)
    × (d.msg.api_name ≡ name)
    × (contains d.node uuid ≡ true)

node_added :
    (f : FuncMap) (a : ℕ) (d : FuncData) (uuid : Bytes)
    → get_elem? f.objects a ≡ some d
    → (d' : FuncData) × (get_elem? (add_node f a d uuid).objects a ≡ some d')
      × ((add_node f a d uuid).str ≡ f.str)
      × ((add_node f a d uuid).ids ≡ f.ids)
      × (d'.msg ≡ d.msg)
      × (contains d'.node uuid ≡ true)
unfolding add_node
node_added f a d uuid at = elim (Bool-cases (contains d.node uuid)) [
  | inl there ↦ rw there (d, at, refl, refl, refl, there)
  | inr new ↦
      let d' : FuncData = record d { node = d.node ++ (uuid ∷ []) } in
      rw new
        (d', get_elem?-set_self f.objects a d d' at, refl, refl, refl, contains-append d.node uuid)
]

register_old :
    (f : FuncMap) (a : ℕ) (uuid : Bytes) (arg : FuncApi)
    → load arg.name f.str ≡ some a
    → (w : NameEntry f arg.name a)
    → Registered (add_node f a w.found uuid) uuid (record arg { id = w.found.msg.func_id }) arg.name
unfolding get_str get_ids
register_old f a uuid arg e w =
    let (d, at, str, ids, m, c) = node_added f a w.found uuid w.at in
    (d, rw (str, e) at, rw (ids, w.back) at, ap (λ (t : FuncMsg). t.api_name) m ∙ w.named, c)

register_new :
    (f : FuncMap) (uuid : Bytes) (arg : FuncApi)
    → IsConsistent (add_object f (next_id f) arg.name (new_api arg (next_id f) uuid))
    → Registered
        (add_object f (next_id f) arg.name (new_api arg (next_id f) uuid))
        uuid
        (record arg { id = next_id f })
        arg.name
unfolding get_str get_ids add_object contains
register_new f uuid arg v =
    let at = get_elem?-append_new f.objects (new_api arg (next_id f) uuid) in
    (
      new_api arg (next_id f) uuid,
      rw (load-store_self arg.name (length f.objects) f.str) at,
      rw (load-store_self (next_id f) (length f.objects) f.ids) at,
      refl,
      rw ((bytes_beq_iff uuid uuid).1 refl) refl,
    )

-- After a proper request to a consistent table with a number free the API is found by its name and by the number that the request returns, as
-- one object, and the requesting node is on the object's list.
pub put_api-Registered :
    (f : FuncMap) (uuid : Bytes) (arg : FuncApi)
    → HasRoom f
    → IsConsistent f
    → IsProper uuid arg
    → ((put_api f uuid arg).2 ≡ none)
      × Registered (put_api f uuid arg).0 uuid (put_api f uuid arg).1 arg.name
put_api-Registered f uuid arg h v p = elim (Option-cases (load arg.name f.str)) [
  | inl e ↦ rw (put_api-new f uuid arg p e) (
    refl,
    register_new f uuid arg (
        add_object-IsConsistent f (next_id f) arg.name (new_api arg (next_id f) uuid)
          (new_api-IsFresh f uuid arg h e) v),
  )
  | inr (a, e) ↦
      let w = v.by_name arg.name a e in
      rw (put_api-old f uuid arg a w.found p e w.at) (refl, register_old f a uuid arg e w)
]
