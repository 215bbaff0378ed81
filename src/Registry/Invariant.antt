-- ===== src/Registry/Invariant.antt =====
-- The two maps of the table agree, and no number is given twice.
use gorigin.Prelude.{
  ℕ, ◌<◌, ◌≤◌, ◌≡◌, ◌≢◌, refl, sym, ap, ◌∙◌, subst, inl, inr, List, [], ◌∷◌, ◌++◌, none, some,
  Bytes, length, get_elem?, set, load, store, load-store, nat_key, bytes_key, bytes_beq,
  bytes_beq_iff, Bool-cases, arith, ◌==◌, ==_iff,
}
use mathlib.Core.Option.{some-injective}
use gorigin.Pb.{FuncApi, FuncMsg}
use gorigin.Registry.{FuncData, FuncMap, contains, add_node, add_object}
use gorigin.Registry.Heap.{
  get_elem?-append_new, get_elem?-append_old, get_elem?-set_self, get_elem?-set_ne,
}

-- A name's pointer leads to an object with that name, whose number leads back to it.
pub record NameEntry (f : FuncMap) (name : Bytes) (a : ℕ) : Type 0 where
  pub found : FuncData
  pub at : get_elem? f.objects a ≡ some found
  pub named : found.msg.api_name ≡ name
  pub api_named : found.api.name ≡ name
  pub numbered : found.api.id ≡ found.msg.func_id
  pub back : load found.msg.func_id f.ids ≡ some a

pub record IdEntry (f : FuncMap) (id a : ℕ) : Type 0 where
  pub found : FuncData
  pub at : get_elem? f.objects a ≡ some found
  pub numbered : found.msg.func_id ≡ id
  pub bounded : id ≤ f.num
  pub back : load found.msg.api_name f.str ≡ some a

pub record IsConsistent (f : FuncMap) : Type 0 where
  pub by_name : (name : Bytes) (a : ℕ) → load name f.str ≡ some a → NameEntry f name a
  pub by_id : (id a : ℕ) → load id f.ids ≡ some a → IdEntry f id a

-- Every object is still there, with the same message and API.
abbrev Keeps : List FuncData → List FuncData → Type 0
Keeps xs ys =
    (a : ℕ) (d : FuncData)
    → get_elem? xs a ≡ some d
    → (d' : FuncData) × (get_elem? ys a ≡ some d') × (d'.msg ≡ d.msg) × (d'.api ≡ d.api)

set-Keeps :
    (xs : List FuncData) (b : ℕ) (d e : FuncData)
    → get_elem? xs b ≡ some d
    → e.msg ≡ d.msg
    → e.api ≡ d.api
    → Keeps xs (set xs b e)
set-Keeps xs b d e at m n a d' at' = elim (Bool-cases (b == a)) [
  | inl same ↦
      let eq = (==_iff b a).0 same in
      let dd : d ≡ d' = some-injective d d' (sym at ∙ ap (get_elem? xs) eq ∙ at') in
      (
        e,
        ap (get_elem? (set xs b e)) (sym eq) ∙ get_elem?-set_self xs b d e at,
        m ∙ ap (λ (t : FuncData). t.msg) dd,
        n ∙ ap (λ (t : FuncData). t.api) dd,
      )
  | inr other ↦ (d', get_elem?-set_ne xs b a e (ground arith) ∙ at', refl, refl)
]

append-Keeps : (xs : List FuncData) (e : FuncData) → Keeps xs (xs ++ (e ∷ []))
append-Keeps xs e a d at = (d, get_elem?-append_old xs e d a at, refl, refl)

NameEntry-keep :
    (f g : FuncMap) (name : Bytes) (a : ℕ)
    → Keeps f.objects g.objects
    → (v : NameEntry f name a) → load v.found.msg.func_id g.ids ≡ some a
    → NameEntry g name a
NameEntry-keep f g name a k v back =
    let (d, at, m, n) = k a v.found v.at in
    record {
      found = d;
      at = at;
      named = ap (λ (t : FuncMsg). t.api_name) m ∙ v.named;
      api_named = ap (λ (t : FuncApi). t.name) n ∙ v.api_named;
      numbered =
          ap (λ (t : FuncApi). t.id) n ∙ v.numbered ∙ sym (ap (λ (t : FuncMsg). t.func_id) m);
      back = ap (λ (t : FuncMsg). load t.func_id g.ids) m ∙ back;
    }

IdEntry-keep :
    (f g : FuncMap) (id a : ℕ)
    → Keeps f.objects g.objects
    → f.num ≤ g.num
    → (v : IdEntry f id a) → load v.found.msg.api_name g.str ≡ some a
    → IdEntry g id a
IdEntry-keep f g id a k le v back =
    let (d, at, m, n) = k a v.found v.at in
    record {
      found = d;
      at = at;
      numbered = ap (λ (t : FuncMsg). t.func_id) m ∙ v.numbered;
      bounded = omega (arith, v.bounded);
      back = ap (λ (t : FuncMsg). load t.api_name g.str) m ∙ back;
    }

pub add_node-IsConsistent :
    (f : FuncMap) (a : ℕ) (d : FuncData) (uuid : Bytes)
    → get_elem? f.objects a ≡ some d
    → IsConsistent f
    → IsConsistent (add_node f a d uuid)
unfolding add_node
add_node-IsConsistent f a d uuid at v = elim (Bool-cases (contains d.node uuid)) [
  | inl there ↦ rw there v
  | inr new ↦
      let d' : FuncData = record d { node = d.node ++ (uuid ∷ []) } in
      let g : FuncMap = record f { objects = set f.objects a d' } in
      let k = set-Keeps f.objects a d d' at refl refl in
      rw new (record {
        by_name =
            λ name b e. NameEntry-keep f g name b k (v.by_name name b e) (v.by_name name b e).back;
        by_id =
            λ id b e. IdEntry-keep f g id b k (omega arith) (v.by_id id b e) (v.by_id id b e).back;
      })
]

-- What `add_object` is called with.
pub record IsFresh (f : FuncMap) (id : ℕ) (name : Bytes) (d : FuncData) : Type 0 where
  pub above : f.num < id
  pub unused : load name f.str ≡ none
  pub named : d.msg.api_name ≡ name
  pub api_named : d.api.name ≡ name
  pub numbered : d.msg.func_id ≡ id
  pub api_numbered : d.api.id ≡ id

load-store_other : (k j : ℕ) (a : ℕ) (m : List (ℕ × ℕ)) → k ≢ j → load j (store k a m) ≡ load j m
load-store_other k j a m h = ground (arith, load-store k j a m)

load-store_at : (k j : ℕ) (a : ℕ) (m : List (ℕ × ℕ)) → k ≡ j → load j (store k a m) ≡ some a
load-store_at k j a m h = ground (arith, load-store k j a m)

name-store_other :
    (k j : Bytes) (a : ℕ) (m : List (Bytes × ℕ)) → k ≢ j → load j (store k a m) ≡ load j m
name-store_other k j a m h = ground (arith, load-store k j a m, bytes_beq_iff k j)

name-store_at : (k j : Bytes) (a : ℕ) (m : List (Bytes × ℕ)) → k ≡ j → load j (store k a m) ≡ some a
name-store_at k j a m h = ground (arith, load-store k j a m, bytes_beq_iff k j)

pub add_object-IsConsistent :
    (f : FuncMap) (id : ℕ) (name : Bytes) (d : FuncData)
    → IsFresh f id name d
    → IsConsistent f
    → IsConsistent (add_object f id name d)
unfolding add_object
add_object-IsConsistent f id name d fresh v = record {
  by_name = λ name' a e. elim (Bool-cases (bytes_beq name name')) [
    | inl same ↦
        let eq = (bytes_beq_iff name name').0 same in
        let ea : length f.objects ≡ a =
          some-injective _ a (sym (name-store_at name name' _ f.str eq) ∙ e) in
        subst (NameEntry (add_object f id name d) name') ea (record {
          found = d;
          at = get_elem?-append_new f.objects d;
          named = fresh.named ∙ eq;
          api_named = fresh.api_named ∙ eq;
          numbered = fresh.api_numbered ∙ sym fresh.numbered;
          back = load-store_at id d.msg.func_id _ f.ids (sym fresh.numbered);
        })
    | inr other ↦
        let old =
          sym (
            name-store_other name name' _ f.str (λ eq. cc (other, (bytes_beq_iff name name').1 eq)))
          ∙ e in
        let w = v.by_name name' a old in
        let i = v.by_id w.found.msg.func_id a w.back in
        NameEntry-keep f (add_object f id name d) name' a (append-Keeps f.objects d) w (
          load-store_other id w.found.msg.func_id _ f.ids (omega (arith, i.bounded, fresh.above))
          ∙ w.back)
  ];
  by_id = λ id' a e. elim (Bool-cases (id == id')) [
    | inl same ↦
        let eq = (==_iff id id').0 same in
        let ea : length f.objects ≡ a =
          some-injective _ a (sym (load-store_at id id' _ f.ids eq) ∙ e) in
        subst (IdEntry (add_object f id name d) id') ea (record {
          found = d;
          at = get_elem?-append_new f.objects d;
          numbered = fresh.numbered ∙ eq;
          bounded = omega arith;
          back = name-store_at name d.msg.api_name _ f.str (sym fresh.named);
        })
    | inr other ↦
        let old = sym (load-store_other id id' _ f.ids (ground arith)) ∙ e in
        let w = v.by_id id' a old in
        IdEntry-keep f (add_object f id name d) id' a (append-Keeps f.objects d)
          (omega (arith, fresh.above)) w
          (name-store_other name w.found.msg.api_name _ f.str
              (λ eq. cc (w.back, fresh.unused, ap (λ t. load t f.str) eq))
            ∙ w.back)
  ];
}
