-- ===== src/Watcher/Numbers.antt =====
-- The numbers that a response to a registration carries.
use gorigin.Prelude.{
  ℕ, ◌+◌, ◌^◌, ◌<◌, ◌≡◌, refl, subst, inl, inr, List, [], ◌∷◌, none, some, Bytes, false, All,
  length, load, load-store, nat_key, bytes_key, Bool-cases, Option-cases, arith, ◌||◌, ◌==◌, ==_iff,
}
use gorigin.Pb.{FuncApi}
use gorigin.Registry.{FuncData, FuncMap, no_text, next_id, put_api, contains, add_node, add_object}
use gorigin.Registry.Invariant.{IsConsistent}
use gorigin.Registry.Laws.{put_api-IsConsistent, put_api-old, put_api-new}
use gorigin.Watcher.{put_apis}
use gorigin.Watcher.Laws.{put_api-num}

-- A function with a number and a name.
abbrev pub IsNamed : FuncApi → Type 0
IsNamed api = (api.id == 0 || no_text api.name) ≡ false

add_node-ids :
    (f : FuncMap) (a : ℕ) (d : FuncData) (uuid : Bytes) → (add_node f a d uuid).ids ≡ f.ids
unfolding add_node
add_node-ids f a d uuid = elim (Bool-cases (contains d.node uuid)) [
  | inl e ↦ rw (add_node, e) refl
  | inr e ↦ rw (add_node, e) refl
]

-- No entry of the table has the number 0, if there is none at 0.
not_zero :
    (f : FuncMap) (id a : ℕ) → load 0 f.ids ≡ none → load id f.ids ≡ some a → (id == 0) ≡ false
not_zero f id a z e = elim (Bool-cases (id == 0)) [
  | inr other ↦ other
  | inl same ↦
      let at : load 0 f.ids ≡ some a =
        subst (λ i. load i f.ids ≡ some a) ((==_iff id 0).0 same) e in
      absurd cc
]

put_api-IsNamed :
    (f : FuncMap) (uuid : Bytes) (v : FuncApi)
    → f.num + 1 < 2 ^ 32
    → IsConsistent f
    → load 0 f.ids ≡ none
    → (no_text uuid || no_text v.name) ≡ false
    → IsNamed (put_api f uuid v).1 × (load 0 (put_api f uuid v).0.ids ≡ none)
unfolding add_object
put_api-IsNamed f uuid v h c z p = elim (Option-cases (load v.name f.str)) [
  | inl e ↦
      let above : (next_id f == 0) ≡ false = ground arith in
      rw (put_api-new f uuid v p e)
        (ground arith, rw (load-store (next_id f) 0 (length f.objects) f.ids, above) z)
  | inr (a, e) ↦
      let w = c.by_name v.name a e in
      let above = not_zero f w.found.msg.func_id a z w.back in
      rw (put_api-old f uuid v a w.found p e w.at)
        (ground arith, rw (add_node-ids f a w.found uuid) z)
]

-- The response to a registration gives each API a number that is not 0, while numbers are free and
-- none is 0, if each API of the request has a name.
pub put_apis-IsNamed :
    (vs : List FuncApi) (f : FuncMap) (uuid : Bytes)
    → f.num + length vs < 2 ^ 32
    → IsConsistent f
    → load 0 f.ids ≡ none
    → no_text uuid ≡ false
    → All (λ v. no_text v.name ≡ false) vs
    → All IsNamed (put_apis f uuid vs).1
unfolding put_apis
put_apis-IsNamed [] f uuid h c z n ns = tt
put_apis-IsNamed (v ∷ vs) f uuid h c z n (m, ms) =
    let p : (no_text uuid || no_text v.name) ≡ false = rw n m in
    let (named, z') = put_api-IsNamed f uuid v (omega arith) c z p in
    (
      named,
      put_apis-IsNamed vs (put_api f uuid v).0 uuid
          (omega (arith, put_api-num f uuid v (omega arith)))
          (put_api-IsConsistent f uuid v (omega arith) c) z' n ms,
    )
