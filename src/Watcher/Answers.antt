-- ===== src/Watcher/Answers.antt =====
-- What the response to a registration says of the APIs.
use gorigin.Prelude.{
  ℕ, ◌+◌, ◌^◌, ◌<◌, ◌≡◌, ◌⊎◌, refl, sym, ap, ◌∙◌, inl, inr, List, [], ◌∷◌, some, Bytes, true, false,
  All, length, get_elem?, load, nat_key, bytes_key, Bool-cases, Option-cases, arith, ◌||◌,
}
use mathlib.Core.Option.{some-injective}
use gorigin.Pb.{FuncApi, FuncMsg, NodeInfo}
use gorigin.Registry.{FuncData, FuncMap, no_text, put_api, get_ids, get_str}
use gorigin.Registry.Invariant.{IsConsistent}
use gorigin.Registry.Laws.{
  put_api-IsConsistent, put_api-Registered, put_api-refuses, put_api-old, put_api-new,
}
use gorigin.Registry.Numbers.{Survives, put_api-Survives}
use gorigin.Watcher.{Watcher, put_apis, registered}
use gorigin.Watcher.Laws.{put_api-num}

-- An API without a name is not in the table; any other is there by its name, under its number.
abbrev pub Answered : FuncMap → FuncApi → Type 0
Answered f v =
    (no_text v.name ≡ true)
    ⊎ ((d : FuncData) × (get_str f v.name ≡ some d)
        × (d.msg.func_id ≡ v.id)
        × (d.msg.api_name ≡ v.name))

get_ids-numbered :
    (f : FuncMap) (id : ℕ) (d : FuncData)
    → IsConsistent f
    → get_ids f id ≡ some d
    → d.msg.func_id ≡ id
unfolding get_ids
get_ids-numbered f id d c e = elim (Option-cases (load id f.ids)) [
  | inl gone ↦ absurd (ground arith)
  | inr (a, there) ↦
      let entry = c.by_id id a there in
      let at : get_elem? f.objects a ≡ some d = rw there at e in
      let same : entry.found ≡ d = some-injective entry.found d (sym entry.at ∙ at) in
      ap (λ (t : FuncData). t.msg.func_id) (sym same) ∙ entry.numbered
]

name-put_api : (f : FuncMap) (uuid : Bytes) (v : FuncApi) → (put_api f uuid v).1.name ≡ v.name
unfolding put_api
name-put_api f uuid v = elim (Bool-cases (no_text uuid || no_text v.name)) [
  | inl bad ↦ rw (put_api-refuses f uuid v bad) refl
  | inr p ↦ elim (Option-cases (load v.name f.str)) [
    | inl e ↦ rw (put_api-new f uuid v p e) refl
    | inr (a, e) ↦ elim (Option-cases (get_elem? f.objects a)) [
      | inl e' ↦ rw (p, e, e', put_api) refl
      | inr (d, at) ↦ rw (put_api-old f uuid v a d p e at) refl
    ]
  ]
]

put_api-Answered :
    (f : FuncMap) (uuid : Bytes) (v : FuncApi)
    → f.num + 1 < 2 ^ 32
    → IsConsistent f
    → no_text uuid ≡ false
    → Answered (put_api f uuid v).0 (put_api f uuid v).1
put_api-Answered f uuid v h c named = elim (Bool-cases (no_text v.name)) [
  | inl empty ↦ inl (ap no_text (name-put_api f uuid v) ∙ empty)
  | inr full ↦
      let (done, (d, by_name, by_id, m, listed)) = put_api-Registered f uuid v h c (ground arith) in
      let name = name-put_api f uuid v in
      inr (
        d,
        ap (get_str (put_api f uuid v).0) name ∙ by_name,
        get_ids-numbered (put_api f uuid v).0 (put_api f uuid v).1.id d
            (put_api-IsConsistent f uuid v h c) by_id,
        m ∙ sym name,
      )
]

put_apis-Survives :
    (f : FuncMap) (uuid : Bytes) (vs : List FuncApi) (name : Bytes) (d : FuncData)
    → f.num + length vs < 2 ^ 32
    → IsConsistent f
    → get_str f name ≡ some d
    → Survives f (put_apis f uuid vs).0 name d
unfolding put_apis
put_apis-Survives f uuid [] name d h c e = (d, e, refl)
put_apis-Survives f uuid (v ∷ vs) name d h c e =
    let (d', e', m) = put_api-Survives f uuid v name d c e in
    let (d'', e'', m') =
      put_apis-Survives (put_api f uuid v).0 uuid vs name d'
        (omega (arith, put_api-num f uuid v (omega arith)))
        (put_api-IsConsistent f uuid v (omega arith) c) e' in
    (d'', e'', m' ∙ m)

Answered-later :
    (f : FuncMap) (uuid : Bytes) (vs : List FuncApi) (v : FuncApi)
    → f.num + length vs < 2 ^ 32
    → IsConsistent f
    → Answered f v
    → Answered (put_apis f uuid vs).0 v
Answered-later f uuid vs v h c (inl empty) = inl empty
Answered-later f uuid vs v h c (inr (d, e, id, name)) =
    let (d', e', m) = put_apis-Survives f uuid vs v.name d h c e in
    inr (d', e', ap (λ (t : FuncMsg). t.func_id) m ∙ id, ap (λ (t : FuncMsg). t.api_name) m ∙ name)

put_apis-Answered :
    (f : FuncMap) (uuid : Bytes) (vs : List FuncApi)
    → f.num + length vs < 2 ^ 32
    → IsConsistent f
    → no_text uuid ≡ false
    → All (Answered (put_apis f uuid vs).0) (put_apis f uuid vs).1
unfolding put_apis
put_apis-Answered f uuid [] h c named = tt
put_apis-Answered f uuid (v ∷ vs) h c named =
    let f' = (put_api f uuid v).0 in
    let room : f'.num + length vs < 2 ^ 32 = omega (arith, put_api-num f uuid v (omega arith)) in
    let c' = put_api-IsConsistent f uuid v (omega arith) c in
    (
      Answered-later f' uuid vs (put_api f uuid v).1 room c'
          (put_api-Answered f uuid v (omega arith) c named),
      put_apis-Answered f' uuid vs room c' named,
    )

-- After a registration with a uuid, while numbers are free, each API of the response that has a name
-- is in the watcher's table by that name, under the number that the response gives it.
pub registered-Answered :
    (w : Watcher) (now : ℕ) (req : NodeInfo)
    → w.fmsg.num + length req.funcs < 2 ^ 32
    → IsConsistent w.fmsg
    → no_text req.uuid ≡ false
    → All
        (Answered (registered w now req (record { watch = []; funcs = [] })).0.fmsg)
        (registered w now req (record { watch = []; funcs = [] })).1.funcs
unfolding registered
registered-Answered w now req h c named =
    rw (named, registered) (put_apis-Answered w.fmsg req.uuid req.funcs h c named)
