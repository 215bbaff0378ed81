-- ===== src/Watcher/Laws.antt =====
-- What a node that registers, sends heartbeats and asks can rely on.
use gorigin.Prelude.{
  ℕ, ◌+◌, ◌^◌, ◌≤◌, ◌<◌, ◌≡◌, ◌⊎◌, refl, inl, inr, List, [], ◌∷◌, none, some, Bytes, true, false,
  length, get_elem?, load, nat_key, bytes_key, Bool-cases, Option-cases, arith, ◌||◌,
}
use gorigin.Pb.{FuncApi, NodeInfo, RegisteredRsp}
use gorigin.Registry.{FuncData, FuncMap, no_text, put_api, add_node, add_object}
use gorigin.Registry.Invariant.{IsConsistent}
use gorigin.Registry.Laws.{HasRoom, put_api-IsConsistent}
use gorigin.Watcher.{Watcher, null_uuid, put_apis, registered}

num-add_node :
    (f : FuncMap) (a : ℕ) (d : FuncData) (uuid : Bytes) → (add_node f a d uuid).num ≡ f.num
unfolding add_node
num-add_node f a d uuid = ground arith

-- A request takes one number at most.
pub put_api-num :
    (f : FuncMap) (uuid : Bytes) (arg : FuncApi)
    → HasRoom f
    → (put_api f uuid arg).0.num ≤ f.num + 1
unfolding add_object put_api
put_api-num f uuid arg h = elim (Bool-cases (no_text uuid || no_text arg.name)) [
  | inl bad ↦ rw (bad, put_api) (omega arith)
  | inr p ↦ elim (Option-cases (load arg.name f.str)) [
    | inl e ↦ rw (p, e, put_api) (omega arith)
    | inr (a, e) ↦ elim (Option-cases (get_elem? f.objects a)) [
      | inl e' ↦ rw (p, e, e', put_api) (omega arith)
      | inr (d, e') ↦ rw (p, e, e', put_api) (omega (arith, num-add_node f a d uuid))
    ]
  ]
]

put_apis-IsConsistent :
    (f : FuncMap) (uuid : Bytes) (vs : List FuncApi)
    → f.num + length vs < 2 ^ 32
    → IsConsistent f
    → IsConsistent (put_apis f uuid vs).0
unfolding put_apis
put_apis-IsConsistent f uuid [] h c = c
put_apis-IsConsistent f uuid (v ∷ vs) h c =
    put_apis-IsConsistent (put_api f uuid v).0 uuid vs
      (omega (arith, put_api-num f uuid v (omega arith)))
      (put_api-IsConsistent f uuid v (omega arith) c)

-- Without a uuid a registration changes nothing and fails; with one it succeeds, and keeps the table
-- of APIs consistent while numbers are free.
pub registered-IsConsistent :
    (w : Watcher) (now : ℕ) (req : NodeInfo) (rsp : RegisteredRsp)
    → w.fmsg.num + length req.funcs < 2 ^ 32
    → IsConsistent w.fmsg
    → ((no_text req.uuid ≡ true) × (registered w now req rsp ≡ (w, rsp, some null_uuid)))
      ⊎ ((no_text req.uuid ≡ false)
          × ((registered w now req rsp).2 ≡ none)
          × IsConsistent (registered w now req rsp).0.fmsg)
unfolding registered
registered-IsConsistent w now req rsp h c = elim (Bool-cases (no_text req.uuid)) [
  | inl bad ↦ inl (bad, rw bad refl)
  | inr good ↦
      inr (good, rw good refl, rw good (put_apis-IsConsistent w.fmsg req.uuid req.funcs h c))
]
