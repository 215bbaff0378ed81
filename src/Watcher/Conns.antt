-- ===== src/Watcher/Conns.antt =====
-- What a node that asks for the nodes of an API gets.
use gorigin.Prelude.{
  ℕ, ◌≡◌, refl, sym, ap, subst, set-set, ◌∙◌, inl, inr, List, [], ◌∷◌, ◌++◌, Option, some, Bytes,
  false, get_elem?, set, load, nat_key, bytes_key, Option-cases, arith, ◌==◌,
}
use gorigin.Pb.{NodeInfo, FuncMsg, GetApiConnRsp}
use gorigin.Registry.{FuncData, get_ids}
use gorigin.Registry.Heap.{get_elem?-set_self}
use gorigin.Registry.Invariant.{IsConsistent}
use gorigin.NodeTable.{NodeMap, get_node_by_uuid}
use gorigin.Watcher.{Watcher, live_nodes, asked_msg, get_api_conn}

live_nodes-again :
    (n : NodeMap) (ids : List Bytes) → live_nodes n (live_nodes n ids).1 ≡ live_nodes n ids
unfolding live_nodes
live_nodes-again n [] = refl
live_nodes-again n (id ∷ ids) = elim (Option-cases (get_node_by_uuid n id)) [
  | inl e ↦ rw (e, live_nodes) (live_nodes-again n ids)
  | inr (tmp, e) ↦
      rw (e, live_nodes, e)
        (ap (λ (p : List NodeInfo × List Bytes). (tmp ∷ p.0, id ∷ p.1)) (live_nodes-again n ids))
]

-- The table after the answer, and the answer, for a function that is known.
get_api_conn-known :
    (w : Watcher) (name : Bytes) (rsp : GetApiConnRsp) (a : ℕ) (d : FuncData)
    → (d.msg.func_id == 0) ≡ false
    → load d.msg.func_id w.fmsg.ids ≡ some a
    → get_elem? w.fmsg.objects a ≡ some d
    → get_api_conn w d.msg.func_id name rsp ≡ (
      record w {
        fmsg = record w.fmsg {
          objects = set w.fmsg.objects a (record d { node = (live_nodes w.node d.node).1 });
        };
      },
      record { msg = some d.msg; list = rsp.list ++ (live_nodes w.node d.node).0 },
    )
unfolding get_api_conn get_ids
get_api_conn-known w name rsp a d z e at =
    let m : asked_msg w d.msg.func_id name rsp.msg ≡ some d.msg = rw (z, e, at) refl in
    rw (m, get_api_conn, e, at)
      (ap
        (λ (t : Option FuncMsg). (
          record w {
            fmsg = record w.fmsg {
              objects = set w.fmsg.objects a (record d { node = (live_nodes w.node d.node).1 });
            };
          },
          record { msg = t; list = rsp.list ++ (live_nodes w.node d.node).0 },
        ))
        m)

-- A node that asks twice for the nodes of an API that has a number gets the same answer twice, and
-- the second time the watcher changes nothing.
pub get_api_conn-again :
    (w : Watcher) (fid : ℕ) (name : Bytes) (rsp : GetApiConnRsp) (d : FuncData)
    → (fid == 0) ≡ false
    → IsConsistent w.fmsg
    → get_ids w.fmsg fid ≡ some d
    → get_api_conn (get_api_conn w fid name rsp).0 fid name rsp ≡ get_api_conn w fid name rsp
unfolding get_ids
get_api_conn-again w fid name rsp d z c known = elim (Option-cases (load fid w.fmsg.ids)) [
  | inl gone ↦ absurd (ground arith)
  | inr (a, e) ↦
      let entry = c.by_id fid a e in
      let d0 = entry.found in
      let num : d0.msg.func_id ≡ fid = entry.numbered in
      let ids : List Bytes = (live_nodes w.node d0.node).1 in
      let d1 : FuncData = record d0 { node = ids } in
      let z' : (d0.msg.func_id == 0) ≡ false = ap (λ t. t == 0) num ∙ z in
      let e' : load d0.msg.func_id w.fmsg.ids ≡ some a = ap (λ t. load t w.fmsg.ids) num ∙ e in
      let w' : Watcher = record w { fmsg = record w.fmsg { objects = set w.fmsg.objects a d1 } } in
      let once = get_api_conn-known w name rsp a d0 z' e' entry.at in
      let twice =
        get_api_conn-known w' name rsp a d1 z' e'
          (get_elem?-set_self w.fmsg.objects a d0 d1 entry.at) in
      let settled : get_api_conn w' d0.msg.func_id name rsp
          ≡ get_api_conn w d0.msg.func_id name rsp =
        twice
        ∙ ap
            (λ (p : List NodeInfo × List Bytes). (
              record w {
                fmsg = record w.fmsg {
                  objects = set (set w.fmsg.objects a d1) a (record d0 { node = p.1 });
                };
              },
              record { msg = some d0.msg; list = rsp.list ++ p.0 },
            ))
            (live_nodes-again w.node d0.node)
        ∙ ap
            (λ (t : List FuncData). (
              record w { fmsg = record w.fmsg { objects = t } },
              record { msg = some d0.msg; list = rsp.list ++ (live_nodes w.node d0.node).0 },
            ))
            (set-set w.fmsg.objects a d1)
        ∙ sym once in
      let first : (get_api_conn w d0.msg.func_id name rsp).0 ≡ w' =
        ap (λ (r : Watcher × GetApiConnRsp). r.0) once in
      subst (λ t. get_api_conn (get_api_conn w t name rsp).0 t name rsp ≡ get_api_conn w t name rsp)
        num (ap (λ (u : Watcher). get_api_conn u d0.msg.func_id name rsp) first ∙ settled)
]
