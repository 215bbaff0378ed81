-- ===== src/NodeTable/Laws.antt =====
-- Who is in the table, and until when.
use gorigin.Prelude.{
  ℕ, ◌+◌, ◌≤◌, ◌<◌, ◌≡◌, ◌⊎◌, refl, ◌∙◌, inl, inr, [], none, some, Bytes, true, false,
  if◌then◌else◌, load, load-store, load-store_self, Unique, store-Unique, keep-Unique, load-keep,
  bytes_key, bytes_beq, bytes_beq_iff, not, Bool-cases, Option-cases, arith,
}
use mathlib.Core.Bool.{◌&&◌}
use gorigin.Pb.{NodeInfo, SystemStatus}
use gorigin.Registry.{no_text}
use gorigin.NodeTable.{
  NodeMsg, NodeMap, node_conn_time_out, up_heartbeat, get_node_by_uuid, get_uuid_by_name, nodes_of,
  get_node_by_name, put_node_detail, is_late, clear_node_exprie,
}

-- The operations on the table, at their times.
pub data Step : NodeMap → NodeMap → Type 0 where
  beats : (n : NodeMap) (now : ℕ) (sys : SystemStatus) → Step n (up_heartbeat n now sys).0
  puts : (n : NodeMap) (now : ℕ) (msg : NodeInfo) → Step n (put_node_detail n now msg)
  clears : (n : NodeMap) (now : ℕ) → Step n (clear_node_exprie n now)

pub data Reach : NodeMap → Type 0 where
  start : Reach (record { name = []; uuid = [] })
  next : {m n : NodeMap} → Reach m → Step m n → Reach n

-- Each node is in the table once; the table of names is empty.
pub record IsTable (n : NodeMap) : Type 0 where
  pub unique : Unique n.uuid
  pub unnamed : n.name ≡ []

Step-IsTable : {m n : NodeMap} → Step m n → IsTable m → IsTable n
unfolding up_heartbeat put_node_detail clear_node_exprie
Step-IsTable (beats n now sys) v = elim (Option-cases (load sys.uuid n.uuid)) [
  | inl e ↦ rw (e, up_heartbeat) v
  | inr (msg, e) ↦
      rw (e, up_heartbeat)
        (record { unique = store-Unique sys.uuid _ n.uuid v.unique; unnamed = v.unnamed })
]
Step-IsTable (puts n now msg) v = elim (Option-cases (load msg.uuid n.uuid)) [
  | inl e ↦
      rw (e, put_node_detail)
        (record { unique = store-Unique msg.uuid _ n.uuid v.unique; unnamed = v.unnamed })
  | inr (arg, e) ↦ elim (Bool-cases (bytes_beq arg.base.host msg.host)) [
    | inl same ↦
        rw (e, put_node_detail, same)
          (record { unique = store-Unique msg.uuid _ n.uuid v.unique; unnamed = v.unnamed })
    | inr other ↦ rw (e, put_node_detail, other) v
  ]
]
Step-IsTable (clears n now) v = record {
  unique = keep-Unique _ n.uuid v.unique;
  unnamed = v.unnamed;
}

pub Reach-IsTable : {n : NodeMap} → Reach n → IsTable n
Reach-IsTable start = record { unique = tt; unnamed = refl }
Reach-IsTable (next r s) = Step-IsTable s (Reach-IsTable r)

-- No lookup by a server's name ever finds a node, since no operation writes the table of names.
pub get_node_by_name-Reach : (n : NodeMap) (name : Bytes) → Reach n → get_node_by_name n name ≡ []
unfolding get_node_by_name get_uuid_by_name nodes_of load
get_node_by_name-Reach n name r = rw (Reach-IsTable r).unnamed refl

-- The clean-up keeps a node, unchanged, exactly when it is marked as alive and its last sign of life
-- is at most `node_conn_time_out` old; of the others nothing is left.
pub load-clear_node_exprie :
    (n : NodeMap) (now : ℕ) (uuid : Bytes)
    → Reach n
    → ((load uuid n.uuid ≡ none) × (load uuid (clear_node_exprie n now).uuid ≡ none))
      ⊎ ((v : NodeMsg) × (load uuid n.uuid ≡ some v)
          × (((v.state ≡ true)
                × (now ≤ v.stamp + node_conn_time_out)
                × (load uuid (clear_node_exprie n now).uuid ≡ some v))
              ⊎ (((v.state ≡ false) ⊎ (v.stamp + node_conn_time_out < now))
                  × (load uuid (clear_node_exprie n now).uuid ≡ none))))
unfolding clear_node_exprie
load-clear_node_exprie n now uuid r =
    let kept =
      load-keep (λ key v. v.state && not (is_late now v)) uuid n.uuid (Reach-IsTable r).unique in
    elim (Option-cases (load uuid n.uuid)) [
      | inl e ↦ inl (e, kept ∙ rw e refl)
      | inr (v, e) ↦ inr (
        v,
        e,
        (elim (Bool-cases v.state) [
          | inl up ↦ elim (Bool-cases (is_late now v)) [
            | inl late ↦ inr (inr (ground arith), kept ∙ rw (e, up, late) refl)
            | inr fine ↦ inl (up, ground arith, kept ∙ rw (e, up, fine) refl)
          ]
          | inr down ↦ inr (inl down, kept ∙ rw (e, down) refl)
        ]),
      )
    ]

-- A heartbeat is accepted exactly from a node of the table, and changes its time, its state and its
-- system's figures only; all other nodes stay as they are.
pub load-up_heartbeat :
    (n : NodeMap) (now : ℕ) (sys : SystemStatus) (uuid : Bytes)
    → ((load sys.uuid n.uuid ≡ none) × (up_heartbeat n now sys ≡ (n, false)))
      ⊎ ((v : NodeMsg) × (load sys.uuid n.uuid ≡ some v)
          × ((up_heartbeat n now sys).1 ≡ true)
          × (load uuid (up_heartbeat n now sys).0.uuid ≡ (
              if bytes_beq sys.uuid uuid
              then some (record { base = v.base; syst = some sys; stamp = now; state = true })
              else load uuid n.uuid)))
unfolding up_heartbeat
load-up_heartbeat n now sys uuid = elim (Option-cases (load sys.uuid n.uuid)) [
  | inl e ↦ inl (e, rw (e, up_heartbeat) refl)
  | inr (v, e) ↦
      inr
        (v, e, rw (e, up_heartbeat) refl, rw (e, up_heartbeat) (load-store sys.uuid uuid _ n.uuid))
]

-- A node that has sent a heartbeat is still found after a clean-up that comes in time.
pub heartbeat-keeps :
    (n : NodeMap) (beat now : ℕ) (sys : SystemStatus)
    → Reach n
    → (up_heartbeat n beat sys).1 ≡ true
    → no_text sys.uuid ≡ false
    → now ≤ beat + node_conn_time_out
    → (base : NodeInfo) × (get_node_by_uuid n sys.uuid ≡ some base)
      × (get_node_by_uuid (clear_node_exprie (up_heartbeat n beat sys).0 now) sys.uuid ≡ some base)
unfolding get_node_by_uuid clear_node_exprie
heartbeat-keeps n beat now sys r ok named late = elim (load-up_heartbeat n beat sys sys.uuid) [
  | inl (e, no_beat) ↦ absurd (ground arith)
  | inr (v, e, _, after) ↦
      let m = (up_heartbeat n beat sys).0 in
      let here : bytes_beq sys.uuid sys.uuid ≡ true = (bytes_beq_iff sys.uuid sys.uuid).1 refl in
      let v' : NodeMsg = record { base = v.base; syst = some sys; stamp = beat; state = true } in
      let at : load sys.uuid m.uuid ≡ some v' = after ∙ rw here refl in
      let fresh : is_late now v' ≡ false = ground arith in
      let kept =
        load-keep (λ key w. w.state && not (is_late now w)) sys.uuid m.uuid
          (Reach-IsTable (next r (beats n beat sys))).unique in
      let still : load sys.uuid (clear_node_exprie m now).uuid ≡ some v' =
        kept ∙ rw (at, fresh) refl in
      (v.base, rw (named, e) refl, rw (named, still) refl)
]

-- A node that registers is found by its uuid, unless the uuid is taken: then the table keeps the
-- node that it has, and a registration from another host changes nothing at all.
pub get_node_by_uuid-put :
    (n : NodeMap) (now : ℕ) (msg : NodeInfo)
    → no_text msg.uuid ≡ false
    → ((get_node_by_uuid n msg.uuid ≡ none)
        × (get_node_by_uuid (put_node_detail n now msg) msg.uuid
            ≡ some (record msg { funcs = [] })))
      ⊎ ((old : NodeInfo) × (get_node_by_uuid n msg.uuid ≡ some old)
          × (get_node_by_uuid (put_node_detail n now msg) msg.uuid ≡ some old)
          × ((old.host ≡ msg.host) ⊎ (put_node_detail n now msg ≡ n)))
unfolding get_node_by_uuid put_node_detail
get_node_by_uuid-put n now msg named = elim (Option-cases (load msg.uuid n.uuid)) [
  | inl e ↦
      let new : NodeMsg = record {
        base = record msg { funcs = [] };
        syst = none;
        stamp = now;
        state = true;
      } in
      inl (
        rw (named, e) refl,
        rw (e, put_node_detail, named, load-store_self msg.uuid new n.uuid) refl,
      )
  | inr (arg, e) ↦
      let known : NodeMsg = record arg { stamp = now; state = true } in
      inr (
        arg.base,
        rw (named, e) refl,
        (elim (Bool-cases (bytes_beq arg.base.host msg.host)) [
          | inl same ↦
              rw (e, put_node_detail, same, named, load-store_self msg.uuid known n.uuid) refl
          | inr other ↦ rw (e, put_node_detail, other, named, e) refl
        ]),
        (elim (Bool-cases (bytes_beq arg.base.host msg.host)) [
          | inl same ↦ inl ((bytes_beq_iff arg.base.host msg.host).0 same)
          | inr other ↦ inr (rw (e, put_node_detail, other) refl)
        ]),
      )
]
