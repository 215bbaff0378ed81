-- ===== src/Client/Watchers.antt =====
-- The watchers of a node's configuration, which have no uuid (network/rpc/node.go makes them so).
use gorigin.Prelude.{
  ◌≡◌, ◌⊎◌, refl, sym, ap, subst, inl, inr, ◌∙◌, List, [], ◌∷◌, ◌++◌, Option, none, some,
  some-injective, Bytes, Bool, true, false, All, load, store, load-store_self, bytes_key, bytes_beq,
  Bool-cases,
}
use gorigin.Pb.{NodeInfo}
use gorigin.FuncCache.{NodeConn, FuncMap, put_conn, set_conn, get_node_conn}
use gorigin.Calls.{new_conn, node_base_to_conn}
use gorigin.Client.{WatchNode, promote, config_node, works_of, config_loop, init_watch_config}

abbrev pub NoUuid : NodeInfo → Type 0
NoUuid node = (node.uuid ≡ []) × (node.hport ≡ 0)

module _ (test refresh tcp : NodeConn → Bool) where
  -- The one connection with a uuid, which is the empty one below.
  record IsOne (k : Bytes) (f : FuncMap) (c : NodeConn) : Type 0 where
    there : load k f.ser ≡ some c
    working : c.wrong ≡ false
    tested : test c ≡ true

  -- What `NodeBaseToConn` makes of a configuration: nothing, or a connection that is the one from
  -- then on, and was before if there was one.
  abbrev Made : Bytes → FuncMap → FuncMap × Option NodeConn → Type 0
  Made k f (g, none) = load k g.ser ≡ load k f.ser
  Made k f (g, some c) = IsOne k g c × ((load k f.ser ≡ none) ⊎ (load k f.ser ≡ some c))

  node_base-new :
      (f : FuncMap) (node : NodeInfo)
      → ((c : NodeConn) → c.hport ≡ 0 → refresh c ≡ true → test c ≡ true)
      → node.hport ≡ 0
      → load node.uuid f.ser ≡ none
      → Made node.uuid f (node_base_to_conn test refresh f node)
  unfolding node_base_to_conn new_conn put_conn get_node_conn
  node_base-new f node fine web e =
      let conn : NodeConn = record {
        uuid = node.uuid;
        host = node.host;
        tport = node.tport;
        uport = node.uport;
        hport = node.hport;
        wrong = false;
        stamp = 0;
      } in
      elim (Bool-cases (refresh conn)) [
        | inl r ↦
            let made : node_base_to_conn test refresh f node
                ≡ (record f { ser = store node.uuid conn f.ser }, some conn) =
              rw (node_base_to_conn, e, new_conn, r, e, put_conn) refl in
            subst (Made node.uuid f) (sym made) (
              record {
                there = load-store_self node.uuid conn f.ser;
                working = refl;
                tested = fine conn web r;
              },
              inl e,
            )
        | inr r ↦
            let made : node_base_to_conn test refresh f node ≡ (f, none) =
              rw (node_base_to_conn, e, new_conn, r) refl in
            subst (Made node.uuid f) (sym made) refl
      ]

  node_base-old :
      (f : FuncMap) (node : NodeInfo) (c : NodeConn)
      → IsOne node.uuid f c
      → Made node.uuid f (node_base_to_conn test refresh f node)
  unfolding node_base_to_conn set_conn get_node_conn
  node_base-old f node c one = elim (Bool-cases (bytes_beq c.host node.host)) [
    | inr other ↦
        let made : node_base_to_conn test refresh f node ≡ (f, none) =
          rw (node_base_to_conn, one.there, one.working, other) refl in
        subst (Made node.uuid f) (sym made) refl
    | inl same ↦
        let now : NodeConn = record c { wrong = false } in
        let eq : c ≡ now = ap (λ b. record c { wrong = b }) one.working in
        let made : node_base_to_conn test refresh f node
            ≡ (record f { ser = store node.uuid now f.ser }, some now) =
          rw (node_base_to_conn, one.there, one.tested, one.working, same, set_conn, one.there)
            refl in
        subst (Made node.uuid f) (sym made) (
          record {
            there = load-store_self node.uuid now f.ser;
            working = refl;
            tested = subst (λ x. test x ≡ true) eq one.tested;
          },
          inr (one.there ∙ ap some eq),
        )
  ]

  -- What the loop has: no connection, or the one, of which all that it has collected are copies.
  unfoldable Loop : FuncMap → Option NodeConn → List NodeConn → Type 0
  Loop f master slaves =
      ((load [] f.ser ≡ none) × (master ≡ none) × (slaves ≡ []))
      ⊎ ((c : NodeConn) × IsOne [] f c
          × ((master ≡ none) ⊎ (master ≡ some c))
          × All (λ s. s ≡ c) slaves)

  abbrev LoopOf : FuncMap × Option NodeConn × List NodeConn → Type 0
  LoopOf (g, m, ss) = Loop g m ss

  known_lem :
      (f : FuncMap) (master : Option NodeConn) (slaves : List NodeConn)
      → Loop f master slaves
      → (load [] f.ser ≡ none) ⊎ ((c : NodeConn) × IsOne [] f c)
  unfolding Loop
  known_lem f master slaves (inl (gone, m, ss)) = inl gone
  known_lem f master slaves (inr (c, one, m, ss)) = inr (c, one)

  base-Made :
      (f : FuncMap) (node : NodeInfo)
      → ((c : NodeConn) → c.hport ≡ 0 → refresh c ≡ true → test c ≡ true)
      → NoUuid node
      → ((load [] f.ser ≡ none) ⊎ ((c : NodeConn) × IsOne [] f c))
      → Made [] f (node_base_to_conn test refresh f node)
  base-Made f node fine (u, web) (inl e) =
      subst (λ k. Made k f (node_base_to_conn test refresh f node)) u
        (node_base-new f node fine web (subst (λ k. load k f.ser ≡ none) (sym u) e))
  base-Made f node fine (u, web) (inr (c, one)) =
      subst (λ k. Made k f (node_base_to_conn test refresh f node)) u
        (node_base-old f node c (subst (λ k. IsOne k f c) (sym u) one))

  All-last :
      (c : NodeConn) (ss : List NodeConn) → All (λ s. s ≡ c) ss → All (λ s. s ≡ c) (ss ++ c ∷ [])
  All-last c [] h = (refl, tt)
  All-last c (s ∷ ss) (e, h) = (e, All-last c ss h)

  -- A connection that is made is the one that all are copies of.
  copies_lem :
      (f g : FuncMap) (master : Option NodeConn) (slaves : List NodeConn) (c : NodeConn)
      → Made [] f (g, some c)
      → Loop f master slaves
      → IsOne [] g c × ((master ≡ none) ⊎ (master ≡ some c)) × All (λ s. s ≡ c) slaves
  unfolding Loop
  copies_lem f g master slaves c (one, before) (inl (gone, m, ss)) =
      (one, inl m, subst (All (λ s. s ≡ c)) (sym ss) tt)
  copies_lem f g master slaves c (one, inl gone) (inr (d, old, m, ss)) =
      let there : load [] f.ser ≡ some d = old.there in absurd cc
  copies_lem f g master slaves c (one, inr there) (inr (d, old, m, ss)) =
      let same : d ≡ c = some-injective d c (sym old.there ∙ there) in
      subst (λ x. IsOne [] g c × ((master ≡ none) ⊎ (master ≡ some x)) × All (λ s. s ≡ x) slaves)
        same (one, m, ss)

  config_node-copies :
      (main works : Bool) (c : NodeConn) (master : Option NodeConn) (slaves : List NodeConn)
      → (master ≡ none) ⊎ (master ≡ some c)
      → All (λ s. s ≡ c) slaves
      → (((config_node main works (some c) master slaves).0 ≡ none)
          ⊎ ((config_node main works (some c) master slaves).0 ≡ some c))
        × All (λ s. s ≡ c) (config_node main works (some c) master slaves).1
  unfolding config_node
  config_node-copies main false c master slaves m ss = (m, ss)
  config_node-copies main true c (some d) slaves m ss = (m, All-last c slaves ss)
  config_node-copies true true c none slaves m ss = (inr refl, ss)
  config_node-copies false true c none slaves m ss = (m, All-last c slaves ss)

  config_node-Loop :
      (f g : FuncMap) (main works : Bool) (made master : Option NodeConn) (slaves : List NodeConn)
      → Made [] f (g, made)
      → Loop f master slaves
      → Loop g
          (config_node main works made master slaves).0
          (config_node main works made master slaves).1
  unfolding config_node Loop
  config_node-Loop f g main works none master slaves e (inl (gone, m, ss)) = inl (e ∙ gone, m, ss)
  config_node-Loop f g main works none master slaves e (inr (c, one, m, ss)) =
      inr (c, record { there = e ∙ one.there; working = one.working; tested = one.tested }, m, ss)
  config_node-Loop f g main works (some c) master slaves made l =
      let (one, m, ss) = copies_lem f g master slaves c made l in
      let (m', ss') = config_node-copies main works c master slaves m ss in inr (c, one, m', ss')

  config_loop-Loop :
      (nodes : List NodeInfo) (f : FuncMap) (master : Option NodeConn) (slaves : List NodeConn)
      → ((c : NodeConn) → c.hport ≡ 0 → refresh c ≡ true → test c ≡ true)
      → All NoUuid nodes
      → Loop f master slaves
      → LoopOf (config_loop test refresh tcp f master slaves nodes)
  unfolding config_loop
  config_loop-Loop [] f master slaves fine h l = l
  config_loop-Loop (node ∷ nodes) f master slaves fine (u, us) l =
      let (g, made) = node_base_to_conn test refresh f node in
      config_loop-Loop nodes g _ _ fine us (
        config_node-Loop f g node.main (works_of tcp made) made master slaves
          (base-Made f node fine u (known_lem f master slaves l)) l)

  promote-copies :
      (f : FuncMap) (master : Option NodeConn) (slaves : List NodeConn) (m : NodeConn)
      → Loop f master slaves
      → (promote master slaves).0 ≡ some m
      → All (λ s. s ≡ m) (promote master slaves).1
  unfolding promote Loop
  promote-copies f none [] m l e = tt
  promote-copies f none (s ∷ ss) m (inl (gone, n, empty)) e = absurd cc
  promote-copies f none (s ∷ ss) m (inr (c, one, n, (same, copies))) e =
      let eq : c ≡ m = sym same ∙ some-injective s m e in subst (λ x. All (λ s. s ≡ x) ss) eq copies
  promote-copies f (some d) slaves m (inl (gone, n, empty)) e = absurd cc
  promote-copies f (some d) slaves m (inr (c, one, inl n, copies)) e = absurd cc
  promote-copies f (some d) slaves m (inr (c, one, inr n, copies)) e =
      let eq : c ≡ m = sym (some-injective d c n) ∙ some-injective d m e in
      subst (λ x. All (λ s. s ≡ x) slaves) eq copies

  -- A node that is given several watchers, with no connection to a watcher yet: all the slaves that
  -- `InitWatchConfig` makes have the fields of the master, since no configuration has a uuid and
  -- connections are known by it. A connection that is made passes its test.
  pub init_watch_config-one :
      (f : FuncMap) (w : WatchNode) (node other : NodeInfo) (nodes : List NodeInfo) (m : NodeConn)
      → ((c : NodeConn) → c.hport ≡ 0 → refresh c ≡ true → test c ≡ true)
      → load [] f.ser ≡ none
      → w.config ≡ node ∷ other ∷ nodes
      → All NoUuid w.config
      → (init_watch_config test refresh tcp f w).1.master ≡ some m
      → All (λ s. s ≡ m) (init_watch_config test refresh tcp f w).1.slaves
  unfolding init_watch_config Loop
  init_watch_config-one f w node other nodes m fine none' several none_named e =
      let l =
        config_loop-Loop (node ∷ other ∷ nodes) f none [] fine
          (subst (All NoUuid) several none_named) (inl (none', refl, refl)) in
      let (g, master, slaves) = config_loop test refresh tcp f none [] (node ∷ other ∷ nodes) in
      let P : List NodeInfo → Type 0 = λ cs.
        (init_watch_config test refresh tcp f (record w { config = cs })).1.master ≡ some m
        → All (λ s. s ≡ m)
            (init_watch_config test refresh tcp f (record w { config = cs })).1.slaves in
      subst P (sym several) (promote-copies g master slaves m l) e
