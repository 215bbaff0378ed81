-- ===== src/Starts/Ports.antt =====
-- The node of a watcher: its ports, and the watchers that it knows.
use gorigin.Prelude.{
  ℕ, ◌≡◌, refl, sym, ap, ◌∙◌, inl, inr, List, [], ◌∷◌, ◌++◌, Option, none, some, Bytes, Bool, true,
  false, not, ◌&&◌, ◌||◌, ◌==◌, ltb, if◌then◌else◌, All, Bool-cases, Option-cases, bytes_beq, arith,
}
use gorigin.Registry.{no_text}
use gorigin.Wire.{bytes_of}
use gorigin.FuncCache.{NodeConn}
use gorigin.Client.Config.{
  WatcherConfig, Node, new_client, node_of, port_of, join_watchers, watch_node_name,
}
use gorigin.Starts.{
  Act, listens_tcp, listens_udp, serves_http, registers, puts_functions, starts_timer, has_error,
  run_steps, run_all, run_server, watch_config, start_watcher, new_watcher,
}

abbrev pub NoUdp : Act → Type 0
NoUdp (listens_udp port) = ⊥
NoUdp (listens_tcp port) = Unit
NoUdp (serves_http port) = Unit
NoUdp registers = Unit
NoUdp puts_functions = Unit
NoUdp starts_timer = Unit

-- The steps that are done are among the steps.
run_all-NoUdp :
    (works : Act → Bool) (acts : List Act) → All NoUdp acts → All NoUdp (run_all works acts).0
unfolding run_all
run_all-NoUdp works [] h = tt
run_all-NoUdp works (a ∷ acts) (p, h) = elim (Bool-cases (not (has_error a) || works a)) [
  | inl done ↦ rw done (p, run_all-NoUdp works acts h)
  | inr fails ↦ rw fails tt
]

-- A step that is taken under a condition, before others.
taken-NoUdp :
    (b : Bool) (a : Act) (acts : List Act)
    → (b ≡ true → NoUdp a)
    → All NoUdp acts
    → All NoUdp ((if b then a ∷ [] else []) ++ acts)
taken-NoUdp true a acts p h = (p refl, h)
taken-NoUdp false a acts p h = h

last-NoUdp : (b : Bool) → All NoUdp ((if b then puts_functions else registers) ∷ starts_timer ∷ [])
last-NoUdp true = (tt, (tt, tt))
last-NoUdp false = (tt, (tt, tt))

run_steps-NoUdp : (name : Bytes) (n : Node) → n.uport ≡ 0 → All NoUdp (run_steps name n)
unfolding run_steps
run_steps-NoUdp name n u =
    let last : List Act =
      (if bytes_beq name watch_node_name then puts_functions else registers) ∷ starts_timer ∷ [] in
    let http : List Act = (if ltb 0 n.hport then serves_http n.hport ∷ [] else []) ++ last in
    let udp : List Act = (if ltb 0 n.uport then listens_udp n.uport ∷ [] else []) ++ http in
    taken-NoUdp (ltb 0 n.tport) (listens_tcp n.tport) udp (λ e. tt)
      (taken-NoUdp (ltb 0 n.uport) (listens_udp n.uport) http (λ e. absurd (ground arith))
        (taken-NoUdp (ltb 0 n.hport) (serves_http n.hport) last (λ e. tt)
          (last-NoUdp (bytes_beq name watch_node_name))))

-- The node that is made with two ports, if there are such.
abbrev built : WatcherConfig → Bool → Option ℕ → Option ℕ → Option (Node × Bool)
built conf marshals none h = none
built conf marshals (some t) none = none
built conf marshals (some t) (some h) = some (node_of (watch_config conf) t 0 h, marshals)

built-alone :
    (conf : WatcherConfig) (marshals ok : Bool) (t h : Option ℕ) (n : Node)
    → built conf marshals t h ≡ some (n, ok)
    → (n.uport ≡ 0) × (n.wser.master ≡ none) × (n.wser.slaves ≡ [])
built-alone conf marshals ok none h n e = absurd (cc)
built-alone conf marshals ok (some t) none n e = absurd (cc)
built-alone conf marshals ok (some t) (some h) n e =
    let same : node_of (watch_config conf) t 0 h ≡ n =
      ap (λ o. elim o [ none ↦ n | some r ↦ r.0 ]) e in
    (
      sym (ap (λ m. m.uport) same),
      sym (ap (λ m. m.wser.master) same),
      sym (ap (λ m. m.wser.slaves) same),
    )

no_port : (free : Option ℕ) (port : ℕ) → port_of free false port ≡ some 0
unfolding port_of
no_port free port = refl

client-built :
    (test refresh tcp : NodeConn → Bool) (free : ℕ → Option ℕ) (marshals : Bool)
    (conf : WatcherConfig)
    → new_client test refresh tcp free marshals (watch_config conf)
      ≡ built conf marshals
          (port_of (free 0) true conf.tcp_port)
          (port_of (free 2) true conf.http_port)
unfolding watch_config join_watchers bytes_beq new_client
client-built test refresh tcp free marshals conf =
    elim (Option-cases (port_of (free 0) true conf.tcp_port)) [
      | inl e ↦ rw (new_client, e) refl
      | inr (t, e) ↦ elim (Option-cases (port_of (free 2) true conf.http_port)) [
        | inl e' ↦ rw (new_client, e, no_port (free 1) conf.udp_port, e') refl
        | inr (h, e') ↦ elim (Bool-cases marshals) [
          | inl m ↦ rw (new_client, e, no_port (free 1) conf.udp_port, e', m) refl
          | inr m ↦ rw (new_client, e, no_port (free 1) conf.udp_port, e', m) refl
        ]
      ]
    ]

module _ (test refresh tcp : NodeConn → Bool) (free : ℕ → Option ℕ) (marshals : Bool)
    (conf : WatcherConfig) where
  -- What `newClient` makes of the configuration of a watcher.
  abbrev pub client : Option (Node × Bool)
  client = new_client test refresh tcp free marshals (watch_config conf)

  -- The node of a watcher has no port for UDP, and knows no watcher.
  pub watch_client-alone :
      (n : Node) (ok : Bool)
      → client ≡ some (n, ok)
      → (n.uport ≡ 0) × (n.wser.master ≡ none) × (n.wser.slaves ≡ [])
  watch_client-alone n ok e =
      built-alone conf marshals ok _ _ n
        (sym (client-built test refresh tcp free marshals conf) ∙ e)

  start_watcher-NoUdp :
      (registered : Bool) (works : Act → Bool)
      → All NoUdp
          (start_watcher (new_client test refresh tcp free marshals) registered works conf).0
  unfolding run_server start_watcher
  start_watcher-NoUdp registered works = elim (Option-cases client) [
    | inl none' ↦ rw (start_watcher, none') tt
    | inr ((n, ok), some') ↦ elim (Bool-cases (ok && registered)) [
      | inr fails ↦ rw (start_watcher, some', fails) tt
      | inl done ↦
          rw (start_watcher, some', done)
            (run_all-NoUdp works (run_steps watch_node_name n)
              (run_steps-NoUdp watch_node_name n (watch_client-alone n ok some').0))
    ]
  ]

  -- Whatever its configuration, whatever goes wrong: a watcher does not listen on UDP.
  pub new_watcher-NoUdp :
      (local : Option Bytes) (registered : Bool) (works : Act → Bool)
      → All NoUdp
          (new_watcher local (new_client test refresh tcp free marshals) registered works conf).0
  unfolding new_watcher
  new_watcher-NoUdp local registered works =
      let started = start_watcher-NoUdp registered works in
      elim (Bool-cases (conf.tcp_port == 0 && conf.udp_port == 0 && conf.http_port == 0)) [
        | inl closed ↦ rw closed tt
        | inr ports ↦
            elim (Bool-cases (no_text conf.host || bytes_beq conf.host (bytes_of "127.0.0.1"))) [
              | inr host ↦ rw (ports, host) started
              | inl asks ↦ elim (Option-cases local) [
                | inl none' ↦ rw (ports, asks, none') tt
                | inr (h, some') ↦ rw (ports, asks, some') started
              ]
            ]
      ]
