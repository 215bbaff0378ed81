-- ===== src/Dial/Tests.antt =====
-- A connection that is opened without an error, and the test of it.
use gorigin.Prelude.{
  ℕ, ◌≡◌, refl, inl, inr, List, Option, some, Bytes, Bool, true, false, ◌==◌, ◌&&◌, Bool-cases,
  Option-cases, arith,
}
use gorigin.Dial.{
  Net, SocketConn, Wires, no_type, with_tcp, with_udp, with_http, dial_node, dial_test, test_port,
  refresh_port, refresh_http, refresh_udp, refresh_conn, test_conn,
}

module _ {S : Type 0} {Sock : Type 0} (net : Net S Sock) (ping host : Bytes) (port : ℕ) where
  -- The last that was done is a ping that a socket took, and it is the socket at hand.
  pub record Took (st : S) (sock : Option Sock) : Type 0 where
    before : S
    conn : Sock
    same : sock ≡ some conn
    state : st ≡ (net.write before conn ping).0
    took : (net.write before conn ping).1 ≡ true

  abbrev TookBy : S × Option Sock × Bool → Type 0
  TookBy (st, sock, ok) = ok ≡ true → Took st sock

  dial_test-Took : (st : S) → TookBy (dial_test net ping st host port)
  unfolding dial_test
  dial_test-Took st = elim (Option-cases (net.dial st host port).1) [
    | inl e ↦ rw (dial_test, e) (λ ok. absurd cc)
    | inr (c, e) ↦
        rw (dial_test, e)
          (λ ok. record {
            before = (net.dial st host port).0;
            conn = c;
            same = refl;
            state = refl;
            took = ok;
          })
  ]

  test_port-Took : (st : S) (sock : Option Sock) → TookBy (test_port net ping host port st sock)
  unfolding test_port
  test_port-Took st sock = elim (Bool-cases (port == 0)) [
    | inl closed ↦ rw closed (λ ok. absurd cc)
    | inr p ↦ elim (Option-cases sock) [
      | inl e ↦ rw (p, e) (dial_test-Took st)
      | inr (c, e) ↦ elim (Bool-cases (net.write st c ping).1) [
        | inl sent ↦
            rw (p, e, sent)
              (λ ok. record { before = st; conn = c; same = refl; state = refl; took = sent })
        | inr lost ↦ rw (p, e, lost) (dial_test-Took (net.write st c ping).0)
      ]
    ]
  ]

  refresh_port-Took : (reg : List Bytes) (st : S) → TookBy (refresh_port net reg ping host port st)
  unfolding refresh_port
  refresh_port-Took reg st =
      let (st1, sock, made) = dial_node net reg st host port in
      elim (Bool-cases made) [
        | inr lost ↦ rw lost (λ ok. absurd cc)
        | inl there ↦ elim (Bool-cases (test_port net ping host port st1 sock).2) [
          | inr lost ↦ rw (there, lost) (λ ok. absurd cc)
          | inl fine ↦ rw (there, fine) (λ ok. test_port-Took st1 sock fine)
        ]
      ]

-- The connection is marked with a protocol, and the last that was done on the network is a ping that
-- its socket for this protocol took.
abbrev pub Pinged : {S : Type 0} {Sock : Type 0} → Wires S Sock → S → SocketConn Sock → Type 0
Pinged net st nc = elim nc.types [
  | no_type ↦ ⊥
  | with_tcp ↦ Took net.tcp net.tcp_ping nc.host nc.tport st nc.tconn
  | with_udp ↦ Took net.udp net.udp_ping nc.host nc.uport st nc.uconn
  | with_http ↦ ⊥
]

-- What `RefreshConn` leaves without an error, if the node has no port for HTTP.
abbrev Tested : {S : Type 0} {Sock : Type 0} → Wires S Sock → S × SocketConn Sock × Bool → Type 0
Tested net (st, nc, ok) = ok ≡ true → Pinged net st nc

module _ {S : Type 0} {Sock : Type 0} (net : Wires S Sock) (st : S) (nc : SocketConn Sock) where
  refresh_udp-Tested :
      (nc.hport == 0) ≡ true
      → ((nc.uport == 0) ≡ true → Pinged net st nc)
      → Tested net (refresh_udp net.udp net.http net.udpreg net.udp_ping st nc)
  unfolding refresh_udp refresh_http
  refresh_udp-Tested web before = elim (Bool-cases (nc.uport == 0)) [
    | inl closed ↦ rw (refresh_udp, closed, refresh_http, web) (λ ok. before closed)
    | inr p ↦
        let r = refresh_port net.udp net.udpreg net.udp_ping nc.host nc.uport st in
        elim (Bool-cases r.2) [
          | inr lost ↦ rw (refresh_udp, p, lost) (λ ok. absurd cc)
          | inl fine ↦
              rw (refresh_udp, p, fine)
                (λ ok. refresh_port-Took net.udp net.udp_ping nc.host nc.uport net.udpreg st fine)
        ]
  ]

module _ {S : Type 0} {Sock : Type 0} (net : Wires S Sock) (st : S) (nc : SocketConn Sock) where
  refresh_conn-Tested :
      (nc.hport == 0) ≡ true
      → (nc.tport == 0 && nc.uport == 0) ≡ false
      → Tested net (refresh_conn net st nc)
  unfolding refresh_conn
  refresh_conn-Tested web ports = elim (Bool-cases (nc.tport == 0)) [
    | inl closed ↦
        rw (refresh_conn, closed) (refresh_udp-Tested net st nc web (λ shut. absurd (ground arith)))
    | inr p ↦
        let r = refresh_port net.tcp net.tcpreg net.tcp_ping nc.host nc.tport st in
        elim (Bool-cases r.2) [
          | inr lost ↦ rw (refresh_conn, p, lost) (λ ok. absurd cc)
          | inl fine ↦
              rw (refresh_conn, p, fine)
                (refresh_udp-Tested net r.0 (record nc { tconn = r.1; types = with_tcp }) web
                  (λ shut.
                    refresh_port-Took net.tcp net.tcp_ping nc.host nc.tport net.tcpreg st fine))
        ]
  ]

  -- A connection that `RefreshConn` opens without an error, to a node with a port for TCP or for UDP
  -- and none for HTTP, as the watchers of a configuration are: it is marked with one of both
  -- protocols, and the last that was done on the network is a ping that its socket for this protocol
  -- took, whatever the frames of the registration before met.
  pub refresh_conn-Pinged :
      nc.hport ≡ 0
      → (nc.tport == 0 && nc.uport == 0) ≡ false
      → (refresh_conn net st nc).2 ≡ true
      → Pinged net (refresh_conn net st nc).0 (refresh_conn net st nc).1
  refresh_conn-Pinged web ports ok = refresh_conn-Tested (rw web refl) ports ok

  -- A node with a port for HTTP only, which does not answer: `RefreshConn` reports no error, and
  -- `TestConn` of what it has made always does.
  refresh_conn-unheard :
      nc.types ≡ no_type
      → nc.tport ≡ 0
      → nc.uport ≡ 0
      → (nc.hport == 0) ≡ false
      → (net.http st nc.host nc.hport).1 ≡ false
      → ((refresh_conn net st nc).2 ≡ true)
        × ((t : S)
            → (test_conn net (refresh_conn net st nc).1.types t (refresh_conn net st nc).1).2
              ≡ false)
  unfolding refresh_conn refresh_udp refresh_http test_conn
  refresh_conn-unheard fresh tcp udp web silent =
      rw (refresh_conn, tcp, refresh_udp, udp, refresh_http, web, silent) (refl, λ t. rw fresh refl)
