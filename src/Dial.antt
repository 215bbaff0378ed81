-- ===== src/Dial.antt =====
-- network/rpc/conns.go, with the dialling of tcp.go and udp.go: how a connection is opened and tested.
-- What the operating system and the net/http library do is an argument, a step on their state.
pub mod Tests
use gorigin.Prelude.{
  ℕ, List, [], ◌∷◌, Option, none, some, Bytes, Bool, true, false, ◌==◌, if◌then◌else◌,
}

-- The sockets of one protocol: an error of dialling is no socket, one of writing is false.
pub record Net (S Sock : Type 0) : Type 0 where
  pub dial : S → Bytes → ℕ → S × Option Sock
  pub write : S → Sock → Bytes → S × Bool
  pub close : S → Sock → S

pub data ConnType : Type 0 where
  no_type with_tcp with_udp with_http : ConnType

-- The fields of `NodeConn` that opening reads and writes.
pub record SocketConn (Sock : Type 0) : Type 0 where
  pub host : Bytes
  pub tport : ℕ
  pub uport : ℕ
  pub hport : ℕ
  pub tconn : Option Sock
  pub uconn : Option Sock
  pub types : ConnType

-- The loop of `DialTCP` and `DialUDP`, which goes on behind an error; the last write has the say.
unfoldable pub write_rows :
    {S : Type 0} {Sock : Type 0} → Net S Sock → S → Sock → Bool → List Bytes → S × Bool
write_rows net st c ok [] = (st, ok)
write_rows net st c ok (row ∷ rows) =
    let (st1, sent) = net.write st c row in
    write_rows net (if sent then st1 else net.close st1 c) c sent rows

-- `DialTCP` and `DialUDP` with the frames of the registration.
unfoldable pub dial_node :
    {S : Type 0} {Sock : Type 0} → Net S Sock → List Bytes → S → Bytes → ℕ → S × Option Sock × Bool
dial_node net reg st host port =
    let (st1, made) = net.dial st host port in
    elim made [
      | none ↦ (st1, none, false)
      | some c ↦ (let (st2, ok) = write_rows net st1 c true reg in (st2, some c, ok))
    ]

-- The second half of `TestTcpConn` and `TestUdpConn`.
unfoldable pub dial_test :
    {S : Type 0} {Sock : Type 0} → Net S Sock → Bytes → S → Bytes → ℕ → S × Option Sock × Bool
dial_test net ping st host port =
    let (st1, made) = net.dial st host port in
    elim made [
      | none ↦ (st1, none, false)
      | some c ↦ (let (st2, ok) = net.write st1 c ping in (st2, some c, ok))
    ]

-- `TestTcpConn` and `TestUdpConn`: the socket is pinged, and dialled again if it does not take the ping.
unfoldable pub test_port :
    {S : Type 0} {Sock : Type 0}
    → Net S Sock
    → Bytes
    → Bytes
    → ℕ
    → S
    → Option Sock
    → S × Option Sock × Bool
test_port net ping host port st sock = if port == 0 then (st, sock, false) else elim sock [
  | none ↦ dial_test net ping st host port
  | some c ↦
      (let (st1, ok) = net.write st c ping in
        if ok then (st1, some c, true) else dial_test net ping st1 host port)
]

abbrev close_sock : {S : Type 0} {Sock : Type 0} → Net S Sock → S → Option Sock → S
close_sock net st none = st
close_sock net st (some c) = net.close st c

-- What `RefreshConn` does for TCP, and again for UDP.
unfoldable pub refresh_port :
    {S : Type 0} {Sock : Type 0}
    → Net S Sock
    → List Bytes
    → Bytes
    → Bytes
    → ℕ
    → S
    → S × Option Sock × Bool
refresh_port net reg ping host port st =
    let (st1, sock, ok) = dial_node net reg st host port in
    if ok
    then (let (st2, sock2, ok2) = test_port net ping host port st1 sock in
        if ok2 then (st2, sock2, true) else (close_sock net st2 sock2, sock2, false))
    else (st1, sock, false)

-- The end of `RefreshConn`: the error of the ping over HTTP is not an error of the connection.
unfoldable pub refresh_http :
    {S : Type 0} {Sock : Type 0}
    → (S → Bytes → ℕ → S × Bool)
    → S
    → SocketConn Sock
    → S × SocketConn Sock × Bool
refresh_http http st nc =
    if nc.hport == 0
    then (st, nc, true)
    else (let (st1, ok) = http st nc.host nc.hport in
        (st1, (if ok then record nc { types = with_http } else nc), true))

-- The part of `RefreshConn` for UDP, and what follows it.
unfoldable pub refresh_udp :
    {S : Type 0} {Sock : Type 0}
    → Net S Sock
    → (S → Bytes → ℕ → S × Bool)
    → List Bytes
    → Bytes
    → S
    → SocketConn Sock
    → S × SocketConn Sock × Bool
refresh_udp udp http reg ping st nc =
    if nc.uport == 0
    then refresh_http http st nc
    else (let (st1, sock, ok) = refresh_port udp reg ping nc.host nc.uport st in
        (
          st1,
          (if ok then record nc { uconn = sock; types = with_udp } else record nc { uconn = sock }),
          ok,
        ))

-- What a node opens connections with: both protocols, the ping over HTTP, and the frames of a node.
pub record Wires (S Sock : Type 0) : Type 0 where
  pub tcp : Net S Sock
  pub udp : Net S Sock
  pub http : S → Bytes → ℕ → S × Bool
  pub tcpreg : List Bytes
  pub udpreg : List Bytes
  pub tcp_ping : Bytes
  pub udp_ping : Bytes

-- The goroutines that read what a socket receives are started here, and are left out.
unfoldable pub refresh_conn :
    {S : Type 0} {Sock : Type 0} → Wires S Sock → S → SocketConn Sock → S × SocketConn Sock × Bool
refresh_conn net st nc =
    let next = refresh_udp net.udp net.http net.udpreg net.udp_ping in
    if nc.tport == 0
    then next st nc
    else (let (st1, sock, ok) = refresh_port net.tcp net.tcpreg net.tcp_ping nc.host nc.tport st in
        if ok
        then next st1 (record nc { tconn = sock; types = with_tcp })
        else (st1, record nc { tconn = sock }, false))

-- `TestConn` of a connection that is there.
unfoldable pub test_conn :
    {S : Type 0} {Sock : Type 0}
    → Wires S Sock
    → ConnType
    → S
    → SocketConn Sock
    → S × SocketConn Sock × Bool
test_conn net with_tcp st nc =
    let (st1, sock, ok) = test_port net.tcp net.tcp_ping nc.host nc.tport st nc.tconn in
    (st1, record nc { tconn = sock }, ok)
test_conn net with_udp st nc =
    let (st1, sock, ok) = test_port net.udp net.udp_ping nc.host nc.uport st nc.uconn in
    (st1, record nc { uconn = sock }, ok)
test_conn net with_http st nc = let (st1, ok) = net.http st nc.host nc.hport in (st1, nc, ok)
test_conn net no_type st nc = (st, nc, false)
