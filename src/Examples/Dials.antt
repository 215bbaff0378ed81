-- ===== src/Examples/Dials.antt =====
-- A connection over two protocols, on a network where every socket takes what is written.
use gorigin.Prelude.{ℕ, ◌+◌, refl, [], ◌∷◌, none, some, true, false}
use gorigin.Dial.{
  Net, SocketConn, Wires, no_type, write_rows, dial_node, dial_test, test_port, refresh_port,
  refresh_http, refresh_udp, refresh_conn,
}
use gorigin.Dial.Tests.{Pinged, refresh_conn-Pinged}

-- The state counts the sockets.
abbrev net : Net ℕ ℕ
net = record {
  dial = λ st host port. (st + 1, some st);
  write = λ st c bytes. (st, true);
  close = λ st c. st;
}

abbrev wires : Wires ℕ ℕ
wires = record {
  tcp = net;
  udp = net;
  http = λ st host port. (st, false);
  tcpreg = (1 ∷ 2 ∷ []) ∷ (3 ∷ []) ∷ [];
  udpreg = (1 ∷ []) ∷ [];
  tcp_ping = 7 ∷ [];
  udp_ping = 8 ∷ [];
}

abbrev fresh : SocketConn ℕ
fresh = record {
  host = 1 ∷ [];
  tport = 80;
  uport = 81;
  hport = 0;
  tconn = none;
  uconn = none;
  types = no_type;
}

refresh_conn-Pinged_example :
    Pinged wires (refresh_conn wires 0 fresh).0 (refresh_conn wires 0 fresh).1
unfolding write_rows dial_node dial_test test_port refresh_port refresh_http refresh_udp
    refresh_conn
refresh_conn-Pinged_example = refresh_conn-Pinged wires 0 fresh refl refl refl
