-- ===== src/Calls/Sending.antt =====
-- network/rpc/invoke.go: `sendall`, which sends a request to every node of a function. Its goroutines
-- store what each write returns in one variable, `err`, and read it there, so that what one of them
-- reads may be of another one's write. The model is of what they read, in whatever way that comes about.
use gorigin.Prelude.{
  ◌≡◌, refl, ap, ◌∙◌, List, [], ◌∷◌, map, Option, none, some, Bytes, Bool, true, false, ◌||◌, ◌&&◌,
  if◌then◌else◌, Outcome, value, ◌>>=◌, Bool-cases, Option-cases, inl, inr,
}
use gorigin.Pb.{FuncMsg, NodeInfo}
use gorigin.Registry.{no_text}
use gorigin.FuncCache.{NodeConn, FuncMap}
use gorigin.Calls.{get_remote_conn}

pub data Network : Type 0 where
  no_network tcp udp http : Network

-- Of network/pb/watch.pb.go.
pub record SendRsp : Type 0 where
  pub uuid : Bytes
  pub network : Network
  pub success : Bool

-- What the goroutine of a connection meets: none where the connection has no such socket, or no port
-- for HTTP; else, for TCP and UDP, whether it reads no error in `err` behind each of its writes, one
-- after the other, and for HTTP, whether its request is answered without an error. No relation is
-- assumed between the goroutines, nor to what the sockets have done.
pub record Sockets : Type 0 where
  pub by_tcp : NodeConn → Option (List Bool)
  pub by_udp : NodeConn → Option (List Bool)
  pub by_http : NodeConn → Option Bool

-- The loop over the frames ends with the first write behind which there is an error.
unfoldable pub write_rows : List Bool → Bool
write_rows [] = true
write_rows (true ∷ reads) = write_rows reads
write_rows (false ∷ reads) = false

unfoldable pub try_tcp : Sockets → NodeConn → SendRsp → SendRsp
try_tcp s nc r = elim (s.by_tcp nc) [
  | none ↦ r
  | some reads ↦ record r { network = tcp; success = write_rows reads }
]

unfoldable pub try_udp : Sockets → NodeConn → SendRsp → SendRsp
try_udp s nc r = if r.success then r else elim (s.by_udp nc) [
  | none ↦ r
  | some reads ↦ record r { network = udp; success = write_rows reads }
]

-- Only a request that is answered is noted.
unfoldable pub try_http : Sockets → NodeConn → SendRsp → SendRsp
try_http s nc r = if r.success then r else elim (s.by_http nc) [
  | none ↦ r
  | some done ↦ (if done then record r { network = http; success = true } else r)
]

unfoldable pub send_one : Sockets → NodeConn → SendRsp
send_one s nc =
    try_http s nc (
      try_udp s nc
        (try_tcp s nc (record { uuid = nc.uuid; network = no_network; success = false })))

pub data SendError : Type 0 where
  name_null api_not_found node_not_found marshal_wrong : SendError

-- `sendall` from the function that `QueryFunc` finds and the connections of `GetRemoteConn` on, whose
-- goroutines add their results in any order: this is that of the connections. What they
-- share is in the `Sockets`, but for `udpRow`, for which each of them makes the same frames.
unfoldable pub send_conns : Sockets → Bool → List NodeConn → Option SendError × List SendRsp
send_conns s encoded [] = (some node_not_found, [])
send_conns s encoded (c ∷ cs) =
    if encoded then (none, map (send_one s) (c ∷ cs)) else (some marshal_wrong, [])

unfoldable pub sendall :
    (NodeConn → Bool)
    → (NodeConn → Bool)
    → List NodeInfo
    → Sockets
    → Bool
    → FuncMap
    → Bytes
    → Option FuncMsg
    → Outcome (FuncMap × Option SendError × List SendRsp)
sendall test refresh asked s encoded f name none =
    value (f, (if no_text name then some name_null else some api_not_found), [])
sendall test refresh asked s encoded f name (some fmsg) =
    if no_text name
    then value (f, some name_null, [])
    else get_remote_conn test refresh asked f fmsg >>= λ p.
        (let r = send_conns s encoded p.1 in value (p.0, r.0, r.1))

-- No error is read at all.
abbrev pub all_fine : List Bool → Bool
all_fine [] = true
all_fine (fine ∷ reads) = fine && all_fine reads

-- Whether a goroutine takes the request for sent: it has a socket, and there is no error behind any
-- write; or there is an answer.
abbrev pub sent : Option (List Bool) → Bool
sent none = false
sent (some reads) = all_fine reads

abbrev pub took : Option Bool → Bool
took none = false
took (some b) = b

abbrev pub reached : Sockets → NodeConn → Bool
reached s nc = sent (s.by_tcp nc) || sent (s.by_udp nc) || took (s.by_http nc)

write_rows-all : (reads : List Bool) → write_rows reads ≡ all_fine reads
unfolding write_rows
write_rows-all [] = refl
write_rows-all (true ∷ reads) = write_rows-all reads
write_rows-all (false ∷ reads) = refl

try_tcp-success :
    (s : Sockets) (nc : NodeConn) (r : SendRsp)
    → r.success ≡ false
    → (try_tcp s nc r).success ≡ sent (s.by_tcp nc)
unfolding try_tcp
try_tcp-success s nc r e = elim (Option-cases (s.by_tcp nc)) [
  | inl gone ↦ rw (try_tcp, gone) e
  | inr (reads, there) ↦ rw (try_tcp, there) (write_rows-all reads)
]

try_udp-success :
    (s : Sockets) (nc : NodeConn) (r : SendRsp) (b : Bool)
    → r.success ≡ b
    → (try_udp s nc r).success ≡ (b || sent (s.by_udp nc))
unfolding try_udp
try_udp-success s nc r true e = rw (try_udp, e) refl
try_udp-success s nc r false e = elim (Option-cases (s.by_udp nc)) [
  | inl gone ↦ rw (try_udp, e, gone) e
  | inr (reads, there) ↦ rw (try_udp, e, there) (write_rows-all reads)
]

try_http-success :
    (s : Sockets) (nc : NodeConn) (r : SendRsp) (b : Bool)
    → r.success ≡ b
    → (try_http s nc r).success ≡ (b || took (s.by_http nc))
unfolding try_http
try_http-success s nc r true e = rw (try_http, e) refl
try_http-success s nc r false e = elim (Option-cases (s.by_http nc)) [
  | inl gone ↦ rw (try_http, e, gone) e
  | inr (done, there) ↦ elim (Bool-cases done) [
    | inl d ↦ rw (try_http, e, there, d) refl
    | inr d ↦ rw (try_http, e, there, d) e
  ]
]

try_tcp-uuid : (s : Sockets) (nc : NodeConn) (r : SendRsp) → (try_tcp s nc r).uuid ≡ r.uuid
unfolding try_tcp
try_tcp-uuid s nc r = elim (Option-cases (s.by_tcp nc)) [
  | inl gone ↦ rw (try_tcp, gone) refl
  | inr (done, there) ↦ rw (try_tcp, there) refl
]

try_udp-uuid : (s : Sockets) (nc : NodeConn) (r : SendRsp) → (try_udp s nc r).uuid ≡ r.uuid
unfolding try_udp
try_udp-uuid s nc r = elim (Bool-cases r.success) [
  | inl e ↦ rw (try_udp, e) refl
  | inr e ↦ elim (Option-cases (s.by_udp nc)) [
    | inl gone ↦ rw (try_udp, e, gone) refl
    | inr (done, there) ↦ rw (try_udp, e, there) refl
  ]
]

try_http-uuid : (s : Sockets) (nc : NodeConn) (r : SendRsp) → (try_http s nc r).uuid ≡ r.uuid
unfolding try_http
try_http-uuid s nc r = elim (Bool-cases r.success) [
  | inl e ↦ rw (try_http, e) refl
  | inr e ↦ elim (Option-cases (s.by_http nc)) [
    | inl gone ↦ rw (try_http, e, gone) refl
    | inr (done, there) ↦ elim (Bool-cases done) [
      | inl d ↦ rw (try_http, e, there, d) refl
      | inr d ↦ rw (try_http, e, there, d) refl
    ]
  ]
]

-- The result of a connection has its uuid, and says whether its goroutine has seen some way succeed.
send_one-result :
    (s : Sockets) (nc : NodeConn)
    → ((send_one s nc).uuid ≡ nc.uuid) × ((send_one s nc).success ≡ reached s nc)
unfolding send_one
send_one-result s nc =
    let start : SendRsp = record { uuid = nc.uuid; network = no_network; success = false } in
    let a = try_tcp s nc start in
    let b = try_udp s nc a in
    (
      try_http-uuid s nc b ∙ try_udp-uuid s nc a ∙ try_tcp-uuid s nc start,
      try_http-success s nc b _ (try_udp-success s nc a _ (try_tcp-success s nc start refl)),
    )

-- Who is in the results, and whether the request is said to have been sent.
abbrev pub reports : List SendRsp → List (Bytes × Bool)
reports = map (λ r. (r.uuid, r.success))

send_all-reports :
    (s : Sockets) (cs : List NodeConn)
    → reports (map (send_one s) cs) ≡ map (λ c. (c.uuid, reached s c)) cs
send_all-reports s [] = refl
send_all-reports s (c ∷ cs) =
    let (who, arrived) = send_one-result s c in
    let rest = send_all-reports s cs in rw (who, arrived) (ap (◌∷◌ (c.uuid, reached s c)) rest)

-- `sendall` with connections and a request that can be encoded: it has one result for each
-- connection, with its uuid, which says whether the connection's goroutine has seen some way succeed:
-- TCP or UDP without an error in the `err` that it reads behind its writes, which may be of another
-- goroutine's write, or HTTP with an answer. It returns no error, also when no result is a success.
pub sendall-reports :
    (test refresh : NodeConn → Bool) (asked : List NodeInfo) (s : Sockets) (f g : FuncMap)
    (name : Bytes) (fmsg : FuncMsg) (c : NodeConn) (cs : List NodeConn)
    → no_text name ≡ false
    → get_remote_conn test refresh asked f fmsg ≡ value (g, c ∷ cs)
    → (rs : List SendRsp) × (sendall test refresh asked s true f name (some fmsg)
        ≡ value (g, none, rs))
      × (reports rs ≡ map (λ c. (c.uuid, reached s c)) (c ∷ cs))
unfolding sendall send_conns
sendall-reports test refresh asked s f g name fmsg c cs named found =
    (map (send_one s) (c ∷ cs), rw (sendall, named, found) refl, send_all-reports s (c ∷ cs))
