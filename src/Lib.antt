-- ===== src/Lib.antt =====
-- Gorigin: a micro-service library. Nodes offer APIs, call each other over TCP, UDP or HTTP, and
-- register with a watcher, which hands out the numbers of APIs and knows which nodes are alive.
--
-- The parts, and where they are modelled:
--
-- * Frame codec (network/rpc/encode.go; the geometries of network/rpc/tcp.go and udp.go): Wire.
--   Wire/Encode has `MakeReqBody` and `MakeRspBody` by the branches of the code, Wire/Parse has `parse`.
--   Wire/Frames and Wire/Models read one frame, Wire/Chunks cuts a body, Wire/Single and
--   Wire/RoundTrip (with Wire/Rounds) read back what was sent.
-- * Receiving side of a connection (network/rpc/conns.go): Conn. `parse_resp` is `ParseResp` with its
--   table of open bodies, `read_resp` a round of `ReadRespTCP` or `ReadRespUDP` once the buffer is full.
--   Conn/Joining, Conn/Midway and Conn/Reassembly follow the pieces of one body, Conn/Transfer joins both
--   ends of the wire, Conn/Delivery follows what reaches the goroutine that waits. These take the frames
--   of a connection one at a time, as its reader does; the side that answers parses each frame in a
--   goroutine of its own, of which Conn/Races follows two on the table of open bodies.
-- * Reading a socket (network/rpc/tcp.go, network/rpc/udp.go, the readers of network/rpc/conns.go):
--   Streams, with the loops that cut what they read into frames and the goroutine that answers a frame.
--   Streams/Cut follows a loop, Streams/Bodies joins the codec, the loop and `ParseResp`.
-- * Opening and testing connections (network/rpc/conns.go, `DialTCP` and `DialUDP`): Dial, where a
--   record of operations stands for the sockets of a protocol; Dial/Tests follows them.
-- * Names of APIs (network/rpc/comm.go, network/comm/recv.go): Names, Names/Rpc, Names/Comm.
-- * Messages (network/pb): Pb.
-- * The watcher's table of APIs (network/watch/fmsg.go): Registry. The pointers that the two maps
--   share are indices into a list of objects. Registry/Files has the file, Registry/Restart a
--   watcher that starts again.
-- * The watcher's table of nodes (network/watch/node.go): NodeTable.
-- * The watcher's handlers (network/watch/api.go): Watcher.
-- * The function cache of a node (network/rpc/fmsg.go, and `QueryFunc` of network/rpc/node.go):
--   FuncCache. The watcher that is asked is an argument.
-- * Timer (timer/): Timer has the tasks and the steps of the ticker, Timer/Zone the time zone,
--   Timer/Stamps the reading of time texts, Timer/Waiting the steps of a timer while a task waits. A
--   user's function is known by what it answers. A round of the ticker is one step: the goroutines that
--   it starts run after it.
-- * Requests of a node (network/rpc/invoke.go): Calls, with Calls/Serials and Calls/Routes; to a node
--   that is named, Calls/Assign; with several arguments, Calls/Multi; to all nodes of a function,
--   Calls/Sending, by what each of its goroutines reads in the variable that they share; with an encoded body (network/rpc/api.go), Calls/Raw.
-- * Services (network/rpc/service.go): Services, over descriptions of methods. What a service makes of
--   a request, with `ParseRspByte` of network/rpc/encode.go and network/rpc/builtin.go: Serve, where
--   Serve/Rounds joins both directions of a call whose request is one frame; Serve/Typed and Serve/Answers follow the types of the
--   values, which network/rpc/protocal.go decodes (Protocal), from `Register` to the call of a method;
--   Serve/Multis joins `remoteMulti` and `findCall`, and Serve/Local compares a local call with a
--   request.
-- * The watchers that a node knows (network/rpc/watch.go): Client, with Client/Config and
--   Client/Nodes for `newClient` (network/rpc/node.go), Client/Watchers for its configuration,
--   Client/Registering for what it stores of its registration, Client/Asking and Client/Requests for
--   its requests, and Client/Beats for its heartbeats.
-- * The watcher's functions (network/comm/watch.go): WatchFmsg. WatchFmsg/Unheard follows a request for
--   one of them to the watcher.
-- * Starting (`runServer` of network/rpc/node.go, network/watch/watch.go): Starts, with Starts/Ports for
--   what a watcher listens on.
-- * Waiting for a response (network/rpc/invoke.go, network/rpc/api.go, network/rpc/watch.go): Waits.
--   Waits/Heard follows a goroutine and the reader of its connection, whose steps come in any order.
-- * HTTP (network/rpc/http.go): Http. A handler is the list of what it does to the response;
--   Http/Replies joins a request and its handler.
-- * Helpers (common/comm.go): Texts. Figures of the system (monitor/): Monitor, from the texts that the
--   operating system gives.
-- * Logs (logs/): Logs has the configuration and the text of a line, Logs/Files what one goroutine does
--   with the mutex and the file, Logs/Threads the goroutines of a log, whose steps come in any order.
--   Logs/Locks, Logs/Kept, Logs/Cached and Logs/Lines follow them, Logs/Stamps has the periods, and
--   Logs/Escapes the replacements in a text.
-- * Campaigns of watchers (network/watch/elect.go): Elect.
--
-- A byte is a natural number below 256 where the code makes one; numbers that the code writes into
-- two or three bytes are cut the way it cuts them, and the theorems name the bounds under which
-- nothing is lost. A slice out of range, an index out of range and a negative length are the outcome
-- `panic`. The time is an argument. Maps are association lists or functions. The loops of the code
-- run over lists, or a number of rounds that is known before, and need no fuel, but for these: a call
-- of `sendCache` holds the mutex that a call within needs, so that two levels are enough; `reset` counts
-- its attempts up to four, so that four rounds are enough; the loop of `checkTime` moves by a
-- millisecond at least, so that one round for each millisecond up to now, and two more, are enough;
-- `first_taken` is given its five attempts; a buffer is filled by a read for each of its bytes at most;
-- the loop over the frames of a socket has a frame in each round, so that one round for each byte, and
-- one more, are enough; `upEnvFile` calls itself without end where no write succeeds, so that no fuel is
-- enough there. Want of fuel is an outcome of its own, `deeper`, `unfinished` or `panic`.
--
-- Not modelled: what sockets do, and their pools, the operating system's figures, files, the encoding of
-- messages (protobuf, JSON), reflection, the net/http library, keys, addresses
-- and shell commands (common/).
pub mod Prelude
pub mod Wire
pub mod Conn
pub mod Names
pub mod Pb
pub mod Registry
pub mod NodeTable
pub mod Watcher
pub mod WatchFmsg
pub mod Starts
pub mod FuncCache
pub mod Timer
pub mod Calls
pub mod Services
pub mod Protocal
pub mod Serve
pub mod Streams
pub mod Waits
pub mod Http
pub mod Client
pub mod Dial
pub mod Elect
pub mod Texts
pub mod Monitor
pub mod Logs
mod Examples
