-- ===== src/Streams.antt =====
-- network/rpc/tcp.go, network/rpc/udp.go and the readers of network/rpc/conns.go: how the frames of a
-- connection are read from its socket, and how the frames of an answer are written. What a read of
-- the socket gives is an argument, none for an error.
pub mod Cut
pub mod Bodies
use gorigin.Prelude.{
  ℕ, zero, suc, ◌+◌, ◌-◌, List, [], ◌∷◌, ◌++◌, Option, none, some, Bytes, Bool, true, false, length,
  replicate, ltb, ◌==◌, if◌then◌else◌, Outcome, value, ◌>>=◌,
}
use gorigin.Wire.{NetworkBuffer}
use gorigin.Conn.{Links}
use gorigin.Dial.{Net}
use gorigin.FuncCache.{FuncMap}
use gorigin.Serve.{Answer, parse_rsp_byte}

-- A buffer that is filled, with the socket behind it; a socket that fails; want of fuel.
pub data Fill (S : Type 0) : Type 0 where
  filled : Bytes → S → Fill S
  broken deeper : Fill S

-- Why a loop over the frames of a socket ends.
pub data End : Type 0 where
  closed unfinished : End

module _ {S : Type 0} (read : ℕ → S → Option (Bytes × S)) where
  -- The loop for a buffer that one read has not filled. Each round reads a byte at least.
  unfoldable pub fill : ℕ → ℕ → Bytes → S → Fill S
  fill total zero got s = if ltb (length got) total then deeper else filled got s
  fill total (suc fuel) got s =
      if ltb (length got) total
      then elim (read (total - length got) s) [
        | none ↦ broken
        | some r ↦ fill total fuel (got ++ r.0) r.1
      ]
      else filled got s

  -- The start of a round of `ReadRespTCP` and of the loop of `tcpAccept`.
  unfoldable pub read_frame : ℕ → S → Fill S
  read_frame total s = elim (read total s) [ none ↦ broken | some r ↦ fill total total r.0 r.1 ]

  -- The frames that the rounds hand on, until the socket fails.
  unfoldable pub read_frames : ℕ → ℕ → S → List Bytes × End
  read_frames total zero s = ([], unfinished)
  read_frames total (suc fuel) s = elim (read_frame total s) [
    | broken ↦ ([], closed)
    | deeper ↦ ([], unfinished)
    | filled f s' ↦ (let rest = read_frames total fuel s' in (f ∷ rest.0, rest.1))
  ]

  -- `ReadRespUDP`: a datagram that does not fill the buffer is dropped.
  unfoldable pub udp_frames : ℕ → ℕ → S → List Bytes × End
  udp_frames total zero s = ([], unfinished)
  udp_frames total (suc fuel) s = elim (read total s) [
    | none ↦ ([], closed)
    | some r ↦
        (let rest = udp_frames total fuel r.1 in
          if length r.0 == total then (r.0 ∷ rest.0, rest.1) else rest)
  ]

  -- `UdpListen`: each datagram is taken, with what the clean buffer holds behind it.
  unfoldable pub udp_requests : ℕ → ℕ → S → List Bytes × End
  udp_requests total zero s = ([], unfinished)
  udp_requests total (suc fuel) s = elim (read total s) [
    | none ↦ ([], closed)
    | some r ↦
        (let rest = udp_requests total fuel r.1 in
          ((r.0 ++ replicate (total - length r.0) 0) ∷ rest.0, rest.1))
  ]

-- The loop over the frames of an answer, which the first error ends; TCP closes the socket then.
unfoldable pub write_answer :
    {S : Type 0} {Sock : Type 0} → Net S Sock → Bool → S → Sock → List Bytes → S
write_answer net closes st c [] = st
write_answer net closes st c (row ∷ rows) =
    let (st1, sent) = net.write st c row in
    if sent then write_answer net closes st1 c rows else if closes then net.close st1 c else st1

-- The goroutine of a frame, in `tcpAccept` and in `UdpListen`.
unfoldable pub answer_frame :
    {S : Type 0} {Sock : Type 0}
    → NetworkBuffer
    → (FuncMap → ℕ → Bytes → Outcome Answer)
    → Net S Sock
    → Bool
    → Sock
    → FuncMap × Links × S
    → Bytes
    → Outcome (FuncMap × Links × S)
answer_frame n handle net closes c (f, links, st) b =
    parse_rsp_byte n handle f links b >>= λ p. value (p.0, p.1, write_answer net closes st c p.2)
