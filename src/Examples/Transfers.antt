-- ===== src/Examples/Transfers.antt =====
-- Bodies, failures and names on the wire, with the frames of network/rpc/udp.go and tcp.go.
use gorigin.Prelude.{
  ℕ, ◌<◌, ◌≡◌, refl, List, [], ◌∷◌, none, some, Bytes, length, replicate, arith, value, take,
  length-replicate,
}
use gorigin.Wire.{udpsplit, udpsplit-IsGeometry}
use gorigin.Wire.Encode.{make_req_body, make_rsp_body, chunk_count}
use gorigin.Wire.Parse.{remote}
use gorigin.Wire.Chunks.{chunks}
use gorigin.Wire.Rounds.{Reads, pieces}
use gorigin.Wire.RoundTrip.{parse-make_req_body}
use gorigin.Conn.{Links, failing, parse_resp, read_resp, sent, new_chan}
use gorigin.Conn.Delivery.{
  NoErrors, History, History-NoErrors, read_resp-failed, start, next, waits,
}

abbrev pub no_links : Links
no_links k = none

abbrev pub long_body : Bytes
long_body = replicate 1500 7

long_body-length : length long_body ≡ 1500
long_body-length = length-replicate {A = ℕ} 1500 7

-- 1500 bytes over UDP are three frames.
three_frames : chunk_count 1500 520 ≡ 3
unfolding chunk_count
three_frames = refl

pub udp_splits : udpsplit.body_split < length long_body
unfolding udpsplit
udp_splits = rw long_body-length (omega arith)

pub udp_three : chunk_count (length long_body) udpsplit.body_split ≡ 3
unfolding udpsplit
udp_three = rw long_body-length three_frames

parse-make_req_body_example :
    (fs : List Bytes) × (make_req_body udpsplit long_body 9 7 ≡ value fs)
    × Reads udpsplit fs (
        pieces 9 7 (chunk_count (length long_body) udpsplit.body_split) 1 (
          chunks udpsplit.body_split
            (chunk_count (length long_body) udpsplit.body_split)
            long_body))
parse-make_req_body_example =
    parse-make_req_body udpsplit udpsplit-IsGeometry 9 7 (omega arith) (omega arith) long_body
      udp_splits (rw udp_three (omega arith))

oops : Bytes
oops = 111 ∷ 111 ∷ 112 ∷ 115 ∷ []

read_resp-failed_example :
    (f : Bytes) × (make_rsp_body udpsplit [] 9 7 (some oops) ≡ value (f ∷ []))
    × (parse_resp udpsplit no_links f
        ≡ value (no_links, failing (remote (take udpsplit.body_split oops))))
    × (read_resp udpsplit no_links (new_chan 0 9 []) f ≡ value (no_links, sent (new_chan 0 9 [])))
read_resp-failed_example =
    read_resp-failed udpsplit udpsplit-IsGeometry 9 7 [] oops no_links (new_chan 0 9 [])
      (omega arith) (omega arith)

abbrev two_pieces : List Bytes
two_pieces = (1 ∷ 2 ∷ []) ∷ (3 ∷ []) ∷ []

one_waits : History udpsplit (no_links, []) (no_links, new_chan 3 9 [])
one_waits = next start (waits no_links [] 3 9)

History-NoErrors_example : NoErrors (new_chan 3 9 [])
History-NoErrors_example =
    History-NoErrors udpsplit {s = (no_links, [])} {t = (no_links, new_chan 3 9 [])} tt one_waits
