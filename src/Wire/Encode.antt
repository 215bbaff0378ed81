-- ===== src/Wire/Encode.antt =====
-- `MakeReqBody` and `MakeRspBody` of network/rpc/encode.go: a body is cut into frames.
use gorigin.Prelude.{
  ℕ, zero, suc, ◌+◌, ◌-◌, ◌*◌, ◌/◌, ◌%◌, ◌^◌, List, [], ◌∷◌, ◌++◌, Option, none, some, Bytes,
  length, slice, take, drop, set, ltb, leb, ◌==◌, if◌then◌else◌, Outcome, value, panic, ◌>>=◌,
}
use mathlib.Core.Bool.{◌||◌}
use gorigin.Wire.{
  NetworkBuffer, byte, make_bytes, copy_into, bytes_of, buff_prefix, first_byte, body_whole_data,
  body_body_start, body_req_middle, body_req_finaly, body_req_data_nil, body_resp_failed,
  body_resp_no_found,
}

-- `make([]byte, total-used)`: a negative length panics.
unfoldable pub pad : ℕ → ℕ → Outcome Bytes
pad total used = if leb used total then value (make_bytes (total - used)) else panic

-- The frame of an empty body: eight bytes of header in a zeroed buffer.
unfoldable pub empty_frame : NetworkBuffer → ℕ → ℕ → Outcome (List Bytes)
empty_frame n num fid =
    let head =
      1
      ∷ 0
      ∷ byte (num / 2 ^ 16 % 256)
      ∷ byte (num / 2 ^ 8 % 256)
      ∷ byte (num % 256)
      ∷ body_req_data_nil
      ∷ byte (fid / 256)
      ∷ byte (fid % 256)
      ∷ [] in
    if n.total_size == 0
    then panic
    else value (set (copy_into (make_bytes n.total_size) head) (n.total_size - 1) first_byte ∷ [])

-- The one frame of a body that fits.
unfoldable pub whole_frame : NetworkBuffer → Bytes → ℕ → ℕ → Outcome (List Bytes)
unfolding pad
whole_frame n bts num fid = do
  let head = buff_prefix num fid 1 (length bts) body_whole_data
  gap ← pad n.total_size (length head + length bts + 2)
  value ((head ++ (bts ++ (gap ++ (0 ∷ 1 ∷ [])))) ∷ [])

unfoldable pub chunk_count : ℕ → ℕ → ℕ
chunk_count len split = if ltb 0 (len % split) then len / split + 1 else len / split

unfoldable pub chunk_last : ℕ → ℕ → ℕ
chunk_last len split = if ltb 0 (len % split) then len % split else split

-- The ten bytes that the frames of one body share.
unfoldable pub chunk_head : ℕ → ℕ → ℕ → Bytes
chunk_head num fid count =
    1
    ∷ 0
    ∷ byte (num / 2 ^ 16 % 256)
    ∷ byte (num / 2 ^ 8 % 256)
    ∷ byte (num % 256)
    ∷ body_req_middle
    ∷ byte (fid / 256)
    ∷ byte (fid % 256)
    ∷ byte (count / 256)
    ∷ byte (count % 256)
    ∷ []

-- `for i := 1; i < count; i++`, with the rounds that are left and the current `i`.
unfoldable pub middle_frames : NetworkBuffer → Bytes → Bytes → ℕ → ℕ → List Bytes
middle_frames n bts head zero i = []
middle_frames n bts head (suc k) i =
    (head
      ++ (byte (i / 2 ^ 8 % 256) ∷ byte (i % 256) ∷ [])
      ++ (slice bts (n.body_split * (i - 1)) (n.body_split * i) ++ (0 ∷ 1 ∷ [])))
    ∷ middle_frames n bts head k (i + 1)

-- `result[0][5] = BodyBodyStart`.
unfoldable pub mark_start : List Bytes → Outcome (List Bytes)
mark_start [] = panic
mark_start (b ∷ bs) = value (set b 5 body_body_start ∷ bs)

unfoldable pub last_frame : NetworkBuffer → Bytes → Bytes → ℕ → ℕ → Bytes
last_frame n bts head count last =
    set
      (head
        ++ (byte (last / 2 ^ 8 % 256) ∷ byte (last % 256) ∷ [])
        ++ (drop (n.body_split * (count - 1)) bts
            ++ (make_bytes (n.body_split - last) ++ (0 ∷ 1 ∷ []))))
      5 body_req_finaly

-- A body that is too long for one frame. A split of 0 is a division by zero, and a total below 10 a
-- slice with a capacity below its length; both panic.
unfoldable pub chunk_frames : NetworkBuffer → Bytes → ℕ → ℕ → Outcome (List Bytes)
chunk_frames n bts num fid =
    let count = chunk_count (length bts) n.body_split in
    let last = chunk_last (length bts) n.body_split in
    let head = chunk_head num fid count in
    if n.body_split == 0 || ltb n.total_size 10
    then panic
    else mark_start (middle_frames n bts head (count - 1) 1) >>= λ firsts.
        value (firsts ++ (last_frame n bts head count last ∷ []))

unfoldable pub make_req_body : NetworkBuffer → Bytes → ℕ → ℕ → Outcome (List Bytes)
make_req_body n bts num fid =
    if length bts == 0
    then empty_frame n num fid
    else if leb (length bts) n.body_split
    then whole_frame n bts num fid
    else chunk_frames n bts num fid

-- A failure's message, cut to the frame.
unfoldable pub failed_frame : NetworkBuffer → Bytes → ℕ → ℕ → ℕ → Outcome (List Bytes)
unfolding pad
failed_frame n msg num fid model = do
  gap ← pad n.body_split (length msg)
  value ((buff_prefix num fid 1 (length msg) model ++ (msg ++ (gap ++ (0 ∷ 1 ∷ [])))) ∷ [])

abbrev pub no_found_message : Bytes
no_found_message = bytes_of "not found this server api by function id"

-- The error is its message.
unfoldable pub make_rsp_body : NetworkBuffer → Bytes → ℕ → ℕ → Option Bytes → Outcome (List Bytes)
make_rsp_body n bts num fid (some msg) =
    failed_frame n (if ltb n.body_split (length msg) then take n.body_split msg else msg) num fid
      body_resp_failed
make_rsp_body n bts num fid none =
    if fid == 0
    then failed_frame n no_found_message num fid body_resp_no_found
    else make_req_body n bts num fid
