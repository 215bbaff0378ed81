-- ===== src/Wire.antt =====
-- network/rpc/encode.go: the frames of the RPC protocol, and network/rpc/tcp.go and udp.go for the
-- two frame geometries. A `[]byte` is a list of numbers; `byte(x)` of a number is `x % 256`.
pub mod Encode
pub mod Parse
pub mod Frames
pub mod Single
pub mod Rounds
pub mod RoundTrip
pub mod Chunks
pub mod Models
use gorigin.Prelude.{
  ℕ, ◌-◌, arith, ◌%◌, ◌/◌, ◌^◌, ◌+◌, ◌<◌, ◌≡◌, List, [], ◌∷◌, ◌++◌, Bytes, replicate, set, length,
}
use Prim.Native.String.{String}
use Prim.Native.Char.{code}

abbrev pub first_byte : ℕ
first_byte = 1

abbrev pub second_byte : ℕ
second_byte = 0

abbrev pub body_whole_data : ℕ
body_whole_data = 0

abbrev pub body_body_start : ℕ
body_body_start = 1

abbrev pub body_req_middle : ℕ
body_req_middle = 2

abbrev pub body_req_finaly : ℕ
body_req_finaly = 3

abbrev pub body_req_data_nil : ℕ
body_req_data_nil = 4

abbrev pub body_resp_success : ℕ
body_resp_success = 11

abbrev pub body_resp_failed : ℕ
body_resp_failed = 12

abbrev pub body_resp_no_found : ℕ
body_resp_no_found = 13

abbrev pub body_resp_data_nil : ℕ
body_resp_data_nil = 14

abbrev pub body_resp_start : ℕ
body_resp_start = 15

abbrev pub body_resp_middle : ℕ
body_resp_middle = 16

abbrev pub body_resp_finaly : ℕ
body_resp_finaly = 17

pub record NetworkBuffer : Type 0 where
  pub total_size : ℕ
  pub body_split : ℕ
  pub body_start : ℕ
  pub final_byte : ℕ
  pub ping_bytes : Bytes

-- `byte(x)`.
abbrev pub byte : ℕ → ℕ
byte x = x % 256

-- `make([]byte, n)`.
abbrev pub make_bytes : ℕ → Bytes
make_bytes n = replicate n 0

-- `copy(dst, src)`.
abbrev pub copy_into : Bytes → Bytes → Bytes
copy_into [] src = []
copy_into (d ∷ dst) [] = d ∷ dst
copy_into (d ∷ dst) (s ∷ src) = s ∷ copy_into dst src

-- The bytes of a text, all of them ASCII here.
abbrev pub bytes_of : String → Bytes
bytes_of String.[] = []
bytes_of (String.◌∷◌ c s) = code c ∷ bytes_of s

unfoldable pub buff_prefix : ℕ → ℕ → ℕ → ℕ → ℕ → Bytes
buff_prefix num fid buck last model =
    first_byte
    ∷ second_byte
    ∷ byte (num / 2 ^ 16 % 256)
    ∷ byte (num / 2 ^ 8 % 256)
    ∷ byte (num % 256)
    ∷ model
    ∷ byte (fid / 256)
    ∷ byte (fid % 256)
    ∷ byte (buck / 256)
    ∷ byte (buck % 256)
    ∷ byte (last / 256)
    ∷ byte (last % 256)
    ∷ []

abbrev pub ping_network : ℕ
ping_network = 1

unfoldable pub ping_frame : ℕ → Bytes
ping_frame total =
    set (copy_into (make_bytes total) (buff_prefix 1 ping_network 1 1 0)) (total - 1) first_byte

unfoldable pub tcpsplit : NetworkBuffer
tcpsplit = record {
  total_size = 1444;
  body_start = 12;
  body_split = 1430;
  final_byte = 1442;
  ping_bytes = ping_frame 1444;
}

unfoldable pub udpsplit : NetworkBuffer
udpsplit = record {
  total_size = 534;
  body_start = 12;
  body_split = 520;
  final_byte = 532;
  ping_bytes = ping_frame 534;
}

-- What both geometries satisfy: twelve bytes before the body, two behind it, and a body whose length
-- fits the two bytes of the header.
pub record IsGeometry (n : NetworkBuffer) : Type 0 where
  pub total : n.total_size ≡ n.body_split + 14
  pub start : n.body_start ≡ 12
  pub final : n.final_byte ≡ n.body_split + 12
  pub wide : 40 < n.body_split
  pub narrow : n.body_split < 65536

pub tcpsplit-IsGeometry : IsGeometry tcpsplit
unfolding tcpsplit
tcpsplit-IsGeometry = omega arith

pub udpsplit-IsGeometry : IsGeometry udpsplit
unfolding udpsplit
udpsplit-IsGeometry = omega arith
