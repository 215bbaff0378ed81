-- ===== src/Wire/Parse.antt =====
-- `NetworkBuffer.parse` of network/rpc/encode.go: one frame is read back.
use gorigin.Prelude.{
  ℕ, ◌+◌, ◌-◌, ◌*◌, ◌^◌, [], Option, none, some, Bytes, length, ◌==◌, if◌then◌else◌, Outcome, value,
  ◌>>=◌, index, sub_slice,
}
use mathlib.Core.Bool.{◌||◌}
use gorigin.Wire.{
  NetworkBuffer, first_byte, second_byte, body_whole_data, body_body_start, body_req_middle,
  body_req_finaly, body_req_data_nil, body_resp_success, body_resp_failed, body_resp_data_nil,
  body_resp_start, body_resp_middle, body_resp_finaly,
}

-- The errors that this part of the program makes, by their messages.
pub data WireError : Type 0 where
  wrong_length wrong_rule recv_wrong buck_wrong : WireError
  remote : Bytes → WireError

-- `Data` of the source is `content`.
pub record JoinBodyData : Type 0 where
  pub uuid : ℕ
  pub func : ℕ
  pub buck : ℕ
  pub sort : ℕ
  pub content : Bytes

-- Go's pair of a pointer and an error, both of which may be nil.
pub record Parsed : Type 0 where
  pub joined : Option JoinBodyData
  pub fail : Option WireError

abbrev pub refuse : WireError → Outcome Parsed
refuse e = value (record { joined = none; fail = some e })

abbrev pub accepted : JoinBodyData → Outcome Parsed
accepted j = value (record { joined = some j; fail = none })

-- `if b.Data[i] != v { return … }`.
unfoldable pub expect : Bytes → ℕ → ℕ → Outcome Parsed → Outcome Parsed
expect b i v rest = index b i >>= λ x. if x == v then rest else refuse wrong_rule

-- Two bytes at `i`, high byte first.
unfoldable pub short_at : Bytes → ℕ → Outcome ℕ
short_at b i = index b i >>= λ h. index b (i + 1) >>= λ l. value (h * 2 ^ 8 + l)

-- The `switch b.Data[5]`; an unknown value leaves the three fields as they were made.
unfoldable pub parse_model : NetworkBuffer → Bytes → ℕ → JoinBodyData → Outcome Parsed
unfolding short_at
parse_model n b model tmp =
    if model == body_req_data_nil || model == body_resp_data_nil
    then accepted (record tmp { buck = 1; sort = 1 })
    else if model == body_whole_data || model == body_resp_success
    then (do
      len ← short_at b 10
      content ← sub_slice b n.body_start (n.body_start + len)
      accepted (record tmp { buck = 1; sort = 1; content = content }))
    else if model == body_resp_failed
    then (do
      len ← short_at b 10
      msg ← sub_slice b n.body_start (n.body_start + len)
      value
          (record { joined = some (record tmp { buck = 1; sort = 1 }); fail = some (remote msg) }))
    else if model == body_body_start || model == body_resp_start
    then (do
      buck ← short_at b 8
      content ← sub_slice b n.body_start n.final_byte
      accepted (record tmp { buck = buck; sort = 1; content = content }))
    else if model == body_req_middle || model == body_resp_middle
    then (do
      buck ← short_at b 8
      sort ← short_at b 10
      content ← sub_slice b n.body_start n.final_byte
      accepted (record tmp { buck = buck; sort = sort; content = content }))
    else if model == body_req_finaly || model == body_resp_finaly
    then (do
      buck ← short_at b 8
      len ← short_at b 10
      content ← sub_slice b n.body_start (n.body_start + len)
      accepted (record tmp { buck = buck; sort = buck; content = content }))
    else accepted tmp

unfoldable pub parse_fields : NetworkBuffer → Bytes → Outcome Parsed
unfolding short_at
parse_fields n b = do
  u2 ← index b 2
  u1 ← index b 3
  u0 ← index b 4
  func ← short_at b 6
  model ← index b 5
  parse_model n b model (record {
    uuid = u2 * 2 ^ 16 + u1 * 2 ^ 8 + u0;
    func = func;
    buck = 0;
    sort = 0;
    content = [];
  })

unfoldable pub parse : NetworkBuffer → Bytes → Outcome Parsed
unfolding expect
parse n b =
    if length b == n.total_size
    then expect b 0 first_byte (
        expect b 1 second_byte (
          expect b (length b - 1) first_byte
            (expect b (length b - 2) second_byte (parse_fields n b))))
    else refuse wrong_length
