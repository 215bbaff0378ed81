-- ===== src/Conn.antt =====
-- network/rpc/conns.go: a connection's receiving side. `ParseResp` joins the frames of a body,
-- `ReadRespTCP` and `ReadRespUDP` hand the body to the goroutine that waits for it.
pub mod Joining
pub mod Midway
pub mod Reassembly
pub mod Transfer
pub mod Delivery
pub mod Frames
pub mod Races
use gorigin.Prelude.{
  ℕ, ◌+◌, ◌-◌, ◌%◌, ◌^◌, Bool, true, false, List, [], ◌∷◌, ◌++◌, Option, none, some, Bytes, length,
  get_or, set, replicate, ltb, leb, ◌==◌, if◌then◌else◌, Outcome, value, panic, ◌>>=◌, Dict, load,
  store, delete, keep, not, nat_key,
}
use mathlib.Core.Bool.{◌&&◌, ◌||◌}
use gorigin.Wire.{NetworkBuffer}
use gorigin.Wire.Parse.{WireError, recv_wrong, buck_wrong, JoinBodyData, Parsed, parse}

pub record ReadLink : Type 0 where
  pub funcid : ℕ
  pub buck : ℕ
  pub uuid : ℕ
  pub body : List Bytes
  pub recv : ℕ

-- `map[int]*ReadLink`. The code reads the map under its lock, changes the entry through the pointer,
-- and deletes or stores it under the lock; one goroutine reads a connection.
abbrev pub Links : Type 0
Links = ℕ → Option ReadLink

abbrev pub put_link : ℕ → ReadLink → Links → Links
put_link u l links k = if k == u then some l else links k

abbrev pub del_link : ℕ → Links → Links
del_link u links k = if k == u then none else links k

-- The four results of `ParseResp`; a nil body is an empty one.
pub record Reply : Type 0 where
  pub uuid : ℕ
  pub func : ℕ
  pub body : Bytes
  pub fail : Option WireError

abbrev pub nothing : Reply
nothing = record { uuid = 0; func = 0; body = []; fail = none }

abbrev pub failing : WireError → Reply
failing e = record { uuid = 0; func = 0; body = []; fail = some e }

pub is_empty : Bytes → Bool
is_empty [] = true
is_empty (x ∷ xs) = false

-- The loop over `tmp.body`: it stops at an empty piece.
unfoldable pub gather : List Bytes → Option Bytes
unfolding is_empty
gather [] = some []
gather (b ∷ bs) =
    let rest = gather bs in
    if is_empty b then none else elim rest [ none ↦ none | some r ↦ some (b ++ r) ]

-- A piece for a body of which some pieces are there. With a place of 0 the index is -1.
unfoldable pub extend_link : Links → JoinBodyData → ReadLink → Outcome (Links × Reply)
unfolding is_empty
extend_link links p tmp =
    let i = p.sort - 1 in
    if not (p.buck == tmp.buck) || not (p.func == tmp.funcid)
    then value (del_link p.uuid links, failing recv_wrong)
    else if p.sort == 0
    then panic
    else if leb (length tmp.body) i
    then value (del_link p.uuid links, failing buck_wrong)
    else if is_empty (get_or tmp.body i [])
    then (let recv = (tmp.recv + 1) % 2 ^ 32 in
        let body = set tmp.body i p.content in
        let links' = put_link p.uuid (record tmp { body = body; recv = recv }) links in
        if leb tmp.buck recv
        then elim (gather body) [
          | none ↦ value (links', nothing)
          | some result ↦ value (
            del_link p.uuid links,
            record { uuid = p.uuid; func = p.func; body = result; fail = none },
          )
        ]
        else value (links', nothing))
    else value (links, nothing)

-- The first piece that arrives.
unfoldable pub open_link : Links → JoinBodyData → Outcome (Links × Reply)
open_link links p =
    let i = p.sort - 1 in
    if p.sort == 0 || leb p.buck i
    then value (del_link p.uuid links, failing buck_wrong)
    else value (
      put_link p.uuid
          (record {
            funcid = p.func;
            buck = p.buck;
            uuid = p.uuid;
            body = set (replicate p.buck []) i p.content;
            recv = 1;
          })
          links,
      nothing,
    )

-- `ParseResp` behind `nt.parse`, of a frame without error.
unfoldable pub join_body : Links → JoinBodyData → Outcome (Links × Reply)
join_body links p =
    if ltb p.buck p.sort
    then value (links, nothing)
    else if p.buck == 1
    then value (links, record { uuid = p.uuid; func = p.func; body = p.content; fail = none })
    else if ltb 1 p.buck
    then elim (links p.uuid) [ some tmp ↦ extend_link links p tmp | none ↦ open_link links p ]
    else value (links, nothing)

unfoldable pub join_parsed : Links → Parsed → Outcome (Links × Reply)
join_parsed links r = elim r.fail [
  | some e ↦ value (links, failing e)
  | none ↦ elim r.joined [ none ↦ value (links, nothing) | some p ↦ join_body links p ]
]

unfoldable pub parse_resp : NetworkBuffer → Links → Bytes → Outcome (Links × Reply)
unfolding join_parsed
parse_resp n links b = parse n b >>= λ r. join_parsed links r

-- `RecvChan`: two channels of one place each, and the time at which it was made.
pub record RecvChan : Type 0 where
  pub body : Option Bytes
  pub err : Option WireError
  pub stamp : ℕ

-- `rc map[int]*RecvChan`.
abbrev pub Waiting : Type 0
Waiting = Dict ℕ RecvChan

-- A send on a full channel blocks the reader.
pub data Sent : Type 0 where
  sent : Waiting → Sent
  blocked : Sent

unfoldable pub new_chan : ℕ → ℕ → Waiting → Waiting
new_chan now num rc = store num (record { body = none; err = none; stamp = now }) rc

unfoldable pub del_chan : ℕ → Waiting → Waiting
del_chan num rc = delete num rc

-- The end of `TimerCheck`: who has waited since before `stamp` is forgotten.
unfoldable pub expire : ℕ → Waiting → Waiting
expire stamp rc = keep (λ num c. not (ltb c.stamp stamp)) rc

abbrev pub send_err : Waiting → ℕ → RecvChan → WireError → Sent
send_err rc num c e = elim c.err [
  | none ↦ sent (store num (record c { err = some e }) rc)
  | some _ ↦ blocked
]

abbrev pub send_body : Waiting → ℕ → RecvChan → Bytes → Sent
send_body rc num c bts = elim c.body [
  | none ↦ sent (store num (record c { body = some bts }) rc)
  | some _ ↦ blocked
]

-- What a reader does with the result of `ParseResp`.
unfoldable pub deliver : Waiting → Reply → Sent
deliver rc r =
    if ltb 0 r.uuid
    then elim (load r.uuid rc) [
      | none ↦ sent rc
      | some c ↦ elim r.fail [
        | some e ↦ send_err rc r.uuid c e
        | none ↦ send_body rc r.uuid c r.body
      ]
    ]
    else sent rc

-- One round of `ReadRespTCP` or `ReadRespUDP`, from the filled buffer on.
unfoldable pub read_resp : NetworkBuffer → Links → Waiting → Bytes → Outcome (Links × Sent)
read_resp n links rc b = parse_resp n links b >>= λ p. value (p.0, deliver rc p.1)
