-- ===== src/Conn/Races.antt =====
-- The first pieces of a body in two goroutines: `tcpAccept` and `UdpListen` (network/rpc/tcp.go and
-- udp.go) start one for each frame.
use gorigin.Prelude.{
  ℕ, ◌-◌, ◌≤◌, ◌<◌, ◌≡◌, refl, sym, ap, ◌∙◌, inl, inr, none, some, Option, true, false, leb, ◌==◌,
  Outcome, value, Bool-cases, arith, ltb, [], replicate, set,
}
use gorigin.Wire.Parse.{JoinBodyData}
use gorigin.Conn.{ReadLink, Links, Reply, nothing, put_link, extend_link, open_link, join_body}

-- `ParseResp` on a piece of several, behind its look into the table, which it makes under the lock:
-- what it has found, and the table as it is now.
unfoldable pub act_on : Links → JoinBodyData → Option ReadLink → Outcome (Links × Reply)
act_on links p none = open_link links p
act_on links p (some tmp) = extend_link links p tmp

-- A piece with a place among several.
abbrev pub IsPiece : JoinBodyData → Type 0
IsPiece p = (0 < p.sort) × (p.sort ≤ p.buck) × (1 < p.buck)

-- When nobody comes between, it is the whole of `ParseResp`.
act_on-join_body :
    (links : Links) (p : JoinBodyData)
    → IsPiece p
    → act_on links p (links p.uuid) ≡ join_body links p
unfolding act_on join_body
act_on-join_body links p (low, within, several) =
    let ordered : ltb p.buck p.sort ≡ false = ground arith in
    let many : (p.buck == 1) ≡ false = ground arith in
    let more : ltb 1 p.buck ≡ true = ground arith in rw (join_body, ordered, many, more) refl

-- What the first piece of a body opens.
abbrev first : JoinBodyData → ReadLink
first p = record {
  funcid = p.func;
  buck = p.buck;
  uuid = p.uuid;
  body = set (replicate p.buck []) (p.sort - 1) p.content;
  recv = 1;
}

act_on-none :
    (links : Links) (p : JoinBodyData)
    → IsPiece p
    → act_on links p none ≡ value (put_link p.uuid (first p) links, nothing)
unfolding act_on open_link
act_on-none links p (low, within, several) =
    let some_place : (p.sort == 0) ≡ false = ground arith in
    let inside : leb p.buck (p.sort - 1) ≡ false = ground arith in
    rw (act_on, open_link, some_place, inside) refl

-- Two pieces of a body that is not open, in two goroutines that both look into the table before one
-- of them acts: the piece of the one that acts first is lost. Neither reports an error, and the
-- table is afterwards as if only the other piece had come.
pub act_on-lost :
    (links : Links) (p q : JoinBodyData)
    → IsPiece p
    → IsPiece q
    → p.uuid ≡ q.uuid
    → links p.uuid ≡ none
    → (l1 : Links) × (l2 : Links) × (l3 : Links) × (act_on links p (links p.uuid)
        ≡ value (l1, nothing))
      × (act_on l1 q (links q.uuid) ≡ value (l2, nothing))
      × (act_on links q (links q.uuid) ≡ value (l3, nothing))
      × ((k : ℕ) → l2 k ≡ l3 k)
act_on-lost links p q ip iq same closed =
    let l1 = put_link p.uuid (first p) links in
    let closed' : links q.uuid ≡ none = ap links (sym same) ∙ closed in
    (
      l1,
      put_link q.uuid (first q) l1,
      put_link q.uuid (first q) links,
      rw closed (act_on-none links p ip),
      rw closed' (act_on-none l1 q iq),
      rw closed' (act_on-none links q iq),
      λ k. elim (Bool-cases (k == q.uuid)) [ inl e ↦ rw e refl | inr e ↦ rw (e, same, e) refl ],
    )
