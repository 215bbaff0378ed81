-- ===== src/Conn/Delivery.antt =====
-- What reaches the goroutine that waits for an answer.
use gorigin.Prelude.{
  ℕ, ◌<◌, ◌≡◌, ◌⊎◌, refl, none, some, Bytes, take, arith, load, Every, Every-load, Every-store,
  Every-delete, Every-keep, store, subst, ◌^◌, nat_key, value, ltb, Bool-cases, Option-cases,
  Outcome-cases, inl, inr, [], ◌∷◌,
}
use gorigin.Wire.{NetworkBuffer, IsGeometry}
use gorigin.Wire.Encode.{make_rsp_body}
use gorigin.Wire.Parse.{JoinBodyData, Parsed, parse, remote}
use gorigin.Wire.Single.{parse-make_rsp_body_failed}
use gorigin.Conn.{
  ReadLink, Links, Reply, failing, extend_link, open_link, join_body, join_parsed, parse_resp,
  Waiting, expire, sent, new_chan, del_chan, deliver, read_resp,
}

-- A result with an error carries no request number.
abbrev IsMute : Reply → Type 0
IsMute r = (r.fail ≡ none) ⊎ (r.uuid ≡ 0)

extend_link-IsMute :
    (links : Links) (p : JoinBodyData) (tmp : ReadLink) (l : Links) (r : Reply)
    → extend_link links p tmp ≡ value (l, r)
    → IsMute r
unfolding extend_link
extend_link-IsMute links p tmp l r e = ground arith

open_link-IsMute :
    (links : Links) (p : JoinBodyData) (l : Links) (r : Reply)
    → open_link links p ≡ value (l, r)
    → IsMute r
unfolding open_link
open_link-IsMute links p l r e = ground arith

join_body-IsMute :
    (links : Links) (p : JoinBodyData) (l : Links) (r : Reply)
    → join_body links p ≡ value (l, r)
    → IsMute r
unfolding join_body
join_body-IsMute links p l r e = elim (Option-cases (links p.uuid)) [
  | inl e' ↦ ground (arith, open_link-IsMute links p l r)
  | inr (tmp, e') ↦ ground (arith, extend_link-IsMute links p tmp l r)
]

join_parsed-IsMute :
    (links : Links) (q : Parsed) (l : Links) (r : Reply)
    → join_parsed links q ≡ value (l, r)
    → IsMute r
unfolding join_parsed
join_parsed-IsMute links q l r e = elim (Option-cases q.joined) [
  | inl e' ↦ ground arith
  | inr (p, e') ↦ ground (arith, join_body-IsMute links p l r)
]

pub parse_resp-IsMute :
    (n : NetworkBuffer) (links : Links) (b : Bytes) (l : Links) (r : Reply)
    → parse_resp n links b ≡ value (l, r)
    → IsMute r
unfolding parse_resp
parse_resp-IsMute n links b l r e = elim (Outcome-cases (parse n b)) [
  | inl e' ↦ ground arith
  | inr (q, e') ↦ ground (arith, join_parsed-IsMute links q l r)
]

-- No channel of a waiting goroutine holds an error.
abbrev pub NoErrors : Waiting → Type 0
NoErrors = Every (λ num c. c.err ≡ none)

-- What happens to the table of waiting goroutines: one begins to wait, one stops, the old ones are
-- forgotten, the connection is closed, a frame arrives.
pub data Event (n : NetworkBuffer) : Links × Waiting → Links × Waiting → Type 0 where
  waits :
      (links : Links) (rc : Waiting) (now num : ℕ)
      → Event n (links, rc) (links, new_chan now num rc)
  leaves : (links : Links) (rc : Waiting) (num : ℕ) → Event n (links, rc) (links, del_chan num rc)
  expires :
      (links : Links) (rc : Waiting) (stamp : ℕ) → Event n (links, rc) (links, expire stamp rc)
  closes : (links : Links) (rc : Waiting) → Event n (links, rc) (links, [])
  arrives :
      (links : Links) (rc : Waiting) (b : Bytes) (links' : Links) (rc' : Waiting)
      → read_resp n links rc b ≡ value (links', sent rc')
      → Event n (links, rc) (links', rc')

pub data History (n : NetworkBuffer) (s : Links × Waiting) : Links × Waiting → Type 0 where
  start : History n s s
  next : {t u : Links × Waiting} → History n s t → Event n t u → History n s u

deliver-NoErrors :
    (rc rc' : Waiting) (r : Reply) → IsMute r → deliver rc r ≡ sent rc' → NoErrors rc → NoErrors rc'
unfolding deliver
deliver-NoErrors rc rc' r m e h = elim (Option-cases (load r.uuid rc)) [
  | inl gone ↦ subst NoErrors {x = rc} {y = rc'} (ground arith) h
  | inr (c, there) ↦ elim m [
    | inl fine ↦ elim (Option-cases c.body) [
      | inl free ↦
          let c' = record c { body = some r.body } in
          elim (Bool-cases (ltb 0 r.uuid)) [
            | inl pos ↦ subst NoErrors {x = store r.uuid c' rc} {y = rc'} (ground arith) (
                Every-store (λ num c. c.err ≡ none) r.uuid c' rc
                  (Every-load (λ num c. c.err ≡ none) r.uuid c rc h there) h)
            | inr zero' ↦ subst NoErrors {x = rc} {y = rc'} (ground arith) h
          ]
      | inr (old, full) ↦ subst NoErrors {x = rc} {y = rc'} (ground arith) h
    ]
    | inr mute ↦ subst NoErrors {x = rc} {y = rc'} (ground arith) h
  ]
]

Event-NoErrors :
    (n : NetworkBuffer) {s t : Links × Waiting} → Event n s t → NoErrors s.1 → NoErrors t.1
unfolding new_chan del_chan expire read_resp
Event-NoErrors n (waits links rc now num) h = Every-store _ num _ rc refl h
Event-NoErrors n (leaves links rc num) h = Every-delete _ num rc h
Event-NoErrors n (expires links rc stamp) h = Every-keep _ _ rc h
Event-NoErrors n (closes links rc) h = tt
Event-NoErrors n (arrives links rc b links' rc' e) h = elim (Outcome-cases (parse_resp n links b)) [
  | inl e' ↦ absurd (ground arith)
  | inr ((l, r), e') ↦
      deliver-NoErrors rc rc' r (parse_resp-IsMute n links b l r e') (ground arith) h
]

-- Whatever frames arrive, and whenever goroutines begin and stop to wait, no goroutine that waits
-- for an answer is ever handed an error: the case `err := <-c.err` of `WaitRsp` is never taken.
pub History-NoErrors :
    (n : NetworkBuffer) {s t : Links × Waiting} → NoErrors s.1 → History n s t → NoErrors t.1
History-NoErrors n h start = h
History-NoErrors n h (next before e) = Event-NoErrors n e (History-NoErrors n h before)

-- The frame by which a failing call is answered wakes nobody: its message is dropped, and the tables
-- stay as they are.
pub read_resp-failed :
    (n : NetworkBuffer) (g : IsGeometry n) (num fid : ℕ) (bts msg : Bytes) (links : Links)
    (rc : Waiting)
    → num < 2 ^ 24
    → fid < 65536
    → (f : Bytes) × (make_rsp_body n bts num fid (some msg) ≡ value (f ∷ []))
      × (parse_resp n links f ≡ value (links, failing (remote (take n.body_split msg))))
      × (read_resp n links rc f ≡ value (links, sent rc))
unfolding read_resp parse_resp join_parsed deliver
read_resp-failed n g num fid bts msg links rc hn hf =
    let (f, made, size, read) = parse-make_rsp_body_failed n g num fid hn hf bts msg in
    (f, made, rw read refl, rw read refl)
