-- ===== src/Waits/Heard.antt =====
-- What a goroutine that waits can hear.
use gorigin.Prelude.{
  ℕ, Bool, ◌==◌, ◌≡◌, ◌⊎◌, refl, sym, subst, ap, ◌∙◌, inl, inr, List, [], ◌∷◌, none, some, Bytes,
  arith, load, store, load-store, load-store_self, nat_key, ltb, Bool-cases, Option-cases,
  some-injective, ==_iff, false, bytes_key,
}
use gorigin.Wire.Parse.{WireError}
use gorigin.Conn.{
  Reply, RecvChan, Waiting, Sent, sent, blocked, send_err, send_body, new_chan, deliver,
}
use gorigin.Waits.{
  Waited, timed_out, got, failed, Selects, on_done, on_body, on_err, waiting, detached, ended, Run,
  registers, delivers, keeps, loses, selects, selects_detached,
}

-- Some reply of the list, of the number, has the body and no error, or has the error.
abbrev pub HasBody : ℕ → Bytes → List Reply → Type 0
HasBody num bts [] = ⊥
HasBody num bts (r ∷ rs) = ((r.uuid ≡ num) × (r.fail ≡ none) × (r.body ≡ bts)) ⊎ HasBody num bts rs

abbrev pub HasError : ℕ → WireError → List Reply → Type 0
HasError num e [] = ⊥
HasError num e (r ∷ rs) = ((r.uuid ≡ num) × (r.fail ≡ some e)) ⊎ HasError num e rs

-- Where the end of a wait comes from.
abbrev pub Heard : ℕ → Waited → List Reply → Type 0
Heard num timed_out rs = Unit {0}
Heard num (got bts) rs = HasBody num bts rs
Heard num (failed e) rs = HasError num e rs

table_of : Waiting → Sent → Waiting
table_of rc (sent t) = t
table_of rc blocked = rc

sent-injective : (t u : Waiting) → sent t ≡ sent u → t ≡ u
unfolding table_of
sent-injective t u e = ap (table_of t) e

stuck_lem : (t : Waiting) → blocked ≡ sent t → ⊥
stuck_lem t e = cc

-- A channel of one place, with room or full.
body_room :
    (rc : Waiting) (k : ℕ) (d : RecvChan) (bts : Bytes)
    → d.body ≡ none
    → send_body rc k d bts ≡ sent (store k (record d { body = some bts }) rc)
body_room rc k d bts e = ground arith

body_full :
    (rc : Waiting) (k : ℕ) (d : RecvChan) (bts : Bytes) {x : Bytes}
    → d.body ≡ some x
    → send_body rc k d bts ≡ blocked
body_full rc k d bts e = ground arith

err_room :
    (rc : Waiting) (k : ℕ) (d : RecvChan) (x : WireError)
    → d.err ≡ none
    → send_err rc k d x ≡ sent (store k (record d { err = some x }) rc)
err_room rc k d x e = ground arith

err_full :
    (rc : Waiting) (k : ℕ) (d : RecvChan) (x : WireError) {y : WireError}
    → d.err ≡ some y
    → send_err rc k d x ≡ blocked
err_full rc k d x e = ground arith

-- What is in the channels comes from the replies.
record IsHeard (num : ℕ) (rs : List Reply) (c : RecvChan) : Type 0 where
  bodies : (bts : Bytes) → c.body ≡ some bts → HasBody num bts rs
  errors : (e : WireError) → c.err ≡ some e → HasError num e rs

module _ (num : ℕ) where
  IsHeard-more :
      (r : Reply) (rs : List Reply) (c : RecvChan) → IsHeard num rs c → IsHeard num (r ∷ rs) c
  IsHeard-more r rs c h = record {
    bodies = λ bts e. inr (h.bodies bts e);
    errors = λ x e. inr (h.errors x e);
  }

  abbrev Held : Waiting → List Reply → Type 0
  Held rc rs = (c : RecvChan) × (load num rc ≡ some c) × IsHeard num rs c

  stored_other :
      (rc : Waiting) (k : ℕ) (d : RecvChan) (r : Reply) (rs : List Reply)
      → (k == num) ≡ false
      → Held rc rs
      → Held (store k d rc) (r ∷ rs)
  stored_other rc k d r rs n (c, there, h) = (c, rw (load-store, n) there, IsHeard-more r rs c h)

  -- A reply for the goroutine, or for another one.
  stored_lem :
      (rc : Waiting) (d d' : RecvChan) (r : Reply) (rs : List Reply)
      → load r.uuid rc ≡ some d
      → (r.uuid ≡ num → IsHeard num rs d → IsHeard num (r ∷ rs) d')
      → Held rc rs
      → Held (store r.uuid d' rc) (r ∷ rs)
  stored_lem rc d d' r rs at change (c, there, h) = elim (Bool-cases (r.uuid == num)) [
    | inr other ↦ stored_other rc r.uuid d' r rs other (c, there, h)
    | inl same ↦
        let eq : r.uuid ≡ num = (==_iff r.uuid num).0 same in
        let own : c ≡ d = some-injective c d (sym there ∙ sym (ap (λ k. load k rc) eq) ∙ at) in
        (d', rw (load-store, same) refl, change eq (subst (IsHeard num rs) own h))
  ]

  body-IsHeard :
      (r : Reply) (rs : List Reply) (d : RecvChan)
      → r.fail ≡ none
      → r.uuid ≡ num
      → IsHeard num rs d
      → IsHeard num (r ∷ rs) (record d { body = some r.body })
  body-IsHeard r rs d fine eq h = record {
    bodies = λ bts e. inl (eq, fine, some-injective r.body bts e);
    errors = λ x e. inr (h.errors x e);
  }

  error-IsHeard :
      (r : Reply) (rs : List Reply) (d : RecvChan) (x : WireError)
      → r.fail ≡ some x
      → r.uuid ≡ num
      → IsHeard num rs d
      → IsHeard num (r ∷ rs) (record d { err = some x })
  error-IsHeard r rs d x bad eq h = record {
    bodies = λ bts e. inr (h.bodies bts e);
    errors = λ y e. inl (eq, bad ∙ e);
  }

  more_lem : (rc : Waiting) (r : Reply) (rs : List Reply) → Held rc rs → Held rc (r ∷ rs)
  more_lem rc r rs (c, there, h) = (c, there, IsHeard-more r rs c h)

  deliver-Held :
      (rc rc' : Waiting) (r : Reply) (rs : List Reply)
      → Held rc rs
      → deliver rc r ≡ sent rc'
      → Held rc' (r ∷ rs)
  unfolding deliver
  deliver-Held rc rc' r rs held e = elim (Bool-cases (ltb 0 r.uuid)) [
    | inr zero' ↦
        subst (λ t. Held t (r ∷ rs)) (sent-injective rc rc' (rw (deliver, zero') at e))
          (more_lem rc r rs held)
    | inl pos' ↦ elim (Option-cases (load r.uuid rc)) [
      | inl gone ↦
          subst (λ t. Held t (r ∷ rs)) (sent-injective rc rc' (rw (deliver, pos', gone) at e))
            (more_lem rc r rs held)
      | inr (d, at') ↦ elim (Option-cases r.fail) [
        | inr (x, bad) ↦ elim (Option-cases d.err) [
          | inl room ↦
              subst (λ t. Held t (r ∷ rs))
                (sent-injective _ rc'
                  (sym (simp (pos', at', bad, err_room rc r.uuid d x room)) ∙ e))
                (stored_lem rc d (record d { err = some x }) r rs at' (error-IsHeard r rs d x bad)
                  held)
          | inr (y, full) ↦
              absurd (stuck_lem rc' (sym (simp (pos', at', bad, err_full rc r.uuid d x full)) ∙ e))
        ]
        | inl fine ↦ elim (Option-cases d.body) [
          | inl room ↦
              subst (λ t. Held t (r ∷ rs))
                (sent-injective _ rc'
                  (sym (simp (pos', at', fine, body_room rc r.uuid d r.body room)) ∙ e))
                (stored_lem rc d (record d { body = some r.body }) r rs at'
                  (body-IsHeard r rs d fine) held)
          | inr (y, full) ↦
              absurd (
                stuck_lem rc' (sym (simp (pos', at', fine, body_full rc r.uuid d r.body full)) ∙ e))
        ]
      ]
    ]
  ]

  Run-Held : {rc : Waiting} {rs : List Reply} → Run num rc waiting rs → Held rc rs
  unfolding new_chan
  Run-Held (registers rc now r) = (
    record { body = none; err = none; stamp = now },
    load-store_self num _ rc,
    record { bodies = λ bts e. absurd (cc); errors = λ x e. absurd (cc) },
  )
  Run-Held (delivers rc rc' r rs run e) = deliver-Held rc rc' r rs (Run-Held run) e
  Run-Held (keeps rc rc' rs run same) = let (c, there, h) = Run-Held run in (c, same ∙ there, h)

  detached_lem :
      {rc : Waiting} {c : RecvChan} {rs : List Reply}
      → Run num rc (detached c) rs
      → IsHeard num rs c
  detached_lem (loses rc rc' c rs run at') =
      let (d, there, h) = Run-Held run in
      subst (IsHeard num rs) (some-injective d c (sym there ∙ at')) h

  -- The channels that a goroutine has selected from.
  Selects-Heard :
      (rs : List Reply) (c : RecvChan) (over : Bool) (w : Waited)
      → IsHeard num rs c
      → Selects over c w
      → Heard num w rs
  Selects-Heard rs c over w h (on_done d) = tt
  Selects-Heard rs c over w h (on_body bts e) = h.bodies bts e
  Selects-Heard rs c over w h (on_err x e) = h.errors x e

  ended_lem :
      {rc : Waiting} {w : Waited} {rs : List Reply} → Run num rc (ended w) rs → Heard num w rs
  ended_lem (selects rc c rs over w run at' sel) =
      let (d, there, h) = Run-Held run in
      Selects-Heard rs c over w (subst (IsHeard num rs) (some-injective d c (sym there ∙ at')) h)
        sel
  ended_lem (selects_detached rc c rs over w run sel) =
      Selects-Heard rs c over w (detached_lem run) sel

-- A goroutine that waits ends by its time, or by a response of its own number that was delivered since
-- its channels are in the table; a response that the reader delivers before is never heard. Other
-- requests, time-outs and a request with the same number may change the table in between.
pub Run-Heard :
    (num : ℕ) (rc : Waiting) (w : Waited) (rs : List Reply)
    → Run num rc (ended w) rs
    → Heard num w rs
Run-Heard num rc w rs r = ended_lem num r
