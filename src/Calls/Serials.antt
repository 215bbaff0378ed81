-- ===== src/Calls/Serials.antt =====
-- The numbers of requests, and whom a request reaches.
use gorigin.Prelude.{
  ℕ, zero, suc, ◌+◌, ◌%◌, ◌^◌, ◌≤◌, ◌<◌, ◌≡◌, ◌⊎◌, refl, ap, inl, inr, List, [], ◌∷◌, ◌++◌, Option,
  none, some, Bytes, true, false, All, ltb, ◌||◌, bytes_beq, Bool-cases, Option-cases, arith,
}
use gorigin.FuncCache.{NodeConn}
use gorigin.Calls.{serial, watch_in_max, conns_call}

-- The numbers of so many requests for functions beyond the watcher's own.
unfoldable pub serials : ℕ → ℕ → List ℕ
serials reqnum zero = []
serials reqnum (suc k) = let (reqnum', num) = serial reqnum watch_in_max in num ∷ serials reqnum' k

-- The next so many numbers.
abbrev pub upwards : ℕ → ℕ → List ℕ
upwards a zero = []
upwards a (suc k) = a ∷ upwards (a + 1) k

-- Once the counter has passed the watcher's numbers, requests are numbered upwards, without a gap and
-- without repetition, until the counter reaches 65535.
pub serials-upwards :
    (reqnum k : ℕ)
    → watch_in_max ≤ reqnum
    → reqnum + k < 65535
    → serials reqnum k ≡ upwards (reqnum + 1) k
unfolding serials serial
serials-upwards reqnum zero low high = refl
serials-upwards reqnum (suc k) low high =
    let num : (reqnum + 1) % 2 ^ 32 ≡ reqnum + 1 = omega arith in
    let cut : (reqnum + 1) % 65535 ≡ reqnum + 1 = omega arith in
    let past : ltb (reqnum + 1) watch_in_max ≡ false = ground arith in
    rw (num, past, cut)
      (ap (◌∷◌ (reqnum + 1)) (serials-upwards (reqnum + 1) k (omega arith) (omega arith)))

-- Every number fits the three bytes that a frame has for it: a number of the watcher's functions is
-- the function's, all others are below 65535.
pub serial-fits : (reqnum fid : ℕ) → (serial reqnum fid).1 < 65535
unfolding serial
serial-fits reqnum fid = elim (Bool-cases (ltb fid watch_in_max)) [
  | inl own ↦ rw own (ground arith)
  | inr other ↦ elim (Bool-cases (ltb ((reqnum + 1) % 2 ^ 32) watch_in_max)) [
    | inl low ↦ rw (other, low) (omega arith)
    | inr high ↦ rw (other, high) (omega arith)
  ]
]

-- A connection that `connsCall` passes over: the own node's, a broken one, or one that fails.
abbrev pub Skipped : {A : Type 0} → (NodeConn → Option A) → Bytes → NodeConn → Type 0
Skipped attempt self conn =
    ((bytes_beq conn.uuid self || conn.wrong) ≡ true) ⊎ (attempt conn ≡ none)

-- A request is answered over the first connection, in their order, that is neither the own node's nor
-- broken and that takes the request; it fails exactly when there is none.
pub conns_call-first :
    {A : Type 0} (attempt : NodeConn → Option A) (self : Bytes) (conns : List NodeConn)
    → ((conns_call attempt self conns ≡ none) × All (Skipped attempt self) conns)
      ⊎ ((before : List NodeConn) × (conn : NodeConn) × (after : List NodeConn) × (resp : A)
          × (conns ≡ before ++ (conn ∷ after))
          × All (Skipped attempt self) before
          × ((bytes_beq conn.uuid self || conn.wrong) ≡ false)
          × (attempt conn ≡ some resp)
          × (conns_call attempt self conns ≡ some resp))
unfolding conns_call
conns_call-first attempt self [] = inl (refl, tt)
conns_call-first attempt self (c ∷ cs) =
    let rest = conns_call-first attempt self cs in
    elim (Bool-cases (bytes_beq c.uuid self || c.wrong)) [
      | inl bad ↦ elim rest [
        | inl (gone, all) ↦ inl (rw (bad, conns_call) gone, (inl bad, all))
        | inr (before, conn, after, resp, eq, skipped, fine, there, got) ↦ inr (
          c ∷ before,
          conn,
          after,
          resp,
          ap (◌∷◌ c) eq,
          (inl bad, skipped),
          fine,
          there,
          rw (bad, conns_call) got,
        )
      ]
      | inr good ↦ elim (Option-cases (attempt c)) [
        | inl e ↦ elim rest [
          | inl (gone, all) ↦ inl (rw (good, conns_call, e) gone, (inr e, all))
          | inr (before, conn, after, resp, eq, skipped, fine, there, got) ↦ inr (
            c ∷ before,
            conn,
            after,
            resp,
            ap (◌∷◌ c) eq,
            (inr e, skipped),
            fine,
            there,
            rw (good, conns_call, e) got,
          )
        ]
        | inr (r, e) ↦ inr ([], c, cs, r, refl, tt, good, e, rw (good, conns_call, e) refl)
      ]
    ]
