-- ===== src/Conn/Transfer.antt =====
-- From a body to its frames, over the wire in any order, and back to the body.
use gorigin.Prelude.{
  ℕ, zero, suc, ◌+◌, ◌-◌, ◌*◌, ◌^◌, ◌≤◌, ◌<◌, ◌≡◌, ◌≢◌, refl, sym, ap, ◌∙◌, List, [], ◌∷◌, ◌++◌,
  none, Bytes, length, get_or, replicate, All, map, arith, Outcome, value, ◌>>=◌,
}
use mathlib.Core.List.{flatten}
use native.Mathlib.Nat.{add-zero}
use gorigin.Prelude.{fun_ext, subst}
use mathlib.Core.Path.{ap₂}
use gorigin.Wire.{NetworkBuffer, IsGeometry}
use gorigin.Wire.Encode.{make_req_body, chunk_count}
use gorigin.Wire.Parse.{JoinBodyData, parse, accepted}
use gorigin.Wire.Chunks.{chunks, chunk_count_bounds, length-chunks, flatten-chunks, chunks-nonempty}
use gorigin.Wire.Rounds.{Reads, pieces}
use gorigin.Wire.RoundTrip.{parse-make_req_body}
use gorigin.Conn.{Links, Reply, nothing, join_body, parse_resp}
use gorigin.Conn.Joining.{Distinct}
use gorigin.Conn.Reassembly.{join_all, piece, join_all-any_order}

-- The rounds of a reader over the frames that arrive, with the results of `ParseResp`.
unfoldable pub receive : NetworkBuffer → Links → List Bytes → Outcome (Links × List Reply)
receive n links [] = value (links, [])
receive n links (f ∷ fs) = do
  (links', r) ← parse_resp n links f
  (links'', rs) ← receive n links' fs
  value (links'', r ∷ rs)

-- The frames with the given numbers, from 0, in that order.
abbrev pub arrive : List Bytes → List ℕ → List Bytes
arrive fs = map (λ i. get_or fs i [])

pub parse_resp-accepted :
    (n : NetworkBuffer) (links : Links) (f : Bytes) (j : JoinBodyData)
    → parse n f ≡ accepted j
    → parse_resp n links f ≡ join_body links j
unfolding parse_resp
parse_resp-accepted n links f j e = rw e refl

Reads-at :
    (n : NetworkBuffer) (u fid count k i : ℕ) (fs cs : List Bytes)
    → Reads n fs (pieces u fid count k cs)
    → i < length cs
    → parse n (get_or fs i [])
      ≡ accepted
          (record { uuid = u; func = fid; buck = count; sort = k + i; content = get_or cs i [] })
unfolding pieces
Reads-at n u fid count k i fs [] h p = absurd (omega arith)
Reads-at n u fid count k i [] (c ∷ cs) h p = absurd h
Reads-at n u fid count k zero (f ∷ fs) (c ∷ cs) h p = rw (add-zero k) (h.1)
Reads-at n u fid count k (suc i) (f ∷ fs) (c ∷ cs) h p =
    rw (sum_suc k i) (Reads-at n u fid count (k + 1) i fs cs h.2 (omega arith))
  where
    sum_suc : (k i : ℕ) → k + suc i ≡ k + 1 + i
    sum_suc k i = omega arith

receive-join_all :
    (n : NetworkBuffer) (u fid : ℕ) (fs cs : List Bytes) (links : Links) (is : List ℕ)
    → Reads n fs (pieces u fid (length cs) 1 cs)
    → All (λ i. i < length cs) is
    → receive n links (arrive fs is) ≡ join_all links (map (piece u fid cs) is)
unfolding receive join_all
receive-join_all n u fid fs cs links [] h b = refl
receive-join_all n u fid fs cs links (i ∷ is) h b =
    let place : 1 + i ≡ suc i = omega arith in
    let read = rw place at (Reads-at n u fid (length cs) 1 i fs cs h b.0) in
    rw (parse_resp-accepted n links (get_or fs i []) (piece u fid cs i) read) (
      ap
        (λ (f : (Links × Reply) → Outcome (Links × List Reply)).
          join_body links (piece u fid cs i) >>= f)
        (fun_ext λ p.
          ap (λ m. m >>= λ q. value (q.0, p.1 ∷ q.1))
            (receive-join_all n u fid fs cs p.0 is h b.1)))

last_round : (s c : ℕ) → 0 < c → s * (c - 1) + s ≡ s * c
last_round s zero h = absurd (omega arith)
last_round s (suc c) h = omega (arith, ap (λ (t : ℕ). s * t) {x = suc c - 1} {y = c} (omega arith))

-- A body of more than one frame is sent as `chunk_count` frames. Whatever the order in which they
-- arrive, each once, and whatever other bodies are open: `ParseResp` reports nothing until the last
-- of them, and then the request's number, the function and the whole body; the table of open bodies
-- is then as it was. The numbers must fit their bytes, and no body may be open under this number.
pub receive-make_req_body :
    (n : NetworkBuffer) (g : IsGeometry n) (num fid : ℕ) (bts : Bytes) (links : Links)
    (order : List ℕ)
    → num < 2 ^ 24
    → fid < 65536
    → n.body_split < length bts
    → chunk_count (length bts) n.body_split < 65536
    → links num ≡ none
    → Distinct order
    → All (λ i. i < chunk_count (length bts) n.body_split) order
    → length order ≡ chunk_count (length bts) n.body_split
    → (fs : List Bytes) × (links' : Links) × (make_req_body n bts num fid ≡ value fs)
      × (receive n links (arrive fs order)
          ≡ value (
            links',
            replicate (length order - 1) nothing
                ++ (record { uuid = num; func = fid; body = bts; fail = none } ∷ []),
          ))
      × ((k : ℕ) → links' k ≡ links k)
receive-make_req_body n g num fid bts links order hn hf h hc new d b hl =
    let split = n.body_split in
    let count = chunk_count (length bts) split in
    let cut = chunk_count_bounds (length bts) split (omega (arith, g.wide)) h in
    let cs = chunks split count bts in
    let len : length cs ≡ count = length-chunks split count bts in
    let covered : length bts ≤ split * count =
      omega (arith, cut.1, cut.3, cut.0, last_round split count (omega (arith, cut.0))) in
    let full : All (λ c. c ≢ []) cs =
      chunks-nonempty split count bts (omega (arith, g.wide)) (omega (arith, cut.1, cut.2)) in
    let body : flatten cs ≡ bts = flatten-chunks split count bts covered in
    let (fs, made, reads) = parse-make_req_body n g num fid hn hf bts h hc in
    let reads' = subst (λ c. Reads n fs (pieces num fid c 1 cs)) (sym len) reads in
    let b' = subst (λ c. All (λ i. i < c) order) (sym len) b in
    let (links', run, same) =
      join_all-any_order num fid cs links order new full (omega (arith, cut.0)) (omega arith) d b'
        (omega arith) in
    let rounds : length cs - 1 ≡ length order - 1 = omega arith in
    (
      fs,
      links',
      made,
      receive-join_all n num fid fs cs links order reads' b'
          ∙ run
          ∙ ap₂
              (λ (k : ℕ) (t : Bytes). value (
                links',
                replicate k nothing
                    ++ (record { uuid = num; func = fid; body = t; fail = none } ∷ []),
              ))
              rounds body,
      same,
    )
