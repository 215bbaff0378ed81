-- ===== src/Conn/Frames.antt =====
-- A body of any length, over the wire in any order.
use gorigin.Prelude.{
  ℕ, zero, suc, ◌-◌, ◌^◌, ◌<◌, ◌≡◌, refl, inl, inr, List, [], ◌∷◌, ◌++◌, none, Bytes, length,
  replicate, All, leb, Bool-cases, if◌then◌else◌, arith, value,
}
use gorigin.Wire.{NetworkBuffer, IsGeometry}
use gorigin.Wire.Encode.{make_req_body, chunk_count}
use gorigin.Wire.Parse.{parse, accepted}
use gorigin.Wire.Single.{parse-make_req_body_short}
use gorigin.Conn.{Links, Reply, nothing, join_body}
use gorigin.Conn.Joining.{Distinct}
use gorigin.Conn.Transfer.{receive, arrive, parse_resp-accepted, receive-make_req_body}

-- How many frames `MakeReqBody` makes of a body.
abbrev pub frame_count : NetworkBuffer → Bytes → ℕ
frame_count n bts =
    if leb (length bts) n.body_split then 1 else chunk_count (length bts) n.body_split

-- An order of `count` frames, each of which comes once.
pub record IsOrder (count : ℕ) (order : List ℕ) : Type 0 where
  pub distinct : Distinct order
  pub within : All (λ i. i < count) order
  pub complete : length order ≡ count

abbrev pub the_reply : ℕ → ℕ → Bytes → Reply
the_reply num fid bts = record { uuid = num; func = fid; body = bts; fail = none }

only_frame : (f : Bytes) (order : List ℕ) → IsOrder 1 order → arrive (f ∷ []) order ≡ f ∷ []
only_frame f [] o = let none' : length {A = ℕ} [] ≡ 1 = o.complete in absurd (omega arith)
only_frame f (zero ∷ []) o = refl
only_frame f (suc i ∷ []) o = let w : suc i < 1 = o.within.0 in absurd (omega arith)
only_frame f (i ∷ j ∷ is) o = let two : length (i ∷ j ∷ is) ≡ 1 = o.complete in absurd (omega arith)

receive-one :
    (n : NetworkBuffer) (num fid : ℕ) (bts : Bytes) (links : Links) (f : Bytes)
    → parse n f ≡ accepted (record { uuid = num; func = fid; buck = 1; sort = 1; content = bts })
    → receive n links (f ∷ []) ≡ value (links, the_reply num fid bts ∷ [])
unfolding receive join_body
receive-one n num fid bts links f read = rw (receive, parse_resp-accepted n links f _ read) refl

-- A body of any length: `ParseResp` reports nothing until the last of its frames, and then the
-- request's number, the function and the whole body.
pub receive-frames :
    (n : NetworkBuffer) (g : IsGeometry n) (num fid : ℕ) (bts : Bytes) (links : Links)
    (order : List ℕ)
    → num < 2 ^ 24
    → fid < 65536
    → frame_count n bts < 65536
    → links num ≡ none
    → IsOrder (frame_count n bts) order
    → (fs : List Bytes) × (links' : Links) × (make_req_body n bts num fid ≡ value fs)
      × (receive n links (arrive fs order)
          ≡ value (links', replicate (length order - 1) nothing ++ (the_reply num fid bts ∷ [])))
receive-frames n g num fid bts links order hn hf hc new o =
    elim (Bool-cases (leb (length bts) n.body_split)) [
      | inl short ↦
          let (f, made, size, read) =
            parse-make_req_body_short n g num fid hn hf bts (ground arith) in
          let one : IsOrder 1 order = rw short at o in
          let single : length order - 1 ≡ 0 = omega (arith, one.complete) in
          let run = receive-one n num fid bts links f read in
          (f ∷ [], links, made, rw (only_frame f order one, single) run)
      | inr long ↦
          let above : n.body_split < length bts = ground arith in
          let few : chunk_count (length bts) n.body_split < 65536 = rw long at hc in
          let all : IsOrder (chunk_count (length bts) n.body_split) order = rw long at o in
          let (fs, links', made, run, same) =
            receive-make_req_body n g num fid bts links order hn hf above few new all.distinct
              all.within all.complete in
          (fs, links', made, run)
    ]
