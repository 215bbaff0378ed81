-- ===== src/Streams/Bodies.antt =====
-- A request, from `MakeReqBody` over a TCP connection to the body that the other side joins.
use gorigin.Prelude.{
  ℕ, zero, suc, ◌+◌, ◌-◌, ◌^◌, ◌<◌, ◌≡◌, refl, sym, ap, subst, ◌∙◌, List, [], ◌∷◌, ◌++◌, Option,
  none, Bytes, length, get_or, replicate, All, arith, value,
}
use mathlib.Core.List.{flatten, append-nil}
use gorigin.Wire.{NetworkBuffer, IsGeometry}
use gorigin.Wire.Encode.{make_req_body, chunk_count}
use gorigin.Wire.Chunks.{chunks, length-chunks}
use gorigin.Wire.Rounds.{Reads, pieces}
use gorigin.Wire.RoundTrip.{parse-make_req_body}
use gorigin.Conn.{Links, nothing}
use gorigin.Conn.Joining.{Distinct}
use gorigin.Conn.Transfer.{receive, arrive, receive-make_req_body}
use gorigin.Streams.{closed, read_frames}
use gorigin.Streams.Cut.{IsStream, Lasts, read_frames-whole}

-- Each frame is as long as the buffer.
Reads-sizes :
    (n : NetworkBuffer) (u fid count k : ℕ) (fs cs : List Bytes) (i : ℕ)
    → Reads n fs (pieces u fid count k cs)
    → i < length cs
    → length (get_or fs i []) ≡ n.total_size
unfolding pieces
Reads-sizes n u fid count k fs [] i h p = absurd (omega arith)
Reads-sizes n u fid count k [] (c ∷ cs) i h p = absurd h
Reads-sizes n u fid count k (f ∷ fs) (c ∷ cs) zero h p = h.0
Reads-sizes n u fid count k (f ∷ fs) (c ∷ cs) (suc i) h p =
    Reads-sizes n u fid count (k + 1) fs cs i h.2 (omega arith)

arrive-sizes :
    (n : NetworkBuffer) (u fid count k : ℕ) (fs cs : List Bytes) (is : List ℕ)
    → Reads n fs (pieces u fid count k cs)
    → All (λ i. i < length cs) is
    → All (λ f. length f ≡ n.total_size) (arrive fs is)
arrive-sizes n u fid count k fs cs [] h p = tt
arrive-sizes n u fid count k fs cs (i ∷ is) h p =
    (Reads-sizes n u fid count k fs cs i h p.0, arrive-sizes n u fid count k fs cs is h p.1)

length-arrive : (fs : List Bytes) (is : List ℕ) → length (arrive fs is) ≡ length is
length-arrive fs [] = refl
length-arrive fs (i ∷ is) = ap suc (length-arrive fs is)

value_same : (fs gs : List Bytes) → value fs ≡ value gs → fs ≡ gs
value_same fs gs e = ap (λ o. elim o [ value x ↦ x | _ ↦ fs ]) e

-- The frames of a body are written to a connection, in any order, each once. However the connection
-- cuts their bytes, the loop of the other side hands on these frames, and `ParseResp` reports nothing
-- until the last of them, and then the request's number, the function and the whole body; the table
-- of open bodies is then as it was. The body is longer than a frame, the numbers fit their bytes, no
-- body is open under this number, and the socket loses no byte before its end.
pub receive-read_frames :
    {S : Type 0} (read : ℕ → S → Option (Bytes × S)) (stream : IsStream read) (n : NetworkBuffer)
    (g : IsGeometry n) (num fid : ℕ) (bts : Bytes) (links : Links) (order : List ℕ)
    (fs : List Bytes) (fuel : ℕ) (s : S)
    → Lasts read stream
    → num < 2 ^ 24
    → fid < 65536
    → n.body_split < length bts
    → chunk_count (length bts) n.body_split < 65536
    → links num ≡ none
    → Distinct order
    → All (λ i. i < chunk_count (length bts) n.body_split) order
    → length order ≡ chunk_count (length bts) n.body_split
    → make_req_body n bts num fid ≡ value fs
    → stream.contents s ≡ flatten (arrive fs order)
    → length order < fuel
    → (links' : Links) × (receive n links (read_frames read n.total_size fuel s).0
        ≡ value (
          links',
          replicate (length order - 1) nothing
              ++ (record { uuid = num; func = fid; body = bts; fail = none } ∷ []),
        ))
      × ((k : ℕ) → links' k ≡ links k)
      × ((read_frames read n.total_size fuel s).1 ≡ closed)
receive-read_frames read stream n g num fid bts links order fs fuel s lasts hn hf h hc new d b hl
      made is enough =
    let split = n.body_split in
    let count = chunk_count (length bts) split in
    let cs = chunks split count bts in
    let len : length cs ≡ count = length-chunks split count bts in
    let (fs0, made0, reads0) = parse-make_req_body n g num fid hn hf bts h hc in
    let same0 : fs0 ≡ fs = value_same fs0 fs (sym made0 ∙ made) in
    let reads = subst (λ l. Reads n l (pieces num fid count 1 cs)) same0 reads0 in
    let (fs1, links', made1, run, kept) =
      receive-make_req_body n g num fid bts links order hn hf h hc new d b hl in
    let same1 : fs1 ≡ fs = value_same fs1 fs (sym made1 ∙ made) in
    let within = subst (λ c. All (λ i. i < c) order) (sym len) b in
    let sizes = arrive-sizes n num fid count 1 fs cs order reads within in
    let many = length-arrive fs order in
    let all =
      read_frames-whole read stream n.total_size fuel s (arrive fs order) [] lasts
        (omega (arith, g.total)) sizes (is ∙ sym (append-nil _)) (omega (arith, g.total))
        (omega arith) in
    (
      links',
      ap (λ r. receive n links r.0) all
          ∙ ap (λ l. receive n links (arrive l order)) (sym same1)
          ∙ run,
      kept,
      ap (λ r. r.1) all,
    )
