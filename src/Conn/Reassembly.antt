-- ===== src/Conn/Reassembly.antt =====
-- The pieces of one body, received in any order.
use gorigin.Prelude.{
  ℕ, suc, ◌+◌, ◌-◌, ◌%◌, ◌^◌, ◌<◌, ◌≡◌, refl, ◌∙◌, List, [], ◌∷◌, ◌++◌, none, some, true, false,
  Bytes, length, get_or, set, replicate, All, map, arith, Outcome, value, ◌>>=◌, ltb, leb, ◌==◌,
}
use mathlib.Core.List.{flatten}
use gorigin.Wire.Parse.{JoinBodyData}
use gorigin.Conn.{
  ReadLink, Links, put_link, del_link, Reply, nothing, is_empty, gather, extend_link, open_link,
  join_body,
}
use gorigin.Conn.Joining.{Distinct}
use gorigin.Conn.Midway.{Full, Midway, Midway-step, Midway-full, Midway-start}

-- The reader's loop over pieces, with the results of its rounds.
unfoldable pub join_all : Links → List JoinBodyData → Outcome (Links × List Reply)
join_all links [] = value (links, [])
join_all links (p ∷ ps) = do
  (links', r) ← join_body links p
  (links'', rs) ← join_all links' ps
  value (links'', r ∷ rs)

module _ (u fid : ℕ) (cs : List Bytes) where
  -- Piece `i`, counted from 0.
  abbrev pub piece : ℕ → JoinBodyData
  piece i = record {
    uuid = u;
    func = fid;
    buck = length cs;
    sort = suc i;
    content = get_or cs i [];
  }

  abbrev pub whole : Reply
  whole = record { uuid = u; func = fid; body = flatten cs; fail = none }

  abbrev entry : List Bytes → ℕ → ReadLink
  entry slots r = record { funcid = fid; buck = length cs; uuid = u; body = slots; recv = r }

  suc-sub : (i : ℕ) → suc i - 1 ≡ i
  suc-sub i = omega arith

  extend_step :
      (links : Links) (slots : List Bytes) (r i : ℕ)
      → length slots ≡ length cs
      → i < length cs
      → get_or slots i [] ≡ []
      → r + 1 < length cs
      → length cs < 65536
      → extend_link links (piece i) (entry slots r)
        ≡ value (put_link u (entry (set slots i (get_or cs i [])) (r + 1)) links, nothing)
  unfolding extend_link is_empty
  extend_step links slots r i hs hi e hr hc =
      let same : (length cs == length cs) ≡ true = ground arith in
      let same' : (fid == fid) ≡ true = ground arith in
      let pos : (suc i == 0) ≡ false = ground arith in
      let inside : leb (length slots) i ≡ false = ground arith in
      let small : (r + 1) % 2 ^ 32 ≡ r + 1 = omega arith in
      let more : leb (length cs) (r + 1) ≡ false = ground arith in
      rw (same, same', pos, suc-sub i, inside, e, small, more) refl

  extend_last :
      (links : Links) (slots : List Bytes) (r i : ℕ)
      → length slots ≡ length cs
      → i < length cs
      → get_or slots i [] ≡ []
      → r + 1 ≡ length cs
      → length cs < 65536
      → gather (set slots i (get_or cs i [])) ≡ some (flatten cs)
      → extend_link links (piece i) (entry slots r) ≡ value (del_link u links, whole)
  unfolding extend_link is_empty
  extend_last links slots r i hs hi e hr hc full =
      let same : (length cs == length cs) ≡ true = ground arith in
      let same' : (fid == fid) ≡ true = ground arith in
      let pos : (suc i == 0) ≡ false = ground arith in
      let inside : leb (length slots) i ≡ false = ground arith in
      let small : (r + 1) % 2 ^ 32 ≡ r + 1 = omega arith in
      let more : leb (length cs) (r + 1) ≡ true = ground arith in
      rw (same, same', pos, suc-sub i, inside, e, small, more, full) refl

  -- `join_body` on a piece of a body of several pieces.
  join_body-known :
      (links : Links) (i : ℕ) (tmp : ReadLink)
      → 1 < length cs
      → i < length cs
      → links u ≡ some tmp
      → join_body links (piece i) ≡ extend_link links (piece i) tmp
  unfolding join_body
  join_body-known links i tmp h hi e =
      let t1 : ltb (length cs) (suc i) ≡ false = ground arith in
      let t2 : (length cs == 1) ≡ false = ground arith in
      let t3 : ltb 1 (length cs) ≡ true = ground arith in rw (t1, t2, t3, e) refl

  join_body-new :
      (links : Links) (i : ℕ)
      → 1 < length cs
      → i < length cs
      → links u ≡ none
      → join_body links (piece i)
        ≡ value (
          put_link u (entry (set (replicate (length cs) []) i (get_or cs i [])) 1) links,
          nothing,
        )
  unfolding join_body open_link
  join_body-new links i h hi e =
      let t1 : ltb (length cs) (suc i) ≡ false = ground arith in
      let t2 : (length cs == 1) ≡ false = ground arith in
      let t3 : ltb 1 (length cs) ≡ true = ground arith in
      let t4 : (suc i == 0) ≡ false = ground arith in
      let t5 : leb (length cs) i ≡ false = ground arith in
      rw (t1, t2, t3, e, t4, suc-sub i, t5) refl

  rounds : (k : ℕ) → suc (suc k) ≡ length cs → length cs - 1 ≡ suc k
  rounds k h = omega arith

  restored :
      (links links1 : Links) (l : ReadLink)
      → links u ≡ none
      → ((k : ℕ) → links1 k ≡ put_link u l links k)
      → (k : ℕ) → del_link u links1 k ≡ links k
  restored links links1 l e h k = ground (arith, h k)

  -- Blank results, and the whole body from the last piece.
  abbrev pub outcome : ℕ → List Reply
  outcome k = replicate k nothing ++ (whole ∷ [])

  join_all-Midway :
      (links : Links) (slots : List Bytes) (r i : ℕ) (is : List ℕ)
      → Full cs
      → 1 < length cs
      → length cs < 65536
      → Midway cs slots r (i ∷ is)
      → links u ≡ some (entry slots r)
      → (links' : Links) × (join_all links (map piece (i ∷ is))
          ≡ value (links', outcome (length is)))
        × ((k : ℕ) → links' k ≡ del_link u links k)
  unfolding join_all
  join_all-Midway links slots r i [] full h1 hc m e =
      let next = Midway-step cs slots r i [] full m in
      (
        del_link u links,
        rw
            (
              join_body-known links i (entry slots r) h1 m.bounded.0 e,
              extend_last links slots r i m.size m.bounded.0 m.vacant.0 (omega (arith, m.left)) hc
                  (Midway-full cs _ (r + 1) full next),
            )
            refl,
        λ k. refl,
      )
  join_all-Midway links slots r i (j ∷ is) full h1 hc m e =
      let next = Midway-step cs slots r i (j ∷ is) full m in
      let slots' = set slots i (get_or cs i []) in
      let links1 : Links = put_link u (entry slots' (r + 1)) links in
      let (links', run, same) =
        join_all-Midway links1 slots' (r + 1) j is full h1 hc next (ground arith) in
      (
        links',
        rw
            (
              join_body-known links i (entry slots r) h1 m.bounded.0 e,
              extend_step links slots r i m.size m.bounded.0 m.vacant.0 (omega (arith, m.left)) hc,
              run,
            )
            refl,
        λ k. same k ∙ ground arith,
      )

  -- Pieces that arrive in any order, each once, give no result until the last of them, which gives the
  -- whole body; then the table of open bodies is as it was.
  pub join_all-any_order :
      (links : Links) (is : List ℕ)
      → links u ≡ none
      → Full cs
      → 1 < length cs
      → length cs < 65536
      → Distinct is
      → All (λ i. i < length cs) is
      → length is ≡ length cs
      → (links' : Links) × (join_all links (map piece is) ≡ value (links', outcome (length cs - 1)))
        × ((k : ℕ) → links' k ≡ links k)
  unfolding join_all
  join_all-any_order links [] e full h1 hc d b hl = absurd (omega arith)
  join_all-any_order links (i ∷ []) e full h1 hc d b hl = absurd (omega arith)
  join_all-any_order links (i ∷ j ∷ is) e full h1 hc d b hl =
      let blank = replicate (length cs) [] in
      let slots = set blank i (get_or cs i []) in
      let first =
        Midway-step cs blank 0 i (j ∷ is) full (Midway-start cs (i ∷ j ∷ is) d b (omega arith)) in
      let links1 : Links = put_link u (entry slots 1) links in
      let (links', run, same) =
        join_all-Midway links1 slots 1 j is full h1 hc first (ground arith) in
      (
        links',
        rw (join_body-new links i h1 b.0 e, run, rounds (length is) (omega arith)) refl,
        λ k. same k ∙ restored links links1 (entry slots 1) e (λ k. refl) k,
      )
