-- ===== src/Examples/Sockets.antt =====
-- A socket that holds bytes and gives a hundred of them at most, whatever the buffer takes.
use gorigin.Prelude.{
  ℕ, ◌<◌, ◌≡◌, refl, sym, ap, ◌∙◌, List, [], ◌∷◌, ◌++◌, Option, none, some, Bytes, length,
  replicate, All, arith, value, take, drop, length-take, take-append-drop,
}
use Prim.Native.Nat.{min}
use mathlib.Core.List.{flatten}
use gorigin.Wire.{udpsplit, udpsplit-IsGeometry}
use gorigin.Wire.Encode.{make_req_body}
use gorigin.Conn.{Links, nothing}
use gorigin.Conn.Transfer.{receive, arrive, receive-make_req_body}
use gorigin.Streams.{closed, read_frames}
use gorigin.Streams.Cut.{IsStream, Lasts, read_frames-prefix, read_frames-whole}
use gorigin.Streams.Bodies.{receive-read_frames}
use gorigin.Examples.Transfers.{long_body, no_links, udp_splits, udp_three}

abbrev read : ℕ → Bytes → Option (Bytes × Bytes)
read k [] = none
read k (x ∷ s) = some (take (min k 100) (x ∷ s), drop (min k 100) (x ∷ s))

gives :
    (k : ℕ) (s s' bts : Bytes)
    → read k s ≡ some (bts, s')
    → (s ≡ bts ++ s') × (bts ≡ take (min k 100) s) × (0 < length s)
gives k [] s' bts e = absurd (cc)
gives k (x ∷ s) s' bts e =
    let first : take (min k 100) (x ∷ s) ≡ bts = ap (λ o. elim o [ none ↦ bts | some r ↦ r.0 ]) e in
    let behind : drop (min k 100) (x ∷ s) ≡ s' = ap (λ o. elim o [ none ↦ s' | some r ↦ r.1 ]) e in
    (
      sym (take-append-drop (min k 100) (x ∷ s))
          ∙ ap (λ c. c ++ drop (min k 100) (x ∷ s)) first
          ∙ ap (λ c. bts ++ c) behind,
      sym first,
      omega arith,
    )

abbrev socket : IsStream read
socket = record {
  contents = λ s. s;
  gives = λ k s s' bts e. (gives k s s' bts e).0;
  fits = λ k s s' bts e.
      omega (arith, ap (λ c. length c) (gives k s s' bts e).1, length-take (min k 100) s);
  moves = λ k s s' bts e pos. omega (
    arith,
    ap (λ c. length c) (gives k s s' bts e).1,
    length-take (min k 100) s,
    (gives k s s' bts e).2,
  );
}

socket-Lasts : Lasts read socket
socket-Lasts k [] h = absurd (omega arith)
socket-Lasts k (x ∷ s) h = (take (min k 100) (x ∷ s), drop (min k 100) (x ∷ s), refl)

read_frames-prefix_example :
    (rest : Bytes) × (replicate 9 7 ≡ flatten (read_frames read 4 10 (replicate 9 7)).0 ++ rest)
    × All (λ f. length f ≡ 4) (read_frames read 4 10 (replicate 9 7)).0
    × ((read_frames read 4 10 (replicate 9 7)).1 ≡ closed)
read_frames-prefix_example =
    read_frames-prefix read socket 4 10 (replicate 9 7) (omega arith) (omega arith)

read_frames-whole_example :
    read_frames read 2 3 (1 ∷ 2 ∷ 3 ∷ 4 ∷ 5 ∷ []) ≡ ((1 ∷ 2 ∷ []) ∷ (3 ∷ 4 ∷ []) ∷ [], closed)
unfolding flatten
read_frames-whole_example =
    read_frames-whole read socket 2 3 (1 ∷ 2 ∷ 3 ∷ 4 ∷ 5 ∷ []) ((1 ∷ 2 ∷ []) ∷ (3 ∷ 4 ∷ []) ∷ [])
      (5 ∷ []) socket-Lasts (omega arith) (refl, (refl, tt)) refl (omega arith) (omega arith)

-- The frames of 1500 bytes, in the order of the codec's own choice.
frames : (fs : List Bytes) × (make_req_body udpsplit long_body 9 7 ≡ value fs)
frames =
    let (fs, links', made, run, kept) =
      receive-make_req_body udpsplit udpsplit-IsGeometry 9 7 long_body no_links (2 ∷ 0 ∷ 1 ∷ [])
        (omega arith) (omega arith) udp_splits (rw udp_three (omega arith)) refl (omega arith)
        (rw udp_three (omega arith)) (rw udp_three refl) in
    (fs, made)

abbrev wire : Bytes
wire = flatten (arrive frames.0 (2 ∷ 0 ∷ 1 ∷ []))

receive-read_frames_example :
    (links' : Links) × (receive udpsplit no_links (read_frames read udpsplit.total_size 4 wire).0
      ≡ value (
        links',
        replicate 2 nothing ++ (record { uuid = 9; func = 7; body = long_body; fail = none } ∷ []),
      ))
    × ((k : ℕ) → links' k ≡ no_links k)
    × ((read_frames read udpsplit.total_size 4 wire).1 ≡ closed)
receive-read_frames_example =
    receive-read_frames read socket udpsplit udpsplit-IsGeometry 9 7 long_body no_links
      (2 ∷ 0 ∷ 1 ∷ []) frames.0 4 wire socket-Lasts (omega arith) (omega arith) udp_splits
      (rw udp_three (omega arith)) refl (omega arith) (rw udp_three (omega arith))
      (rw udp_three refl) frames.1 refl (omega arith)
