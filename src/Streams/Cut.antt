-- ===== src/Streams/Cut.antt =====
-- The bytes of a TCP connection come in pieces of any size; the reader cuts them into frames again.
use gorigin.Prelude.{
  ℕ, zero, suc, ◌+◌, ◌-◌, ◌≤◌, ◌<◌, ◌≡◌, refl, sym, ap, subst, ◌∙◌, inl, inr, List, [], ◌∷◌, ◌++◌,
  Option, none, some, Bytes, length, length-append, ltb, All, arith, Bool-cases, Option-cases,
  lt→ltb, ltb→lt, le→not_ltb, head-injective, tail-injective,
}
use mathlib.Core.List.{flatten, append_assoc, append-nil}
use mathlib.Core.Path.{ap₂}
use gorigin.Streams.{Fill, filled, broken, End, closed, fill, read_frame, read_frames}

-- What a read of a socket promises: at most as many bytes as the buffer takes and, if the buffer
-- takes any, one at least, which are the next of those that are still to come.
pub record IsStream {S : Type 0} (read : ℕ → S → Option (Bytes × S)) : Type 0 where
  pub contents : S → Bytes
  pub gives :
      (k : ℕ) (s s' : S) (bts : Bytes) → read k s ≡ some (bts, s') → contents s ≡ bts ++ contents s'
  pub fits : (k : ℕ) (s s' : S) (bts : Bytes) → read k s ≡ some (bts, s') → length bts ≤ k
  pub moves : (k : ℕ) (s s' : S) (bts : Bytes) → read k s ≡ some (bts, s') → 0 < k → 0 < length bts

-- A socket that does not fail while bytes are to come.
abbrev pub Lasts : {S : Type 0} (read : ℕ → S → Option (Bytes × S)) → IsStream read → Type 0
Lasts {S} read stream =
    (k : ℕ) (s : S)
    → 0 < length (stream.contents s)
    → (bts : Bytes) × (s' : S) × (read k s ≡ some (bts, s'))

-- A text with two beginnings: the longer begins with the shorter.
split_lem :
    (b c m r : Bytes)
    → b ++ c ≡ m ++ r
    → length b ≤ length m
    → (m' : Bytes) × (m ≡ b ++ m') × (c ≡ m' ++ r)
split_lem [] c m r e h = (m, refl, e)
split_lem (x ∷ b) c [] r e h = absurd (omega arith)
split_lem (x ∷ b) c (y ∷ m) r e h =
    let (m', e1, e2) = split_lem b c m r (tail-injective x y (b ++ c) (m ++ r) e) (omega arith) in
    let same : y ≡ x = sym (head-injective x y (b ++ c) (m ++ r) e) in
    (m', ap₂ (λ z zs. z ∷ zs) same e1, e2)

nil_lem : (m : Bytes) → length m ≡ 0 → m ≡ []
nil_lem [] h = refl
nil_lem (x ∷ m) h = absurd (omega arith)

module _ {S : Type 0} (read : ℕ → S → Option (Bytes × S)) (stream : IsStream read) where
  fill-full :
      (total fuel : ℕ) (got : Bytes) (s : S)
      → total ≤ length got
      → fill read total fuel got s ≡ filled got s
  unfolding fill
  fill-full total zero got s h = rw (le→not_ltb _ _ h) refl
  fill-full total (suc fuel) got s h = rw (le→not_ltb _ _ h) refl

  fill-more :
      (total fuel : ℕ) (got bts : Bytes) (s s' : S)
      → length got < total
      → read (total - length got) s ≡ some (bts, s')
      → fill read total (suc fuel) got s ≡ fill read total fuel (got ++ bts) s'
  unfolding fill
  fill-more total fuel got bts s s' h e = rw (lt→ltb _ _ h, e) refl

  fill-broken :
      (total fuel : ℕ) (got : Bytes) (s : S)
      → length got < total
      → read (total - length got) s ≡ none
      → fill read total (suc fuel) got s ≡ broken
  unfolding fill
  fill-broken total fuel got s h e = rw (lt→ltb _ _ h, e) refl

  -- What filling a buffer comes to: an error, or the next bytes, as many as there is room for.
  data Filling (total : ℕ) (got : Bytes) (s : S) : Fill S → Type 0 where
    fails_then :
        (k : ℕ) (g : Bytes) (s' : S)
        → got ++ stream.contents s ≡ g ++ stream.contents s'
        → length g < total
        → read k s' ≡ none
        → Filling total got s broken
    fills :
        (f : Bytes) (s' : S)
        → got ++ stream.contents s ≡ f ++ stream.contents s'
        → length f ≡ total
        → Filling total got s (filled f s')

  fill-Filling :
      (total fuel : ℕ) (got : Bytes) (s : S)
      → length got ≤ total
      → total ≤ length got + fuel
      → Filling total got s (fill read total fuel got s)
  fill-Filling total zero got s h e =
      subst (Filling total got s) (sym (fill-full total 0 got s (omega arith)))
        (fills got s refl (omega arith))
  fill-Filling total (suc fuel) got s h e = elim (Bool-cases (ltb (length got) total)) [
    | inr full ↦
        subst (Filling total got s) (sym (fill-full total (suc fuel) got s (ground arith)))
          (fills got s refl (ground arith))
    | inl more ↦ elim (Option-cases (read (total - length got) s)) [
      | inl none' ↦
          subst (Filling total got s) (sym (fill-broken total fuel got s (ltb→lt _ _ more) none'))
            (fails_then (total - length got) got s refl (ltb→lt _ _ more) none')
      | inr ((bts, s'), some') ↦
          let below = ltb→lt _ _ more in
          let room = stream.fits _ s s' bts some' in
          let some_byte = stream.moves _ s s' bts some' (omega arith) in
          let size = length-append got bts in
          subst (Filling total got s) (sym (fill-more total fuel got bts s s' below some')) (
            onward got bts s s' (fill read total fuel (got ++ bts) s')
              (stream.gives _ s s' bts some')
              (fill-Filling total fuel (got ++ bts) s' (omega arith) (omega arith)))
    ]
  ]
    where
      onward :
          (got bts : Bytes) (s s' : S) (r : Fill S)
          → stream.contents s ≡ bts ++ stream.contents s'
          → Filling total (got ++ bts) s' r
          → Filling total got s r
      onward got bts s s' _ e (fails_then k g s'' e' l n) =
          fails_then k g s''
            (ap (λ c. got ++ c) e ∙ sym (append_assoc got bts (stream.contents s')) ∙ e') l n
      onward got bts s s' _ e (fills f s'' e' l) =
          fills f s'' (ap (λ c. got ++ c) e ∙ sym (append_assoc got bts (stream.contents s')) ∙ e')
            l

  read_frame-Filling :
      (total : ℕ) (s : S) → 0 < total → Filling total [] s (read_frame read total s)
  unfolding read_frame
  read_frame-Filling total s pos = elim (Option-cases (read total s)) [
    | inl none' ↦
        subst (Filling total [] s) (sym (rw (read_frame, none') refl))
          (fails_then total [] s refl pos none')
    | inr ((bts, s'), some') ↦
        let room = stream.fits total s s' bts some' in
        subst (Filling total [] s) (sym (rw (read_frame, some') refl)) (
          whole bts s s' (fill read total total bts s') (stream.gives total s s' bts some')
            (fill-Filling total total bts s' room (omega arith)))
  ]
    where
      whole :
          (bts : Bytes) (s s' : S) (r : Fill S)
          → stream.contents s ≡ bts ++ stream.contents s'
          → Filling total bts s' r
          → Filling total [] s r
      whole bts s s' _ e (fails_then k g s'' e' l n) = fails_then k g s'' (e ∙ e') l n
      whole bts s s' _ e (fills f s'' e' l) = fills f s'' (e ∙ e') l

  read_frames-end :
      (total fuel : ℕ) (s : S)
      → read_frame read total s ≡ broken
      → read_frames read total (suc fuel) s ≡ ([], closed)
  unfolding read_frames
  read_frames-end total fuel s e = rw (read_frames, e) refl

  read_frames-more :
      (total fuel : ℕ) (f : Bytes) (s s' : S)
      → read_frame read total s ≡ filled f s'
      → read_frames read total (suc fuel) s
        ≡ (f ∷ (read_frames read total fuel s').0, (read_frames read total fuel s').1)
  unfolding read_frames
  read_frames-more total fuel f s s' e = rw (read_frames, e) refl

  -- The frames are the beginning of the bytes of the connection, in pieces of the size of a frame, and
  -- the loop ends with the socket.
  abbrev pub IsCut : ℕ → S → List Bytes × End → Type 0
  IsCut total s r =
      (rest : Bytes) × (stream.contents s ≡ flatten r.0 ++ rest)
      × All (λ f. length f ≡ total) r.0
      × (r.1 ≡ closed)

  -- A socket may fail at any time. The frames that the reader hands on are the beginning of the bytes
  -- of the connection, cut into pieces of the size of a frame, and the loop ends with the socket: one
  -- round for each byte, and one more, are enough.
  pub read_frames-prefix :
      (total fuel : ℕ) (s : S)
      → 0 < total
      → length (stream.contents s) < fuel
      → IsCut total s (read_frames read total fuel s)
  unfolding flatten
  read_frames-prefix total zero s pos enough = absurd (omega arith)
  read_frames-prefix total (suc fuel) s pos enough =
      go (λ s'. read_frames-prefix total fuel s' pos) (read_frame read total s) refl
        (read_frame-Filling total s pos)
    where
      go :
          ((s' : S)
            → length (stream.contents s') < fuel
            → IsCut total s' (read_frames read total fuel s'))
          → (r : Fill S) → read_frame read total s ≡ r
          → Filling total [] s r
          → IsCut total s (read_frames read total (suc fuel) s)
      go later _ e (fails_then k g s' e' l n) =
          subst (IsCut total s) (sym (read_frames-end total fuel s e))
            (stream.contents s, refl, tt, refl)
      go later _ e (fills f s' e' l) =
          let size = length-append f (stream.contents s') in
          let shorter : length (stream.contents s') < fuel = omega (arith, ap (λ c. length c) e') in
          let (rest, cut, sizes, ends) = later s' shorter in
          subst (IsCut total s) (sym (read_frames-more total fuel f s s' e))
            (rest, e' ∙ ap (λ c. f ++ c) cut ∙ sym (append_assoc f _ rest), (l, sizes), ends)

  -- While bytes are to come the socket gives them: a frame that is there is read.
  read_frame-Lasts :
      (total : ℕ) (s : S) (f more : Bytes)
      → Lasts read stream
      → 0 < total
      → stream.contents s ≡ f ++ more
      → length f ≡ total
      → (s' : S) × (read_frame read total s ≡ filled f s') × (stream.contents s' ≡ more)
  read_frame-Lasts total s f more lasts pos is size =
      go (read_frame read total s) (read_frame-Filling total s pos)
    where
      go :
          (r : Fill S)
          → Filling total [] s r
          → (s' : S) × (r ≡ filled f s') × (stream.contents s' ≡ more)
      go _ (fails_then k g s' e l n) =
          let lens = length-append g (stream.contents s') in
          let lens' = length-append f more in
          let (bts, s'', gives) =
            lasts k s' (omega (arith, ap (λ c. length c) e, ap (λ c. length c) is)) in
          absurd (ground (arith, n, gives))
      go _ (fills g s' e l) =
          let (m, e1, e2) = split_lem g (stream.contents s') f more (sym e ∙ is) (omega arith) in
          let lens = length-append g m in
          let empty : m ≡ [] = nil_lem m (omega (arith, ap (λ c. length c) e1)) in
          let same : g ≡ f = sym (e1 ∙ ap (λ c. g ++ c) empty ∙ append-nil g) in
          (s', ap (λ c. filled c s') same, e2 ∙ ap (λ c. c ++ more) empty)

  -- However the connection cuts the bytes of the frames that are sent, the reader hands on the frames,
  -- one by one, and waits for more until the socket ends: if no byte is lost, and what is left behind
  -- the frames is shorter than a frame.
  pub read_frames-whole :
      (total fuel : ℕ) (s : S) (fs : List Bytes) (rest : Bytes)
      → Lasts read stream
      → 0 < total
      → All (λ f. length f ≡ total) fs
      → stream.contents s ≡ flatten fs ++ rest
      → length rest < total
      → length fs < fuel
      → read_frames read total fuel s ≡ (fs, closed)
  unfolding flatten
  read_frames-whole total zero s fs rest lasts pos sizes is few enough = absurd (omega arith)
  read_frames-whole total (suc fuel) s [] rest lasts pos sizes is few enough =
      go (read_frame read total s) refl (read_frame-Filling total s pos)
    where
      go :
          (r : Fill S)
          → read_frame read total s ≡ r
          → Filling total [] s r
          → read_frames read total (suc fuel) s ≡ ([], closed)
      go _ e (fails_then k g s' e' l n) = read_frames-end total fuel s e
      go _ e (fills f s' e' l) =
          let lens = length-append f (stream.contents s') in
          absurd (omega (arith, ap (λ c. length c) e', ap (λ c. length c) is))
  read_frames-whole total (suc fuel) s (f ∷ fs) rest lasts pos (size, sizes) is few enough =
      let (s', reads, left) =
        read_frame-Lasts total s f (flatten fs ++ rest) lasts pos (is ∙ append_assoc f _ rest)
          size in
      let later = read_frames-whole total fuel s' fs rest lasts pos sizes left few (omega arith) in
      read_frames-more total fuel f s s' reads ∙ ap (λ r. (f ∷ r.0, r.1)) later
