-- ===== src/Wire/Models.antt =====
-- What `parse` makes of each kind of frame, body and lengths included.
use gorigin.Prelude.{
  ℕ, ◌+◌, ◌-◌, ◌*◌, ◌/◌, ◌%◌, ◌^◌, ◌<◌, ◌≡◌, refl, [], ◌∷◌, ◌++◌, some, true, Bytes, length, take,
  leb, le→leb, arith, length-append, take-append_exact, value, sub_slice,
}
use gorigin.Wire.{NetworkBuffer, IsGeometry, byte}
use gorigin.Wire.Parse.{short_at, parse, parse_model, accepted, remote}
use gorigin.Wire.Frames.{framed, parse-framed}
use mathlib.Core.List.{append_assoc, append-nil}

abbrev pub hi : ℕ → ℕ
hi x = byte (x / 256)

abbrev pub lo : ℕ → ℕ
lo x = byte (x % 256)

sub_slice-framed :
    (num fid t a b c d k s e : ℕ) (xs ys : Bytes)
    → length xs ≡ k
    → s ≡ 12
    → e ≡ k + 12
    → sub_slice (framed num fid t a b c d (xs ++ ys)) s e ≡ value xs
sub_slice-framed num fid t a b c d k s e xs ys hk hs he =
    let f = framed num fid t a b c d (xs ++ ys) in
    let e1 : leb 12 e ≡ true = le→leb 12 e (omega arith) in
    let e2 : leb e (length f) ≡ true =
      le→leb e (length f)
        (omega (arith, length-append (xs ++ ys) (0 ∷ 1 ∷ []), length-append xs ys)) in
    let e3 : take (e - 12) ((xs ++ ys) ++ (0 ∷ 1 ∷ [])) ≡ xs =
      rw append_assoc (take-append_exact (e - 12) xs (ys ++ (0 ∷ 1 ∷ [])) (omega arith)) in
    rw (hs, e1, e2, e3) refl

sub_slice-framed_full :
    (num fid t a b c d s e : ℕ) (xs : Bytes)
    → s ≡ 12
    → e ≡ length xs + 12
    → sub_slice (framed num fid t a b c d xs) s e ≡ value xs
sub_slice-framed_full num fid t a b c d s e xs hs he =
    rw (append-nil xs) at (sub_slice-framed num fid t a b c d (length xs) s e xs [] refl hs he)

module _ (n : NetworkBuffer) (g : IsGeometry n) (num fid : ℕ) (hn : num < 2 ^ 24)
    (hf : fid < 65536) where
  pub parse-whole :
      (a b c d : ℕ) (xs ys : Bytes)
      → length (xs ++ ys) ≡ n.body_split
      → c * 2 ^ 8 + d ≡ length xs
      → parse n (framed num fid 0 a b c d (xs ++ ys))
        ≡ accepted (record { uuid = num; func = fid; buck = 1; sort = 1; content = xs })
  unfolding parse_model short_at
  parse-whole a b c d xs ys h k = rw (parse-framed n g num fid 0 a b c d (xs ++ ys) hn hf h) (
      rw
        (sub_slice-framed num fid 0 a b c d (length xs) n.body_start
          (n.body_start + (c * 2 ^ 8 + d)) xs ys refl g.start (omega (arith, g.start)))
        refl)

  pub parse-failed :
      (a b c d : ℕ) (xs ys : Bytes)
      → length (xs ++ ys) ≡ n.body_split
      → c * 2 ^ 8 + d ≡ length xs
      → parse n (framed num fid 12 a b c d (xs ++ ys))
        ≡ value (record {
          joined = some (record { uuid = num; func = fid; buck = 1; sort = 1; content = [] });
          fail = some (remote xs);
        })
  unfolding parse_model short_at
  parse-failed a b c d xs ys h k = rw (parse-framed n g num fid 12 a b c d (xs ++ ys) hn hf h) (
      rw
        (sub_slice-framed num fid 12 a b c d (length xs) n.body_start
          (n.body_start + (c * 2 ^ 8 + d)) xs ys refl g.start (omega (arith, g.start)))
        refl)

  pub parse-start :
      (a b c d : ℕ) (xs : Bytes)
      → length xs ≡ n.body_split
      → parse n (framed num fid 1 a b c d xs)
        ≡ accepted (record { uuid = num; func = fid; buck = a * 2 ^ 8 + b; sort = 1; content = xs })
  unfolding parse_model short_at
  parse-start a b c d xs h = rw (parse-framed n g num fid 1 a b c d xs hn hf h) (
      rw
        (sub_slice-framed_full num fid 1 a b c d n.body_start n.final_byte xs g.start
          (omega (arith, g.final)))
        refl)

  pub parse-middle :
      (a b c d : ℕ) (xs : Bytes)
      → length xs ≡ n.body_split
      → parse n (framed num fid 2 a b c d xs)
        ≡ accepted (record {
          uuid = num;
          func = fid;
          buck = a * 2 ^ 8 + b;
          sort = c * 2 ^ 8 + d;
          content = xs;
        })
  unfolding parse_model short_at
  parse-middle a b c d xs h = rw (parse-framed n g num fid 2 a b c d xs hn hf h) (
      rw
        (sub_slice-framed_full num fid 2 a b c d n.body_start n.final_byte xs g.start
          (omega (arith, g.final)))
        refl)

  pub parse-final :
      (a b c d : ℕ) (xs ys : Bytes)
      → length (xs ++ ys) ≡ n.body_split
      → c * 2 ^ 8 + d ≡ length xs
      → parse n (framed num fid 3 a b c d (xs ++ ys))
        ≡ accepted (record {
          uuid = num;
          func = fid;
          buck = a * 2 ^ 8 + b;
          sort = a * 2 ^ 8 + b;
          content = xs;
        })
  unfolding parse_model short_at
  parse-final a b c d xs ys h k = rw (parse-framed n g num fid 3 a b c d (xs ++ ys) hn hf h) (
      rw
        (sub_slice-framed num fid 3 a b c d (length xs) n.body_start
          (n.body_start + (c * 2 ^ 8 + d)) xs ys refl g.start (omega (arith, g.start)))
        refl)

  pub parse-nil :
      (a b c d : ℕ) (xs : Bytes)
      → length xs ≡ n.body_split
      → parse n (framed num fid 4 a b c d xs)
        ≡ accepted (record { uuid = num; func = fid; buck = 1; sort = 1; content = [] })
  unfolding parse_model
  parse-nil a b c d xs h = rw (parse-framed n g num fid 4 a b c d xs hn hf h) refl
