-- ===== src/Wire/Single.antt =====
-- The answers of one frame: empty bodies, bodies that fit one frame, and failures.
use gorigin.Prelude.{
  ℕ, zero, suc, ◌+◌, ◌-◌, ◌*◌, ◌^◌, ◌<◌, ◌≤◌, ◌≡◌, refl, ap, ◌∙◌, [], ◌∷◌, ◌++◌, some, false, Bytes,
  length, take, set, replicate, arith, sym, length-append, length-take, length-replicate, take_all,
  value, inl, inr, Bool-cases, ltb, ◌==◌, le→leb, if◌then◌else◌,
}
use mathlib.Core.List.{append_assoc}
use gorigin.Wire.{NetworkBuffer, IsGeometry, make_bytes, copy_into, buff_prefix}
use gorigin.Wire.Encode.{make_req_body, make_rsp_body, empty_frame, whole_frame, failed_frame, pad}
use gorigin.Wire.Parse.{parse, accepted, remote}
use gorigin.Wire.Frames.{framed, short_bytes}
use gorigin.Wire.Models.{hi, lo, parse-whole, parse-failed, parse-nil}

set_last :
    (k : ℕ) → set {A = ℕ} (replicate (suc (suc k)) 0) (suc k) 1 ≡ replicate k 0 ++ (0 ∷ 1 ∷ [])
set_last zero = refl
set_last (suc k) = ap (◌∷◌ 0) (set_last k)

pad-fits : (total used : ℕ) → used ≤ total → pad total used ≡ value (make_bytes (total - used))
unfolding pad
pad-fits total used h = rw (le→leb used total h) refl

length-padded : (k : ℕ) (xs : Bytes) → length xs ≤ k → length (xs ++ make_bytes (k - length xs)) ≡ k
length-padded k xs h = omega (
  arith,
  length-append xs (make_bytes (k - length xs)),
  length-replicate {0} {A = ℕ} (k - length xs) 0,
)

marked :
    (t k : ℕ) (head : Bytes)
    → t ≡ k + 14
    → set (copy_into (make_bytes t) head) (t - 1) 1
      ≡ set
          (copy_into
            (make_bytes
              (suc (suc (suc (suc (suc (suc (suc (suc (suc (suc (suc (suc (suc (suc k)))))))))))))))
            head)
          (suc (suc (suc (suc (suc (suc (suc (suc (suc (suc (suc (suc (suc k)))))))))))))
          1
marked t k head e =
    let e1 : t - 1 ≡ suc (suc (suc (suc (suc (suc (suc (suc (suc (suc (suc (suc (suc k)))))))))))) =
      omega arith in
    let e2 : t
        ≡ suc (suc (suc (suc (suc (suc (suc (suc (suc (suc (suc (suc (suc (suc k))))))))))))) =
      omega arith in
    rw (e1, e2) refl

-- The bytes of an empty body's frame that are not header or trailer are 0.
empty_frame-framed :
    (n : NetworkBuffer) (g : IsGeometry n) (num fid : ℕ)
    → empty_frame n num fid ≡ value (framed num fid 4 0 0 0 0 (make_bytes n.body_split) ∷ [])
unfolding empty_frame
empty_frame-framed n g num fid =
    rw
      (
        (let e : (n.total_size == 0) ≡ false = ground (arith, g.total) in e),
        marked n.total_size n.body_split _ g.total,
        set_last n.body_split,
      )
      refl

module _ (n : NetworkBuffer) (g : IsGeometry n) (num fid : ℕ) (hn : num < 2 ^ 24)
    (hf : fid < 65536) where
  short_length :
      (xs : Bytes) → length xs ≤ n.body_split → hi (length xs) * 2 ^ 8 + lo (length xs) ≡ length xs
  short_length xs h = short_bytes (length xs) (omega (arith, g.narrow))

  whole_frame-framed :
      (xs : Bytes)
      → length xs ≤ n.body_split
      → whole_frame n xs num fid
        ≡ value (
            framed num fid 0
              (hi 1)
              (lo 1)
              (hi (length xs))
              (lo (length xs))
              (xs ++ make_bytes (n.body_split - length xs))
            ∷ [])
  unfolding whole_frame buff_prefix
  whole_frame-framed xs h =
      let gap : n.total_size - (12 + length xs + 2) ≡ n.body_split - length xs =
        omega (arith, g.total) in
      rw (pad-fits n.total_size (12 + length xs + 2) (omega (arith, g.total)), gap, ← append_assoc)
        refl

  -- A body that fits one frame is sent as one frame of the buffer's length, which `parse` reads back
  -- as that body; the empty body too.
  pub parse-make_req_body_short :
      (bts : Bytes)
      → length bts ≤ n.body_split
      → (f : Bytes) × (make_req_body n bts num fid ≡ value (f ∷ []))
        × (length f ≡ n.total_size)
        × (parse n f
            ≡ accepted (record { uuid = num; func = fid; buck = 1; sort = 1; content = bts }))
  unfolding make_req_body
  parse-make_req_body_short [] h =
      let zeros = make_bytes n.body_split in
      let size : length zeros ≡ n.body_split = length-replicate n.body_split 0 in
      (
        framed num fid 4 0 0 0 0 zeros,
        empty_frame-framed n g num fid,
        omega (arith, length-append zeros (0 ∷ 1 ∷ []), g.total),
        parse-nil n g num fid hn hf 0 0 0 0 zeros size,
      )
  parse-make_req_body_short (x ∷ xs) h =
      let bts = x ∷ xs in
      let padded = bts ++ make_bytes (n.body_split - length bts) in
      let size : length padded ≡ n.body_split = length-padded n.body_split bts h in
      let some_body : (length bts == 0) ≡ false = ground arith in
      (
        framed num fid 0 (hi 1) (lo 1) (hi (length bts)) (lo (length bts)) padded,
        rw (some_body, le→leb (length bts) n.body_split h) (whole_frame-framed bts h),
        omega (arith, length-append padded (0 ∷ 1 ∷ []), g.total),
        parse-whole n g num fid hn hf (hi 1) (lo 1) (hi (length bts)) (lo (length bts)) bts
            (make_bytes (n.body_split - length bts)) size (short_length bts h),
      )

  failed_frame-framed :
      (xs : Bytes) (model : ℕ)
      → length xs ≤ n.body_split
      → failed_frame n xs num fid model
        ≡ value (
            framed num fid model
              (hi 1)
              (lo 1)
              (hi (length xs))
              (lo (length xs))
              (xs ++ make_bytes (n.body_split - length xs))
            ∷ [])
  unfolding failed_frame buff_prefix
  failed_frame-framed xs model h =
      rw
        (
          pad-fits n.body_split (length xs) h,
          append_assoc xs (make_bytes (n.body_split - length xs)) (0 ∷ 1 ∷ []),
        )
        refl

  message-fits :
      (msg : Bytes)
      → (let cut = if ltb n.body_split (length msg) then take n.body_split msg else msg in
          (length cut ≤ n.body_split) × (cut ≡ take n.body_split msg))
  message-fits msg = elim (Bool-cases (ltb n.body_split (length msg))) [
    | inl e ↦ rw e (omega (arith, length-take n.body_split msg), refl)
    | inr e ↦
        let h : length msg ≤ n.body_split = ground arith in
        rw e (h, sym (take_all n.body_split msg h))
  ]

  -- A failure is answered by one frame of the buffer's length, which `parse` reads back as an error
  -- with the failure's message, cut to the frame's body.
  pub parse-make_rsp_body_failed :
      (bts msg : Bytes)
      → (f : Bytes) × (make_rsp_body n bts num fid (some msg) ≡ value (f ∷ []))
        × (length f ≡ n.total_size)
        × (parse n f
            ≡ value (record {
              joined = some (record { uuid = num; func = fid; buck = 1; sort = 1; content = [] });
              fail = some (remote (take n.body_split msg));
            }))
  unfolding make_rsp_body
  parse-make_rsp_body_failed bts msg =
      let cut = if ltb n.body_split (length msg) then take n.body_split msg else msg in
      let (fits, same) = message-fits msg in
      let padded = cut ++ make_bytes (n.body_split - length cut) in
      let size : length padded ≡ n.body_split = length-padded n.body_split cut fits in
      (
        framed num fid 12 (hi 1) (lo 1) (hi (length cut)) (lo (length cut)) padded,
        failed_frame-framed cut 12 fits,
        omega (arith, length-append padded (0 ∷ 1 ∷ []), g.total),
        parse-failed n g num fid hn hf (hi 1) (lo 1) (hi (length cut)) (lo (length cut)) cut
              (make_bytes (n.body_split - length cut)) size (short_length cut fits)
            ∙ ap
                (λ t. value (record {
                  joined =
                      some (record { uuid = num; func = fid; buck = 1; sort = 1; content = [] });
                  fail = some (remote t);
                }))
                same,
      )
