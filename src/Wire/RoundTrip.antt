-- ===== src/Wire/RoundTrip.antt =====
-- `parse` after `make_req_body` and `make_rsp_body`.
use gorigin.Prelude.{
  ℕ, zero, suc, ◌+◌, ◌-◌, ◌*◌, ◌/◌, ◌%◌, ◌^◌, ◌<◌, ◌≤◌, ◌≡◌, refl, ap, ◌∙◌, List, [], ◌∷◌, ◌++◌,
  false, Bytes, length, take, drop, arith, sym, length-append, length-take, length-drop,
  length-replicate, value, leb, ltb, ◌==◌, lt→not_leb, le→not_ltb, ◌>>=◌,
}
use gorigin.Wire.{NetworkBuffer, IsGeometry, byte, make_bytes}
use gorigin.Wire.Encode.{
  make_req_body, chunk_frames, chunk_count, chunk_last, chunk_head, middle_frames, mark_start,
  last_frame,
}
use gorigin.Wire.Frames.{framed, short_bytes, short_bytes'}
use gorigin.Wire.Models.{hi, lo, parse-start, parse-middle, parse-final}
use mathlib.Core.List.{append_assoc}
use gorigin.Wire.Chunks.{chunks, chunk_count_bounds, length-chunks}
use gorigin.Wire.Rounds.{
  Reads, pieces, Reads-append, chunks_snoc, slice_round, drop_round, round_fits, pieces-append,
  first_slice, one_drop, last_slice,
}

module _ (n : NetworkBuffer) (g : IsGeometry n) (num fid : ℕ) (hn : num < 2 ^ 24)
    (hf : fid < 65536) where
  middle_frames-Reads :
      (bts : Bytes) (count k i : ℕ)
      → 0 < i
      → i + k < 65536
      → count < 65536
      → n.body_split * (i - 1 + k) ≤ length bts
      → Reads n
          (middle_frames n bts (chunk_head num fid count) k i)
          (pieces num fid count i (chunks n.body_split k (drop (n.body_split * (i - 1)) bts)))
  unfolding middle_frames chunk_head chunks pieces
  middle_frames-Reads bts count zero i p hi' hc h = tt
  middle_frames-Reads bts count (suc k) i p hi' hc h =
      let fits = round_fits n.body_split i k bts p h in
      let payload = take n.body_split (drop (n.body_split * (i - 1)) bts) in
      rw (slice_round n.body_split i bts p) (
        omega (arith, length-append payload (0 ∷ 1 ∷ []), fits.1, g.total),
        (parse-middle n g num fid hn hf (hi count) (lo count) (byte (i / 2 ^ 8 % 256)) (lo i)
              payload fits.1
            ∙ rw (short_bytes count hc, short_bytes' i (omega arith)) refl),
        rw (drop_round n.body_split i bts p)
            (middle_frames-Reads bts count k (i + 1) (omega arith) (omega arith) hc fits.0),
      )

  first_frame-Reads :
      (bts : Bytes) (count m : ℕ)
      → suc m < 65535
      → count < 65536
      → n.body_split * suc m ≤ length bts
      → (fs : List Bytes) × (mark_start (middle_frames n bts (chunk_head num fid count) (suc m) 1)
          ≡ value fs)
        × Reads n fs (pieces num fid count 1 (chunks n.body_split (suc m) bts))
  unfolding middle_frames chunk_head chunks pieces mark_start
  first_frame-Reads bts count m hm hc h =
      let s = n.body_split in
      let payload = take s bts in
      let size : length payload ≡ s = omega (arith, length-take s bts) in
      rw (first_slice s bts) (
        framed num fid 1 (hi count) (lo count) 0 1 payload
            ∷ middle_frames n bts (chunk_head num fid count) m 2,
        refl,
        (
          omega (arith, length-append payload (0 ∷ 1 ∷ []), size, g.total),
          (parse-start n g num fid hn hf (hi count) (lo count) 0 1 payload size
              ∙ rw (short_bytes count hc) refl),
          rw (one_drop s bts) at (
              middle_frames-Reads bts count m 2 (omega arith) (omega arith) hc
                (omega (arith, ap (λ (t : ℕ). s * t) {x = 2 - 1 + m} {y = suc m} (omega arith)))),
        ),
      )

  last_frame-Reads :
      (bts : Bytes) (count last m : ℕ)
      → count ≡ suc (suc m)
      → count < 65536
      → length bts ≡ n.body_split * suc m + last
      → last ≤ n.body_split
      → Reads n (last_frame n bts (chunk_head num fid count) count last ∷ []) (
          record {
            uuid = num;
            func = fid;
            buck = count;
            sort = count;
            content = take n.body_split (drop (n.body_split * suc m) bts);
          }
          ∷ [])
  unfolding last_frame chunk_head
  last_frame-Reads bts count last m e hc h hl =
      let s = n.body_split in
      let tail = drop (s * (count - 1)) bts in
      let at_end : take s (drop (s * suc m) bts) ≡ tail =
        last_slice s count m bts e (omega (arith, length-drop (s * suc m) bts)) in
      let size : length tail ≡ last = omega (
        arith,
        length-drop (s * (count - 1)) bts,
        ap (λ (t : ℕ). s * t) {x = count - 1} {y = suc m} (omega arith),
      ) in
      let zeros : length (make_bytes (s - last)) ≡ s - last = length-replicate (s - last) 0 in
      let full : length (tail ++ make_bytes (s - last)) ≡ s =
        omega (arith, length-append tail (make_bytes (s - last))) in
      rw (at_end, ← append_assoc)
        (
          omega (arith, length-append (tail ++ make_bytes (s - last)) (0 ∷ 1 ∷ []), g.total),
          (parse-final n g num fid hn hf (hi count) (lo count) (byte (last / 2 ^ 8 % 256)) (lo last)
                tail (make_bytes (s - last)) full
                (short_bytes' last (omega (arith, g.narrow)) ∙ sym size)
              ∙ rw (short_bytes count hc) refl),
          tt,
        )

  chunk_frames-Reads :
      (bts : Bytes) (count last m : ℕ)
      → count ≡ suc (suc m)
      → count < 65536
      → length bts ≡ n.body_split * suc m + last
      → last ≤ n.body_split
      → (fs : List Bytes) × ((mark_start
              (middle_frames n bts (chunk_head num fid count) (count - 1) 1)
            >>= λ firsts.
                value (firsts ++ (last_frame n bts (chunk_head num fid count) count last ∷ [])))
          ≡ value fs)
        × Reads n fs (pieces num fid count 1 (chunks n.body_split count bts))
  chunk_frames-Reads bts count last m e hc h hl =
      let (fs, made, reads) = first_frame-Reads bts count m (omega arith) hc (omega arith) in
      let rounds : count - 1 ≡ suc m = omega arith in
      let split_up : chunks n.body_split count bts
          ≡ chunks n.body_split (suc m) bts
            ++ (take n.body_split (drop (n.body_split * suc m) bts) ∷ []) =
        ap (λ t. chunks n.body_split t bts) e ∙ chunks_snoc n.body_split (suc m) bts in
      let at_end : 1 + length (chunks n.body_split (suc m) bts) ≡ count =
        omega (arith, length-chunks n.body_split (suc m) bts) in
      (
        fs ++ (last_frame n bts (chunk_head num fid count) count last ∷ []),
        rw (rounds, made) refl,
        rw (split_up, pieces-append num fid count 1 (chunks n.body_split (suc m) bts), at_end)
            (Reads-append n fs _ (pieces num fid count 1 (chunks n.body_split (suc m) bts)) _ reads
              (last_frame-Reads bts count last m e hc h hl)),
      )

  -- A body longer than one frame is cut into `chunk_count` frames of the buffer's length. `parse`
  -- reads them back as its chunks, each with the number of the request, the function, the number of
  -- chunks and its place, provided that these numbers fit their bytes.
  pub parse-make_req_body :
      (bts : Bytes)
      → n.body_split < length bts
      → chunk_count (length bts) n.body_split < 65536
      → (fs : List Bytes) × (make_req_body n bts num fid ≡ value fs)
        × Reads n fs (
            pieces num fid
              (chunk_count (length bts) n.body_split)
              1
              (chunks n.body_split (chunk_count (length bts) n.body_split) bts))
  unfolding make_req_body chunk_frames
  parse-make_req_body bts h hc =
      let len = length bts in
      let split = n.body_split in
      let cut = chunk_count_bounds len split (omega (arith, g.wide)) h in
      let two : chunk_count len split ≡ suc (suc (chunk_count len split - 2)) = omega arith in
      let rounds : chunk_count len split - 1 ≡ suc (chunk_count len split - 2) = omega arith in
      let sum : len ≡ split * suc (chunk_count len split - 2) + chunk_last len split =
        rw rounds at cut.1 in
      let (fs, made, reads) =
        chunk_frames-Reads bts (chunk_count len split) (chunk_last len split)
          (chunk_count len split - 2) two hc sum cut.3 in
      let t1 : (len == 0) ≡ false = ground arith in
      let t2 : leb len split ≡ false = lt→not_leb len split h in
      let t3 : (split == 0) ≡ false = ground (arith, g.wide) in
      let t4 : ltb n.total_size 10 ≡ false =
        le→not_ltb n.total_size 10 (omega (arith, g.wide, g.total)) in
      (fs, rw (t1, t2, t3, t4) made, reads)
