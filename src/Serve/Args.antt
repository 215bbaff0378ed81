-- ===== src/Serve/Args.antt =====
-- The arguments of a function with several: `findCall` trusts the number that the request gives.
use gorigin.Prelude.{
  ℕ, zero, suc, ◌+◌, ◌≤◌, ◌<◌, ◌≡◌, refl, inl, inr, List, [], ◌∷◌, value, ◌%◌, ◌^◌, none, some,
  Bytes, true, length, get_elem?, panic, ltb, ltb→lt, Bool-cases, arith, ◌==◌,
}
use gorigin.Pb.{Compiler}
use gorigin.Services.{GoType, ServerFunc, Server}
use gorigin.Protocal.{ok, unmarshal_value}
use gorigin.Serve.{Codec, decode_args, find_multi}

get_elem?-beyond : (xs : List Bytes) (i : ℕ) → length xs ≤ i → get_elem? xs i ≡ none
get_elem?-beyond [] i h = refl
get_elem?-beyond (x ∷ xs) zero h = absurd (omega arith)
get_elem?-beyond (x ∷ xs) (suc i) h = get_elem?-beyond xs i (omega arith)

pub get_elem?-within :
    {A : Type 0} (xs : List A) (i : ℕ) → i < length xs → (x : A) × (get_elem? xs i ≡ some x)
get_elem?-within [] i h = absurd (omega arith)
get_elem?-within (x ∷ xs) zero h = (x, refl)
get_elem?-within (x ∷ xs) (suc i) h = get_elem?-within xs i (omega arith)

module _ {V : Type 0} (c : Codec V) where
  decode_args-short :
      (p : Compiler) (ts : List GoType) (i : ℕ) (rows : List Bytes)
      → ((t : GoType) (bts : Bytes) → (v : V) × (unmarshal_value c.libs p t bts ≡ value (ok v)))
      → length rows < i + length ts
      → i ≤ length rows
      → decode_args c p ts i rows ≡ panic
  unfolding decode_args
  decode_args-short p [] i rows d h b = absurd (omega arith)
  decode_args-short p (t ∷ ts) i rows d h b = elim (Bool-cases (ltb i (length rows))) [
    | inl within ↦
        let (bts, there) = get_elem?-within rows i (ltb→lt i (length rows) within) in
        let (v, read) = d t bts in
        let rest =
          decode_args-short p ts (suc i) rows d (omega arith) (ltb→lt i (length rows) within) in
        rw (decode_args, there, read, rest) refl
    | inr beyond ↦ rw (decode_args, get_elem?-beyond rows i (ground arith)) refl
  ]

  -- A request for a function with several arguments that gives their right number, but carries fewer
  -- of them: the node that serves it panics. Each argument that it carries can be read.
  pub find_multi-short :
      (s : Server) (f : ServerFunc) (bts : Bytes) (rows : List Bytes)
      → ((t : GoType) (row : Bytes)
          → (v : V) × (unmarshal_value c.libs s.proto t row ≡ value (ok v)))
      → c.multi_body bts ≡ ok (length f.args, rows)
      → length f.args < 2 ^ 32
      → length rows < length f.args
      → find_multi c s f bts ≡ panic
  unfolding find_multi
  find_multi-short s f bts rows d e w h =
      let same : (length f.args == length f.args % 2 ^ 32) ≡ true = ground arith in
      rw
        (find_multi, e, same, decode_args-short s.proto f.args 0 rows d (omega arith) (omega arith))
        refl
