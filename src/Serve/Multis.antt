-- ===== src/Serve/Multis.antt =====
-- A request with several arguments, from `remoteMulti` to `findCall`.
use gorigin.Prelude.{
  ℕ, suc, ◌+◌, ◌%◌, ◌^◌, ◌<◌, ◌≡◌, refl, sym, ap, ◌∙◌, inl, inr, List, [], ◌∷◌, ◌++◌, some, Bytes,
  length, get_elem?, value, arith, length-append, ◌==◌, true,
}
use gorigin.Pb.{Compiler}
use gorigin.Services.{GoType, ServerFunc, Server}
use gorigin.Protocal.{Result-cases, ok, Libs, marshal_value, unmarshal_value}
use gorigin.Calls.Multi.{count_of, all_but_last, multi_rows}
use gorigin.Serve.{Codec, decode_args, find_multi, value_multi}

-- The rows of a request are decoded, each by the type of its argument, to these values.
abbrev pub Decodes : {V : Type 0} → Libs V → Compiler → List GoType → List Bytes → List V → Type 0
Decodes l p [] [] [] = Unit
Decodes l p (t ∷ ts) (row ∷ rows) (v ∷ vs) =
    (unmarshal_value l p t row ≡ value (ok v)) × Decodes l p ts rows vs
Decodes l p [] [] (v ∷ vs) = ⊥
Decodes l p [] (row ∷ rows) vs = ⊥
Decodes l p (t ∷ ts) [] vs = ⊥
Decodes l p (t ∷ ts) (row ∷ rows) [] = ⊥

-- The rows from number `i` on are those of the arguments that are left.
decode_args-rows :
    {V : Type 0} (c : Codec V) (p : Compiler) (ts : List GoType) (vs : List V) (i : ℕ)
    (rows left : List Bytes)
    → Decodes c.libs p ts left vs
    → ((k : ℕ) → get_elem? rows (i + k) ≡ get_elem? left k)
    → decode_args c p ts i rows ≡ value (ok vs)
unfolding decode_args
decode_args-rows c p [] [] i rows [] d at' = refl
decode_args-rows c p [] (v ∷ vs) i rows [] d at' = absurd d
decode_args-rows c p [] vs i rows (bts ∷ left) d at' = absurd d
decode_args-rows c p (t ∷ ts) vs i rows [] d at' = absurd d
decode_args-rows c p (t ∷ ts) [] i rows (bts ∷ left) d at' = absurd d
decode_args-rows c p (t ∷ ts) (v ∷ vs) i rows (bts ∷ left) (read, d) at' =
    let here : get_elem? rows i ≡ some bts = ap (get_elem? rows) (sym (omega arith)) ∙ at' 0 in
    let others =
      decode_args-rows c p ts vs (suc i) rows left d
        (λ j. ap (get_elem? rows) (omega arith) ∙ at' (suc j)) in
    rw (decode_args, here, read, others) refl

-- As many values as types.
Decodes-length :
    {V : Type 0} (l : Libs V) (p : Compiler) (ts : List GoType) (rows : List Bytes) (vs : List V)
    → Decodes l p ts rows vs
    → length ts ≡ length rows
Decodes-length l p [] [] vs d = refl
Decodes-length l p [] (row ∷ rows) vs d = absurd d
Decodes-length l p (t ∷ ts) [] vs d = absurd d
Decodes-length l p (t ∷ ts) (row ∷ rows) [] d = absurd d
Decodes-length l p (t ∷ ts) (row ∷ rows) (v ∷ vs) d = ap suc (Decodes-length l p ts rows vs d.1)

-- One row for each argument.
multi_rows-length :
    {V : Type 0} (l : Libs V) (p : Compiler) (vs : List V) (rows : List Bytes)
    → multi_rows l p vs ≡ ok rows
    → length rows ≡ length vs
unfolding multi_rows
multi_rows-length l p [] rows e = ground arith
multi_rows-length l p (v ∷ vs) rows e = elim (Result-cases (marshal_value l p v)) [
  | inr (x, bad) ↦ absurd (ground arith)
  | inl (bts, wrote) ↦ elim (Result-cases (multi_rows l p vs)) [
    | inr (x, bad) ↦ absurd (ground arith)
    | inl (rest, more) ↦
        let same : rows ≡ bts ∷ rest = ground arith in
        ap (λ r. length r) same ∙ ap suc (multi_rows-length l p vs rest more)
  ]
]

all_but_last-append : {A : Type 0} (xs : List A) (x : A) → all_but_last (xs ++ (x ∷ [])) ≡ xs
unfolding all_but_last
all_but_last-append [] x = refl
all_but_last-append (y ∷ []) x = refl
all_but_last-append (y ∷ z ∷ zs) x = ap (λ l. y ∷ l) (all_but_last-append (z ∷ zs) x)

-- What `remoteMulti` sends for its arguments, `findCall` takes for a function with as many: the method
-- is called with the values that the rows are decoded to, in their order, and a new response behind
-- them, and the answer is what it has left there, encoded. The library reads the number and the rows
-- of the body that it has written, each row is decoded, and the method returns no error.
pub find_multi-remote :
    {V : Type 0} (c : Codec V) (s : Server) (f : ServerFunc) (vs us outs : List V) (rsp r left : V)
    (t : GoType) (rows : List Bytes) (bts : Bytes)
    → multi_rows c.libs s.proto (all_but_last (vs ++ (rsp ∷ []))) ≡ ok rows
    → c.multi_body bts ≡ ok (count_of (length (vs ++ (rsp ∷ []))), rows)
    → Decodes c.libs s.proto f.args rows us
    → f.rsp ≡ some t
    → c.libs.new_elem t ≡ value r
    → length vs + 1 < 2 ^ 32
    → value_multi c f (us ++ (r ∷ [])) ≡ value (ok outs)
    → get_elem? outs (length vs) ≡ some left
    → find_multi c s f bts ≡ value (marshal_value c.libs s.proto left)
unfolding find_multi count_of
find_multi-remote c s f vs us outs rsp r left t rows bts sent got reads gives made small run out =
    let sent' : multi_rows c.libs s.proto vs ≡ ok rows =
      ap (multi_rows c.libs s.proto) (sym (all_but_last-append vs rsp)) ∙ sent in
    let size : length f.args ≡ length vs =
      Decodes-length c.libs s.proto f.args rows us reads
      ∙ multi_rows-length c.libs s.proto vs rows sent' in
    let read : decode_args c s.proto f.args 0 rows ≡ value (ok us) =
      decode_args-rows c s.proto f.args us 0 rows rows reads
        (λ k. ap (get_elem? rows) (omega arith)) in
    let count : (count_of (length (vs ++ (rsp ∷ []))) == length f.args % 2 ^ 32) ≡ true =
      ground (arith, length-append vs (rsp ∷ []), size) in
    let there : get_elem? outs (length f.args) ≡ some left = ap (get_elem? outs) size ∙ out in
    simp (got, count, read, gives, made, run, there)
