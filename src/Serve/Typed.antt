-- ===== src/Serve/Typed.antt =====
-- The types of values: a function that `Register` has taken is called by `findCall` with values of the
-- types of its inputs.
use gorigin.Prelude.{
  ℕ, suc, ◌+◌, ◌≤◌, ◌≡◌, ◌⊎◌, refl, subst, inl, inr, List, [], ◌∷◌, map, Bytes, length, Outcome,
  value, panic, Bool-cases, All, arith, bytes_key,
}
use gorigin.Pb.{Compiler, proto, json, jsonpb}
use gorigin.Services.{GoType, ptr, ServerFunc}
use gorigin.Services.Laws.{inputs, ReturnsError}
use gorigin.Protocal.{Result, ok, fails, ◌>=>◌, unmarshal_into, unmarshal_value}
use gorigin.Serve.{Output, Codec, value_call, value_multi, decode_args}
use gorigin.Serve.Args.{get_elem?-within}

-- The outputs of a method whose one output has the type `error`.
abbrev pub IsError : List Output → Type 0
IsError outs = (outs ≡ Output.nothing ∷ []) ⊎ ((e : Bytes) × (outs ≡ Output.an_error e ∷ []))

-- What the libraries say of types: a new value of a pointer's type, decoding that keeps the type, and
-- a call with values of the types of the inputs, in which the method panics, or which gives the
-- outputs of the method.
pub record IsTyped {V : Type 0} (type_of_error : ℕ) (c : Codec V) : Type 0 where
  pub new_typed :
      (t : GoType) → t.kind ≡ ptr → (v : V) × (c.libs.new_elem t ≡ value v) × (c.libs.type_of v ≡ t)
  pub proto_typed :
      (bts : Bytes) (v w : V)
      → c.libs.proto_unmarshal bts v ≡ ok w
      → c.libs.type_of w ≡ c.libs.type_of v
  pub json_typed :
      (bts : Bytes) (v w : V)
      → c.libs.json_unmarshal bts v ≡ ok w
      → c.libs.type_of w ≡ c.libs.type_of v
  pub protojson_typed :
      (bts : Bytes) (v w : V)
      → c.libs.protojson_unmarshal bts v ≡ ok w
      → c.libs.type_of w ≡ c.libs.type_of v
  pub call_typed :
      (f : ServerFunc) (vs : List V)
      → map c.libs.type_of vs ≡ inputs f.method.ins
      → (c.invoke f vs ≡ panic)
        ⊎ ((ws : List V) × (outs : List Output) × (c.invoke f vs ≡ value (ws, outs))
            × (length ws ≡ length vs)
            × (ReturnsError type_of_error f.method → IsError outs))

-- The code of a function's method panics, called with values of the types of its inputs.
abbrev pub MethodPanics : {V : Type 0} → Codec V → ServerFunc → Type 0
MethodPanics {V} c f =
    (vs : List V) × (map c.libs.type_of vs ≡ inputs f.method.ins) × (c.invoke f vs ≡ panic)

-- A value with the property, or an error, or a panic for the given reason.
abbrev pub Returns : {A : Type 0} → Type 0 → (A → Type 0) → Outcome (Result A) → Type 0
Returns W P (value (ok a)) = P a
Returns W P (value (fails e)) = Unit
Returns W P panic = W

pub Returns-bind :
    {A B : Type 0} (W : Type 0) (P : A → Type 0) (Q : B → Type 0) (o : Outcome (Result A))
    (f : A → Outcome (Result B))
    → Returns W P o
    → ((a : A) → P a → Returns W Q (f a))
    → Returns W Q (o >=> f)
Returns-bind W P Q (value (ok a)) f h k = k a h
Returns-bind W P Q (value (fails e)) f h k = tt
Returns-bind W P Q panic f h k = h

pub Returns-value :
    {A : Type 0} (W : Type 0) (P : A → Type 0) (r : Result A)
    → ((a : A) → r ≡ ok a → P a)
    → Returns W P (value r)
Returns-value W P (ok a) h = h a refl
Returns-value W P (fails e) h = tt

module _ {V : Type 0} (t : ℕ) (c : Codec V) (typed : IsTyped t c) (f : ServerFunc) where
  abbrev pub Typed : GoType → V → Type 0
  Typed type v = c.libs.type_of v ≡ type

  unmarshal_into-Typed :
      (p : Compiler) (v : V) (bts : Bytes)
      → Returns
          (MethodPanics c f)
          (Typed (c.libs.type_of v))
          (value (unmarshal_into c.libs p v bts))
  unfolding unmarshal_into
  unmarshal_into-Typed json v bts = Returns-value (MethodPanics c f) _ _ (typed.json_typed bts v)
  unmarshal_into-Typed proto v bts = elim (Bool-cases (c.libs.is_message v)) [
    | inl m ↦
        rw (unmarshal_into, m) (Returns-value (MethodPanics c f) _ _ (typed.proto_typed bts v))
    | inr m ↦ rw (unmarshal_into, m) tt
  ]
  unmarshal_into-Typed jsonpb v bts = elim (Bool-cases (c.libs.is_message v)) [
    | inl m ↦
        rw (unmarshal_into, m) (Returns-value (MethodPanics c f) _ _ (typed.protojson_typed bts v))
    | inr m ↦ rw (unmarshal_into, m) tt
  ]

  pub unmarshal_value-Typed :
      (p : Compiler) (type : GoType) (bts : Bytes)
      → type.kind ≡ ptr
      → Returns (MethodPanics c f) (Typed type) (unmarshal_value c.libs p type bts)
  unfolding unmarshal_value
  unmarshal_value-Typed p type bts k =
      let (v, new, same) = typed.new_typed type k in
      rw (unmarshal_value, new)
        (subst (λ s. Returns (MethodPanics c f) (Typed s) (value (unmarshal_into c.libs p v bts)))
          same (unmarshal_into-Typed p v bts))

  pub value_multi-Returns :
      (vs : List V)
      → map c.libs.type_of vs ≡ inputs f.method.ins
      → ReturnsError t f.method
      → Returns (MethodPanics c f) (λ ws. length ws ≡ length vs) (value_multi c f vs)
  unfolding value_multi value_call
  value_multi-Returns vs fits err = elim (typed.call_typed f vs fits) [
    | inl bad ↦ rw (value_multi, value_call, bad) (vs, fits, bad)
    | inr (ws, outs, run, same, errors) ↦ elim (errors err) [
      | inl e ↦ rw (value_multi, value_call, run, e) same
      | inr (m, e) ↦ rw (value_multi, value_call, run, e) tt
    ]
  ]

  pub decode_args-Typed :
      (p : Compiler) (ts : List GoType) (i : ℕ) (rows : List Bytes)
      → All (λ s. s.kind ≡ ptr) ts
      → i + length ts ≤ length rows
      → Returns (MethodPanics c f) (λ vs. map c.libs.type_of vs ≡ ts) (decode_args c p ts i rows)
  unfolding decode_args
  decode_args-Typed p [] i rows ks h = refl
  decode_args-Typed p (s ∷ ts) i rows (k, ks) h =
      let (bts, there) = get_elem?-within rows i (omega arith) in
      rw (decode_args, there)
        (Returns-bind (MethodPanics c f) (Typed s) _ _ _ (unmarshal_value-Typed p s bts k) (λ v tv.
          Returns-bind (MethodPanics c f) (λ vs. map c.libs.type_of vs ≡ ts) _ _ _
            (decode_args-Typed p ts (suc i) rows ks (omega arith)) (λ vs tvs. cc)))
