-- ===== src/Services/Laws.antt =====
-- Which methods `Register` takes, and as what.
use gorigin.Prelude.{
  ℕ, ◌+◌, ◌≤◌, ◌≡◌, ◌⊎◌, refl, sym, ap, ◌∙◌, inl, inr, List, [], ◌∷◌, none, some, false, All,
  length, ◌==◌, ==_iff, Bool-cases, Outcome-cases, arith, value,
}
use gorigin.Pb.{send, call, multi}
use gorigin.Services.{
  GoType, Method, ServerFunc, is_wrong, check_out, parse_args, split_last, parse_multi, parse_call,
  parse_send, parse_methods_num_in, new_func,
}

abbrev pub Fine : GoType → Type 0
Fine t = is_wrong t ≡ false

-- The inputs behind the receiver.
abbrev pub inputs : List GoType → List GoType
inputs [] = []
inputs (recv ∷ ins) = ins

-- One result, of the type `error`.
abbrev pub ReturnsError : ℕ → Method → Type 0
ReturnsError type_of_error m = (out : GoType) × (m.outs ≡ out ∷ []) × (out.number ≡ type_of_error)

pub check_outs :
    (type_of_error : ℕ) (m : Method) (s r : ServerFunc) (outs : List GoType)
    → m.outs ≡ outs
    → check_out type_of_error m s ≡ value (none, r)
    → ReturnsError type_of_error m × (s ≡ r)
unfolding check_out
check_outs t m s r [] e h = absurd (ground arith)
check_outs t m s r (out ∷ []) e h = elim (Bool-cases (out.number == t)) [
  | inl same ↦ ((out, e, (==_iff out.number t).0 same), ground arith)
  | inr other ↦ absurd (ground arith)
]
check_outs t m s r (out ∷ out' ∷ outs) e h = absurd (ground arith)

pub parse_args-fine :
    (ins args : List GoType) → parse_args ins ≡ value args → (args ≡ ins) × All Fine ins
unfolding parse_args
parse_args-fine [] args h = (ground arith, tt)
parse_args-fine (i ∷ ins) args h = elim (Bool-cases (is_wrong i)) [
  | inl bad ↦ absurd (ground arith)
  | inr fine ↦ elim (Outcome-cases (parse_args ins)) [
    | inl e ↦ absurd (ground arith)
    | inr (tail, e) ↦ let (same, all) = parse_args-fine ins tail e in (ground arith, (fine, all))
  ]
]

split_last-fine :
    (x : GoType) (xs : List GoType)
    → All Fine (split_last x xs).0
    → Fine (split_last x xs).1
    → All Fine (x ∷ xs)
unfolding split_last
split_last-fine x [] h l = (l, tt)
split_last-fine x (y ∷ ys) h l = (h.0, split_last-fine y ys h.1 l)

length-split_last : (x : GoType) (xs : List GoType) → length (split_last x xs).0 ≡ length xs
unfolding split_last
length-split_last x [] = refl
length-split_last x (y ∷ ys) = omega (arith, length-split_last y ys)

-- The kind of function by the number of inputs, the receiver included.
abbrev pub Kinds : ServerFunc → Method → Type 0
Kinds s m =
    ((s.api ≡ send) × (length m.ins ≡ 2))
    ⊎ ((s.api ≡ call) × (length m.ins ≡ 3))
    ⊎ ((s.api ≡ multi) × (4 ≤ length m.ins) × (length s.args + 2 ≡ length m.ins))

parse_multi-fits :
    (t : ℕ) (m : Method) (s : ServerFunc) (recv a b c : GoType) (others : List GoType)
    → m.ins ≡ recv ∷ a ∷ b ∷ c ∷ others
    → parse_multi t m (new_func m) a (b ∷ c ∷ others) ≡ value (none, s)
    → ReturnsError t m × All Fine (a ∷ b ∷ c ∷ others) × Kinds s m
unfolding parse_multi
parse_multi-fits t m s recv a b c others e h =
    let xs = b ∷ c ∷ others in
    let (ins, rsp) = split_last a xs in
    elim (Outcome-cases (parse_args ins)) [
      | inl bad ↦ absurd (ground arith)
      | inr (args, fine) ↦
          let (same, all) = parse_args-fine ins args fine in
          elim (Bool-cases (is_wrong rsp)) [
            | inl wrong ↦ absurd (ground arith)
            | inr good ↦
                let s' : ServerFunc = record (new_func m) {
                  args = args;
                  rsp = some rsp;
                  api = multi;
                } in
                let checked : check_out t m s' ≡ value (none, s) = rw (fine, good) at h in
                let (out, eq) = check_outs t m s' s m.outs refl checked in
                let api : s.api ≡ multi = ap (λ (r : ServerFunc). r.api) (sym eq) in
                let listed : s.args ≡ args = ap (λ (r : ServerFunc). r.args) (sym eq) in
                let count : length ins ≡ length xs = length-split_last a xs in
                let total : length m.ins ≡ 2 + length xs = rw e (omega arith) in
                (
                  out,
                  split_last-fine a xs all good,
                  inr (
                      inr (
                        api,
                        omega arith,
                        omega (arith, ap (λ (l : List GoType). length l) (listed ∙ same)),
                      )),
                )
          ]
    ]

ins-fits :
    (t : ℕ) (m : Method) (s : ServerFunc) (ins : List GoType)
    → m.ins ≡ ins
    → parse_methods_num_in t m (new_func m) ≡ value (none, s)
    → ReturnsError t m × All Fine (inputs ins) × Kinds s m
unfolding parse_methods_num_in parse_send parse_call
ins-fits t m s [] e h = absurd (ground arith)
ins-fits t m s (recv ∷ []) e h = absurd (ground arith)
ins-fits t m s (recv ∷ a ∷ []) e h =
    let two : length m.ins ≡ 2 = rw e refl in
    let s' : ServerFunc = record (new_func m) { req = some a; api = send } in
    elim (Bool-cases (is_wrong a)) [
      | inl wrong ↦ absurd (ground arith)
      | inr good ↦
          let (out, eq) = check_outs t m s' s m.outs refl (ground arith) in
          (out, (good, tt), inl (ap (λ (r : ServerFunc). r.api) (sym eq), two))
    ]
ins-fits t m s (recv ∷ a ∷ b ∷ []) e h =
    let three : length m.ins ≡ 3 = rw e refl in
    let s' : ServerFunc = record (new_func m) { req = some a; rsp = some b; api = call } in
    elim (Bool-cases (is_wrong a)) [
      | inl wrong ↦ absurd (ground arith)
      | inr good ↦ elim (Bool-cases (is_wrong b)) [
        | inl wrong ↦ absurd (ground arith)
        | inr good' ↦
            let (out, eq) = check_outs t m s' s m.outs refl (ground arith) in
            (out, (good, (good', tt)), inr (inl (ap (λ (r : ServerFunc). r.api) (sym eq), three)))
      ]
    ]
ins-fits t m s (recv ∷ a ∷ b ∷ c ∷ others) e h =
    parse_multi-fits t m s recv a b c others e (ground arith)

-- A method that `Register` takes returns one value, of the type `error`, and each of its inputs
-- behind the receiver is a pointer or an interface. One input makes it a function without an answer,
-- two make it one with an answer, and more make it one with several arguments, all but the last.
pub parse_methods_num_in-fits :
    (type_of_error : ℕ) (m : Method) (s : ServerFunc)
    → parse_methods_num_in type_of_error m (new_func m) ≡ value (none, s)
    → ReturnsError type_of_error m × All (λ t. is_wrong t ≡ false) (inputs m.ins) × Kinds s m
parse_methods_num_in-fits t m s h = ins-fits t m s m.ins refl h
