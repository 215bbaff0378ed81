-- ===== src/Services/Shapes.antt =====
-- The function that `Register` makes of a method, as a whole.
use gorigin.Prelude.{
  ℕ, ◌≡◌, refl, sym, ap, ◌∙◌, inl, inr, List, [], ◌∷◌, ◌++◌, none, some, Bytes, Bool-cases, All,
  load, store, bytes_key, bytes_beq, Option-cases, some-injective, subst, load-store,
  value-injective, Outcome-cases, arith, value,
}
use gorigin.Pb.{send, call, multi}
use gorigin.Services.{
  GoType, Method, ServerFunc, Server, is_wrong, split_last, parse_args, parse_multi, parse_call,
  parse_send, parse_methods_num_in, new_func, parse_func, check_protocal, check_out,
}
use gorigin.Services.Laws.{ReturnsError, check_outs, parse_args-fine}

-- The three kinds of functions.
pub data Shape (m : Method) (s : ServerFunc) : Type 0 where
  sends :
      (recv req : GoType)
      → m.ins ≡ recv ∷ req ∷ []
      → s ≡ record (new_func m) { req = some req; api = send }
      → Shape m s
  calls :
      (recv req rsp : GoType)
      → m.ins ≡ recv ∷ req ∷ rsp ∷ []
      → s ≡ record (new_func m) { req = some req; rsp = some rsp; api = call }
      → Shape m s
  multis :
      (recv rsp : GoType) (args : List GoType)
      → m.ins ≡ recv ∷ args ++ (rsp ∷ [])
      → s ≡ record (new_func m) { args = args; rsp = some rsp; api = multi }
      → Shape m s

split_last-append :
    (x : GoType) (xs : List GoType) → (split_last x xs).0 ++ ((split_last x xs).1 ∷ []) ≡ x ∷ xs
unfolding split_last
split_last-append x [] = refl
split_last-append x (y ∷ ys) = ap (λ l. x ∷ l) (split_last-append y ys)

multi-Shape :
    (t : ℕ) (m : Method) (s : ServerFunc) (recv a b c : GoType) (others : List GoType)
    → m.ins ≡ recv ∷ a ∷ b ∷ c ∷ others
    → parse_multi t m (new_func m) a (b ∷ c ∷ others) ≡ value (none, s)
    → ReturnsError t m × Shape m s
unfolding parse_multi
multi-Shape t m s recv a b c others e h =
    let (ins, rsp) = split_last a (b ∷ c ∷ others) in
    elim (Outcome-cases (parse_args ins)) [
      | inl bad ↦ absurd (ground arith)
      | inr (args, fine) ↦ elim (Bool-cases (is_wrong rsp)) [
        | inl wrong ↦ absurd (ground arith)
        | inr good ↦
            let s' : ServerFunc = record (new_func m) {
              args = args;
              rsp = some rsp;
              api = multi;
            } in
            let checked : check_out t m s' ≡ value (none, s) = rw (fine, good) at h in
            let (out, eq) = check_outs t m s' s m.outs refl checked in
            let all : args ++ (rsp ∷ []) ≡ a ∷ b ∷ c ∷ others =
              ap (λ l. l ++ (rsp ∷ [])) (parse_args-fine ins args fine).0
              ∙ split_last-append a (b ∷ c ∷ others) in
            (out, multis recv rsp args (e ∙ ap (λ l. recv ∷ l) (sym all)) (sym eq))
      ]
    ]

ins-Shape :
    (t : ℕ) (m : Method) (s : ServerFunc) (ins : List GoType)
    → m.ins ≡ ins
    → parse_methods_num_in t m (new_func m) ≡ value (none, s)
    → ReturnsError t m × Shape m s
unfolding parse_methods_num_in parse_send parse_call parse_multi
ins-Shape t m s [] e h = absurd (ground arith)
ins-Shape t m s (recv ∷ []) e h = absurd (ground arith)
ins-Shape t m s (recv ∷ a ∷ []) e h =
    let s' : ServerFunc = record (new_func m) { req = some a; api = send } in
    elim (Bool-cases (is_wrong a)) [
      | inl wrong ↦ absurd (ground arith)
      | inr good ↦
          let (out, eq) = check_outs t m s' s m.outs refl (ground arith) in
          (out, sends recv a e (sym eq))
    ]
ins-Shape t m s (recv ∷ a ∷ b ∷ []) e h =
    let s' : ServerFunc = record (new_func m) { req = some a; rsp = some b; api = call } in
    elim (Bool-cases (is_wrong a)) [
      | inl wrong ↦ absurd (ground arith)
      | inr good ↦ elim (Bool-cases (is_wrong b)) [
        | inl wrong ↦ absurd (ground arith)
        | inr good' ↦
            let (out, eq) = check_outs t m s' s m.outs refl (ground arith) in
            (out, calls recv a b e (sym eq))
      ]
    ]
ins-Shape t m s (recv ∷ a ∷ b ∷ c ∷ others) e h =
    multi-Shape t m s recv a b c others e (ground arith)

pub parse_methods_num_in-Shape :
    (t : ℕ) (m : Method) (s : ServerFunc)
    → parse_methods_num_in t m (new_func m) ≡ value (none, s)
    → ReturnsError t m × Shape m s
parse_methods_num_in-Shape t m s h = ins-Shape t m s m.ins refl h

module _ (t : ℕ) (P : Method → Type 0) where
  -- A function that `Register` makes of a method of which `P` holds.
  abbrev pub IsMade : ServerFunc → Type 0
  IsMade f = (m : Method) × P m × (parse_methods_num_in t m (new_func m) ≡ value (none, f))

  abbrev pub AreMade : Server → Type 0
  AreMade s = (name : Bytes) (f : ServerFunc) → load name s.funcs ≡ some f → IsMade f

  store_made :
      (s : Server) (m : Method) (f : ServerFunc)
      → AreMade s
      → IsMade f
      → AreMade (record s { funcs = store m.name f s.funcs })
  store_made s m f all made name g there = elim (Bool-cases (bytes_beq m.name name)) [
    | inl same ↦
        let eq : f ≡ g = some-injective f g (sym (rw (load-store, same) refl) ∙ there) in
        subst IsMade eq made
    | inr other ↦ all name g (sym (rw (load-store, other) refl) ∙ there)
  ]

  -- All functions of the table that `parseFunc` makes are made of the methods.
  pub parse_func-AreMade :
      (ms : List Method) (s r : Server)
      → All P ms
      → AreMade s
      → parse_func t ms s ≡ value (none, r)
      → AreMade r
  unfolding parse_func
  parse_func-AreMade [] s r h all e = subst AreMade (ap (λ p. p.1) (value-injective _ _ e)) all
  parse_func-AreMade (m ∷ ms) s r (p, ps) all e = elim (Option-cases (check_protocal m.name)) [
    | inr (q, named) ↦
        parse_func-AreMade ms (record s { proto = q }) r ps all (rw (parse_func, named) at e)
    | inl none' ↦ elim (Outcome-cases (parse_methods_num_in t m (new_func m))) [
      | inl bad ↦ absurd (ground arith)
      | inr ((error, f), parsed) ↦ elim (Option-cases error) [
        | inr (err, wrong) ↦ absurd (ground arith)
        | inl fine ↦
            let made : IsMade f = (m, p, parsed ∙ ap (λ o. value (o, f)) fine) in
            parse_func-AreMade ms (record s { funcs = store m.name f s.funcs }) r ps
              (store_made s m f all made) (rw (parse_func, none', parsed, fine) at e)
      ]
    ]
  ]
