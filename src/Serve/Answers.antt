-- ===== src/Serve/Answers.antt =====
-- `findCall` on the functions that `Register` has taken.
use gorigin.Prelude.{
  ℕ, suc, ◌%◌, ◌^◌, ◌<◌, ◌≡◌, ◌⊎◌, refl, sym, ap, subst, ◌∙◌, inl, inr, List, [], ◌∷◌, ◌++◌, map,
  none, some, Bytes, length, length-append, Outcome, value, panic, ◌>>=◌, index, Bool-cases,
  Option-cases, All, arith, ==_iff, ◌==◌, load, bytes_key, Dict,
}
use mathlib.Core.List.{map-append}
use gorigin.Wire.{bytes_of}
use gorigin.Pb.{send, call, multi, FuncMsg}
use gorigin.Services.{GoType, ptr, Method, ServerFunc, Server, parse_func, new_func}
use gorigin.Services.Laws.{inputs, ReturnsError}
use gorigin.Services.Shapes.{
  Shape, sends, calls, multis, parse_methods_num_in-Shape, AreMade, parse_func-AreMade,
}
use gorigin.Protocal.{Result-cases, Result, ok, fails, marshal_value}
use gorigin.Serve.{Codec, find_send, find_one, find_multi, find_func, find_call}
use gorigin.Serve.Args.{get_elem?-within}
use gorigin.Serve.Typed.{
  IsTyped, MethodPanics, Returns, Returns-bind, Returns-value, Typed, unmarshal_value-Typed,
  value_multi-Returns, decode_args-Typed,
}

length-map : {A B : Type 0} (f : A → B) (xs : List A) → length (map f xs) ≡ length xs
length-map f [] = refl
length-map f (x ∷ xs) = ap suc (length-map f xs)

All-split :
    (xs ys : List GoType)
    → All (λ a. a.kind ≡ ptr) (xs ++ ys)
    → All (λ a. a.kind ≡ ptr) xs × All (λ a. a.kind ≡ ptr) ys
All-split [] ys h = (tt, h)
All-split (x ∷ xs) ys (k, h) = let (a, b) = All-split xs ys h in ((k, a), b)

module _ {V : Type 0} (t : ℕ) (c : Codec V) (typed : IsTyped t c) where
  length-typed :
      (vs : List V) (ts : List GoType) → map c.libs.type_of vs ≡ ts → length vs ≡ length ts
  length-typed vs ts e = sym (length-map c.libs.type_of vs) ∙ ap (λ l. length l) e

  all_typed :
      (vs : List V) (r : V) (args : List GoType) (rsp recv : GoType) {ins : List GoType}
      → ins ≡ recv ∷ args ++ (rsp ∷ [])
      → map c.libs.type_of vs ≡ args
      → c.libs.type_of r ≡ rsp
      → map c.libs.type_of (vs ++ (r ∷ [])) ≡ inputs ins
  all_typed vs r args rsp recv e tvs tr = rw (map-append, tvs, tr, e) refl

  -- What `findCall` answers with: anything, but no panic of its own.
  abbrev Answers : ServerFunc → Outcome (Result Bytes) → Type 0
  Answers g o = Returns (MethodPanics c g) (λ bts. Unit {0}) o

  marshalled :
      (g : ServerFunc) (s : Server) (ws : List V) (i : ℕ)
      → i < length ws
      → Answers g (index ws i >>= λ left. value (marshal_value c.libs s.proto left))
  marshalled g s ws i h =
      let (w, there) = get_elem?-within ws i h in
      rw there (Returns-value (MethodPanics c g) _ (marshal_value c.libs s.proto w) (λ bts e. tt))

  module _ (s : Server) (m : Method) (err : ReturnsError t m) (bts : Bytes) where
    send_lem :
        (recv req : GoType)
        → m.ins ≡ recv ∷ req ∷ []
        → req.kind ≡ ptr
        → Answers
            (record (new_func m) { req = some req; api = send })
            (find_send c s (record (new_func m) { req = some req; api = send }) bts)
    unfolding find_send
    send_lem recv req e k =
        let g : ServerFunc = record (new_func m) { req = some req; api = send } in
        Returns-bind (MethodPanics c g) (Typed t c typed g req) _ _ _
          (unmarshal_value-Typed t c typed g s.proto req bts k)
          (λ v tv.
            Returns-bind (MethodPanics c g) (λ ws. length ws ≡ 1) _ _ _
              (value_multi-Returns t c typed g (v ∷ []) (rw e (cc)) err) (λ ws n. tt))

    call_lem :
        (recv req rsp : GoType)
        → m.ins ≡ recv ∷ req ∷ rsp ∷ []
        → req.kind ≡ ptr
        → rsp.kind ≡ ptr
        → Answers
            (record (new_func m) { req = some req; rsp = some rsp; api = call })
            (find_one c s (record (new_func m) { req = some req; rsp = some rsp; api = call }) bts)
    unfolding find_one
    call_lem recv req rsp e k kr =
        let g : ServerFunc = record (new_func m) { req = some req; rsp = some rsp; api = call } in
        let (r, new, same) = typed.new_typed rsp kr in
        rw (find_one, new)
          (Returns-bind (MethodPanics c g) (Typed t c typed g req) _ _ _
            (unmarshal_value-Typed t c typed g s.proto req bts k)
            (λ v tv.
              Returns-bind (MethodPanics c g) (λ ws. length ws ≡ 2) _ _ _
                (value_multi-Returns t c typed g (v ∷ r ∷ []) (rw e (cc)) err)
                (λ ws n. marshalled g s ws 1 (omega arith))))

    multi_lem :
        (recv rsp : GoType) (args : List GoType)
        → m.ins ≡ recv ∷ args ++ (rsp ∷ [])
        → All (λ a. a.kind ≡ ptr) args
        → rsp.kind ≡ ptr
        → length args < 2 ^ 32
        → ((n : ℕ) (rows : List Bytes) → c.multi_body bts ≡ ok (n, rows) → length rows ≡ n)
        → Answers
            (record (new_func m) { args = args; rsp = some rsp; api = multi })
            (find_multi c s (record (new_func m) { args = args; rsp = some rsp; api = multi }) bts)
    unfolding find_multi
    multi_lem recv rsp args e ks kr small carries =
        let g : ServerFunc = record (new_func m) { args = args; rsp = some rsp; api = multi } in
        let (r, new, same) = typed.new_typed rsp kr in
        elim (Result-cases (c.multi_body bts)) [
          | inr (m', bad) ↦ rw (find_multi, bad) tt
          | inl ((n, rows), got) ↦ elim (Bool-cases (n == length args % 2 ^ 32)) [
            | inr other ↦ rw (find_multi, got, other) tt
            | inl fits ↦
                let count : n ≡ length args =
                  omega (arith, (==_iff n (length args % 2 ^ 32)).0 fits) in
                rw (find_multi, got, fits, new)
                  (Returns-bind (MethodPanics c g) (λ vs. map c.libs.type_of vs ≡ args) _ _ _
                    (decode_args-Typed t c typed g s.proto args 0 rows ks
                      (omega (arith, carries n rows got)))
                    (λ vs tvs.
                      Returns-bind (MethodPanics c g) (λ ws. length ws ≡ length (vs ++ (r ∷ []))) _
                        _ _
                        (value_multi-Returns t c typed g (vs ++ (r ∷ []))
                          (all_typed vs r args rsp recv e tvs same) err)
                        (λ ws k.
                          marshalled g s ws (length args) (
                            omega
                              (arith, k, length-append vs (r ∷ []), length-typed vs args tvs)))))
          ]
        ]

    find_func-Answers :
        (f : ServerFunc)
        → Shape m f
        → All (λ a. a.kind ≡ ptr) (inputs m.ins)
        → length m.ins < 2 ^ 32
        → ((n : ℕ) (rows : List Bytes) → c.multi_body bts ≡ ok (n, rows) → length rows ≡ n)
        → Answers f (find_func c s f bts)
    unfolding find_func
    find_func-Answers f (sends recv req e same) ks small carries =
        let (k, tt') : All (λ a. a.kind ≡ ptr) (req ∷ []) = rw e at ks in
        subst (λ g. Answers g (find_func c s g bts)) (sym same) (send_lem recv req e k)
    find_func-Answers f (calls recv req rsp e same) ks small carries =
        let (k, (kr, tt')) : All (λ a. a.kind ≡ ptr) (req ∷ rsp ∷ []) = rw e at ks in
        subst (λ g. Answers g (find_func c s g bts)) (sym same) (call_lem recv req rsp e k kr)
    find_func-Answers f (multis recv rsp args e same) ks small carries =
        let both : All (λ a. a.kind ≡ ptr) (args ++ (rsp ∷ [])) = rw e at ks in
        let (ka, (kr, tt')) = All-split args (rsp ∷ []) both in
        subst (λ g. Answers g (find_func c s g bts)) (sym same)
          (multi_lem recv rsp args e ka kr
            (omega (arith, ap (λ l. length l) e, length-append args (rsp ∷ []))) carries)

-- A method whose inputs behind the receiver are pointers.
abbrev pub Plain : Method → Type 0
Plain m = All (λ a. a.kind ≡ ptr) (inputs m.ins) × (length m.ins < 2 ^ 32)

Returns-cases :
    {A : Type 0} (W : Type 0) (P : A → Type 0) (o : Outcome (Result A))
    → Returns W P o
    → ((r : Result A) × (o ≡ value r)) ⊎ ((o ≡ panic) × W)
Returns-cases W P (value r) h = inl (r, refl)
Returns-cases W P panic h = inr (refl, h)

none_lem : (name : Bytes) (g : ServerFunc) → load name [] ≡ some g → ⊥
unfolding load
none_lem name g h = cc

-- A request to a service that `Register` has taken is answered, by a value or an error, whatever the
-- request's body is, or the code of the function's method panics when it is called with values of
-- the types of its inputs: `findCall` has no panic of its own. Each input of a method is a pointer, a body of several
-- arguments carries as many as it says, and the libraries keep the types of values.
pub find_call-answers :
    {V : Type 0} (type_of_error : ℕ) (c : Codec V) (ms : List Method) (new s : Server)
    (funcs : Dict Bytes Server) (fmsg : FuncMsg) (bts : Bytes)
    → IsTyped type_of_error c
    → All Plain ms
    → new.funcs ≡ []
    → parse_func type_of_error ms new ≡ value (none, s)
    → load fmsg.serv_name funcs ≡ some s
    → ((n : ℕ) (rows : List Bytes) → c.multi_body bts ≡ ok (n, rows) → length rows ≡ n)
    → ((r : Result Bytes) × (find_call c funcs fmsg bts ≡ value r))
      ⊎ ((f : ServerFunc) × (load fmsg.func_name s.funcs ≡ some f)
          × (find_call c funcs fmsg bts ≡ panic)
          × MethodPanics c f)
unfolding find_call load
find_call-answers t c ms new s funcs fmsg bts typed plain fresh parsed there carries =
    elim (Option-cases (load fmsg.func_name s.funcs)) [
      | inl e ↦ inl (
        fails (bytes_of "not found server function: " ++ fmsg.func_name),
        rw (find_call, there, e) refl,
      )
      | inr (f, e) ↦
          let empty : AreMade t Plain new = λ name g h. absurd (none_lem name g (rw fresh at h)) in
          let (m, p, made) =
            parse_func-AreMade t Plain ms new s plain empty parsed fmsg.func_name f e in
          let (err, shape) = parse_methods_num_in-Shape t m f made in
          elim (Returns-cases (MethodPanics c f) (λ b. Unit {0}) (find_func c s f bts)
            (find_func-Answers t c typed s m err bts f shape p.0 p.1 carries)) [
              | inl (r, run) ↦ inl (r, rw (find_call, there, e) run)
              | inr (bad, why) ↦ inr (f, e, rw (find_call, there, e) bad, why)
            ]
    ]
