-- ===== src/Serve/Local.antt =====
-- network/rpc/service.go: calls of a function of the own node, and what a request over the wire comes
-- to beside them.
use gorigin.Prelude.{
  ◌≡◌, refl, sym, inl, inr, List, [], ◌∷◌, Option, none, some, Bytes, index, Outcome, Outcome-cases,
  value, panic, ◌>>=◌,
}
use gorigin.Wire.{bytes_of}
use gorigin.Services.{GoType, ServerFunc, Server}
use gorigin.Protocal.{Result, ok, fails, ◌>=>◌, marshal_value, unmarshal_value}
use gorigin.Serve.{Output, nothing, an_error, other, Codec, find_one, value_call, value_multi}

-- The end of each local call: the values behind it, and the error that it returns.
unfoldable pub local_result : {V : Type 0} → List V × List Output → Outcome (List V × Option Bytes)
local_result (vs, Output.nothing ∷ []) = value (vs, none)
local_result (vs, Output.an_error e ∷ []) = value (vs, some e)
local_result (vs, Output.other ∷ []) = panic
local_result (vs, []) = value (vs, some (bytes_of "call result value length wrong"))
local_result (vs, x ∷ y ∷ outs) = value (vs, some (bytes_of "call result value length wrong"))

module _ {V : Type 0} (c : Codec V) where
  -- `LocalSend` and `LocalCall`, of values that are no nil.
  unfoldable pub local_send : ServerFunc → V → Outcome (List V × Option Bytes)
  local_send f req = c.invoke f (req ∷ []) >>= local_result

  unfoldable pub local_call : ServerFunc → V → V → Outcome (List V × Option Bytes)
  local_call f req rsp = c.invoke f (req ∷ rsp ∷ []) >>= local_result

  -- `LocalMulti` ranges over the rows that it has, which is the receiver: the method gets it again, as
  -- its only argument.
  unfoldable pub local_multi : ServerFunc → V → List V → Outcome (List V × Option Bytes)
  local_multi f rv args = c.invoke f (rv ∷ []) >>= local_result

  result_lem :
      (r : List V × List Output)
      → local_result r ≡ (elim r.1 [
        | out ∷ [] ↦ elim out [
          | nothing ↦ value (r.0, none)
          | an_error e ↦ value (r.0, some e)
          | other ↦ panic
        ]
        | _ ↦ value (r.0, some (bytes_of "call result value length wrong"))
      ])
  unfolding local_result
  result_lem (vs, []) = refl
  result_lem (vs, Output.nothing ∷ []) = refl
  result_lem (vs, Output.an_error e ∷ []) = refl
  result_lem (vs, Output.other ∷ []) = refl
  result_lem (vs, x ∷ y ∷ outs) = refl

  -- The calls for the wire and the local ones end alike.
  local_call-value : (f : ServerFunc) (v r : V) → value_call c f (v ∷ r ∷ []) ≡ local_call f v r
  unfolding value_call local_call
  local_call-value f v r = elim (Outcome-cases (c.invoke f (v ∷ r ∷ []))) [
    | inl bad ↦ rw (value_call, local_call, bad) refl
    | inr (out, run) ↦ rw (value_call, local_call, run) (sym (result_lem out))
  ]

  -- What a local call leaves, encoded for the wire.
  abbrev pub encoded : Server → Outcome (List V × Option Bytes) → Outcome (Result Bytes)
  encoded s run = run >>= λ p. elim p.1 [
    | some e ↦ value (fails e)
    | none ↦ index p.0 1 >>= λ left. value (marshal_value c.libs s.proto left)
  ]

  -- A request to a function whose body is decoded to a value is answered with what the local call of
  -- the function with that value and a new response leaves there, encoded; with the error that the
  -- local call returns; and it panics where the local call does, or where that leaves no response.
  pub find_one-local_call :
      (s : Server) (f : ServerFunc) (v r : V) (t rt : GoType) (bts : Bytes)
      → f.req ≡ some t
      → f.rsp ≡ some rt
      → c.libs.new_elem rt ≡ value r
      → unmarshal_value c.libs s.proto t bts ≡ value (ok v)
      → find_one c s f bts ≡ encoded s (local_call f v r)
  unfolding find_one value_multi
  find_one-local_call s f v r t rt bts asks gives made read =
      rw⁻¹ (local_call-value f v r) (elim (Outcome-cases (value_call c f (v ∷ r ∷ []))) [
        | inl bad ↦ simp (asks, gives, made, read, bad)
        | inr ((vs, err), run) ↦ simp (asks, gives, made, read, run, answer s vs err)
      ])
    where
      answer :
          (s : Server) (vs : List V) (err : Option Bytes)
          → ((elim err as (λ _. Outcome (Result (List V))) [
            | none ↦ value (ok vs)
            | some e ↦ value (fails e)
          ])
              >=> λ us. index us 1 >>= λ left. value (marshal_value c.libs s.proto left))
            ≡ encoded s (value (vs, err))
      answer s vs none = refl
      answer s vs (some e) = refl
