-- ===== src/Protocal.antt =====
-- network/rpc/protocal.go: encoding and decoding by the protocol of a service. What the libraries
-- (protobuf, JSON, reflection) do with a Go value is an argument.
pub mod Trips
use gorigin.Prelude.{
  ℕ, ◌≡◌, ◌⊎◌, refl, inl, inr, List, [], ◌∷◌, Option, none, some, Bytes, Bool, true, false,
  if◌then◌else◌, Outcome, value, panic, ◌>>=◌, or_panic,
}
use gorigin.Wire.{bytes_of}
use gorigin.Pb.{Compiler, proto, json, jsonpb}
use gorigin.Services.{GoType, ptr, interface_kind, other_kind}

-- A value, or an error with its message.
pub data Result (A : Type 0) : Type 0 where
  ok : A → Result A
  fails : Bytes → Result A

pub Result-cases :
    {A : Type 0} (r : Result A) → ((a : A) × (r ≡ ok a)) ⊎ ((e : Bytes) × (r ≡ fails e))
Result-cases (ok a) = inl (a, refl)
Result-cases (fails e) = inr (e, refl)

-- The first error ends a chain of steps; a panic ends all.
infixl 5 ◌>=>◌
abbrev pub ◌>=>◌ :
    {A B : Type 0} → Outcome (Result A) → (A → Outcome (Result B)) → Outcome (Result B)
value (ok a) >=> f = f a
value (fails e) >=> f = value (fails e)
panic >=> f = panic

abbrev pub some_value : {V : Type 0} → Result V → Result (Option V)
some_value (ok v) = ok (some v)
some_value (fails e) = fails e

-- `V` is a Go value. `new_elem` is `reflect.New(t.Elem())`, and `is_message` says that a value is a
-- `proto.Message`. Decoding gives the value as it is afterwards.
pub record Libs (V : Type 0) : Type 0 where
  pub type_of : V → GoType
  pub new_elem : GoType → Outcome V
  pub is_message : V → Bool
  pub proto_unmarshal : Bytes → V → Result V
  pub json_unmarshal : Bytes → V → Result V
  pub protojson_unmarshal : Bytes → V → Result V
  pub proto_marshal : V → Result Bytes
  pub json_marshal : V → Result Bytes

module _ {V : Type 0} (l : Libs V) where
  -- The protocols of `UnmarshalValue`. The last case of the code is for no protocol.
  unfoldable pub unmarshal_into : Compiler → V → Bytes → Result V
  unmarshal_into proto tmp bts =
      if l.is_message tmp
      then l.proto_unmarshal bts tmp
      else fails (bytes_of "not implement proto.Message")
  unmarshal_into json tmp bts = l.json_unmarshal bts tmp
  unmarshal_into jsonpb tmp bts =
      if l.is_message tmp
      then l.protojson_unmarshal bts tmp
      else fails (bytes_of "not implement proto.Message")

  unfoldable pub unmarshal_value : Compiler → GoType → Bytes → Outcome (Result V)
  unmarshal_value p t bts = l.new_elem t >>= λ tmp. value (unmarshal_into p tmp bts)

  -- `MarshalValue` and `MarshalInterface`.
  unfoldable pub marshal_value : Compiler → V → Result Bytes
  marshal_value json v = l.json_marshal v
  marshal_value proto v =
      if l.is_message v then l.proto_marshal v else fails (bytes_of "marsha1 response value wrong")
  marshal_value jsonpb v =
      if l.is_message v then l.proto_marshal v else fails (bytes_of "marsha1 response value wrong")

  -- The protocols of `UnmarshalInterface`.
  unfoldable pub interface_into : Compiler → V → Bytes → Result V
  interface_into proto argv bts =
      if l.is_message argv
      then l.proto_unmarshal bts argv
      else fails (bytes_of "not implement proto.Message")
  interface_into json argv bts = l.json_unmarshal bts argv
  interface_into jsonpb argv bts =
      if l.is_message argv
      then l.protojson_unmarshal bts argv
      else fails (bytes_of "not implement proto.Message")

  -- The type of no value is a nil, whose kind the code asks for.
  unfoldable pub unmarshal_interface : Compiler → Option V → Bytes → Outcome (Result V)
  unmarshal_interface p argv bts = or_panic argv >>= λ v. elim (l.type_of v).kind [
    | ptr ↦ value (interface_into p v bts)
    | interface_kind ↦ value (fails (bytes_of "rsp interface not ptr"))
    | other_kind ↦ value (fails (bytes_of "rsp interface not ptr"))
  ]
