-- ===== src/Names/Laws.antt =====
-- Names that are put together and taken apart, and the two packages' functions against one another.
use gorigin.Prelude.{
  ℕ, ◌≡◌, ◌≢◌, refl, ap, ◌∙◌, List, [], ◌∷◌, ◌++◌, Bytes, All, true, false, Bool-cases, inl, inr,
  arith, ◌==◌,
}
use gorigin.Names.{dot, cons_head, split_dots}
use gorigin.Names.Rpc
use gorigin.Names.Comm
use gorigin.Names.Rpc.{legal_char, is_exported_name}

abbrev pub NoDots : Bytes → Type 0
NoDots = All (λ x. x ≢ dot)

split_dots-plain : (a : Bytes) → NoDots a → split_dots a ≡ a ∷ []
unfolding split_dots
split_dots-plain [] h = refl
split_dots-plain (x ∷ a) h =
    let e : (x == dot) ≡ false = ground (arith, h.0) in rw (e, split_dots-plain a h.1) refl

split_dots-dot : (a b : Bytes) → NoDots a → split_dots (a ++ (dot ∷ b)) ≡ a ∷ split_dots b
unfolding split_dots
split_dots-dot [] b h = refl
split_dots-dot (x ∷ a) b h =
    let e : (x == dot) ≡ false = ground (arith, h.0) in rw (e, split_dots-dot a b h.1) refl

cons_head-NoDots : (x : ℕ) (rs : List Bytes) → x ≢ dot → All NoDots rs → All NoDots (cons_head x rs)
cons_head-NoDots x [] n h = ((n, tt), tt)
cons_head-NoDots x (r ∷ rs) n h = ((n, h.0), h.1)

split_dots-NoDots : (a : Bytes) → All NoDots (split_dots a)
unfolding split_dots
split_dots-NoDots [] = (tt, tt)
split_dots-NoDots (x ∷ a) = elim (Bool-cases (x == dot)) [
  | inl e ↦ rw e (tt, split_dots-NoDots a)
  | inr e ↦ rw e (cons_head-NoDots x (split_dots a) (ground arith) (split_dots-NoDots a))
]

-- A server's and a function's name without dots, with or without a node's name before them, are the
-- two parts of the API's name, which a watcher and a node find in it alike.
pub split_api_name-join :
    (node serv func : Bytes)
    → NoDots node
    → NoDots serv
    → NoDots func
    → let api = serv ++ (dot ∷ func) in
      let name = node ++ (dot ∷ api) in
      (Comm.split_api_name api ≡ (serv, func))
      × (Comm.split_api_name name ≡ (serv, func))
      × (Rpc.split_api_name api ≡ ([], api))
      × (Rpc.split_api_name name ≡ (node, api))
      × (Rpc.split_server_name name ≡ (node, serv, func))
unfolding Comm.split_api_name Rpc.split_api_name Rpc.split_server_name
split_api_name-join node serv func hn hs hf =
    let two = split_dots-dot serv func hs ∙ ap (◌∷◌ serv) (split_dots-plain func hf) in
    let three = split_dots-dot node (serv ++ (dot ∷ func)) hn ∙ ap (◌∷◌ node) two in
    (
      rw (two, Comm.split_api_name) refl,
      rw (three, Comm.split_api_name) refl,
      rw (two, Rpc.split_api_name) refl,
      rw (three, Rpc.split_api_name) refl,
      rw (three, Rpc.split_server_name) refl,
    )

plain : (name a b : Bytes) → split_dots name ≡ a ∷ b ∷ [] → Rpc.split_api_name name ≡ ([], name)
unfolding Rpc.split_api_name
plain name a b e = rw (e, Rpc.split_api_name) refl

deep :
    (name a b c : Bytes)
    → split_dots name ≡ a ∷ b ∷ c ∷ []
    → Rpc.split_api_name name ≡ (a, b ++ (dot ∷ c))
unfolding Rpc.split_api_name
deep name a b c e = rw (e, Rpc.split_api_name) refl

same_parts :
    (name : Bytes) (rows : List Bytes)
    → split_dots name ≡ rows
    → All NoDots rows
    → Comm.split_api_name (Rpc.split_api_name name).1 ≡ Comm.split_api_name name
unfolding Comm.split_api_name Rpc.split_api_name split_dots
same_parts name [] e h = rw (e, Comm.split_api_name, Rpc.split_api_name) refl
same_parts name (a ∷ []) e h = rw (e, Comm.split_api_name, Rpc.split_api_name) refl
same_parts name (a ∷ b ∷ []) e h =
    ap (λ (p : Bytes × Bytes). Comm.split_api_name p.1) (plain name a b e)
same_parts name (a ∷ b ∷ c ∷ []) e h =
    ap (λ (p : Bytes × Bytes). Comm.split_api_name p.1) (deep name a b c e)
    ∙ (split_api_name-join a b c h.0 h.1.0 h.1.1.0).0
    ∙ rw (e, Comm.split_api_name) refl
same_parts name (a ∷ b ∷ c ∷ d ∷ rows) e h = rw (e, Comm.split_api_name, Rpc.split_api_name) refl

-- Whatever the name, the API's name that a node looks up has the parts that the name has.
pub split_api_name-api :
    (name : Bytes) → Comm.split_api_name (Rpc.split_api_name name).1 ≡ Comm.split_api_name name
split_api_name-api name = same_parts name (split_dots name) refl (split_dots-NoDots name)

-- The names that `IsExportedName` lets pass hold no dot, so they are the parts of an API's name.
pub is_exported_name-NoDots : (name : Bytes) → is_exported_name name ≡ true → NoDots name
unfolding is_exported_name
is_exported_name-NoDots [] h = tt
is_exported_name-NoDots (n ∷ ns) h = (ground arith, is_exported_name-NoDots ns (ground arith))
