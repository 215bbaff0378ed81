-- ===== src/Registry/Numbers.antt =====
-- The numbers of the APIs: no two names share one, a name keeps its number, and what a restart keeps.
use gorigin.Prelude.{
  ℕ, ◌+◌, ◌^◌, ◌<◌, ◌≤◌, ◌≡◌, ◌≢◌, refl, sym, ap, ◌∙◌, inl, inr, List, [], ◌∷◌, ◌++◌, none, some,
  Bytes, length, get_elem?, set, load, store, load-store, nat_key, bytes_key, bytes_beq_iff,
  Bool-cases, Option-cases, arith, ◌||◌, ltb, All, ltb→lt, ◌==◌, ==_iff,
}
use mathlib.Core.Option.{some-injective}
use gorigin.Pb.{FuncApi}
use gorigin.Registry.{
  FuncData, FuncMap, contains, add_node, add_object, next_id, new_api, put_api, no_text, get_str,
  load_line, load_lines, init_env_file, built_in_max,
}
use gorigin.Registry.Heap.{get_elem?-append_old, get_elem?-set_self, get_elem?-set_ne}
use gorigin.Registry.Invariant.{IsConsistent}
use gorigin.Registry.Laws.{HasRoom, put_api-refuses, put_api-old, put_api-new, put_api-IsConsistent}

get_str-load :
    (f : FuncMap) (name : Bytes) (d : FuncData)
    → get_str f name ≡ some d
    → (a : ℕ) × (load name f.str ≡ some a) × (get_elem? f.objects a ≡ some d)
unfolding get_str
get_str-load f name d e = elim (Option-cases (load name f.str)) [
  | inl gone ↦ absurd (ground arith)
  | inr (a, there) ↦ (a, there, rw there at e)
]

-- In a consistent table two names with the same number are the same name.
same_id-same_name :
    (f : FuncMap) (x y : Bytes) (d e : FuncData)
    → IsConsistent f
    → get_str f x ≡ some d
    → get_str f y ≡ some e
    → d.msg.func_id ≡ e.msg.func_id
    → x ≡ y
same_id-same_name f x y d e v hx hy same =
    let (a, la, ga) = get_str-load f x d hx in
    let (b, lb, gb) = get_str-load f y e hy in
    let wa = v.by_name x a la in
    let wb = v.by_name y b lb in
    let da : wa.found ≡ d = some-injective wa.found d (sym wa.at ∙ ga) in
    let db : wb.found ≡ e = some-injective wb.found e (sym wb.at ∙ gb) in
    let num : wa.found.msg.func_id ≡ wb.found.msg.func_id =
      ap (λ (t : FuncData). t.msg.func_id) da
      ∙ same
      ∙ sym (ap (λ (t : FuncData). t.msg.func_id) db) in
    let ab : a ≡ b = some-injective a b (sym wa.back ∙ ap (λ t. load t f.ids) num ∙ wb.back) in
    let one : wa.found ≡ wb.found =
      some-injective _ _ (sym wa.at ∙ ap (get_elem? f.objects) ab ∙ wb.at) in
    sym wa.named ∙ ap (λ (t : FuncData). t.msg.api_name) one ∙ wb.named

-- A request that comes takes one number at most.
put_api-num :
    (f : FuncMap) (uuid : Bytes) (arg : FuncApi)
    → IsConsistent f
    → HasRoom f
    → (put_api f uuid arg).0.num ≤ f.num + 1
unfolding add_node add_object
put_api-num f uuid arg v h = elim (Bool-cases (no_text uuid || no_text arg.name)) [
  | inl bad ↦ rw (put_api-refuses f uuid arg bad) (omega arith)
  | inr p ↦ elim (Option-cases (load arg.name f.str)) [
    | inl e ↦ rw (put_api-new f uuid arg p e) (omega arith)
    | inr (a, e) ↦
        let w = v.by_name arg.name a e in
        rw (put_api-old f uuid arg a w.found p e w.at)
          (elim (Bool-cases (contains w.found.node uuid)) [
            | inl there ↦ rw (add_node, there) (omega arith)
            | inr new ↦ rw (add_node, new) (omega arith)
          ])
  ]
]

-- The requests of nodes, one after the other.
abbrev pub put_all : FuncMap → List (Bytes × FuncApi) → FuncMap
put_all f [] = f
put_all f ((uuid, arg) ∷ reqs) = put_all (put_api f uuid arg).0 reqs

put_all-IsConsistent :
    (f : FuncMap) (reqs : List (Bytes × FuncApi))
    → IsConsistent f
    → f.num + length reqs < 2 ^ 32
    → IsConsistent (put_all f reqs)
put_all-IsConsistent f [] v room = v
put_all-IsConsistent f ((uuid, arg) ∷ reqs) v room =
    let free : HasRoom f = omega arith in
    let grown = put_api-num f uuid arg v free in
    put_all-IsConsistent (put_api f uuid arg).0 reqs (put_api-IsConsistent f uuid arg free v)
      (omega arith)

-- Whatever requests come to a consistent table, from whatever nodes, while numbers are free: no two
-- names have the same number afterwards.
pub func_id-injective :
    (f : FuncMap) (reqs : List (Bytes × FuncApi)) (x y : Bytes) (d e : FuncData)
    → IsConsistent f
    → f.num + length reqs < 2 ^ 32
    → get_str (put_all f reqs) x ≡ some d
    → get_str (put_all f reqs) y ≡ some e
    → d.msg.func_id ≡ e.msg.func_id
    → x ≡ y
func_id-injective f reqs x y d e v room =
    same_id-same_name (put_all f reqs) x y d e (put_all-IsConsistent f reqs v room)

-- The object of `name` with its message, before and after.
abbrev pub Survives : FuncMap → FuncMap → Bytes → FuncData → Type 0
Survives f g name d = (d' : FuncData) × (get_str g name ≡ some d') × (d'.msg ≡ d.msg)

add_node-Survives :
    (f : FuncMap) (a : ℕ) (e : FuncData) (uuid name : Bytes) (d : FuncData)
    → get_elem? f.objects a ≡ some e
    → get_str f name ≡ some d
    → Survives f (add_node f a e uuid) name d
unfolding add_node get_str
add_node-Survives f a e uuid name d at h = elim (Bool-cases (contains e.node uuid)) [
  | inl there ↦ rw there (d, h, refl)
  | inr new ↦
      let (b, lb, gb) = get_str-load f name d h in
      let e' : FuncData = record e { node = e.node ++ (uuid ∷ []) } in
      elim (Bool-cases (a == b)) [
        | inl same ↦
            let ab = (==_iff a b).0 same in
            let ed : e ≡ d = some-injective e d (sym at ∙ ap (get_elem? f.objects) ab ∙ gb) in
            rw (new, lb)
              (
                e',
                ap (get_elem? (set f.objects a e')) (sym ab)
                    ∙ get_elem?-set_self f.objects a e e' at,
                ap (λ (t : FuncData). t.msg) ed,
              )
        | inr other ↦ rw (new, lb) (d, get_elem?-set_ne f.objects a b e' (ground arith) ∙ gb, refl)
      ]
]

add_object-Survives :
    (f : FuncMap) (id : ℕ) (new name : Bytes) (e d : FuncData)
    → load new f.str ≡ none
    → get_str f name ≡ some d
    → Survives f (add_object f id new e) name d
unfolding add_object get_str
add_object-Survives f id new name e d unused h =
    let (b, lb, gb) = get_str-load f name d h in
    let apart : new ≢ name = λ eq. cc (unused, lb, ap (λ t. load t f.str) eq) in
    let kept : load name (store new (length f.objects) f.str) ≡ some b =
      ground (arith, load-store new name (length f.objects) f.str, bytes_beq_iff new name) in
    (d, rw kept (get_elem?-append_old f.objects e d b gb), refl)

-- No request changes what a known name stands for: its number and its message stay.
pub put_api-Survives :
    (f : FuncMap) (uuid : Bytes) (arg : FuncApi) (name : Bytes) (d : FuncData)
    → IsConsistent f
    → get_str f name ≡ some d
    → Survives f (put_api f uuid arg).0 name d
put_api-Survives f uuid arg name d v h = elim (Bool-cases (no_text uuid || no_text arg.name)) [
  | inl bad ↦ rw (put_api-refuses f uuid arg bad) (d, h, refl)
  | inr p ↦ elim (Option-cases (load arg.name f.str)) [
    | inl e ↦
        rw (put_api-new f uuid arg p e)
          (add_object-Survives f (next_id f) arg.name name (new_api arg (next_id f) uuid) d e h)
    | inr (a, e) ↦
        let w = v.by_name arg.name a e in
        rw (put_api-old f uuid arg a w.found p e w.at)
          (add_node-Survives f a w.found uuid name d w.at h)
  ]
]

-- Nothing but the number differs.
record OnlyNumber (f g : FuncMap) : Type 0 where
  ids : g.ids ≡ f.ids
  str : g.str ≡ f.str
  objects : g.objects ≡ f.objects
  written : g.written ≡ f.written
  grown : f.num ≤ g.num

OnlyNumber-trans : {f g h : FuncMap} → OnlyNumber f g → OnlyNumber g h → OnlyNumber f h
OnlyNumber-trans a b = record {
  ids = b.ids ∙ a.ids;
  str = b.str ∙ a.str;
  objects = b.objects ∙ a.objects;
  written = b.written ∙ a.written;
  grown = omega (arith, a.grown, b.grown);
}

abbrev Counts : FuncMap → FuncApi → Type 0
Counts f msg = built_in_max < msg.id → msg.id ≤ f.num

load_line-OnlyNumber :
    (f : FuncMap) (msg : FuncApi) → OnlyNumber f (load_line f msg) × Counts (load_line f msg) msg
unfolding load_line
load_line-OnlyNumber f msg = elim (Bool-cases (ltb built_in_max msg.id)) [
  | inl big ↦
      rw (big, put_api-refuses f [] msg refl)
        (elim (Bool-cases (ltb f.num msg.id)) [
          | inl more ↦ rw more (
            record { ids = refl; str = refl; objects = refl; written = refl; grown = ground arith },
            λ h. omega arith,
          )
          | inr less ↦ rw less (
            record { ids = refl; str = refl; objects = refl; written = refl; grown = omega arith },
            λ h. ground arith,
          )
        ])
  | inr small ↦ rw small (
    record { ids = refl; str = refl; objects = refl; written = refl; grown = omega arith },
    λ h. absurd (ground arith),
  )
]

load_lines-OnlyNumber :
    (f : FuncMap) (msgs : List FuncApi)
    → OnlyNumber f (load_lines f msgs) × All (Counts (load_lines f msgs)) msgs
unfolding load_lines
load_lines-OnlyNumber f [] =
    (record { ids = refl; str = refl; objects = refl; written = refl; grown = omega arith }, tt)
load_lines-OnlyNumber f (msg ∷ msgs) =
    let (one, counted) = load_line-OnlyNumber f msg in
    let (rest, all) = load_lines-OnlyNumber (load_line f msg) msgs in
    (OnlyNumber-trans one rest, (λ h. omega (arith, counted h, rest.grown), all))

All-counted :
    (f : FuncMap) (num : ℕ) (msgs : List FuncApi)
    → f.num ≤ num
    → built_in_max ≤ num
    → All (Counts f) msgs
    → All (λ msg. msg.id ≤ num) msgs
All-counted f num [] le low h = tt
All-counted f num (msg ∷ msgs) le low h = (
  elim (Bool-cases (ltb built_in_max msg.id)) [
    | inl big ↦ omega (arith, h.0 (ltb→lt built_in_max msg.id big))
    | inr small ↦ ground arith
  ],
  All-counted f num msgs le low h.1,
)

-- A restart reads the numbers of the file and nothing else: none of its APIs is in the table
-- afterwards, whatever the file holds; new numbers begin beyond all of them and the built-in ones.
pub init_env_file-forgets :
    (f : FuncMap) (msgs : List FuncApi)
    → ((init_env_file f msgs).ids ≡ f.ids)
      × ((init_env_file f msgs).str ≡ f.str)
      × ((init_env_file f msgs).objects ≡ f.objects)
      × (built_in_max ≤ (init_env_file f msgs).num)
      × All (λ msg. msg.id ≤ (init_env_file f msgs).num) msgs
unfolding init_env_file
init_env_file-forgets f msgs =
    let g = load_lines f msgs in
    let (o, c) = load_lines-OnlyNumber f msgs in
    elim (Bool-cases (ltb g.num built_in_max)) [
      | inl low ↦ rw low (
        o.ids,
        o.str,
        o.objects,
        omega arith,
        All-counted g built_in_max msgs (ground arith) (omega arith) c,
      )
      | inr high ↦ rw high (
        o.ids,
        o.str,
        o.objects,
        ground arith,
        All-counted g g.num msgs (omega arith) (ground arith) c,
      )
    ]
