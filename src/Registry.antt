-- ===== src/Registry.antt =====
-- network/watch/fmsg.go: the watcher's table of APIs. Each API is one `funcdata` object, which the two
-- maps share by pointer: a pointer is an index into `objects`.
pub mod Files
pub mod Restart
pub mod Heap
pub mod Invariant
pub mod Laws
pub mod Numbers
use gorigin.Prelude.{
  ℕ, ◌+◌, ◌%◌, ◌^◌, List, [], ◌∷◌, ◌++◌, Option, none, some, Bytes, Bool, true, false, length,
  get_elem?, set, if◌then◌else◌, Dict, load, store, nat_key, bytes_key, bytes_beq, ltb, ◌||◌,
}
use gorigin.Pb.{FuncApi, FuncMsg}
use gorigin.Names.Comm

pub record FuncData : Type 0 where
  pub msg : FuncMsg
  pub api : FuncApi
  pub node : List Bytes

-- `written` holds the lines that `addEnvFile` appends to the file, oldest first.
pub record FuncMap : Type 0 where
  pub ids : Dict ℕ ℕ
  pub str : Dict Bytes ℕ
  pub objects : List FuncData
  pub num : ℕ
  pub written : List FuncMsg

pub data Error : Type 0 where
  wrong_request : Error

abbrev pub no_text : Bytes → Bool
no_text [] = true
no_text (x ∷ xs) = false

-- `for _, str := range data.node { if str == uuid … }`.
unfoldable pub contains : List Bytes → Bytes → Bool
contains [] u = false
contains (v ∷ vs) u = if bytes_beq v u then true else contains vs u

abbrev pub deref : FuncMap → Option ℕ → Option FuncData
deref f none = none
deref f (some a) = get_elem? f.objects a

unfoldable pub get_ids : FuncMap → ℕ → Option FuncData
get_ids f fid = deref f (load fid f.ids)

unfoldable pub get_str : FuncMap → Bytes → Option FuncData
get_str f name = deref f (load name f.str)

-- `data.node = append(data.node, uuid)`, through the pointer.
unfoldable pub add_node : FuncMap → ℕ → FuncData → Bytes → FuncMap
add_node f a d uuid =
    if contains d.node uuid
    then f
    else record f { objects = set f.objects a (record d { node = d.node ++ (uuid ∷ []) }) }

-- A new API takes the next number, `atomic.AddUint32(&f.num, 1)`.
abbrev pub next_id : FuncMap → ℕ
next_id f = (f.num + 1) % 2 ^ 32

unfoldable pub add_object : FuncMap → ℕ → Bytes → FuncData → FuncMap
add_object f id name d = record f {
  ids = store id (length f.objects) f.ids;
  str = store name (length f.objects) f.str;
  objects = f.objects ++ (d ∷ []);
  num = id;
  written = f.written ++ (d.msg ∷ []);
}

abbrev pub new_api : FuncApi → ℕ → Bytes → FuncData
new_api arg id uuid =
    let arg' : FuncApi = record arg { id = id } in
    let parts = Comm.split_api_name arg.name in
    record {
      msg = record {
        func_id = id;
        api_name = arg.name;
        serv_name = parts.0;
        func_name = parts.1;
        api_type = arg.api_type;
        protocal = arg.kind;
      };
      api = arg';
      node = uuid ∷ [];
    }

-- The object that a name finds, or the new one: the table, the argument with its number, and the
-- error. The argument is a pointer whose `ID` the code writes.
unfoldable pub put_api : FuncMap → Bytes → FuncApi → FuncMap × FuncApi × Option Error
put_api f uuid arg =
    if no_text uuid || no_text arg.name
    then (f, arg, some wrong_request)
    else elim (load arg.name f.str) [
      | some a ↦ elim (get_elem? f.objects a) [
        | some d ↦ (add_node f a d uuid, record arg { id = d.msg.func_id }, none)
        | none ↦ (f, arg, none)
      ]
      | none ↦ (
        add_object f (next_id f) arg.name (new_api arg (next_id f) uuid),
        record arg { id = next_id f },
        none,
      )
    ]

abbrev pub new_msg : FuncMsg → ℕ → Bytes → FuncData
new_msg arg id uuid = record {
  msg = record arg { func_id = id };
  api = record { id = id; name = arg.api_name; api_type = arg.api_type; kind = arg.protocal };
  node = uuid ∷ [];
}

unfoldable pub put_msg : FuncMap → Bytes → FuncMsg → FuncMap × FuncMsg × Option Error
put_msg f uuid arg =
    if no_text uuid || no_text arg.api_name
    then (f, arg, some wrong_request)
    else elim (load arg.api_name f.str) [
      | some a ↦ elim (get_elem? f.objects a) [
        | some d ↦ (add_node f a d uuid, record arg { func_id = d.msg.func_id }, none)
        | none ↦ (f, arg, none)
      ]
      | none ↦ (
        add_object f (next_id f) arg.api_name (new_msg arg (next_id f) uuid),
        record arg { func_id = next_id f },
        none,
      )
    ]

-- `RangeApi` with a function that collects and goes on, in the order of the table.
unfoldable pub range_api : Dict ℕ ℕ → List FuncData → List FuncApi
range_api [] objects = []
range_api ((id, a) ∷ ids) objects =
    let rest = range_api ids objects in
    elim (get_elem? objects a) [ none ↦ rest | some d ↦ d.api ∷ rest ]

abbrev pub built_in_max : ℕ
built_in_max = 30

-- The loop of `InitEnvFile` over the lines of the file, those that `json.Unmarshal` accepts: a line
-- with a number beyond the built-in ones is put with an empty uuid, and its number is kept.
unfoldable pub load_line : FuncMap → FuncApi → FuncMap
load_line f msg =
    if ltb built_in_max msg.id
    then (let f' = (put_api f [] msg).0 in
        if ltb f'.num msg.id then record f' { num = msg.id } else f')
    else f

unfoldable pub load_lines : FuncMap → List FuncApi → FuncMap
load_lines f [] = f
load_lines f (msg ∷ msgs) = load_lines (load_line f msg) msgs

unfoldable pub init_env_file : FuncMap → List FuncApi → FuncMap
init_env_file f msgs =
    let f' = load_lines f msgs in
    if ltb f'.num built_in_max then record f' { num = built_in_max } else f'
