-- ===== src/Registry/Files.antt =====
-- network/watch/fmsg.go: the file of the table of APIs, and a watcher that starts again with it. What
-- the operating system and the JSON library do is an argument.
use gorigin.Prelude.{
  ℕ, zero, suc, ◌+◌, List, [], ◌∷◌, ◌++◌, Option, none, some, Bytes, Bool, true, false, not,
  if◌then◌else◌,
}
use gorigin.Pb.{FuncApi, FuncMsg}
use gorigin.Registry.{FuncMap, range_api, init_env_file}

-- `&funcmap{num: comm.WATCH_IN_MAX}` of `NewWatcher`.
abbrev pub new_map : FuncMap
new_map = record { ids = []; str = []; objects = []; num = 100; written = [] }

-- The lines of the file that are read as APIs: `read` is `json.Marshal` of what `addEnvFile` is given,
-- followed by `json.Unmarshal` into a `FuncApi`.
unfoldable pub lines_of : (FuncMsg → Option FuncApi) → List FuncMsg → List FuncApi
lines_of read [] = []
lines_of read (msg ∷ msgs) =
    let rest = lines_of read msgs in elim (read msg) [ none ↦ rest | some api ↦ api ∷ rest ]

-- A watcher that starts with the file of the one before.
unfoldable pub restart : (FuncMsg → Option FuncApi) → FuncMap → FuncMap
restart read f = init_env_file new_map (lines_of read f.written)

-- Both files, by what is appended to them, which of them is open, and the writes made so far.
pub record EnvFile : Type 0 where
  pub conf : List Bytes
  pub bak : List Bytes
  pub backup : Bool
  pub writes : ℕ

-- `deeper` is want of fuel.
pub data Filed : Type 0 where
  filed : EnvFile → Filed
  panics : Filed
  deeper : Filed

-- `takes` says whether the write of a number succeeds, and `opens` whether a file can be opened.
module _ (takes : ℕ → Bool) (opens : Bool → Bool) (json_api : FuncApi → Option Bytes) where
  unfoldable pub write_file : EnvFile → Bytes → EnvFile × Bool
  write_file e bts =
      let after : EnvFile = record e { writes = e.writes + 1 } in
      if takes e.writes
      then (
        (if e.backup
            then record after { bak = e.bak ++ (bts ∷ []) }
            else record after { conf = e.conf ++ (bts ∷ []) }),
        true,
      )
      else (after, false)

  -- The loop of `upEnvFile`; `again` is its call of itself, which ends the loop.
  unfoldable pub up_lines : (EnvFile → Filed) → EnvFile → List FuncApi → Filed
  up_lines again e [] = filed e
  up_lines again e (api ∷ apis) =
      let rest = λ (e' : EnvFile). up_lines again e' apis in
      elim (json_api api) [
        | none ↦ rest e
        | some bts ↦
            (let (e1, ok) = write_file e bts in
              if not ok
              then again (record e1 { backup = true })
              else (let (e2, ok') = write_file e1 (10 ∷ []) in
                  if ok' then rest e2 else again (record e2 { backup = true })))
      ]

  unfoldable pub up_env_file : ℕ → List FuncApi → EnvFile → Filed
  up_env_file zero apis e = deeper
  up_env_file (suc n) apis e =
      let loop = up_lines (up_env_file n apis) e apis in if opens e.backup then loop else panics

  -- `addEnvFile`; `there` says that the file is open.
  unfoldable pub add_env_file :
      (FuncMsg → Option Bytes) → ℕ → Bool → FuncMap → FuncMsg → EnvFile → Filed
  add_env_file json_msg n there f msg e =
      let apis = range_api f.ids f.objects in
      let line : EnvFile → Filed = λ e'. elim (json_msg msg) [
        | none ↦ filed e'
        | some bts ↦
            (let (e1, ok) = write_file e' (bts ++ (10 ∷ [])) in
              if ok then filed e1 else up_env_file n apis e1)
      ] in
      if there
      then line e
      else elim (up_env_file n apis e) [ filed e' ↦ line e' | panics ↦ panics | deeper ↦ deeper ]
