-- ===== src/Registry/Restart.antt =====
-- What a watcher keeps over a restart, and when its file cannot be written.
use gorigin.Prelude.{
  ℕ, zero, suc, ◌+◌, ◌≡◌, refl, sym, ap, ◌∙◌, inl, inr, List, [], ◌∷◌, Option, some, Bytes, Bool,
  true, false, All, load, bytes_key, Option-cases, ltb, ◌||◌,
}
use gorigin.Pb.{FuncApi, FuncMsg}
use gorigin.Registry.{FuncMap, put_api, no_text, load_line, load_lines, init_env_file, built_in_max}
use gorigin.Registry.Files.{
  new_map, lines_of, restart, EnvFile, deeper, write_file, up_lines, up_env_file,
}

-- No line has a number beyond the built-in ones.
abbrev Low : List FuncApi → Type 0
Low = All (λ api. ltb built_in_max api.id ≡ false)

lines_of-Low :
    (read : FuncMsg → Option FuncApi) (msgs : List FuncMsg)
    → ((m : FuncMsg) (a : FuncApi) → read m ≡ some a → a.id ≡ 0)
    → Low (lines_of read msgs)
unfolding lines_of
lines_of-Low read [] zeros = tt
lines_of-Low read (m ∷ msgs) zeros = elim (Option-cases (read m)) [
  | inl e ↦ rw (lines_of, e) (lines_of-Low read msgs zeros)
  | inr (a, e) ↦ rw (lines_of, e) (rw (zeros m a e) refl, lines_of-Low read msgs zeros)
]

load_lines-Low : (f : FuncMap) (apis : List FuncApi) → Low apis → load_lines f apis ≡ f
unfolding load_lines load_line
load_lines-Low f [] h = refl
load_lines-Low f (api ∷ apis) (low, h) = rw low (load_lines-Low f apis h)

first_number :
    (u : Bytes) (a : FuncApi)
    → (no_text u || no_text a.name) ≡ false
    → (put_api new_map u a).1.id ≡ 101
unfolding put_api load
first_number u a named = rw (put_api, named) refl

-- A watcher that starts again is as one that starts for the first time, whatever its file holds, and
-- gives the first API that is registered the number that the first API had before. The lines of the
-- file have the fields of a `FuncMsg`, so that a `FuncApi` that is read from one has the number 0.
pub restart-forgets :
    (read : FuncMsg → Option FuncApi) (f : FuncMap) (u v : Bytes) (a b : FuncApi)
    → ((m : FuncMsg) (x : FuncApi) → read m ≡ some x → x.id ≡ 0)
    → (no_text u || no_text a.name) ≡ false
    → (no_text v || no_text b.name) ≡ false
    → (restart read f ≡ new_map)
      × ((put_api (restart read f) v b).1.id ≡ (put_api new_map u a).1.id)
unfolding restart init_env_file
restart-forgets read f u v a b zeros named named' =
    let loaded : load_lines new_map (lines_of read f.written) ≡ new_map =
      load_lines-Low new_map (lines_of read f.written) (lines_of-Low read f.written zeros) in
    let same : restart read f ≡ new_map = rw (restart, init_env_file, loaded) refl in
    (
      same,
      ap (λ g. (put_api g v b).1.id) same ∙ first_number v b named' ∙ sym (first_number u a named),
    )

module _ (takes : ℕ → Bool) (opens : Bool → Bool) (json_api : FuncApi → Option Bytes) where
  -- Where no write succeeds, `upEnvFile` calls itself without end: no number of calls is enough, if
  -- both files can be opened and the table has an API that JSON takes.
  pub up_env_file-endless :
      (api : FuncApi) (apis : List FuncApi) (bts : Bytes) (n : ℕ) (e : EnvFile)
      → ((k : ℕ) → takes k ≡ false)
      → ((name : Bool) → opens name ≡ true)
      → json_api api ≡ some bts
      → up_env_file takes opens json_api n (api ∷ apis) e ≡ deeper
  unfolding up_env_file up_lines write_file
  up_env_file-endless api apis bts zero e never opened there = refl
  up_env_file-endless api apis bts (suc n) e never opened there =
      let e1 : EnvFile = record e { writes = e.writes + 1; backup = true } in
      rw (up_env_file, opened e.backup, up_lines, there, write_file, never e.writes)
        (up_env_file-endless api apis bts n e1 never opened there)
