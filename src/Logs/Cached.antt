-- ===== src/Logs/Cached.antt =====
-- logs/log.go: a log with a cache, whose file gets nothing before `exit`.
use gorigin.Prelude.{
  ℕ, ◌≡◌, ◌⊎◌, refl, sym, inl, inr, ◌∙◌, List, [], ◌++◌, Option, none, some, Bytes, Bool, true,
  false, length, not, ◌&&◌, Bool-cases, ℤ, if◌then◌else◌,
}
use gorigin.Logs.{LogStruct, check_struct, is_int, reaches, change_err_level, init_stamp, up_stamp}
use gorigin.Logs.Files.{done, waits, send_cache, check_locked, buffer_text, exit}
use gorigin.Logs.Threads.{
  Thread, checking, sending, System, new_logs, put_line, checked, cached, act, Step, puts, acts,
  changes, Reach, here, next,
}
use gorigin.Logs.Kept.{
  IsCached, send_cache-KeptBy, check_locked-KeptBy, checked-IsCached, cached-IsCached,
}

act-IsCached :
    (size : ℤ) (month : ℕ → ℕ) (opens : Bool) (reopens takes : ℕ → Bool) (s t : System)
    (th : Thread)
    → IsCached size s
    → act month opens reopens takes s th ≡ some t
    → IsCached size t
unfolding act
act-IsCached size month opens reopens takes s t (checking now line) i e =
    elim (Bool-cases s.log.mu) [
      | inl held ↦
          let stuck : act month opens reopens takes s (checking now line) ≡ none =
            rw (held, act) refl in
          absurd cc
      | inr free ↦
          let r = check_locked month opens now s.log in
          let goes : act month opens reopens takes s (checking now line) ≡ checked s line r =
            rw (free, act) refl in
          checked-IsCached size s t line r i.written
            (check_locked-KeptBy size month opens now s.log i.cache i.same free) (sym goes ∙ e)
    ]
act-IsCached size month opens reopens takes s t (sending line) i e = elim (Bool-cases s.log.mu) [
  | inl held ↦
      let stuck : act month opens reopens takes s (sending line) ≡ none =
        rw (i.cache, held, act) refl in
      absurd cc
  | inr free ↦
      let r = send_cache s.log line in
      let goes : act month opens reopens takes s (sending line) ≡ cached s line r =
        rw (i.cache, free, act) refl in
      cached-IsCached size s t line r i.written
        (send_cache-KeptBy size s.log line i.cache i.same free) (sym goes ∙ e)
]

Step-IsCached :
    (size : ℤ) (month : ℕ → ℕ) {lines : List Bytes} {s t : System}
    → Step month s lines t
    → IsCached size s
    → IsCached size t
unfolding put_line change_err_level
Step-IsCached size month (puts s now line) i = record {
  cache = i.cache;
  same = i.same;
  written = i.written;
  short = i.short;
}
Step-IsCached size month (changes s level) i = record {
  cache = i.cache;
  same = i.same;
  written = i.written;
  short = i.short;
}
Step-IsCached size month (acts s t before after th opens reopens takes h e) i =
    let i' : IsCached size (record s { threads = before ++ after }) = record {
      cache = i.cache;
      same = i.same;
      written = i.written;
      short = i.short;
    } in
    act-IsCached size month opens reopens takes (record s { threads = before ++ after }) t th i' e

Reach-IsCached :
    (size : ℤ) (month : ℕ → ℕ) {lines : List Bytes} {s t : System}
    → Reach month s lines t
    → IsCached size s
    → IsCached size t
Reach-IsCached size month (here s) i = i
Reach-IsCached size month (next r step) i =
    Step-IsCached size month step (Reach-IsCached size month r i)

-- The buffer of a configuration with a cache.
buf-cache :
    (direct : Bool) (empty : Bytes)
    → not direct ≡ true
    → (if direct then none else some empty) ≡ some empty
buf-cache false empty c = refl
buf-cache true empty c = absurd cc

new_logs-IsCached :
    (month : ℕ → ℕ) (parsed : ℕ) (conf : Option LogStruct)
    → (check_struct conf).cache ≡ true
    → reaches 0 (check_struct conf).size ≡ false
    → IsCached (check_struct conf).size (new_logs month parsed conf)
unfolding new_logs init_stamp check_struct up_stamp buffer_text
new_logs-IsCached month parsed none c z = record {
  cache = refl;
  same = refl;
  written = refl;
  short = λ free. refl;
}
new_logs-IsCached month parsed (some l) c z = record {
  cache = c;
  same = refl;
  written = refl;
  short = λ free. rw (buf-cache (is_int l.cache_size 0 && not l.cache) [] c) z;
}

-- A log with a cache, from `NewLogs` on and whatever is put and in whatever order the goroutines run:
-- no text is in a file before `exit`, and then `exit` waits for ever for the mutex, or it writes a
-- text that is shorter than the cache's size. The size is not negative.
pub cached-exit :
    (month : ℕ → ℕ) (parsed : ℕ) (conf : Option LogStruct) (lines : List Bytes) (t : System)
    → (check_struct conf).cache ≡ true
    → reaches 0 (check_struct conf).size ≡ false
    → Reach month (new_logs month parsed conf) lines t
    → (t.written ≡ [])
      × ((exit t.log ≡ waits none)
          ⊎ ((text : Bytes) × (exit t.log ≡ done (some text))
              × (reaches (length text) (check_struct conf).size ≡ false)))
unfolding exit
cached-exit month parsed conf lines t c z r =
    let size = (check_struct conf).size in
    let i = Reach-IsCached size month r (new_logs-IsCached month parsed conf c z) in
    (
      i.written,
      (elim (Bool-cases t.log.mu) [
        | inl held ↦ inl (rw (exit, i.cache, held) refl)
        | inr free ↦ inr (buffer_text t.log.buf, rw (exit, i.cache, free) refl, i.short free)
      ]),
    )
