-- ===== src/Logs/Locks.antt =====
-- logs/log.go: the mutex of a log, which `check` may leave held and which `sendCache` takes twice.
use gorigin.Prelude.{
  ℕ, suc, ◌≡◌, ◌⊎◌, ◌<◌, refl, sym, inl, inr, List, [], ◌∷◌, ◌++◌, none, some, some-injective,
  subst, Bytes, Bool, true, false, length, Bool-cases, lt→ltb, ◌∙◌,
}
use gorigin.Logs.{LogData, reaches, change_err_level}
use gorigin.Logs.Files.{
  Ended, done, waits, panics, deeper, send_cache_fuel, send_cache, send_file, check_locked,
}
use gorigin.Logs.Threads.{
  Thread, checking, sending, System, put_line, act, filed, checked, Step, puts, acts, changes,
  Reach, here, next,
}

-- `sendCache` with a buffer and the mutex free, with any fuel from 2 on: as long as the buffer stays
-- below the size the text is at its end and the mutex free; a text with which the buffer reaches the
-- size is in the buffer, too, but the call waits for itself, with the mutex held.
pub send_cache-ends :
    (n : ℕ) (l : LogData) (b str : Bytes)
    → l.mu ≡ false
    → l.buf ≡ some b
    → ((reaches (length (b ++ str)) l.size ≡ false)
        × (send_cache_fuel (suc (suc n)) l str
            ≡ done (record l { mu = false; buf = some (b ++ str) })))
      ⊎ ((reaches (length (b ++ str)) l.size ≡ true)
          × (send_cache_fuel (suc (suc n)) l str
              ≡ waits (record l { mu = true; buf = some (b ++ str) })))
unfolding send_cache_fuel
send_cache-ends n l b str m e = elim (Bool-cases (reaches (length (b ++ str)) l.size)) [
  | inl full ↦ inr (full, rw (m, e, full) refl)
  | inr short ↦ inl (short, rw (m, e, short) refl)
]

pub send_cache-nil :
    (l : LogData) (str : Bytes) → l.mu ≡ false → l.buf ≡ none → send_cache l str ≡ panics
unfolding send_cache send_cache_fuel
send_cache-nil l str m e = rw (m, e) refl

pub send_cache-held : (l : LogData) (str : Bytes) → l.mu ≡ true → send_cache l str ≡ waits l
unfolding send_cache send_cache_fuel
send_cache-held l str m = rw m refl

-- What no step changes once the mutex is held.
record Frozen (s t : System) : Type 0 where
  mu : t.log.mu ≡ true
  stamp : t.log.stamp ≡ s.log.stamp
  buf : t.log.buf ≡ s.log.buf

filed-Frozen :
    (s t : System) (line : Bytes) (r : Ended ℕ)
    → s.log.mu ≡ true
    → filed s line r ≡ some t
    → Frozen s t
unfolding filed
filed-Frozen s t line (done num) m e =
    subst (Frozen s) (some-injective _ t e) (record { mu = m; stamp = refl; buf = refl })
filed-Frozen s t line (waits num) m e = absurd cc
filed-Frozen s t line panics m e = absurd cc
filed-Frozen s t line deeper m e = absurd cc

act-Frozen :
    (month : ℕ → ℕ) (opens : Bool) (reopens takes : ℕ → Bool) (s t : System) (th : Thread)
    → s.log.mu ≡ true
    → act month opens reopens takes s th ≡ some t
    → Frozen s t
unfolding act
act-Frozen month opens reopens takes s t (checking now line) m e =
    let stuck : act month opens reopens takes s (checking now line) ≡ none = rw (m, act) refl in
    absurd (cc)
act-Frozen month opens reopens takes s t (sending line) m e = elim (Bool-cases s.log.cache) [
  | inl c ↦
      let stuck : act month opens reopens takes s (sending line) ≡ none = rw (c, m, act) refl in
      absurd (cc)
  | inr c ↦
      let file : act month opens reopens takes s (sending line)
          ≡ filed s line (send_file reopens takes) =
        rw (c, act) refl in
      filed-Frozen s t line (send_file reopens takes) m (sym file ∙ e)
]

Step-Frozen :
    (month : ℕ → ℕ) {lines : List Bytes} {s t : System}
    → Step month s lines t
    → s.log.mu ≡ true
    → Frozen s t
unfolding put_line change_err_level
Step-Frozen month (puts s now line) m = record { mu = m; stamp = refl; buf = refl }
Step-Frozen month (changes s level) m = record { mu = m; stamp = refl; buf = refl }
Step-Frozen month (acts s t before after th opens reopens takes h e) m =
    let f =
      act-Frozen month opens reopens takes (record s { threads = before ++ after }) t th m e in
    record { mu = f.mu; stamp = f.stamp; buf = f.buf }

-- Once the mutex of a log is held between two steps, it is held in every later state: no goroutine
-- ends a file's period any more, and no text gets into the buffer.
pub held-forever :
    (month : ℕ → ℕ) {lines : List Bytes} {s t : System}
    → Reach month s lines t
    → s.log.mu ≡ true
    → (t.log.mu ≡ true) × (t.log.stamp ≡ s.log.stamp) × (t.log.buf ≡ s.log.buf)
held-forever month (here s) m = (m, refl, refl)
held-forever month (next r step) m =
    let (mu, stamp, buf) = held-forever month r m in
    let f = Step-Frozen month step mu in (f.mu, f.stamp ∙ stamp, f.buf ∙ buf)

-- Two callers that find the same period over: the second, which gets the mutex when the first has
-- begun the new period, returns with the mutex held, and whatever happens then, it stays held and no
-- later period begins.
pub late_check-freezes :
    (month : ℕ → ℕ) (opens : Bool) (reopens takes : ℕ → Bool) (s t u : System) (now : ℕ)
    (line : Bytes) (lines : List Bytes)
    → s.log.mu ≡ false
    → now < s.log.stamp
    → act month opens reopens takes s (checking now line) ≡ some t
    → Reach month t lines u
    → (u.log.mu ≡ true) × (u.log.stamp ≡ s.log.stamp)
unfolding act check_locked checked
late_check-freezes month opens reopens takes s t u now line lines m h e r =
    let held : System = record s {
      log = record s.log { mu = true };
      threads = s.threads ++ (sending line ∷ []);
    } in
    let late : act month opens reopens takes s (checking now line) ≡ some held =
      rw (m, act, check_locked, lt→ltb now s.log.stamp h, checked) refl in
    let same : held ≡ t = some-injective held t (sym late ∙ e) in
    let (mu, stamp, buf) = held-forever month r (subst (λ x. x.log.mu ≡ true) same refl) in
    (mu, stamp ∙ subst (λ x. x.log.stamp ≡ s.log.stamp) same refl)
