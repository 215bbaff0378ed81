-- ===== src/Logs/Kept.antt =====
-- logs/log.go: what `check` and `sendCache` leave of a log with a cache.
use gorigin.Prelude.{
  ℕ, ◌≡◌, refl, subst, inl, inr, [], some, some-injective, Bytes, Bool, true, false, length, ltb,
  Bool-cases, Option-cases, ℤ,
}
use gorigin.Logs.{LogData, reaches}
use gorigin.Logs.Files.{
  Ended, done, waits, panics, deeper, send_cache, check_locked, rotate, buffer_text,
}
use gorigin.Logs.Threads.{System, checked, cached}
use gorigin.Logs.Locks.{send_cache-ends, send_cache-nil, send_cache-held}

abbrev pub IsShort : ℤ → LogData → Type 0
IsShort size l = l.mu ≡ false → reaches (length (buffer_text l.buf)) size ≡ false

-- What holds of a log with a cache of `size` bytes: a free mutex has a buffer below the size.
pub record IsCached (size : ℤ) (s : System) : Type 0 where
  pub cache : s.log.cache ≡ true
  pub same : s.log.size ≡ size
  pub written : s.written ≡ []
  pub short : IsShort size s.log

-- What `check` and `sendCache` leave of such a log.
pub record Kept (size : ℤ) (l : LogData) : Type 0 where
  cache : l.cache ≡ true
  same : l.size ≡ size
  short : IsShort size l

abbrev pub KeptBy : ℤ → Ended LogData → Type 0
KeptBy size (done l) = Kept size l
KeptBy size (waits l) = Kept size l
KeptBy size panics = Unit
KeptBy size deeper = Unit

pub send_cache-KeptBy :
    (size : ℤ) (l : LogData) (str : Bytes)
    → l.cache ≡ true
    → l.size ≡ size
    → l.mu ≡ false
    → KeptBy size (send_cache l str)
unfolding send_cache buffer_text
send_cache-KeptBy size l str c z m = elim (Option-cases l.buf) [
  | inl e ↦ rw (send_cache-nil l str m e) tt
  | inr (b, e) ↦ elim (send_cache-ends 0 l b str m e) [
    | inl (short, r) ↦ rw r (record { cache = c; same = z; short = λ free. rw⁻¹ z short })
    | inr (full, r) ↦ rw r (record { cache = c; same = z; short = λ free. absurd cc })
  ]
]

-- The end of a period, with a cache: `check` holds the mutex that `sendCache` waits for.
rotate-cached :
    (month : ℕ → ℕ) (opens : Bool) (l : LogData)
    → l.mu ≡ true
    → l.cache ≡ true
    → rotate month opens l ≡ waits l
unfolding rotate
rotate-cached month opens l m c = rw (rotate, send_cache-held l (buffer_text l.buf) m, c) refl

pub check_locked-KeptBy :
    (size : ℤ) (month : ℕ → ℕ) (opens : Bool) (now : ℕ) (l : LogData)
    → l.cache ≡ true
    → l.size ≡ size
    → l.mu ≡ false
    → KeptBy size (check_locked month opens now l)
unfolding check_locked rotate
check_locked-KeptBy size month opens now l c z m = elim (Bool-cases (ltb now l.stamp)) [
  | inl late ↦
      rw (m, check_locked, late) (record { cache = c; same = z; short = λ free. absurd cc })
  | inr first ↦
      let held : LogData = record l { mu = true } in
      rw (m, check_locked, first, rotate-cached month opens held refl c)
        (record { cache = c; same = z; short = λ free. absurd cc })
]

pub checked-IsCached :
    (size : ℤ) (s t : System) (line : Bytes) (r : Ended LogData)
    → s.written ≡ []
    → KeptBy size r
    → checked s line r ≡ some t
    → IsCached size t
unfolding checked
checked-IsCached size s t line (done l) w k e =
    subst (IsCached size) (some-injective _ t e)
      (record { cache = k.cache; same = k.same; written = w; short = k.short })
checked-IsCached size s t line (waits l) w k e =
    subst (IsCached size) (some-injective _ t e)
      (record { cache = k.cache; same = k.same; written = w; short = k.short })
checked-IsCached size s t line panics w k e = absurd cc
checked-IsCached size s t line deeper w k e = absurd cc

pub cached-IsCached :
    (size : ℤ) (s t : System) (line : Bytes) (r : Ended LogData)
    → s.written ≡ []
    → KeptBy size r
    → cached s line r ≡ some t
    → IsCached size t
unfolding cached
cached-IsCached size s t line (done l) w k e =
    subst (IsCached size) (some-injective _ t e)
      (record { cache = k.cache; same = k.same; written = w; short = k.short })
cached-IsCached size s t line (waits l) w k e =
    subst (IsCached size) (some-injective _ t e)
      (record { cache = k.cache; same = k.same; written = w; short = k.short })
cached-IsCached size s t line panics w k e = absurd cc
cached-IsCached size s t line deeper w k e = absurd cc
