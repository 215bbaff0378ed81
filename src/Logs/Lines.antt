-- ===== src/Logs/Lines.antt =====
-- logs/log.go: a log without a cache, whose lines go to the file one by one.
use gorigin.Prelude.{
  ℕ, suc, ◌+◌, ◌≡◌, refl, sym, subst, inl, inr, ◌∙◌, ap, List, [], ◌∷◌, ◌++◌, map, Option, none,
  some, some-injective, Bytes, Bool, false, ltb, Bool-cases, if◌then◌else◌, bytes_beq, arith,
}
use gorigin.Logs.{LogStruct, LogData, check_struct, change_err_level, init_stamp, up_stamp}
use gorigin.Logs.Files.{
  Ended, done, waits, panics, deeper, send_file, check_locked, rotate, is_late,
}
use gorigin.Logs.Escapes.{unescape}
use gorigin.Logs.Threads.{
  Thread, checking, sending, System, new_logs, put_line, checked, filed, act, Step, puts, acts,
  changes, Reach, here, next,
}

-- How often a text is in a list.
unfoldable pub count : Bytes → List Bytes → ℕ
count x [] = 0
count x (y ∷ ys) = let rest = count x ys in if bytes_beq x y then suc rest else rest

-- The texts that goroutines still have to write, and those that are asked for by lines.
unfoldable pub texts : List Thread → List Bytes
texts [] = []
texts (checking now line ∷ ts) = unescape line ∷ texts ts
texts (sending line ∷ ts) = unescape line ∷ texts ts

count-append : (x : Bytes) (ys zs : List Bytes) → count x (ys ++ zs) ≡ count x ys + count x zs
unfolding count
count-append x [] zs = omega arith
count-append x (y ∷ ys) zs = ground (arith, count-append x ys zs)

texts-append : (ts us : List Thread) → texts (ts ++ us) ≡ texts ts ++ texts us
unfolding texts
texts-append [] us = refl
texts-append (checking now line ∷ ts) us = ap (◌∷◌ (unescape line)) (texts-append ts us)
texts-append (sending line ∷ ts) us = ap (◌∷◌ (unescape line)) (texts-append ts us)

count-texts_append :
    (x : Bytes) (ts us : List Thread)
    → count x (texts (ts ++ us)) ≡ count x (texts ts) + count x (texts us)
count-texts_append x ts us = rw (texts-append ts us) (count-append x (texts ts) (texts us))

map-append : (xs ys : List Bytes) → map unescape (xs ++ ys) ≡ map unescape xs ++ map unescape ys
map-append [] ys = refl
map-append (x ∷ xs) ys = ap (◌∷◌ (unescape x)) (map-append xs ys)

-- What holds of a log without a cache; `n x` is how often the text `x` was put.
record IsDirect (n : Bytes → ℕ) (s : System) : Type 0 where
  cache : s.log.cache ≡ false
  hung : s.hung ≡ []
  conserved : (x : Bytes) → count x s.written + count x (texts s.threads) ≡ n x

-- What `check` leaves of such a log: it never waits.
abbrev DirectBy : Ended LogData → Type 0
DirectBy (done l) = l.cache ≡ false
DirectBy (waits l) = ⊥
DirectBy panics = Unit
DirectBy deeper = Unit

check_locked-DirectBy :
    (month : ℕ → ℕ) (opens : Bool) (now : ℕ) (l : LogData)
    → l.cache ≡ false
    → l.mu ≡ false
    → DirectBy (check_locked month opens now l)
unfolding check_locked rotate up_stamp
check_locked-DirectBy month opens now l c m = elim (Bool-cases (ltb now l.stamp)) [
  | inl late ↦ rw (m, check_locked, late) c
  | inr first ↦ elim (Bool-cases opens) [
    | inl o ↦ rw (m, check_locked, first, rotate, c, o) refl
    | inr o ↦ rw (m, check_locked, first, rotate, c, o) tt
  ]
]

-- The goroutine that acts is out of the list, with its text.
abbrev Pending : (Bytes → ℕ) → System → Bytes → Type 0
Pending n s text =
    (x : Bytes) → count x s.written + (count x (texts s.threads) + count x (text ∷ [])) ≡ n x

checked-IsDirect :
    (n : Bytes → ℕ) (s t : System) (line : Bytes) (r : Ended LogData)
    → DirectBy r
    → s.hung ≡ []
    → Pending n s (unescape line)
    → checked s line r ≡ some t
    → IsDirect n t
unfolding checked texts
checked-IsDirect n s t line (done l) c h k e = subst (IsDirect n) (some-injective _ t e) (record {
  cache = c;
  hung = h;
  conserved = λ x. rw (count-texts_append x s.threads (sending line ∷ [])) (k x);
})
checked-IsDirect n s t line (waits l) c h k e = absurd c
checked-IsDirect n s t line panics c h k e = absurd cc
checked-IsDirect n s t line deeper c h k e = absurd cc

filed-IsDirect :
    (n : Bytes → ℕ) (s t : System) (line : Bytes) (r : Ended ℕ)
    → s.log.cache ≡ false
    → s.hung ≡ []
    → Pending n s (unescape line)
    → filed s line r ≡ some t
    → IsDirect n t
unfolding filed
filed-IsDirect n s t line (done num) c h k e = subst (IsDirect n) (some-injective _ t e) (record {
  cache = c;
  hung = h;
  conserved = λ x. omega (arith, k x, count-append x s.written (unescape line ∷ []));
})
filed-IsDirect n s t line (waits num) c h k e = absurd cc
filed-IsDirect n s t line panics c h k e = absurd cc
filed-IsDirect n s t line deeper c h k e = absurd cc

act-IsDirect :
    (n : Bytes → ℕ) (month : ℕ → ℕ) (opens : Bool) (reopens takes : ℕ → Bool) (s t : System)
    (th : Thread)
    → s.log.cache ≡ false
    → s.hung ≡ []
    → ((x : Bytes)
        → count x s.written + (count x (texts s.threads) + count x (texts (th ∷ []))) ≡ n x)
    → act month opens reopens takes s th ≡ some t
    → IsDirect n t
unfolding act texts
act-IsDirect n month opens reopens takes s t (checking now line) c h k e =
    elim (Bool-cases s.log.mu) [
      | inl held ↦
          let stuck : act month opens reopens takes s (checking now line) ≡ none =
            rw (held, act) refl in
          absurd cc
      | inr free ↦
          let r = check_locked month opens now s.log in
          let goes : act month opens reopens takes s (checking now line) ≡ checked s line r =
            rw (free, act) refl in
          checked-IsDirect n s t line r (check_locked-DirectBy month opens now s.log c free) h k
            (sym goes ∙ e)
    ]
act-IsDirect n month opens reopens takes s t (sending line) c h k e =
    let goes : act month opens reopens takes s (sending line)
        ≡ filed s line (send_file reopens takes) =
      rw (c, act) refl in
    filed-IsDirect n s t line (send_file reopens takes) c h k (sym goes ∙ e)

Step-IsDirect :
    (n : Bytes → ℕ) (month : ℕ → ℕ) {lines : List Bytes} {s t : System}
    → Step month s lines t
    → IsDirect n s
    → IsDirect (λ x. n x + count x (map unescape lines)) t
unfolding put_line change_err_level texts count
Step-IsDirect n month (puts s now line) i = record {
  cache = i.cache;
  hung = i.hung;
  conserved = λ x.
      let th : Thread = if is_late s.log now then checking now line else sending line in
      let one : texts (th ∷ []) ≡ unescape line ∷ [] = elim (Bool-cases (is_late s.log now)) [
        | inl e ↦ rw e refl
        | inr e ↦ rw e refl
      ] in
      let more : count x (texts (s.threads ++ th ∷ []))
          ≡ count x (texts s.threads) + count x (unescape line ∷ []) =
        count-texts_append x s.threads (th ∷ [])
        ∙ ap (λ ys. count x (texts s.threads) + count x ys) one in
      omega (arith, i.conserved x, more);
}
Step-IsDirect n month (changes s level) i = record {
  cache = i.cache;
  hung = i.hung;
  conserved = λ x. omega (arith, i.conserved x);
}
Step-IsDirect n month (acts s t before after th opens reopens takes h e) i =
    act-IsDirect (λ x. n x + 0) month opens reopens takes (record s { threads = before ++ after }) t
      th i.cache i.hung
      (λ x.
        let whole : count x (texts s.threads) ≡ count x (texts (before ++ th ∷ after)) =
          ap (λ ts. count x (texts ts)) h in
        omega (
          arith,
          i.conserved x,
          whole,
          count-texts_append x before (th ∷ after),
          count-texts_append x (th ∷ []) after,
          count-texts_append x before after,
        ))
      e

Reach-IsDirect :
    (month : ℕ → ℕ) {lines : List Bytes} {s t : System}
    → Reach month s lines t
    → IsDirect (λ x. 0) s
    → IsDirect (λ x. count x (map unescape lines)) t
unfolding count
Reach-IsDirect month (here s) i = i
Reach-IsDirect month (next {lines = lines} {more = more} r step) i =
    let j =
      Step-IsDirect (λ x. count x (map unescape lines)) month step (Reach-IsDirect month r i) in
    record {
      cache = j.cache;
      hung = j.hung;
      conserved = λ x.
          rw (map-append lines more)
            (omega (arith, j.conserved x, count-append x (map unescape lines) (map unescape more)));
    }

-- A log without a cache, from `NewLogs` on and in whatever order the goroutines run: no goroutine waits
-- for itself, and each text is in the files and with the goroutines still to write it just as often
-- as lines with it were put.
pub direct-lines :
    (month : ℕ → ℕ) (parsed : ℕ) (conf : Option LogStruct) (lines : List Bytes) (t : System)
    → (check_struct conf).cache ≡ false
    → Reach month (new_logs month parsed conf) lines t
    → (t.hung ≡ [])
      × ((x : Bytes) → count x t.written + count x (texts t.threads) ≡ count x (map unescape lines))
unfolding new_logs init_stamp up_stamp count texts
direct-lines month parsed conf lines t c r =
    let start : IsDirect (λ x. 0) (new_logs month parsed conf) = record {
      cache = c;
      hung = refl;
      conserved = λ x. refl;
    } in
    let i = Reach-IsDirect month r start in (i.hung, i.conserved)
