-- ===== src/Timer/Waiting.antt =====
-- A task on the lists, while the timer goes on with other tasks.
use gorigin.Prelude.{
  ℕ, ◌+◌, ◌/◌, ◌%◌, ◌^◌, ◌≤◌, ◌<◌, ◌≡◌, ◌≢◌, ◌⊎◌, refl, sym, ap, subst, ◌∙◌, inl, inr, ℤ, Option,
  none, some, not, leb, load, load-store, load-store_self, load-keep, nat_key, ◌==◌, ==_iff,
  Bool-cases, arith,
}
use mathlib.Core.Option.{some-injective}
use gorigin.Timer.{TimerFunc, FunctionType, TimerData, put, check_save, tick, put_new}
use gorigin.Timer.Tables.{In, load-check_save, load-tick}
use gorigin.Timer.Due.{
  IsTimer, Every-absent, put-IsTimer, check_save-IsTimer, tick-IsTimer, put_new-IsTimer,
}

-- What a timer does while a task of a number waits for its time: a round before that time, a
-- `checkSave` at any time, a new task, another task that is put back.
pub data Rest (k next : ℕ) : TimerData → TimerData → Type 0 where
  stays : (s : TimerData) → Rest k next s s
  rounds : (s t : TimerData) (now : ℕ) → now < next → Rest k next (tick s now).0 t → Rest k next s t
  checks : (s t : TimerData) (now : ℕ) → Rest k next (check_save s now) t → Rest k next s t
  adds :
      (s t : TimerData) (now duration : ℕ) (times : ℤ) (kind : FunctionType)
      → s.uniq + 1 < 2 ^ 64
      → Rest k next (put_new s now duration times kind).0 t
      → Rest k next s t
  returns :
      (s t : TimerData) (now : ℕ) (other : TimerFunc)
      → other.uniq ≢ k
      → other.uniq ≤ s.uniq
      → Rest k next (put s now other) t
      → Rest k next s t

-- A task on the first list only, and on one of both lists, by what the lists have under its number.
abbrev pub OnFirst : TimerFunc → Option TimerFunc → Option TimerFunc → Type 0
OnFirst task one two = (one ≡ some task) × (two ≡ none)

abbrev pub OnOne : TimerFunc → Option TimerFunc → Option TimerFunc → Type 0
OnOne task one two = OnFirst task one two ⊎ ((one ≡ none) × (two ≡ some task))

-- A timer in order, with a property of what its lists have under a number.
record Has (P : Option TimerFunc → Option TimerFunc → Type 0) (k : ℕ) (s : TimerData) : Type 0 where
  valid : IsTimer s
  known : k ≤ s.uniq
  lists : P (load k s.one) (load k s.two)

-- Another task on the lists.
put-other :
    (s : TimerData) (now k : ℕ) (other : TimerFunc)
    → other.uniq ≢ k
    → (load k (put s now other).one ≡ load k s.one) × (load k (put s now other).two ≡ load k s.two)
unfolding put
put-other s now k other apart = elim (Bool-cases (other.uniq == k)) [
  | inl same ↦ absurd (apart ((==_iff other.uniq k).0 same))
  | inr off ↦ elim (Bool-cases (leb other.next (now + s.part))) [
    | inl soon ↦ rw soon (load-store other.uniq k other s.one ∙ rw off refl, refl)
    | inr far ↦ rw far (refl, load-store other.uniq k other s.two ∙ rw off refl)
  ]
]

put-uniq : (s : TimerData) (now : ℕ) (other : TimerFunc) → (put s now other).uniq ≡ s.uniq
unfolding put
put-uniq s now other = elim (Bool-cases (leb other.next (now + s.part))) [
  | inl soon ↦ rw soon refl
  | inr far ↦ rw far refl
]

put_new-other :
    (s : TimerData) (k now duration : ℕ) (times : ℤ) (kind : FunctionType)
    → s.uniq + 1 < 2 ^ 64
    → k ≤ s.uniq
    → (load k (put_new s now duration times kind).0.one ≡ load k s.one)
      × (load k (put_new s now duration times kind).0.two ≡ load k s.two)
      × (k ≤ (put_new s now duration times kind).0.uniq)
unfolding put_new
put_new-other s k now duration times kind room known =
    let new : (s.uniq + 1) % 2 ^ 64 ≡ s.uniq + 1 = omega arith in
    let apart : (s.uniq + 1) % 2 ^ 64 ≢ k = λ e. absurd (omega arith) in
    let both = put-other (record s { uniq = (s.uniq + 1) % 2 ^ 64 }) (now / 1000000) k _ apart in
    (
      both.0,
      both.1,
      omega (arith, put-uniq (record s { uniq = (s.uniq + 1) % 2 ^ 64 }) (now / 1000000) _),
    )

tick-first :
    (k now : ℕ) (task : TimerFunc) (s : TimerData)
    → IsTimer s
    → now < task.next
    → OnFirst task (load k s.one) (load k s.two)
    → OnFirst task (load k (tick s now).0.one) (load k (tick s now).0.two)
unfolding tick
tick-first k now task s v early (one, two) = elim (load-tick s now k task v.unique_one one) [
  | inl (late, started, gone) ↦ absurd (omega arith)
  | inr (soon, kept) ↦ (kept, two)
]

tick-one :
    (k now : ℕ) (task : TimerFunc) (s : TimerData)
    → IsTimer s
    → now < task.next
    → OnOne task (load k s.one) (load k s.two)
    → OnOne task (load k (tick s now).0.one) (load k (tick s now).0.two)
unfolding tick
tick-one k now task s v early (inl first) = inl (tick-first k now task s v early first)
tick-one k now task s v early (inr (one, two)) =
    let kept = load-keep (λ key (w : TimerFunc). not (leb w.next now)) k s.one v.unique_one in
    inr (kept ∙ rw one refl, two)

check-first :
    (k now : ℕ) (task : TimerFunc) (s : TimerData)
    → IsTimer s
    → OnFirst task (load k s.one) (load k s.two)
    → OnFirst task (load k (check_save s now).one) (load k (check_save s now).two)
check-first k now task s v (one, two) = elim (load-check_save s now k v.unique_two) [
  | inl (e, same, gone) ↦ (same ∙ one, gone)
  | inr (w, e, x) ↦ absurd (cc (two, e))
]

-- A `checkSave` puts a task whose time is near on the first list.
check-near :
    (k now : ℕ) (task : TimerFunc) (s : TimerData)
    → IsTimer s
    → task.next ≤ now + s.part
    → OnOne task (load k s.one) (load k s.two)
    → OnFirst task (load k (check_save s now).one) (load k (check_save s now).two)
check-near k now task s v soon (inl first) = check-first k now task s v first
check-near k now task s v soon (inr (one, two)) = elim (load-check_save s now k v.unique_two) [
  | inl (e, same, gone) ↦ absurd (cc (two, e))
  | inr (w, e, inl (near', there, gone)) ↦ (there ∙ sym e ∙ two, gone)
  | inr (w, e, inr (far, same, there)) ↦
      let wt : w ≡ task = some-injective w task (sym e ∙ two) in
      absurd (omega (arith, ap (λ (t : TimerFunc). t.next) wt))
]

check-one :
    (k now : ℕ) (task : TimerFunc) (s : TimerData)
    → IsTimer s
    → OnOne task (load k s.one) (load k s.two)
    → OnOne task (load k (check_save s now).one) (load k (check_save s now).two)
check-one k now task s v (inl first) = inl (check-first k now task s v first)
check-one k now task s v (inr (one, two)) = elim (load-check_save s now k v.unique_two) [
  | inl (e, same, gone) ↦ absurd (cc (two, e))
  | inr (w, e, inl (near', there, gone)) ↦ inl (there ∙ sym e ∙ two, gone)
  | inr (w, e, inr (far, same, there)) ↦ inr (same ∙ one, there ∙ sym e ∙ two)
]

check_save-known : (s : TimerData) (now k : ℕ) → k ≤ s.uniq → k ≤ (check_save s now).uniq
unfolding check_save
check_save-known s now k h = h

module _ (k next : ℕ) (P : Option TimerFunc → Option TimerFunc → Type 0)
    (ticks : (s : TimerData) (now : ℕ)
      → IsTimer s
      → now < next
      → P (load k s.one) (load k s.two)
      → P (load k (tick s now).0.one) (load k (tick s now).0.two))
    (checked : (s : TimerData) (now : ℕ)
      → IsTimer s
      → P (load k s.one) (load k s.two)
      → P (load k (check_save s now).one) (load k (check_save s now).two)) where
  -- What rounds and checks keep of a number, the timer keeps while it rests.
  Rest-Has : {s t : TimerData} → Rest k next s t → Has P k s → Has P k t
  unfolding tick check_save
  Rest-Has (stays s) h = h
  Rest-Has (rounds s t now early r) h = Rest-Has r (record {
    valid = tick-IsTimer s now h.valid;
    known = h.known;
    lists = ticks s now h.valid early h.lists;
  })
  Rest-Has (checks s t now r) h = Rest-Has r (record {
    valid = check_save-IsTimer s now h.valid;
    known = h.known;
    lists = checked s now h.valid h.lists;
  })
  Rest-Has (adds s t now duration times kind room r) h =
      let (one, two, known) = put_new-other s k now duration times kind room h.known in
      Rest-Has r (record {
        valid = put_new-IsTimer s now duration times kind h.valid room;
        known = known;
        lists =
            subst (λ o. P o (load k (put_new s now duration times kind).0.two)) (sym one)
              (subst (λ o. P (load k s.one) o) (sym two) h.lists);
      })
  Rest-Has (returns s t now other apart low r) h =
      let (one, two) = put-other s now k other apart in
      Rest-Has r (record {
        valid = put-IsTimer s now other low h.valid;
        known = omega (arith, h.known, put-uniq s now other);
        lists =
            subst (λ o. P o (load k (put s now other).two)) (sym one)
              (subst (λ o. P (load k s.one) o) (sym two) h.lists);
      })

-- A task with a number that is free.
put-OnOne :
    (s : TimerData) (now : ℕ) (task : TimerFunc)
    → load task.uniq s.one ≡ none
    → load task.uniq s.two ≡ none
    → OnOne task (load task.uniq (put s now task).one) (load task.uniq (put s now task).two)
unfolding put
put-OnOne s now task one two = elim (Bool-cases (leb task.next (now + s.part))) [
  | inl soon ↦ rw soon (inl (load-store_self task.uniq task s.one, two))
  | inr far ↦ rw far (inr (one, load-store_self task.uniq task s.two))
]

-- The task that `put_new` makes is on one of the lists.
put_new-OnOne :
    (s : TimerData) (now duration : ℕ) (times : ℤ) (kind : FunctionType)
    → IsTimer s
    → s.uniq + 1 < 2 ^ 64
    → (task : TimerFunc) × (task.next ≡ (now + duration) / 1000000)
      × (task.uniq ≡ (put_new s now duration times kind).1)
      × (task.times ≡ times)
      × Has (OnOne task) (put_new s now duration times kind).1 (put_new s now duration times kind).0
unfolding put_new put
put_new-OnOne s now duration times kind v room =
    let id = (s.uniq + 1) % 2 ^ 64 in
    let new : id ≡ s.uniq + 1 = omega arith in
    let task : TimerFunc = record {
      next = (now + duration) / 1000000;
      uniq = id;
      interval = duration / 1000000;
      times = times;
      func_type = kind;
    } in
    let free1 = Every-absent s.one s.uniq id v.low_one (omega arith) in
    let free2 = Every-absent s.two s.uniq id v.low_two (omega arith) in
    (
      task,
      refl,
      refl,
      refl,
      record {
        valid = put_new-IsTimer s now duration times kind v room;
        known = omega (arith, put-uniq (record s { uniq = id }) (now / 1000000) task);
        lists = put-OnOne (record s { uniq = id }) (now / 1000000) task free1 free2;
      },
    )

-- A new task, whatever its first time is, while the timer goes on in any order: rounds before that
-- time, checks, new tasks and other tasks that are put back, while numbers are free; with a check at
-- some point that finds the task's time at most `part` away, or past, and after it again such steps.
-- The first round at or after the task's time starts the task, with the number of runs that it was
-- given, and takes it off the lists.
pub put_new-starts :
    (s s1 s2 : TimerData) (now duration check later : ℕ) (times : ℤ) (kind : FunctionType)
    → IsTimer s
    → s.uniq + 1 < 2 ^ 64
    → Rest
        (put_new s now duration times kind).1
        ((now + duration) / 1000000)
        (put_new s now duration times kind).0
        s1
    → (now + duration) / 1000000 ≤ check + s1.part
    → Rest
        (put_new s now duration times kind).1
        ((now + duration) / 1000000)
        (check_save s1 check)
        s2
    → (now + duration) / 1000000 ≤ later
    → (task : TimerFunc) × (task.uniq ≡ (put_new s now duration times kind).1)
      × (task.times ≡ times)
      × In task (tick s2 later).1
      × (load (put_new s now duration times kind).1 (tick s2 later).0.one ≡ none)
      × (load (put_new s now duration times kind).1 (tick s2 later).0.two ≡ none)
unfolding tick
put_new-starts s s1 s2 now duration check later times kind v room before near' after late =
    let id = (put_new s now duration times kind).1 in
    let next = (now + duration) / 1000000 in
    let (task, at', number, runs, added) = put_new-OnOne s now duration times kind v room in
    let waits : Has (OnOne task) id s1 =
      Rest-Has id next (OnOne task)
        (λ t time ok early. tick-one id time task t ok (omega (arith, at')))
        (λ t time ok. check-one id time task t ok) before added in
    let first : Has (OnFirst task) id (check_save s1 check) = record {
      valid = check_save-IsTimer s1 check waits.valid;
      known = check_save-known s1 check id waits.known;
      lists = check-near id check task s1 waits.valid (omega (arith, at')) waits.lists;
    } in
    let ready : Has (OnFirst task) id s2 =
      Rest-Has id next (OnFirst task)
        (λ t time ok early. tick-first id time task t ok (omega (arith, at')))
        (λ t time ok. check-first id time task t ok) after first in
    elim (load-tick s2 later id task ready.valid.unique_one ready.lists.0) [
      | inl (due', started, gone) ↦ (task, number, runs, started, gone, ready.lists.1)
      | inr (early, kept) ↦ absurd (omega (arith, at'))
    ]
