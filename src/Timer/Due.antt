-- ===== src/Timer/Due.antt =====
-- From `AddDurationFunction` and the like to the round that starts the task.
use gorigin.Prelude.{
  ℕ, ◌+◌, ◌/◌, ◌%◌, ◌^◌, ◌≤◌, ◌<◌, ◌≡◌, inl, inr, ℤ, [], ◌∷◌, none, leb, Dict, load, store, Every,
  Every-load, Every-store, Every-keep, Unique, keep-Unique, store-Unique, nat_key, Bool-cases,
  Option-cases, arith,
}
use gorigin.Timer.{TimerFunc, FunctionType, TimerData, put, move, check_save, tick, put_new}

move-Unique : (limit : ℕ) (two one : Dict ℕ TimerFunc) → Unique one → Unique (move limit two one)
unfolding move
move-Unique limit [] one u = u
move-Unique limit ((k, v) ∷ two) one u = elim (Bool-cases (leb v.next limit)) [
  | inl soon ↦ rw soon (move-Unique limit two (store k v one) (store-Unique k v one u))
  | inr later ↦ rw later (move-Unique limit two one u)
]

-- No number twice, and none beyond the counter.
pub record IsTimer (s : TimerData) : Type 0 where
  pub unique_one : Unique s.one
  pub unique_two : Unique s.two
  pub low_one : Every (λ k v. k ≤ s.uniq) s.one
  pub low_two : Every (λ k v. k ≤ s.uniq) s.two

pub Every-absent :
    (m : Dict ℕ TimerFunc) (n k : ℕ) → Every (λ j v. j ≤ n) m → n < k → load k m ≡ none
Every-absent m n k h lt = elim (Option-cases (load k m)) [
  | inl e ↦ e
  | inr (v, e) ↦ absurd (omega (arith, Every-load (λ j (t : TimerFunc). j ≤ n) k v m h e))
]

Every-grow : (m : Dict ℕ TimerFunc) (n : ℕ) → Every (λ j v. j ≤ n) m → Every (λ j v. j ≤ n + 1) m
Every-grow [] n h = tt
Every-grow ((k, v) ∷ m) n h = (omega (arith, h.0), Every-grow m n h.1)

pub put-IsTimer :
    (s : TimerData) (now : ℕ) (task : TimerFunc)
    → task.uniq ≤ s.uniq
    → IsTimer s
    → IsTimer (put s now task)
unfolding put
put-IsTimer s now task low v = elim (Bool-cases (leb task.next (now + s.part))) [
  | inl soon ↦ rw soon (record {
    unique_one = store-Unique task.uniq task s.one v.unique_one;
    unique_two = v.unique_two;
    low_one = Every-store (λ j (t : TimerFunc). j ≤ s.uniq) task.uniq task s.one low v.low_one;
    low_two = v.low_two;
  })
  | inr far ↦ rw far (record {
    unique_one = v.unique_one;
    unique_two = store-Unique task.uniq task s.two v.unique_two;
    low_one = v.low_one;
    low_two = Every-store (λ j (t : TimerFunc). j ≤ s.uniq) task.uniq task s.two low v.low_two;
  })
]

move-Every :
    (P : ℕ → TimerFunc → Type 0) (limit : ℕ) (two one : Dict ℕ TimerFunc)
    → Every P two
    → Every P one
    → Every P (move limit two one)
unfolding move
move-Every P limit [] one h g = g
move-Every P limit ((k, v) ∷ two) one (p, h) g = elim (Bool-cases (leb v.next limit)) [
  | inl soon ↦ rw soon (move-Every P limit two (store k v one) h (Every-store P k v one p g))
  | inr later ↦ rw later (move-Every P limit two one h g)
]

pub check_save-IsTimer : (s : TimerData) (now : ℕ) → IsTimer s → IsTimer (check_save s now)
unfolding check_save
check_save-IsTimer s now v = record {
  unique_one = move-Unique (now + s.part) s.two s.one v.unique_one;
  unique_two = keep-Unique _ s.two v.unique_two;
  low_one = move-Every (λ k t. k ≤ s.uniq) (now + s.part) s.two s.one v.low_two v.low_one;
  low_two = Every-keep (λ k t. k ≤ s.uniq) _ s.two v.low_two;
}

pub tick-IsTimer : (s : TimerData) (now : ℕ) → IsTimer s → IsTimer (tick s now).0
unfolding tick
tick-IsTimer s now v = record {
  unique_one = keep-Unique _ s.one v.unique_one;
  unique_two = v.unique_two;
  low_one = Every-keep (λ k t. k ≤ s.uniq) _ s.one v.low_one;
  low_two = v.low_two;
}

pub put_new-IsTimer :
    (s : TimerData) (now duration : ℕ) (times : ℤ) (kind : FunctionType)
    → IsTimer s
    → s.uniq + 1 < 2 ^ 64
    → IsTimer (put_new s now duration times kind).0
unfolding put_new
put_new-IsTimer s now duration times kind v room =
    let new : (s.uniq + 1) % 2 ^ 64 ≡ s.uniq + 1 = omega arith in
    put-IsTimer (record s { uniq = (s.uniq + 1) % 2 ^ 64 }) (now / 1000000) _ (omega arith)
      (record {
        unique_one = v.unique_one;
        unique_two = v.unique_two;
        low_one = rw new (Every-grow s.one s.uniq v.low_one);
        low_two = rw new (Every-grow s.two s.uniq v.low_two);
      })
