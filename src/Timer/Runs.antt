-- ===== src/Timer/Runs.antt =====
-- How often a task's function is called.
use gorigin.Prelude.{
  ℕ, zero, suc, ◌+◌, ◌≤◌, ◌≡◌, refl, pos, List, [], ◌∷◌, ◌++◌, none, some, Bool, true, false,
  length, replicate, if◌then◌else◌, arith,
}
use gorigin.Timer.{
  TimerFunc, FunctionType, func_only, func_arg, func_bool, func_arg_bool, is_counted, run_func,
  run_times, run_task,
}

-- The calls of a task's function while the ticker starts it again and again, with what the function
-- answers each time.
unfoldable pub calls : List Bool → TimerFunc → ℕ
calls [] task = 0
calls (answer ∷ answers) task =
    let (called, back) = run_task answer task in
    (if called then 1 else 0) + elim back [ none ↦ 0 | some d ↦ calls answers d ]

run_func-counted :
    (kind : FunctionType) (answer : Bool) → is_counted kind ≡ true → run_func kind answer ≡ true
unfolding run_func
run_func-counted func_only answer h = refl
run_func-counted func_arg answer h = refl
run_func-counted func_bool answer h = absurd (ground arith)
run_func-counted func_arg_bool answer h = absurd (ground arith)

run_func-free :
    (kind : FunctionType) (answer : Bool) → is_counted kind ≡ false → run_func kind answer ≡ answer
unfolding run_func
run_func-free func_only answer h = absurd (ground arith)
run_func-free func_arg answer h = absurd (ground arith)
run_func-free func_bool answer h = refl
run_func-free func_arg_bool answer h = refl

-- A task for a number of runs is called exactly so often, as soon as the ticker has started it so
-- often, whatever the function answers.
pub calls-counted :
    (n : ℕ) (answers : List Bool) (task : TimerFunc)
    → is_counted task.func_type ≡ true
    → task.times ≡ pos n
    → n ≤ length answers
    → calls answers task ≡ n
unfolding calls run_task run_times
calls-counted zero [] task k e h = refl
calls-counted zero (a ∷ rest) task k e h = rw (k, e, calls) refl
calls-counted (suc n) [] task k e h = absurd (omega arith)
calls-counted (suc zero) (a ∷ rest) task k e h = rw (k, e, calls) refl
calls-counted (suc (suc n)) (a ∷ rest) task k e h =
    let d : TimerFunc = record task { next = task.next + task.interval; times = pos (suc n) } in
    rw (k, e, calls, run_func-counted task.func_type a k)
      (omega (arith, calls-counted (suc n) rest d k refl (omega arith)))

-- A task whose function decides is called until the function first says no, that call included.
pub calls-until :
    (k : ℕ) (answers : List Bool) (task : TimerFunc)
    → is_counted task.func_type ≡ false
    → calls (replicate k true ++ (false ∷ answers)) task ≡ k + 1
unfolding calls run_task
calls-until zero answers task h = rw (h, calls, run_func-free task.func_type false h) refl
calls-until (suc k) answers task h =
    rw (h, calls, run_func-free task.func_type true h)
      (omega (arith, calls-until k answers (record task { next = task.next + task.interval }) h))
