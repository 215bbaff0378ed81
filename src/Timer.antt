-- ===== src/Timer.antt =====
-- timer/cache.go, timer/common.go and timer/timer.go: the tasks of a timer. A user's function is known
-- by its answer only; times are not negative. A round of the ticker, a `checkSave` and a run of a
-- task are one step each.
pub mod Runs
pub mod Tables
pub mod Due
pub mod Waiting
pub mod Zone
pub mod ZoneLaws
pub mod Stamps
pub mod StampLaws
use gorigin.Prelude.{
  ℕ, zero, suc, ◌+◌, ◌/◌, ◌%◌, ◌^◌, ℤ, pos, negsuc, List, [], ◌∷◌, Option, none, some, Bool, true,
  false, not, ltb, leb, if◌then◌else◌, Dict, store, keep, nat_key,
}

pub data FunctionType : Type 0 where
  func_only func_arg func_bool func_arg_bool : FunctionType

-- The function itself and its argument are left out.
pub record TimerFunc : Type 0 where
  pub next : ℕ
  pub uniq : ℕ
  pub interval : ℕ
  pub times : ℤ
  pub func_type : FunctionType

pub record TimerData : Type 0 where
  pub one : Dict ℕ TimerFunc
  pub two : Dict ℕ TimerFunc
  pub zone : ℤ
  pub uniq : ℕ
  pub part : ℕ
  pub next : ℕ

-- `RunFunc`, with what the user's function answers.
unfoldable pub run_func : FunctionType → Bool → Bool
run_func func_only answer = true
run_func func_arg answer = true
run_func func_bool answer = answer
run_func func_arg_bool answer = answer

-- `data.funcType < FuncBool`.
abbrev pub is_counted : FunctionType → Bool
is_counted func_only = true
is_counted func_arg = true
is_counted func_bool = false
is_counted func_arg_bool = false

-- The end of `run`: the function is called, and the task goes on if it says so.
abbrev pub call_func : Bool → TimerFunc → Bool × Option TimerFunc
call_func answer task = (
  true,
  (if run_func task.func_type answer
      then some (record task { next = task.next + task.interval })
      else none),
)

-- The `switch data.times`.
unfoldable pub run_times : Bool → TimerFunc → ℤ → Bool × Option TimerFunc
run_times answer task (pos zero) = (false, none)
run_times answer task (pos (suc zero)) = (true, none)
run_times answer task (pos (suc (suc n))) = call_func answer (record task { times = pos (suc n) })
run_times answer task (negsuc zero) = call_func answer task
run_times answer task (negsuc (suc n)) =
    call_func answer (record task { times = negsuc (suc (suc n)) })

-- Whether `run` calls the function, and the task that it puts back.
unfoldable pub run_task : Bool → TimerFunc → Bool × Option TimerFunc
run_task answer task =
    if is_counted task.func_type then run_times answer task task.times else call_func answer task

unfoldable pub put : TimerData → ℕ → TimerFunc → TimerData
put t now task =
    if leb task.next (now + t.part)
    then record t { one = store task.uniq task t.one }
    else record t { two = store task.uniq task t.two }

unfoldable pub run : TimerData → ℕ → Bool → TimerFunc → TimerData × Bool
run s now answer task =
    let (called, back) = run_task answer task in
    (elim back [ none ↦ s | some d ↦ put s now d ], called)

-- The loop of `checkSave`: what is near goes to the first list.
unfoldable pub move : ℕ → Dict ℕ TimerFunc → Dict ℕ TimerFunc → Dict ℕ TimerFunc
move limit [] one = one
move limit ((key, v) ∷ two) one = move limit two (if leb v.next limit then store key v one else one)

unfoldable pub check_save : TimerData → ℕ → TimerData
check_save t now =
    let limit = now + t.part in
    record t { one = move limit t.two t.one; two = keep (λ key v. not (leb v.next limit)) t.two }

-- The tasks that a round starts, in the order of the list.
unfoldable pub due : ℕ → Dict ℕ TimerFunc → List TimerFunc
due now [] = []
due now ((key, v) ∷ one) = let rest = due now one in if leb v.next now then v ∷ rest else rest

-- A round of the ticker: the table, the tasks that it starts, and whether it starts `checkSave`.
unfoldable pub tick : TimerData → ℕ → TimerData × List TimerFunc × Bool
tick s now =
    let count = (s.next + 1) % 2 ^ 32 in
    let checks = leb 4 count in
    (
      record s {
        one = keep (λ key v. not (leb v.next now)) s.one;
        next = (if checks then 0 else count);
      },
      due now s.one,
      checks,
    )

-- `atomic.AddUint64(&s.uniq, 1)`, and the task under the new number. `now` and `duration` are
-- nanoseconds here.
unfoldable pub put_new : TimerData → ℕ → ℕ → ℤ → FunctionType → TimerData × ℕ
put_new s now duration times kind =
    let uniq = (s.uniq + 1) % 2 ^ 64 in
    (
      put (record s { uniq = uniq }) (now / 1000000)
          (record {
            next = (now + duration) / 1000000;
            uniq = uniq;
            interval = duration / 1000000;
            times = times;
            func_type = kind;
          }),
      uniq,
    )

-- A negative number of runs is -1; `is_nil` says that the function, or its argument, is nil.
unfoldable pub add_counted : TimerData → ℕ → ℕ → ℤ → Bool → FunctionType → TimerData × ℕ
add_counted s now duration (pos zero) is_nil kind = (s, 0)
add_counted s now duration (pos (suc n)) is_nil kind =
    if is_nil then (s, 0) else put_new s now duration (pos (suc n)) kind
add_counted s now duration (negsuc n) is_nil kind =
    if is_nil then (s, 0) else put_new s now duration (negsuc 0) kind

unfoldable pub add_duration_argument : TimerData → ℕ → ℕ → ℤ → Bool → TimerData × ℕ
add_duration_argument s now duration times is_nil = add_counted s now duration times is_nil func_arg

unfoldable pub add_duration_function : TimerData → ℕ → ℕ → ℤ → Bool → TimerData × ℕ
add_duration_function s now duration times is_nil =
    add_counted s now duration times is_nil func_only

unfoldable pub add_duration_boolean : TimerData → ℕ → ℕ → TimerData × ℕ
add_duration_boolean s now duration = put_new s now duration (pos 0) func_bool

unfoldable pub add_duration_arg_bool : TimerData → ℕ → ℕ → TimerData × ℕ
add_duration_arg_bool s now duration = put_new s now duration (pos 0) func_arg_bool

-- The loop of `TimeSplit` over the sorted tasks.
unfoldable pub split_at : List TimerFunc → ℕ → List TimerFunc × List TimerFunc
split_at [] stamp = ([], [])
split_at (row ∷ rows) stamp =
    let rest = split_at rows stamp in
    if ltb stamp row.next then ([], row ∷ rows) else (row ∷ rest.0, rest.1)

-- `TimeSplit`, with the library's `sort.Sort` by `Less` as an argument.
unfoldable pub time_split :
    (List TimerFunc → List TimerFunc) → List TimerFunc → ℕ → List TimerFunc × List TimerFunc
time_split sort [] stamp = ([], [])
time_split sort (row ∷ rows) stamp = split_at (sort (row ∷ rows)) stamp
