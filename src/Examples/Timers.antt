-- ===== src/Examples/Timers.antt =====
-- A timer with a task, and zones.
use gorigin.Prelude.{◌≡◌, refl, pos, [], ◌∷◌, none, some, load, nat_key, arith}
use gorigin.Timer.{TimerFunc, TimerData, func_only, func_bool, put, put_new, check_save, tick}
use gorigin.Timer.Tables.{In}
use gorigin.Timer.Due.{IsTimer}
use gorigin.Timer.Waiting.{stays, rounds, checks, adds, put_new-starts}

abbrev timer : TimerData
timer = record { one = []; two = []; zone = pos 0; uniq = 0; part = 1000; next = 0 }

timer-IsTimer : IsTimer timer
timer-IsTimer = record { unique_one = tt; unique_two = tt; low_one = tt; low_two = tt }

abbrev task : TimerFunc
task = record { next = 700; uniq = 1; interval = 500; times = pos 2; func_type = func_only }

abbrev decider : TimerFunc
decider = record { next = 700; uniq = 1; interval = 500; times = pos 0; func_type = func_bool }

abbrev far_timer : TimerData
far_timer = record timer { two = (1, task) ∷ [] }

abbrev near_timer : TimerData
near_timer = record timer { one = (1, task) ∷ [] }

near_task : load 1 near_timer.one ≡ some task
unfolding load
near_task = refl

abbrev added : TimerData
added = (put_new timer 5000000 7000000000 (pos 2) func_only).0

-- A round at 3000, another task at 4000 and a check at 4500; a check at 6100, then a round at 7000.
abbrev busy : TimerData
busy = check_save (put_new (tick added 3000).0 4000000000 9000000000 (pos 1) func_only).0 4500

put_new-starts_example :
    (t : TimerFunc) × (t.uniq ≡ 1)
    × (t.times ≡ pos 2)
    × In t (tick (tick (check_save busy 6100) 7000).0 7200).1
    × (load 1 (tick (tick (check_save busy 6100) 7000).0 7200).0.one ≡ none)
    × (load 1 (tick (tick (check_save busy 6100) 7000).0 7200).0.two ≡ none)
unfolding put_new put tick check_save
put_new-starts_example =
    put_new-starts timer busy (tick (check_save busy 6100) 7000).0 5000000 7000000000 6100 7200
      (pos 2) func_only timer-IsTimer (omega arith)
      (rounds added busy 3000 (omega arith) (
        adds (tick added 3000).0 busy 4000000000 9000000000 (pos 1) func_only (omega arith)
          (checks _ busy 4500 (stays busy))))
      (omega arith)
      (rounds (check_save busy 6100) (tick (check_save busy 6100) 7000).0 7000 (omega arith)
        (stays (tick (check_save busy 6100) 7000).0))
      (omega arith)
