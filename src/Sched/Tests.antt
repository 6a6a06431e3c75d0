-- ===== src/Sched/Tests.antt =====
-- Schedules of schedular/schedular.py, and the theorems about them at concrete job lists.
use os_tep.Prelude.{◌+◌, ◌≤◌, ◌≡◌, refl, List, [], ◌∷◌, arith}
use os_tep.Prelude.Fault.{Returns}
use os_tep.Sched.{Job, fifo, sjf, round_robin, turns}
use os_tep.Sched.Shortest.{sjf_lem}
use os_tep.Sched.Fair.{IsDistinct, work}
use os_tep.Sched.Turns.{IsServed, round_robin_lem}
use mathlib.Core.List.{Permᴰ}

abbrev jobs : List Job
jobs = (0, 9) ∷ (1, 3) ∷ []

abbrev turned : List Job
turned = (1, 3) ∷ (0, 9) ∷ []

turned_perm : Permᴰ jobs turned
turned_perm = Permᴰ.swap refl refl

fifo_runs : fifo jobs ≡ record { count = 2; response_sum = 9; turnaround_sum = 21; wait_sum = 9 }
unfolding fifo
fifo_runs = refl

sjf_lem_example :
    ((sjf jobs).wait_sum ≤ (fifo turned).wait_sum)
    × ((sjf jobs).turnaround_sum ≤ (fifo turned).turnaround_sum)
sjf_lem_example = sjf_lem jobs turned turned_perm

jobs-IsDistinct : IsDistinct jobs
jobs-IsDistinct = (refl, (refl, tt))

round_robin_lem_example : Returns (IsServed jobs) (turns (work jobs + 1) 2 (round_robin jobs))
round_robin_lem_example = round_robin_lem 2 jobs (omega arith) jobs-IsDistinct
