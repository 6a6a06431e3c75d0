-- ===== src/Sched.antt =====
-- schedular/schedular.py: the schedules FIFO, SJF and RR with the statistics that are printed. Run
-- times, and with them all times, are natural numbers.
pub mod Shortest
pub mod Fair
pub mod Turns
mod Tests
use os_tep.Prelude.{
  ℕ, zero, suc, ◌+◌, ◌-◌, ◌*◌, ◌/◌, ◌%◌, ◌≤◌, ◌<◌, ◌≡◌, refl, sym, ap, ◌∙◌, ◌≢◌, ◌↔◌, ◌⊎◌, inl, inr,
  Bool, true, false, not, ◌&&◌, ◌||◌, Option, none, some, List, [], ◌∷◌, ◌++◌, map, arith, ltb, leb,
  ◌==◌, if◌then◌else◌, Bool-cases, Option-cases, length, get_elem?, set, take, drop, replicate,
  get_or,
}
use os_tep.Prelude.Sorted.{sorted}
use os_tep.Prelude.Fault.{Result, ok, raise, index_error, ◌>>=◌}

-- `[jobnum, runtime]`
abbrev pub Job : Type 0
Job = ℕ × ℕ

pub record Sums : Type 0 where
  pub count : ℕ
  pub response_sum : ℕ
  pub turnaround_sum : ℕ
  pub wait_sum : ℕ

abbrev pub no_sums : Sums
no_sums = record { count = 0; response_sum = 0; turnaround_sum = 0; wait_sum = 0 }

-- FIFO: the loop of the final statistics, at time `t`
pub fifo_from : ℕ → Sums → List Job → Sums
fifo_from t sums [] = sums
fifo_from t sums (job ∷ jobs) =
    fifo_from (t + job.1)
      (record {
        count = sums.count + 1;
        response_sum = sums.response_sum + t;
        turnaround_sum = sums.turnaround_sum + (t + job.1);
        wait_sum = sums.wait_sum + t;
      })
      jobs

pub fifo : List Job → Sums
unfolding fifo_from
fifo jobs = fifo_from 0 no_sums jobs

abbrev pub by_runtime : Job → Job → Bool
by_runtime j k = leb j.1 k.1

-- `key=operator.itemgetter(1)`, and then FIFO
pub sjf : List Job → Sums
unfolding sorted fifo
sjf jobs = fifo (sorted by_runtime jobs)

-- the state of the loop of RR. The dictionaries have the job numbers as their keys; a response
-- that is -1 is `none`.
pub record RoundRobin : Type 0 where
  pub runlist : List Job
  pub jobcount : ℕ
  pub thetime : ℕ
  pub response : ℕ → Option ℕ
  pub turnaround : ℕ → ℕ
  pub lastran : ℕ → ℕ
  pub wait : ℕ → ℕ

pub update {ℓ} : {A : Type ℓ} → ℕ → A → (ℕ → A) → ℕ → A
update j v f k = if j == k then v else f k

pub round_robin : List Job → RoundRobin
round_robin jobs = record {
  runlist = jobs;
  jobcount = length jobs;
  thetime = 0;
  response = λ j. none;
  turnaround = λ j. 0;
  lastran = λ j. 0;
  wait = λ j. 0;
}

-- the time of the first run
pub respond : Option ℕ → ℕ → Option ℕ
respond none t = some t
respond (some r) t = some r

-- the loop's body for the job that was taken from the front
pub serve : ℕ → Job → List Job → RoundRobin → RoundRobin
unfolding update respond
serve quantum (j, runtime) rest s =
    let goes_on = ltb quantum runtime in
    let ranfor = if goes_on then quantum else runtime in
    let now = s.thetime + ranfor in
    record {
      runlist = if goes_on then rest ++ (j, runtime - quantum) ∷ [] else rest;
      jobcount = if goes_on then s.jobcount else s.jobcount - 1;
      thetime = now;
      response = update j (respond (s.response j) s.thetime) s.response;
      turnaround = if goes_on then s.turnaround else update j now s.turnaround;
      lastran = update j now s.lastran;
      wait = update j (s.wait j + (s.thetime - s.lastran j)) s.wait;
    }

-- `runlist.pop(0)` and the loop's body
pub turn : ℕ → RoundRobin → Result RoundRobin
unfolding serve
turn quantum s = elim s.runlist [
  | [] ↦ raise index_error
  | job ∷ rest ↦ ok (serve quantum job rest s)
]

-- `while jobcount > 0`, for at most `fuel` rounds; `none` if that is not enough
pub turns : ℕ → ℕ → RoundRobin → Result (Option RoundRobin)
unfolding turn
turns zero quantum s = ok none
turns (suc fuel) quantum s =
    let rest = turn quantum s >>= turns fuel quantum in
    if s.jobcount == 0 then ok (some s) else rest
