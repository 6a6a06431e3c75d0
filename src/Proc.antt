-- ===== src/Proc.antt =====
-- process_py/process-run.py: class scheduler, the state machine of processes that compute and issue
-- I/O. A process is an entry of `proc_info`, whose keys are the numbers from 0 on, with its list of
-- `io_finish_times`; the entries `pc_` and `pid_`, which nothing reads, are left out.
pub mod Recolor
pub mod Schedule
pub mod Finish
pub mod Weight
pub mod Tick
pub mod Issue
pub mod Ends
pub mod Loop
pub mod Main
mod Tests
use os_tep.Prelude.{
  ℕ, zero, suc, ◌+◌, ◌-◌, ◌*◌, ◌/◌, ◌%◌, ◌≤◌, ◌<◌, ◌≡◌, refl, sym, ap, ◌∙◌, ◌≢◌, ◌↔◌, ◌⊎◌, inl, inr,
  Bool, true, false, not, ◌&&◌, ◌||◌, Option, none, some, List, [], ◌∷◌, ◌++◌, map, arith, ltb, leb,
  ◌==◌, if◌then◌else◌, Bool-cases, Option-cases, length, get_elem?, set, take, drop, replicate,
  get_or,
}
use os_tep.Prelude.Fault.{
  Fault, key_error, assertion_error, type_error, Result, ok, raise, ◌>>=◌, check, ◌>>◌,
}

pub data Action : Type 0 where
  compute io : Action

pub data State : Type 0 where
  running ready finished waiting : State

pub data SwitchOn : Type 0 where
  on_io on_end : SwitchOn

pub data IoDone : Type 0 where
  run_later run_immediate : IoDone

pub record Config : Type 0 where
  pub switch : SwitchOn
  pub io_done : IoDone
  pub io_length : ℕ

pub record Process : Type 0 where
  pub code : List Action
  pub state : State
  pub finish_times : List ℕ

pub record Scheduler : Type 0 where
  pub procs : List Process
  pub curr : ℕ

abbrev pub state_num : State → ℕ
state_num running = 0
state_num ready = 1
state_num finished = 2
state_num waiting = 3

abbrev pub is : State → State → Bool
is a b = state_num a == state_num b

abbrev pub ends : SwitchOn → Bool
ends on_io = false
ends on_end = true

abbrev pub is_nil : List Action → Bool
is_nil [] = true
is_nil (a ∷ code) = false

-- `new_process` and `load`, with the instructions that the description gives
pub load : List Action → List Process → List Process
load code procs = procs ++ record { code = code; state = ready; finish_times = [] } ∷ []

-- the loop of the main program over the descriptions
pub load_all : List (List Action) → List Process → List Process
unfolding load
load_all [] procs = procs
load_all (code ∷ codes) procs = load_all codes (load code procs)

pub get_proc : ℕ → Scheduler → Result Process
get_proc pid s = elim (get_elem? s.procs pid) [ none ↦ raise key_error | some p ↦ ok p ]

-- `move_to_ready`, `move_to_wait`, `move_to_running` and `move_to_done`: the process must be in the
-- expected state
pub move : State → State → ℕ → Scheduler → Result Scheduler
unfolding get_proc
move expected target pid s = do
  p ← get_proc pid s
  check (is p.state expected) assertion_error
  ok (record s { procs = set s.procs pid (record p { state = target }) })

-- `next_proc(pid)`
pub run_proc : ℕ → Scheduler → Result Scheduler
unfolding move
run_proc pid s = move ready running pid (record s { curr = pid })

-- the first process that is ready, in a list that starts at index `pid`
pub first_ready : ℕ → List Process → Option ℕ
first_ready pid [] = none
first_ready pid (p ∷ ps) = if is p.state ready then some pid else first_ready (pid + 1) ps

-- `next_proc()`, from the results of its two loops
pub choose : Option ℕ → Option ℕ → Scheduler → Result Scheduler
unfolding run_proc
choose (some pid) later s = run_proc pid s
choose none (some pid) s = run_proc pid s
choose none none s = ok s

pub next_proc : Scheduler → Result Scheduler
unfolding first_ready choose
next_proc s =
    choose (first_ready (s.curr + 1) (drop (s.curr + 1) s.procs))
      (first_ready 0 (take (s.curr + 1) s.procs)) s

pub num_active : List Process → ℕ
num_active [] = 0
num_active (p ∷ ps) = (if is p.state finished then 0 else 1) + num_active ps

pub num_runnable : List Process → ℕ
num_runnable [] = 0
num_runnable (p ∷ ps) = (if is p.state ready || is p.state running then 1 else 0) + num_runnable ps

-- `get_ios_in_flight`
pub later_than : ℕ → List ℕ → ℕ
later_than clock [] = 0
later_than clock (t ∷ ts) = (if ltb clock t then 1 else 0) + later_than clock ts

pub ios_in_flight : ℕ → List Process → ℕ
unfolding later_than
ios_in_flight clock [] = 0
ios_in_flight clock (p ∷ ps) = later_than clock p.finish_times + ios_in_flight clock ps

pub check_if_done : Scheduler → Result Scheduler
unfolding move next_proc
check_if_done s = do
  p ← get_proc s.curr s
  let ended : Result Scheduler = (do s' ← move running finished s.curr s; next_proc s')
  if is_nil p.code && is p.state running then ended else ok s

-- `clock_tick in self.io_finish_times[pid]`
pub contains : ℕ → List ℕ → Bool
contains n [] = false
contains n (t ∷ ts) = t == n || contains n ts

-- IO_RUN_IMMEDIATE: a process that runs is made ready, and process `pid` runs
pub preempt : ℕ → Scheduler → Result Scheduler
unfolding move
preempt pid s = do
  p ← get_proc s.curr s
  let stopped : Result Scheduler = move running ready s.curr s
  if not (s.curr == pid) && is p.state running then stopped else ok s

pub wake : Config → ℕ → Scheduler → Result Scheduler
unfolding preempt run_proc num_runnable
wake cfg pid s = elim cfg.io_done [
  | run_immediate ↦ do s' ← preempt pid s; run_proc pid s'
  | run_later ↦ do
    let back : Result Scheduler = run_proc pid s
    s' ← if ends cfg.switch && ltb 1 (num_runnable s.procs) then back else ok s
    let only : Result Scheduler = run_proc pid s'
    if num_runnable s'.procs == 1 then only else ok s'
]

-- the body of the loop that looks for I/O that has finished
pub finish_io : Config → ℕ → ℕ → Scheduler → Result Scheduler
unfolding contains wake check_if_done
finish_io cfg clock pid s = do
  p ← get_proc pid s
  let woken : Result Scheduler = (do
    s1 ← move waiting ready pid s
    s2 ← wake cfg pid s1
    check_if_done s2)
  if contains clock p.finish_times then woken else ok s

-- `count` processes from `pid` on
pub finish_ios : Config → ℕ → ℕ → ℕ → Scheduler → Result Scheduler
unfolding finish_io
finish_ios cfg clock zero pid s = ok s
finish_ios cfg clock (suc count) pid s = do
  s' ← finish_io cfg clock pid s
  finish_ios cfg clock count (pid + 1) s'

-- the instruction of the current process, if it runs and has one, and the scheduler without it
pub take_instruction : Scheduler → Process → Option Action × Scheduler
take_instruction s p = elim p.code [
  | [] ↦ (none, s)
  | a ∷ rest ↦
      if is p.state running
      then (some a, record s { procs = set s.procs s.curr (record p { code = rest }) })
      else (none, s)
]

-- what follows an I/O instruction
pub issue : Config → ℕ → Scheduler → Result Scheduler
unfolding move next_proc
issue cfg clock s = do
  s1 ← move running waiting s.curr s
  p ← get_proc s1.curr s1
  let times = p.finish_times ++ (clock + cfg.io_length) ∷ []
  let s2 = record s1 { procs = set s1.procs s1.curr (record p { finish_times = times }) }
  let switched : Result Scheduler = next_proc s2
  if ends cfg.switch then ok s2 else switched

pub obey : Config → ℕ → Option Action → Scheduler → Result Scheduler
unfolding issue
obey cfg clock none s = ok s
obey cfg clock (some compute) s = ok s
obey cfg clock (some io) s = issue cfg clock s

-- the variables of `run`
pub record Run : Type 0 where
  pub sched : Scheduler
  pub clock_tick : ℕ
  pub cpu_busy : ℕ
  pub io_busy : ℕ

abbrev pub ran : Option Action → ℕ
ran none = 0
ran (some a) = 1

-- the body of the `while` loop
pub tick : Config → Run → Result Run
unfolding finish_ios take_instruction obey check_if_done ios_in_flight
tick cfg r = do
  let clock = r.clock_tick + 1
  s1 ← finish_ios cfg clock (length r.sched.procs) 0 r.sched
  p ← get_proc s1.curr s1
  let (instruction, s2) = take_instruction s1 p
  s3 ← obey cfg clock instruction s2
  s4 ← check_if_done s3
  ok (record {
    sched = s4;
    clock_tick = clock;
    cpu_busy = r.cpu_busy + ran instruction;
    io_busy = r.io_busy + (if ltb 0 (ios_in_flight clock s2.procs) then 1 else 0);
  })

-- `while self.get_num_active() > 0`, for at most `fuel` rounds; `none` if that is not enough
pub ticks : ℕ → Config → Run → Result (Option Run)
unfolding tick num_active
ticks zero cfg r = ok none
ticks (suc fuel) cfg r =
    let rest = tick cfg r >>= ticks fuel cfg in
    if ltb 0 (num_active r.sched.procs) then rest else ok (some r)

-- `run`: the first process is made active. Without processes it returns None, which the main
-- program cannot take apart.
pub run : ℕ → Config → List Process → Result (Option Run)
unfolding move ticks
run fuel cfg [] = raise type_error
run fuel cfg procs = do
  s ← move ready running 0 (record { procs = procs; curr = 0 })
  ticks fuel cfg (record { sched = s; clock_tick = 0; cpu_busy = 0; io_busy = 0 })
