-- ===== src/Proc/Loop.antt =====
-- The loop of `run` in process_py/process-run.py, which ends with every instruction executed.
use os_tep.Prelude.{
  ℕ, zero, suc, ◌+◌, ◌≤◌, ◌<◌, ◌≡◌, refl, ap, inl, inr, Option, none, some, List, [], ◌∷◌, arith,
  ltb, Bool-cases, length,
}
use os_tep.Prelude.Fault.{Result, ok, raise, Returns, Returns-map, Returns-bind}
use os_tep.Proc.{Action, finished, Config, Process, num_active, Run, tick, ticks}
use os_tep.Proc.Recolor.{is_iff}
use os_tep.Proc.Schedule.{Emptied, IsScheduled}
use os_tep.Proc.Weight.{Times, sum, code_left, weight}
use os_tep.Proc.Ends.{Ticked, tick-Ticked}

-- What the loop gives: all processes are done, without instructions, in the time that there is.
pub record Ended (cfg : Config) (r r' : Run) : Type 0 where
  pub all_done : num_active r'.sched.procs ≡ 0
  pub no_code : sum code_left r'.sched.procs ≡ 0
  pub all_executed : r'.cpu_busy ≡ r.cpu_busy + sum code_left r.sched.procs
  pub in_time : r'.clock_tick ≤ r.clock_tick + sum (weight cfg.io_length r.clock_tick) r.sched.procs

abbrev pub IsEnded : Config → Run → Option Run → Type 0
IsEnded cfg r none = ⊥
IsEnded cfg r (some r') = Ended cfg r r'

num_active_zero : (ps : List Process) → num_active ps ≡ 0 → Emptied ps → sum code_left ps ≡ 0
unfolding num_active
num_active_zero [] z out = refl
num_active_zero (p ∷ ps) z out =
    let over : p.state ≡ finished = (is_iff p.state finished).0 (ground arith) in
    let len : length p.code ≡ 0 = ap (λ (c : List Action). length c) (out 0 p refl over) in
    let rest : num_active ps ≡ 0 = ground arith in
    omega (arith, len, num_active_zero ps rest (λ i q e. out (suc i) q e))

Ended-later :
    (cfg : Config) (r r' r'' : Run)
    → 0 < num_active r.sched.procs
    → Ticked cfg r r'
    → Ended cfg r' r''
    → Ended cfg r r''
Ended-later cfg r r' r'' h t e = record {
  all_done = e.all_done;
  no_code = e.no_code;
  all_executed = omega (arith, e.all_executed, t.work);
  in_time = omega (arith, e.in_time, t.less h, t.later);
}

pub ticks-Ended :
    (fuel : ℕ) (cfg : Config) (r : Run)
    → 0 < cfg.io_length
    → IsScheduled cfg.switch r.sched
    → Times (λ _. r.clock_tick) r.sched.procs
    → sum (weight cfg.io_length r.clock_tick) r.sched.procs < fuel
    → Returns (IsEnded cfg r) (ticks fuel cfg r)
unfolding ticks
ticks-Ended zero cfg r l v t h = omega arith
ticks-Ended (suc fuel) cfg r l v t h = elim (Bool-cases (ltb 0 (num_active r.sched.procs))) [
  | inl active ↦
      let some_left : 0 < num_active r.sched.procs = ground arith in
      rw active (
        Returns-bind (Ticked cfg r) (IsEnded cfg r) (tick cfg r) (ticks fuel cfg)
          (tick-Ticked cfg r l v t)
          (λ r' k.
            Returns-map (IsEnded cfg r') (IsEnded cfg r) (ticks fuel cfg r')
              (ticks-Ended fuel cfg r' l k.scheduled k.times (omega (arith, k.less some_left, h)))
              (λ o e. later r' o some_left k e)))
  | inr idle ↦
      let z : num_active r.sched.procs ≡ 0 = ground arith in
      let no_code = num_active_zero r.sched.procs z v.spent in
      rw idle (record {
        all_done = z;
        no_code = no_code;
        all_executed = omega (arith, no_code);
        in_time = omega arith;
      })
]
  where
    later :
        (r' : Run) (o : Option Run)
        → 0 < num_active r.sched.procs
        → Ticked cfg r r'
        → IsEnded cfg r' o
        → IsEnded cfg r o
    later r' none a k e = absurd e
    later r' (some r'') a k e = Ended-later cfg r r' r'' a k e

pub returned_run :
    (cfg : Config) (r : Run) (m : Result (Option Run))
    → Returns (IsEnded cfg r) m
    → (r' : Run) × (m ≡ ok (some r')) × Ended cfg r r'
returned_run cfg r (ok (some r')) e = (r', refl, e)
returned_run cfg r (ok none) e = absurd e
returned_run cfg r (raise x) e = absurd e
