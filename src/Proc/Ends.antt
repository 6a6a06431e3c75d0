-- ===== src/Proc/Ends.antt =====
-- A round of the loop of `run` in process_py/process-run.py.
use os_tep.Prelude.{
  get_elem?-lt, ℕ, ◌+◌, ◌≤◌, ◌<◌, ◌≡◌, refl, sym, ap, ◌∙◌, ◌≢◌, ◌⊎◌, inl, inr, Option, none, some,
  List, [], ◌∷◌, arith, ltb, if◌then◌else◌, Bool-cases, length, get_elem?, set,
}
use mathlib.Core.Path.{subst}
use os_tep.Prelude.Fault.{Result, ok, ◌>>=◌, Returns, Returns-map, Returns-bind}
use os_tep.Proc.{
  Action, State, running, ready, finished, waiting, Config, Process, Scheduler, is, get_proc,
  finish_ios, take_instruction, obey, check_if_done, num_active, ios_in_flight, Run, ran, tick,
}
use os_tep.Proc.Recolor.{At, same_process, get_proc_lem, is_iff}
use os_tep.Proc.Schedule.{IsScheduled, Checks, check_if_done-Checks, not_both}
use os_tep.Proc.Weight.{
  Due, Times, AreSimilar-Times, latest, latest-append, sum, code_left, weight, sum_weight-similar,
  sum_weight-finished, sum_weight-clock, sum_weight-waiting, sum_code-similar, NoneWaits,
  waiting-cases, num_active_none,
}
use os_tep.Proc.Tick.{Woken, finish_all-Woken}
use os_tep.Proc.Issue.{
  Obeyed, obey-Obeyed, take_instruction-some, take_instruction_empty, take_instruction_idle,
}

-- What a round gives: the invariants, at most one instruction executed, which is gone from the code, and
-- less to do.
pub record Ticked (cfg : Config) (r r' : Run) : Type 0 where
  pub scheduled : IsScheduled cfg.switch r'.sched
  pub times : Times (λ _. r'.clock_tick) r'.sched.procs
  pub later : r'.clock_tick ≡ r.clock_tick + 1
  pub one : (r'.cpu_busy ≡ r.cpu_busy) ⊎ (r'.cpu_busy ≡ r.cpu_busy + 1)
  pub work : r'.cpu_busy + sum code_left r'.sched.procs ≡ r.cpu_busy + sum code_left r.sched.procs
  pub less :
      0 < num_active r.sched.procs
      → sum (weight cfg.io_length r'.clock_tick) r'.sched.procs
        < sum (weight cfg.io_length r.clock_tick) r.sched.procs

-- the round from the instruction on
abbrev finish_tick : Config → Run → Option Action → Scheduler → Result Run
finish_tick cfg r i s = do
  s3 ← obey cfg (r.clock_tick + 1) i s
  s4 ← check_if_done s3
  ok (record {
    sched = s4;
    clock_tick = r.clock_tick + 1;
    cpu_busy = r.cpu_busy + ran i;
    io_busy = r.io_busy + (if ltb 0 (ios_in_flight (r.clock_tick + 1) s.procs) then 1 else 0);
  })

-- the round from the end of the I/O on
abbrev rest_of_tick : Config → Run → Scheduler → Result Run
rest_of_tick cfg r s = do
  p ← get_proc s.curr s
  let (i, s2) = take_instruction s p
  finish_tick cfg r i s2

rest_of_tick_lem :
    (cfg : Config) (r : Run) (s s2 : Scheduler) (p : Process) (i : Option Action)
    → At s.procs s.curr p
    → take_instruction s p ≡ (i, s2)
    → rest_of_tick cfg r s ≡ finish_tick cfg r i s2
rest_of_tick_lem cfg r s s2 p i at e = rw (get_proc_lem s.curr s p at, e) refl

-- the current process runs and has no instruction left
abbrev Ending : Scheduler → Type 0
Ending s = (p : Process) × At s.procs s.curr p × (p.state ≡ running) × (p.code ≡ [])

-- What holds before the last step of a round.
record Halfway (cfg : Config) (r : Run) (i : Option Action) (s : Scheduler) : Type 0 where
  scheduled : IsScheduled cfg.switch s
  times : Times (λ _. r.clock_tick + 1) s.procs
  work : ran i + sum code_left s.procs ≡ sum code_left r.sched.procs
  no_more :
      sum (weight cfg.io_length (r.clock_tick + 1)) s.procs
      ≤ sum (weight cfg.io_length r.clock_tick) r.sched.procs
  progress :
      (sum (weight cfg.io_length (r.clock_tick + 1)) s.procs
        < sum (weight cfg.io_length r.clock_tick) r.sched.procs)
      ⊎ Ending s
      ⊎ (num_active r.sched.procs ≡ 0)

module _ (cfg : Config) (r : Run) (i : Option Action) (s2 : Scheduler) where
  ran-cases :
      (a : Option Action)
      → (r.cpu_busy + ran a ≡ r.cpu_busy) ⊎ (r.cpu_busy + ran a ≡ r.cpu_busy + 1)
  ran-cases none = inl (omega arith)
  ran-cases (some a) = inr refl

  checked :
      (s s' : Scheduler)
      → Halfway cfg r i s
      → Checks cfg.switch s s'
      → Ticked cfg r (record {
        sched = s';
        clock_tick = r.clock_tick + 1;
        cpu_busy = r.cpu_busy + ran i;
        io_busy = r.io_busy + (if ltb 0 (ios_in_flight (r.clock_tick + 1) s2.procs) then 1 else 0);
      })
  checked s s' h k = record {
    scheduled = k.0.0;
    times = AreSimilar-Times (λ _. r.clock_tick + 1) s.procs s'.procs k.0.1 h.times;
    later = refl;
    one = ran-cases i;
    work = omega (arith, sum_code-similar s.procs s'.procs k.0.1, h.work);
    less = λ active.
        let le = sum_weight-similar cfg.io_length (r.clock_tick + 1) s.procs s'.procs k.0.1 in
        elim h.progress [
          | inl lt ↦ omega (arith, lt, le)
          | inr (inl (p, at, runs, nil)) ↦
              let (q, f, over) = k.1 p at runs nil in
              let lt =
                sum_weight-finished cfg.io_length (r.clock_tick + 1) s.procs s'.procs s.curr p q
                  k.0.1 at f (λ e. not_both runs e refl) over in
              omega (arith, lt, h.no_more)
          | inr (inr none_left) ↦ omega arith
        ];
  }

  finish_tick-Ticked :
      Returns (Halfway cfg r i) (obey cfg (r.clock_tick + 1) i s2)
      → Returns (Ticked cfg r) (finish_tick cfg r i s2)
  finish_tick-Ticked h =
      Returns-bind (Halfway cfg r i) (Ticked cfg r) (obey cfg (r.clock_tick + 1) i s2) _ h (λ s x.
        Returns-bind (Checks cfg.switch s) (Ticked cfg r) (check_if_done s) _
          (check_if_done-Checks cfg.switch s x.scheduled) (λ s' k. checked s s' x k))

obey-none : (cfg : Config) (c : ℕ) (s : Scheduler) → obey cfg c none s ≡ ok s
unfolding obey
obey-none cfg c s = refl

waiting_late : (c : ℕ) (st : State) (ts : List ℕ) → st ≡ waiting → Due c st ts → c < latest ts
waiting_late c st ts h d =
    let (w, past, e, a, lt) = subst (λ x. Due c x ts) h d in
    omega (arith, ap latest e, latest-append w past)

module _ (cfg : Config) (r : Run) (s : Scheduler) (v : IsScheduled cfg.switch r.sched)
    (t : Times (λ _. r.clock_tick) r.sched.procs)
    (w : Woken cfg r.clock_tick (length r.sched.procs) r.sched s)
    (t' : Times (λ _. r.clock_tick + 1) s.procs) (l : 0 < cfg.io_length) where
  lighter :
      sum (weight cfg.io_length (r.clock_tick + 1)) s.procs
      ≤ sum (weight cfg.io_length r.clock_tick) r.sched.procs
  lighter = omega (arith, w.no_more, sum_weight-clock cfg.io_length r.clock_tick r.sched.procs)

  -- the current process has an instruction
  busy-Ticked :
      (p : Process) (a : Action) (rest : List Action)
      → At s.procs s.curr p
      → p.state ≡ running
      → p.code ≡ a ∷ rest
      → Returns (Ticked cfg r) (rest_of_tick cfg r s)
  busy-Ticked p a rest at runs code =
      let s2 = record s { procs = set s.procs s.curr (record p { code = rest }) } in
      rw (rest_of_tick_lem cfg r s s2 p (some a) at (take_instruction-some s p a rest code runs)) (
        finish_tick-Ticked cfg r (some a) s2 (
          Returns-map (Obeyed cfg (r.clock_tick + 1) s) (Halfway cfg r (some a)) _
            (obey-Obeyed cfg (r.clock_tick + 1) s p a rest w.scheduled t' at runs code l)
            (λ s3 o. record {
              scheduled = o.scheduled;
              times = o.times;
              work = omega (arith, o.one_less, w.same_code);
              no_more = omega (arith, o.less, lighter);
              progress = inl (omega (arith, o.less, lighter));
            })))

  -- it has none, or does not run
  idle-Ticked :
      (p : Process)
      → At s.procs s.curr p
      → take_instruction s p ≡ (none, s)
      → (sum (weight cfg.io_length (r.clock_tick + 1)) s.procs
          < sum (weight cfg.io_length r.clock_tick) r.sched.procs)
        ⊎ Ending s
        ⊎ (num_active r.sched.procs ≡ 0)
      → Returns (Ticked cfg r) (rest_of_tick cfg r s)
  idle-Ticked p at e progress =
      rw (rest_of_tick_lem cfg r s s p none at e)
        (finish_tick-Ticked cfg r none s (rw (obey-none cfg (r.clock_tick + 1) s) halfway))
    where
      halfway : Halfway cfg r none s
      halfway = record {
        scheduled = w.scheduled;
        times = t';
        work = omega (arith, w.same_code);
        no_more = lighter;
        progress = progress;
      }

  -- Without a process to run, one waits, or all are done.
  stalled :
      (p : Process)
      → At s.procs s.curr p
      → p.state ≢ running
      → (sum (weight cfg.io_length (r.clock_tick + 1)) s.procs
          < sum (weight cfg.io_length r.clock_tick) r.sched.procs)
        ⊎ (num_active r.sched.procs ≡ 0)
  stalled p at idle = elim (waiting-cases r.sched.procs) [
    | inl (i, q, f, waits) ↦ inl (
        omega (
          arith,
          w.no_more,
          sum_weight-waiting cfg.io_length r.clock_tick r.sched.procs i q f
              (waiting_late r.clock_tick q.state q.finish_times waits (t i q f)),
        ))
    | inr n ↦
        let same = w.untouched n in
        inr (
          ap (λ (z : Scheduler). num_active z.procs) (sym same)
          ∙ num_active_none s.procs
              (λ i q f. all_done (subst (λ (z : Scheduler). NoneWaits z.procs) (sym same) n) i q f))
  ]
    where
      all_done : NoneWaits s.procs → (i : ℕ) (q : Process) → At s.procs i q → q.state ≡ finished
      all_done n i q f = by_state q.state refl
        where
          not_ready : q.state ≢ ready
          not_ready = elim (w.scheduled.busy p at) [
            | inl runs ↦ absurd (idle runs)
            | inr (inl none_ready) ↦ none_ready i q f
            | inr (inr (end, waits)) ↦ absurd (n s.curr p at waits)
          ]

          not_running : q.state ≢ running
          not_running runs =
              let here = w.scheduled.alone i q f runs in
              let pq = same_process s.procs s.curr at (ap (get_elem? s.procs) (sym here) ∙ f) in
              idle (ap (λ (z : Process). z.state) pq ∙ runs)

          by_state : (st : State) → q.state ≡ st → q.state ≡ finished
          by_state running e = absurd (not_running e)
          by_state ready e = absurd (not_ready e)
          by_state waiting e = absurd (n i q f e)
          by_state finished e = e

  rest_of_tick-Ticked : Returns (Ticked cfg r) (rest_of_tick cfg r s)
  rest_of_tick-Ticked =
      let (p, at) = get_elem?-lt s.curr s.procs w.scheduled.in_range in
      elim (Bool-cases (is p.state running)) [
        | inl h ↦ by_code p at ((is_iff p.state running).0 h) p.code refl
        | inr h ↦
            idle-Ticked p at (take_instruction_idle s p h)
              (elim (stalled p at (λ e. cc (sym h ∙ (is_iff p.state running).1 e))) [
                | inl lt ↦ inl lt
                | inr z ↦ inr (inr z)
              ])
      ]
    where
      by_code :
          (p : Process)
          → At s.procs s.curr p
          → p.state ≡ running
          → (code : List Action) → p.code ≡ code
          → Returns (Ticked cfg r) (rest_of_tick cfg r s)
      by_code p at runs [] e =
          idle-Ticked p at (take_instruction_empty s p e) (inr (inl (p, at, runs, e)))
      by_code p at runs (a ∷ rest) e = busy-Ticked p a rest at runs e

-- Let I/O take some time, let the processes be scheduled, and let the clock fit the times at which their
-- I/O ends. Then a round raises no exception. Both still hold afterwards, the clock shows one more, at
-- most one instruction was executed, and the processes have as many fewer left. If some process was not
-- done before the round, less is left to do.
pub tick-Ticked :
    (cfg : Config) (r : Run)
    → 0 < cfg.io_length
    → IsScheduled cfg.switch r.sched
    → Times (λ _. r.clock_tick) r.sched.procs
    → Returns (Ticked cfg r) (tick cfg r)
unfolding tick
tick-Ticked cfg r l v t =
    Returns-bind
      (λ s.
        Woken cfg r.clock_tick (length r.sched.procs) r.sched s
        × Times (λ _. r.clock_tick + 1) s.procs)
      (Ticked cfg r) (finish_ios cfg (r.clock_tick + 1) (length r.sched.procs) 0 r.sched)
      (rest_of_tick cfg r) (finish_all-Woken cfg r.clock_tick r.sched v t)
      (λ s w. rest_of_tick-Ticked cfg r s v t w.0 w.1 l)
