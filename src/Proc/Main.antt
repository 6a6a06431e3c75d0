-- ===== src/Proc/Main.antt =====
-- The main program of process_py/process-run.py, from the descriptions of the processes to the end of
-- `run`.
use os_tep.Prelude.{
  ℕ, zero, suc, ◌+◌, ◌*◌, ◌≤◌, ◌<◌, ◌≡◌, refl, sym, ap, ◌∙◌, ◌≢◌, inl, inr, some, List, [], ◌∷◌,
  ◌++◌, arith, length,
}
use os_tep.Prelude.Fault.{ok, ◌>>=◌}
use os_tep.Proc.{
  Action, State, running, ready, finished, waiting, Config, Process, Scheduler, load_all,
  num_active, Run, ticks, run,
}
use os_tep.Proc.Recolor.{At, recolor, At-recolor, move_lem}
use os_tep.Proc.Schedule.{IsScheduled, IsScheduled-running, not_both}
use os_tep.Proc.Weight.{OnTime, past_Due, Times, sum, code_left, weight}
use os_tep.Proc.Loop.{ticks-Ended, returned_run}

-- the processes that have just been loaded
abbrev fresh : List (List Action) → List Process
fresh [] = []
fresh (code ∷ codes) = record { code = code; state = ready; finish_times = [] } ∷ fresh codes

fresh-state :
    (codes : List (List Action)) (i : ℕ) (p : Process)
    → At (fresh codes) i p
    → (p.state ≡ ready) × (p.finish_times ≡ [])
fresh-state [] i p e = cc
fresh-state (code ∷ codes) zero p e = ground arith
fresh-state (code ∷ codes) (suc i) p e = fresh-state codes i p e

append_cons {ℓ} :
    {A : Type ℓ} (xs : List A) (x : A) (ys : List A) → (xs ++ x ∷ []) ++ ys ≡ xs ++ x ∷ ys
append_cons [] x ys = refl
append_cons (y ∷ xs) x ys = ap (λ l. y ∷ l) (append_cons xs x ys)

append_nil {ℓ} : {A : Type ℓ} (xs : List A) → xs ++ [] ≡ xs
append_nil [] = refl
append_nil (x ∷ xs) = ap (λ l. x ∷ l) (append_nil xs)

load_all_lem :
    (codes : List (List Action)) (procs : List Process)
    → load_all codes procs ≡ procs ++ fresh codes
unfolding load_all
load_all_lem [] procs = sym (append_nil procs)
load_all_lem (code ∷ codes) procs =
    load_all_lem codes _
    ∙ append_cons procs (record { code = code; state = ready; finish_times = [] }) (fresh codes)

-- the instructions of all descriptions
abbrev pub total : List (List Action) → ℕ
total [] = 0
total (code ∷ codes) = length code + total codes

sum_code-fresh : (codes : List (List Action)) → sum code_left (fresh codes) ≡ total codes
sum_code-fresh [] = refl
sum_code-fresh (code ∷ codes) = ap (λ n. length code + n) (sum_code-fresh codes)

sum_weight-fresh :
    (l : ℕ) (codes : List (List Action))
    → sum (weight l 0) (fresh codes) ≡ total codes * (l + 1) + length codes
sum_weight-fresh l [] = omega arith
sum_weight-fresh l (code ∷ codes) = omega (arith, sum_weight-fresh l codes)

module _ (cfg : Config) (code : List Action) (codes : List (List Action)) where
  -- the scheduler with the first process active
  abbrev pub started : Scheduler
  started = record { procs = recolor 0 running (fresh (code ∷ codes)); curr = 0 }

  all_ready :
      (i : ℕ) (p : Process) (st : State) → At (fresh (code ∷ codes)) i p → st ≢ ready → p.state ≢ st
  all_ready i p st e ne h = ne (sym h ∙ (fresh-state (code ∷ codes) i p e).0)

  pub started-IsScheduled : IsScheduled cfg.switch started
  started-IsScheduled =
      IsScheduled-running cfg.switch (fresh (code ∷ codes)) 0 _ refl
        (λ i p e h. absurd (all_ready i p finished e (λ k. not_both refl k refl) h))
        (λ j q ne e. all_ready j q running e (λ k. not_both refl k refl))
        (λ end j q ne e. all_ready j q waiting e (λ k. not_both refl k refl))

  pub started-Times : Times (λ _. 0) started.procs
  started-Times i q e = elim (At-recolor 0 running (fresh (code ∷ codes)) i q e) [
    | inl (k, p, f, m) ↦
        on_time running q (λ h. not_both refl h refl) (ap (λ (z : Process). z.state) m)
          (ap (λ (z : Process). z.finish_times) m ∙ (fresh-state (code ∷ codes) 0 p f).1)
    | inr (k, f) ↦
        let (st, none_yet) = fresh-state (code ∷ codes) i q f in
        on_time ready q (λ h. not_both refl h refl) st none_yet
  ]
    where
      on_time :
          (st : State) (q : Process)
          → st ≢ waiting
          → q.state ≡ st
          → q.finish_times ≡ []
          → OnTime 0 q
      on_time st q ne e f = past_Due 0 q.state q.finish_times (λ h. ne (sym e ∙ h)) (rw f tt)

  run_lem :
      (fuel : ℕ)
      → run fuel cfg (fresh (code ∷ codes))
        ≡ ticks fuel cfg (record { sched = started; clock_tick = 0; cpu_busy = 0; io_busy = 0 })
  unfolding run
  run_lem fuel =
      ap
        (λ m. m >>= λ s.
          ticks fuel cfg (record { sched = s; clock_tick = 0; cpu_busy = 0; io_busy = 0 }))
        (move_lem ready running 0 (record { procs = fresh (code ∷ codes); curr = 0 }) _ refl refl)

-- Let I/O take some time. Then the simulation of at least one process ends without an exception, for
-- both switch policies and both I/O policies: all processes are done, every instruction was executed
-- once, and the clock shows at most `io_length + 1` for every instruction and one for every process.
pub run-ends :
    (cfg : Config) (code : List Action) (codes : List (List Action)) (fuel : ℕ)
    → 0 < cfg.io_length
    → total (code ∷ codes) * (cfg.io_length + 1) + length (code ∷ codes) < fuel
    → (r : Run) × (run fuel cfg (load_all (code ∷ codes) []) ≡ ok (some r))
      × (num_active r.sched.procs ≡ 0)
      × (r.cpu_busy ≡ total (code ∷ codes))
      × (r.clock_tick ≤ total (code ∷ codes) * (cfg.io_length + 1) + length (code ∷ codes))
run-ends cfg code codes fuel l h =
    let r0 : Run = record {
      sched = started cfg code codes;
      clock_tick = 0;
      cpu_busy = 0;
      io_busy = 0;
    } in
    let w = sum_weight-fresh cfg.io_length (code ∷ codes) in
    let w' : sum (weight cfg.io_length 0) r0.sched.procs
        ≡ sum (weight cfg.io_length 0) (fresh (code ∷ codes)) =
      omega arith in
    let e =
      ticks-Ended fuel cfg r0 l (started-IsScheduled cfg code codes) (started-Times cfg code codes)
        (omega (arith, w, w')) in
    let (r, returned, done) = returned_run cfg r0 (ticks fuel cfg r0) e in
    (
      r,
      ap (run fuel cfg) (load_all_lem (code ∷ codes) []) ∙ run_lem cfg code codes fuel ∙ returned,
      done.all_done,
      omega (arith, done.all_executed, sum_code-fresh (code ∷ codes)),
      omega (arith, done.in_time, w, w'),
    )
