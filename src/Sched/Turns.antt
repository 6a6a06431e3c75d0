-- ===== src/Sched/Turns.antt =====
-- The end of the loop of RR in schedular/schedular.py.
use os_tep.Prelude.{
  ℕ, zero, suc, ◌+◌, ◌<◌, ◌≡◌, refl, sym, ap, ◌∙◌, Bool, true, false, Option, none, some, List, [],
  ◌∷◌, arith, ◌==◌, if◌then◌else◌, length, get_elem?,
}
use os_tep.Prelude.Fault.{Returns-map, Returns}
use os_tep.Sched.{Job, RoundRobin, round_robin, serve, turn, turns}
use os_tep.Sched.Fair.{
  has, IsDistinct, total, work, AllAccounted, AllAccounted-keeps, IsFair, serve-IsFair,
}

-- a state in which all jobs are done
abbrev IsDone : (ℕ → Bool) → (ℕ → ℕ) → ℕ → RoundRobin → Type 0
IsDone known runtime whole s =
    (s.thetime ≡ whole) × ((j : ℕ) → known j ≡ true → s.turnaround j ≡ s.wait j + runtime j)

abbrev Finishes : (RoundRobin → Type 0) → Option RoundRobin → Type 0
Finishes P none = ⊥
Finishes P (some s) = P s

module _ (quantum : ℕ) (positive : 0 < quantum) (known : ℕ → Bool) (runtime : ℕ → ℕ)
    (whole : ℕ) where
  IsFair-IsDone :
      (s : RoundRobin)
      → IsFair known runtime whole s
      → s.runlist ≡ []
      → IsDone known runtime whole s
  IsFair-IsDone s v e =
      (omega (arith, v.conserved, ap total e), λ j k. v.finished j k (ap (has j) e))

  turns-Finishes :
      (fuel : ℕ) (s : RoundRobin)
      → IsFair known runtime whole s
      → work s.runlist < fuel
      → Returns (Finishes (IsDone known runtime whole)) (turns fuel quantum s)
  unfolding turns turn
  turns-Finishes zero s v h = absurd (omega arith)
  turns-Finishes (suc fuel) s v h = by_list s.runlist refl (turns-Finishes fuel)
    where
      by_list :
          (l : List Job)
          → s.runlist ≡ l
          → ((t : RoundRobin)
              → IsFair known runtime whole t
              → work t.runlist < fuel
              → Returns (Finishes (IsDone known runtime whole)) (turns fuel quantum t))
          → Returns (Finishes (IsDone known runtime whole)) (turns (suc fuel) quantum s)
      by_list [] e later =
          let z : s.jobcount == 0 ≡ true = ground (arith, v.counted, ap length e) in
          rw z (IsFair-IsDone s v e)
      by_list (job ∷ rest) e later =
          let nz : s.jobcount == 0 ≡ false = ground (arith, v.counted, ap length e) in
          let next = serve-IsFair quantum positive known runtime whole job rest s e v in
          rw (nz, e) (later (serve quantum job rest s) next.0 (omega (arith, next.1)))

abbrev runtime_of : List Job → ℕ → ℕ
runtime_of [] j = 0
runtime_of (k ∷ ks) j = if k.0 == j then k.1 else runtime_of ks j

runtime_of_lem :
    (jobs : List Job) (i : ℕ) (job : Job)
    → IsDistinct jobs
    → get_elem? jobs i ≡ some job
    → (has job.0 jobs ≡ true) × (runtime_of jobs job.0 ≡ job.1)
runtime_of_lem [] i job d e = cc
runtime_of_lem (k ∷ ks) zero job d e = ground arith
runtime_of_lem (k ∷ ks) (suc i) job d e = ground (arith, runtime_of_lem ks i job d.1 e, d.0)

AllAccounted-runtime_of :
    (jobs : List Job) (s : RoundRobin)
    → ((j : ℕ) → s.wait j ≡ 0)
    → ((j : ℕ) → s.lastran j ≡ 0)
    → IsDistinct jobs
    → AllAccounted (runtime_of jobs) s jobs
AllAccounted-runtime_of [] s w l d = tt
AllAccounted-runtime_of (k ∷ ks) s w l d = (
  (ground (arith, w k.0, l k.0), omega (arith, l k.0)),
  AllAccounted-keeps (runtime_of ks) (runtime_of (k ∷ ks)) s s k.0 ks (λ job ne a. ground arith) d.0
      (AllAccounted-runtime_of ks s w l d.1),
)

-- The end of RR: no time was lost, and each job's turnaround is its waiting and its run time.
abbrev pub IsServed : List Job → Option RoundRobin → Type 0
IsServed jobs none = ⊥
IsServed jobs (some s) =
    (s.thetime ≡ total jobs)
    × ((i : ℕ) (job : Job)
        → get_elem? jobs i ≡ some job
        → s.turnaround job.0 ≡ s.wait job.0 + job.1)

IsServed-Finishes :
    (jobs : List Job) (o : Option RoundRobin)
    → IsDistinct jobs
    → Finishes (IsDone (λ j. has j jobs) (runtime_of jobs) (total jobs)) o
    → IsServed jobs o
IsServed-Finishes jobs none d f = f
IsServed-Finishes jobs (some s) d f = (
  f.0,
  λ i job e.
      let (known, same) = runtime_of_lem jobs i job d e in omega (arith, f.1 job.0 known, same),
)

-- With a positive quantum and different job numbers, RR raises nothing and ends within as many
-- rounds as the sum of the run times and the number of jobs, plus one. The clock then shows the sum
-- of the run times, and each job's turnaround is its waiting time and its run time.
pub round_robin_lem :
    (quantum : ℕ) (jobs : List Job)
    → 0 < quantum
    → IsDistinct jobs
    → Returns (IsServed jobs) (turns (work jobs + 1) quantum (round_robin jobs))
unfolding round_robin
round_robin_lem quantum jobs positive d =
    let fuel = work jobs + 1 in
    Returns-map (Finishes (IsDone (λ j. has j jobs) (runtime_of jobs) (total jobs))) (IsServed jobs)
      (turns fuel quantum (round_robin jobs))
      (turns-Finishes quantum positive (λ j. has j jobs) (runtime_of jobs) (total jobs) fuel
        (round_robin jobs)
        (record {
          counted = refl;
          distinct = d;
          conserved = omega arith;
          accounted = AllAccounted-runtime_of jobs (round_robin jobs) (λ j. refl) (λ j. refl) d;
          finished = λ j known gone. absurd (cc (sym known ∙ gone));
        })
        (omega arith))
      (λ o. IsServed-Finishes jobs o d)
