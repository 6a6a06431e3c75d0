-- ===== src/Sched/Fair.antt =====
-- RR of schedular/schedular.py: the invariant of its loop, and one turn of a job.
use os_tep.Prelude.{
  ℕ_discrete, ltb→lt, ℕ, ◌+◌, ◌-◌, ◌≤◌, ◌<◌, ◌≡◌, refl, sym, ap, ◌∙◌, ◌≢◌, inl, inr, Bool, true,
  false, ◌||◌, List, [], ◌∷◌, ◌++◌, arith, ltb, ◌==◌, if◌then◌else◌, Bool-cases, length,
}
use mathlib.Core.Path.{subst}
use os_tep.Sched.{Job, RoundRobin, update, serve}

-- a job with the number `j` is in the list
abbrev pub has : ℕ → List Job → Bool
has j [] = false
has j (k ∷ ks) = k.0 == j || has j ks

abbrev pub IsDistinct : List Job → Type 0
IsDistinct [] = Unit
IsDistinct (k ∷ ks) = (has k.0 ks ≡ false) × IsDistinct ks

abbrev pub total : List Job → ℕ
total [] = 0
total (k ∷ ks) = k.1 + total ks

-- Of a job that is not done: until it last ran it was waiting or running.
abbrev pub Accounted : (ℕ → ℕ) → RoundRobin → Job → Type 0
Accounted runtime s (j, left) =
    (s.wait j + runtime j ≡ s.lastran j + left) × (s.lastran j ≤ s.thetime)

abbrev pub AllAccounted : (ℕ → ℕ) → RoundRobin → List Job → Type 0
AllAccounted runtime s [] = Unit
AllAccounted runtime s (k ∷ ks) = Accounted runtime s k × AllAccounted runtime s ks

has-append : (j : ℕ) (ks : List Job) (k : Job) → has j (ks ++ k ∷ []) ≡ (has j ks || k.0 == j)
has-append j [] k = ground arith
has-append j (l ∷ ks) k = ground (arith, has-append j ks k)

IsDistinct-append :
    (ks : List Job) (k : Job) → IsDistinct ks → has k.0 ks ≡ false → IsDistinct (ks ++ k ∷ [])
IsDistinct-append [] k d h = (refl, tt)
IsDistinct-append (l ∷ ks) k d h =
    (ground (arith, has-append l.0 ks k, d.0), IsDistinct-append ks k d.1 (ground arith))

AllAccounted-append :
    (runtime : ℕ → ℕ) (s : RoundRobin) (ks : List Job) (k : Job)
    → AllAccounted runtime s ks
    → Accounted runtime s k
    → AllAccounted runtime s (ks ++ k ∷ [])
AllAccounted-append runtime s [] k a b = (b, tt)
AllAccounted-append runtime s (l ∷ ks) k a b = (a.0, AllAccounted-append runtime s ks k a.1 b)

pub AllAccounted-keeps :
    (runtime runtime' : ℕ → ℕ) (s t : RoundRobin) (j : ℕ) (ks : List Job)
    → ((k : Job) → j ≢ k.0 → Accounted runtime s k → Accounted runtime' t k)
    → has j ks ≡ false
    → AllAccounted runtime s ks
    → AllAccounted runtime' t ks
AllAccounted-keeps runtime runtime' s t j [] f h a = tt
AllAccounted-keeps runtime runtime' s t j (k ∷ ks) f h a =
    (f k (λ e. ground arith) a.0, AllAccounted-keeps runtime runtime' s t j ks f (ground arith) a.1)

length-append : (ks : List Job) (k : Job) → length (ks ++ k ∷ []) ≡ length ks + 1
length-append [] k = refl
length-append (l ∷ ks) k = omega (arith, length-append ks k)

total-append : (ks : List Job) (k : Job) → total (ks ++ k ∷ []) ≡ total ks + k.1
total-append [] k = omega arith
total-append (l ∷ ks) k = omega (arith, total-append ks k)

-- The invariant of the loop, for the jobs with their run times and the time that all take.
pub record IsFair (known : ℕ → Bool) (runtime : ℕ → ℕ) (whole : ℕ) (s : RoundRobin) : Type 0 where
  pub counted : s.jobcount ≡ length s.runlist
  pub distinct : IsDistinct s.runlist
  pub conserved : s.thetime + total s.runlist ≡ whole
  pub accounted : AllAccounted runtime s s.runlist
  pub finished :
      (j : ℕ) → known j ≡ true → has j s.runlist ≡ false → s.turnaround j ≡ s.wait j + runtime j

update_self : (j v : ℕ) (f : ℕ → ℕ) → update j v f j ≡ v
unfolding update
update_self j v f = ground arith

update_other : (j v k : ℕ) (f : ℕ → ℕ) → j ≢ k → update j v f k ≡ f k
unfolding update
update_other j v k f h = ground arith

-- the measure of the loop: every round takes at least 1 from it
abbrev pub work : List Job → ℕ
work [] = 0
work (k ∷ ks) = (k.1 + 1) + work ks

work-append : (ks : List Job) (k : Job) → work (ks ++ k ∷ []) ≡ work ks + (k.1 + 1)
work-append [] k = omega arith
work-append (l ∷ ks) k = omega (arith, work-append ks k)

module _ (quantum : ℕ) (positive : 0 < quantum) (known : ℕ → Bool) (runtime : ℕ → ℕ)
    (whole : ℕ) where
  Accounted-serve :
      (job : Job) (rest : List Job) (s : RoundRobin) (k : Job)
      → job.0 ≢ k.0
      → Accounted runtime s k
      → Accounted runtime (serve quantum job rest s) k
  unfolding serve
  Accounted-serve job rest s k ne a =
      let w = update_other job.0 (s.wait job.0 + (s.thetime - s.lastran job.0)) k.0 s.wait ne in
      let now = s.thetime + (if ltb quantum job.1 then quantum else job.1) in
      let l = update_other job.0 now k.0 s.lastran ne in
      (omega (arith, w, l, a.0), omega (arith, l, a.1))

  Accounted-served :
      (job : Job) (rest : List Job) (s : RoundRobin)
      → Accounted runtime s job
      → let t = serve quantum job rest s in
        (t.wait job.0 + runtime job.0 ≡ s.thetime + job.1) × (t.lastran job.0 ≡ t.thetime)
  unfolding serve
  Accounted-served job rest s a =
      let w = update_self job.0 (s.wait job.0 + (s.thetime - s.lastran job.0)) s.wait in
      let now = s.thetime + (if ltb quantum job.1 then quantum else job.1) in
      let l = update_self job.0 now s.lastran in (omega (arith, w, a.0, a.1), l)

  module _ (job : Job) (rest : List Job) (s : RoundRobin) (e : s.runlist ≡ job ∷ rest)
      (v : IsFair known runtime whole s) where
    IsDistinct-rest : IsDistinct (job ∷ rest)
    IsDistinct-rest = rw e at v.distinct

    accounted_rest : AllAccounted runtime s (job ∷ rest)
    accounted_rest = rw e at v.accounted

    kept : AllAccounted runtime (serve quantum job rest s) rest
    kept =
        AllAccounted-keeps runtime runtime s (serve quantum job rest s) job.0 rest
          (Accounted-serve job rest s) IsDistinct-rest.0 accounted_rest.1

    -- what is known of a job that was done before stays true
    finished_other :
        (k : ℕ)
        → known k ≡ true
        → job.0 ≢ k
        → has k rest ≡ false
        → s.turnaround k ≡ (serve quantum job rest s).wait k + runtime k
    unfolding serve
    finished_other k known_k ne gone =
        let w = update_other job.0 (s.wait job.0 + (s.thetime - s.lastran job.0)) k s.wait ne in
        let absent : has k s.runlist ≡ false = ap (has k) e ∙ ground arith in
        omega (arith, v.finished k known_k absent, w)

    serve_on :
        ltb quantum job.1 ≡ true
        → let t = serve quantum job rest s in
          IsFair known runtime whole t × (work t.runlist < work s.runlist)
    unfolding serve
    serve_on g =
        let t = serve quantum job rest s in
        let back : Job = (job.0, job.1 - quantum) in
        let list : t.runlist ≡ rest ++ back ∷ [] = rw g refl in
        let cnt : t.jobcount ≡ s.jobcount = rw g refl in
        let time : t.thetime ≡ s.thetime + quantum = rw g refl in
        let turns : t.turnaround ≡ s.turnaround = rw g refl in
        let lt = ltb→lt quantum job.1 g in
        let served = Accounted-served job rest s accounted_rest.0 in
        (
          record {
            counted =
                cnt
                ∙ v.counted
                ∙ ap length e
                ∙ omega (arith, length-append rest back)
                ∙ ap length (sym list);
            distinct = rw list (IsDistinct-append rest back IsDistinct-rest.1 IsDistinct-rest.0);
            conserved =
                ap (λ ks. t.thetime + total ks) list
                ∙ omega (arith, time, total-append rest back, v.conserved, ap total e);
            accounted = subst (AllAccounted runtime t) (sym list) (
                AllAccounted-append runtime t rest back kept
                  (omega (arith, served.0, served.1, time), omega (arith, served.1)));
            finished = λ k known_k gone.
                let gone' = sym (has-append k rest back) ∙ ap (has k) (sym list) ∙ gone in
                let ne : job.0 ≢ k = λ same. ground arith in
                ap (λ f. f k) turns ∙ finished_other k known_k ne (ground arith);
          },
          omega (arith, ap work list, work-append rest back, ap work e),
        )

    serve_last :
        ltb quantum job.1 ≡ false
        → let t = serve quantum job rest s in
          IsFair known runtime whole t × (work t.runlist < work s.runlist)
    unfolding serve
    serve_last g =
        let t = serve quantum job rest s in
        let list : t.runlist ≡ rest = rw g refl in
        let cnt : t.jobcount ≡ s.jobcount - 1 = rw g refl in
        let time : t.thetime ≡ s.thetime + job.1 = rw g refl in
        let now = s.thetime + (if ltb quantum job.1 then quantum else job.1) in
        let turns : t.turnaround ≡ update job.0 now s.turnaround = rw g refl in
        let served = Accounted-served job rest s accounted_rest.0 in
        (
          record {
            counted = omega (arith, cnt, v.counted, ap length e, ap length list);
            distinct = rw list IsDistinct-rest.1;
            conserved =
                ap (λ ks. t.thetime + total ks) list ∙ omega (arith, time, v.conserved, ap total e);
            accounted = subst (AllAccounted runtime t) (sym list) kept;
            finished = λ k known_k gone. ap (λ f. f k) turns ∙ (elim (ℕ_discrete job.0 k) [
              | yes same ↦
                  rw (← same) (update_self job.0 now s.turnaround ∙ omega (arith, time, served.0))
              | no ne ↦
                  update_other job.0 now k s.turnaround ne
                  ∙ finished_other k known_k ne (ap (has k) (sym list) ∙ gone)
            ]);
          },
          omega (arith, ap work list, ap work e),
        )

  pub serve-IsFair :
      (job : Job) (rest : List Job) (s : RoundRobin)
      → s.runlist ≡ job ∷ rest
      → IsFair known runtime whole s
      → let t = serve quantum job rest s in
        IsFair known runtime whole t × (work t.runlist < work s.runlist)
  serve-IsFair job rest s e v = elim (Bool-cases (ltb quantum job.1)) [
    | inl g ↦ serve_on job rest s e v g
    | inr g ↦ serve_last job rest s e v g
  ]
