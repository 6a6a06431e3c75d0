-- ===== src/Sched/Shortest.antt =====
-- SJF of schedular/schedular.py against FIFO in any order of the jobs.
use os_tep.Prelude.{
  ℕ, ◌+◌, ◌≤◌, ◌≡◌, refl, sym, ap, ◌∙◌, inl, inr, List, [], ◌∷◌, arith, leb, Bool-cases,
}
use os_tep.Prelude.Sorted.{sorted, insert_sorted}
use os_tep.Sched.{no_sums, Job, Sums, fifo_from, fifo, sjf, by_runtime}
use mathlib.Core.List.{Permᴰ}

-- the sum of the times at which jobs with these run times start, the first at `t`
abbrev starts : ℕ → List ℕ → ℕ
starts t [] = 0
starts t (r ∷ rs) = t + starts (t + r) rs

abbrev sum : List ℕ → ℕ
sum [] = 0
sum (r ∷ rs) = r + sum rs

abbrev times : List Job → List ℕ
times [] = []
times (j ∷ js) = j.1 ∷ times js

fifo_from_sums :
    (t : ℕ) (s : Sums) (jobs : List Job)
    → let r = fifo_from t s jobs in
      (r.wait_sum ≡ s.wait_sum + starts t (times jobs))
      × (r.turnaround_sum ≡ s.turnaround_sum + (starts t (times jobs) + sum (times jobs)))
unfolding fifo_from
fifo_from_sums t s [] = (omega arith, omega arith)
fifo_from_sums t s (j ∷ js) =
    let later : Sums = record {
      count = s.count + 1;
      response_sum = s.response_sum + t;
      turnaround_sum = s.turnaround_sum + (t + j.1);
      wait_sum = s.wait_sum + t;
    } in
    let (w, a) = fifo_from_sums (t + j.1) later js in (omega (arith, w), omega (arith, a))

insert_starts : (t r : ℕ) (rs : List ℕ) → starts t (insert_sorted leb r rs) ≤ starts t (r ∷ rs)
unfolding insert_sorted
insert_starts t r [] = omega arith
insert_starts t r (s ∷ rs) =
    let swap : t + s + r ≡ t + r + s = omega arith in
    let h = insert_starts (t + s) r rs in
    elim (Bool-cases (leb r s)) [
      | inl e ↦ rw e (omega arith)
      | inr e ↦ rw e (ground (arith, rw swap at h))
    ]

sort_starts : (t : ℕ) (rs : List ℕ) → starts t (sorted leb rs) ≤ starts t rs
unfolding sorted
sort_starts t [] = omega arith
sort_starts t (r ∷ rs) = omega (arith, insert_starts t r (sorted leb rs), sort_starts (t + r) rs)

insert_comm :
    (a b : ℕ) (rs : List ℕ)
    → insert_sorted leb a (insert_sorted leb b rs) ≡ insert_sorted leb b (insert_sorted leb a rs)
unfolding insert_sorted
insert_comm a b [] = ground arith
insert_comm a b (s ∷ rs) = ground (arith, insert_comm a b rs)

sort_perm : {rs ss : List ℕ} → Permᴰ rs ss → sorted leb rs ≡ sorted leb ss
unfolding sorted
sort_perm Permᴰ.nil = refl
sort_perm (Permᴰ.cons {a} {b} {l₁} {l₂} e p) = rw (e, sort_perm p) refl
sort_perm (Permᴰ.swap {a} {b} {a' = c} {b' = d} {l} e f) =
    rw (e, f) (insert_comm d c (sorted leb l))
sort_perm (Permᴰ.trans p q) = sort_perm p ∙ sort_perm q

times_perm : {rs ss : List Job} → Permᴰ rs ss → Permᴰ (times rs) (times ss)
times_perm Permᴰ.nil = Permᴰ.nil
times_perm (Permᴰ.cons e p) = Permᴰ.cons (ap (λ (j : Job). j.1) e) (times_perm p)
times_perm (Permᴰ.swap e f) = Permᴰ.swap (ap (λ (j : Job). j.1) e) (ap (λ (j : Job). j.1) f)
times_perm (Permᴰ.trans p q) = Permᴰ.trans (times_perm p) (times_perm q)

times-insert_sorted :
    (j : Job) (js : List Job)
    → times (insert_sorted by_runtime j js) ≡ insert_sorted leb j.1 (times js)
unfolding insert_sorted
times-insert_sorted j [] = refl
times-insert_sorted j (k ∷ js) = ground (arith, times-insert_sorted j js)

times-sorted : (js : List Job) → times (sorted by_runtime js) ≡ sorted leb (times js)
unfolding sorted
times-sorted [] = refl
times-sorted (j ∷ js) =
    times-insert_sorted j (sorted by_runtime js) ∙ ap (insert_sorted leb j.1) (times-sorted js)

sum-insert_sorted : (r : ℕ) (rs : List ℕ) → sum (insert_sorted leb r rs) ≡ r + sum rs
unfolding insert_sorted
sum-insert_sorted r [] = refl
sum-insert_sorted r (s ∷ rs) = ground (arith, sum-insert_sorted r rs)

sum-sorted : (rs : List ℕ) → sum (sorted leb rs) ≡ sum rs
unfolding sorted
sum-sorted [] = refl
sum-sorted (r ∷ rs) = sum-insert_sorted r (sorted leb rs) ∙ ap (λ t. r + t) (sum-sorted rs)

sum_perm : {rs ss : List ℕ} → Permᴰ rs ss → sum rs ≡ sum ss
sum_perm {rs} {ss} p = sym (sum-sorted rs) ∙ ap sum (sort_perm p) ∙ sum-sorted ss

-- The sums of the waiting and of the turnaround times that SJF gives are at most those of FIFO with
-- the same jobs in any order.
pub sjf_lem :
    (jobs jobs' : List Job)
    → Permᴰ jobs jobs'
    → ((sjf jobs).wait_sum ≤ (fifo jobs').wait_sum)
      × ((sjf jobs).turnaround_sum ≤ (fifo jobs').turnaround_sum)
unfolding fifo sjf
sjf_lem jobs jobs' p =
    let q = times_perm p in
    let (w, a) = fifo_from_sums 0 no_sums (sorted by_runtime jobs) in
    let (w', a') = fifo_from_sums 0 no_sums jobs' in
    let least : starts 0 (times (sorted by_runtime jobs)) ≤ starts 0 (times jobs') =
      rw (times-sorted jobs, sort_perm q) (sort_starts 0 (times jobs')) in
    let same : sum (times (sorted by_runtime jobs)) ≡ sum (times jobs') =
      ap sum (times-sorted jobs) ∙ sum-sorted (times jobs) ∙ sum_perm q in
    (omega (arith, w, w', least), omega (arith, a, a', least, same))
