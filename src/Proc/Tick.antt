-- ===== src/Proc/Tick.antt =====
-- The parts of a round of `run` in process_py/process-run.py: the loop that looks for I/O that has
-- finished, and an I/O instruction.
use os_tep.Prelude.{
  get_elem?_lt, ℕ_discrete, get_elem?-lt, ℕ, zero, suc, ◌+◌, ◌≤◌, ◌<◌, ◌≡◌, refl, sym, ap, ◌∙◌, ◌≢◌,
  inl, inr, true, false, arith, ltb, if◌then◌else◌, Bool-cases, length, get_elem?,
}
use mathlib.Core.Path.{subst}
use os_tep.Prelude.Fault.{Returns, Returns-map, Returns-bind}
use os_tep.Proc.{ready, Config, Process, Scheduler, contains, finish_io, finish_ios}
use os_tep.Proc.Recolor.{At, recolor, length-recolor, At-recolor, same_process}
use os_tep.Proc.Schedule.{IsScheduled}
use os_tep.Proc.Finish.{FinishGives, finish_io-FinishGives}
use os_tep.Proc.Weight.{
  alive, AllLe, Due-reached, Due-missed, OnTime, Times, AreSimilar-Times, AreSimilar-length, sum,
  sum-recolor, code_left, weight, sum_weight-similar, sum_code-similar, NoneWaits,
}

-- at the new time for the processes that were looked at, and at the old one for the others
abbrev mixed : ℕ → ℕ → ℕ → ℕ
mixed c k i = if ltb i k then c + 1 else c

-- What the loop gives: the invariants, nothing more to do, the same code; and nothing at all if no
-- process waits.
pub record Woken (cfg : Config) (c k : ℕ) (s s' : Scheduler) : Type 0 where
  pub scheduled : IsScheduled cfg.switch s'
  pub times : Times (mixed c k) s'.procs
  pub no_more :
      sum (weight cfg.io_length (c + 1)) s'.procs ≤ sum (weight cfg.io_length (c + 1)) s.procs
  pub same_code : sum code_left s'.procs ≡ sum code_left s.procs
  pub same_length : length s'.procs ≡ length s.procs
  pub untouched : NoneWaits s.procs → s' ≡ s

mixed_self : (c k : ℕ) → mixed c k k ≡ c
mixed_self c k = ground arith

mixed_next : (c k : ℕ) → mixed c (k + 1) k ≡ c + 1
mixed_next c k = ground arith

mixed_other : (c k i : ℕ) → i ≢ k → mixed c (k + 1) i ≡ mixed c k i
mixed_other c k i h = ground arith

module _ (cfg : Config) (c k : ℕ) (s : Scheduler) (p : Process) (v : IsScheduled cfg.switch s)
    (t : Times (mixed c k) s.procs) (at : At s.procs k p) where
  own_time : OnTime c p
  own_time = subst (λ x. OnTime x p) (mixed_self c k) (t k p at)

  roused_times :
      contains (c + 1) p.finish_times ≡ true → Times (mixed c (k + 1)) (recolor k ready s.procs)
  roused_times h i q e = elim (At-recolor k ready s.procs i q e) [
    | inl (same, x, f, m) ↦
        let all = (Due-reached c p.state p.finish_times own_time h).1 in
        let px = same_process s.procs k at f in
        let all' = subst (λ (z : Process). AllLe (c + 1) z.finish_times) px all in
        subst (λ z. OnTime z q) (sym (ap (mixed c (k + 1)) same ∙ mixed_next c k))
          (subst (OnTime (c + 1)) (sym m) all')
    | inr (ne, f) ↦ subst (λ z. OnTime z q) (sym (mixed_other c k i ne)) (t i q f)
  ]

  missed_times : contains (c + 1) p.finish_times ≡ false → Times (mixed c (k + 1)) s.procs
  missed_times h i q e = elim (ℕ_discrete i k) [
    | yes same ↦
        let pq = same_process s.procs k at (ap (get_elem? s.procs) (sym same) ∙ e) in
        subst (λ z. OnTime z q) (sym (ap (mixed c (k + 1)) same ∙ mixed_next c k))
          (subst (OnTime (c + 1)) pq (Due-missed c p.state p.finish_times own_time h))
    | no ne ↦ subst (λ z. OnTime z q) (sym (mixed_other c k i ne)) (t i q e)
  ]

  finish_io-Woken : Returns (Woken cfg c (k + 1) s) (finish_io cfg (c + 1) k s)
  finish_io-Woken =
      Returns-map (FinishGives cfg (c + 1) k s p) (Woken cfg c (k + 1) s)
        (finish_io cfg (c + 1) k s)
        (finish_io-FinishGives cfg (c + 1) k s p v at
          (λ h. (Due-reached c p.state p.finish_times own_time h).0))
        (λ s' g. elim (Bool-cases (contains (c + 1) p.finish_times)) [
          | inl h ↦ reached s' g h
          | inr h ↦ missed s' g h
        ])
    where
      reached :
          (s' : Scheduler)
          → FinishGives cfg (c + 1) k s p s'
          → contains (c + 1) p.finish_times ≡ true
          → Woken cfg c (k + 1) s s'
      reached s' g h =
          let ps = recolor k ready s.procs in
          let sim = g.1 h in
          let w = (Due-reached c p.state p.finish_times own_time h).0 in
          let live : alive p.state ≡ 1 = ground arith in
          record {
            scheduled = g.0;
            times = AreSimilar-Times (mixed c (k + 1)) ps s'.procs sim (roused_times h);
            no_more = omega (
              arith,
              sum_weight-similar cfg.io_length (c + 1) ps s'.procs sim,
              sum-recolor (weight cfg.io_length (c + 1)) s.procs k ready p at,
              live,
            );
            same_code = omega (
              arith,
              sum_code-similar ps s'.procs sim,
              sum-recolor code_left s.procs k ready p at,
            );
            same_length = AreSimilar-length ps s'.procs sim ∙ length-recolor k ready s.procs;
            untouched = λ n. absurd (n k p at w);
          }

      missed :
          (s' : Scheduler)
          → FinishGives cfg (c + 1) k s p s'
          → contains (c + 1) p.finish_times ≡ false
          → Woken cfg c (k + 1) s s'
      missed s' g h =
          let same = g.2 h in
          let back = λ (w : Process → ℕ). ap (λ (z : Scheduler). sum w z.procs) same in
          record {
            scheduled = g.0;
            times =
                subst (λ (z : Scheduler). Times (mixed c (k + 1)) z.procs) (sym same)
                  (missed_times h);
            no_more = omega (arith, back (weight cfg.io_length (c + 1)));
            same_code = back code_left;
            same_length = ap (λ (z : Scheduler). length z.procs) same;
            untouched = λ _. same;
          }

Woken-trans :
    (cfg : Config) (c k n : ℕ) (s t u : Scheduler)
    → Woken cfg c k s t
    → Woken cfg c n t u
    → Woken cfg c n s u
Woken-trans cfg c k n s t u a b = record {
  scheduled = b.scheduled;
  times = b.times;
  no_more = omega (arith, a.no_more, b.no_more);
  same_code = b.same_code ∙ a.same_code;
  same_length = b.same_length ∙ a.same_length;
  untouched = λ h.
      let e = a.untouched h in
      b.untouched (subst (λ (z : Scheduler). NoneWaits z.procs) (sym e) h) ∙ e;
}

finish_ios-Woken :
    (cfg : Config) (c count k : ℕ) (s : Scheduler)
    → IsScheduled cfg.switch s
    → Times (mixed c k) s.procs
    → k + count ≡ length s.procs
    → Returns (Woken cfg c (k + count) s) (finish_ios cfg (c + 1) count k s)
unfolding finish_ios
finish_ios-Woken cfg c zero k s v t e =
    let z : k ≡ k + 0 = omega arith in
    record {
      scheduled = v;
      times = subst (λ x. Times (mixed c x) s.procs) z t;
      no_more = omega arith;
      same_code = refl;
      same_length = refl;
      untouched = λ _. refl;
    }
finish_ios-Woken cfg c (suc count) k s v t e =
    let (p, at) = get_elem?-lt k s.procs (omega arith) in
    let z : k + 1 + count ≡ k + suc count = omega arith in
    Returns-bind (Woken cfg c (k + 1) s) (Woken cfg c (k + suc count) s) (finish_io cfg (c + 1) k s)
      (finish_ios cfg (c + 1) count (k + 1)) (finish_io-Woken cfg c k s p v t at)
      (λ s' w.
        subst (λ n. Returns (Woken cfg c n s) (finish_ios cfg (c + 1) count (k + 1) s')) z
          (Returns-map (Woken cfg c (k + 1 + count) s') (Woken cfg c (k + 1 + count) s)
            (finish_ios cfg (c + 1) count (k + 1) s')
            (finish_ios-Woken cfg c count (k + 1) s' w.scheduled w.times
              (omega (arith, w.same_length)))
            (λ s'' x. Woken-trans cfg c (k + 1) (k + 1 + count) s s' s'' w x)))

-- the whole loop, from a scheduler that is right at time `c`
pub finish_all-Woken :
    (cfg : Config) (c : ℕ) (s : Scheduler)
    → IsScheduled cfg.switch s
    → Times (λ _. c) s.procs
    → Returns
        (λ s'. Woken cfg c (length s.procs) s s' × Times (λ _. c + 1) s'.procs)
        (finish_ios cfg (c + 1) (length s.procs) 0 s)
finish_all-Woken cfg c s v t =
    let z : 0 + length s.procs ≡ length s.procs = omega arith in
    Returns-map (Woken cfg c (0 + length s.procs) s) _ (finish_ios cfg (c + 1) (length s.procs) 0 s)
      (finish_ios-Woken cfg c (length s.procs) 0 s v
        (λ i p e. let x : c ≡ mixed c 0 i = ground arith in subst (λ n. OnTime n p) x (t i p e)) z)
      (λ s' w.
        let w' = subst (λ n. Woken cfg c n s s') z w in
        (
          w',
          λ i p e.
              let lt = get_elem?_lt i s'.procs e in
              let below : i < length s.procs = omega (arith, w'.same_length) in
              let x : mixed c (length s.procs) i ≡ c + 1 = ground arith in
              subst (λ n. OnTime n p) x (w'.times i p e),
        ))
