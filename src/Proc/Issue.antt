-- ===== src/Proc/Issue.antt =====
-- An instruction of the current process in process_py/process-run.py: it is taken from the code, and
-- an I/O makes the process wait.
use os_tep.Prelude.{
  get_elem?-set_self, length-set, ℕ, zero, suc, ◌+◌, ◌*◌, ◌<◌, ◌≡◌, refl, sym, ap, ◌∙◌, ◌≢◌, ◌⊎◌,
  inl, inr, true, false, none, some, List, [], ◌∷◌, ◌++◌, arith, if◌then◌else◌, length, set,
}
use mathlib.Core.Path.{subst}
use os_tep.Prelude.Fault.{ok, Returns, Returns-map}
use os_tep.Proc.{
  Action, compute, io, State, running, finished, waiting, SwitchOn, on_io, on_end, Config, ends,
  Process, Scheduler, is, next_proc, take_instruction, issue, obey,
}
use os_tep.Proc.Recolor.{At, recolor, recolor_self, same_process, get_proc_lem, move_lem}
use os_tep.Proc.Schedule.{Emptied, IsScheduled, Settles, next_proc-Settles, not_both}
use os_tep.Proc.Weight.{
  alive, AllLe, Due-past, latest-append, latest-AllLe, OnTime, Times, AreSimilar-Times, sum,
  sum-set, code_left, weight, sum_weight-similar, sum_code-similar,
}

At-set :
    (ps : List Process) (i : ℕ) (q : Process) (j : ℕ) (r : Process)
    → At (set ps i q) j r
    → ((j ≡ i) × (r ≡ q)) ⊎ ((j ≢ i) × At ps j r)
At-set [] i q j r e = cc
At-set (p ∷ ps) zero q zero r e = inl (refl, sym (same_process (q ∷ ps) 0 refl e))
At-set (p ∷ ps) zero q (suc j) r e = inr (λ k. omega arith, e)
At-set (p ∷ ps) (suc i) q zero r e = inr (λ k. omega arith, e)
At-set (p ∷ ps) (suc i) q (suc j) r e = elim (At-set ps i q j r e) [
  | inl (k, m) ↦ inl (ap suc k, m)
  | inr (k, m) ↦ inr (λ h. k (omega arith), m)
]

set_twice :
    (ps : List Process) (i : ℕ) (st : State) (q : Process) → set (recolor i st ps) i q ≡ set ps i q
set_twice [] i st q = refl
set_twice (p ∷ ps) zero st q = refl
set_twice (p ∷ ps) (suc i) st q = ap (λ l. p ∷ l) (set_twice ps i st q)

set-set : (ps : List Process) (i : ℕ) (p q : Process) → set (set ps i p) i q ≡ set ps i q
set-set [] i p q = refl
set-set (x ∷ ps) zero p q = refl
set-set (x ∷ ps) (suc i) p q = ap (λ l. x ∷ l) (set-set ps i p q)

-- A scheduler whose current process has changed.
abbrev changed : Scheduler → Process → Scheduler
changed s q = record s { procs = set s.procs s.curr q }

-- the current process with its I/O
abbrev issued : Config → ℕ → Process → Process
issued cfg c p = record p {
  state = waiting;
  finish_times = p.finish_times ++ (c + cfg.io_length) ∷ [];
}

issue_lem :
    (cfg : Config) (c : ℕ) (s : Scheduler) (p : Process)
    → At s.procs s.curr p
    → p.state ≡ running
    → issue cfg c s ≡ (
        if ends cfg.switch
        then ok (changed s (issued cfg c p))
        else next_proc (changed s (issued cfg c p)))
unfolding issue
issue_lem cfg c s p e r =
    let s1 : Scheduler = record s { procs = recolor s.curr waiting s.procs } in
    let q : Process = record p { state = waiting } in
    let e1 : At s1.procs s.curr q = recolor_self s.curr waiting s.procs p e in
    rw
      (
        move_lem running waiting s.curr s p e r,
        get_proc_lem s.curr s1 q e1,
        set_twice s.procs s.curr waiting (issued cfg c p),
      )
      refl

-- What an instruction gives at time `c`: the invariants, and less to do.
pub record Obeyed (cfg : Config) (c : ℕ) (s s' : Scheduler) : Type 0 where
  pub scheduled : IsScheduled cfg.switch s'
  pub times : Times (λ _. c) s'.procs
  pub less : sum (weight cfg.io_length c) s'.procs < sum (weight cfg.io_length c) s.procs
  pub one_less : sum code_left s'.procs + 1 ≡ sum code_left s.procs

module _ (cfg : Config) (c : ℕ) (s : Scheduler) (p : Process) (a : Action) (rest : List Action)
    (v : IsScheduled cfg.switch s) (t : Times (λ _. c) s.procs) (at : At s.procs s.curr p)
    (runs : p.state ≡ running) (code : p.code ≡ a ∷ rest) (l : 0 < cfg.io_length) where
  -- the current process without the instruction
  abbrev popped : Process
  popped = record p { code = rest }

  past : AllLe c p.finish_times
  past = Due-past c p.state p.finish_times (λ w. not_both runs w refl) (t s.curr p at)

  in_range' : (q : Process) → s.curr < length (set s.procs s.curr q)
  in_range' q = omega (arith, length-set s.procs s.curr q, v.in_range)

  Emptied-set : (q : Process) → q.state ≢ finished → Emptied (set s.procs s.curr q)
  Emptied-set q h i x e f = elim (At-set s.procs s.curr q i x e) [
    | inl (k, m) ↦ absurd (h (sym (ap (λ (z : Process). z.state) m) ∙ f))
    | inr (k, g) ↦ v.spent i x g f
  ]

  length_code : length p.code ≡ length rest + 1
  length_code =
      let h : length p.code ≡ suc (length rest) = ap (λ (x : List Action). length x) code in
      omega (arith, h)

  -- what the instructions weigh
  code_weight :
      length p.code * (cfg.io_length + 1) ≡ length rest * (cfg.io_length + 1) + (cfg.io_length + 1)
  code_weight = rw length_code (omega arith)

  compute-Obeyed : Obeyed cfg c s (changed s popped)
  compute-Obeyed = record {
    scheduled = record {
      in_range = in_range' popped;
      alone = λ i q e h. elim (At-set s.procs s.curr popped i q e) [
        | inl (k, m) ↦ k
        | inr (k, f) ↦ v.alone i q f h
      ];
      busy = λ q e. elim (At-set s.procs s.curr popped s.curr q e) [
        | inl (k, m) ↦ inl (ap (λ (z : Process). z.state) m ∙ runs)
        | inr (k, f) ↦ absurd (k refl)
      ];
      blocked = λ end i q e h. elim (At-set s.procs s.curr popped i q e) [
        | inl (k, m) ↦ k
        | inr (k, f) ↦ v.blocked end i q f h
      ];
      spent = Emptied-set popped (λ h. not_both runs h refl);
    };
    times = λ i q e. elim (At-set s.procs s.curr popped i q e) [
      | inl (k, m) ↦ subst (OnTime c) (sym m) (t s.curr p at)
      | inr (k, f) ↦ t i q f
    ];
    less = omega (arith, sum-set (weight cfg.io_length c) s.procs s.curr p popped at, code_weight);
    one_less = omega (arith, sum-set code_left s.procs s.curr p popped at, length_code);
  }

  abbrev blocked_proc : Process
  blocked_proc = issued cfg c popped

  abbrev after_io : Scheduler
  after_io = changed s blocked_proc

  io_times : Times (λ _. c) after_io.procs
  io_times i q e = elim (At-set s.procs s.curr blocked_proc i q e) [
    | inl (k, m) ↦
        subst (OnTime c) (sym m) (c + cfg.io_length, p.finish_times, refl, past, omega arith)
    | inr (k, f) ↦ t i q f
  ]

  io_less : sum (weight cfg.io_length c) after_io.procs < sum (weight cfg.io_length c) s.procs
  io_less =
      let live : alive p.state ≡ 1 = ground arith in
      omega (
        arith,
        sum-set (weight cfg.io_length c) s.procs s.curr p blocked_proc at,
        code_weight,
        live,
        latest-append (c + cfg.io_length) p.finish_times,
        latest-AllLe c p.finish_times past,
      )

  io_one_less : sum code_left after_io.procs + 1 ≡ sum code_left s.procs
  io_one_less = omega (arith, sum-set code_left s.procs s.curr p blocked_proc at, length_code)

  -- with SWITCH_ON_END nothing else runs
  io_end : cfg.switch ≡ on_end → Obeyed cfg c s after_io
  io_end end = record {
    scheduled = record {
      in_range = in_range' blocked_proc;
      alone = λ i q e h. elim (At-set s.procs s.curr blocked_proc i q e) [
        | inl (k, m) ↦ k
        | inr (k, f) ↦ v.alone i q f h
      ];
      busy = λ q e. elim (At-set s.procs s.curr blocked_proc s.curr q e) [
        | inl (k, m) ↦ inr (inr (end, ap (λ (z : Process). z.state) m))
        | inr (k, f) ↦ absurd (k refl)
      ];
      blocked = λ _ i q e h. elim (At-set s.procs s.curr blocked_proc i q e) [
        | inl (k, m) ↦ k
        | inr (k, f) ↦ v.blocked end i q f h
      ];
      spent = Emptied-set blocked_proc (λ h. not_both refl h refl);
    };
    times = io_times;
    less = io_less;
    one_less = io_one_less;
  }

  io_switch : cfg.switch ≡ on_io → Returns (Obeyed cfg c s) (next_proc after_io)
  io_switch on =
      Returns-map (Settles cfg.switch after_io.procs) (Obeyed cfg c s) (next_proc after_io)
        (next_proc-Settles cfg.switch after_io (in_range' blocked_proc)
          (λ i q e h. elim (At-set s.procs s.curr blocked_proc i q e) [
            | inl (k, m) ↦ not_both (ap (λ (z : Process). z.state) m) h refl
            | inr (k, f) ↦ k (v.alone i q f h)
          ])
          (λ end. absurd (no_end end)) (Emptied-set blocked_proc (λ h. not_both refl h refl)))
        (λ s' u. record {
          scheduled = u.0;
          times = AreSimilar-Times (λ _. c) after_io.procs s'.procs u.1 io_times;
          less =
              omega
                (arith, sum_weight-similar cfg.io_length c after_io.procs s'.procs u.1, io_less);
          one_less = ap (λ n. n + 1) (sum_code-similar after_io.procs s'.procs u.1) ∙ io_one_less;
        })
    where
      no_end : cfg.switch ≡ on_end → ⊥
      no_end e = cc (sym on ∙ e)

  issue-Obeyed : Returns (Obeyed cfg c s) (issue cfg c (changed s popped))
  issue-Obeyed =
      let e = get_elem?-set_self s.procs s.curr popped v.in_range in
      rw
        (
          issue_lem cfg c (changed s popped) popped e runs,
          set-set s.procs s.curr popped blocked_proc,
        )
        (by_switch cfg.switch refl)
    where
      by_switch :
          (w : SwitchOn)
          → cfg.switch ≡ w
          → Returns (Obeyed cfg c s) (if ends cfg.switch then ok after_io else next_proc after_io)
      by_switch on_end w = let en : ends cfg.switch ≡ true = ap ends w in rw en (io_end w)
      by_switch on_io w = let en : ends cfg.switch ≡ false = ap ends w in rw en (io_switch w)

  -- the instruction is taken from the code and obeyed
  pub obey-Obeyed : Returns (Obeyed cfg c s) (obey cfg c (some a) (changed s popped))
  unfolding obey
  obey-Obeyed = by_action a
    where
      by_action : (b : Action) → Returns (Obeyed cfg c s) (obey cfg c (some b) (changed s popped))
      by_action compute = compute-Obeyed
      by_action io = issue-Obeyed

pub take_instruction-some :
    (s : Scheduler) (p : Process) (a : Action) (rest : List Action)
    → p.code ≡ a ∷ rest
    → p.state ≡ running
    → take_instruction s p
      ≡ (some a, record s { procs = set s.procs s.curr (record p { code = rest }) })
unfolding take_instruction
take_instruction-some s p a rest e r = rw (e, r) refl

pub take_instruction_empty :
    (s : Scheduler) (p : Process) → p.code ≡ [] → take_instruction s p ≡ (none, s)
unfolding take_instruction
take_instruction_empty s p e = rw e refl

pub take_instruction_idle :
    (s : Scheduler) (p : Process) → is p.state running ≡ false → take_instruction s p ≡ (none, s)
unfolding take_instruction
take_instruction_idle s p h = by_code p.code refl
  where
    by_code : (code : List Action) → p.code ≡ code → take_instruction s p ≡ (none, s)
    by_code [] e = rw e refl
    by_code (a ∷ rest) e = rw (e, h) refl
