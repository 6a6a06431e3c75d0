-- ===== src/Proc/Finish.antt =====
-- The end of an I/O in process_py/process-run.py: what happens to the process that waited for it and
-- to the current one.
use os_tep.Prelude.{
  ==_iff, get_elem?-lt, ℕ, ◌<◌, ◌≡◌, refl, sym, ap, ◌∙◌, ◌≢◌, inl, inr, true, false, not, ◌&&◌,
  arith, ltb, ◌==◌, if◌then◌else◌, Bool-cases, get_elem?,
}
use os_tep.Prelude.Fault.{ok, ◌>>=◌, Returns, Returns-map, Returns-bind}
use os_tep.Proc.{
  running, ready, waiting, SwitchOn, on_io, on_end, IoDone, run_later, run_immediate, Config, ends,
  Process, Scheduler, is, move, run_proc, num_runnable, preempt, wake, contains, check_if_done,
  finish_io,
}
use os_tep.Proc.Recolor.{
  At, recolor, length-recolor, At-recolor, recolor_self, recolor_other, same_process, get_proc_lem,
  is_iff, move_lem, run_proc_lem, NoReady, num_runnable_one, num_runnable_two, num_runnable_pos,
  num_runnable-recolor,
}
use os_tep.Proc.Schedule.{
  Emptied, Emptied-recolor, IsScheduled, AreSimilar, AreSimilar-refl, AreSimilar-trans,
  AreSimilar-recolor, Settles, run_proc-Settles, IsScheduled-running, not_both,
  check_if_done-Checks, Checks,
}

preempt_lem :
    (pid : ℕ) (s : Scheduler) (c : Process)
    → At s.procs s.curr c
    → preempt pid s
      ≡ (if not (s.curr == pid) && is c.state running then move running ready s.curr s else ok s)
unfolding preempt
preempt_lem pid s c e = rw (get_proc_lem s.curr s c e) refl

wake_immediate :
    (cfg : Config) (pid : ℕ) (s : Scheduler)
    → cfg.io_done ≡ run_immediate
    → wake cfg pid s ≡ (preempt pid s >>= run_proc pid)
unfolding wake
wake_immediate cfg pid s e = rw e refl

wake_later :
    (cfg : Config) (pid : ℕ) (s : Scheduler)
    → cfg.io_done ≡ run_later
    → wake cfg pid s ≡ (
        (if ends cfg.switch && ltb 1 (num_runnable s.procs) then run_proc pid s else ok s) >>= λ s'.
        if num_runnable s'.procs == 1 then run_proc pid s' else ok s')
unfolding wake
wake_later cfg pid s e = rw e refl

module _ (cfg : Config) (s : Scheduler) (pid : ℕ) (p : Process) (v : IsScheduled cfg.switch s)
    (at : At s.procs pid p) (waits : p.state ≡ waiting) where
  -- the scheduler in which the process is ready
  abbrev roused : Scheduler
  roused = record s { procs = recolor pid ready s.procs }

  entry_pid : At roused.procs pid (record p { state = ready })
  entry_pid = recolor_self pid ready s.procs p at

  entry_other : (j : ℕ) (q : Process) → j ≢ pid → At roused.procs j q → At s.procs j q
  entry_other j q ne e = sym (recolor_other pid ready s.procs j ne) ∙ e

  runs_is_curr :
      (j : ℕ) (q : Process) → At roused.procs j q → q.state ≡ running → (j ≢ pid) × (j ≡ s.curr)
  runs_is_curr j q e r = elim (At-recolor pid ready s.procs j q e) [
    | inl (k, x, g, m) ↦ absurd (not_both (ap (λ (z : Process). z.state) m) r refl)
    | inr (k, g) ↦ (k, v.alone j q g r)
  ]

  none_waits : cfg.switch ≡ on_end → (j : ℕ) (q : Process) → At roused.procs j q → q.state ≢ waiting
  none_waits end j q e w = elim (At-recolor pid ready s.procs j q e) [
    | inl (k, x, g, m) ↦ not_both (ap (λ (z : Process). z.state) m) w refl
    | inr (k, g) ↦ k (v.blocked end j q g w ∙ sym (v.blocked end pid p at waits))
  ]

  out : Emptied roused.procs
  out = Emptied-recolor s.procs pid ready v.spent (λ k. absurd (not_both refl k refl))

  abbrev Wakes : Scheduler → Type 0
  Wakes = Settles cfg.switch roused.procs

  run_alone :
      ((j : ℕ) (q : Process) → j ≢ pid → At roused.procs j q → q.state ≢ running)
      → Returns Wakes (run_proc pid roused)
  run_alone still =
      run_proc-Settles cfg.switch roused pid (record p { state = ready }) entry_pid refl out still
        (λ end j q ne. none_waits end j q)

  -- IO_RUN_IMMEDIATE: the current process runs, and is stopped
  stop_current :
      (c : Process)
      → At roused.procs s.curr c
      → c.state ≡ running
      → s.curr ≢ pid
      → Returns Wakes (move running ready s.curr roused >>= run_proc pid)
  stop_current c e r ne =
      let ps = recolor s.curr ready roused.procs in
      let s2 : Scheduler = record s { procs = ps } in
      let back = recolor_other s.curr ready roused.procs pid (λ k. ne (sym k)) ∙ entry_pid in
      let calm =
        AreSimilar-recolor s.curr ready roused.procs c e (λ k. not_both r k refl)
          (λ k. not_both r k refl) (λ k. not_both refl k refl) in
      rw (move_lem running ready s.curr roused c e r) (
        Returns-map (Settles cfg.switch ps) Wakes (run_proc pid s2)
          (run_proc-Settles cfg.switch s2 pid (record p { state = ready }) back refl
            (Emptied-recolor roused.procs s.curr ready out (λ k. absurd (not_both refl k refl)))
            (λ j q k f h. elim (At-recolor s.curr ready roused.procs j q f) [
              | inl (a, x, g, m) ↦ not_both (ap (λ (z : Process). z.state) m) h refl
              | inr (a, g) ↦ a ((runs_is_curr j q g h).1)
            ])
            (λ end j q k f h. elim (At-recolor s.curr ready roused.procs j q f) [
              | inl (a, x, g, m) ↦ not_both (ap (λ (z : Process). z.state) m) h refl
              | inr (a, g) ↦ none_waits end j q g h
            ]))
          (λ s' t. (t.0, AreSimilar-trans roused.procs ps s'.procs calm t.1)))

  current : (c : Process) × At roused.procs s.curr c
  current =
      get_elem?-lt s.curr roused.procs (omega (arith, length-recolor pid ready s.procs, v.in_range))

  immediate : Returns Wakes (preempt pid roused >>= run_proc pid)
  immediate =
      let (c, e) = current in
      elim (Bool-cases (not (s.curr == pid) && is c.state running)) [
        | inl h ↦
            rw (preempt_lem pid roused c e, h)
              (stop_current c e ((is_iff c.state running).0 (ground arith)) (λ k. ground arith))
        | inr h ↦
            rw (preempt_lem pid roused c e, h)
              (run_alone (λ j q ne f r.
                let (k, same) = runs_is_curr j q f r in
                let f' = ap (get_elem? roused.procs) (sym same) ∙ f in
                let cq = same_process roused.procs s.curr e f' in
                let rc : is c.state running ≡ true =
                  (is_iff c.state running).1 (ap (λ (z : Process). z.state) cq ∙ r) in
                differs c (λ z. k (same ∙ z)) rc h))
      ]
    where
      differs :
          (c : Process)
          → s.curr ≢ pid
          → is c.state running ≡ true
          → (not (s.curr == pid) && is c.state running) ≡ false
          → ⊥
      differs c ne r h = ground arith

  -- IO_RUN_LATER with SWITCH_ON_END: the process was the current one, and runs again
  later_end :
      cfg.switch ≡ on_end
      → Returns Wakes (
          (if ends cfg.switch && ltb 1 (num_runnable roused.procs)
            then run_proc pid roused
            else ok roused)
          >>= λ s'. if num_runnable s'.procs == 1 then run_proc pid s' else ok s')
  later_end end =
      let en : ends cfg.switch ≡ true = ap ends end in
      elim (Bool-cases (ltb 1 (num_runnable roused.procs))) [
        | inl h ↦
            let p' : Process = record p { state = ready } in
            let more : (num_runnable (recolor pid running roused.procs) == 1) ≡ false = ground (
              arith,
              num_runnable-recolor pid running roused.procs p' entry_pid (inl refl) (inr refl),
            ) in
            rw (en, h, run_proc_lem pid roused p' entry_pid refl, more)
              (
                IsScheduled-running cfg.switch roused.procs pid p' entry_pid out still
                    (λ e j q ne. none_waits e j q),
                AreSimilar-recolor pid running roused.procs p' entry_pid (λ k. not_both refl k refl)
                    (λ k. not_both refl k refl) (λ k. not_both refl k refl),
              )
        | inr h ↦
            let one : (num_runnable roused.procs == 1) ≡ true = ground (
              arith,
              num_runnable_pos roused.procs pid (record p { state = ready }) entry_pid (inl refl),
            ) in
            rw (en, h, one) (run_alone still)
      ]
    where
      still : (j : ℕ) (q : Process) → j ≢ pid → At roused.procs j q → q.state ≢ running
      still j q ne f r = ne ((runs_is_curr j q f r).1 ∙ sym (v.blocked end pid p at waits))

  -- IO_RUN_LATER with SWITCH_ON_IO: the process runs if nothing else can
  later_io :
      cfg.switch ≡ on_io
      → Returns Wakes (
          (if ends cfg.switch && ltb 1 (num_runnable roused.procs)
            then run_proc pid roused
            else ok roused)
          >>= λ s'. if num_runnable s'.procs == 1 then run_proc pid s' else ok s')
  later_io io =
      let (c, e) = current in
      let en : ends cfg.switch ≡ false = ap ends io in
      elim (Bool-cases (num_runnable roused.procs == 1)) [
        | inl h ↦
            rw (en, h)
              (run_alone (λ j q ne f r.
                omega (arith, two j q ne f r, (==_iff (num_runnable roused.procs) 1).0 h)))
        | inr h ↦
            rw (en, h)
              (elim (Bool-cases (is c.state running)) [
                | inl r ↦
                    (keeps_running c e ((is_iff c.state running).0 r), AreSimilar-refl roused.procs)
                | inr r ↦ absurd (idle c e r h)
              ])
      ]
    where
      two :
          (j : ℕ) (q : Process)
          → j ≢ pid
          → At roused.procs j q
          → q.state ≡ running
          → 1 < num_runnable roused.procs
      two j q ne f r =
          num_runnable_two roused.procs j pid q (record p { state = ready }) ne f entry_pid (inr r)
            (inl refl)

      keeps_running :
          (c : Process)
          → At roused.procs s.curr c
          → c.state ≡ running
          → IsScheduled cfg.switch roused
      keeps_running c e r = record {
        in_range = omega (arith, length-recolor pid ready s.procs, v.in_range);
        alone = λ j q f h. (runs_is_curr j q f h).1;
        busy =
            λ q f. inl (ap (λ (z : Process). z.state) (same_process roused.procs s.curr f e) ∙ r);
        blocked = λ end j q f h. absurd (none_waits end j q f h);
        spent = out;
      }

      no_end : cfg.switch ≡ on_end → ⊥
      no_end e = cc (sym io ∙ e)

      idle :
          (c : Process)
          → At roused.procs s.curr c
          → is c.state running ≡ false
          → (num_runnable roused.procs == 1) ≡ false
          → ⊥
      idle c e r h =
          let (d, f) = get_elem?-lt s.curr s.procs v.in_range in
          elim (v.busy d f) [
            | inl run ↦ not_running d f run
            | inr (inl none_ready) ↦ no_one (only none_ready)
            | inr (inr (end, w)) ↦ no_end end
          ]
        where
          -- the current process was not running before either
          not_running : (d : Process) → At s.procs s.curr d → d.state ≡ running → ⊥
          not_running d f run =
              let ne : s.curr ≢ pid = λ k.
                let same = same_process s.procs pid (ap (get_elem? s.procs) (sym k) ∙ f) at in
                not_both (ap (λ (z : Process). z.state) (sym same) ∙ run) waits refl in
              let g = recolor_other pid ready s.procs s.curr ne ∙ f in
              let cd = same_process roused.procs s.curr e g in
              let t = (is_iff c.state running).1 (ap (λ (z : Process). z.state) cd ∙ run) in
              cc (sym r ∙ t)

          only : NoReady s.procs → num_runnable roused.procs ≡ 1
          only none_ready =
              num_runnable_one roused.procs pid (record p { state = ready }) entry_pid (inl refl)
                (λ j q ne g k. elim k [
                  | inl a ↦ none_ready j q (entry_other j q ne g) a
                  | inr a ↦
                      let here =
                        ap (get_elem? s.procs) (sym (v.alone j q (entry_other j q ne g) a))
                        ∙ entry_other j q ne g in
                      not_running q here a
                ])

          no_one : num_runnable roused.procs ≡ 1 → ⊥
          no_one k = ground arith

  pub wake-Settles : Returns Wakes (wake cfg pid roused)
  wake-Settles = by_done cfg.io_done refl
    where
      by_done : (d : IoDone) → cfg.io_done ≡ d → Returns Wakes (wake cfg pid roused)
      by_done run_immediate e = rw (wake_immediate cfg pid roused e) immediate
      by_done run_later e = rw (wake_later cfg pid roused e) (by_switch cfg.switch refl)
        where
          by_switch :
              (w : SwitchOn)
              → cfg.switch ≡ w
              → Returns Wakes (
                  (if ends cfg.switch && ltb 1 (num_runnable roused.procs)
                    then run_proc pid roused
                    else ok roused)
                  >>= λ s'. if num_runnable s'.procs == 1 then run_proc pid s' else ok s')
          by_switch on_end w = later_end w
          by_switch on_io w = later_io w

finish_io_lem :
    (cfg : Config) (clock pid : ℕ) (s : Scheduler) (p : Process)
    → At s.procs pid p
    → finish_io cfg clock pid s ≡ (
        if contains clock p.finish_times
        then (move waiting ready pid s >>= λ s1. wake cfg pid s1 >>= check_if_done)
        else ok s)
unfolding finish_io
finish_io_lem cfg clock pid s p e = rw (get_proc_lem pid s p e) refl

-- What the loop's body gives for process `pid`, whose finish times have the clock's or have not.
abbrev pub FinishGives : Config → ℕ → ℕ → Scheduler → Process → Scheduler → Type 0
FinishGives cfg clock pid s p s' =
    IsScheduled cfg.switch s'
    × (contains clock p.finish_times ≡ true → AreSimilar (recolor pid ready s.procs) s'.procs)
    × (contains clock p.finish_times ≡ false → s' ≡ s)

pub finish_io-FinishGives :
    (cfg : Config) (clock pid : ℕ) (s : Scheduler) (p : Process)
    → IsScheduled cfg.switch s
    → At s.procs pid p
    → (contains clock p.finish_times ≡ true → p.state ≡ waiting)
    → Returns (FinishGives cfg clock pid s p) (finish_io cfg clock pid s)
finish_io-FinishGives cfg clock pid s p v e w = elim (Bool-cases (contains clock p.finish_times)) [
  | inl h ↦
      let s1 : Scheduler = record s { procs = recolor pid ready s.procs } in
      rw (finish_io_lem cfg clock pid s p e, h, move_lem waiting ready pid s p e (w h))
        (Returns-bind (Settles cfg.switch s1.procs) _ (wake cfg pid s1) check_if_done
          (wake-Settles cfg s pid p v e (w h))
          (λ s2 t.
            Returns-map (Checks cfg.switch s2) _ (check_if_done s2)
              (check_if_done-Checks cfg.switch s2 t.0)
              (λ s3 u. (
                u.0.0,
                λ _. AreSimilar-trans s1.procs s2.procs s3.procs t.1 u.0.1,
                λ k. absurd (cc (sym h ∙ k)),
              ))))
  | inr h ↦ rw (finish_io_lem cfg clock pid s p e, h) (v, λ k. absurd (cc (sym h ∙ k)), λ _. refl)
]
