-- ===== src/Cpu/Run/Invariant.antt =====
-- What one round of the loop of x86/x86.py, cpu.run, does to the machine and its threads.
use os_tep.Prelude.{
  ℕ, ◌+◌, ◌-◌, ◌<◌, ◌≡◌, refl, sym, ap, ◌∙◌, ◌≢◌, inl, inr, Bool, true, false, some, List, arith,
  ℕ_discrete, ◌==◌, Bool-cases, length, get_elem?, set, get_elem?-set_ne, length-set,
}
use os_tep.Prelude.Fault.{Result, ok, raise, ◌>>=◌, Returns, Returns-map}
use os_tep.Cpu.{Cpu}
use os_tep.Cpu.Exec.{Rc, cycle}
use os_tep.Cpu.Threads.{
  get_curr, Process, Procs, restore, next, num_done, save_process, restore_process,
}
use os_tep.Cpu.Threads.Next.{next-IsNext}
use os_tep.Cpu.Threads.Context.{
  get_curr_lem, live_count, live_count-set_done, IsLive-of_count, live_count-le, restore_lem,
  set_done_lem,
}
use os_tep.Cpu.Run.{Machine, Outcome, running, finished, tick, on_halt, after, step}
use os_tep.Cpu.Run.Ticks.{IsRunning, IsLoaded, Ticks, next-IsScheduled, context_of, tick_lem}

-- the threads that an instruction ends
abbrev pub halts : Rc → ℕ
halts Rc.halted = 1
halts Rc.yielded = 0
halts Rc.next = 0

-- What the rest of a round gives, from the machine `m` after an instruction with the result `rc`.
abbrev pub RoundGives : Rc → Machine → Outcome → Type 0
RoundGives rc m (running m') =
    IsRunning m'
    × (m'.icount ≡ m.icount)
    × (live_count m'.procs.plist + halts rc ≡ live_count m.procs.plist)
    × ((j : ℕ) → j ≢ m.procs.curr → get_elem? m'.procs.plist j ≡ get_elem? m.procs.plist j)
    × (m'.procs.curr ≢ m.procs.curr → IsLoaded m')
RoundGives rc m (finished n) = (n ≡ m.icount) × (rc ≡ Rc.halted) × (live_count m.procs.plist ≡ 1)

Ticks-gives : (rc : Rc) (m : Machine) (o : Outcome) → halts rc ≡ 0 → Ticks m o → RoundGives rc m o
Ticks-gives rc m (running m') z t =
    (t.kept, t.same_icount, omega (arith, t.same_live), t.others, t.loaded_new)
Ticks-gives rc m (finished n) z t = absurd t

save-restore : (r : Process) (c : Cpu) → save_process (restore_process r c) r ≡ r
unfolding save_process restore_process
save-restore r c = refl

resume_gives :
    (m : Machine) (ps : Procs) (r : Process) (o : Outcome)
    → get_elem? (next ps).plist (next ps).curr ≡ some r
    → live_count (next ps).plist + 1 ≡ live_count m.procs.plist
    → ((j : ℕ) → j ≢ m.procs.curr → get_elem? (next ps).plist j ≡ get_elem? m.procs.plist j)
    → Ticks (record m { cpu = restore_process r m.cpu; procs = next ps }) o
    → RoundGives Rc.halted m o
resume_gives m ps r (finished n) e one keep t = absurd t
resume_gives m ps r (running m') e one keep t = (
  t.kept,
  t.same_icount,
  omega (arith, t.same_live, one),
  λ j ne. elim (ℕ_discrete j (next ps).curr) [
    | yes f ↦
        let own = t.own r e (save-restore r m.cpu) in
        ap (get_elem? m'.procs.plist) f
        ∙ own
        ∙ sym e
        ∙ ap (get_elem? (next ps).plist) (sym f)
        ∙ keep j ne
    | no g ↦ t.others j g ∙ keep j ne
  ],
  λ ne. t.loaded_still (λ x h. context_of r x m.cpu (sym e ∙ h)),
)

abbrev pub StepGives : Machine → Result Outcome → Type 0
StepGives m (ok (running m')) =
    (rc : Rc) × (c : Cpu) × (cycle m.cpu ≡ ok (rc, c))
    × IsRunning m'
    × (m'.icount ≡ m.icount + 1)
    × (live_count m'.procs.plist + halts rc ≡ live_count m.procs.plist)
    × ((j : ℕ) → j ≢ m.procs.curr → get_elem? m'.procs.plist j ≡ get_elem? m.procs.plist j)
    × (m'.procs.curr ≢ m.procs.curr → IsLoaded m')
StepGives m (ok (finished n)) =
    (c : Cpu) × (cycle m.cpu ≡ ok (Rc.halted, c))
    × (n ≡ m.icount + 1)
    × (live_count m.procs.plist ≡ 1)
StepGives m (raise e) = cycle m.cpu ≡ raise e

StepGives-of_RoundGives :
    (m : Machine) (rc : Rc) (c : Cpu) (r : Result Outcome)
    → cycle m.cpu ≡ ok (rc, c)
    → Returns (RoundGives rc (record m { cpu = c; icount = m.icount + 1 })) r
    → StepGives m r
StepGives-of_RoundGives m rc c (ok (running m')) q h = (rc, c, q, h.0, h.1, h.2, h.3, h.4)
StepGives-of_RoundGives m rc c (ok (finished n)) q (same, halted, one) =
    (c, q ∙ ap (λ z. ok (z, c)) halted, same, one)
StepGives-of_RoundGives m rc c (raise e) q h = absurd h

module _ (intfreq : ℕ) (intrand : Bool) (draws : ℕ → ℕ) (positive : 0 < intfreq) where
  -- the rest of the round after a halt, with the threads `ps`
  resume_lem :
      (m : Machine) (ps : Procs)
      → 0 < m.interrupt
      → ps.curr < length ps.plist
      → ps.active ≡ live_count ps.plist
      → 0 < live_count ps.plist
      → live_count ps.plist + 1 ≡ live_count m.procs.plist
      → ((j : ℕ) → j ≢ m.procs.curr → get_elem? ps.plist j ≡ get_elem? m.procs.plist j)
      → Returns (RoundGives Rc.halted m) (
          restore m.cpu (next ps) >>= λ cpu'.
          tick intfreq intrand draws false (record m { cpu = cpu'; procs = next ps }))
  resume_lem m ps pending lt counted some_live one keep =
      let (j, live) = IsLive-of_count ps.plist some_live in
      let n = next-IsScheduled ps j lt live counted in
      let same = (next-IsNext ps j live lt).0 in
      let (r, e, l) = n.live in
      let m2 : Machine = record m { cpu = restore_process r m.cpu; procs = next ps } in
      rw (restore_lem m.cpu (next ps) r e) (
        Returns-map (Ticks m2) (RoundGives Rc.halted m) (tick intfreq intrand draws false m2)
          (tick_lem intfreq intrand draws positive false m2
            (record { scheduled = n; pending = pending }))
          (λ o.
            resume_gives m ps r o e (ap (λ t. live_count t + 1) same ∙ one)
              (λ k ne. ap (λ (t : List Process). get_elem? t k) same ∙ keep k ne)))

  on_halt_lem :
      (m : Machine)
      → IsRunning m
      → Returns (RoundGives Rc.halted m) (on_halt intfreq intrand draws m)
  unfolding on_halt num_done
  on_halt_lem m v =
      let (p, e, l) = v.scheduled.live in
      let i = m.procs.curr in
      let q : Process = record p { done = true } in
      let ps : Procs = record m.procs {
        plist = set m.procs.plist i q;
        active = m.procs.active - 1;
      } in
      let count = live_count-set_done m.procs.plist i p q e l refl in
      let counted = v.scheduled.counted in
      let len = length-set m.procs.plist i q in
      let most = live_count-le ps.plist in
      elim (Bool-cases (length ps.plist - ps.active == length ps.plist)) [
        | inl t ↦ rw (set_done_lem m.procs p e, t) (refl, refl, ground arith)
        | inr t ↦
            rw (set_done_lem m.procs p e, t)
              (resume_lem m ps v.pending (omega arith) (omega arith) (ground arith) (sym count)
                (λ j ne. get_elem?-set_ne m.procs.plist q (λ f. ne (sym f))))
      ]

  after_lem :
      (rc : Rc) (m : Machine)
      → IsRunning m
      → Returns (RoundGives rc m) (after intfreq intrand draws rc m)
  unfolding after
  after_lem Rc.halted m v = on_halt_lem m v
  after_lem Rc.yielded m v =
      Returns-map (Ticks m) (RoundGives Rc.yielded m) (tick intfreq intrand draws true m)
        (tick_lem intfreq intrand draws positive true m v) (λ o. Ticks-gives Rc.yielded m o refl)
  after_lem Rc.next m v =
      Returns-map (Ticks m) (RoundGives Rc.next m) (tick intfreq intrand draws false m)
        (tick_lem intfreq intrand draws positive false m v) (λ o. Ticks-gives Rc.next m o refl)

  -- What one round of the loop does, with a positive interrupt frequency and from a machine whose
  -- current thread is live, whose count of live threads is right and whose countdown is positive.
  -- The only exceptions are those of the instruction. If the loop goes on, all this holds again, one
  -- more instruction is counted, there is one live thread less if the instruction was a halt and else as
  -- many as before, every thread but the one that ran keeps its saved context, and another thread that
  -- runs now has its own context in the machine. The loop returns the number of instructions, and only
  -- when the instruction was the halt of the last live thread.
  pub step_lem : (m : Machine) → IsRunning m → StepGives m (step intfreq intrand draws m)
  unfolding step
  step_lem m v =
      with_curr (get_curr m.procs) (get_curr_lem m.procs v.scheduled.live.0 v.scheduled.live.1)
    where
      split :
          (r : Result (Rc × Cpu))
          → cycle m.cpu ≡ r
          → StepGives m (
              r >>= λ (rc, c).
              after intfreq intrand draws rc (record m { cpu = c; icount = m.icount + 1 }))
      split (raise e) q = q
      split (ok (rc, c)) q =
          let m2 : Machine = record m { cpu = c; icount = m.icount + 1 } in
          StepGives-of_RoundGives m rc c (after intfreq intrand draws rc m2) q
            (after_lem rc m2 (record { scheduled = v.scheduled; pending = v.pending }))

      with_curr :
          (r : Result Process)
          → r ≡ ok v.scheduled.live.0
          → StepGives m (
              r >>= λ p. cycle m.cpu >>= λ (rc, c).
              after intfreq intrand draws rc (record m { cpu = c; icount = m.icount + 1 }))
      with_curr (ok p) e = split (cycle m.cpu) refl
      with_curr (raise f) e = cc
