-- ===== src/Cpu/Run/Ticks.antt =====
-- The loop of x86/x86.py, cpu.run: the invariant of the machine and the isolation of the threads.
use os_tep.Prelude.{
  get_elem?_lt, ℕ, ◌-◌, ◌<◌, ◌≡◌, refl, sym, ap, ◌∙◌, ◌≢◌, inl, inr, Bool, ◌||◌, some, List, arith,
  ◌==◌, Bool-cases, length, get_elem?, set, get_elem?_lt, get_elem?-set_self, get_elem?-set_ne,
  length-set,
}
use os_tep.Prelude.Fault.{Returns, Returns-map}
use os_tep.Cpu.{Cpu}
use os_tep.Cpu.Threads.{Process, Procs, next, save_process, restore_process}
use os_tep.Cpu.Threads.Next.{IsLive, next-IsNext}
use os_tep.Cpu.Threads.Context.{live_count, live_count-set, restore_lem, save_lem}
use os_tep.Cpu.Run.{Machine, Outcome, running, finished, setint, switch, tick}

-- The current thread exists and is live, and `active` counts the live threads.
pub record IsScheduled (ps : Procs) : Type 0 where
  pub in_range : ps.curr < length ps.plist
  pub live : IsLive ps.plist ps.curr
  pub counted : ps.active ≡ live_count ps.plist

-- the invariant of the loop
pub record IsRunning (m : Machine) : Type 0 where
  pub scheduled : IsScheduled m.procs
  pub pending : 0 < m.interrupt

-- The machine has the context that is saved for the current thread.
abbrev pub IsLoaded : Machine → Type 0
IsLoaded m =
    (p : Process)
    → get_elem? m.procs.plist m.procs.curr ≡ some p
    → (m.cpu.pc ≡ p.pc) × (m.cpu.registers ≡ p.regs) × (m.cpu.conditions ≡ p.cc)

-- What the interrupt processing does to the threads: as many are live, the others keep their entries, and the
-- current one has its context saved at most.
pub record IsTicked (m m' : Machine) : Type 0 where
  pub kept : IsRunning m'
  pub same_live : live_count m'.procs.plist ≡ live_count m.procs.plist
  pub same_icount : m'.icount ≡ m.icount
  pub others : (j : ℕ) → j ≢ m.procs.curr → get_elem? m'.procs.plist j ≡ get_elem? m.procs.plist j
  pub own :
      (p : Process)
      → get_elem? m.procs.plist m.procs.curr ≡ some p
      → save_process m.cpu p ≡ p
      → get_elem? m'.procs.plist m.procs.curr ≡ some p
  pub loaded_still : IsLoaded m → IsLoaded m'
  pub loaded_new : m'.procs.curr ≢ m.procs.curr → IsLoaded m'

pub next-IsScheduled :
    (ps : Procs) (j : ℕ)
    → ps.curr < length ps.plist
    → IsLive ps.plist j
    → ps.active ≡ live_count ps.plist
    → IsScheduled (next ps)
next-IsScheduled ps j lt live e =
    let n = next-IsNext ps j live lt in
    record {
      in_range = get_elem?_lt (next ps).curr (next ps).plist {x = n.2.0} (rw n.0 n.2.1);
      live = rw n.0 n.2;
      counted = n.1 ∙ e ∙ ap live_count (sym n.0);
    }

some_same : {a b : Process} → some a ≡ some b → a ≡ b
some_same e = cc

pub context_of :
    (r x : Process) (c : Cpu)
    → some r ≡ some x
    → ((restore_process r c).pc ≡ x.pc)
      × ((restore_process r c).registers ≡ x.regs)
      × ((restore_process r c).conditions ≡ x.cc)
unfolding restore_process
context_of r x c e =
    let f = some_same e in
    (ap (λ (p : Process). p.pc) f, ap (λ (p : Process). p.regs) f, ap (λ (p : Process). p.cc) f)

saved_same :
    (c : Cpu) (p x : Process)
    → some p ≡ some x
    → save_process c x ≡ x
    → some (save_process c p) ≡ some x
saved_same c p x e f = ap some (ap (save_process c) (some_same e) ∙ f)

abbrev pub Ticks : Machine → Outcome → Type 0
Ticks m (running m') = IsTicked m m'
Ticks m (finished n) = ⊥

module _ (intfreq : ℕ) (intrand : Bool) (draws : ℕ → ℕ) (positive : 0 < intfreq) where
  setint-pos : (drawn : ℕ) → 0 < (setint intfreq intrand draws drawn).0
  unfolding setint
  setint-pos drawn = ground arith

  switch_lem :
      (m : Machine) → IsScheduled m.procs → Returns (Ticks m) (switch intfreq intrand draws m)
  unfolding switch save_process restore_process
  switch_lem m v =
      let (p, e, l) = v.live in
      let i = m.procs.curr in
      let q = save_process m.cpu p in
      let ps : Procs = record m.procs { plist = set m.procs.plist i q } in
      let self = get_elem?-set_self m.procs.plist i q v.in_range in
      let len = length-set m.procs.plist i q in
      let lt : ps.curr < length ps.plist = omega arith in
      let count = live_count-set m.procs.plist i p q e refl in
      let n = next-IsScheduled ps i lt (q, self, l) (v.counted ∙ sym count) in
      let same = (next-IsNext ps i (q, self, l) lt).0 in
      let (r, e', l') = n.live in
      let loads = λ (x : Process) (h : get_elem? (next ps).plist (next ps).curr ≡ some x).
        context_of r x m.cpu (sym e' ∙ h) in
      rw (save_lem m.cpu m.procs p e, restore_lem m.cpu (next ps) r e')
        (record {
          kept = record { scheduled = n; pending = setint-pos m.drawn };
          same_live = ap live_count same ∙ count;
          same_icount = refl;
          others = λ j ne.
              ap (λ (t : List Process). get_elem? t j) same
              ∙ get_elem?-set_ne m.procs.plist q (λ f. ne (sym f));
          own = λ x h f.
              ap (λ (t : List Process). get_elem? t i) same
              ∙ self
              ∙ saved_same m.cpu p x (sym e ∙ h) f;
          loaded_still = λ _. loads;
          loaded_new = λ _. loads;
        })

  -- the countdown itself does nothing to the threads
  Ticks-countdown :
      (n : ℕ) (m : Machine) (o : Outcome) → Ticks (record m { interrupt = n }) o → Ticks m o
  Ticks-countdown n m (running m') t = record {
    kept = t.kept;
    same_live = t.same_live;
    same_icount = t.same_icount;
    others = t.others;
    own = t.own;
    loaded_still = t.loaded_still;
    loaded_new = t.loaded_new;
  }
  Ticks-countdown n m (finished k) t = t

  pub tick_lem :
      (yields : Bool) (m : Machine)
      → IsRunning m
      → Returns (Ticks m) (tick intfreq intrand draws yields m)
  unfolding tick
  tick_lem yields m v =
      let m' : Machine = record m { interrupt = m.interrupt - 1 } in
      elim (Bool-cases (m.interrupt - 1 == 0 || yields)) [
        | inl e ↦ rw e (
            Returns-map (Ticks m') (Ticks m) (switch intfreq intrand draws m')
              (switch_lem m' v.scheduled) (Ticks-countdown (m.interrupt - 1) m))
        | inr e ↦ rw e (record {
          kept = record { scheduled = v.scheduled; pending = ground arith };
          same_live = refl;
          same_icount = refl;
          others = λ j ne. refl;
          own = λ x h f. h;
          loaded_still = λ h. h;
          loaded_new = λ ne. absurd (ne refl);
        })
      ]
