-- ===== src/Cpu/Run.antt =====
-- x86/x86.py, cpu.run: the interpreter loop with halts, yields and timer interrupts.
pub mod Ticks
pub mod Invariant
use os_tep.Prelude.{
  ℕ, zero, suc, ◌+◌, ◌-◌, ◌*◌, ◌/◌, ◌%◌, ◌≤◌, ◌<◌, ◌≡◌, refl, sym, ap, ◌∙◌, ◌≢◌, ◌↔◌, ◌⊎◌, inl, inr,
  Bool, true, false, not, ◌&&◌, ◌||◌, Option, none, some, List, [], ◌∷◌, ◌++◌, map, arith, ltb, leb,
  ◌==◌, if◌then◌else◌, Bool-cases, Option-cases, length, get_elem?, set, take, drop, replicate,
  get_or,
}
use os_tep.Prelude.Fault.{Result, ok, raise, ◌>>=◌}
use os_tep.Cpu.{Cpu}
use os_tep.Cpu.Exec
use os_tep.Cpu.Exec.{Rc, cycle}
use os_tep.Cpu.Threads.{get_curr, Procs, save, restore, next, set_done, num_done}

-- the state of the loop. `drawn` counts the random numbers that were used.
pub record Machine : Type 0 where
  pub cpu : Cpu
  pub procs : Procs
  pub interrupt : ℕ
  pub drawn : ℕ
  pub icount : ℕ

pub data Outcome : Type 0 where
  running : Machine → Outcome
  -- `return icount`
  finished : ℕ → Outcome

-- `intfreq` and `intrand`, and the values `int(random.random() * intfreq)`, one after the other
module _ (intfreq : ℕ) (intrand : Bool) (draws : ℕ → ℕ) where
  -- `setint`: the next interval, and the numbers used then
  pub setint : ℕ → ℕ × ℕ
  setint drawn = if intrand then (draws drawn + 1, drawn + 1) else (intfreq, drawn)

  -- the interrupt processing: the old thread is saved and the next one restored
  pub switch : Machine → Result Outcome
  unfolding setint
  switch m = do
    let (interrupt', drawn') = setint m.drawn
    procs' ← save m.cpu m.procs
    cpu' ← restore m.cpu (next procs')
    ok (
        running
          (record m { cpu = cpu'; procs = next procs'; interrupt = interrupt'; drawn = drawn' }))

  -- the end of the loop's body, where `yielded` is `rc == -2`
  pub tick : Bool → Machine → Result Outcome
  unfolding switch
  tick yields m =
      let m' = record m { interrupt = m.interrupt - 1 } in
      let again = switch m' in if m'.interrupt == 0 || yields then again else ok (running m')

  -- a halt: the thread is done; the loop returns if it was the last
  pub on_halt : Machine → Result Outcome
  on_halt m = do
    procs' ← set_done m.procs
    let rest : Result Outcome = (do
      cpu' ← restore m.cpu (next procs')
      tick false (record m { cpu = cpu'; procs = next procs' }))
    if num_done procs' == length procs'.plist then ok (finished m.icount) else rest

  pub after : Rc → Machine → Result Outcome
  unfolding on_halt tick
  after Rc.halted m = on_halt m
  after Rc.yielded m = tick true m
  after Rc.next m = tick false m

  -- one round of `while True`
  pub step : Machine → Result Outcome
  unfolding after
  step m = do
    p ← get_curr m.procs
    (rc, cpu') ← cycle m.cpu
    after rc (record m { cpu = cpu'; icount = m.icount + 1 })

  -- the loop, for at most `fuel` rounds
  pub run : ℕ → Machine → Result Outcome
  unfolding step
  run zero m = ok (running m)
  run (suc fuel) m = do
    o ← step m
    elim o [ running m' ↦ run fuel m' | finished n ↦ ok (finished n) ]
