-- ===== src/Cpu/Tests.antt =====
-- Runs of the machine of x86/x86.py, and its theorems at concrete machines.
use os_tep.Prelude.{ℕ, ◌≡◌, refl, ◌≢◌, Bool, true, false, some, [], ◌∷◌, arith, if◌then◌else◌}
use os_tep.Prelude.Int.{pos, ◌+ℤ◌, ◌-ℤ◌}
use os_tep.Prelude.Fault.{ok, ◌>>=◌, Returns}
use os_tep.Cpu.{
  Reg, ax, bx, cx, sp, reg_num, reg_zero, Cond, gt, Cpu, Cell, value, code, init, set_reg, store,
  load, address, eq_ℤ, test_r_r, jump_if, call, ret, push_r, pop_r, atomic_exchange, fetchadd, halt,
}
use os_tep.Cpu.Exec.{execute}
use os_tep.Cpu.Exec.Stack.{pop_r-push_r}
use os_tep.Cpu.Threads.{Process, Procs, next}
use os_tep.Cpu.Threads.Next.{IsNext, next-IsNext, IsLive}
use os_tep.Cpu.Run.{Machine, step}
use os_tep.Cpu.Run.Ticks.{IsRunning}
use os_tep.Cpu.Run.Invariant.{StepGives, step_lem}

-- ax is 5, bx 3 and sp 100; the memory has one kilobyte, with 7 at address 20
abbrev sample : Cpu
sample = record (init 1) {
  registers = λ r. elim r [ ax ↦ pos 5 | bx ↦ pos 3 | sp ↦ pos 100 | _ ↦ pos 0 ];
  memory = λ a. if eq_ℤ (pos 20) a then some (value (pos 7)) else some (code halt);
}

not_sp : reg_num bx ≢ reg_num sp
not_sp e = omega arith

pop_r-push_r_example :
    Returns
      (λ (rc, c'). (c'.registers bx ≡ pos 96) × (c'.registers sp ≡ pos 100))
      (execute (push_r ax) sample >>= λ (rc, c1). execute (pop_r bx) c1)
unfolding ◌-ℤ◌
pop_r-push_r_example = pop_r-push_r ax bx sample not_sp

load_runs : load (address (pos 20) reg_zero reg_zero sample) sample ≡ ok (pos 7)
unfolding load address os_tep.Cpu.fetch ◌+ℤ◌ os_tep.Cpu.number
load_runs = refl

abbrev thread : ℕ → Bool → Process
thread tid done = record { tid = tid; pc = pos 0; regs = λ r. pos 0; cc = λ k. false; done = done }

-- the second of three threads has halted
abbrev threads : Procs
threads = record {
  plist = thread 0 false ∷ thread 1 true ∷ thread 2 false ∷ [];
  curr = 0;
  active = 2;
}

first_thread : IsLive threads.plist 0
first_thread = (thread 0 false, refl, refl)

next-IsNext_example : IsNext threads (next threads)
next-IsNext_example = next-IsNext threads 0 first_thread (omega arith)

-- about to execute `halt`
abbrev machine : Machine
machine = record { cpu = sample; procs = threads; interrupt = 50; drawn = 0; icount = 0 }

machine-IsRunning : IsRunning machine
machine-IsRunning = record {
  scheduled = record { in_range = omega arith; live = first_thread; counted = refl };
  pending = omega arith;
}

step_lem_example : StepGives machine (step 50 false (λ n. 0) machine)
step_lem_example = step_lem 50 false (λ n. 0) (omega arith) machine machine-IsRunning
