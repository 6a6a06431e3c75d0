-- ===== src/Cpu/Threads.antt =====
-- x86/x86.py, class process and class proclist: the saved contexts of the threads, and the choice
-- of the next one. `save` and `restore` copy all registers and conditions.
pub mod Next
pub mod Context
use os_tep.Prelude.{
  ℕ, zero, suc, ◌+◌, ◌-◌, ◌*◌, ◌/◌, ◌%◌, ◌≤◌, ◌<◌, ◌≡◌, refl, sym, ap, ◌∙◌, ◌≢◌, ◌↔◌, ◌⊎◌, inl, inr,
  Bool, true, false, not, ◌&&◌, ◌||◌, Option, none, some, List, [], ◌∷◌, ◌++◌, map, arith, ltb, leb,
  ◌==◌, if◌then◌else◌, Bool-cases, Option-cases, length, get_elem?, set, take, drop, replicate,
  get_or,
}
use os_tep.Prelude.Int.{ℤ, pos}
use os_tep.Prelude.Fault.{Result, ok, raise, index_error, ◌>>=◌}
use os_tep.Cpu.{Reg, sp, Cond, Cpu, reg_num}

pub record Process : Type 0 where
  pub tid : ℕ
  pub pc : ℤ
  pub regs : Reg → ℤ
  pub cc : Cond → Bool
  pub done : Bool

pub record Procs : Type 0 where
  pub plist : List Process
  pub curr : ℕ
  -- the number of processes that are not done
  pub active : ℕ

abbrev pub assign : Reg → ℤ → (Reg → ℤ) → Reg → ℤ
assign r v regs q = if reg_num r == reg_num q then v else regs q

pub assign_all : List (Reg × ℤ) → (Reg → ℤ) → Reg → ℤ
assign_all [] regs = regs
assign_all ((r, v) ∷ rest) regs = assign_all rest (assign r v regs)

-- `__init__`, with the assignments that `reginit` spells
pub new_process : ℕ → ℤ → ℤ → List (Reg × ℤ) → Process
unfolding assign_all
new_process tid pc stackbottom reginit = record {
  tid = tid;
  pc = pc;
  regs = assign sp stackbottom (assign_all reginit (λ r. pos 0));
  cc = λ k. false;
  done = false;
}

pub no_procs : Procs
no_procs = record { plist = []; curr = 0; active = 0 }

pub add : Process → Procs → Procs
add p ps = record ps { plist = ps.plist ++ p ∷ []; active = ps.active + 1 }

unfoldable pub save_process : Cpu → Process → Process
save_process c p = record p { pc = c.pc; regs = c.registers; cc = c.conditions }

unfoldable pub restore_process : Process → Cpu → Cpu
restore_process p c = record c { pc = p.pc; registers = p.regs; conditions = p.cc }

pub get_curr : Procs → Result Process
get_curr ps = elim (get_elem? ps.plist ps.curr) [ none ↦ raise index_error | some p ↦ ok p ]

pub set_done : Procs → Result Procs
unfolding get_curr
set_done ps = do
  p ← get_curr ps
  ok (record ps { plist = set ps.plist ps.curr (record p { done = true }); active = ps.active - 1 })

pub save : Cpu → Procs → Result Procs
unfolding save_process get_curr
save c ps = do p ← get_curr ps; ok (record ps { plist = set ps.plist ps.curr (save_process c p) })

pub restore : Cpu → Procs → Result Cpu
unfolding restore_process get_curr
restore c ps = do p ← get_curr ps; ok (restore_process p c)

-- `len(self.plist) - self.active`
unfoldable pub num_done : Procs → ℕ
num_done ps = length ps.plist - ps.active

-- the index of the first process that is not done, in a list that starts at index i
pub first_live : ℕ → List Process → Option ℕ
first_live i [] = none
first_live i (p ∷ ps) = if p.done then first_live (i + 1) ps else some i

-- the process found by the first loop of `__next__`, by the second, or the current one
pub pick : Option ℕ → Option ℕ → Procs → Procs
pick (some i) later ps = record ps { curr = i }
pick none (some i) ps = record ps { curr = i }
pick none none ps = ps

-- `__next__`: behind the current process, and then from the start up to it
pub next : Procs → Procs
unfolding first_live pick
next ps =
    pick (first_live (ps.curr + 1) (drop (ps.curr + 1) ps.plist))
      (first_live 0 (take (ps.curr + 1) ps.plist)) ps
