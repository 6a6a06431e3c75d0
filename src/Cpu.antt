-- ===== src/Cpu.antt =====
-- x86/x86.py, class cpu: the machine and its instructions. Registers and memory hold integers
-- without a bound, as Python's do. The loader stores an instruction as the text of a call; here a
-- memory cell holds a number or that call. Executing a number is a TypeError. Reading an instruction
-- as a number is one in the model; the source would go on with its text in a register. An address
-- that is no key of the memory is a KeyError when it is read, and becomes one when it is written.
pub mod Exec
pub mod Threads
pub mod Run
mod Tests
use os_tep.Prelude.{
  ℕ, ◌*◌, ◌<◌, Bool, true, false, not, ◌&&◌, ◌||◌, Option, none, some, if◌then◌else◌, ltb, ◌==◌,
}
use os_tep.Prelude.Int.{ℤ, pos, negsuc, ◌+ℤ◌, ◌-ℤ◌, ltb_ℤ}
use os_tep.Prelude.Fault.{Fault, key_error, type_error, Result, ok, raise, ◌>>=◌}

pub data Reg : Type 0 where
  reg_zero ax bx cx dx sp bp : Reg

pub data Cond : Type 0 where
  gt gte lt lte eq neq : Cond

-- the calls that the loader writes into memory, with their arguments in the source's order
pub data Instr : Type 0 where
  move_i_to_r : ℤ → Reg → Instr
  move_i_to_m : ℤ → ℤ → Reg → Reg → Instr
  move_m_to_r : ℤ → Reg → Reg → Reg → Instr
  move_r_to_m : Reg → ℤ → Reg → Reg → Instr
  move_r_to_r : Reg → Reg → Instr
  add_i_to_r : ℤ → Reg → Instr
  add_r_to_r : Reg → Reg → Instr
  sub_i_to_r : ℤ → Reg → Instr
  sub_r_to_r : Reg → Reg → Instr
  atomic_exchange : Reg → ℤ → Reg → Reg → Instr
  fetchadd : Reg → ℤ → Reg → Reg → Instr
  test_i_r : ℤ → Reg → Instr
  test_r_i : Reg → ℤ → Instr
  test_r_r : Reg → Reg → Instr
  jump : ℤ → Instr
  -- `jump_notequal`, `jump_equal`, `jump_lessthan`, …: by the condition that they read
  jump_if : Cond → ℤ → Instr
  call : ℤ → Instr
  ret : Instr
  push_r : Reg → Instr
  push_m : ℤ → Reg → Reg → Instr
  pop : Instr
  pop_r : Reg → Instr
  nop halt iyield rdump : Instr
  mdump : ℤ → Instr

pub data Cell : Type 0 where
  value : ℤ → Cell
  code : Instr → Cell

pub record Cpu : Type 0 where
  pub pc : ℤ
  pub registers : Reg → ℤ
  pub conditions : Cond → Bool
  pub memory : ℤ → Option Cell

-- the numbers of the registers and of the conditions, as `__init__` sets them
abbrev pub reg_num : Reg → ℕ
reg_num reg_zero = 0
reg_num ax = 1
reg_num bx = 2
reg_num cx = 3
reg_num dx = 4
reg_num sp = 5
reg_num bp = 6

abbrev pub cond_num : Cond → ℕ
cond_num gt = 0
cond_num gte = 1
cond_num lt = 2
cond_num lte = 3
cond_num eq = 4
cond_num neq = 5

abbrev pub eq_ℤ : ℤ → ℤ → Bool
eq_ℤ (pos a) (pos b) = a == b
eq_ℤ (negsuc a) (negsuc b) = a == b
eq_ℤ _ _ = false

-- `__init__` with its three helpers: all registers are 0, all conditions False, and the memory
-- holds 0 at the addresses below `memory * 1024`
pub init : ℕ → Cpu
init memory = record {
  pc = pos 0;
  registers = λ r. pos 0;
  conditions = λ c. false;
  memory = λ a. elim a [
    | pos n ↦ if ltb n (memory * 1024) then some (value (pos 0)) else none
    | negsuc n ↦ none
  ];
}

pub set_reg : Reg → ℤ → Cpu → Cpu
set_reg r v c = record c { registers = λ q. if reg_num r == reg_num q then v else c.registers q }

pub set_cond : Cond → Bool → Cpu → Cpu
set_cond k b c = record c {
  conditions = λ j. if cond_num k == cond_num j then b else c.conditions j;
}

pub init_condition_codes : Cpu → Cpu
init_condition_codes c = record c { conditions = λ k. false }

pub store : ℤ → Cell → Cpu → Cpu
store a v c = record c { memory = λ b. if eq_ℤ a b then some v else c.memory b }

-- `self.memory[a]`, and its use as a number
pub fetch : ℤ → Cpu → Result Cell
fetch a c = elim (c.memory a) [ none ↦ raise key_error | some v ↦ ok v ]

pub number : Cell → Result ℤ
number (value v) = ok v
number (code i) = raise type_error

pub load : ℤ → Cpu → Result ℤ
load a c = do v ← fetch a c; number v

-- `value + self.registers[reg1] + self.registers[reg2]`
pub address : ℤ → Reg → Reg → Cpu → ℤ
address v r s c = v +ℤ c.registers r +ℤ c.registers s
