-- ===== src/Cpu/Exec.antt =====
-- The instructions of x86/x86.py, class cpu, a function for each method.
pub mod Flags
pub mod Stack
use os_tep.Prelude.{
  ℕ, zero, suc, ◌+◌, ◌-◌, ◌*◌, ◌/◌, ◌%◌, ◌≤◌, ◌<◌, ◌≡◌, refl, sym, ap, ◌∙◌, ◌≢◌, ◌↔◌, ◌⊎◌, inl, inr,
  Bool, true, false, not, ◌&&◌, ◌||◌, Option, none, some, List, [], ◌∷◌, ◌++◌, map, arith, ltb, leb,
  ◌==◌, if◌then◌else◌, Bool-cases, Option-cases, length, get_elem?, set, take, drop, replicate,
  get_or,
}
use os_tep.Prelude.Int.{ℤ, pos, negsuc, ◌+ℤ◌, ◌-ℤ◌, ltb_ℤ}
use os_tep.Prelude.Fault.{Result, ok, raise, ◌>>=◌}
use os_tep.Cpu.{
  type_error, Reg, reg_zero, ax, bx, cx, dx, sp, bp, Cond, gt, gte, lt, lte, eq, neq, Instr,
  move_i_to_r, move_i_to_m, move_m_to_r, move_r_to_m, move_r_to_r, add_i_to_r, add_r_to_r,
  sub_i_to_r, sub_r_to_r, atomic_exchange, fetchadd, test_i_r, test_r_i, test_r_r, jump, jump_if,
  call, ret, push_r, push_m, pop, pop_r, nop, halt, iyield, rdump, mdump, Cell, value, code, Cpu,
  set_reg, set_cond, init_condition_codes, store, fetch, load, address, eq_ℤ,
}

-- what a method returns: -1, -2, or anything else
pub data Rc : Type 0 where
  halted yielded next : Rc

-- `test_all`, with `src` and `dst` in the source's order
pub test_all : ℤ → ℤ → Cpu → Cpu
test_all src dst c =
    let c0 = init_condition_codes c in
    let c1 = if ltb_ℤ src dst then set_cond gt true c0 else c0 in
    let c2 = if not (ltb_ℤ dst src) then set_cond gte true c1 else c1 in
    let c3 = if ltb_ℤ dst src then set_cond lt true c2 else c2 in
    let c4 = if not (ltb_ℤ src dst) then set_cond lte true c3 else c3 in
    let c5 = if eq_ℤ dst src then set_cond eq true c4 else c4 in
    if not (eq_ℤ dst src) then set_cond neq true c5 else c5

pub do_exchange : Reg → ℤ → Reg → Reg → Cpu → Result Cpu
do_exchange src v r s c = do
  let tmp = address v r s c
  old ← load tmp c
  ok (set_reg src old (store tmp (value (c.registers src)) c))

pub do_fetchadd : Reg → ℤ → Reg → Reg → Cpu → Result Cpu
do_fetchadd src v r s c = do
  let tmp = address v r s c
  old ← load tmp c
  ok (set_reg src old (store tmp (value (old +ℤ c.registers src)) c))

pub do_jump_if : Cond → ℤ → Cpu → Cpu
do_jump_if k targ c = if c.conditions k then record c { pc = targ } else c

-- the stack pointer down by 4, and the value at the new top
pub do_push : ℤ → Cpu → Cpu
do_push v c = let top = c.registers sp -ℤ pos 4 in store top (value v) (set_reg sp top c)

pub do_call : ℤ → Cpu → Cpu
unfolding do_push
do_call targ c = record (do_push c.pc c) { pc = targ }

pub do_ret : Cpu → Result Cpu
do_ret c = do
  target ← load (c.registers sp) c
  ok (set_reg sp (c.registers sp +ℤ pos 4) (record c { pc = target }))

-- `push_r` reads the register after it has moved the stack pointer, and `push_m` the registers of
-- its address.
pub do_push_r : Reg → Cpu → Cpu
do_push_r reg c =
    let c' = set_reg sp (c.registers sp -ℤ pos 4) c in
    store (c'.registers sp) (value (c'.registers reg)) c'

pub do_push_m : ℤ → Reg → Reg → Cpu → Cpu
do_push_m v r s c =
    let c' = set_reg sp (c.registers sp -ℤ pos 4) c in
    store (c'.registers sp) (value (address v r s c')) c'

pub do_pop : Cpu → Cpu
do_pop c = set_reg sp (c.registers sp +ℤ pos 4) c

-- `pop_r` reads the stack pointer once more for its second line.
pub do_pop_r : Reg → Cpu → Cpu
do_pop_r dst c = let c' = set_reg dst (c.registers sp) c in set_reg sp (c'.registers sp +ℤ pos 4) c'

pub execute : Instr → Cpu → Result (Rc × Cpu)
unfolding test_all do_exchange do_fetchadd do_jump_if do_call do_ret do_push_r do_push_m do_pop
    do_pop_r
execute (move_i_to_r src dst) c = ok (next, set_reg dst src c)
execute (move_i_to_m src v r s) c = ok (next, store (address v r s c) (value src) c)
execute (move_m_to_r v r s dst) c = do x ← load (address v r s c) c; ok (next, set_reg dst x c)
execute (move_r_to_m src v r s) c = ok (next, store (address v r s c) (value (c.registers src)) c)
execute (move_r_to_r src dst) c = ok (next, set_reg dst (c.registers src) c)
execute (add_i_to_r src dst) c = ok (next, set_reg dst (c.registers dst +ℤ src) c)
execute (add_r_to_r src dst) c = ok (next, set_reg dst (c.registers dst +ℤ c.registers src) c)
execute (sub_i_to_r src dst) c = ok (next, set_reg dst (c.registers dst -ℤ src) c)
execute (sub_r_to_r src dst) c = ok (next, set_reg dst (c.registers dst -ℤ c.registers src) c)
execute (atomic_exchange src v r s) c = do c' ← do_exchange src v r s c; ok (next, c')
execute (fetchadd src v r s) c = do c' ← do_fetchadd src v r s c; ok (next, c')
execute (test_i_r src dst) c = ok (next, test_all src (c.registers dst) c)
execute (test_r_i src dst) c = ok (next, test_all (c.registers src) dst c)
execute (test_r_r src dst) c = ok (next, test_all (c.registers src) (c.registers dst) c)
execute (jump targ) c = ok (next, record c { pc = targ })
execute (jump_if k targ) c = ok (next, do_jump_if k targ c)
execute (call targ) c = ok (next, do_call targ c)
execute ret c = do c' ← do_ret c; ok (next, c')
execute (push_r reg) c = ok (next, do_push_r reg c)
execute (push_m v r s) c = ok (next, do_push_m v r s c)
execute pop c = ok (next, do_pop c)
execute (pop_r dst) c = ok (next, do_pop_r dst c)
execute nop c = ok (next, c)
execute halt c = ok (halted, c)
execute iyield c = ok (yielded, c)
execute rdump c = ok (next, c)
execute (mdump index) c = do x ← fetch index c; ok (next, c)

pub instruction : Cell → Result Instr
instruction (code i) = ok i
instruction (value v) = raise type_error

-- One round of FETCH, DECODE and EXECUTE: the PC is incremented before the instruction runs.
pub cycle : Cpu → Result (Rc × Cpu)
unfolding execute instruction
cycle c = do cell ← fetch c.pc c; i ← instruction cell; execute i (record c { pc = c.pc +ℤ pos 1 })
