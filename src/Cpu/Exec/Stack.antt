-- ===== src/Cpu/Exec/Stack.antt =====
-- The stack and the locked instructions of x86/x86.py: `call` and `ret`, `push` and `pop`, `xchg`
-- and `fetchadd`.
use os_tep.Prelude.{◌≡◌, refl, ap, ◌∙◌, ◌≢◌, true, false, arith, ℕ_discrete}
use os_tep.Prelude.Int.{ℤ, pos, negsuc, ◌+ℤ◌, ◌-ℤ◌, int_laws}
use os_tep.Prelude.Fault.{ok, ◌>>=◌, Returns}
use os_tep.Cpu.{
  Reg, sp, Cpu, Cell, value, set_reg, store, fetch, number, load, address, eq_ℤ, reg_num, call, ret,
  push_r, pop_r, atomic_exchange, fetchadd,
}
use os_tep.Cpu.Exec.{do_call, do_ret, do_push_r, do_pop_r, do_exchange, do_fetchadd, execute}

sub-add : (a b : ℤ) → a -ℤ b +ℤ b ≡ a
sub-add a b = omega int_laws

eq_ℤ_refl : (a : ℤ) → eq_ℤ a a ≡ true
eq_ℤ_refl (pos n) = ground arith
eq_ℤ_refl (negsuc n) = ground arith

load-store : (a v : ℤ) (c : Cpu) → load a (store a (value v) c) ≡ ok v
unfolding load fetch number store
load-store a v c = rw (eq_ℤ_refl a, fetch)

-- the register that was set
set_reg_self : (r : Reg) (v : ℤ) (c : Cpu) → (set_reg r v c).registers r ≡ v
unfolding set_reg
set_reg_self r v c = ground arith

set_reg_other :
    (r q : Reg) (v : ℤ) (c : Cpu)
    → reg_num r ≢ reg_num q
    → (set_reg r v c).registers q ≡ c.registers q
unfolding set_reg
set_reg_other r q v c h = ground arith

pc-set_reg : (r : Reg) (v : ℤ) (c : Cpu) → (set_reg r v c).pc ≡ c.pc
unfolding set_reg
pc-set_reg r v c = refl

reg_num_injective : (r q : Reg) → reg_num r ≡ reg_num q → r ≡ q
reg_num_injective r q e = ground arith

set_reg_same :
    (r q : Reg) (v : ℤ) (c : Cpu) → reg_num r ≡ reg_num q → (set_reg r v c).registers q ≡ v
unfolding set_reg
set_reg_same r q v c h = ground arith

registers_same : (r q : Reg) (c : Cpu) → reg_num r ≡ reg_num q → c.registers r ≡ c.registers q
registers_same r q c e = ap (λ t. c.registers t) (reg_num_injective r q e)

load-set_reg : (a v : ℤ) (r : Reg) (c : Cpu) → load a (set_reg r v c) ≡ load a c
unfolding load fetch set_reg
load-set_reg a v r c = refl

memory-set_reg : (a v : ℤ) (r : Reg) (c : Cpu) → (set_reg r v c).memory a ≡ c.memory a
unfolding set_reg
memory-set_reg a v r c = refl

registers-store : (a : ℤ) (v : Cell) (r : Reg) (c : Cpu) → (store a v c).registers r ≡ c.registers r
unfolding store
registers-store a v r c = refl

memory-store_other :
    (a b : ℤ) (v : Cell) (c : Cpu) → eq_ℤ a b ≡ false → (store a v c).memory b ≡ c.memory b
unfolding store
memory-store_other a b v c h = rw h

-- A register and a cell are written, in the way that `xchg` and `fetchadd` write them.
write_both :
    (src : Reg) (old new a : ℤ) (c : Cpu)
    → let c' = set_reg src old (store a (value new) c) in
      (c'.registers src ≡ old)
      × (load a c' ≡ ok new)
      × ((q : Reg) → reg_num src ≢ reg_num q → c'.registers q ≡ c.registers q)
      × ((b : ℤ) → eq_ℤ a b ≡ false → c'.memory b ≡ c.memory b)
write_both src old new a c =
    let c1 = store a (value new) c in
    (
      set_reg_self src old c1,
      load-set_reg a old src c1 ∙ load-store a new c,
      λ q h. set_reg_other src q old c1 h ∙ registers-store a (value new) q c,
      λ b h. memory-set_reg b old src c1 ∙ memory-store_other a b (value new) c h,
    )

load_pc : (a t : ℤ) (c : Cpu) → load a (record c { pc = t }) ≡ load a c
unfolding load fetch
load_pc a t c = refl

load-do_call : (targ : ℤ) (c : Cpu) → load (c.registers sp -ℤ pos 4) (do_call targ c) ≡ ok c.pc
unfolding do_call
load-do_call targ c =
    let top = c.registers sp -ℤ pos 4 in
    let c1 = set_reg sp top c in
    load_pc top targ (store top (value c.pc) c1) ∙ load-store top c.pc c1

-- what `call` leaves behind
do_call_parts :
    (targ : ℤ) (c : Cpu)
    → let top = c.registers sp -ℤ pos 4 in
      ((do_call targ c).registers sp ≡ top)
      × (load top (do_call targ c) ≡ ok c.pc)
      × ((q : Reg) → reg_num sp ≢ reg_num q → (do_call targ c).registers q ≡ c.registers q)
      × ((b : ℤ) → eq_ℤ top b ≡ false → (do_call targ c).memory b ≡ c.memory b)
unfolding do_call set_reg store
do_call_parts targ c = (refl, load-do_call targ c, λ q h. ground arith, λ b h. rw h)

-- `ret` right after `call` returns to the caller: the PC, the stack pointer and every other
-- register are as before, and so is the memory but for the cell under the stack.
pub call-ret :
    (targ : ℤ) (c : Cpu)
    → Returns
        (λ (rc, c').
          (c'.pc ≡ c.pc)
          × ((r : Reg) → c'.registers r ≡ c.registers r)
          × ((a : ℤ) → eq_ℤ (c.registers sp -ℤ pos 4) a ≡ false → c'.memory a ≡ c.memory a))
        (execute (call targ) c >>= λ (rc, c1). execute ret c1)
unfolding execute do_ret
call-ret targ c =
    let parts = do_call_parts targ c in
    let top = c.registers sp -ℤ pos 4 in
    let c1 = do_call targ c in
    let c2 : Cpu = record c1 { pc = c.pc } in
    let back = c1.registers sp +ℤ pos 4 in
    let found : load (c1.registers sp) c1 ≡ ok c.pc = ap (λ a. load a c1) parts.0 ∙ parts.1 in
    let same : back ≡ c.registers sp =
      ap (λ a. a +ℤ pos 4) parts.0 ∙ sub-add (c.registers sp) (pos 4) in
    rw (found, do_ret)
      (
        pc-set_reg sp back c2,
        λ r. elim (ℕ_discrete (reg_num sp) (reg_num r)) [
          | yes e ↦ set_reg_same sp r back c2 e ∙ same ∙ registers_same sp r c e
          | no ne ↦ set_reg_other sp r back c2 ne ∙ parts.2 r ne
        ],
        λ a h. memory-set_reg a back sp c2 ∙ parts.3 a h,
      )

-- `pop_r` does not read the stack: after `push_r` it leaves, in a register other than the stack
-- pointer, the address of the pushed value and not the value.
pub pop_r-push_r :
    (src dst : Reg) (c : Cpu)
    → reg_num dst ≢ reg_num sp
    → Returns
        (λ (rc, c').
          (c'.registers dst ≡ c.registers sp -ℤ pos 4) × (c'.registers sp ≡ c.registers sp))
        (execute (push_r src) c >>= λ (rc, c1). execute (pop_r dst) c1)
unfolding execute do_pop_r do_push_r set_reg store
pop_r-push_r src dst c h = (ground arith, ground (arith, sub-add (c.registers sp) (pos 4)))

-- If the memory holds a number at the address, `xchg` exchanges it with the register, and changes
-- no other register and no other cell.
pub exchange_lem :
    (src r s : Reg) (v old : ℤ) (c : Cpu)
    → load (address v r s c) c ≡ ok old
    → Returns
        (λ (rc, c').
          (c'.registers src ≡ old)
          × (load (address v r s c) c' ≡ ok (c.registers src))
          × ((q : Reg) → reg_num src ≢ reg_num q → c'.registers q ≡ c.registers q)
          × ((a : ℤ) → eq_ℤ (address v r s c) a ≡ false → c'.memory a ≡ c.memory a))
        (execute (atomic_exchange src v r s) c)
unfolding execute do_exchange
exchange_lem src r s v old c e =
    rw (e, do_exchange) (write_both src old (c.registers src) (address v r s c) c)

-- If the memory holds a number at the address, `fetchadd` adds the register to it and leaves the
-- old number in the register; no other register and no other cell changes.
pub fetchadd_lem :
    (src r s : Reg) (v old : ℤ) (c : Cpu)
    → load (address v r s c) c ≡ ok old
    → Returns
        (λ (rc, c').
          (c'.registers src ≡ old)
          × (load (address v r s c) c' ≡ ok (old +ℤ c.registers src))
          × ((q : Reg) → reg_num src ≢ reg_num q → c'.registers q ≡ c.registers q)
          × ((a : ℤ) → eq_ℤ (address v r s c) a ≡ false → c'.memory a ≡ c.memory a))
        (execute (fetchadd src v r s) c)
unfolding execute do_fetchadd
fetchadd_lem src r s v old c e =
    rw (e, do_fetchadd) (write_both src old (old +ℤ c.registers src) (address v r s c) c)
