-- ===== src/Cpu/Exec/Flags.antt =====
-- The condition codes of x86/x86.py: what `test` sets, and when a conditional jump is taken.
use os_tep.Prelude.{◌≡◌, refl, sym, ◌∙◌, ◌≢◌, ◌↔◌, inl, inr, true, false, arith, Bool-cases}
use os_tep.Prelude.Int.{ℤ, ◌≤ℤ◌}
use os_tep.Prelude.Fault.{◌>>=◌, Returns}
use os_tep.Cpu.{
  Reg, Cond, gt, gte, lt, lte, eq, neq, Cpu, set_cond, init_condition_codes, test_r_r, jump_if,
}
use os_tep.Cpu.Exec.{test_all, do_jump_if, execute}

-- what a condition says of the second operand of `test` and the first
abbrev pub Holds : Cond → ℤ → ℤ → Type 0
Holds gt dst src = ¬ (dst ≤ℤ src)
Holds gte dst src = src ≤ℤ dst
Holds lt dst src = ¬ (src ≤ℤ dst)
Holds lte dst src = dst ≤ℤ src
Holds eq dst src = dst ≡ src
Holds neq dst src = dst ≢ src

test_all-Holds :
    (k : Cond) (src dst : ℤ) (c : Cpu)
    → ((test_all src dst c).conditions k ≡ true) ↔ Holds k dst src
unfolding test_all set_cond init_condition_codes
test_all-Holds gt src dst c = ground arith
test_all-Holds gte src dst c = ground arith
test_all-Holds lt src dst c = ground arith
test_all-Holds lte src dst c = ground arith
test_all-Holds eq src dst c = ground arith
test_all-Holds neq src dst c = ground arith

not_both : true ≡ false → ⊥
not_both e = cc

test_all_keeps :
    (src dst : ℤ) (c : Cpu)
    → ((test_all src dst c).pc ≡ c.pc)
      × ((r : Reg) → (test_all src dst c).registers r ≡ c.registers r)
      × ((a : ℤ) → (test_all src dst c).memory a ≡ c.memory a)
unfolding test_all set_cond init_condition_codes
test_all_keeps src dst c = (ground arith, λ r. ground arith, λ a. ground arith)

-- A conditional jump after `test` of two registers is taken exactly if its condition holds of their
-- contents; the test and the jump raise nothing and change no register and no memory.
pub test-jump_if :
    (k : Cond) (src dst : Reg) (targ : ℤ) (c : Cpu)
    → Returns
        (λ (rc, c').
          (Holds k (c.registers dst) (c.registers src) → c'.pc ≡ targ)
          × (¬ Holds k (c.registers dst) (c.registers src) → c'.pc ≡ c.pc)
          × ((r : Reg) → c'.registers r ≡ c.registers r)
          × ((a : ℤ) → c'.memory a ≡ c.memory a))
        (execute (test_r_r src dst) c >>= λ (rc, c1). execute (jump_if k targ) c1)
unfolding execute do_jump_if
test-jump_if k src dst targ c =
    let s = c.registers src in
    let d = c.registers dst in
    elim (Bool-cases ((test_all s d c).conditions k)) [
      | inl e ↦
          let h = (test_all-Holds k s d c).0 e in
          rw (e, do_jump_if)
            (λ _. refl, λ n. absurd (n h), (test_all_keeps s d c).1, (test_all_keeps s d c).2)
      | inr e ↦
          rw (e, do_jump_if)
            (
              λ h. absurd (not_both (sym ((test_all-Holds k s d c).1 h) ∙ e)),
              λ _. (test_all_keeps s d c).0,
              (test_all_keeps s d c).1,
              (test_all_keeps s d c).2,
            )
    ]
