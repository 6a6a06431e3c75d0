-- ===== src/Cpu/Threads/Context.antt =====
-- The threads of x86/x86.py that are live, and the contexts that `save` and `restore` copy.
use os_tep.Prelude.{
  ℕ, zero, suc, ◌+◌, ◌-◌, ◌≤◌, ◌<◌, ◌≡◌, refl, inl, inr, true, false, some, List, [], ◌∷◌, arith,
  if◌then◌else◌, Bool-cases, length, get_elem?, set,
}
use os_tep.Prelude.Fault.{ok}
use os_tep.Cpu.{Cpu}
use os_tep.Cpu.Threads.{
  Process, Procs, save, restore, set_done, save_process, restore_process, get_curr,
}
use os_tep.Cpu.Threads.Next.{IsLive}

abbrev pub live_count : List Process → ℕ
live_count [] = 0
live_count (p ∷ ps) = (if p.done then 0 else 1) + live_count ps

pub live_count-le : (ps : List Process) → live_count ps ≤ length ps
live_count-le [] = omega arith
live_count-le (p ∷ ps) = ground (arith, live_count-le ps)

pub live_count-set :
    (ps : List Process) (i : ℕ) (p q : Process)
    → get_elem? ps i ≡ some p
    → q.done ≡ p.done
    → live_count (set ps i q) ≡ live_count ps
live_count-set [] i p q e d = refl
live_count-set (r ∷ ps) zero p q e d = ground arith
live_count-set (r ∷ ps) (suc i) p q e d = omega (arith, live_count-set ps i p q e d)

pub live_count-set_done :
    (ps : List Process) (i : ℕ) (p q : Process)
    → get_elem? ps i ≡ some p
    → p.done ≡ false
    → q.done ≡ true
    → live_count ps ≡ live_count (set ps i q) + 1
live_count-set_done [] i p q e d t = ground arith
live_count-set_done (r ∷ ps) zero p q e d t = ground arith
live_count-set_done (r ∷ ps) (suc i) p q e d t = omega (arith, live_count-set_done ps i p q e d t)

-- If a process is live, its index is found.
pub IsLive-of_count : (ps : List Process) → 0 < live_count ps → (j : ℕ) × IsLive ps j
IsLive-of_count [] h = absurd (omega arith)
IsLive-of_count (p ∷ ps) h = elim (Bool-cases p.done) [
  | inl d ↦ let (j, l) = IsLive-of_count ps (ground arith) in (suc j, l)
  | inr d ↦ (0, (p, refl, d))
]

pub get_curr_lem :
    (ps : Procs) (p : Process) → get_elem? ps.plist ps.curr ≡ some p → get_curr ps ≡ ok p
unfolding get_curr
get_curr_lem ps p e = rw (e, get_curr)

pub restore_lem :
    (c : Cpu) (ps : Procs) (p : Process)
    → get_elem? ps.plist ps.curr ≡ some p
    → restore c ps ≡ ok (restore_process p c)
unfolding restore get_curr
restore_lem c ps p e = rw (e, restore, get_curr)

pub save_lem :
    (c : Cpu) (ps : Procs) (p : Process)
    → get_elem? ps.plist ps.curr ≡ some p
    → save c ps ≡ ok (record ps { plist = set ps.plist ps.curr (save_process c p) })
unfolding save get_curr
save_lem c ps p e = rw (e, save, get_curr)

pub set_done_lem :
    (ps : Procs) (p : Process)
    → get_elem? ps.plist ps.curr ≡ some p
    → set_done ps
      ≡ ok (record ps {
        plist = set ps.plist ps.curr (record p { done = true });
        active = ps.active - 1;
      })
unfolding set_done get_curr
set_done_lem ps p e = rw (e, set_done, get_curr)
