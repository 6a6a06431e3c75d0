-- ===== src/Proc/Recolor.antt =====
-- Changing the state of one process of process_py/process-run.py.
use os_tep.Prelude.{
  ℕ, zero, suc, ◌+◌, ◌<◌, ◌≡◌, refl, sym, ap, ◌∙◌, ◌≢◌, ◌↔◌, ◌⊎◌, inl, inr, true, none, some, List,
  [], ◌∷◌, arith, Bool-cases, length, get_elem?, set,
}
use os_tep.Prelude.Fault.{ok}
use os_tep.Proc.{
  State, running, ready, Process, Scheduler, is, get_proc, move, run_proc, num_runnable,
  first_ready,
}

-- process `i` of the list
abbrev pub At : List Process → ℕ → Process → Type 0
At ps i p = get_elem? ps i ≡ some p

abbrev pub recolor : ℕ → State → List Process → List Process
recolor i st [] = []
recolor zero st (p ∷ ps) = record p { state = st } ∷ ps
recolor (suc i) st (p ∷ ps) = p ∷ recolor i st ps

pub set-recolor :
    (ps : List Process) (i : ℕ) (st : State) (p : Process)
    → At ps i p
    → set ps i (record p { state = st }) ≡ recolor i st ps
set-recolor [] i st p e = refl
set-recolor (q ∷ ps) zero st p e = ground arith
set-recolor (q ∷ ps) (suc i) st p e = rw (set-recolor ps i st p e) refl

pub length-recolor : (i : ℕ) (st : State) (ps : List Process) → length (recolor i st ps) ≡ length ps
length-recolor i st [] = refl
length-recolor zero st (p ∷ ps) = refl
length-recolor (suc i) st (p ∷ ps) = ap suc (length-recolor i st ps)

-- an entry of the new list: the one that has changed, or an old one
pub At-recolor :
    (i : ℕ) (st : State) (ps : List Process) (j : ℕ) (q : Process)
    → At (recolor i st ps) j q
    → ((j ≡ i) × (p : Process) × At ps i p × (q ≡ record p { state = st })) ⊎ ((j ≢ i) × At ps j q)
At-recolor i st [] j q e = cc
At-recolor zero st (p ∷ ps) zero q e = inl (refl, p, refl, ground arith)
At-recolor zero st (p ∷ ps) (suc j) q e = inr (λ k. omega arith, e)
At-recolor (suc i) st (p ∷ ps) zero q e = inr (λ k. omega arith, e)
At-recolor (suc i) st (p ∷ ps) (suc j) q e = elim (At-recolor i st ps j q e) [
  | inl (k, p, f, m) ↦ inl (ap suc k, p, f, m)
  | inr (k, m) ↦ inr (λ h. k (omega arith), m)
]

pub recolor_self :
    (i : ℕ) (st : State) (ps : List Process) (p : Process)
    → At ps i p
    → At (recolor i st ps) i (record p { state = st })
recolor_self i st [] p e = cc
recolor_self zero st (q ∷ ps) p e = ground arith
recolor_self (suc i) st (q ∷ ps) p e = recolor_self i st ps p e

pub recolor_other :
    (i : ℕ) (st : State) (ps : List Process) (j : ℕ)
    → j ≢ i
    → get_elem? (recolor i st ps) j ≡ get_elem? ps j
recolor_other i st [] j h = refl
recolor_other zero st (p ∷ ps) zero h = absurd (h refl)
recolor_other zero st (p ∷ ps) (suc j) h = refl
recolor_other (suc i) st (p ∷ ps) zero h = refl
recolor_other (suc i) st (p ∷ ps) (suc j) h = recolor_other i st ps j (λ e. h (ap suc e))

pub same_process : {p q : Process} (ps : List Process) (i : ℕ) → At ps i p → At ps i q → p ≡ q
same_process {p} {q} ps i e f = some_same (sym e ∙ f)
  where
    some_same : {p q : Process} → some p ≡ some q → p ≡ q
    some_same e = cc

pub get_proc_lem : (i : ℕ) (s : Scheduler) (p : Process) → At s.procs i p → get_proc i s ≡ ok p
unfolding get_proc
get_proc_lem i s p e = rw (e, get_proc)

pub is_refl : (st : State) → is st st ≡ true
is_refl st = ground arith

pub is_iff : (a b : State) → (is a b ≡ true) ↔ (a ≡ b)
is_iff a b = ground arith

pub move_lem :
    (expected target : State) (i : ℕ) (s : Scheduler) (p : Process)
    → At s.procs i p
    → p.state ≡ expected
    → move expected target i s ≡ ok (record s { procs = recolor i target s.procs })
unfolding move
move_lem expected target i s p e h =
    rw (get_proc_lem i s p e, h, is_refl expected, set-recolor s.procs i target p e) refl

pub run_proc_lem :
    (i : ℕ) (s : Scheduler) (p : Process)
    → At s.procs i p
    → p.state ≡ ready
    → run_proc i s ≡ ok (record { procs = recolor i running s.procs; curr = i })
unfolding run_proc
run_proc_lem i s p e h = move_lem ready running i (record s { curr = i }) p e h

-- a runnable process, alone or not
abbrev pub IsRunnable : State → Type 0
IsRunnable st = (st ≡ ready) ⊎ (st ≡ running)

num_runnable_none :
    (ps : List Process)
    → ((i : ℕ) (p : Process) → At ps i p → ¬ IsRunnable p.state)
    → num_runnable ps ≡ 0
unfolding num_runnable
num_runnable_none [] h = refl
num_runnable_none (p ∷ ps) h =
    ground (arith, h 0 p refl, num_runnable_none ps (λ i q e. h (suc i) q e))

pub num_runnable_one :
    (ps : List Process) (i : ℕ) (p : Process)
    → At ps i p
    → IsRunnable p.state
    → ((j : ℕ) (q : Process) → j ≢ i → At ps j q → ¬ IsRunnable q.state)
    → num_runnable ps ≡ 1
unfolding num_runnable
num_runnable_one [] i p e r h = cc
num_runnable_one (q ∷ ps) zero p e r h =
    ground (arith, num_runnable_none ps (λ j x k. h (suc j) x (λ z. omega arith) k))
num_runnable_one (q ∷ ps) (suc i) p e r h = ground (
  arith,
  h 0 q (λ z. omega arith) refl,
  num_runnable_one ps i p e r (λ j x ne k. h (suc j) x (λ z. ne (omega arith)) k),
)

pub num_runnable_pos :
    (ps : List Process) (i : ℕ) (p : Process) → At ps i p → IsRunnable p.state → 0 < num_runnable ps
unfolding num_runnable
num_runnable_pos [] i p e r = cc
num_runnable_pos (q ∷ ps) zero p e r = ground arith
num_runnable_pos (q ∷ ps) (suc i) p e r = ground (arith, num_runnable_pos ps i p e r)

pub num_runnable_two :
    (ps : List Process) (i j : ℕ) (p q : Process)
    → i ≢ j
    → At ps i p
    → At ps j q
    → IsRunnable p.state
    → IsRunnable q.state
    → 1 < num_runnable ps
unfolding num_runnable
num_runnable_two [] i j p q ne e f r r' = cc
num_runnable_two (x ∷ ps) zero zero p q ne e f r r' = absurd (ne refl)
num_runnable_two (x ∷ ps) zero (suc j) p q ne e f r r' =
    ground (arith, num_runnable_pos ps j q f r')
num_runnable_two (x ∷ ps) (suc i) zero p q ne e f r r' = ground (arith, num_runnable_pos ps i p e r)
num_runnable_two (x ∷ ps) (suc i) (suc j) p q ne e f r r' =
    ground (arith, num_runnable_two ps i j p q (λ k. ne (ap suc k)) e f r r')

pub num_runnable-recolor :
    (i : ℕ) (st : State) (ps : List Process) (p : Process)
    → At ps i p
    → IsRunnable p.state
    → IsRunnable st
    → num_runnable (recolor i st ps) ≡ num_runnable ps
unfolding num_runnable
num_runnable-recolor i st [] p e a b = refl
num_runnable-recolor zero st (q ∷ ps) p e a b = ground arith
num_runnable-recolor (suc i) st (q ∷ ps) p e a b =
    omega (arith, num_runnable-recolor i st ps p e a b)

-- the results of the search for a ready process
abbrev pub NoReady : List Process → Type 0
NoReady ps = (i : ℕ) (p : Process) → At ps i p → p.state ≢ ready

pub first_ready-some :
    (start i : ℕ) (ps : List Process)
    → first_ready start ps ≡ some i
    → (k : ℕ) × (p : Process) × (i ≡ start + k) × At ps k p × (p.state ≡ ready)
unfolding first_ready
first_ready-some start i [] e = cc
first_ready-some start i (p ∷ ps) e = elim (Bool-cases (is p.state ready)) [
  | inl h ↦ (0, p, ground arith, refl, (is_iff p.state ready).0 h)
  | inr h ↦
      let (k, q, f, g, r) = first_ready-some (start + 1) i ps (rw h at e) in
      (suc k, q, omega arith, g, r)
]

pub first_ready-none : (start : ℕ) (ps : List Process) → first_ready start ps ≡ none → NoReady ps
unfolding first_ready
first_ready-none start [] e i p h = cc
first_ready-none start (q ∷ ps) e zero p h = ground arith
first_ready-none start (q ∷ ps) e (suc i) p h = elim (Bool-cases (is q.state ready)) [
  | inl k ↦ absurd (no_some (rw k at e))
  | inr k ↦ first_ready-none (start + 1) ps (rw k at e) i p h
]
  where
    no_some : {n : ℕ} → some n ≡ none → ⊥
    no_some e = cc
