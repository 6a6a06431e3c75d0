-- ===== src/Proc/Weight.antt =====
-- The times at which I/O of the processes of process_py/process-run.py ends, and a measure of what a
-- list of processes still has to do.
use os_tep.Prelude.{
  ℕ, zero, suc, ◌+◌, ◌-◌, ◌*◌, ◌≤◌, ◌<◌, ◌≡◌, refl, sym, ap, ◌∙◌, ◌≢◌, ◌⊎◌, inl, inr, true, false,
  ◌||◌, List, [], ◌∷◌, ◌++◌, arith, ◌==◌, if◌then◌else◌, Bool-cases, length, set,
}
use mathlib.Core.Path.{subst}
use os_tep.Proc.{
  Action, State, running, ready, finished, waiting, Process, is, contains, num_active,
}
use os_tep.Proc.Recolor.{At, recolor, set-recolor, same_process, is_iff}
use os_tep.Proc.Schedule.{IsSimilar, AreSimilar}

abbrev pub AllLe : ℕ → List ℕ → Type 0
AllLe c [] = Unit
AllLe c (t ∷ ts) = (t ≤ c) × AllLe c ts

pub AllLe-mono : (c d : ℕ) (ts : List ℕ) → c ≤ d → AllLe c ts → AllLe d ts
AllLe-mono c d [] h a = tt
AllLe-mono c d (t ∷ ts) h a = (omega arith, AllLe-mono c d ts h a.1)

AllLe-append : (c t : ℕ) (ts : List ℕ) → AllLe c ts → t ≤ c → AllLe c (ts ++ t ∷ [])
AllLe-append c t [] a h = (h, tt)
AllLe-append c t (u ∷ ts) a h = (a.0, AllLe-append c t ts a.1 h)

contains-AllLe : (c n : ℕ) (ts : List ℕ) → AllLe c ts → c < n → contains n ts ≡ false
unfolding contains
contains-AllLe c n [] a h = refl
contains-AllLe c n (t ∷ ts) a h = ground (arith, contains-AllLe c n ts a.1 h)

contains-append : (n t : ℕ) (ts : List ℕ) → contains n (ts ++ t ∷ []) ≡ (contains n ts || t == n)
unfolding contains
contains-append n t [] = ground arith
contains-append n t (u ∷ ts) = ground (arith, contains-append n t ts)

-- the time that was added last
abbrev pub latest : List ℕ → ℕ
latest [] = 0
latest (t ∷ []) = t
latest (t ∷ u ∷ ts) = latest (u ∷ ts)

pub latest-append : (t : ℕ) (ts : List ℕ) → latest (ts ++ t ∷ []) ≡ t
latest-append t [] = refl
latest-append t (u ∷ []) = refl
latest-append t (u ∷ v ∷ ts) = latest-append t (v ∷ ts)

pub latest-AllLe : (c : ℕ) (ts : List ℕ) → AllLe c ts → latest ts ≤ c
latest-AllLe c [] a = omega arith
latest-AllLe c (t ∷ []) a = a.0
latest-AllLe c (t ∷ u ∷ ts) a = latest-AllLe c (u ∷ ts) a.1

-- At time `c`, the last I/O of a process that waits ends later; all other I/O has ended.
abbrev pub Due : ℕ → State → List ℕ → Type 0
Due c waiting ts = (w : ℕ) × (past : List ℕ) × (ts ≡ past ++ w ∷ []) × AllLe c past × (c < w)
Due c running ts = AllLe c ts
Due c ready ts = AllLe c ts
Due c finished ts = AllLe c ts

pub Due-past : (c : ℕ) (st : State) (ts : List ℕ) → st ≢ waiting → Due c st ts → AllLe c ts
Due-past c running ts h d = d
Due-past c ready ts h d = d
Due-past c finished ts h d = d
Due-past c waiting ts h d = absurd (h refl)

pub past_Due : (c : ℕ) (st : State) (ts : List ℕ) → st ≢ waiting → AllLe c ts → Due c st ts
past_Due c running ts h d = d
past_Due c ready ts h d = d
past_Due c finished ts h d = d
past_Due c waiting ts h d = absurd (h refl)

-- a time that the clock reaches ends the wait
pub Due-reached :
    (c : ℕ) (st : State) (ts : List ℕ)
    → Due c st ts
    → contains (c + 1) ts ≡ true
    → (st ≡ waiting) × AllLe (c + 1) ts
Due-reached c running ts d h = absurd (cc (sym h ∙ contains-AllLe c (c + 1) ts d (omega arith)))
Due-reached c ready ts d h = absurd (cc (sym h ∙ contains-AllLe c (c + 1) ts d (omega arith)))
Due-reached c finished ts d h = absurd (cc (sym h ∙ contains-AllLe c (c + 1) ts d (omega arith)))
Due-reached c waiting ts (w, past, e, a, lt) h =
    let h' = sym (contains-append (c + 1) w past) ∙ ap (contains (c + 1)) (sym e) ∙ h in
    let out = contains-AllLe c (c + 1) past a (omega arith) in
    let same : w ≤ c + 1 = ground arith in
    (
      refl,
      subst (AllLe (c + 1)) (sym e)
          (AllLe-append (c + 1) w past (AllLe-mono c (c + 1) past (omega arith) a) same),
    )

pub Due-missed :
    (c : ℕ) (st : State) (ts : List ℕ)
    → Due c st ts
    → contains (c + 1) ts ≡ false
    → Due (c + 1) st ts
Due-missed c running ts d h = AllLe-mono c (c + 1) ts (omega arith) d
Due-missed c ready ts d h = AllLe-mono c (c + 1) ts (omega arith) d
Due-missed c finished ts d h = AllLe-mono c (c + 1) ts (omega arith) d
Due-missed c waiting ts (w, past, e, a, lt) h =
    let h' = sym (contains-append (c + 1) w past) ∙ ap (contains (c + 1)) (sym e) ∙ h in
    (w, past, e, AllLe-mono c (c + 1) past (omega arith) a, ground arith)

abbrev pub OnTime : ℕ → Process → Type 0
OnTime c p = Due c p.state p.finish_times

IsSimilar-OnTime : (c : ℕ) (p q : Process) → IsSimilar p q → OnTime c p → OnTime c q
IsSimilar-OnTime c p q s o = elim (Bool-cases (is p.state waiting)) [
  | inl h ↦
      let w = (is_iff p.state waiting).0 h in
      subst (λ ts. Due c q.state ts) (sym s.times)
        (subst (λ st. Due c st p.finish_times) (w ∙ sym (s.waits w)) o)
  | inr h ↦
      let not_p : p.state ≢ waiting = λ w. cc (sym h ∙ (is_iff p.state waiting).1 w) in
      past_Due c q.state q.finish_times (λ w. not_p (s.waited w))
        (subst (AllLe c) (sym s.times) (Due-past c p.state p.finish_times not_p o))
]

-- every process is on time, process `i` at time `f i`
abbrev pub Times : (ℕ → ℕ) → List Process → Type 0
Times f ps = (i : ℕ) (p : Process) → At ps i p → OnTime (f i) p

AreSimilar-back :
    (ps qs : List Process) (i : ℕ) (q : Process)
    → AreSimilar ps qs
    → At qs i q
    → (p : Process) × At ps i p × IsSimilar p q
AreSimilar-back [] [] i q a e = cc
AreSimilar-back [] (x ∷ qs) i q a e = absurd a
AreSimilar-back (p ∷ ps) [] i q a e = absurd a
AreSimilar-back (p ∷ ps) (x ∷ qs) zero q a e =
    (p, refl, subst (IsSimilar p) (same_process (x ∷ qs) 0 refl e) a.0)
AreSimilar-back (p ∷ ps) (x ∷ qs) (suc i) q a e = AreSimilar-back ps qs i q a.1 e

pub AreSimilar-Times :
    (f : ℕ → ℕ) (ps qs : List Process) → AreSimilar ps qs → Times f ps → Times f qs
AreSimilar-Times f ps qs a t i q e =
    let (p, e', s) = AreSimilar-back ps qs i q a e in IsSimilar-OnTime (f i) p q s (t i p e')

pub AreSimilar-length : (ps qs : List Process) → AreSimilar ps qs → length qs ≡ length ps
AreSimilar-length [] [] a = refl
AreSimilar-length [] (q ∷ qs) a = absurd a
AreSimilar-length (p ∷ ps) [] a = absurd a
AreSimilar-length (p ∷ ps) (q ∷ qs) a = ap suc (AreSimilar-length ps qs a.1)

-- the sum of a measure of the processes
abbrev pub sum : (Process → ℕ) → List Process → ℕ
sum w [] = 0
sum w (p ∷ ps) = w p + sum w ps

pub sum-set :
    (w : Process → ℕ) (ps : List Process) (i : ℕ) (p q : Process)
    → At ps i p
    → sum w (set ps i q) + w p ≡ sum w ps + w q
sum-set w [] i p q e = cc
sum-set w (x ∷ ps) zero p q e =
    let same = same_process (x ∷ ps) 0 refl e in omega (arith, ap w same)
sum-set w (x ∷ ps) (suc i) p q e = omega (arith, sum-set w ps i p q e)

pub sum-recolor :
    (w : Process → ℕ) (ps : List Process) (i : ℕ) (st : State) (p : Process)
    → At ps i p
    → sum w (recolor i st ps) + w p ≡ sum w ps + w (record p { state = st })
sum-recolor w ps i st p e =
    ap (λ qs. sum w qs + w p) (sym (set-recolor ps i st p e))
    ∙ sum-set w ps i p (record p { state = st }) e

-- the instructions that are left
abbrev pub code_left : Process → ℕ
code_left p = length p.code

abbrev pub alive : State → ℕ
alive st = if is st finished then 0 else 1

-- what a process has to do at time `c`, where an I/O takes `io_length`
abbrev pub weight : ℕ → ℕ → Process → ℕ
weight io_length c p = length p.code * (io_length + 1) + alive p.state + (latest p.finish_times - c)

alive-similar : (p q : Process) → IsSimilar p q → alive q.state ≤ alive p.state
alive-similar p q s = elim (Bool-cases (is p.state finished)) [
  | inl h ↦
      let e = (is_iff q.state finished).1 (s.over ((is_iff p.state finished).0 h)) in
      rw e (omega arith)
  | inr h ↦ rw h (ground arith)
]

weight-similar : (l c : ℕ) (p q : Process) → IsSimilar p q → weight l c q ≤ weight l c p
weight-similar l c p q s = rw (s.code, s.times) (omega (arith, alive-similar p q s))

pub sum_weight-similar :
    (l c : ℕ) (ps qs : List Process) → AreSimilar ps qs → sum (weight l c) qs ≤ sum (weight l c) ps
sum_weight-similar l c [] [] a = omega arith
sum_weight-similar l c [] (q ∷ qs) a = absurd a
sum_weight-similar l c (p ∷ ps) [] a = absurd a
sum_weight-similar l c (p ∷ ps) (q ∷ qs) a =
    omega (arith, weight-similar l c p q a.0, sum_weight-similar l c ps qs a.1)

pub sum_code-similar :
    (ps qs : List Process) → AreSimilar ps qs → sum code_left qs ≡ sum code_left ps
sum_code-similar [] [] a = refl
sum_code-similar [] (q ∷ qs) a = absurd a
sum_code-similar (p ∷ ps) [] a = absurd a
sum_code-similar (p ∷ ps) (q ∷ qs) a =
    omega (arith, ap (λ (c : List Action). length c) a.0.code, sum_code-similar ps qs a.1)

-- a process that is done now and was not makes it less
pub sum_weight-finished :
    (l c : ℕ) (ps qs : List Process) (i : ℕ) (p q : Process)
    → AreSimilar ps qs
    → At ps i p
    → At qs i q
    → p.state ≢ finished
    → q.state ≡ finished
    → sum (weight l c) qs < sum (weight l c) ps
sum_weight-finished l c [] qs i p q a e f n m = cc
sum_weight-finished l c (x ∷ ps) [] i p q a e f n m = absurd a
sum_weight-finished l c (x ∷ ps) (y ∷ qs) zero p q a e f n m =
    let not_x : is x.state finished ≡ false = ground arith in
    let is_y : is y.state finished ≡ true = ground arith in
    rw (a.0.code, a.0.times, not_x, is_y) (omega (arith, sum_weight-similar l c ps qs a.1))
sum_weight-finished l c (x ∷ ps) (y ∷ qs) (suc i) p q a e f n m =
    omega (arith, weight-similar l c x y a.0, sum_weight-finished l c ps qs i p q a.1 e f n m)

pub sum_weight-clock :
    (l c : ℕ) (ps : List Process) → sum (weight l (c + 1)) ps ≤ sum (weight l c) ps
sum_weight-clock l c [] = omega arith
sum_weight-clock l c (p ∷ ps) = omega (arith, sum_weight-clock l c ps)

pub sum_weight-waiting :
    (l c : ℕ) (ps : List Process) (i : ℕ) (p : Process)
    → At ps i p
    → c < latest p.finish_times
    → sum (weight l (c + 1)) ps < sum (weight l c) ps
sum_weight-waiting l c [] i p e h = cc
sum_weight-waiting l c (q ∷ ps) zero p e h =
    let same = ap (λ (z : Process). latest z.finish_times) (same_process (q ∷ ps) 0 refl e) in
    omega (arith, same, sum_weight-clock l c ps)
sum_weight-waiting l c (q ∷ ps) (suc i) p e h = omega (arith, sum_weight-waiting l c ps i p e h)

abbrev pub NoneWaits : List Process → Type 0
NoneWaits ps = (i : ℕ) (p : Process) → At ps i p → p.state ≢ waiting

pub waiting-cases :
    (ps : List Process) → ((i : ℕ) × (p : Process) × At ps i p × (p.state ≡ waiting)) ⊎ NoneWaits ps
waiting-cases [] = inr (λ i p e h. cc)
waiting-cases (q ∷ ps) = elim (Bool-cases (is q.state waiting)) [
  | inl h ↦ inl (0, q, refl, (is_iff q.state waiting).0 h)
  | inr h ↦ elim (waiting-cases ps) [
    | inl (i, p, e, w) ↦ inl (suc i, p, e, w)
    | inr n ↦ inr (in_tail q ps h n)
  ]
]
  where
    in_tail :
        (q : Process) (ps : List Process)
        → is q.state waiting ≡ false
        → NoneWaits ps
        → (i : ℕ) (p : Process) → At (q ∷ ps) i p
        → p.state ≢ waiting
    in_tail q ps h n zero p e w = ground arith
    in_tail q ps h n (suc i) p e w = n i p e w

pub num_active_none :
    (ps : List Process)
    → ((i : ℕ) (p : Process) → At ps i p → p.state ≡ finished)
    → num_active ps ≡ 0
unfolding num_active
num_active_none [] h = refl
num_active_none (p ∷ ps) h = ground (arith, h 0 p refl, num_active_none ps (λ i q e. h (suc i) q e))
