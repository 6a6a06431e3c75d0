-- ===== src/Disk/States.antt =====
-- The states of the requests of 37-Hard_Disk_Drivers/disk.py: one that changes, and one that is new.
use os_tep.Prelude.{
  get_elem?-set_ne, get_elem?-set_self, get_elem?_lt, length-set, ℕ_discrete, ℕ, zero, suc, ◌+◌,
  ◌≤◌, ◌<◌, ◌≡◌, refl, sym, ap, ◌∙◌, true, false, some, List, [], ◌∷◌, ◌++◌, arith, ltb,
  if◌then◌else◌, length, get_elem?, set,
}
use os_tep.Prelude.Fault.{ok}
use os_tep.Disk.{State, state_done, fifo, Conf, Disk, is, switch_state}
use os_tep.Disk.Serves.{IsQueue, num_done, InOrder}

abbrev pub one_done : State → ℕ
one_done st = if is st state_done then 1 else 0

pub switch_state_lem :
    (st : State) (d : Disk)
    → d.current_index < length d.states
    → switch_state st d ≡ ok (record d { state = st; states = set d.states d.current_index st })
unfolding switch_state
switch_state_lem st d h =
    let t : ltb d.current_index (length d.states) ≡ true = ground arith in rw t refl

pub set-set {ℓ} : {A : Type ℓ} (xs : List A) (i : ℕ) (a b : A) → set (set xs i a) i b ≡ set xs i b
set-set [] i a b = refl
set-set (x ∷ xs) zero a b = refl
set-set (x ∷ xs) (suc i) a b = ap (λ l. x ∷ l) (set-set xs i a b)

pub num_done-set :
    (states : List State) (i : ℕ) (st st' : State)
    → get_elem? states i ≡ some st
    → num_done (set states i st') + one_done st ≡ num_done states + one_done st'
num_done-set [] i st st' e = cc
num_done-set (x ∷ states) zero st st' e =
    let s : one_done x ≡ one_done st = ap one_done (same_some e) in omega (arith, s)
  where
    same_some : {a b : State} → some a ≡ some b → a ≡ b
    same_some e = cc
num_done-set (x ∷ states) (suc i) st st' e = omega (arith, num_done-set states i st st' e)

pub num_done_le : (states : List State) → num_done states ≤ length states
num_done_le [] = omega arith
num_done_le (st ∷ states) = ground (arith, num_done_le states)

pub num_done-append :
    (states : List State) (st : State)
    → num_done (states ++ st ∷ []) ≡ num_done states + one_done st
num_done-append [] st = omega arith
num_done-append (x ∷ states) st = omega (arith, num_done-append states st)

pub get-append {ℓ} :
    {A : Type ℓ} (xs : List A) (a : A) (i : ℕ)
    → i < length xs
    → get_elem? (xs ++ a ∷ []) i ≡ get_elem? xs i
get-append [] a i h = absurd (omega arith)
get-append (x ∷ xs) a zero h = refl
get-append (x ∷ xs) a (suc i) h = get-append xs a i (omega arith)

pub get_last {ℓ} :
    {A : Type ℓ} (xs : List A) (a b : A) (i : ℕ)
    → length xs ≤ i
    → get_elem? (xs ++ a ∷ []) i ≡ some b
    → (i ≡ length xs) × (a ≡ b)
get_last [] a b zero h e = (refl, cc)
get_last [] a b (suc i) h e = absurd (cc e)
get_last (x ∷ xs) a b zero h e = absurd (omega arith)
get_last (x ∷ xs) a b (suc i) h e =
    let (k, s) = get_last xs a b i (omega arith) e in (omega arith, s)

InOrder-set :
    (states : List State) (i n : ℕ) (st st' : State)
    → get_elem? states i ≡ some st
    → is st state_done ≡ false
    → is st' state_done ≡ false
    → InOrder states n
    → InOrder (set states i st') n
InOrder-set states i n st st' e h k o j x f = elim (ℕ_discrete j i) [
  | yes same ↦
      let lt = get_elem?_lt i states e in
      let xs : x ≡ st' =
        same_some
          (sym f ∙ ap (get_elem? (set states i st')) same ∙ get_elem?-set_self states i st' lt) in
      let far = (o i st e) in
      (
        λ below. absurd (both (far.0 (omega (arith, same))) h),
        λ above. ap (λ z. is z state_done) xs ∙ k,
      )
  | no ne ↦ o j x (sym (get_elem?-set_ne states st' (λ s. ne (sym s))) ∙ f)
]
  where
    same_some : {a b : State} → some a ≡ some b → a ≡ b
    same_some e = cc

    both : is st state_done ≡ true → is st state_done ≡ false → ⊥
    both a b = cc (sym a ∙ b)

-- the queue with another state of a request that is not done
abbrev pub with_state : Disk → ℕ → State → Disk
with_state d i st = record d { states = set d.states i st }

pub IsQueue-with_state :
    (c : Conf) (d : Disk) (i : ℕ) (st st' : State)
    → get_elem? d.states i ≡ some st
    → is st state_done ≡ false
    → is st' state_done ≡ false
    → IsQueue c d
    → IsQueue c (with_state d i st')
IsQueue-with_state c d i st st' e h k q = record {
  lens = length-set d.states i st' ∙ q.lens;
  indexed = q.indexed;
  counted = ground (arith, num_done-set d.states i st st' e, q.counted);
  in_order = λ p. InOrder-set d.states i d.count st st' e h k (q.in_order p);
  arm = q.arm;
}

-- a request that is done now
abbrev pub with_done : Disk → ℕ → Disk
with_done d i = record d { states = set d.states i state_done; count = d.count + 1 }

pub IsQueue-with_done :
    (c : Conf) (d : Disk) (i : ℕ) (st : State)
    → get_elem? d.states i ≡ some st
    → is st state_done ≡ false
    → (c.policy ≡ fifo → i ≡ d.count)
    → IsQueue c d
    → IsQueue c (with_done d i)
IsQueue-with_done c d i st e h next q = record {
  lens = length-set d.states i state_done ∙ q.lens;
  indexed = q.indexed;
  counted = ground (arith, num_done-set d.states i st state_done e, q.counted);
  in_order = λ p j x f. elim (ℕ_discrete j i) [
    | yes same ↦
        let lt = get_elem?_lt i d.states e in
        let xs : x ≡ state_done = same_some (
          sym f
          ∙ ap (get_elem? (set d.states i state_done)) same
          ∙ get_elem?-set_self d.states i state_done lt) in
        (λ below. ap (λ z. is z state_done) xs, λ above. absurd (omega (arith, next p)))
    | no ne ↦
        let old = sym (get_elem?-set_ne d.states state_done (λ s. ne (sym s))) ∙ f in
        let (a, b) = q.in_order p j x old in
        (λ below. a (omega (arith, next p)), λ above. b (omega arith))
  ];
  arm = q.arm;
}
  where
    same_some : {a b : State} → some a ≡ some b → a ≡ b
    same_some e = cc
