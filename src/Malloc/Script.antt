-- ===== src/Malloc/Script.antt =====
-- The main program of malloc_py/malloc.py with a list of operations (-A): the script `+10,-0,…`
-- against the allocator. `int` and `split` have read the operations.
pub mod Skips
use os_tep.Prelude.{
  ℕ, ◌+◌, ◌%◌, ◌-◌, ◌≤◌, ◌<◌, ◌≡◌, refl, sym, ap, ◌∙◌, Bool, Bool-cases, Option-cases, inl, inr,
  arith, List, [], ◌∷◌, leb, length, Option, none, some, if◌then◌else◌,
}
use native.Mathlib.Nat.{mod-add-mod, mod_self, mod-lt}
use os_tep.Prelude.Fault.{key_error, assertion_error, Result, ok, raise, ◌>>=◌, Returns}
use os_tep.Malloc.{Order, Block, Heap, Policy, lookup, malloc, free, align_up}
use os_tep.Malloc.Partition.{IsPartition, malloc_lem, MallocReturns}
use os_tep.Malloc.Release.{free-IsPartition}

pub data Op : Type 0 where
  alloc : ℕ → Op
  release : ℕ → Op

-- the heap, the dictionary `p` from allocation numbers to addresses, and the counter `c`
pub record Session : Type 0 where
  pub heap : Heap
  pub p : List Block
  pub c : ℕ

unfoldable pub step : Op → Session → Result Session
step (alloc n) s = do
  (h, ptr, cnt) ← malloc n s.heap
  ok (record { heap = h; p = elim ptr [ none ↦ s.p | some a ↦ (s.c, a) ∷ s.p ]; c = s.c + 1 })
step (release index) s = if leb (length s.p) index then ok s else (elim (lookup index s.p) [
  | none ↦ raise key_error
  | some a ↦ ok (record s { heap = (free a s.heap).0 })
])

unfoldable pub run : List Op → Session → Result Session
run [] s = ok s
run (op ∷ ops) s = step op s >>= run ops

-- every allocation asks for at least one byte
abbrev pub AllocsPositive : List Op → Type 0
AllocsPositive [] = Unit
AllocsPositive (alloc n ∷ ops) = (0 < n) × AllocsPositive ops
AllocsPositive (release i ∷ ops) = AllocsPositive ops

-- the end of a script: a partitioned heap, or a KeyError
abbrev pub EndsPartitioned : ℕ → Result Session → Type 0
EndsPartitioned start (ok s) = IsPartition start s.heap
EndsPartitioned start (raise e) = e ≡ key_error

pad-mod : (a n : ℕ) → 0 < a → (n + (a - n % a)) % a ≡ 0
pad-mod a n h =
    sym (mod-add-mod n a (a - n % a))
    ∙ ap (λ (t : ℕ). t % a) (omega (arith, mod-lt n h))
    ∙ mod_self a

-- With a positive alignment, the rounded size is a multiple of it, no less than the size, and
-- greater by less than the alignment.
pub align_up_lem :
    (a n : ℕ)
    → 0 < a
    → (align_up (some a) n % a ≡ 0) × (n ≤ align_up (some a) n) × (align_up (some a) n < n + a)
unfolding align_up
align_up_lem a n h = (ground (arith, pad-mod a n h), ground arith, ground (arith, mod-lt n h))

align_up-le : (align : Option ℕ) (n : ℕ) → n ≤ align_up align n
unfolding align_up
align_up-le none n = omega arith
align_up-le (some a) n = ground arith

module _ (start : ℕ) where
  step_alloc :
      (n : ℕ) (s : Session)
      → 0 < n
      → IsPartition start s.heap
      → Returns (λ t. IsPartition start t.heap) (step (alloc n) s)
  unfolding step
  step_alloc n s lt v =
      after (malloc n s.heap) (malloc_lem n v (omega (arith, align_up-le s.heap.align n)))
    where
      after :
          (r : Result (Heap × Option ℕ × ℕ))
          → Returns (λ t. MallocReturns start n s.heap t × IsPartition start t.0) r
          → Returns
              (λ (t : Session). IsPartition start t.heap)
              (r >>= λ (h, ptr, cnt). ok (record {
                heap = h;
                p = elim ptr [ none ↦ s.p | some a ↦ (s.c, a) ∷ s.p ];
                c = s.c + 1;
              }))
      after (ok (h, ptr, cnt)) q = q.1
      after (raise e) q = q

  step_release :
      (i : ℕ) (s : Session) → IsPartition start s.heap → EndsPartitioned start (step (release i) s)
  unfolding step
  step_release i s v = elim (Bool-cases (leb (length s.p) i)) [
    | inl e ↦ rw e v
    | inr e ↦ elim (Option-cases (lookup i s.p)) [
      | inl q ↦ rw (e, q) refl
      | inr (a, q) ↦ rw (e, q) (free-IsPartition start a v)
    ]
  ]

  bind-EndsPartitioned :
      (m : Result Session) (f : Session → Result Session)
      → EndsPartitioned start m
      → ((t : Session) → IsPartition start t.heap → EndsPartitioned start (f t))
      → EndsPartitioned start (m >>= f)
  bind-EndsPartitioned (ok t) f h k = k t h
  bind-EndsPartitioned (raise e) f h k = h

  Returns-EndsPartitioned :
      (m : Result Session) → Returns (λ t. IsPartition start t.heap) m → EndsPartitioned start m
  Returns-EndsPartitioned (ok t) h = h
  Returns-EndsPartitioned (raise e) h = absurd h

  -- Any script of positive allocations and frees, from a partitioned heap, ends in a partitioned
  -- heap; the only exception that it can raise is the KeyError of `p[index]`.
  pub run-EndsPartitioned :
      (ops : List Op) (s : Session)
      → AllocsPositive ops
      → IsPartition start s.heap
      → EndsPartitioned start (run ops s)
  unfolding run
  run-EndsPartitioned [] s pos v = v
  run-EndsPartitioned (alloc n ∷ ops) s pos v =
      bind-EndsPartitioned (step (alloc n) s) (run ops)
        (Returns-EndsPartitioned (step (alloc n) s) (step_alloc n s pos.0 v))
        (λ t. run-EndsPartitioned ops t pos.1)
  run-EndsPartitioned (release i ∷ ops) s pos v =
      bind-EndsPartitioned (step (release i) s) (run ops) (step_release i s v)
        (λ t. run-EndsPartitioned ops t pos)

-- a heap with one free block, no header and no alignment
abbrev pub plain : ℕ → ℕ → ℕ → List Block → Policy → Order → Bool → Heap
plain size a s m p o c = record {
  size = size;
  header_size = 0;
  freelist = (a, s) ∷ [];
  sizemap = m;
  policy = p;
  return_policy = o;
  coalesce = c;
  align = none;
}

malloc_zero_first :
    (size a s : ℕ) (m : List Block) (p : Policy) (o : Order) (c : Bool)
    → 0 < s
    → s ≤ size
    → lookup a m ≡ none
    → malloc 0 (plain size a s m p o c) ≡ ok (plain size a s ((a, 0) ∷ m) p o c, some a, 1)
unfolding malloc
malloc_zero_first size a s m p o c lt le new = ground (arith)

-- With one free block that is not empty, whose address is not in the size map, and without a header
-- and an alignment, a second request of no bytes finds the address of the first one in the size map
-- and ends in an AssertionError.
pub malloc_zero_twice :
    (size a s : ℕ) (m : List Block) (p : Policy) (o : Order) (c : Bool)
    → 0 < s
    → s ≤ size
    → lookup a m ≡ none
    → (malloc 0 (plain size a s m p o c) >>= λ (h, ptr, count). malloc 0 h) ≡ raise assertion_error
unfolding malloc lookup
malloc_zero_twice size a s m p o c lt le new =
    rw (malloc_zero_first size a s m p o c lt le new) (ground arith)
