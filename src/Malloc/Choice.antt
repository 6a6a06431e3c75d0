-- ===== src/Malloc/Choice.antt =====
-- What the free-list loop of `malloc` (malloc_py/malloc.py) looks for under each policy.
use os_tep.Prelude.{ℕ, ◌+◌, ◌≤◌, ◌<◌, ◌≡◌, Option, none, some, List, arith, get_elem?}
use os_tep.Malloc.{Policy, first, best, worst, Block, Found}
use native.Mathlib.Decide.{dec_lt}

-- How the size `s` of the choice compares with the size `t` of another block that is large enough:
-- with one in front of the choice, and with one behind it.
abbrev pub Ahead : Policy → ℕ → ℕ → Type 0
Ahead first s t = ⊥
Ahead best s t = s < t
Ahead worst s t = t < s

abbrev pub Behind : Policy → ℕ → ℕ → Type 0
Behind first s t = Unit
Behind best s t = s ≤ t
Behind worst s t = t ≤ s

-- `f` is the policy's choice among the first `k` blocks of the list, for `size` bytes.
pub record IsChoice (policy : Policy) (size : ℕ) (all : List Block) (k : ℕ) (f : Found)
    : Type 0 where
  pub entry : get_elem? all f.index ≡ some (f.addr, f.size)
  pub fits : size ≤ f.size
  pub scanned : f.index < k
  pub ahead :
      (j : ℕ) (b : Block)
      → j < f.index
      → get_elem? all j ≡ some b
      → size ≤ b.1
      → Ahead policy f.size b.1
  pub behind :
      (j : ℕ) (b : Block)
      → f.index < j
      → j < k
      → get_elem? all j ≡ some b
      → size ≤ b.1
      → Behind policy f.size b.1

abbrev pub NoneFits : ℕ → List Block → ℕ → Type 0
NoneFits size all k = (j : ℕ) (b : Block) → j < k → get_elem? all j ≡ some b → b.1 < size

-- what the search has established after `k` blocks
abbrev pub IsResult : Policy → ℕ → List Block → ℕ → Option Found → Type 0
IsResult policy size all k none = NoneFits size all k
IsResult policy size all k (some f) = IsChoice policy size all k f

same_size :
    (all : List Block) (i j : ℕ) (b c : Block)
    → i ≡ j
    → get_elem? all i ≡ some b
    → get_elem? all j ≡ some c
    → b.1 ≡ c.1
same_size all i j b c e p q = cc

module _ (policy : Policy) (size : ℕ) (all : List Block) (i : ℕ) (b : Block)
    (row : get_elem? all i ≡ some b) where
  pub found_first :
      size ≤ b.1
      → NoneFits size all i
      → IsChoice policy size all (i + 1) (record { index = i; addr = b.0; size = b.1 })
  found_first le none_fits = record {
    entry = row;
    fits = le;
    scanned = omega arith;
    ahead = λ j c lt e fits. absurd (omega (arith, none_fits j c lt e));
    behind = λ j c gt lt e fits. absurd (omega arith);
  }

  pub still_none : b.1 < size → NoneFits size all i → NoneFits size all (i + 1)
  still_none lt none_fits j c j_lt e = elim (dec_lt j i) [
    | yes p ↦ none_fits j c p e
    | no p ↦ omega (arith, same_size all i j b c (omega arith) row e)
  ]

  pub keeps :
      (g : Found)
      → (size ≤ b.1 → Behind policy g.size b.1)
      → IsChoice policy size all i g
      → IsChoice policy size all (i + 1) g
  keeps g le h = record {
    entry = h.entry;
    fits = h.fits;
    scanned = omega (arith, h.scanned);
    ahead = h.ahead;
    behind = λ j c gt lt e fits. elim (dec_lt j i) [
      | yes p ↦ h.behind j c gt p e fits
      | no p ↦
          let same = same_size all i j b c (omega arith) row e in rw (← same) (le (omega arith))
    ];
  }

-- A strictly better block replaces the choice.
Ahead-trans : (policy : Policy) (s t u : ℕ) → Ahead policy s t → Ahead policy t u → Ahead policy s u
Ahead-trans first s t u p q = p
Ahead-trans best s t u p q = omega arith
Ahead-trans worst s t u p q = omega arith

Ahead-Behind :
    (policy : Policy) (s t u : ℕ) → Ahead policy s t → Behind policy t u → Ahead policy s u
Ahead-Behind first s t u p q = p
Ahead-Behind best s t u p q = omega arith
Ahead-Behind worst s t u p q = omega arith

pub replaces :
    (policy : Policy) (size : ℕ) (all : List Block) (i : ℕ) (b : Block) (g : Found)
    → get_elem? all i ≡ some b
    → size ≤ b.1
    → Ahead policy b.1 g.size
    → IsChoice policy size all i g
    → IsChoice policy size all (i + 1) (record { index = i; addr = b.0; size = b.1 })
replaces policy size all i b g row le better h = record {
  entry = row;
  fits = le;
  scanned = omega arith;
  ahead = λ j c lt e fits. elim (dec_lt j g.index) [
    | yes p ↦ Ahead-trans policy b.1 g.size c.1 better (h.ahead j c p e fits)
    | no p ↦ elim (dec_lt g.index j) [
      | yes q ↦ Ahead-Behind policy b.1 g.size c.1 better (h.behind j c q lt e fits)
      | no q ↦
          let same = same_size all g.index j (g.addr, g.size) c (omega arith) h.entry e in
          rw (← same) better
    ]
  ];
  behind = λ j c gt lt e fits. absurd (omega arith);
}
