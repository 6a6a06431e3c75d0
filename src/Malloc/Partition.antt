-- ===== src/Malloc/Partition.antt =====
-- The blocks of the free list and of the size map (malloc_py/malloc.py) as a partition
-- of the heap, and `malloc` on such a heap.
use os_tep.Prelude.{
  ◌∙◌, sym, [], List, ℕ, ◌+◌, ◌-◌, ◌≤◌, ◌<◌, ◌≡◌, refl, Bool, true, Option, none, some, ◌∷◌, arith,
  get_elem?, length, Bool-cases, Option-cases, inl, inr, ltb, set, ◌==◌,
}
use mathlib.Core.Path.{subst}
use os_tep.Prelude.Fault.{assertion_error, raise, ok, Returns}
use os_tep.Malloc.{
  valid_align, Policy, Order, Block, Heap, Found, init, lookup, remove_at, align_up, search,
  take_block, conclude, malloc,
}
use os_tep.Malloc.Weight.{
  sum_by, IsAdditive, covers, bytes, covers-IsAdditive, bytes-IsAdditive, sum_by-remove_at,
  sum_by-split, sum_by-get_elem?-le, sum_by-lookup-le,
}
use os_tep.Malloc.Choice.{IsChoice, NoneFits, IsResult}
use os_tep.Malloc.Search.{Stops, search-IsResult}

abbrev pub AllPositive : List Block → Type 0
AllPositive [] = Unit
AllPositive (b ∷ bs) = (0 < b.1) × AllPositive bs

pub lookup_pos : (addr s : ℕ) (m : List Block) → AllPositive m → lookup addr m ≡ some s → 0 < s
unfolding lookup
lookup_pos addr s [] p e = cc
lookup_pos addr s (b ∷ m) p e = ground (arith, lookup_pos addr s m p.1)

-- Every address of the heap lies in exactly one block, free or allocated, and no other does; the
-- sizes add up; no allocated block is empty.
pub record IsPartition (start : ℕ) (h : Heap) : Type 0 where
  pub exact :
      (x : ℕ)
      → sum_by (covers x) h.freelist + sum_by (covers x) h.sizemap ≡ covers x (start, h.size)
  pub conserved : sum_by bytes h.freelist + sum_by bytes h.sizemap ≡ h.size
  pub positive : AllPositive h.sizemap

-- the bytes that `malloc n` takes: the size, rounded up, and the header
abbrev pub request : Heap → ℕ → ℕ
request h n = align_up h.align n + h.header_size

-- A new heap is partitioned, whatever its options.
pub init-IsPartition :
    (size start header : ℕ) (p : Policy) (o : Order) (c : Bool) (align : Option ℕ) (h : Heap)
    → init size start header p o c align ≡ ok h
    → IsPartition start h
unfolding init
init-IsPartition size start header p o c align h e = elim (Bool-cases (valid_align align)) [
  | inl t ↦ subst (IsPartition start) (same_ok (sym (rw t refl) ∙ e)) fresh
  | inr f ↦ absurd (differ (sym (rw f refl) ∙ e))
]
  where
    differ : raise assertion_error ≡ ok h → ⊥
    differ q = cc

    same_ok : {a b : Heap} → ok a ≡ ok b → a ≡ b
    same_ok q = cc

    fresh : IsPartition start (record {
      size = size;
      header_size = header;
      freelist = (start, size) ∷ [];
      sizemap = [];
      policy = p;
      return_policy = o;
      coalesce = c;
      align = align;
    })
    fresh = record { exact = λ x. omega arith; conserved = omega arith; positive = tt }

pub covers_self : (a s : ℕ) → 0 < s → covers a (a, s) ≡ 1
covers_self a s h = ground arith

pub covers-le : (x : ℕ) (b : Block) → covers x b ≤ 1
covers-le x b = ground arith

module _ {start : ℕ} {h : Heap} (v : IsPartition start h) where
  free_small : (j : ℕ) (b : Block) → get_elem? h.freelist j ≡ some b → b.1 ≤ h.size
  free_small j b e = omega (arith, v.conserved, sum_by-get_elem?-le bytes j b h.freelist e)

  -- The address of a free block is not allocated.
  free_not_mapped :
      (j : ℕ) (b : Block) → get_elem? h.freelist j ≡ some b → 0 < b.1 → lookup b.0 h.sizemap ≡ none
  free_not_mapped j b e lt = elim (Option-cases (lookup b.0 h.sizemap)) [
    | inl p ↦ p
    | inr (s, p) ↦ absurd (
        omega (
          arith,
          v.exact b.0,
          covers_self b.0 b.1 lt,
          covers_self b.0 s (lookup_pos b.0 s h.sizemap v.positive p),
          covers-le b.0 (start, h.size),
          sum_by-get_elem?-le (covers b.0) j b h.freelist e,
          sum_by-lookup-le (covers b.0) b.0 s h.sizemap p,
        ))
  ]

-- What taking `size` bytes of a free block does: the block is mapped, and leaves the free list.
record IsTaken (size addr : ℕ) (h h' : Heap) : Type 0 where
  settings : h' ≡ record h { freelist = h'.freelist; sizemap = (addr, size) ∷ h.sizemap }
  moved :
      (w : Block → ℕ) → IsAdditive w → w (addr, size) + sum_by w h'.freelist ≡ sum_by w h.freelist

take_block_lem :
    (size : ℕ) (b : Found) (h : Heap)
    → get_elem? h.freelist b.index ≡ some (b.addr, b.size)
    → size ≤ b.size
    → lookup b.addr h.sizemap ≡ none
    → (h' : Heap) × (take_block size b h ≡ ok h') × IsTaken size b.addr h h'
unfolding take_block
take_block_lem size b h e le new = elim (Bool-cases (ltb size b.size)) [
  | inl lt ↦ (
    record h {
      freelist = set h.freelist b.index (b.addr + size, b.size - size);
      sizemap = (b.addr, size) ∷ h.sizemap;
    },
    rw (lt, new),
    record {
      settings = refl;
      moved = λ w a. sum_by-split w a b.index b.addr b.size size h.freelist e le;
    },
  )
  | inr ge ↦
      let same : b.size ≡ size = ground arith in
      let test : b.size == size ≡ true = ground arith in
      (
        record h { freelist = remove_at b.index h.freelist; sizemap = (b.addr, size) ∷ h.sizemap },
        rw (ge, test, new),
        record {
          settings = refl;
          moved = λ w a. sum_by-remove_at w b.index (b.addr, size) h.freelist (rw same at e);
        },
      )
]

-- What a call of `malloc n` may return. A failure changes nothing, has looked at the whole list,
-- and no free block is large enough. A success has chosen by the policy; the block is mapped at
-- its size, lies inside the heap, and overlaps no block that was allocated before.
pub record IsFailure (n : ℕ) (h h' : Heap) (count : ℕ) : Type 0 where
  pub unchanged : h' ≡ h
  pub looked_at_all : count ≡ length h.freelist
  pub none_fits : NoneFits (request h n) h.freelist (length h.freelist)

pub record IsSuccess (start n : ℕ) (h h' : Heap) (addr count : ℕ) : Type 0 where
  pub choice : (f : Found) × IsChoice h.policy (request h n) h.freelist count f × (f.addr ≡ addr)
  pub mapped : h' ≡ record h { freelist = h'.freelist; sizemap = (addr, request h n) ∷ h.sizemap }
  pub inside : (start ≤ addr) × (addr + request h n ≤ start + h.size)
  pub disjoint : (x : ℕ) → covers x (addr, request h n) ≡ 1 → sum_by (covers x) h.sizemap ≡ 0

abbrev pub MallocReturns : ℕ → ℕ → Heap → Heap × Option ℕ × ℕ → Type 0
MallocReturns start n h (h', none, count) = IsFailure n h h' count
MallocReturns start n h (h', some addr, count) = IsSuccess start n h h' addr count

module _ {start : ℕ} {h h' : Heap} (size addr : ℕ) (v : IsPartition start h)
    (t : IsTaken size addr h h') where
  taken-IsPartition : 0 < size → IsPartition start h'
  taken-IsPartition lt = rw t.settings (record {
    exact = λ x. omega (arith, v.exact x, t.moved (covers x) (covers-IsAdditive x));
    conserved = omega (arith, v.conserved, t.moved bytes bytes-IsAdditive);
    positive = (lt, v.positive);
  })

  taken_inside : 0 < size → (start ≤ addr) × (addr + size ≤ start + h.size)
  taken_inside lt = (low, high)
    where
      low : start ≤ addr
      low = ground (
        arith,
        v.exact addr,
        t.moved (covers addr) (covers-IsAdditive addr),
        covers_self addr size lt,
      )

      high : addr + size ≤ start + h.size
      high =
          let x = addr + size - 1 in
          ground (arith, v.exact x, t.moved (covers x) (covers-IsAdditive x))

  taken_disjoint : (x : ℕ) → covers x (addr, size) ≡ 1 → sum_by (covers x) h.sizemap ≡ 0
  taken_disjoint x c =
      let free_x = t.moved (covers x) (covers-IsAdditive x) in
      omega (arith, v.exact x, free_x, covers-le x (start, h.size))

module _ {start : ℕ} (n : ℕ) {h : Heap} (v : IsPartition start h) (lt : 0 < request h n) where
  conclude_lem :
      (r : Option Found × ℕ)
      → IsResult h.policy (request h n) h.freelist r.1 r.0
      → Stops h.policy h.freelist r.1 r.0
      → Returns
          (λ s. MallocReturns start n h s × IsPartition start s.0)
          (conclude (request h n) h r)
  unfolding conclude
  conclude_lem (none, count) res (inl e) =
      (record { unchanged = refl; looked_at_all = e; none_fits = rw e at res }, v)
  conclude_lem (none, count) res (inr p) = absurd (p.1 refl)
  conclude_lem (some b, count) res stops =
      let new = free_not_mapped v b.index (b.addr, b.size) res.entry (omega (arith, res.fits)) in
      let (h', e, t) = take_block_lem (request h n) b h res.entry res.fits new in
      rw e (
        record {
          choice = (b, res, refl);
          mapped = t.settings;
          inside = taken_inside (request h n) b.addr v t lt;
          disjoint = taken_disjoint (request h n) b.addr v t;
        },
        taken-IsPartition (request h n) b.addr v t lt,
      )

  pub malloc_lem : Returns (λ s. MallocReturns start n h s × IsPartition start s.0) (malloc n h)
  unfolding malloc
  malloc_lem =
      let r = search-IsResult h.policy h.size (request h n) h.freelist (free_small v) in
      conclude_lem (search h.policy h.size (request h n) 0 none 0 h.freelist) r.0 r.1
