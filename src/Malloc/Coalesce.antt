-- ===== src/Malloc/Coalesce.antt =====
-- The coalescing of malloc_py/malloc.py, and the free list after `free`.
use os_tep.Prelude.{
  some, ℕ, ◌+◌, ◌≡◌, ◌≢◌, refl, true, false, Bool-cases, inl, inr, arith, List, [], ◌∷◌, ◌==◌,
}
use os_tep.Malloc.{
  Block, coalesce_from, coalesce_list, by_addr, free, Heap, lookup, addr_sort, put_back,
}
use os_tep.Malloc.Sort.{IsOrdered, AllAfter, IsSorted, put_back-IsOrdered}

-- No block of the list ends where its successor starts.
abbrev pub IsApart : List Block → Type 0
IsApart [] = Unit
IsApart (b ∷ []) = Unit
IsApart (b ∷ c ∷ bs) = (c.0 ≢ b.0 + b.1) × IsApart (c ∷ bs)

-- the address of the first block
abbrev StartsAt : ℕ → List Block → Type 0
StartsAt a [] = ⊥
StartsAt a (b ∷ bs) = b.0 ≡ a

coalesce_from-StartsAt : (curr : Block) (bs : List Block) → StartsAt curr.0 (coalesce_from curr bs)
unfolding coalesce_from
coalesce_from-StartsAt curr [] = refl
coalesce_from-StartsAt curr (b ∷ bs) = elim (Bool-cases (b.0 == curr.0 + curr.1)) [
  | inl e ↦ rw (e, coalesce_from) (coalesce_from-StartsAt (curr.0, curr.1 + b.1) bs)
  | inr e ↦ rw (e, coalesce_from) refl
]

IsApart-cons :
    (b : Block) (a : ℕ) (bs : List Block)
    → StartsAt a bs
    → a ≢ b.0 + b.1
    → IsApart bs
    → IsApart (b ∷ bs)
IsApart-cons b a [] s ne h = tt
IsApart-cons b a (c ∷ bs) s ne h = (λ e. ne (omega arith), h)

coalesce_from-IsApart : (curr : Block) (bs : List Block) → IsApart (coalesce_from curr bs)
unfolding coalesce_from
coalesce_from-IsApart curr [] = tt
coalesce_from-IsApart curr (b ∷ bs) = elim (Bool-cases (b.0 == curr.0 + curr.1)) [
  | inl e ↦ rw (e, coalesce_from) (coalesce_from-IsApart (curr.0, curr.1 + b.1) bs)
  | inr e ↦
      rw (e, coalesce_from)
        (IsApart-cons curr b.0 (coalesce_from b bs) (coalesce_from-StartsAt b bs) (ground arith)
          (coalesce_from-IsApart b bs))
]

pub coalesce_list-IsApart : (bs : List Block) → IsApart (coalesce_list bs)
unfolding coalesce_list
coalesce_list-IsApart [] = tt
coalesce_list-IsApart (b ∷ bs) = coalesce_from-IsApart b bs

AllAfter-by_addr :
    (a s t : ℕ) (bs : List Block) → AllAfter by_addr (a, s) bs → AllAfter by_addr (a, t) bs
AllAfter-by_addr a s t [] h = tt
AllAfter-by_addr a s t (b ∷ bs) h = (h.0, AllAfter-by_addr a s t bs h.1)

-- Joining blocks keeps the list sorted by address.
coalesce_from-AllAfter :
    (a curr : Block) (bs : List Block)
    → by_addr a curr ≡ true
    → AllAfter by_addr a bs
    → AllAfter by_addr a (coalesce_from curr bs)
unfolding coalesce_from
coalesce_from-AllAfter a curr [] e h = (e, tt)
coalesce_from-AllAfter a curr (b ∷ bs) e h = elim (Bool-cases (b.0 == curr.0 + curr.1)) [
  | inl p ↦ rw (p, coalesce_from) (coalesce_from-AllAfter a (curr.0, curr.1 + b.1) bs e h.1)
  | inr p ↦ rw (p, coalesce_from) (e, coalesce_from-AllAfter a b bs h.0 h.1)
]

coalesce_from-IsSorted :
    (curr : Block) (bs : List Block)
    → IsSorted by_addr (curr ∷ bs)
    → IsSorted by_addr (coalesce_from curr bs)
unfolding coalesce_from
coalesce_from-IsSorted curr [] h = h
coalesce_from-IsSorted curr (b ∷ bs) h = elim (Bool-cases (b.0 == curr.0 + curr.1)) [
  | inl p ↦
      rw (p, coalesce_from)
        (coalesce_from-IsSorted (curr.0, curr.1 + b.1) bs
          (AllAfter-by_addr curr.0 curr.1 (curr.1 + b.1) bs h.0.1, h.1.1))
  | inr p ↦
      rw (p, coalesce_from)
        (coalesce_from-AllAfter curr b bs h.0.0 h.0.1, coalesce_from-IsSorted b bs h.1)
]

coalesce_list-IsSorted :
    (bs : List Block) → IsSorted by_addr bs → IsSorted by_addr (coalesce_list bs)
unfolding coalesce_list
coalesce_list-IsSorted [] h = h
coalesce_list-IsSorted (b ∷ bs) h = coalesce_from-IsSorted b bs h

-- After `free` of an allocated address without coalescing, the free list has the order that the
-- option asks for. With coalescing no block ends where its successor starts, and a list that is
-- kept by address is sorted by address.
pub free-IsOrdered :
    (addr s : ℕ) (h : Heap)
    → lookup addr h.sizemap ≡ some s
    → (h.coalesce ≡ false → IsOrdered h.return_policy (addr, s) h.freelist (free addr h).0.freelist)
      × (h.coalesce ≡ true → IsApart (free addr h).0.freelist)
      × (h.coalesce ≡ true
          → h.return_policy ≡ addr_sort
          → IsSorted by_addr (free addr h).0.freelist)
unfolding free
free-IsOrdered addr s h e =
    rw (e, free)
      (
        λ c. rw c (put_back-IsOrdered h.return_policy (addr, s) h.freelist),
        λ c. rw c (coalesce_list-IsApart (put_back h.return_policy (addr, s) h.freelist)),
        λ c p.
            rw (c, p)
              (coalesce_list-IsSorted (put_back addr_sort (addr, s) h.freelist)
                (put_back-IsOrdered addr_sort (addr, s) h.freelist)),
      )
