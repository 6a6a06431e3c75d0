-- ===== src/Malloc/Release.antt =====
-- `free` (malloc_py/malloc.py): what it returns, and the heap that it leaves.
use os_tep.Prelude.Fault.{ok}
use os_tep.Prelude.{
  ap, true, ℕ, ◌+◌, ◌≡◌, refl, ◌∙◌, Option-cases, Bool-cases, inl, inr, none, some, arith, List, [],
  ◌∷◌, ◌==◌, ◌<◌,
}
use os_tep.Prelude.Int.{ℤ, pos, negsuc}
use os_tep.Malloc.{malloc, Block, Heap, lookup, remove, free, put_back}
use os_tep.Malloc.Weight.{
  sum_by-lookup-le, sum_by, IsAdditive, covers, bytes, covers-IsAdditive, bytes-IsAdditive,
  sum_by-remove, sum_by-put_back, sum_by-coalesce_list,
}
use os_tep.Malloc.Partition.{
  lookup_pos, covers_self, covers-le, request, malloc_lem, IsPartition, AllPositive,
}

remove-AllPositive : (addr : ℕ) (m : List Block) → AllPositive m → AllPositive (remove addr m)
unfolding remove
remove-AllPositive addr [] p = p
remove-AllPositive addr (b ∷ m) p = elim (Bool-cases (b.0 == addr)) [
  | inl e ↦ rw e p.1
  | inr e ↦ rw e (p.0, remove-AllPositive addr m p.1)
]

-- What `free` does with an address that is allocated: it returns 0, the block leaves the size map
-- and its bytes go to the free list, whatever the order and the coalescing.
pub record IsFreed (addr s : ℕ) (h : Heap) (r : Heap × ℤ) : Type 0 where
  pub code : r.1 ≡ pos 0
  pub unmapped : r.0.sizemap ≡ remove addr h.sizemap
  pub same_size : r.0.size ≡ h.size
  pub added :
      (w : Block → ℕ) → IsAdditive w → sum_by w r.0.freelist ≡ w (addr, s) + sum_by w h.freelist

pub free-IsFreed :
    (addr s : ℕ) (h : Heap) → lookup addr h.sizemap ≡ some s → IsFreed addr s h (free addr h)
unfolding free
free-IsFreed addr s h e =
    rw (e, free)
      (record {
        code = refl;
        unmapped = refl;
        same_size = refl;
        added = λ w a. elim (Bool-cases h.coalesce) [
          | inl c ↦
              let bs = put_back h.return_policy (addr, s) h.freelist in
              rw c (
                sum_by-coalesce_list w a bs
                ∙ sum_by-put_back w h.return_policy (addr, s) h.freelist)
          | inr c ↦ rw c (sum_by-put_back w h.return_policy (addr, s) h.freelist)
        ];
      })

pub free_unknown :
    (addr : ℕ) (h : Heap) → lookup addr h.sizemap ≡ none → free addr h ≡ (h, negsuc 0)
unfolding free
free_unknown addr h e = rw (e, free)

-- From a heap that its blocks cut up, `free` leaves such a heap, whatever address it is given.
pub free-IsPartition :
    (start addr : ℕ) {h : Heap} → IsPartition start h → IsPartition start (free addr h).0
free-IsPartition start addr {h} v = elim (Option-cases (lookup addr h.sizemap)) [
  | inl e ↦ rw (free_unknown addr h e) v
  | inr (s, e) ↦
      let f = free-IsFreed addr s h e in
      record {
        exact = λ x.
            rw (f.unmapped, f.same_size)
              (omega (
                arith,
                v.exact x,
                f.added (covers x) (covers-IsAdditive x),
                sum_by-remove (covers x) addr s h.sizemap e,
              ));
        conserved =
            rw (f.unmapped, f.same_size)
              (omega (
                arith,
                v.conserved,
                f.added bytes bytes-IsAdditive,
                sum_by-remove bytes addr s h.sizemap e,
              ));
        positive = rw f.unmapped (remove-AllPositive addr h.sizemap v.positive);
      }
]

-- In a heap that its blocks cut up, an address that was allocated and is freed is no longer
-- allocated: freeing it once more returns -1 and changes nothing.
pub free_twice :
    (start addr s : ℕ) {h : Heap}
    → IsPartition start h
    → lookup addr h.sizemap ≡ some s
    → free addr (free addr h).0 ≡ ((free addr h).0, negsuc 0)
free_twice start addr s {h} v e =
    free_unknown addr (free addr h).0 (elim (Option-cases (lookup addr (free addr h).0.sizemap)) [
      | inl p ↦ p
      | inr (t, p) ↦
          let f = free-IsFreed addr s h e in
          let after = free-IsPartition start addr v in
          let p' : lookup addr (remove addr h.sizemap) ≡ some t = rw f.unmapped at p in
          let t_pos =
            lookup_pos addr t (remove addr h.sizemap) (rw f.unmapped at after.positive) p' in
          absurd (
            omega (
              arith,
              v.exact addr,
              covers_self addr s (lookup_pos addr s h.sizemap v.positive e),
              covers_self addr t t_pos,
              covers-le addr (start, h.size),
              sum_by-remove (covers addr) addr s h.sizemap e,
              sum_by-lookup-le (covers addr) addr t (remove addr h.sizemap) p',
            ))
    ])

-- Right after a successful `malloc`, from a heap that its blocks cut up, of at least one byte with
-- padding and header, `free` undoes it: it returns 0, the size map is the old one, and every
-- address is free exactly if it was.
pub free-malloc :
    (start n addr count : ℕ) {h h' : Heap}
    → IsPartition start h
    → 0 < request h n
    → malloc n h ≡ ok (h', some addr, count)
    → ((free addr h').1 ≡ pos 0)
      × ((free addr h').0.sizemap ≡ h.sizemap)
      × ((x : ℕ) → sum_by (covers x) (free addr h').0.freelist ≡ sum_by (covers x) h.freelist)
unfolding lookup remove
free-malloc start n addr count {h} {h'} v lt e =
    let (r, after) = rw e at (malloc_lem n v lt) in
    let map' = ap (λ (k : Heap). k.sizemap) r.mapped in
    let size' = ap (λ (k : Heap). k.size) r.mapped in
    let self : addr == addr ≡ true = ground arith in
    let found : lookup addr h'.sizemap ≡ some (request h n) = rw (map', self) in
    let f = free-IsFreed addr (request h n) h' found in
    let back : remove addr h'.sizemap ≡ h.sizemap = rw (map', self) in
    let freed = free-IsPartition start addr after in
    (
      f.code,
      f.unmapped ∙ back,
      λ x. ground (arith, v.exact x, freed.exact x, f.same_size, size', f.unmapped, back),
    )
