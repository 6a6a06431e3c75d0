-- ===== src/Malloc/Tests.antt =====
-- Runs of the allocator of malloc_py/malloc.py, and its theorems at concrete heaps.
use os_tep.Prelude.{
  ltb, if◌then◌else◌, ℕ, zero, suc, ◌+◌, ◌%◌, ◌≤◌, ◌<◌, ◌≡◌, refl, true, false, none, some, List,
  [], ◌∷◌, arith, get_elem?,
}
use os_tep.Prelude.Int.{pos, negsuc}
use os_tep.Prelude.Fault.{ok, raise, assertion_error, ◌>>=◌}
use os_tep.Prelude.Sorted.{sorted}
use os_tep.Malloc.{
  by_addr, Heap, Block, Policy, first, best, worst, Order, addr_sort, insert_back, init, malloc,
  free, search, lookup, align_up, by_size, coalesce_list,
}
use os_tep.Malloc.Weight.{sum_by, covers}
use os_tep.Malloc.Choice.{IsResult}
use os_tep.Malloc.Search.{Stops, search-IsResult}
use os_tep.Malloc.Sort.{IsSorted}
use os_tep.Malloc.Coalesce.{IsApart, free-IsOrdered}
use os_tep.Malloc.Partition.{request, IsPartition, init-IsPartition}
use os_tep.Malloc.Release.{free_twice, free-malloc}
use os_tep.Malloc.Script.Skips.{begin, num_failed, run_skips_release}
use os_tep.Malloc.Script.{
  step, Op, alloc, release, Session, run, EndsPartitioned, run-EndsPartitioned, plain,
  malloc_zero_twice,
}

-- the defaults of the program, with coalescing
abbrev small : Heap
small = record {
  size = 100;
  header_size = 0;
  freelist = (1000, 100) ∷ [];
  sizemap = [];
  policy = best;
  return_policy = addr_sort;
  coalesce = true;
  align = none;
}

small-IsPartition : IsPartition 1000 small
unfolding init
small-IsPartition = init-IsPartition 100 1000 0 best addr_sort true none small refl

-- after `+8`
abbrev one_block : Heap
one_block = record small { freelist = (1008, 92) ∷ []; sizemap = (1000, 8) ∷ [] }

one_block-IsPartition : IsPartition 1000 one_block
one_block-IsPartition = record {
  exact = λ x. ground arith;
  conserved = omega arith;
  positive = omega arith;
}

small-request : 0 < request small 8
unfolding align_up
small-request = omega arith

lookup_nil : lookup 1000 [] ≡ none
unfolding lookup
lookup_nil = refl

malloc_runs : malloc 8 small ≡ ok (one_block, some 1000, 1)
unfolding malloc lookup
malloc_runs = refl

malloc_too_large : malloc 101 small ≡ ok (small, none, 1)
unfolding malloc lookup
malloc_too_large = refl

one_block_found : lookup 1000 one_block.sizemap ≡ some 8
unfolding lookup
one_block_found = refl

free_runs : free 1000 one_block ≡ (small, pos 0)
unfolding free sorted os_tep.Prelude.Sorted.insert_sorted os_tep.Malloc.coalesce_from
free_runs = refl

-- a free list with two blocks that are large enough for 10 bytes, and one that is not
abbrev holes : List Block
holes = (1000, 30) ∷ (1040, 5) ∷ (1060, 12) ∷ []

holes_small : (j : ℕ) (b : Block) → get_elem? holes j ≡ some b → b.1 ≤ 100
holes_small zero b e = ground arith
holes_small (suc zero) b e = ground arith
holes_small (suc (suc zero)) b e = ground arith
holes_small (suc (suc (suc j))) b e = cc

search-IsResult_example :
    let (r, count) = search best 100 10 0 none 0 holes in
    IsResult best 10 holes count r × Stops best holes count r
search-IsResult_example = search-IsResult best 100 10 holes holes_small

best_fit :
    search best 100 10 0 none 0 holes ≡ (some (record { index = 2; addr = 1060; size = 12 }), 3)
unfolding search
best_fit = refl

first_fit :
    search first 100 10 0 none 0 holes ≡ (some (record { index = 0; addr = 1000; size = 30 }), 1)
unfolding search
first_fit = refl

free_twice_example : free 1000 (free 1000 one_block).0 ≡ ((free 1000 one_block).0, negsuc 0)
free_twice_example = free_twice 1000 1000 8 one_block-IsPartition one_block_found

free-malloc_example :
    ((free 1000 one_block).1 ≡ pos 0)
    × ((free 1000 one_block).0.sizemap ≡ [])
    × ((x : ℕ)
        → sum_by (covers x) (free 1000 one_block).0.freelist ≡ sum_by (covers x) small.freelist)
free-malloc_example = free-malloc 1000 8 1000 1 small-IsPartition small-request malloc_runs

free-IsOrdered_example :
    (true ≡ false → IsSorted by_addr (free 1000 one_block).0.freelist)
    × (true ≡ true → IsApart (free 1000 one_block).0.freelist)
    × (true ≡ true → addr_sort ≡ addr_sort → IsSorted by_addr (free 1000 one_block).0.freelist)
free-IsOrdered_example = free-IsOrdered 1000 8 one_block one_block_found

abbrev start_session : Session
start_session = record { heap = small; p = []; c = 0 }

abbrev script : List Op
script = alloc 8 ∷ alloc 200 ∷ release 0 ∷ release 7 ∷ []

run-EndsPartitioned_example : EndsPartitioned 1000 (run script start_session)
run-EndsPartitioned_example =
    run-EndsPartitioned 1000 script start_session (omega arith, (omega arith, tt)) small-IsPartition

malloc_zero_twice_example :
    (malloc 0 (plain 100 1000 100 [] best addr_sort false) >>= λ (h, ptr, count). malloc 0 h)
    ≡ raise assertion_error
malloc_zero_twice_example =
    malloc_zero_twice 100 1000 100 [] best addr_sort false (omega arith) (omega arith) lookup_nil

-- 101 bytes cannot be allocated, then 8 can; the release of allocation 1 does nothing.
failed_runs : run (alloc 101 ∷ []) (begin small) ≡ ok (record { heap = small; p = []; c = 1 })
unfolding run step malloc
failed_runs = refl

run_skips_release_example :
    run (alloc 101 ∷ alloc 8 ∷ release 1 ∷ []) (begin small)
    ≡ ok (record {
      heap =
          if ltb 0 (num_failed (alloc 101 ∷ []) (begin small))
          then one_block
          else (free 1000 one_block).0;
      p = (1, 1000) ∷ [];
      c = 2;
    })
run_skips_release_example =
    run_skips_release (alloc 101 ∷ []) small one_block (record { heap = small; p = []; c = 1 }) 8
      1000 1 failed_runs malloc_runs
