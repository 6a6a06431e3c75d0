-- ===== src/Malloc.antt =====
-- malloc_py/malloc.py, class malloc: a heap with a free list, a search policy and a list order.
-- Addresses and sizes are natural numbers. `bestIdx == -1` is `none`, and so is `align == -1`.
pub mod Weight
pub mod Choice
pub mod Search
pub mod Sort
pub mod Coalesce
pub mod Partition
pub mod Release
pub mod Script
mod Tests
use os_tep.Prelude.{
  ℕ, zero, suc, ◌+◌, ◌-◌, ◌%◌, Bool, true, false, ◌&&◌, ◌||◌, Option, none, some, List, [], ◌∷◌,
  ◌++◌, if◌then◌else◌, ltb, leb, ◌==◌, set,
}
use os_tep.Prelude.Int.{ℤ, pos, negsuc}
use os_tep.Prelude.Sorted.{sorted}
use os_tep.Prelude.Fault.{Fault, assertion_error, name_error, Result, ok, raise, ◌>>=◌, check, ◌>>◌}

pub data Policy : Type 0 where
  first best worst : Policy

pub data Order : Type 0 where
  addr_sort size_sort_up size_sort_down insert_front insert_back : Order

-- (address, size)
abbrev pub Block : Type 0
Block = ℕ × ℕ

pub record Heap : Type 0 where
  pub size : ℕ
  pub header_size : ℕ
  pub freelist : List Block
  pub sizemap : List Block
  pub policy : Policy
  pub return_policy : Order
  pub coalesce : Bool
  pub align : Option ℕ

-- no alignment, or a positive one
pub valid_align : Option ℕ → Bool
valid_align none = true
valid_align (some a) = ltb 0 a

-- `__init__`: the whole space is one free block.
pub init : ℕ → ℕ → ℕ → Policy → Order → Bool → Option ℕ → Result Heap
unfolding valid_align
init size start header_size policy order coalesce align =
    check (valid_align align) assertion_error
    >> ok (record {
      size = size;
      header_size = header_size;
      freelist = (start, size) ∷ [];
      sizemap = [];
      policy = policy;
      return_policy = order;
      coalesce = coalesce;
      align = align;
    })

-- the dictionary `sizemap`, from addresses to sizes
pub lookup : ℕ → List Block → Option ℕ
lookup addr [] = none
lookup addr ((a, s) ∷ m) = if a == addr then some s else lookup addr m

pub remove : ℕ → List Block → List Block
remove addr [] = []
remove addr ((a, s) ∷ m) = if a == addr then m else (a, s) ∷ remove addr m

abbrev pub is_none : Option ℕ → Bool
is_none none = true
is_none (some n) = false

pub add_to_map : ℕ → ℕ → Heap → Result Heap
add_to_map addr size h = do
  check (is_none (lookup addr h.sizemap)) assertion_error
  ok (record h { sizemap = (addr, size) ∷ h.sizemap })

-- the size, rounded up to a multiple of the alignment
pub align_up : Option ℕ → ℕ → ℕ
align_up none n = n
align_up (some a) n = let left = n % a in n + (if left == 0 then 0 else a - left)

-- what the search has found: bestIdx, bestAddr and bestSize
pub record Found : Type 0 where
  pub index : ℕ
  pub addr : ℕ
  pub size : ℕ

-- The policy's test on a block that is large enough. Before anything is found, bestSize is
-- `self.size + 1` for BEST and -1 for the others.
pub beats : Policy → ℕ → Option Found → ℕ → Bool
beats first heap_size found esize = true
beats best heap_size none esize = ltb esize (heap_size + 1)
beats best heap_size (some b) esize = ltb esize b.size
beats worst heap_size none esize = true
beats worst heap_size (some b) esize = ltb b.size esize

abbrev pub is_first : Policy → Bool
is_first first = true
is_first best = false
is_first worst = false

-- The block is large enough, and the policy prefers it to what was found so far.
pub hits : Policy → ℕ → ℕ → Option Found → ℕ → Bool
unfolding beats
hits policy heap_size size found esize = leb size esize && beats policy heap_size found esize

-- the assignments to bestAddr, bestSize and bestIdx
pub choose : Bool → ℕ → Block → Option Found → Option Found
choose hit i b found = if hit then some (record { index = i; addr = b.0; size = b.1 }) else found

-- `for i in range(len(self.freelist))`, from index i on
pub search : Policy → ℕ → ℕ → ℕ → Option Found → ℕ → List Block → Option Found × ℕ
unfolding hits choose
search policy heap_size size i found count [] = (found, count)
search policy heap_size size i found count (b ∷ rest) =
    let hit = hits policy heap_size size found b.1 in
    let found' = choose hit i b found in
    let later = search policy heap_size size (i + 1) found' (count + 1) rest in
    if hit && is_first policy then (found', count + 1) else later

-- `freelist.pop(i)`
pub remove_at : ℕ → List Block → List Block
remove_at i [] = []
remove_at zero (b ∷ bs) = bs
remove_at (suc i) (b ∷ bs) = b ∷ remove_at i bs

-- splits the block that was found, or takes it whole
pub take_block : ℕ → Found → Heap → Result Heap
unfolding add_to_map
take_block size b h =
    if ltb size b.size
    then add_to_map b.addr size
        (record h { freelist = set h.freelist b.index (b.addr + size, b.size - size) })
    else (if b.size == size
        then add_to_map b.addr size (record h { freelist = remove_at b.index h.freelist })
        else raise name_error)

-- the end of `malloc`, from `if bestIdx != -1` on
pub conclude : ℕ → Heap → Option Found × ℕ → Result (Heap × Option ℕ × ℕ)
unfolding take_block
conclude size h (none, count) = ok (h, none, count)
conclude size h (some b, count) = do h' ← take_block size b h; ok (h', some b.addr, count)

-- The new heap, the address (-1 is `none`) and the number of blocks looked at.
pub malloc : ℕ → Heap → Result (Heap × Option ℕ × ℕ)
unfolding align_up search conclude
malloc n h =
    let size = align_up h.align n + h.header_size in
    conclude size h (search h.policy h.size size 0 none 0 h.freelist)

abbrev pub by_addr : Block → Block → Bool
by_addr b c = leb b.0 c.0

abbrev pub by_size : Block → Block → Bool
by_size b c = leb b.1 c.1

abbrev pub by_size_reversed : Block → Block → Bool
by_size_reversed b c = leb c.1 b.1

pub put_back : Order → Block → List Block → List Block
put_back insert_back b bs = bs ++ b ∷ []
put_back insert_front b bs = b ∷ bs
put_back addr_sort b bs = sorted by_addr (bs ++ b ∷ [])
put_back size_sort_up b bs = sorted by_size (bs ++ b ∷ [])
put_back size_sort_down b bs = sorted by_size_reversed (bs ++ b ∷ [])

-- the loop of the coalescing, with `self.curr` and the rest of the list
pub coalesce_from : Block → List Block → List Block
coalesce_from curr [] = curr ∷ []
coalesce_from curr (b ∷ bs) = elim (b.0 == curr.0 + curr.1) [
  | true ↦ coalesce_from (curr.0, curr.1 + b.1) bs
  | false ↦ curr ∷ coalesce_from b bs
]

-- `free` has just put a block on the list, so `self.freelist[0]` exists.
pub coalesce_list : List Block → List Block
coalesce_list [] = []
coalesce_list (b ∷ bs) = coalesce_from b bs

-- The new heap, and 0 or -1.
pub free : ℕ → Heap → Heap × ℤ
unfolding lookup remove put_back coalesce_list
free addr h = elim (lookup addr h.sizemap) [
  | none ↦ (h, negsuc 0)
  | some size ↦
      let freelist' = put_back h.return_policy (addr, size) h.freelist in
      (
        record h {
          freelist = if h.coalesce then coalesce_list freelist' else freelist';
          sizemap = remove addr h.sizemap;
        },
        pos 0,
      )
]
