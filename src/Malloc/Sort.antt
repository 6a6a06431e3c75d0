-- ===== src/Malloc/Sort.antt =====
-- The orders of the free list in malloc_py/malloc.py: what `sorted` by each key gives.
use os_tep.Prelude.{◌≡◌, refl, Bool, true, false, Bool-cases, inl, inr, arith, List, [], ◌∷◌, ◌++◌}
use os_tep.Prelude.Sorted.{insert_sorted, sorted}
use os_tep.Malloc.{
  Block, Order, addr_sort, size_sort_up, size_sort_down, insert_front, insert_back, put_back,
  by_addr, by_size, by_size_reversed,
}

-- no element of the list comes before `b`
abbrev pub AllAfter : (Block → Block → Bool) → Block → List Block → Type 0
AllAfter before b [] = Unit
AllAfter before b (c ∷ bs) = (before b c ≡ true) × AllAfter before b bs

abbrev pub IsSorted : (Block → Block → Bool) → List Block → Type 0
IsSorted before [] = Unit
IsSorted before (b ∷ bs) = AllAfter before b bs × IsSorted before bs

-- What sorting needs of a comparison.
pub record IsOrder (before : Block → Block → Bool) : Type 0 where
  pub total : (b c : Block) → before b c ≡ false → before c b ≡ true
  pub trans : (b c d : Block) → before b c ≡ true → before c d ≡ true → before b d ≡ true

module _ (before : Block → Block → Bool) (order : IsOrder before) where
  AllAfter-trans :
      (b c : Block) (bs : List Block)
      → before b c ≡ true
      → AllAfter before c bs
      → AllAfter before b bs
  AllAfter-trans b c [] e h = tt
  AllAfter-trans b c (d ∷ bs) e h = (order.trans b c d e h.0, AllAfter-trans b c bs e h.1)

  AllAfter-insert_sorted :
      (b c : Block) (bs : List Block)
      → before b c ≡ true
      → AllAfter before b bs
      → AllAfter before b (insert_sorted before c bs)
  unfolding insert_sorted
  AllAfter-insert_sorted b c [] e h = (e, tt)
  AllAfter-insert_sorted b c (d ∷ bs) e h = elim (Bool-cases (before c d)) [
    | inl p ↦ rw p (e, h)
    | inr p ↦ rw p (h.0, AllAfter-insert_sorted b c bs e h.1)
  ]

  insert_sorted-IsSorted :
      (b : Block) (bs : List Block)
      → IsSorted before bs
      → IsSorted before (insert_sorted before b bs)
  unfolding insert_sorted
  insert_sorted-IsSorted b [] h = (tt, tt)
  insert_sorted-IsSorted b (c ∷ bs) h = elim (Bool-cases (before b c)) [
    | inl p ↦ rw p ((p, AllAfter-trans b c bs p h.0), h)
    | inr p ↦
        rw p
          (AllAfter-insert_sorted c b bs (order.total b c p) h.0, insert_sorted-IsSorted b bs h.1)
  ]

  pub sorted-IsSorted : (bs : List Block) → IsSorted before (sorted before bs)
  unfolding sorted
  sorted-IsSorted [] = tt
  sorted-IsSorted (b ∷ bs) = insert_sorted-IsSorted b (sorted before bs) (sorted-IsSorted bs)

  -- A list that is sorted stays as it is.
  insert_sorted_min :
      (b : Block) (bs : List Block) → AllAfter before b bs → insert_sorted before b bs ≡ b ∷ bs
  unfolding insert_sorted
  insert_sorted_min b [] h = refl
  insert_sorted_min b (c ∷ bs) h = rw h.0

  pub sorted_idem : (bs : List Block) → IsSorted before bs → sorted before bs ≡ bs
  unfolding sorted
  sorted_idem [] h = refl
  sorted_idem (b ∷ bs) h = rw (sorted_idem bs h.1) (insert_sorted_min b bs h.0)

by_addr-IsOrder : IsOrder by_addr
by_addr-IsOrder = record { total = λ b c h. ground arith; trans = λ b c d h k. ground arith }

by_size-IsOrder : IsOrder by_size
by_size-IsOrder = record { total = λ b c h. ground arith; trans = λ b c d h k. ground arith }

by_size_reversed-IsOrder : IsOrder by_size_reversed
by_size_reversed-IsOrder = record {
  total = λ b c h. ground arith;
  trans = λ b c d h k. ground arith;
}

-- The order that a free list has after a block went back under an order.
abbrev pub IsOrdered : Order → Block → List Block → List Block → Type 0
IsOrdered addr_sort b old new = IsSorted by_addr new
IsOrdered size_sort_up b old new = IsSorted by_size new
IsOrdered size_sort_down b old new = IsSorted by_size_reversed new
IsOrdered insert_front b old new = new ≡ b ∷ old
IsOrdered insert_back b old new = new ≡ old ++ b ∷ []

pub put_back-IsOrdered :
    (order : Order) (b : Block) (bs : List Block) → IsOrdered order b bs (put_back order b bs)
unfolding put_back
put_back-IsOrdered addr_sort b bs = sorted-IsSorted by_addr by_addr-IsOrder (bs ++ b ∷ [])
put_back-IsOrdered size_sort_up b bs = sorted-IsSorted by_size by_size-IsOrder (bs ++ b ∷ [])
put_back-IsOrdered size_sort_down b bs =
    sorted-IsSorted by_size_reversed by_size_reversed-IsOrder (bs ++ b ∷ [])
put_back-IsOrdered insert_front b bs = refl
put_back-IsOrdered insert_back b bs = refl
