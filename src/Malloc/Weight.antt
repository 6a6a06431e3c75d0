-- ===== src/Malloc/Weight.antt =====
-- Measures of lists of blocks that splitting and joining blocks does not change, and what each
-- list operation of malloc_py/malloc.py does to such a measure.
use os_tep.Prelude.{
  ℕ, zero, suc, ◌+◌, ◌-◌, ◌≤◌, ◌≡◌, refl, Bool, ◌&&◌, some, List, [], ◌∷◌, ◌++◌, arith,
  if◌then◌else◌, ltb, leb, set, get_elem?,
}
use os_tep.Prelude.Sorted.{insert_sorted, sorted}
use os_tep.Malloc.{Block, Order, lookup, remove, remove_at, put_back, coalesce_from, coalesce_list}

abbrev pub sum_by : (Block → ℕ) → List Block → ℕ
sum_by w [] = 0
sum_by w (b ∷ bs) = w b + sum_by w bs

-- A block counts as much as the two parts that it is cut into.
abbrev pub IsAdditive : (Block → ℕ) → Type 0
IsAdditive w = (a n m : ℕ) → w (a, n + m) ≡ w (a, n) + w (a + n, m)

-- 1 if the block covers the address
abbrev pub covers : ℕ → Block → ℕ
covers x b = if leb b.0 x && ltb x (b.0 + b.1) then 1 else 0

abbrev pub bytes : Block → ℕ
bytes b = b.1

pub covers-IsAdditive : (x : ℕ) → IsAdditive (covers x)
covers-IsAdditive x a n m = ground arith

pub bytes-IsAdditive : IsAdditive bytes
bytes-IsAdditive a n m = refl

pub sum_by-append :
    (w : Block → ℕ) (xs ys : List Block) → sum_by w (xs ++ ys) ≡ sum_by w xs + sum_by w ys
sum_by-append w [] ys = omega arith
sum_by-append w (x ∷ xs) ys = omega (arith, sum_by-append w xs ys)

pub sum_by-remove :
    (w : Block → ℕ) (addr s : ℕ) (m : List Block)
    → lookup addr m ≡ some s
    → w (addr, s) + sum_by w (remove addr m) ≡ sum_by w m
unfolding lookup remove
sum_by-remove w addr s [] h = ground arith
sum_by-remove w addr s ((a, t) ∷ m) h = ground (arith, sum_by-remove w addr s m)

pub sum_by-remove_at :
    (w : Block → ℕ) (i : ℕ) (b : Block) (bs : List Block)
    → get_elem? bs i ≡ some b
    → w b + sum_by w (remove_at i bs) ≡ sum_by w bs
unfolding remove_at
sum_by-remove_at w i b [] h = ground arith
sum_by-remove_at w zero b (c ∷ bs) h = ground arith
sum_by-remove_at w (suc i) b (c ∷ bs) h = omega (arith, sum_by-remove_at w i b bs h)

pub sum_by-set :
    (w : Block → ℕ) (i : ℕ) (b c : Block) (bs : List Block)
    → get_elem? bs i ≡ some b
    → w b + sum_by w (set bs i c) ≡ w c + sum_by w bs
sum_by-set w i b c [] h = ground arith
sum_by-set w zero b c (d ∷ bs) h = ground arith
sum_by-set w (suc i) b c (d ∷ bs) h = omega (arith, sum_by-set w i b c bs h)

-- An entry counts no more than the whole list.
pub sum_by-get_elem?-le :
    (w : Block → ℕ) (i : ℕ) (b : Block) (bs : List Block)
    → get_elem? bs i ≡ some b
    → w b ≤ sum_by w bs
sum_by-get_elem?-le w i b bs h = omega (arith, sum_by-remove_at w i b bs h)

pub sum_by-lookup-le :
    (w : Block → ℕ) (addr s : ℕ) (m : List Block)
    → lookup addr m ≡ some s
    → w (addr, s) ≤ sum_by w m
sum_by-lookup-le w addr s m h = omega (arith, sum_by-remove w addr s m h)

sum_by-insert_sorted :
    (w : Block → ℕ) (before : Block → Block → Bool) (b : Block) (bs : List Block)
    → sum_by w (insert_sorted before b bs) ≡ w b + sum_by w bs
unfolding insert_sorted
sum_by-insert_sorted w before b [] = refl
sum_by-insert_sorted w before b (c ∷ bs) = ground (arith, sum_by-insert_sorted w before b bs)

pub sum_by-sorted :
    (w : Block → ℕ) (before : Block → Block → Bool) (bs : List Block)
    → sum_by w (sorted before bs) ≡ sum_by w bs
unfolding sorted
sum_by-sorted w before [] = refl
sum_by-sorted w before (b ∷ bs) =
    omega (arith, sum_by-insert_sorted w before b (sorted before bs), sum_by-sorted w before bs)

-- Whatever the order of the list, the freed block is added to it.
pub sum_by-put_back :
    (w : Block → ℕ) (order : Order) (b : Block) (bs : List Block)
    → sum_by w (put_back order b bs) ≡ w b + sum_by w bs
unfolding put_back
sum_by-put_back w Order.insert_back b bs = omega (arith, sum_by-append w bs (b ∷ []))
sum_by-put_back w Order.insert_front b bs = refl
sum_by-put_back w _ b bs =
    omega (arith, sum_by-append w bs (b ∷ []), sum_by-sorted w _ (bs ++ b ∷ []))

module _ (w : Block → ℕ) (additive : IsAdditive w) where
  sum_by-coalesce_from :
      (curr : Block) (bs : List Block) → sum_by w (coalesce_from curr bs) ≡ w curr + sum_by w bs
  unfolding coalesce_from
  sum_by-coalesce_from curr [] = refl
  sum_by-coalesce_from (a, s) ((e, t) ∷ bs) =
      ground
        (arith, additive a s t, sum_by-coalesce_from (a, s + t) bs, sum_by-coalesce_from (e, t) bs)

  pub sum_by-coalesce_list : (bs : List Block) → sum_by w (coalesce_list bs) ≡ sum_by w bs
  unfolding coalesce_list
  sum_by-coalesce_list [] = refl
  sum_by-coalesce_list (b ∷ bs) = sum_by-coalesce_from b bs

  -- Cutting `n` bytes off the front of a block of the list.
  pub sum_by-split :
      (i a s n : ℕ) (bs : List Block)
      → get_elem? bs i ≡ some (a, s)
      → n ≤ s
      → w (a, n) + sum_by w (set bs i (a + n, s - n)) ≡ sum_by w bs
  sum_by-split i a s n bs h le =
      ground (arith, sum_by-set w i (a, s) (a + n, s - n) bs h, additive a n (s - n))
