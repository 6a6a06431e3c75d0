-- ===== src/Malloc/Search.antt =====
-- The search of `malloc` (malloc_py/malloc.py): what the free-list loop finds under each policy.
use os_tep.Prelude.{
  ℕ, suc, ◌+◌, ◌≤◌, ◌<◌, ◌≡◌, refl, ◌∙◌, ap, Bool, true, false, Option, none, some, List, [], ◌∷◌,
  arith, get_elem?, length, Bool-cases, inl, inr, ◌&&◌, ◌⊎◌, ◌≢◌,
}
use os_tep.Malloc.{Policy, first, best, worst, Block, Found, is_first, search, hits, choose}
use os_tep.Malloc.Choice.{IsResult, Ahead, Behind, found_first, still_none, keeps, replaces}

shift : (i k : ℕ) → i + 1 + k ≡ i + suc k
shift i k = omega arith

module _ (heap_size size s : ℕ) where
  hits_large :
      (policy : Policy) (found : Option Found)
      → hits policy heap_size size found s ≡ true
      → size ≤ s
  unfolding hits
  hits_large policy found h = ground arith

  hits_better :
      (policy : Policy) (g : Found)
      → policy ≢ first
      → hits policy heap_size size (some g) s ≡ true
      → Ahead policy s g.size
  unfolding hits
  hits_better first g ne h = ne refl
  hits_better best g ne h = ground arith
  hits_better worst g ne h = ground arith

  misses_none :
      (policy : Policy) → s ≤ heap_size → hits policy heap_size size none s ≡ false → s < size
  unfolding hits
  misses_none first le h = ground arith
  misses_none best le h = ground arith
  misses_none worst le h = ground arith

  misses_some :
      (policy : Policy) (g : Found)
      → hits policy heap_size size (some g) s ≡ false
      → size ≤ s
      → Behind policy g.size s
  unfolding hits
  misses_some first g h le = tt
  misses_some best g h le = ground arith
  misses_some worst g h le = ground arith

some_not_none : {g : Found} → some g ≡ none → ⊥
some_not_none e = cc

-- where the loop stops: row the end of the list, or row a hit under FIRST
abbrev pub Stops : Policy → List Block → ℕ → Option Found → Type 0
Stops policy all count found = (count ≡ length all) ⊎ ((policy ≡ first) × (found ≢ none))

stops_first :
    (policy : Policy) (hit : Bool) (i : ℕ) (b : Block) (found : Option Found)
    → (hit && is_first policy) ≡ true
    → (policy ≡ first) × (choose hit i b found ≢ none)
unfolding choose
stops_first first true i b found e = (refl, some_not_none)
stops_first first false i b found e = cc
stops_first best true i b found e = cc
stops_first best false i b found e = cc
stops_first worst true i b found e = cc
stops_first worst false i b found e = cc

goes_on :
    (policy : Policy) (hit : Bool) (i : ℕ) (b : Block) (found : Option Found)
    → (hit && is_first policy) ≡ false
    → (policy ≡ first → found ≡ none)
    → policy ≡ first
    → choose hit i b found ≡ none
unfolding choose
goes_on first true i b found e f p = cc
goes_on first false i b found e f p = f p
goes_on best hit i b found e f p = cc
goes_on worst hit i b found e f p = cc

module _ (policy : Policy) (heap_size size : ℕ) (all : List Block)
    (small : (j : ℕ) (b : Block) → get_elem? all j ≡ some b → b.1 ≤ heap_size) where
  step-IsResult :
      (i : ℕ) (b : Block) (found : Option Found)
      → get_elem? all i ≡ some b
      → IsResult policy size all i found
      → (policy ≡ first → found ≡ none)
      → IsResult policy size all (i + 1) (choose (hits policy heap_size size found b.1) i b found)
  unfolding choose
  step-IsResult i b none row h f = elim (Bool-cases (hits policy heap_size size none b.1)) [
    | inl e ↦ rw e (found_first policy size all i b row (hits_large _ _ _ policy none e) h)
    | inr e ↦
        rw e (still_none policy size all i b row (misses_none _ _ _ policy (small i b row) e) h)
  ]
  step-IsResult i b (some g) row h f = elim (Bool-cases (hits policy heap_size size (some g) b.1)) [
    | inl e ↦
        let better =
          hits_better heap_size size b.1 policy g (λ p. absurd (some_not_none (f p))) e in
        rw e (replaces policy size all i b g row (hits_large _ _ _ policy (some g) e) better h)
    | inr e ↦ rw e (keeps policy size all i b row g (misses_some heap_size _ _ policy g e) h)
  ]

  search_from-IsResult :
      (i : ℕ) (found : Option Found) (rest : List Block)
      → ((k : ℕ) → get_elem? all (i + k) ≡ get_elem? rest k)
      → i + length rest ≡ length all
      → IsResult policy size all i found
      → (policy ≡ first → found ≡ none)
      → let (r, count) = search policy heap_size size i found i rest in
        IsResult policy size all count r × Stops policy all count r
  unfolding search
  search_from-IsResult i found [] row len h f = (h, inl (omega arith))
  search_from-IsResult i found (b ∷ rest) row len h f =
      let hit = hits policy heap_size size found b.1 in
      let found' = choose hit i b found in
      let here = step-IsResult i b found (let e : i + 0 ≡ i = omega arith in rw e at (row 0)) h f in
      elim (Bool-cases (hit && is_first policy)) [
        | inl e ↦ rw e (here, inr (stops_first policy hit i b found e))
        | inr e ↦ rw e (
            search_from-IsResult (i + 1) found' rest
              (λ k. ap (get_elem? all) (shift i k) ∙ row (suc k)) (omega arith) here
              (goes_on policy hit i b found e f))
      ]

  -- If no free block is larger than the heap, the result of the search is the policy's choice among
  -- the blocks that were looked at (or none of them is large enough), and it stops early only under
  -- FIRST, where it has found a block.
  pub search-IsResult :
      let (r, count) = search policy heap_size size 0 none 0 all in
      IsResult policy size all count r × Stops policy all count r
  search-IsResult =
      search_from-IsResult 0 none all (λ k. ap (get_elem? all) (omega arith)) (omega arith)
        (λ j b lt e. absurd (omega arith)) (λ p. refl)
