-- ===== src/Cache.antt =====
-- paging-policy_py/paging-policy.py: the page cache under the policies FIFO, LRU, MRU, RAND, OPT and
-- UNOPT. The policy CLOCK, and with it the reference bits, which only CLOCK reads, are in Clock.antt.
pub mod Pages
pub mod Access
pub mod Victim
pub mod Clock
mod Tests
use os_tep.Prelude.{
  ℕ, zero, suc, ◌+◌, ◌-◌, ◌*◌, ◌/◌, ◌%◌, ◌≤◌, ◌<◌, ◌≡◌, refl, sym, ap, ◌∙◌, ◌≢◌, ◌↔◌, ◌⊎◌, inl, inr,
  Bool, true, false, not, ◌&&◌, ◌||◌, Option, none, some, List, [], ◌∷◌, ◌++◌, map, arith, ltb, leb,
  ◌==◌, if◌then◌else◌, Bool-cases, Option-cases, length, get_elem?, set, take, drop, replicate,
  get_or,
}
use os_tep.Prelude.Fault.{
  Fault, assertion_error, index_error, Result, ok, raise, ◌>>=◌, check, ◌>>◌,
}

pub data Policy : Type 0 where
  fifo lru mru rand opt unopt : Policy

pub record Cache : Type 0 where
  pub memory : List ℕ
  pub count : ℕ
  pub hits : ℕ
  pub miss : ℕ

abbrev pub empty : Cache
empty = record { memory = []; count = 0; hits = 0; miss = 0 }

-- `n in memory`, `memory.remove(n)`
pub contains : ℕ → List ℕ → Bool
contains n [] = false
contains n (m ∷ ms) = m == n || contains n ms

pub remove : ℕ → List ℕ → List ℕ
remove n [] = []
remove n (m ∷ ms) = if m == n then ms else m ∷ remove n ms

-- `memory.pop(i)`: the page and the rest
pub pop : ℕ → List ℕ → Result (ℕ × List ℕ)
pop i [] = raise index_error
pop zero (m ∷ ms) = ok (m, ms)
pop (suc i) (m ∷ ms) = do (v, rest) ← pop i ms; ok (v, m ∷ rest)

-- `whenReferenced`: the index of the next use, or the length of the whole address list; `future` is
-- the list from index `i` on
pub next_use : ℕ → ℕ → List ℕ → ℕ
next_use page i [] = i
next_use page i (f ∷ fs) = let later = next_use page (i + 1) fs in if page == f then i else later

-- a page's index in the memory, and when it is used next
abbrev pub Candidate : Type 0
Candidate = ℕ × ℕ

-- the tests on maxReplace and minReplace; before the first page they are -1 and len(addrList) + 1
pub farther : Option Candidate → ℕ → Bool
farther none w = true
farther (some b) w = leb b.1 w

pub nearer : Option Candidate → ℕ → Bool
nearer none w = true
nearer (some b) w = ltb w b.1

-- the loop over the pages, from index `i` on
pub scan :
    (Option Candidate → ℕ → Bool) → (ℕ → ℕ) → ℕ → Option Candidate → List ℕ → Option Candidate
scan better when i best [] = best
scan better when i best (p ∷ ps) =
    scan better when (i + 1) (if better best (when p) then some (i, when p) else best) ps

-- `memory.pop(replaceIdx)`; without a page the index is -1
pub pop_candidate : Option Candidate → List ℕ → Result (ℕ × List ℕ)
unfolding pop
pop_candidate none memory = raise index_error
pop_candidate (some b) memory = pop b.0 memory

-- the victim and the rest. `draw` is `int(random.random() * count)`; `index` and `future` are the
-- index of the next access and the accesses from there on.
pub evict : Policy → ℕ → ℕ → List ℕ → Cache → Result (ℕ × List ℕ)
unfolding pop pop_candidate scan farther nearer next_use
evict fifo draw index future c = pop 0 c.memory
evict lru draw index future c = pop 0 c.memory
evict mru draw index future c = pop (c.count - 1) c.memory
evict rand draw index future c = pop draw c.memory
evict opt draw index future c =
    pop_candidate (scan farther (λ p. next_use p index future) 0 none c.memory) c.memory
evict unopt draw index future c =
    pop_candidate (scan nearer (λ p. next_use p index future) 0 none c.memory) c.memory

abbrev pub moves : Policy → Bool
moves lru = true
moves mru = true
moves fifo = false
moves rand = false
moves opt = false
moves unopt = false

pub hit : Policy → ℕ → Cache → Cache
unfolding remove
hit policy n c = record c {
  memory = if moves policy then remove n c.memory ++ n ∷ [] else c.memory;
  hits = c.hits + 1;
}

-- a miss in a full cache, and in one that is not full
pub replace : ℕ → ℕ × List ℕ → Cache → Result Cache
unfolding contains
replace n (victim, rest) c =
    check (not (contains victim (rest ++ n ∷ []))) assertion_error
    >> ok (record c { memory = rest ++ n ∷ []; miss = c.miss + 1 })

pub fill : ℕ → Cache → Cache
fill n c = record c { memory = c.memory ++ n ∷ []; count = c.count + 1; miss = c.miss + 1 }

-- one access
pub access : Policy → ℕ → ℕ → ℕ → List ℕ → ℕ → Cache → Result Cache
unfolding contains hit evict replace fill
access policy cachesize draw index future n c =
    let full : Result Cache = (do r ← evict policy draw index future c; replace n r c) in
    if contains n c.memory
    then ok (hit policy n c)
    else (if c.count == cachesize then full else ok (fill n c))

-- all accesses, from index `index` on; `draws` has the random indices
pub run : Policy → ℕ → (ℕ → ℕ) → ℕ → List ℕ → Cache → Result Cache
unfolding access
run policy cachesize draws index [] c = ok c
run policy cachesize draws index (n ∷ ns) c = do
  c' ← access policy cachesize (draws index) (index + 1) ns n c
  run policy cachesize draws (index + 1) ns c'
