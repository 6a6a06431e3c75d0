-- ===== src/Cache/Clock.antt =====
-- The policy CLOCK of paging-policy_py/paging-policy.py: the reference bits, the search for a victim
-- at random, and the loop over the addresses.
pub mod Refs
pub mod Victims
pub mod Loop
mod Tests
use os_tep.Prelude.{
  ℕ, zero, suc, ◌+◌, ◌-◌, ◌*◌, ◌/◌, ◌%◌, ◌≤◌, ◌<◌, ◌≡◌, refl, sym, ap, ◌∙◌, ◌≢◌, ◌↔◌, ◌⊎◌, inl, inr,
  Bool, true, false, not, ◌&&◌, ◌||◌, Option, none, some, List, [], ◌∷◌, ◌++◌, map, arith, ltb, leb,
  ◌==◌, if◌then◌else◌, Bool-cases, Option-cases, length, get_elem?, set, take, drop, replicate,
  get_or,
}
use os_tep.Prelude.Fault.{Fault, index_error, key_error, no_draw, Result, ok, raise, ◌>>=◌}
use os_tep.Cache.{Cache, contains, remove, replace, fill}

-- the cache, and the dictionary `ref`
pub record Clock : Type 0 where
  pub cache : Cache
  pub refs : ℕ → Option ℕ

abbrev pub put_ref : ℕ → Option ℕ → (ℕ → Option ℕ) → ℕ → Option ℕ
put_ref page ref refs p = if page == p then ref else refs p

-- `memory[i]`, `ref[page]`
pub page_at : List ℕ → ℕ → Result ℕ
page_at memory i = elim (get_elem? memory i) [ none ↦ raise index_error | some page ↦ ok page ]

pub ref_at : (ℕ → Option ℕ) → ℕ → Result ℕ
ref_at refs page = elim (refs page) [ none ↦ raise key_error | some ref ↦ ok ref ]

-- the search for a victim: the victim, the bits, and the draws that are left
pub clock_victim : List ℕ → List ℕ → (ℕ → Option ℕ) → Result (ℕ × (ℕ → Option ℕ) × List ℕ)
unfolding page_at ref_at
clock_victim [] memory refs = raise no_draw
clock_victim (i ∷ draws) memory refs = do
  page ← page_at memory i
  ref ← ref_at refs page
  let more = clock_victim draws memory (put_ref page (some (ref - 1)) refs)
  if leb 1 ref then more else ok (page, refs, draws)

-- the reference bits after an access
abbrev pub bumped : ℕ → Option ℕ → ℕ
bumped clockbits none = 1
bumped clockbits (some ref) = if ltb clockbits (ref + 1) then clockbits else ref + 1

pub bump : ℕ → ℕ → Clock → Clock
bump clockbits n k = record k { refs = put_ref n (some (bumped clockbits (k.refs n))) k.refs }

-- one access; `draws` has the random indices
pub clock_access : ℕ → ℕ → List ℕ → ℕ → Clock → Result (Clock × List ℕ)
unfolding contains clock_victim replace remove fill bump
clock_access cachesize clockbits draws n k =
    let full : Result (Clock × List ℕ) = (do
      r ← clock_victim draws k.cache.memory k.refs
      cache ← replace n (r.0, remove r.0 k.cache.memory) k.cache
      ok (bump clockbits n (record { cache = cache; refs = put_ref r.0 none r.1 }), r.2)) in
    if contains n k.cache.memory
    then ok
        (bump clockbits n (record k { cache = record k.cache { hits = k.cache.hits + 1 } }), draws)
    else (if k.cache.count == cachesize
        then full
        else ok (bump clockbits n (record k { cache = fill n k.cache }), draws))

-- all accesses
pub clock_run : ℕ → ℕ → List ℕ → List ℕ → Clock → Result (Clock × List ℕ)
unfolding clock_access
clock_run cachesize clockbits draws [] k = ok (k, draws)
clock_run cachesize clockbits draws (n ∷ ns) k = do
  r ← clock_access cachesize clockbits draws n k
  clock_run cachesize clockbits r.1 ns r.0

-- nothing was accessed yet
abbrev pub no_refs : ℕ → Option ℕ
no_refs p = none
