-- ===== src/Cache/Clock/Tests.antt =====
-- The policy CLOCK of paging-policy_py/paging-policy.py at concrete addresses.
use os_tep.Prelude.{ℕ, ◌+◌, ◌≡◌, refl, true, false, some, List, [], ◌∷◌, arith, ◌==◌}
use os_tep.Prelude.Fault.{Result, ok, raise, Returns}
use os_tep.Cache.{empty, contains}
use os_tep.Cache.Access.{IsCache}
use os_tep.Cache.Clock.{Clock, no_refs, put_ref, clock_access, clock_run}
use os_tep.Cache.Clock.Refs.{HasRefs}
use os_tep.Cache.Clock.Loop.{IsClockAccess, clock_access-IsClockAccess, clock_run-IsCache}

abbrev fresh : Clock
fresh = record { cache = empty; refs = no_refs }

fresh-IsCache : IsCache 1 fresh.cache
fresh-IsCache = record { distinct = tt; counted = refl; bounded = omega arith }

fresh-HasRefs : HasRefs 2 fresh.cache.memory fresh.refs
unfolding contains
fresh-HasRefs = record { inside = λ p k. absurd (cc k); outside = λ p k. refl }

abbrev memory_of : Result (Clock × List ℕ) → List ℕ × List ℕ
memory_of (ok r) = (r.0.cache.memory, r.1)
memory_of (raise e) = ([], [])

-- the page that was used once keeps its place for one draw
clock_test :
    memory_of (clock_run 2 2 (0 ∷ 1 ∷ 0 ∷ 1 ∷ []) (4 ∷ 7 ∷ 9 ∷ []) fresh) ≡ (7 ∷ 9 ∷ [], 1 ∷ [])
unfolding clock_run
clock_test = refl

-- a cache of one page, which has one bit
abbrev one : Clock
one = record {
  cache = record { memory = 4 ∷ []; count = 1; hits = 0; miss = 1 };
  refs = put_ref 4 (some 1) no_refs;
}

one-IsCache : IsCache 1 one.cache
unfolding contains
one-IsCache = record { distinct = (refl, tt); counted = refl; bounded = omega arith }

one-HasRefs : HasRefs 2 one.cache.memory one.refs
unfolding contains
one-HasRefs = record {
  inside = λ p k. let t : 4 == p ≡ true = ground arith in (1, rw t refl, omega arith);
  outside = λ p k. let f : 4 == p ≡ false = ground arith in rw f refl;
}

clock_access-IsClockAccess_example :
    Returns (IsClockAccess 1 2 9 (0 ∷ 0 ∷ 0 ∷ []) one) (clock_access 1 2 (0 ∷ 0 ∷ 0 ∷ []) 9 one)
clock_access-IsClockAccess_example =
    clock_access-IsClockAccess 1 2 9 (omega arith) (omega arith) one one-IsCache one-HasRefs
      (0 ∷ 0 ∷ 0 ∷ []) (omega arith, (omega arith, (omega arith, tt))) (omega arith)

clock_run-IsCache_example :
    Returns
      (λ r.
        IsCache 1 r.0.cache
        × HasRefs 2 r.0.cache.memory r.0.refs
        × (r.0.cache.hits + r.0.cache.miss ≡ 0 + 0 + 2))
      (clock_run 1 2 (0 ∷ 0 ∷ 0 ∷ 0 ∷ 0 ∷ 0 ∷ []) (4 ∷ 9 ∷ []) fresh)
clock_run-IsCache_example =
    clock_run-IsCache 1 2 (4 ∷ 9 ∷ []) (0 ∷ 0 ∷ 0 ∷ 0 ∷ 0 ∷ 0 ∷ []) fresh (omega arith)
      (omega arith) fresh-IsCache fresh-HasRefs
      (omega arith, (omega arith, (omega arith, (omega arith, (omega arith, (omega arith, tt))))))
      (omega arith)
