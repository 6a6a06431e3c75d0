-- ===== src/Cache/Tests.antt =====
-- Caches of paging-policy_py/paging-policy.py, and the theorems about them at concrete addresses.
use os_tep.Prelude.{ℕ, ◌≤◌, ◌≡◌, refl, some, [], ◌∷◌, arith, get_elem?}
use os_tep.Prelude.Fault.{ok, Returns}
use os_tep.Cache.{Policy, lru, opt, unopt, Cache, empty, evict, access, run, next_use}
use os_tep.Cache.Pages.{IsDistinct, IsLess}
use os_tep.Cache.Victim.{opt_lem}
use os_tep.Cache.Access.{IsCache, IsAccess, access_lem}

abbrev three : Cache
three = record { memory = 4 ∷ 7 ∷ 9 ∷ []; count = 3; hits = 1; miss = 3 }

three-IsCache : IsCache 3 three
unfolding os_tep.Cache.contains
three-IsCache = record { distinct = three_distinct; counted = refl; bounded = omega arith }
  where
    three_distinct : IsDistinct three.memory
    three_distinct = (refl, (refl, (refl, tt)))

access_lem_example : Returns (IsAccess 3 8 three) (access lru 3 0 5 (7 ∷ 4 ∷ []) 8 three)
access_lem_example =
    access_lem 3 8 three three-IsCache lru 0 5 (7 ∷ 4 ∷ []) (omega arith) (omega arith)

opt_lem_example :
    Returns
      (λ (v, rest).
        IsLess v three.memory rest
        × ((j q : ℕ)
            → get_elem? three.memory j ≡ some q
            → next_use q 5 (7 ∷ 4 ∷ []) ≤ next_use v 5 (7 ∷ 4 ∷ [])))
      (evict opt 0 5 (7 ∷ 4 ∷ []) three)
opt_lem_example = opt_lem 0 5 (7 ∷ 4 ∷ []) three three-IsCache.distinct (omega arith)

opt_runs : evict opt 0 5 (7 ∷ 4 ∷ []) three ≡ ok (9, 4 ∷ 7 ∷ [])
unfolding evict
opt_runs = refl
