-- ===== src/Cache/Access.antt =====
-- The loop over the addresses of paging-policy_py/paging-policy.py, under every policy modelled.
use os_tep.Prelude.{
  ℕ_discrete, ℕ, ◌+◌, ◌-◌, ◌≤◌, ◌<◌, ◌≡◌, refl, sym, ap, ◌∙◌, ◌≢◌, inl, inr, true, false, List, [],
  ◌∷◌, ◌++◌, arith, ◌==◌, Bool-cases, length,
}
use os_tep.Prelude.Fault.{Returns, Returns-map, Returns-bind}
use os_tep.Cache.{
  Policy, fifo, lru, mru, rand, opt, unopt, Cache, contains, remove, pop, moves, hit, replace, fill,
  evict, access, run,
}
use os_tep.Cache.Pages.{
  IsDistinct, IsLess, IsPopped, pop_lem, remove-IsLess, contains_self, contains-append,
  length-append, IsDistinct-append,
}
use os_tep.Cache.Victim.{opt_lem, unopt_lem}

-- The memory holds each page once, and as many as are counted; the cache is not overfull.
pub record IsCache (cachesize : ℕ) (c : Cache) : Type 0 where
  pub distinct : IsDistinct c.memory
  pub counted : c.count ≡ length c.memory
  pub bounded : c.count ≤ cachesize

abbrev pub Removes : Cache → ℕ × List ℕ → Type 0
Removes c (v, rest) = IsLess v c.memory rest

module _ (draw index : ℕ) (future : List ℕ) (c : Cache) (d : IsDistinct c.memory)
    (counted : c.count ≡ length c.memory) (pos : 0 < c.count) (drawn : draw < c.count) where
  popped : (i : ℕ) → i < length c.memory → Returns (Removes c) (pop i c.memory)
  popped i lt =
      Returns-map (IsPopped i c.memory) (Removes c) (pop i c.memory) (pop_lem i c.memory d lt)
        (λ r p. p.1)

  evict_lem : (policy : Policy) → Returns (Removes c) (evict policy draw index future c)
  unfolding evict
  evict_lem fifo = popped 0 (omega arith)
  evict_lem lru = popped 0 (omega arith)
  evict_lem mru = popped (c.count - 1) (omega arith)
  evict_lem rand = popped draw (omega arith)
  evict_lem opt =
      Returns-map _ (Removes c) (evict opt draw index future c)
        (opt_lem draw index future c d (omega arith)) (λ r p. p.0)
  evict_lem unopt =
      Returns-map _ (Removes c) (evict unopt draw index future c)
        (unopt_lem draw index future c d (omega arith)) (λ r p. p.0)

-- What an access to page `n` does: the page is in the memory afterwards, it is counted as a hit
-- exactly if it was there before, and no other page comes into the memory.
pub record IsAccess (cachesize n : ℕ) (c c' : Cache) : Type 0 where
  pub cache : IsCache cachesize c'
  pub present : contains n c'.memory ≡ true
  pub hit_counted : contains n c.memory ≡ true → (c'.hits ≡ c.hits + 1) × (c'.miss ≡ c.miss)
  pub miss_counted : contains n c.memory ≡ false → (c'.hits ≡ c.hits) × (c'.miss ≡ c.miss + 1)
  pub no_other : (x : ℕ) → x ≢ n → contains x c.memory ≡ false → contains x c'.memory ≡ false

module _ (cachesize n : ℕ) (c : Cache) (v : IsCache cachesize c) where
  absent_append :
      (ms : List ℕ) (x : ℕ) → x ≢ n → contains x ms ≡ false → contains x (ms ++ n ∷ []) ≡ false
  absent_append ms x ne h = ground (arith, contains-append x n ms)

  pub hit_lem :
      (policy : Policy) → contains n c.memory ≡ true → IsAccess cachesize n c (hit policy n c)
  unfolding hit
  hit_lem policy h =
      let p = remove-IsLess n c.memory v.distinct h in
      let ms = remove n c.memory in
      elim (Bool-cases (moves policy)) [
        | inl e ↦ rw e (record {
          cache = record {
            distinct = IsDistinct-append ms n p.distinct p.gone;
            counted = omega (arith, v.counted, p.shorter, length-append ms n);
            bounded = v.bounded;
          };
          present = contains_self n ms;
          hit_counted = λ k. (refl, refl);
          miss_counted = λ k. absurd (cc (sym h ∙ k));
          no_other = λ x ne k. absent_append ms x ne (p.fewer x k);
        })
        | inr e ↦ rw e (record {
          cache = record { distinct = v.distinct; counted = v.counted; bounded = v.bounded };
          present = h;
          hit_counted = λ k. (refl, refl);
          miss_counted = λ k. absurd (cc (sym h ∙ k));
          no_other = λ x ne k. k;
        })
      ]

  pub fill_lem :
      contains n c.memory ≡ false → c.count ≢ cachesize → IsAccess cachesize n c (fill n c)
  unfolding fill
  fill_lem h ne = record {
    cache = record {
      distinct = IsDistinct-append c.memory n v.distinct h;
      counted = omega (arith, v.counted, length-append c.memory n);
      bounded = omega (arith, v.bounded);
    };
    present = contains_self n c.memory;
    hit_counted = λ k. absurd (cc (sym h ∙ k));
    miss_counted = λ k. (refl, refl);
    no_other = λ x dx k. absent_append c.memory x dx k;
  }

  pub replace_lem :
      (r : ℕ × List ℕ)
      → contains n c.memory ≡ false
      → Removes c r
      → Returns (IsAccess cachesize n c) (replace n r c)
  unfolding replace
  replace_lem (w, rest) h p =
      let ne : w ≢ n = λ e. cc (sym p.was ∙ ap (λ x. contains x c.memory) e ∙ h) in
      rw (absent_append rest w ne p.gone) (record {
        cache = record {
          distinct = IsDistinct-append rest n p.distinct (p.fewer n h);
          counted = omega (arith, v.counted, p.shorter, length-append rest n);
          bounded = v.bounded;
        };
        present = contains_self n rest;
        hit_counted = λ k. absurd (cc (sym h ∙ k));
        miss_counted = λ k. (refl, refl);
        no_other = λ x dx k. absent_append rest x dx (p.fewer x k);
      })

  -- With a cache of at least one page, whose memory holds each page once, and a random index below
  -- the number of pages, an access raises nothing and keeps the cache so. Afterwards the page is in
  -- the memory and no other page has come in; a hit is counted if it was there, else a miss.
  pub access_lem :
      (policy : Policy) (draw index : ℕ) (future : List ℕ)
      → 0 < cachesize
      → draw < cachesize
      → Returns (IsAccess cachesize n c) (access policy cachesize draw index future n c)
  unfolding access
  access_lem policy draw index future pos drawn = elim (Bool-cases (contains n c.memory)) [
    | inl h ↦ rw h (hit_lem policy h)
    | inr h ↦ elim (ℕ_discrete c.count cachesize) [
      | yes e ↦
          let t : c.count == cachesize ≡ true = ground arith in
          rw (h, t)
            (Returns-bind (Removes c) (IsAccess cachesize n c) (evict policy draw index future c)
              (λ r. replace n r c)
              (evict_lem draw index future c v.distinct v.counted (omega arith) (omega arith)
                policy)
              (λ r. replace_lem r h))
      | no ne ↦ let t : c.count == cachesize ≡ false = ground arith in rw (h, t) (fill_lem h ne)
    ]
  ]

pub IsAccess-counts :
    (cachesize n : ℕ) (c c' : Cache)
    → IsAccess cachesize n c c'
    → c'.hits + c'.miss ≡ c.hits + c.miss + 1
IsAccess-counts cachesize n c c' a = elim (Bool-cases (contains n c.memory)) [
  | inl h ↦ omega (arith, (a.hit_counted h).0, (a.hit_counted h).1)
  | inr h ↦ omega (arith, (a.miss_counted h).0, (a.miss_counted h).1)
]

-- With a cache of at least one page, whose memory holds each page once, and random indices below
-- the number of pages, the whole loop raises nothing. The memory then holds each page once and no
-- more pages than the cache, and as many hits and misses were counted as there are addresses.
pub run-IsCache :
    (policy : Policy) (cachesize : ℕ) (draws : ℕ → ℕ) (index : ℕ) (addresses : List ℕ) (c : Cache)
    → 0 < cachesize
    → ((k : ℕ) → draws k < cachesize)
    → IsCache cachesize c
    → Returns
        (λ c'. IsCache cachesize c' × (c'.hits + c'.miss ≡ c.hits + c.miss + length addresses))
        (run policy cachesize draws index addresses c)
unfolding run
run-IsCache policy cachesize draws index [] c pos drawn v = (v, omega arith)
run-IsCache policy cachesize draws index (n ∷ ns) c pos drawn v =
    Returns-bind (IsAccess cachesize n c) _
      (access policy cachesize (draws index) (index + 1) ns n c)
      (run policy cachesize draws (index + 1) ns)
      (access_lem cachesize n c v policy (draws index) (index + 1) ns pos (drawn index))
      (λ c' a.
        Returns-map _ _ (run policy cachesize draws (index + 1) ns c')
          (run-IsCache policy cachesize draws (index + 1) ns c' pos drawn a.cache)
          (λ c'' w. (w.0, omega (arith, w.1, IsAccess-counts cachesize n c c' a))))
