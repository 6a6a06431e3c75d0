-- ===== src/Cache/Clock/Loop.antt =====
-- The loop over the addresses of paging-policy_py/paging-policy.py under the policy CLOCK.
use os_tep.Prelude.{
  ℕ_discrete, ℕ, suc, ◌+◌, ◌*◌, ◌≤◌, ◌<◌, ◌≡◌, refl, sym, ap, ◌∙◌, ◌≢◌, inl, inr, true, false, ◌||◌,
  Option, none, some, List, [], ◌∷◌, ◌++◌, arith, ◌==◌, Bool-cases, length,
}
use mathlib.Core.Path.{subst}
use native.Mathlib.Nat.{mul-le-mul_right}
use os_tep.Prelude.Fault.{ok, ◌>>=◌, Returns, Returns-bind, Returns-map}
use os_tep.Cache.{fifo, contains, remove, hit, replace, fill}
use os_tep.Cache.Pages.{IsLess, remove-IsLess, contains-append}
use os_tep.Cache.Access.{IsCache, IsAccess, hit_lem, fill_lem, replace_lem, IsAccess-counts}
use os_tep.Cache.Clock.{Clock, put_ref, bumped, bump, clock_victim, clock_access, clock_run}
use os_tep.Cache.Clock.Refs.{HasRefs, total_le, put_ref_self, put_ref_ne}
use os_tep.Cache.Clock.Victims.{AllBelow, IsVictim, clock_victim-IsVictim}

bumped_le : (clockbits : ℕ) (o : Option ℕ) → 0 < clockbits → bumped clockbits o ≤ clockbits
bumped_le clockbits none h = omega arith
bumped_le clockbits (some ref) h = ground arith

-- a page that is accessed has its bits
HasRefs-bump :
    (clockbits n : ℕ) (before after : List ℕ) (refs : ℕ → Option ℕ)
    → 0 < clockbits
    → ((p : ℕ) → contains p after ≡ (contains p before || n == p))
    → HasRefs clockbits before refs
    → HasRefs clockbits after (put_ref n (some (bumped clockbits (refs n))) refs)
HasRefs-bump clockbits n before after refs pos there v = record {
  inside = λ p k. elim (ℕ_discrete n p) [
    | yes e ↦ (
      bumped clockbits (refs n),
      ap (put_ref n (some (bumped clockbits (refs n))) refs) (sym e)
          ∙ put_ref_self n (some (bumped clockbits (refs n))) refs,
      bumped_le clockbits (refs n) pos,
    )
    | no ne ↦
        let (r, old, small) = v.inside p (ground (arith, there p)) in
        (r, put_ref_ne n (some (bumped clockbits (refs n))) refs p ne ∙ old, small)
  ];
  outside = λ p k.
      let ne : n ≢ p = λ e. ground (arith, there p) in
      put_ref_ne n (some (bumped clockbits (refs n))) refs p ne
      ∙ v.outside p (ground (arith, there p));
}

-- a page that is removed has none
HasRefs-less :
    (bound v : ℕ) (memory rest : List ℕ) (refs : ℕ → Option ℕ)
    → IsLess v memory rest
    → HasRefs bound memory refs
    → HasRefs bound rest (put_ref v none refs)
HasRefs-less bound v memory rest refs l h = record {
  inside = λ p k.
      let ne : v ≢ p = λ e. cc (sym l.gone ∙ ap (λ z. contains z rest) e ∙ k) in
      let was : contains p memory ≡ true = elim (Bool-cases (contains p memory)) [
        | inl t ↦ t
        | inr f ↦ absurd (cc (sym (l.fewer p f) ∙ k))
      ] in
      let (r, e, small) = h.inside p was in (r, put_ref_ne v none refs p ne ∙ e, small);
  outside = λ p k. elim (ℕ_discrete v p) [
    | yes e ↦ ap (put_ref v none refs) (sym e) ∙ put_ref_self v none refs
    | no ne ↦
        let out : contains p memory ≡ false = elim (Bool-cases (contains p memory)) [
          | inl t ↦ absurd (cc (sym (l.others p (λ s. ne (sym s)) t) ∙ k))
          | inr f ↦ f
        ] in
        put_ref_ne v none refs p ne ∙ h.outside p out
  ];
}

-- What an access does under CLOCK: that of the other policies, and the bits are those of the pages in
-- the memory. It takes no more draws than there can be bits, and one.
pub record IsClockAccess (cachesize clockbits n : ℕ) (draws : List ℕ) (k : Clock)
    (r : Clock × List ℕ) : Type 0 where
  pub accessed : IsAccess cachesize n k.cache r.0.cache
  pub has_refs : HasRefs clockbits r.0.cache.memory r.0.refs
  pub below : AllBelow cachesize r.1
  pub used : length draws ≤ length r.1 + cachesize * clockbits + 1

module _ (cachesize clockbits n : ℕ) (some_pages : 0 < cachesize) (some_bits : 0 < clockbits)
    (k : Clock) (v : IsCache cachesize k.cache) (h : HasRefs clockbits k.cache.memory k.refs)
    (draws : List ℕ) (b : AllBelow cachesize draws) where
  on_hit :
      contains n k.cache.memory ≡ true
      → IsClockAccess cachesize clockbits n draws k (
        bump clockbits n (record k { cache = record k.cache { hits = k.cache.hits + 1 } }),
        draws,
      )
  unfolding bump hit
  on_hit t = record {
    accessed = hit_lem cachesize n k.cache v fifo t;
    has_refs =
        HasRefs-bump clockbits n k.cache.memory k.cache.memory k.refs some_bits (λ p. same p) h;
    below = b;
    used = omega arith;
  }
    where
      same : (p : ℕ) → contains p k.cache.memory ≡ (contains p k.cache.memory || n == p)
      same p = elim (ℕ_discrete n p) [
        | yes e ↦
            let u : contains p k.cache.memory ≡ true =
              ap (λ z. contains z k.cache.memory) (sym e) ∙ t in
            ground arith
        | no ne ↦ ground arith
      ]

  on_fill :
      contains n k.cache.memory ≡ false
      → k.cache.count ≢ cachesize
      → IsClockAccess cachesize clockbits n draws k
          (bump clockbits n (record k { cache = fill n k.cache }), draws)
  unfolding bump fill
  on_fill f ne = record {
    accessed = fill_lem cachesize n k.cache v f ne;
    has_refs =
        HasRefs-bump clockbits n k.cache.memory (k.cache.memory ++ n ∷ []) k.refs some_bits
          (λ p. contains-append p n k.cache.memory) h;
    below = b;
    used = omega arith;
  }

  replace_ok :
      (w : ℕ) (rest : List ℕ)
      → contains w (rest ++ n ∷ []) ≡ false
      → replace n (w, rest) k.cache
        ≡ ok (record k.cache { memory = rest ++ n ∷ []; miss = k.cache.miss + 1 })
  unfolding replace
  replace_ok w rest g = rw g refl

  on_victim :
      contains n k.cache.memory ≡ false
      → (r : ℕ × (ℕ → Option ℕ) × List ℕ)
      → IsVictim clockbits cachesize draws k.cache.memory k.refs r
      → Returns (IsClockAccess cachesize clockbits n draws k) (
          replace n (r.0, remove r.0 k.cache.memory) k.cache >>= λ cache.
          ok (bump clockbits n (record { cache = cache; refs = put_ref r.0 none r.1 }), r.2))
  unfolding bump
  on_victim f (w, refs, more) u =
      let rest = remove w k.cache.memory in
      let less = remove-IsLess w k.cache.memory v.distinct u.was in
      let ne : n ≢ w = λ e. cc (sym u.was ∙ ap (λ x. contains x k.cache.memory) (sym e) ∙ f) in
      let g : contains w (rest ++ n ∷ []) ≡ false =
        ground (arith, contains-append w n rest, less.gone) in
      let access = replace_lem cachesize n k.cache v (w, rest) f less in
      rw (replace_ok w rest g) (record {
        accessed = subst (Returns (IsAccess cachesize n k.cache)) (replace_ok w rest g) access;
        has_refs =
            HasRefs-bump clockbits n rest (rest ++ n ∷ []) (put_ref w none refs) some_bits
              (λ p. contains-append p n rest)
              (HasRefs-less clockbits w k.cache.memory rest refs less u.has_refs);
        below = u.below;
        used = omega (
          arith,
          u.used,
          total_le clockbits k.refs k.cache.memory h.inside,
          v.counted,
          mul-le-mul_right clockbits v.bounded,
          ap (λ z. z * clockbits) v.counted,
        );
      })

  -- With a cache of at least one page, whose memory holds each page once, at least one clock bit, bits
  -- for the pages in the memory and no other, and more random indices of pages than there can be bits,
  -- an access under CLOCK raises nothing: the search for a victim ends. The access does what it does
  -- under the other policies, the pages in the memory and no other have bits afterwards, and no more
  -- indices are used up than there can be bits, and one.
  pub clock_access-IsClockAccess :
      cachesize * clockbits < length draws
      → Returns
          (IsClockAccess cachesize clockbits n draws k)
          (clock_access cachesize clockbits draws n k)
  unfolding clock_access
  clock_access-IsClockAccess lt = elim (Bool-cases (contains n k.cache.memory)) [
    | inl t ↦ rw t (on_hit t)
    | inr f ↦ elim (ℕ_discrete k.cache.count cachesize) [
      | yes e ↦
          let t : k.cache.count == cachesize ≡ true = ground arith in
          let size : length k.cache.memory ≡ cachesize = sym v.counted ∙ e in
          rw (f, t)
            (Returns-bind (IsVictim clockbits cachesize draws k.cache.memory k.refs)
              (IsClockAccess cachesize clockbits n draws k)
              (clock_victim draws k.cache.memory k.refs) _
              (subst
                (λ z.
                  Returns (IsVictim clockbits z draws k.cache.memory k.refs)
                    (clock_victim draws k.cache.memory k.refs))
                size
                (clock_victim-IsVictim clockbits k.cache.memory v.distinct draws k.refs h
                  (subst (λ z. AllBelow z draws) (sym size) b)
                  (omega (
                    arith,
                    lt,
                    total_le clockbits k.refs k.cache.memory h.inside,
                    ap (λ z. z * clockbits) size,
                  ))))
              (λ r u. on_victim f r u))
      | no ne ↦
          let t : k.cache.count == cachesize ≡ false = ground arith in rw (f, t) (on_fill f ne)
    ]
  ]

-- The whole loop under CLOCK, with a cache of at least one page, at least one clock bit, bits for the
-- pages in the memory and no other, and for each address one random index of a page more than there can
-- be bits: it raises nothing. The memory then holds each page once and no more pages than the cache, the
-- pages in it and no other have bits, and as many hits and misses were counted as there are addresses.
pub clock_run-IsCache :
    (cachesize clockbits : ℕ) (addresses draws : List ℕ) (k : Clock)
    → 0 < cachesize
    → 0 < clockbits
    → IsCache cachesize k.cache
    → HasRefs clockbits k.cache.memory k.refs
    → AllBelow cachesize draws
    → length addresses * (cachesize * clockbits + 1) ≤ length draws
    → Returns
        (λ r.
          IsCache cachesize r.0.cache
          × HasRefs clockbits r.0.cache.memory r.0.refs
          × (r.0.cache.hits + r.0.cache.miss ≡ k.cache.hits + k.cache.miss + length addresses))
        (clock_run cachesize clockbits draws addresses k)
unfolding clock_run
clock_run-IsCache cachesize clockbits [] draws k some_pages some_bits v h b le = (v, h, omega arith)
clock_run-IsCache cachesize clockbits (n ∷ ns) draws k some_pages some_bits v h b le =
    let next : suc (length ns) * (cachesize * clockbits + 1)
        ≡ length ns * (cachesize * clockbits + 1) + (cachesize * clockbits + 1) =
      omega arith in
    Returns-bind (IsClockAccess cachesize clockbits n draws k) _
      (clock_access cachesize clockbits draws n k) (λ r. clock_run cachesize clockbits r.1 ns r.0)
      (clock_access-IsClockAccess cachesize clockbits n some_pages some_bits k v h draws b
        (omega (arith, le, next)))
      (λ r a.
        Returns-map _ _ (clock_run cachesize clockbits r.1 ns r.0)
          (clock_run-IsCache cachesize clockbits ns r.1 r.0 some_pages some_bits a.accessed.cache
            a.has_refs a.below (omega (arith, le, next, a.used)))
          (λ s w. (
            w.0,
            w.1,
            omega (arith, w.2, IsAccess-counts cachesize n k.cache r.0.cache a.accessed),
          )))
