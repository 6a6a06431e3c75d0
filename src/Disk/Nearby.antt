-- ===== src/Disk/Nearby.antt =====
-- DoSSTF of 37-Hard_Disk_Drivers/disk.py.
use os_tep.Prelude.{
  ℕ, ◌+◌, ◌≤◌, ◌<◌, ◌≡◌, refl, sym, ap, ◌∙◌, ◌⊎◌, inl, inr, true, false, some, List, [], ◌∷◌, ◌++◌,
  arith, ltb, ◌==◌, if◌then◌else◌, Bool-cases, get_elem?,
}
use mathlib.Core.Path.{subst}
use os_tep.Prelude.Fault.{ok, Returns, Returns-map, Returns-bind}
use os_tep.Disk.{State, state_done, Block, Conf, Request, Disk, block_at, is}
use os_tep.Disk.Policies.{distance, sstf_from, some_of, do_sstf}
use os_tep.Disk.Pick.{In, Pending, Good, AllGood, state_at_lem, not-Pending, same_ok}

sstf_done :
    (c : Conf) (d : Disk) (min : ℕ) (l : List Request) (r : Request) (rs : List Request)
    (st : State)
    → get_elem? d.states r.index ≡ some st
    → is st state_done ≡ true
    → sstf_from c d min l (r ∷ rs) ≡ sstf_from c d min l rs
unfolding sstf_from
sstf_done c d min l r rs st e h = rw (state_at_lem d r.index st e, h) refl

sstf_open :
    (c : Conf) (d : Disk) (min : ℕ) (l : List Request) (r : Request) (rs : List Request)
    (g : Good c d r)
    → is g.st state_done ≡ false
    → sstf_from c d min l (r ∷ rs) ≡ (
        if ltb (distance d.arm_track g.block.track) min
        then sstf_from c d (distance d.arm_track g.block.track) (r ∷ []) rs
        else (if distance d.arm_track g.block.track == min
            then sstf_from c d min (l ++ r ∷ []) rs
            else sstf_from c d min l rs))
unfolding sstf_from
sstf_open c d min l r rs g h = rw (state_at_lem d r.index g.st g.has_state, h, g.has_block) refl

-- the distance of a request's track from the arm
abbrev pub IsAway : Conf → Disk → Request → ℕ → Type 0
IsAway c d r n = (x : Block) × (block_at c r.block ≡ ok x) × (n ≡ distance d.arm_track x.track)

-- The list that the loop gives, and the distance of its tracks.
pub record Tracks (c : Conf) (d : Disk) (min : ℕ) (l rs out : List Request) : Type 0 where
  pub least : ℕ
  pub least_le : least ≤ min
  pub origin :
      (q : Request)
      → In q out
      → ((least ≡ min) × In q l) ⊎ (In q rs × Pending d q × IsAway c d q least)
  pub some_there :
      ((q : Request) × In q l) ⊎ ((q : Request) × In q rs × Pending d q) → (q : Request) × In q out
  pub none_closer : (q : Request) (n : ℕ) → In q rs → Pending d q → IsAway c d q n → least ≤ n

IsAway-Good :
    (c : Conf) (d : Disk) (r : Request) (g : Good c d r) (n : ℕ)
    → IsAway c d r n
    → n ≡ distance d.arm_track g.block.track
IsAway-Good c d r g n (x, bx, e) =
    e ∙ ap (λ (z : Block). distance d.arm_track z.track) (same_ok (sym bx ∙ g.has_block))

In-last : (q r : Request) (l : List Request) → In q (l ++ r ∷ []) → In q l ⊎ (r ≡ q)
In-last q r [] (inl e) = inr e
In-last q r [] (inr i) = absurd i
In-last q r (x ∷ l) (inl e) = inl (inl e)
In-last q r (x ∷ l) (inr i) = elim (In-last q r l i) [ inl j ↦ inl (inr j) | inr e ↦ inr e ]

last-In : (r : Request) (l : List Request) → In r (l ++ r ∷ [])
last-In r [] = inl refl
last-In r (x ∷ l) = inr (last-In r l)

module _ (c : Conf) (d : Disk) (min : ℕ) (l : List Request) (r : Request) (rs : List Request)
    (g : Good c d r) where
  abbrev away : ℕ
  away = distance d.arm_track g.block.track

  Tracks-done :
      (out : List Request)
      → is g.st state_done ≡ true
      → Tracks c d min l rs out
      → Tracks c d min l (r ∷ rs) out
  Tracks-done out h t = record {
    least = t.least;
    least_le = t.least_le;
    origin = λ q i. elim (t.origin q i) [ inl x ↦ inl x | inr (j, p, k) ↦ inr (inr j, p, k) ];
    some_there = λ s. elim s [
      | inl old ↦ t.some_there (inl old)
      | inr (q, inl rq, p) ↦ absurd (not_r q rq p)
      | inr (q, inr j, p) ↦ t.some_there (inr (q, j, p))
    ];
    none_closer =
        λ q n i p k. elim i [ inl rq ↦ absurd (not_r q rq p) | inr j ↦ t.none_closer q n j p k ];
  }
    where
      not_r : (q : Request) → r ≡ q → Pending d q → ⊥
      not_r q rq p = not-Pending d r g.st g.has_state h (subst (Pending d) (sym rq) p)

  here : (q : Request) (n : ℕ) → r ≡ q → IsAway c d q n → n ≡ away
  here q n rq k = IsAway-Good c d r g n (subst (λ z. IsAway c d z n) (sym rq) k)

  r_away : (q : Request) (n : ℕ) → r ≡ q → n ≡ away → IsAway c d q n
  r_away q n rq e = subst (λ z. IsAway c d z n) rq (g.block, g.has_block, e)

  r-Pending : (q : Request) → is g.st state_done ≡ false → r ≡ q → Pending d q
  r-Pending q h rq = subst (Pending d) rq (g.st, g.has_state, h)

  -- a closer track: the list starts again
  Tracks-first :
      (out : List Request)
      → is g.st state_done ≡ false
      → away < min
      → Tracks c d away (r ∷ []) rs out
      → Tracks c d min l (r ∷ rs) out
  Tracks-first out h lt t = record {
    least = t.least;
    least_le = omega (arith, t.least_le);
    origin = λ q i. inr (elim (t.origin q i) [
      | inl (e, inl rq) ↦ (inl rq, r-Pending q h rq, r_away q t.least rq e)
      | inl (e, inr j) ↦ absurd j
      | inr (j, p, k) ↦ (inr j, p, k)
    ]);
    some_there = λ s. t.some_there (inl (r, inl refl));
    none_closer = λ q n i p k. elim i [
      | inl rq ↦ omega (arith, here q n rq k, t.least_le)
      | inr j ↦ t.none_closer q n j p k
    ];
  }

  -- the same track
  Tracks-more :
      (out : List Request)
      → is g.st state_done ≡ false
      → away ≡ min
      → Tracks c d min (l ++ r ∷ []) rs out
      → Tracks c d min l (r ∷ rs) out
  Tracks-more out h e t = record {
    least = t.least;
    least_le = t.least_le;
    origin = λ q i. elim (t.origin q i) [
      | inl (s, j) ↦ elim (In-last q r l j) [
        | inl k ↦ inl (s, k)
        | inr rq ↦ inr (inl rq, r-Pending q h rq, r_away q t.least rq (s ∙ sym e))
      ]
      | inr (j, p, k) ↦ inr (inr j, p, k)
    ];
    some_there = λ s. t.some_there (inl (r, last-In r l));
    none_closer = λ q n i p k. elim i [
      | inl rq ↦ omega (arith, here q n rq k, t.least_le)
      | inr j ↦ t.none_closer q n j p k
    ];
  }

  -- a track further away
  Tracks-skip :
      (out : List Request)
      → min < away
      → (q0 : Request) × In q0 l
      → Tracks c d min l rs out
      → Tracks c d min l (r ∷ rs) out
  Tracks-skip out lt old t = record {
    least = t.least;
    least_le = t.least_le;
    origin = λ q i. elim (t.origin q i) [ inl x ↦ inl x | inr (j, p, k) ↦ inr (inr j, p, k) ];
    some_there = λ s. t.some_there (inl old);
    none_closer = λ q n i p k. elim i [
      | inl rq ↦ omega (arith, here q n rq k, t.least_le)
      | inr j ↦ t.none_closer q n j p k
    ];
  }

sstf_from_nil : (c : Conf) (d : Disk) (min : ℕ) (l : List Request) → sstf_from c d min l [] ≡ ok l
unfolding sstf_from
sstf_from_nil c d min l = refl

-- At first the list is empty, and all tracks are closer than the bound.
abbrev Started : ℕ → ℕ → List Request → Type 0
Started arm min l = ((q : Request) × In q l) ⊎ (arm + 3 ≤ min)

away_small : (arm t : ℕ) → arm < 3 → t < 3 → distance arm t < 3
away_small arm t h k = ground arith

sstf_from-Tracks :
    (c : Conf) (d : Disk) (rs : List Request) (min : ℕ) (l : List Request)
    → AllGood c d rs
    → d.arm_track < 3
    → Started d.arm_track min l
    → Returns (Tracks c d min l rs) (sstf_from c d min l rs)
sstf_from-Tracks c d [] min l good arm s = rw (sstf_from_nil c d min l) (record {
  least = min;
  least_le = omega arith;
  origin = λ q i. inl (refl, i);
  some_there = λ x. elim x [ inl old ↦ old | inr (q, i, p) ↦ absurd i ];
  none_closer = λ q n i. absurd i;
})
sstf_from-Tracks c d (r ∷ rs) min l good arm s =
    let g = good r (inl refl) in
    let below : AllGood c d rs = λ q i. good q (inr i) in
    let a = distance d.arm_track g.block.track in
    elim (Bool-cases (is g.st state_done)) [
      | inl h ↦ rw (sstf_done c d min l r rs g.st g.has_state h) (
          Returns-map (Tracks c d min l rs) (Tracks c d min l (r ∷ rs)) (sstf_from c d min l rs)
            (sstf_from-Tracks c d rs min l below arm s)
            (λ out t. Tracks-done c d min l r rs g out h t))
      | inr h ↦ elim (Bool-cases (ltb a min)) [
        | inl lt ↦
            rw (sstf_open c d min l r rs g h, lt)
              (Returns-map (Tracks c d a (r ∷ []) rs) (Tracks c d min l (r ∷ rs))
                (sstf_from c d a (r ∷ []) rs)
                (sstf_from-Tracks c d rs a (r ∷ []) below arm (inl (r, inl refl)))
                (λ out t. Tracks-first c d min l r rs g out h (ground arith) t))
        | inr ge ↦ elim (Bool-cases (a == min)) [
          | inl same ↦
              rw (sstf_open c d min l r rs g h, ge, same)
                (Returns-map (Tracks c d min (l ++ r ∷ []) rs) (Tracks c d min l (r ∷ rs))
                  (sstf_from c d min (l ++ r ∷ []) rs)
                  (sstf_from-Tracks c d rs min (l ++ r ∷ []) below arm (inl (r, last-In r l)))
                  (λ out t. Tracks-more c d min l r rs g out h (ground arith) t))
          | inr further ↦
              rw (sstf_open c d min l r rs g h, ge, further)
                (Returns-map (Tracks c d min l rs) (Tracks c d min l (r ∷ rs))
                  (sstf_from c d min l rs) (sstf_from-Tracks c d rs min l below arm s)
                  (λ out t.
                    Tracks-skip c d min l r rs g out (ground arith)
                      (elim s [
                        | inl old ↦ old
                        | inr room ↦
                            absurd
                              (ground (arith, away_small d.arm_track g.block.track arm g.on_track))
                      ])
                      t))
        ]
      ]
    ]

-- Requests of one track that are in the list and not done; none of these is closer to the arm.
pub record Closest (c : Conf) (d : Disk) (rs out : List Request) : Type 0 where
  pub least : ℕ
  pub members : (q : Request) → In q out → In q rs × Pending d q × IsAway c d q least
  pub member : (q : Request) × In q out
  pub none_closer : (q : Request) (n : ℕ) → In q rs → Pending d q → IsAway c d q n → least ≤ n

some_of_lem : (out : List Request) (q : Request) → In q out → some_of out ≡ ok out
some_of_lem [] q i = absurd i
some_of_lem (r ∷ rs) q i = refl

pub do_sstf-Closest :
    (c : Conf) (d : Disk) (rs : List Request) (q : Request)
    → AllGood c d rs
    → d.arm_track < 3
    → In q rs
    → Pending d q
    → Returns (Closest c d rs) (do_sstf c d rs)
unfolding do_sstf
do_sstf-Closest c d rs q good arm i p =
    Returns-bind (Tracks c d 1000 [] rs) (Closest c d rs) (sstf_from c d 1000 [] rs) some_of
      (sstf_from-Tracks c d rs 1000 [] good arm (inr (omega arith)))
      (λ out t.
        let (x, j) = t.some_there (inr (q, i, p)) in
        rw (some_of_lem out x j) (record {
          least = t.least;
          members = λ y k. elim (t.origin y k) [ inl (e, z) ↦ absurd z | inr z ↦ z ];
          member = (x, j);
          none_closer = t.none_closer;
        }))
