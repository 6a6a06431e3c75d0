-- ===== src/Cache/Clock/Refs.antt =====
-- The reference bits of the policy CLOCK in paging-policy_py/paging-policy.py.
use os_tep.Prelude.{
  ℕ_discrete, ℕ, suc, ◌+◌, ◌-◌, ◌*◌, ◌≤◌, ◌<◌, ◌≡◌, refl, sym, ap, ◌∙◌, ◌≢◌, true, false, Option,
  none, some, List, [], ◌∷◌, arith, ◌==◌, length,
}
use os_tep.Cache.{contains}
use os_tep.Cache.Pages.{IsDistinct}
use os_tep.Cache.Clock.{put_ref}

abbrev pub ref_of : Option ℕ → ℕ
ref_of none = 0
ref_of (some ref) = ref

-- all bits of the pages of a list
abbrev pub total : (ℕ → Option ℕ) → List ℕ → ℕ
total refs [] = 0
total refs (m ∷ ms) = ref_of (refs m) + total refs ms

-- Every page of the memory has bits, up to a bound, and no other page has.
pub record HasRefs (bound : ℕ) (memory : List ℕ) (refs : ℕ → Option ℕ) : Type 0 where
  pub inside : (p : ℕ) → contains p memory ≡ true → (ref : ℕ) × (refs p ≡ some ref) × (ref ≤ bound)
  pub outside : (p : ℕ) → contains p memory ≡ false → refs p ≡ none

pub put_ref_self : (page : ℕ) (o : Option ℕ) (refs : ℕ → Option ℕ) → put_ref page o refs page ≡ o
put_ref_self page o refs = let t : page == page ≡ true = ground arith in rw t refl

pub put_ref_ne :
    (page : ℕ) (o : Option ℕ) (refs : ℕ → Option ℕ) (p : ℕ)
    → page ≢ p
    → put_ref page o refs p ≡ refs p
put_ref_ne page o refs p ne = let f : page == p ≡ false = ground arith in rw f refl

pub total_outside :
    (page : ℕ) (o : Option ℕ) (refs : ℕ → Option ℕ) (ms : List ℕ)
    → contains page ms ≡ false
    → total (put_ref page o refs) ms ≡ total refs ms
unfolding contains
total_outside page o refs [] h = refl
total_outside page o refs (m ∷ ms) h =
    let ne : page ≢ m = λ e. ground (arith, e) in
    let f : contains page ms ≡ false = ground arith in
    ap (λ z. ref_of z + total (put_ref page o refs) ms) (put_ref_ne page o refs m ne)
    ∙ ap (λ z. ref_of (refs m) + z) (total_outside page o refs ms f)

-- A page that loses one bit.
pub total_less :
    (page ref : ℕ) (refs : ℕ → Option ℕ) (ms : List ℕ)
    → IsDistinct ms
    → contains page ms ≡ true
    → refs page ≡ some ref
    → 0 < ref
    → total (put_ref page (some (ref - 1)) refs) ms + 1 ≡ total refs ms
unfolding contains
total_less page ref refs [] d h e pos = absurd (cc h)
total_less page ref refs (m ∷ ms) d h e pos = elim (ℕ_discrete page m) [
  | yes same ↦
      let out : contains page ms ≡ false = ap (λ z. contains z ms) same ∙ d.0 in
      let here : ref_of (put_ref page (some (ref - 1)) refs m) ≡ ref - 1 =
        ap (λ z. ref_of (put_ref page (some (ref - 1)) refs z)) (sym same)
        ∙ ap ref_of (put_ref_self page (some (ref - 1)) refs) in
      let was : ref_of (refs m) ≡ ref = ap (λ z. ref_of (refs z)) (sym same) ∙ ap ref_of e in
      omega (arith, here, was, total_outside page (some (ref - 1)) refs ms out)
  | no ne ↦
      let rest = total_less page ref refs ms d.1 (ground arith) e pos in
      let here = ap ref_of (put_ref_ne page (some (ref - 1)) refs m ne) in omega (arith, here, rest)
]

pub total_le :
    (bound : ℕ) (refs : ℕ → Option ℕ) (ms : List ℕ)
    → ((p : ℕ) → contains p ms ≡ true → (ref : ℕ) × (refs p ≡ some ref) × (ref ≤ bound))
    → total refs ms ≤ length ms * bound
unfolding contains
total_le bound refs [] h = omega arith
total_le bound refs (m ∷ ms) h =
    let (ref, e, le) = h m (ground arith) in
    let rest = total_le bound refs ms (λ p k. h p (ground arith)) in
    let next : suc (length ms) * bound ≡ bound + length ms * bound = omega arith in
    omega (arith, ap ref_of e, le, rest, next)
