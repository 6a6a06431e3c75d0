-- ===== src/Cache/Clock/Victims.antt =====
-- The search for a victim under the policy CLOCK of paging-policy_py/paging-policy.py.
use os_tep.Prelude.{
  get_elem?-lt, ℕ_discrete, ℕ, ◌+◌, ◌-◌, ◌≤◌, ◌<◌, ◌≡◌, refl, sym, ap, ◌∙◌, inl, inr, true, Option,
  some, List, [], ◌∷◌, arith, leb, if◌then◌else◌, Bool-cases, length, get_elem?,
}
use mathlib.Core.Path.{subst}
use os_tep.Prelude.Fault.{ok, Returns, Returns-map}
use os_tep.Cache.{contains}
use os_tep.Cache.Pages.{IsDistinct, contains-get_elem?}
use os_tep.Cache.Clock.{put_ref, page_at, ref_at, clock_victim}
use os_tep.Cache.Clock.Refs.{HasRefs, total, total_less, put_ref_self, put_ref_ne}

-- random indices of pages
abbrev pub AllBelow : ℕ → List ℕ → Type 0
AllBelow n [] = Unit
AllBelow n (i ∷ draws) = (i < n) × AllBelow n draws

pub page_at_lem :
    (memory : List ℕ) (i page : ℕ) → get_elem? memory i ≡ some page → page_at memory i ≡ ok page
unfolding page_at
page_at_lem memory i page e = rw (e, page_at) refl

pub ref_at_lem :
    (refs : ℕ → Option ℕ) (page ref : ℕ) → refs page ≡ some ref → ref_at refs page ≡ ok ref
unfolding ref_at
ref_at_lem refs page ref e = rw (e, ref_at) refl

HasRefs-less :
    (bound : ℕ) (memory : List ℕ) (refs : ℕ → Option ℕ) (page ref : ℕ)
    → HasRefs bound memory refs
    → contains page memory ≡ true
    → ref ≤ bound
    → HasRefs bound memory (put_ref page (some ref) refs)
HasRefs-less bound memory refs page ref v h le = record {
  inside = λ p k. elim (ℕ_discrete page p) [
    | yes e ↦
        (ref, ap (put_ref page (some ref) refs) (sym e) ∙ put_ref_self page (some ref) refs, le)
    | no ne ↦
        let (r, old, small) = v.inside p k in (r, put_ref_ne page (some ref) refs p ne ∙ old, small)
  ];
  outside = λ p k.
      put_ref_ne page (some ref) refs p (λ e. cc (sym h ∙ ap (λ z. contains z memory) e ∙ k))
      ∙ v.outside p k;
}

-- The victim is a page of the memory whose bits are all gone; the search takes one draw for each bit
-- that it removes, and one for the victim.
pub record IsVictim (bound n : ℕ) (draws memory : List ℕ) (refs : ℕ → Option ℕ)
    (r : ℕ × (ℕ → Option ℕ) × List ℕ) : Type 0 where
  pub was : contains r.0 memory ≡ true
  pub bits_gone : r.1 r.0 ≡ some 0
  pub has_refs : HasRefs bound memory r.1
  pub fewer : (p s : ℕ) → r.1 p ≡ some s → (t : ℕ) × (refs p ≡ some t) × (s ≤ t)
  pub below : AllBelow n r.2
  pub used : length draws + total r.1 memory ≡ length r.2 + 1 + total refs memory

clock_victim_lem :
    (i : ℕ) (draws memory : List ℕ) (refs : ℕ → Option ℕ) (page ref : ℕ)
    → get_elem? memory i ≡ some page
    → refs page ≡ some ref
    → clock_victim (i ∷ draws) memory refs ≡ (
        if leb 1 ref
        then clock_victim draws memory (put_ref page (some (ref - 1)) refs)
        else ok (page, refs, draws))
unfolding clock_victim
clock_victim_lem i draws memory refs page ref e f =
    rw (page_at_lem memory i page e, ref_at_lem refs page ref f) refl

module _ (bound : ℕ) (memory : List ℕ) (d : IsDistinct memory) where
  -- With a draw for each bit of the pages and one more, the search for a victim under CLOCK ends.
  pub clock_victim-IsVictim :
      (draws : List ℕ) (refs : ℕ → Option ℕ)
      → HasRefs bound memory refs
      → AllBelow (length memory) draws
      → total refs memory < length draws
      → Returns (IsVictim bound (length memory) draws memory refs) (clock_victim draws memory refs)
  clock_victim-IsVictim [] refs v b lt = absurd (omega arith)
  clock_victim-IsVictim (i ∷ draws) refs v b lt =
      let (page, at) = get_elem?-lt i memory b.0 in
      let here = contains-get_elem? memory i page at in
      let (ref, has, le) = v.inside page here in
      subst (Returns (IsVictim bound (length memory) (i ∷ draws) memory refs))
        (sym (clock_victim_lem i draws memory refs page ref at has))
        (elim (Bool-cases (leb 1 ref)) [
          | inl t ↦
              let less = total_less page ref refs memory d here has (ground arith) in
              let refs' : ℕ → Option ℕ = put_ref page (some (ref - 1)) refs in
              rw t (
                Returns-map (IsVictim bound (length memory) draws memory refs') _
                  (clock_victim draws memory refs')
                  (clock_victim-IsVictim draws refs'
                    (HasRefs-less bound memory refs page (ref - 1) v here (omega arith)) b.1
                    (omega (arith, less)))
                  (λ r k. record {
                    was = k.was;
                    bits_gone = k.bits_gone;
                    has_refs = k.has_refs;
                    fewer = λ p s e. more p s page ref has (k.fewer p s e);
                    below = k.below;
                    used = omega (arith, k.used, less);
                  }))
          | inr f ↦
              let z : ref ≡ 0 = ground arith in
              rw f (record {
                was = here;
                bits_gone = has ∙ ap some z;
                has_refs = v;
                fewer = λ p s e. (s, e, omega arith);
                below = b.1;
                used = omega arith;
              })
        ])
    where
      more :
          (p s : ℕ)
          → (page ref : ℕ) → refs page ≡ some ref
          → (t : ℕ) × (put_ref page (some (ref - 1)) refs p ≡ some t) × (s ≤ t)
          → (t : ℕ) × (refs p ≡ some t) × (s ≤ t)
      more p s page ref has (t, e, le) = elim (ℕ_discrete page p) [
        | yes same ↦
            let s_t : some (ref - 1) ≡ some t =
              sym (put_ref_self page (some (ref - 1)) refs)
              ∙ ap (put_ref page (some (ref - 1)) refs) same
              ∙ e in
            let u : ref - 1 ≡ t = cc in (ref, ap refs (sym same) ∙ has, omega (arith, u))
        | no ne ↦ (t, sym (put_ref_ne page (some (ref - 1)) refs p ne) ∙ e, le)
      ]
