-- ===== src/Fork/Lists.antt =====
-- Names, dictionaries over names, and lists of names of cpu_api/fork.py.
use os_tep.Prelude.{
  ◌≡◌, refl, sym, ap, ◌∙◌, ◌≢◌, ◌⊎◌, inl, inr, true, false, List, [], ◌∷◌, ◌++◌, arith, Bool-cases,
}
use mathlib.Core.Path.{subst}
use os_tep.Prelude.Fault.{ok}
use os_tep.Fork.{Name, same_name, put, has, remove}

pub same_name_refl : (p : Name) → same_name p p ≡ true
same_name_refl [] = refl
same_name_refl (c ∷ p) = ground (arith, same_name_refl p)

pub same_name_eq : (p q : Name) → same_name p q ≡ true → p ≡ q
same_name_eq [] [] h = refl
same_name_eq [] (d ∷ q) h = cc
same_name_eq (c ∷ p) [] h = cc
same_name_eq (c ∷ p) (d ∷ q) h =
    let e : c ≡ d = ground arith in
    let f = same_name_eq p q (ground arith) in ap (λ x. x ∷ p) e ∙ ap (λ x. d ∷ x) f

pub same_name_ne : (p q : Name) → p ≢ q → same_name p q ≡ false
same_name_ne p q h = elim (Bool-cases (same_name p q)) [
  | inl t ↦ absurd (h (same_name_eq p q t))
  | inr f ↦ f
]

pub name-cases : (p q : Name) → (p ≡ q) ⊎ (p ≢ q)
name-cases p q = elim (Bool-cases (same_name p q)) [
  | inl t ↦ inl (same_name_eq p q t)
  | inr f ↦ inr (λ e. cc (sym f ∙ ap (same_name p) (sym e) ∙ same_name_refl p))
]

pub put_self {ℓ} :
    {A : Type ℓ} (p : Name) (x : A) (d : Name → A) (q : Name) → q ≡ p → put p x d q ≡ x
put_self p x d q e =
    let t : same_name q p ≡ true = ap (λ z. same_name z p) e ∙ same_name_refl p in rw t refl

pub put_other {ℓ} :
    {A : Type ℓ} (p : Name) (x : A) (d : Name → A) (q : Name) → q ≢ p → put p x d q ≡ d q
put_other p x d q h = rw (same_name_ne q p h) refl

abbrev pub In : Name → List Name → Type 0
In p ps = has p ps ≡ true

pub In-empty : (p : Name) → In p [] → ⊥
unfolding has
In-empty p h = cc

-- no name twice
abbrev pub Apart : List Name → Type 0
Apart [] = Unit
Apart (p ∷ ps) = (has p ps ≡ false) × Apart ps

pub In-cons : (p q : Name) (qs : List Name) → In p (q ∷ qs) → (p ≡ q) ⊎ In p qs
unfolding has
In-cons p q qs h = elim (Bool-cases (same_name q p)) [
  | inl t ↦ inl (sym (same_name_eq q p t))
  | inr f ↦ inr (ground arith)
]

pub has_head : (p : Name) (ps : List Name) → In p (p ∷ ps)
unfolding has
has_head p ps = rw (same_name_refl p) refl

pub has_tail : (p q : Name) (ps : List Name) → In p ps → In p (q ∷ ps)
unfolding has
has_tail p q ps h = ground arith

pub In-append : (p : Name) (ps : List Name) (c : Name) → In p (ps ++ c ∷ []) → In p ps ⊎ (p ≡ c)
In-append p [] c h = elim (In-cons p c [] h) [ inl e ↦ inr e | inr k ↦ inl k ]
In-append p (q ∷ ps) c h = elim (In-cons p q (ps ++ c ∷ []) h) [
  | inl e ↦ inl (subst (λ z. In z (q ∷ ps)) (sym e) (has_head q ps))
  | inr k ↦ elim (In-append p ps c k) [ inl j ↦ inl (has_tail p q ps j) | inr e ↦ inr e ]
]

pub has_old : (p : Name) (ps : List Name) (c : Name) → In p ps → In p (ps ++ c ∷ [])
unfolding has
has_old p [] c h = cc
has_old p (q ∷ ps) c h = elim (In-cons p q ps h) [
  | inl e ↦ subst (λ z. In z (q ∷ (ps ++ c ∷ []))) (sym e) (has_head q (ps ++ c ∷ []))
  | inr k ↦ has_tail p q (ps ++ c ∷ []) (has_old p ps c k)
]

pub has_new : (ps : List Name) (c : Name) → In c (ps ++ c ∷ [])
has_new [] c = has_head c []
has_new (q ∷ ps) c = has_tail c q (ps ++ c ∷ []) (has_new ps c)

pub Apart-append : (ps : List Name) (c : Name) → Apart ps → has c ps ≡ false → Apart (ps ++ c ∷ [])
unfolding has
Apart-append [] c a h = (refl, tt)
Apart-append (p ∷ ps) c (out, a) h = (not_there, Apart-append ps c a (ground arith))
  where
    not_there : has p (ps ++ c ∷ []) ≡ false
    not_there = elim (Bool-cases (has p (ps ++ c ∷ []))) [
      | inr f ↦ f
      | inl t ↦ elim (In-append p ps c t) [
        | inl i ↦ absurd (cc (sym i ∙ out))
        | inr e ↦
            let other : same_name p c ≡ false = ground arith in
            absurd (cc (sym (ap (same_name p) (sym e) ∙ same_name_refl p) ∙ other))
      ]
    ]

-- What `list.remove` gives.
pub record Rest (p : Name) (ps qs : List Name) : Type 0 where
  pub apart : Apart qs
  pub old : (q : Name) → In q qs → In q ps × (q ≢ p)
  pub kept : (q : Name) → In q ps → q ≢ p → In q qs

other_name : (p q : Name) (ps : List Name) → has p ps ≡ false → In q ps → q ≢ p
other_name p q ps h i e = cc (sym i ∙ ap (λ z. has z ps) e ∙ h)

pub remove-Rest :
    (p : Name) (ps : List Name)
    → Apart ps
    → In p ps
    → (qs : List Name) × (remove p ps ≡ ok qs) × Rest p ps qs
unfolding remove
remove-Rest p [] a h = absurd (In-empty p h)
remove-Rest p (q ∷ ps) (out, a) h = elim (name-cases q p) [
  | inl e ↦
      let t : same_name q p ≡ true = ap (λ z. same_name z p) e ∙ same_name_refl p in
      (
        ps,
        rw t refl,
        record {
          apart = a;
          old = λ x i. (has_tail x q ps i, other_name p x ps (ap (λ z. has z ps) (sym e) ∙ out) i);
          kept = λ x i ne. elim (In-cons x q ps i) [ inl k ↦ absurd (ne (k ∙ e)) | inr k ↦ k ];
        },
      )
  | inr ne ↦
      let below : In p ps = elim (In-cons p q ps h) [ inl k ↦ absurd (ne (sym k)) | inr k ↦ k ] in
      let (qs, e, r) = remove-Rest p ps a below in
      (
        q ∷ qs,
        rw (same_name_ne q p ne, e) refl,
        record {
          apart = (still_out qs r, r.apart);
          old = λ x i. elim (In-cons x q qs i) [
            | inl k ↦ (subst (λ z. In z (q ∷ ps)) (sym k) (has_head q ps), λ z. ne (sym k ∙ z))
            | inr k ↦ let (j, n) = r.old x k in (has_tail x q ps j, n)
          ];
          kept = λ x i n. elim (In-cons x q ps i) [
            | inl k ↦ subst (λ z. In z (q ∷ qs)) (sym k) (has_head q qs)
            | inr k ↦ has_tail x q qs (r.kept x k n)
          ];
        },
      )
]
  where
    still_out : (qs : List Name) → Rest p ps qs → has q qs ≡ false
    still_out qs r = elim (Bool-cases (has q qs)) [
      | inr f ↦ f
      | inl t ↦ absurd (cc (sym (r.old q t).0 ∙ out))
    ]
