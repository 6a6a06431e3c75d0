-- ===== src/Fork/Extend.antt =====
-- The longer names that `grow_names` of cpu_api/fork.py makes.
use os_tep.Prelude.{
  ℕ, zero, suc, ◌+◌, ◌<◌, ◌≡◌, refl, sym, ap, ◌∙◌, ◌⊎◌, inl, inr, false, ◌||◌, some, List, [], ◌∷◌,
  ◌++◌, map, arith, Bool-cases, length, get_elem?,
}
use mathlib.Core.Path.{subst}
use os_tep.Fork.{Name, has, extend}
use os_tep.Fork.Lists.{In, In-empty, In-cons, has_head, has_tail, Apart}

abbrev pub AllLength : ℕ → List Name → Type 0
AllLength n ps = (p : Name) → In p ps → length p ≡ n

length-append : (p q : Name) → length (p ++ q) ≡ length p + length q
length-append [] q = omega arith
length-append (c ∷ p) q = omega (arith, length-append p q)

append_same : (p p' q q' : Name) → length p ≡ length p' → p ++ q ≡ p' ++ q' → (p ≡ p') × (q ≡ q')
append_same [] [] q q' l e = (refl, e)
append_same [] (d ∷ p') q q' l e = absurd (omega arith)
append_same (c ∷ p) [] q q' l e = absurd (omega arith)
append_same (c ∷ p) (d ∷ p') q q' l e =
    let (same, rest) = parts e in
    let (a, b) = append_same p p' q q' (omega arith) rest in
    (ap (λ x. x ∷ p) same ∙ ap (λ x. d ∷ x) a, b)
  where
    parts : {x y : ℕ} {xs ys : Name} → x ∷ xs ≡ y ∷ ys → (x ≡ y) × (xs ≡ ys)
    parts e = (cc, cc)

has-join : (x : Name) (ps qs : List Name) → has x (ps ++ qs) ≡ (has x ps || has x qs)
unfolding has
has-join x [] qs = refl
has-join x (p ∷ ps) qs = ground (arith, has-join x ps qs)

In-join : (x : Name) (ps qs : List Name) → In x (ps ++ qs) → In x ps ⊎ In x qs
In-join x ps qs h = elim (Bool-cases (has x ps)) [
  | inl t ↦ inl t
  | inr f ↦ inr (sym (has-join x ps qs ∙ ap (λ z. z || has x qs) f) ∙ h)
]

pub not_In : (x : Name) (ps : List Name) → (In x ps → ⊥) → has x ps ≡ false
not_In x ps h = elim (Bool-cases (has x ps)) [ inl t ↦ absurd (h t) | inr f ↦ f ]

Apart-join :
    (ps qs : List Name)
    → Apart ps
    → Apart qs
    → ((x : Name) → In x ps → In x qs → ⊥)
    → Apart (ps ++ qs)
Apart-join [] qs a b h = b
Apart-join (p ∷ ps) qs (out, a) b h = (
  not_In p (ps ++ qs)
      (λ i. elim (In-join p ps qs i) [ inl k ↦ cc (sym k ∙ out) | inr k ↦ h p (has_head p ps) k ]),
  Apart-join ps qs a b (λ x i k. h x (has_tail x p ps i) k),
)

In-map :
    (x b1 : Name) (base : List Name)
    → In x (map (λ b2. b1 ++ b2) base)
    → (b2 : Name) × In b2 base × (x ≡ b1 ++ b2)
In-map x b1 [] h = absurd (In-empty x h)
In-map x b1 (b ∷ base) h = elim (In-cons x (b1 ++ b) (map (λ b2. b1 ++ b2) base) h) [
  | inl e ↦ (b, has_head b base, e)
  | inr k ↦ let (b2, i, e) = In-map x b1 base k in (b2, has_tail b2 b base i, e)
]

Apart-map : (b1 : Name) (base : List Name) → Apart base → Apart (map (λ b2. b1 ++ b2) base)
Apart-map b1 [] a = tt
Apart-map b1 (b ∷ base) (out, a) = (
  not_In (b1 ++ b) (map (λ b2. b1 ++ b2) base) (λ i.
      let (b2, k, e) = In-map (b1 ++ b) b1 base i in
      let same = (append_same b1 b1 b b2 refl e).1 in
      cc (sym k ∙ ap (λ z. has z base) (sym same) ∙ out)),
  Apart-map b1 base a,
)

In-extend :
    (x : Name) (names base : List Name)
    → In x (extend names base)
    → (b1 b2 : Name) × In b1 names × In b2 base × (x ≡ b1 ++ b2)
unfolding extend
In-extend x [] base h = absurd (In-empty x h)
In-extend x (b1 ∷ names) base h =
    elim (In-join x (map (λ b2. b1 ++ b2) base) (extend names base) h) [
      | inl k ↦ let (b2, i, e) = In-map x b1 base k in (b1, b2, has_head b1 names, i, e)
      | inr k ↦
          let (b, b2, i, j, e) = In-extend x names base k in (b, b2, has_tail b b1 names i, j, e)
    ]

pub Apart-extend :
    (n : ℕ) (names base : List Name)
    → Apart names
    → AllLength n names
    → Apart base
    → Apart (extend names base)
unfolding extend
Apart-extend n [] base a l b = tt
Apart-extend n (b1 ∷ names) base (out, a) l b =
    Apart-join (map (λ b2. b1 ++ b2) base) (extend names base) (Apart-map b1 base b)
      (Apart-extend n names base a (λ p i. l p (has_tail p b1 names i)) b)
      (λ x i k.
        let (b2, j, e) = In-map x b1 base i in
        let (c1, c2, j', k', e') = In-extend x names base k in
        let len = l b1 (has_head b1 names) ∙ sym (l c1 (has_tail c1 b1 names j')) in
        let same = (append_same b1 c1 b2 c2 len (sym e ∙ e')).0 in
        cc (sym j' ∙ ap (λ z. has z names) (sym same) ∙ out))

pub some_extend :
    (names base : List Name) → 0 < length names → 0 < length base → 0 < length (extend names base)
unfolding extend
some_extend [] base h k = absurd (omega arith)
some_extend (b1 ∷ names) [] h k = absurd (omega arith)
some_extend (b1 ∷ names) (b ∷ base) h k = omega arith

pub AllLength-extend :
    (n : ℕ) (names base : List Name)
    → AllLength n names
    → AllLength 1 base
    → AllLength (n + 1) (extend names base)
AllLength-extend n names base l b x i =
    let (b1, b2, j, k, e) = In-extend x names base i in
    ap (λ (z : Name). length z) e ∙ omega (arith, length-append b1 b2, l b1 j, b b2 k)

pub In-index : (ps : List Name) (i : ℕ) (p : Name) → get_elem? ps i ≡ some p → In p ps
In-index [] i p e = cc
In-index (q ∷ ps) zero p e = subst (λ z. In z (q ∷ ps)) (same_some e) (has_head q ps)
  where
    same_some : some q ≡ some p → q ≡ p
    same_some e = cc
In-index (q ∷ ps) (suc i) p e = has_tail p q ps (In-index ps i p e)

pub Apart-index :
    (ps : List Name) (i j : ℕ) (p : Name)
    → Apart ps
    → get_elem? ps i ≡ some p
    → get_elem? ps j ≡ some p
    → i ≡ j
Apart-index [] i j p a e f = cc
Apart-index (q ∷ ps) zero zero p a e f = refl
Apart-index (q ∷ ps) zero (suc j) p (out, a) e f = absurd (twice (same_some e))
  where
    same_some : some q ≡ some p → q ≡ p
    same_some e = cc

    twice : q ≡ p → ⊥
    twice s = cc (sym (In-index ps j p f) ∙ ap (λ z. has z ps) (sym s) ∙ out)
Apart-index (q ∷ ps) (suc i) zero p (out, a) e f = absurd (twice (same_some f))
  where
    same_some : some q ≡ some p → q ≡ p
    same_some e = cc

    twice : q ≡ p → ⊥
    twice s = cc (sym (In-index ps i p e) ∙ ap (λ z. has z ps) (sym s) ∙ out)
Apart-index (q ∷ ps) (suc i) (suc j) p (out, a) e f = ap suc (Apart-index ps i j p a e f)
