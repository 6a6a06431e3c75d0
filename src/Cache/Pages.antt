-- ===== src/Cache/Pages.antt =====
-- The list `memory` of paging-policy_py/paging-policy.py: taking pages out and putting them in.
use os_tep.Prelude.{
  ℕ_discrete, ℕ, zero, suc, ◌+◌, ◌<◌, ◌≡◌, refl, sym, ap, ◌∙◌, ◌≢◌, true, false, ◌||◌, some, List,
  [], ◌∷◌, ◌++◌, arith, ◌==◌, length, get_elem?,
}
use os_tep.Prelude.Fault.{ok, Returns, Returns-bind}
use mathlib.Core.Path.{subst}
use os_tep.Cache.{contains, remove, pop}

abbrev pub IsDistinct : List ℕ → Type 0
IsDistinct [] = Unit
IsDistinct (m ∷ ms) = (contains m ms ≡ false) × IsDistinct ms

pub contains-append :
    (x n : ℕ) (ms : List ℕ) → contains x (ms ++ n ∷ []) ≡ (contains x ms || n == x)
unfolding contains
contains-append x n [] = ground arith
contains-append x n (m ∷ ms) = ground (arith, contains-append x n ms)

pub contains_self : (n : ℕ) (ms : List ℕ) → contains n (ms ++ n ∷ []) ≡ true
contains_self n ms = ground (arith, contains-append n n ms)

pub IsDistinct-append :
    (ms : List ℕ) (n : ℕ) → IsDistinct ms → contains n ms ≡ false → IsDistinct (ms ++ n ∷ [])
unfolding contains
IsDistinct-append [] n d h = (refl, tt)
IsDistinct-append (m ∷ ms) n d h =
    (ground (arith, contains-append m n ms, d.0), IsDistinct-append ms n d.1 (ground arith))

pub length-append : (ms : List ℕ) (n : ℕ) → length (ms ++ n ∷ []) ≡ length ms + 1
length-append [] n = refl
length-append (m ∷ ms) n = omega (arith, length-append ms n)

-- a list that has lost one page
pub record IsLess (v : ℕ) (ms rest : List ℕ) : Type 0 where
  pub shorter : length rest + 1 ≡ length ms
  pub was : contains v ms ≡ true
  pub gone : contains v rest ≡ false
  pub fewer : (x : ℕ) → contains x ms ≡ false → contains x rest ≡ false
  pub others : (x : ℕ) → x ≢ v → contains x ms ≡ true → contains x rest ≡ true
  pub distinct : IsDistinct rest

IsLess-head : (v : ℕ) (ms : List ℕ) → IsDistinct (v ∷ ms) → IsLess v (v ∷ ms) ms
unfolding contains
IsLess-head v ms d = record {
  shorter = omega arith;
  was = ground arith;
  gone = d.0;
  fewer = λ x h. ground arith;
  others = λ x ne h. ground arith;
  distinct = d.1;
}

IsLess-cons :
    (v m : ℕ) (ms rest : List ℕ)
    → contains m ms ≡ false
    → m ≢ v
    → IsLess v ms rest
    → IsLess v (m ∷ ms) (m ∷ rest)
unfolding contains
IsLess-cons v m ms rest d ne p = record {
  shorter = omega (arith, p.shorter);
  was = ground (arith, p.was);
  gone = ground (arith, p.gone);
  fewer = λ x h. ground (arith, p.fewer x);
  others = λ x k h. ground (arith, p.others x k);
  distinct = (p.fewer m d, p.distinct);
}

contains-differs : (v m : ℕ) (ms : List ℕ) → contains v ms ≡ true → contains m ms ≡ false → m ≢ v
contains-differs v m ms h d e = cc (sym h ∙ ap (λ x. contains x ms) (sym e) ∙ d)

pub contains-get_elem? : (ms : List ℕ) (i v : ℕ) → get_elem? ms i ≡ some v → contains v ms ≡ true
unfolding contains
contains-get_elem? [] i v e = cc
contains-get_elem? (m ∷ ms) zero v e = ground arith
contains-get_elem? (m ∷ ms) (suc i) v e = ground (arith, contains-get_elem? ms i v e)

pub remove-IsLess :
    (n : ℕ) (ms : List ℕ) → IsDistinct ms → contains n ms ≡ true → IsLess n ms (remove n ms)
unfolding remove contains
remove-IsLess n [] d h = absurd (cc h)
remove-IsLess n (m ∷ ms) d h = elim (ℕ_discrete m n) [
  | yes e ↦
      let t : m == n ≡ true = ground arith in
      rw t (subst (λ x. IsLess x (m ∷ ms) ms) e (IsLess-head m ms d))
  | no ne ↦
      let t : m == n ≡ false = ground arith in
      rw t (IsLess-cons n m ms (remove n ms) d.0 ne (remove-IsLess n ms d.1 (ground arith)))
]

abbrev pub IsPopped : ℕ → List ℕ → ℕ × List ℕ → Type 0
IsPopped i ms (v, rest) = (get_elem? ms i ≡ some v) × IsLess v ms rest

pub pop_lem :
    (i : ℕ) (ms : List ℕ) → IsDistinct ms → i < length ms → Returns (IsPopped i ms) (pop i ms)
unfolding pop
pop_lem i [] d h = absurd (omega arith)
pop_lem zero (m ∷ ms) d h = (refl, IsLess-head m ms d)
pop_lem (suc i) (m ∷ ms) d h =
    Returns-bind (IsPopped i ms) (IsPopped (suc i) (m ∷ ms)) (pop i ms)
      (λ (v, rest). ok (v, m ∷ rest)) (pop_lem i ms d.1 (omega arith))
      (λ (v, rest) p. (
        p.0,
        IsLess-cons v m ms rest d.0 (contains-differs v m ms (contains-get_elem? ms i v p.0) d.0)
            p.1,
      ))
