-- ===== src/Cache/Victim.antt =====
-- The victims of OPT and UNOPT in paging-policy_py/paging-policy.py.
use os_tep.Prelude.{
  get_elem?_lt, ℕ_discrete, ℕ, suc, ◌+◌, ◌≤◌, ◌<◌, ◌≡◌, refl, sym, ap, ◌∙◌, inl, inr, Bool, true,
  false, Option, none, some, List, [], ◌∷◌, arith, if◌then◌else◌, Bool-cases, length, get_elem?,
}
use os_tep.Prelude.Fault.{Returns, Returns-map}
use mathlib.Core.Path.{subst}
use os_tep.Cache.{
  opt, unopt, Cache, Candidate, farther, nearer, scan, pop, pop_candidate, next_use, evict,
}
use os_tep.Cache.Pages.{IsDistinct, IsLess, IsPopped, pop_lem}

-- What the scans need of their test: `Worse a b` says that `b` is at least as good as `a`.
record IsChoosy (better : Option Candidate → ℕ → Bool) (Worse : ℕ → ℕ → Type 0) : Type 0 where
  starts : (w : ℕ) → better none w ≡ true
  takes : (b : Candidate) (w : ℕ) → better (some b) w ≡ true → Worse b.1 w
  leaves : (b : Candidate) (w : ℕ) → better (some b) w ≡ false → Worse w b.1
  same : (w : ℕ) → Worse w w
  trans : (a b c : ℕ) → Worse a b → Worse b c → Worse a c

abbrev NotLater : ℕ → ℕ → Type 0
NotLater a b = a ≤ b

abbrev NotSooner : ℕ → ℕ → Type 0
NotSooner a b = b ≤ a

farther-IsChoosy : IsChoosy farther NotLater
unfolding farther
farther-IsChoosy = record {
  starts = λ w. refl;
  takes = λ b w h. ground arith;
  leaves = λ b w h. ground arith;
  same = λ w. omega arith;
  trans = λ a b c h k. omega arith;
}

nearer-IsChoosy : IsChoosy nearer NotSooner
unfolding nearer
nearer-IsChoosy = record {
  starts = λ w. refl;
  takes = λ b w h. ground arith;
  leaves = λ b w h. ground arith;
  same = λ w. omega arith;
  trans = λ a b c h k. omega arith;
}

module _ (better : Option Candidate → ℕ → Bool) (Worse : ℕ → ℕ → Type 0)
    (choosy : IsChoosy better Worse) (when : ℕ → ℕ) (all : List ℕ) where
  -- the best candidate among the first `k` pages
  record IsBest (k : ℕ) (b : Candidate) : Type 0 where
    below : b.0 < k
    page : (p : ℕ) × (get_elem? all b.0 ≡ some p) × (b.1 ≡ when p)
    best : (j p : ℕ) → j < k → get_elem? all j ≡ some p → Worse (when p) b.1

  abbrev Found : ℕ → Option Candidate → Type 0
  Found k none = k ≡ 0
  Found k (some b) = IsBest k b

  take-IsBest :
      (i p : ℕ)
      → get_elem? all i ≡ some p
      → ((j q : ℕ) → j < i → get_elem? all j ≡ some q → Worse (when q) (when p))
      → IsBest (i + 1) (i, when p)
  take-IsBest i p row h = record {
    below = omega arith;
    page = (p, row, refl);
    best = λ j q lt e. elim (ℕ_discrete j i) [
      | yes same ↦
          let e' : some p ≡ some q = sym row ∙ ap (get_elem? all) (sym same) ∙ e in
          subst (λ x. Worse (when x) (when p)) (some_same e') (choosy.same (when p))
      | no ne ↦ h j q (omega arith) e
    ];
  }
    where
      some_same : {x y : ℕ} → some x ≡ some y → x ≡ y
      some_same e = cc

  leave-IsBest :
      (i p : ℕ) (b : Candidate)
      → get_elem? all i ≡ some p
      → IsBest i b
      → Worse (when p) b.1
      → IsBest (i + 1) b
  leave-IsBest i p b row v w = record {
    below = omega (arith, v.below);
    page = v.page;
    best = λ j q lt e. elim (ℕ_discrete j i) [
      | yes same ↦
          let e' : some p ≡ some q = sym row ∙ ap (get_elem? all) (sym same) ∙ e in
          subst (λ x. Worse (when x) b.1) (some_same e') w
      | no ne ↦ v.best j q (omega arith) e
    ];
  }
    where
      some_same : {x y : ℕ} → some x ≡ some y → x ≡ y
      some_same e = cc

  scan-Found :
      (i : ℕ) (best : Option Candidate) (rest : List ℕ)
      → ((k : ℕ) → get_elem? all (i + k) ≡ get_elem? rest k)
      → Found i best
      → Found (i + length rest) (scan better when i best rest)
  unfolding scan
  scan-Found i best [] row f = let z : i ≡ i + 0 = omega arith in subst (λ k. Found k best) z f
  scan-Found i best (p ∷ ps) row f =
      let z : i + 1 + length ps ≡ i + suc (length ps) = omega arith in
      let z' : i ≡ i + 0 = omega arith in
      let here : get_elem? all i ≡ some p = ap (get_elem? all) z' ∙ row 0 in
      subst (λ k. Found k (scan better when i best (p ∷ ps))) z
        (scan-Found (i + 1) (if better best (when p) then some (i, when p) else best) ps
          (λ k. ap (get_elem? all) (shift i k) ∙ row (suc k)) (step i p best here f))
    where
      shift : (i k : ℕ) → i + 1 + k ≡ i + suc k
      shift i k = omega arith

      step :
          (i p : ℕ) (best : Option Candidate)
          → get_elem? all i ≡ some p
          → Found i best
          → Found (i + 1) (if better best (when p) then some (i, when p) else best)
      step i p none row f =
          rw (choosy.starts (when p)) (take-IsBest i p row (λ j q lt e. absurd (omega arith)))
      step i p (some b) row f = elim (Bool-cases (better (some b) (when p))) [
        | inl e ↦ rw e (
            take-IsBest i p row (λ j q lt h.
              choosy.trans (when q) b.1 (when p) (f.best j q lt h) (choosy.takes b (when p) e)))
        | inr e ↦ rw e (leave-IsBest i p b row f (choosy.leaves b (when p) e))
      ]

  -- the victim, and that no other page is better
  abbrev IsVictim : ℕ × List ℕ → Type 0
  IsVictim (v, rest) =
      IsLess v all rest × ((j q : ℕ) → get_elem? all j ≡ some q → Worse (when q) (when v))

  candidate_lem :
      (o : Option Candidate)
      → Found (length all) o
      → IsDistinct all
      → 0 < length all
      → Returns IsVictim (pop_candidate o all)
  unfolding pop_candidate
  candidate_lem none f d h = absurd (omega arith)
  candidate_lem (some b) f d h =
      Returns-map (IsPopped b.0 all) IsVictim (pop b.0 all) (pop_lem b.0 all d f.below)
        (λ (v, rest) p. (
          p.1,
          λ j q e.
              let same = f.page.2 ∙ ap when (some_same (sym f.page.1 ∙ p.0)) in
              subst (Worse (when q)) same (f.best j q (get_elem?_lt j all e) e),
        ))
    where
      some_same : {x y : ℕ} → some x ≡ some y → x ≡ y
      some_same e = cc

  victim_lem :
      IsDistinct all
      → 0 < length all
      → Returns IsVictim (pop_candidate (scan better when 0 none all) all)
  victim_lem d h =
      let z : 0 + length all ≡ length all = omega arith in
      candidate_lem (scan better when 0 none all)
        (subst (λ k. Found k (scan better when 0 none all)) z
          (scan-Found 0 none all (λ k. ap (get_elem? all) (omega arith)) refl))
        d h

-- OPT removes one page of a memory that is not empty and holds each page once; every page of the
-- memory is used again no later than that one.
pub opt_lem :
    (draw index : ℕ) (future : List ℕ) (c : Cache)
    → IsDistinct c.memory
    → 0 < length c.memory
    → Returns
        (λ (v, rest).
          IsLess v c.memory rest
          × ((j q : ℕ)
              → get_elem? c.memory j ≡ some q
              → next_use q index future ≤ next_use v index future))
        (evict opt draw index future c)
unfolding evict
opt_lem draw index future c d h =
    victim_lem farther NotLater farther-IsChoosy (λ p. next_use p index future) c.memory d h

-- UNOPT removes one page of a memory that is not empty and holds each page once; every page of the
-- memory is used again no sooner than that one.
pub unopt_lem :
    (draw index : ℕ) (future : List ℕ) (c : Cache)
    → IsDistinct c.memory
    → 0 < length c.memory
    → Returns
        (λ (v, rest).
          IsLess v c.memory rest
          × ((j q : ℕ)
              → get_elem? c.memory j ≡ some q
              → next_use v index future ≤ next_use q index future))
        (evict unopt draw index future c)
unfolding evict
unopt_lem draw index future c d h =
    victim_lem nearer NotSooner nearer-IsChoosy (λ p. next_use p index future) c.memory d h
