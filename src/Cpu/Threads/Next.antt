-- ===== src/Cpu/Threads/Next.antt =====
-- The round robin of x86/x86.py, `proclist.__next__`.
use os_tep.Prelude.{
  ℕ, suc, ◌+◌, ◌≤◌, ◌<◌, ◌≡◌, refl, sym, ap, ◌∙◌, ◌⊎◌, inl, inr, true, false, Option, none, some,
  List, [], ◌∷◌, arith, ℕ_discrete, dec_lt, get_elem?-drop, get_elem?-take, get_elem?_lt,
  length-drop, length-take, Bool-cases, length, get_elem?, take, drop,
}
use os_tep.Cpu.Threads.{Process, Procs, first_live, pick, next}

shift : (i k : ℕ) → i + 1 + k ≡ i + suc k
shift i k = omega arith

abbrev pub IsLive : List Process → ℕ → Type 0
IsLive ps i = (p : Process) × (get_elem? ps i ≡ some p) × (p.done ≡ false)

-- All processes of a range of indices are done.
abbrev pub DoneBetween : List Process → ℕ → ℕ → Type 0
DoneBetween ps lo hi =
    (j : ℕ) (p : Process) → lo ≤ j → j < hi → get_elem? ps j ≡ some p → p.done ≡ true

-- the two results of a search among the processes with the indices from `lo` to `hi`
abbrev FoundIn : List Process → ℕ → ℕ → Option ℕ → Type 0
FoundIn ps lo hi (some i) = (lo ≤ i) × (i < hi) × IsLive ps i × DoneBetween ps lo i
FoundIn ps lo hi none = DoneBetween ps lo hi

DoneBetween-cons :
    (all : List Process) (lo hi : ℕ) (q : Process)
    → get_elem? all lo ≡ some q
    → q.done ≡ true
    → DoneBetween all (lo + 1) hi
    → DoneBetween all lo hi
DoneBetween-cons all lo hi q row d h j p le lt e = elim (ℕ_discrete j lo) [
  | yes same ↦ ground arith
  | no ne ↦ h j p (omega arith) lt e
]

FoundIn-cons :
    (all : List Process) (lo hi : ℕ) (q : Process) (r : Option ℕ)
    → get_elem? all lo ≡ some q
    → q.done ≡ true
    → FoundIn all (lo + 1) hi r
    → FoundIn all lo hi r
FoundIn-cons all lo hi q none row d h = DoneBetween-cons all lo hi q row d h
FoundIn-cons all lo hi q (some i) row d h =
    (omega arith, h.1, h.2, DoneBetween-cons all lo i q row d h.3)

first_live-FoundIn :
    (all : List Process) (i hi : ℕ) (rest : List Process)
    → ((k : ℕ) → k < length rest → get_elem? all (i + k) ≡ get_elem? rest k)
    → i + length rest ≡ hi
    → FoundIn all i hi (first_live i rest)
unfolding first_live
first_live-FoundIn all i hi [] row e = λ j p lo lt. absurd (omega arith)
first_live-FoundIn all i hi (q ∷ rest) row e =
    let z : i + 0 ≡ i = omega arith in
    let here : get_elem? all i ≡ some q = ap (get_elem? all) (sym z) ∙ row 0 (omega arith) in
    elim (Bool-cases q.done) [
      | inl d ↦ rw d (
          FoundIn-cons all i hi q (first_live (i + 1) rest) here d (
            first_live-FoundIn all (i + 1) hi rest
              (λ k lt. ap (get_elem? all) (shift i k) ∙ row (suc k) (omega arith)) (omega arith)))
      | inr d ↦ rw d (omega arith, omega arith, (q, here, d), λ j p lo lt. absurd (omega arith))
    ]

-- What `__next__` promises: the processes stay, the chosen one is live, and all processes between
-- the old one and the chosen one, going round the list, are done.
abbrev pub IsNext : Procs → Procs → Type 0
IsNext ps qs =
    (qs.plist ≡ ps.plist)
    × (qs.active ≡ ps.active)
    × IsLive ps.plist qs.curr
    × (((ps.curr < qs.curr) × DoneBetween ps.plist (ps.curr + 1) qs.curr)
        ⊎ ((qs.curr ≤ ps.curr)
            × DoneBetween ps.plist (ps.curr + 1) (length ps.plist)
            × DoneBetween ps.plist 0 qs.curr))

module _ (ps : Procs) (j : ℕ) (live : IsLive ps.plist j) where
  pick-IsNext :
      (a b : Option ℕ)
      → FoundIn ps.plist (ps.curr + 1) (length ps.plist) a
      → FoundIn ps.plist 0 (ps.curr + 1) b
      → IsNext ps (pick a b ps)
  unfolding pick
  pick-IsNext (some i) b f g = (refl, refl, f.2, inl (omega arith, f.3))
  pick-IsNext none (some i) f g = (refl, refl, g.2, inr (omega arith, f, g.3))
  pick-IsNext none none f g = absurd (elim (dec_lt j (ps.curr + 1)) [
    | yes p ↦ dead (g j live.0 (omega arith) p live.1)
    | no p ↦ dead (f j live.0 (omega arith) (get_elem?_lt j ps.plist live.1) live.1)
  ])
    where
      dead : live.0.done ≡ true → ⊥
      dead d = absurd (cc (sym d ∙ live.2))

  -- If some process is not done and the current index is one of the list, `__next__` changes only the
  -- current index; it picks a process that is not done, and all processes between the old one and
  -- that one, going round the list, are done.
  pub next-IsNext : ps.curr < length ps.plist → IsNext ps (next ps)
  unfolding next
  next-IsNext lt =
      let c = ps.curr + 1 in
      pick-IsNext (first_live c (drop c ps.plist)) (first_live 0 (take c ps.plist))
        (first_live-FoundIn ps.plist c (length ps.plist) (drop c ps.plist)
          (λ k h. sym (get_elem?-drop c k ps.plist)) (omega (arith, length-drop c ps.plist)))
        (first_live-FoundIn ps.plist 0 c (take c ps.plist)
          (λ k h.
            let z : 0 + k ≡ k = omega arith in
            let le : k < c = omega (arith, length-take c ps.plist) in
            ap (get_elem? ps.plist) z ∙ sym (get_elem?-take c k ps.plist le))
          (omega (arith, length-take c ps.plist)))
