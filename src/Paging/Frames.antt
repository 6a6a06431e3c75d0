-- ===== src/Paging/Frames.antt =====
-- The page table of paging-linear-translate_py/paging-linear-translate.py, its frames, and the
-- translation through it.
use os_tep.Prelude.{
  ℕ, zero, suc, ◌+◌, ◌*◌, ◌/◌, ◌%◌, ◌<◌, ◌≡◌, refl, sym, ap, ◌∙◌, ◌⊎◌, inl, inr, Bool, true, false,
  Option, none, some, List, [], ◌∷◌, ◌++◌, arith, Bool-cases, length, get_elem?,
}
use native.Mathlib.Nat.{mod-lt, div-add-mod', mod-eq_of_lt}
use os_tep.Prelude.Fault.{index_error, ok, raise}
use os_tep.Prelude.Division.{quotient_lem, remainder_lem}
use mathlib.Core.Path.{subst}
use os_tep.Paging.{Table, no_pages, take_frame, leave_out, build, translate}

abbrev pub Entry : List (Option ℕ) → ℕ → ℕ → Type 0
Entry pt v u = get_elem? pt v ≡ some (some u)

-- An entry is one of the old ones or the new one.
Entry-append :
    (pt : List (Option ℕ)) (e : Option ℕ) (v u : ℕ)
    → Entry (pt ++ e ∷ []) v u
    → Entry pt v u ⊎ ((v ≡ length pt) × (e ≡ some u))
Entry-append [] e zero u h = inr (refl, ground arith)
Entry-append [] e (suc v) u h = cc
Entry-append (p ∷ pt) e zero u h = inl h
Entry-append (p ∷ pt) e (suc v) u h = elim (Entry-append pt e v u h) [
  | inl k ↦ inl k
  | inr (k, m) ↦ inr (ap suc k, m)
]

length-append : (pt : List (Option ℕ)) (e : Option ℕ) → length (pt ++ e ∷ []) ≡ length pt + 1
length-append [] e = refl
length-append (p ∷ pt) e = omega (arith, length-append pt e)

length-take_frame : (u : ℕ) (t : Table) → length (take_frame u t).pt ≡ length t.pt + 1
unfolding take_frame
length-take_frame u t = length-append t.pt (some u)

length-leave_out : (t : Table) → length (leave_out t).pt ≡ length t.pt + 1
unfolding leave_out
length-leave_out t = length-append t.pt none

-- The frames of the entries are marked as used, and no frame stands in two entries.
pub record IsTable (t : Table) : Type 0 where
  pub marked : (v u : ℕ) → Entry t.pt v u → t.used u ≡ true
  pub alone : (v w u : ℕ) → Entry t.pt v u → Entry t.pt w u → v ≡ w

take_frame-IsTable : (u : ℕ) (t : Table) → t.used u ≡ false → IsTable t → IsTable (take_frame u t)
unfolding take_frame
take_frame-IsTable u t free i = record {
  marked = λ v w h. elim (Entry-append t.pt (some u) v w h) [
    | inl k ↦ ground (arith, i.marked v w k)
    | inr (k, m) ↦ ground arith
  ];
  alone =
      λ v w x h k. both v w x (Entry-append t.pt (some u) v x h) (Entry-append t.pt (some u) w x k);
}
  where
    both :
        (v w x : ℕ)
        → Entry t.pt v x ⊎ ((v ≡ length t.pt) × (some u ≡ some x))
        → Entry t.pt w x ⊎ ((w ≡ length t.pt) × (some u ≡ some x))
        → v ≡ w
    both v w x (inl a) (inl b) = i.alone v w x a b
    both v w x (inr a) (inr b) = a.0 ∙ sym b.0
    both v w x (inl a) (inr b) = absurd (ground (arith, i.marked v x a, free))
    both v w x (inr a) (inl b) = absurd (ground (arith, i.marked w x b, free))

leave_out-IsTable : (t : Table) → IsTable t → IsTable (leave_out t)
unfolding leave_out
leave_out-IsTable t i = record {
  marked =
      λ v w h. elim (Entry-append t.pt none v w h) [ inl k ↦ i.marked v w k | inr (k, m) ↦ cc ];
  alone = λ v w x h k. elim (Entry-append t.pt none v x h) [
    | inl a ↦ elim (Entry-append t.pt none w x k) [ inl b ↦ i.alone v w x a b | inr (b, m) ↦ cc ]
    | inr (a, m) ↦ cc
  ];
}

no_pages-IsTable : IsTable no_pages
no_pages-IsTable = record { marked = λ v u h. cc; alone = λ v w u h k. cc }

build-IsTable :
    (draws : List (Bool × ℕ)) (vpages : ℕ) (t t' : Table)
    → IsTable t
    → build draws vpages t ≡ some t'
    → IsTable t' × (length t'.pt ≡ length t.pt + vpages)
unfolding build
build-IsTable draws zero t t' i e = built t t' i e
  where
    built :
        (t t' : Table)
        → IsTable t
        → some t ≡ some t'
        → IsTable t' × (length t'.pt ≡ length t.pt + 0)
    built t t' i e =
        let same : t ≡ t' = cc in
        (subst IsTable same i, omega (arith, ap (λ (s : Table). length s.pt) same))
build-IsTable [] (suc vpages) t t' i e = cc
build-IsTable ((false, u) ∷ draws) (suc vpages) t t' i e =
    let (j, len) = build-IsTable draws vpages (leave_out t) t' (leave_out-IsTable t i) e in
    (j, omega (arith, len, length-leave_out t))
build-IsTable ((true, u) ∷ draws) (suc vpages) t t' i e = elim (Bool-cases (t.used u)) [
  | inl b ↦ build-IsTable draws (suc vpages) t t' i (rw b at e)
  | inr b ↦
      let (j, len) =
        build-IsTable draws vpages (take_frame u t) t' (take_frame-IsTable u t b i) (rw b at e) in
      (j, omega (arith, len, length-take_frame u t))
]

translate-Entry :
    (pagesize : ℕ) (t : Table) (v p : ℕ)
    → translate pagesize t v ≡ ok (some p)
    → (pfn : ℕ) × Entry t.pt (v % 4294967296 / pagesize) pfn × (p ≡ pfn * pagesize + v % pagesize)
unfolding translate
translate-Entry pagesize t v p e = by_entry (get_elem? t.pt (v % 4294967296 / pagesize)) refl e
  where
    by_entry :
        (o : Option (Option ℕ))
        → get_elem? t.pt (v % 4294967296 / pagesize) ≡ o
        → (elim o [
          | none ↦ raise index_error
          | some none ↦ ok none
          | some (some pfn) ↦ ok (some (pfn * pagesize + v % pagesize))
        ])
          ≡ ok (some p)
        → (pfn : ℕ) × Entry t.pt (v % 4294967296 / pagesize) pfn
          × (p ≡ pfn * pagesize + v % pagesize)
    by_entry none g h = cc
    by_entry (some none) g h = cc
    by_entry (some (some pfn)) g h = (pfn, g, ground arith)

-- Through a page table that the program has built, no two 32-bit addresses translate to the same
-- physical address, for a page size that is positive.
pub translate_alone :
    (draws : List (Bool × ℕ)) (vpages pagesize : ℕ) (t : Table) (v w p : ℕ)
    → 0 < pagesize
    → build draws vpages no_pages ≡ some t
    → v < 4294967296
    → w < 4294967296
    → translate pagesize t v ≡ ok (some p)
    → translate pagesize t w ≡ ok (some p)
    → v ≡ w
translate_alone draws vpages pagesize t v w p pos built small small' e f =
    let (table, len) = build-IsTable draws vpages no_pages t no_pages-IsTable built in
    let (a, entry, q) = translate-Entry pagesize t v p e in
    let (b, entry', q') = translate-Entry pagesize t w p f in
    let frame = λ (c x : ℕ) (k : p ≡ c * pagesize + x % pagesize).
      ap (λ n. n / pagesize) k ∙ quotient_lem c pagesize (x % pagesize) (mod-lt x pos) in
    let offset = λ (c x : ℕ) (k : p ≡ c * pagesize + x % pagesize).
      ap (λ n. n % pagesize) k ∙ remainder_lem c pagesize (x % pagesize) (mod-lt x pos) in
    let frames : b ≡ a = sym (frame b w q') ∙ frame a v q in
    let pages =
      table.alone (v % 4294967296 / pagesize) (w % 4294967296 / pagesize) a entry
        (subst (Entry t.pt (w % 4294967296 / pagesize)) frames entry') in
    let vpn : v / pagesize ≡ w / pagesize =
      ap (λ n. n / pagesize) (sym (mod-eq_of_lt small))
      ∙ pages
      ∙ ap (λ n. n / pagesize) (mod-eq_of_lt small') in
    let rem : v % pagesize ≡ w % pagesize = sym (offset a v q) ∙ offset b w q' in
    sym (div-add-mod' v pagesize)
    ∙ ap (λ n. n * pagesize + v % pagesize) vpn
    ∙ ap (λ r. w / pagesize * pagesize + r) rem
    ∙ div-add-mod' w pagesize
