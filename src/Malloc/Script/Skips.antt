-- ===== src/Malloc/Script/Skips.antt =====
-- The test `index >= len(p)` of the main program of malloc_py/malloc.py, after allocations that failed.
use os_tep.Prelude.{
  suc, true, false, false, true, ℕ, ◌+◌, ◌≡◌, ◌∙◌, refl, sym, ap, Bool, Bool-cases, Option-cases,
  inl, inr, arith, List, [], ◌∷◌, ◌++◌, ◌==◌, ltb, leb, length, Option, none, some, if◌then◌else◌,
}
use os_tep.Prelude.Fault.{key_error, Result, ok, raise, ◌>>=◌}
use os_tep.Malloc.{Heap, lookup, malloc, free}
use os_tep.Malloc.Script.{Op, alloc, release, Session, step, run}

-- an allocation without a block
abbrev fails : Result (Heap × Option ℕ × ℕ) → ℕ
fails (ok (h, none, count)) = 1
fails (ok (h, some a, count)) = 0
fails (raise e) = 0

abbrev op_fails : Op → Session → ℕ
op_fails (alloc n) s = fails (malloc n s.heap)
op_fails (release i) s = 0

abbrev then_fails : (Session → ℕ) → Result Session → ℕ
then_fails f (ok t) = f t
then_fails f (raise e) = 0

-- how many allocations of a script fail
abbrev pub num_failed : List Op → Session → ℕ
num_failed [] s = 0
num_failed (op ∷ ops) s = op_fails op s + then_fails (num_failed ops) (step op s)

-- the start of a script: no allocation yet
abbrev pub begin : Heap → Session
begin h = record { heap = h; p = []; c = 0 }

same_ok : {s t : Session} → ok s ≡ ok t → s ≡ t
same_ok e = cc

-- Each allocation is numbered, and each that succeeds is in the dictionary.
abbrev Counts : ℕ → Session → Session → Type 0
Counts failed s t = t.c + length s.p ≡ s.c + length t.p + failed

Counts-step : (op : Op) (s t : Session) → step op s ≡ ok t → Counts (op_fails op s) s t
unfolding step
Counts-step (alloc n) s t e = after (malloc n s.heap) e
  where
    after :
        (r : Result (Heap × Option ℕ × ℕ))
        → (r >>= λ (h, ptr, cnt). ok (record {
          heap = h;
          p = elim ptr [ none ↦ s.p | some a ↦ (s.c, a) ∷ s.p ];
          c = s.c + 1;
        }))
          ≡ ok t
        → Counts (fails r) s t
    after (ok (h, none, count)) q =
        let u = same_ok q in
        omega (arith, ap (λ (z : Session). z.c) u, ap (λ (z : Session). length z.p) u)
    after (ok (h, some a, count)) q =
        let u = same_ok q in
        omega (arith, ap (λ (z : Session). z.c) u, ap (λ (z : Session). length z.p) u)
    after (raise x) q = absurd (cc q)
Counts-step (release i) s t e = elim (Bool-cases (leb (length s.p) i)) [
  | inl h ↦ same (sym (rw h refl) ∙ e)
  | inr h ↦ elim (Option-cases (lookup i s.p)) [
    | inl q ↦ absurd (differ (sym (rw (h, q) refl) ∙ e))
    | inr (a, q) ↦ freed a (sym (rw (h, q) refl) ∙ e)
  ]
]
  where
    same : ok s ≡ ok t → Counts 0 s t
    same q =
        let u = same_ok q in
        omega (arith, ap (λ (z : Session). z.c) u, ap (λ (z : Session). length z.p) u)

    freed : (a : ℕ) → ok (record s { heap = (free a s.heap).0 }) ≡ ok t → Counts 0 s t
    freed a q =
        let u = same_ok q in
        omega (arith, ap (λ (z : Session). z.c) u, ap (λ (z : Session). length z.p) u)

    differ : raise key_error ≡ ok t → ⊥
    differ q = cc

Counts-run : (ops : List Op) (s t : Session) → run ops s ≡ ok t → Counts (num_failed ops s) s t
unfolding run
Counts-run [] s t e =
    let u = same_ok e in
    omega (arith, ap (λ (z : Session). z.c) u, ap (λ (z : Session). length z.p) u)
Counts-run (op ∷ ops) s t e = after (λ u. Counts-run ops u t) (step op s) refl e
  where
    after :
        ((u : Session) → run ops u ≡ ok t → Counts (num_failed ops u) u t)
        → (r : Result Session) → step op s ≡ r
        → (r >>= run ops) ≡ ok t
        → Counts (op_fails op s + then_fails (num_failed ops) r) s t
    after rest (ok u) q f = omega (arith, Counts-step op s u q, rest u f)
    after rest (raise x) q f = absurd (cc f)

run-append : (ops rest : List Op) (s : Session) → run (ops ++ rest) s ≡ (run ops s >>= run rest)
unfolding run
run-append [] rest s = refl
run-append (op ∷ ops) rest s = after (λ t. run-append ops rest t) (step op s)
  where
    after :
        ((t : Session) → run (ops ++ rest) t ≡ (run ops t >>= run rest))
        → (r : Result Session) → (r >>= run (ops ++ rest)) ≡ (r >>= run ops >>= run rest)
    after same (ok t) = same t
    after same (raise e) = refl

-- the session after an allocation
abbrev allocated : Heap → ℕ → Session → Session
allocated h a s = record { heap = h; p = (s.c, a) ∷ s.p; c = s.c + 1 }

run_two :
    (n a count : ℕ) (h : Heap) (s : Session)
    → malloc n s.heap ≡ ok (h, some a, count)
    → run (alloc n ∷ release s.c ∷ []) s ≡ (
        if leb (suc (length s.p)) s.c
        then ok (allocated h a s)
        else ok (record (allocated h a s) { heap = (free a h).0 }))
unfolding run step lookup
run_two n a count h s e =
    let t : s.c == s.c ≡ true = ground arith in rw (e, t) (by_test (leb (suc (length s.p)) s.c))
  where
    by_test :
        (b : Bool)
        → ((if b
              then ok (allocated h a s)
              else ok (record (allocated h a s) { heap = (free a h).0 }))
            >>= λ x. ok x)
          ≡ (if b
              then ok (allocated h a s)
              else ok (record (allocated h a s) { heap = (free a h).0 }))
    by_test true = refl
    by_test false = refl

-- After any script without an exception, from a dictionary that is empty, let an allocation succeed.
-- If some allocation of the script has failed, the release of the new block is skipped as invalid, and
-- the block stays allocated; if none has failed, the block is freed.
pub run_skips_release :
    (ops : List Op) (h h' : Heap) (s : Session) (n a count : ℕ)
    → run ops (begin h) ≡ ok s
    → malloc n s.heap ≡ ok (h', some a, count)
    → run (ops ++ alloc n ∷ release s.c ∷ []) (begin h)
      ≡ ok (record {
        heap = if ltb 0 (num_failed ops (begin h)) then h' else (free a h').0;
        p = (s.c, a) ∷ s.p;
        c = s.c + 1;
      })
run_skips_release ops h h' s n a count e f =
    let counts = Counts-run ops (begin h) s e in
    run-append ops (alloc n ∷ release s.c ∷ []) (begin h)
    ∙ ap (λ m. m >>= run (alloc n ∷ release s.c ∷ [])) e
    ∙ run_two n a count h' s f
    ∙ elim (Bool-cases (ltb 0 (num_failed ops (begin h)))) [
      | inl t ↦ let u : leb (suc (length s.p)) s.c ≡ true = ground (arith, counts) in rw (t, u) refl
      | inr t ↦
          let u : leb (suc (length s.p)) s.c ≡ false = ground (arith, counts) in rw (t, u) refl
    ]
