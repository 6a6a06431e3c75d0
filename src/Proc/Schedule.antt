-- ===== src/Proc/Schedule.antt =====
-- The choice of the next process in process_py/process-run.py, and what holds of the states of the
-- processes between two steps of the loop.
use os_tep.Prelude.{
  dec_lt, get_elem?-take, length-take, get_elem?_lt, get_elem?-drop, get_elem?-lt, ℕ, zero, suc,
  ◌+◌, ◌-◌, ◌<◌, ◌≡◌, refl, sym, ap, ◌∙◌, ◌≢◌, ◌⊎◌, inl, inr, true, false, ◌&&◌, Option, none, some,
  List, [], ◌∷◌, arith, if◌then◌else◌, Bool-cases, length, get_elem?, take, drop,
}
use os_tep.Prelude.Fault.{ok, ◌>>=◌, Returns, Returns-map}
use mathlib.Core.Path.{subst}
use os_tep.Proc.{
  Action, State, running, ready, finished, waiting, SwitchOn, on_end, Process, Scheduler, is,
  is_nil, move, run_proc, choose, next_proc, first_ready, check_if_done,
}
use os_tep.Proc.Recolor.{
  At, recolor, length-recolor, At-recolor, recolor_self, same_process, get_proc_lem, is_iff,
  move_lem, run_proc_lem, NoReady, first_ready-some, first_ready-none,
}

-- A process that is done has no instruction left.
abbrev pub Emptied : List Process → Type 0
Emptied ps = (i : ℕ) (p : Process) → At ps i p → p.state ≡ finished → p.code ≡ []

pub Emptied-recolor :
    (ps : List Process) (i : ℕ) (st : State)
    → Emptied ps
    → (st ≡ finished → (p : Process) → At ps i p → p.code ≡ [])
    → Emptied (recolor i st ps)
Emptied-recolor ps i st h k j q e f = elim (At-recolor i st ps j q e) [
  | inl (same, x, g, m) ↦
      ap (λ (z : Process). z.code) m ∙ k (sym (ap (λ (z : Process). z.state) m) ∙ f) x g
  | inr (ne, g) ↦ h j q g f
]

-- No process runs but the current one. If that does not run, no process is ready, except that with
-- SWITCH_ON_END all wait for the I/O of the current one; there only the current one ever waits.
pub record IsScheduled (sw : SwitchOn) (s : Scheduler) : Type 0 where
  pub in_range : s.curr < length s.procs
  pub alone : (i : ℕ) (p : Process) → At s.procs i p → p.state ≡ running → i ≡ s.curr
  pub busy :
      (p : Process)
      → At s.procs s.curr p
      → (p.state ≡ running) ⊎ NoReady s.procs ⊎ ((sw ≡ on_end) × (p.state ≡ waiting))
  pub blocked :
      sw ≡ on_end → (i : ℕ) (p : Process) → At s.procs i p → p.state ≡ waiting → i ≡ s.curr
  pub spent : Emptied s.procs

-- A process keeps its code and its I/O; it neither starts nor ends waiting, and is not restarted.
pub record IsSimilar (p q : Process) : Type 0 where
  pub code : q.code ≡ p.code
  pub times : q.finish_times ≡ p.finish_times
  pub waits : p.state ≡ waiting → q.state ≡ waiting
  pub waited : q.state ≡ waiting → p.state ≡ waiting
  pub over : p.state ≡ finished → q.state ≡ finished

abbrev pub AreSimilar : List Process → List Process → Type 0
AreSimilar [] [] = Unit
AreSimilar [] (q ∷ qs) = ⊥
AreSimilar (p ∷ ps) [] = ⊥
AreSimilar (p ∷ ps) (q ∷ qs) = IsSimilar p q × AreSimilar ps qs

IsSimilar-refl : (p : Process) → IsSimilar p p
IsSimilar-refl p = record {
  code = refl;
  times = refl;
  waits = λ h. h;
  waited = λ h. h;
  over = λ h. h;
}

pub AreSimilar-refl : (ps : List Process) → AreSimilar ps ps
AreSimilar-refl [] = tt
AreSimilar-refl (p ∷ ps) = (IsSimilar-refl p, AreSimilar-refl ps)

pub AreSimilar-trans :
    (ps qs rs : List Process) → AreSimilar ps qs → AreSimilar qs rs → AreSimilar ps rs
AreSimilar-trans [] [] rs a b = b
AreSimilar-trans [] (q ∷ qs) rs a b = absurd a
AreSimilar-trans (p ∷ ps) [] rs a b = absurd a
AreSimilar-trans (p ∷ ps) (q ∷ qs) [] a b = absurd b
AreSimilar-trans (p ∷ ps) (q ∷ qs) (r ∷ rs) a b = (
  record {
    code = b.0.code ∙ a.0.code;
    times = b.0.times ∙ a.0.times;
    waits = λ h. b.0.waits (a.0.waits h);
    waited = λ h. a.0.waited (b.0.waited h);
    over = λ h. b.0.over (a.0.over h);
  },
  AreSimilar-trans ps qs rs a.1 b.1,
)

pub AreSimilar-recolor :
    (i : ℕ) (st : State) (ps : List Process) (p : Process)
    → At ps i p
    → p.state ≢ waiting
    → p.state ≢ finished
    → st ≢ waiting
    → AreSimilar ps (recolor i st ps)
AreSimilar-recolor i st [] p e a b c = tt
AreSimilar-recolor zero st (q ∷ ps) p e a b c = (
  record {
    code = refl;
    times = refl;
    waits = λ h. ground arith;
    waited = λ h. ground arith;
    over = λ h. ground arith;
  },
  AreSimilar-refl ps,
)
AreSimilar-recolor (suc i) st (q ∷ ps) p e a b c =
    (IsSimilar-refl q, AreSimilar-recolor i st ps p e a b c)

pub AreSimilar-At :
    (ps qs : List Process) (i : ℕ) (p : Process)
    → AreSimilar ps qs
    → At ps i p
    → (q : Process) × At qs i q × IsSimilar p q
AreSimilar-At [] [] i p a e = cc
AreSimilar-At [] (q ∷ qs) i p a e = cc
AreSimilar-At (x ∷ ps) [] i p a e = absurd a
AreSimilar-At (x ∷ ps) (q ∷ qs) zero p a e =
    (q, refl, subst (λ y. IsSimilar y q) (same_process (x ∷ ps) 0 refl e) a.0)
AreSimilar-At (x ∷ ps) (q ∷ qs) (suc i) p a e = AreSimilar-At ps qs i p a.1 e

pub not_both : {st a b : State} → st ≡ a → st ≡ b → is a b ≡ false → ⊥
not_both e f h = ground arith

-- a ready process is made to run, and no other one runs
pub IsScheduled-running :
    (sw : SwitchOn) (ps : List Process) (i : ℕ) (p : Process)
    → At ps i p
    → Emptied ps
    → ((j : ℕ) (q : Process) → j ≢ i → At ps j q → q.state ≢ running)
    → (sw ≡ on_end → (j : ℕ) (q : Process) → j ≢ i → At ps j q → q.state ≢ waiting)
    → IsScheduled sw (record { procs = recolor i running ps; curr = i })
IsScheduled-running sw ps i p e out still quiet = record {
  in_range = omega (arith, length-recolor i running ps, get_elem?_lt i ps e);
  alone = λ j q f h. elim (At-recolor i running ps j q f) [
    | inl (k, x, g, m) ↦ k
    | inr (k, g) ↦ absurd (still j q k g h)
  ];
  busy = λ q f. inl (elim (At-recolor i running ps i q f) [
    | inl (k, x, g, m) ↦ ap (λ (z : Process). z.state) m
    | inr (k, g) ↦ absurd (k refl)
  ]);
  blocked = λ end j q f h. elim (At-recolor i running ps j q f) [
    | inl (k, x, g, m) ↦ k
    | inr (k, g) ↦ absurd (quiet end j q k g h)
  ];
  spent = Emptied-recolor ps i running out (λ k. absurd (not_both refl k refl));
}

-- what a step of the scheduler gives
abbrev pub Settles : SwitchOn → List Process → Scheduler → Type 0
Settles sw ps s = IsScheduled sw s × AreSimilar ps s.procs

abbrev pub NoneRuns : List Process → Type 0
NoneRuns ps = (i : ℕ) (p : Process) → At ps i p → p.state ≢ running

pub run_proc-Settles :
    (sw : SwitchOn) (s : Scheduler) (i : ℕ) (p : Process)
    → At s.procs i p
    → p.state ≡ ready
    → Emptied s.procs
    → ((j : ℕ) (q : Process) → j ≢ i → At s.procs j q → q.state ≢ running)
    → (sw ≡ on_end → (j : ℕ) (q : Process) → j ≢ i → At s.procs j q → q.state ≢ waiting)
    → Returns (Settles sw s.procs) (run_proc i s)
run_proc-Settles sw s i p e h out still quiet = rw (run_proc_lem i s p e h) (
  IsScheduled-running sw s.procs i p e out still quiet,
  AreSimilar-recolor i running s.procs p e (λ k. not_both h k refl) (λ k. not_both h k refl)
      (λ k. not_both refl k refl),
)

module _ (sw : SwitchOn) (s : Scheduler) (lt : s.curr < length s.procs)
    (none_runs : NoneRuns s.procs)
    (none_waits : sw ≡ on_end → (i : ℕ) (p : Process) → At s.procs i p → p.state ≢ waiting)
    (out : Emptied s.procs) where
  choose-Settles :
      (a b : Option ℕ)
      → first_ready (s.curr + 1) (drop (s.curr + 1) s.procs) ≡ a
      → first_ready 0 (take (s.curr + 1) s.procs) ≡ b
      → Returns (Settles sw s.procs) (choose a b s)
  unfolding choose
  choose-Settles (some i) b e f =
      let (k, p, j, at, r) = first_ready-some (s.curr + 1) i (drop (s.curr + 1) s.procs) e in
      let here = ap (get_elem? s.procs) j ∙ sym (get_elem?-drop (s.curr + 1) k s.procs) ∙ at in
      run_proc-Settles sw s i p here r out (λ x q ne. none_runs x q)
        (λ end x q ne. none_waits end x q)
  choose-Settles none (some i) e f =
      let (k, p, j, at, r) = first_ready-some 0 i (take (s.curr + 1) s.procs) f in
      let lt' = get_elem?_lt k (take (s.curr + 1) s.procs) at in
      let below : k < s.curr + 1 = omega (arith, length-take (s.curr + 1) s.procs) in
      let same : i ≡ k = omega arith in
      let here =
        ap (get_elem? s.procs) same ∙ sym (get_elem?-take (s.curr + 1) k s.procs below) ∙ at in
      run_proc-Settles sw s i p here r out (λ x q ne. none_runs x q)
        (λ end x q ne. none_waits end x q)
  choose-Settles none none e f = (
    record {
      in_range = lt;
      alone = λ i p at h. absurd (none_runs i p at h);
      busy = λ p at. inr (inl no_ready);
      blocked = λ end i p at h. absurd (none_waits end i p at h);
      spent = out;
    },
    AreSimilar-refl s.procs,
  )
    where
      no_ready : NoReady s.procs
      no_ready i p at = elim (dec_lt i (s.curr + 1)) [
        | yes h ↦
            first_ready-none 0 (take (s.curr + 1) s.procs) f i p
              (get_elem?-take (s.curr + 1) i s.procs h ∙ at)
        | no h ↦
            let z : s.curr + 1 + (i - (s.curr + 1)) ≡ i = omega arith in
            first_ready-none (s.curr + 1) (drop (s.curr + 1) s.procs) e (i - (s.curr + 1)) p (
              get_elem?-drop (s.curr + 1) (i - (s.curr + 1)) s.procs
              ∙ ap (get_elem? s.procs) z
              ∙ at)
      ]

  pub next_proc-Settles : Returns (Settles sw s.procs) (next_proc s)
  unfolding next_proc
  next_proc-Settles = choose-Settles _ _ refl refl

-- What `check_if_done` gives: a process that ran and has no instruction left is done.
abbrev pub Checks : SwitchOn → Scheduler → Scheduler → Type 0
Checks sw s s' =
    Settles sw s.procs s'
    × ((p : Process)
        → At s.procs s.curr p
        → p.state ≡ running
        → p.code ≡ []
        → (q : Process) × At s'.procs s.curr q × (q.state ≡ finished))

is_nil_lem : (code : List Action) → is_nil code ≡ true → code ≡ []
is_nil_lem [] h = refl
is_nil_lem (a ∷ code) h = ground arith

check_if_done_lem :
    (s : Scheduler) (p : Process)
    → At s.procs s.curr p
    → check_if_done s ≡ (
        if is_nil p.code && is p.state running
        then move running finished s.curr s >>= next_proc
        else ok s)
unfolding check_if_done
check_if_done_lem s p e = rw (get_proc_lem s.curr s p e) refl

pub check_if_done-Checks :
    (sw : SwitchOn) (s : Scheduler) → IsScheduled sw s → Returns (Checks sw s) (check_if_done s)
check_if_done-Checks sw s v =
    let (p, e) = get_elem?-lt s.curr s.procs v.in_range in
    elim (Bool-cases (is_nil p.code && is p.state running)) [
      | inl h ↦
          rw (check_if_done_lem s p e, h)
            (ending p e ((is_iff p.state running).0 (ground arith))
              (is_nil_lem p.code (ground arith)))
      | inr h ↦
          rw (check_if_done_lem s p e, h)
            (
              (v, AreSimilar-refl s.procs),
              λ q f r nil.
                  let same = same_process s.procs s.curr e f in
                  let h' : (is_nil q.code && is q.state running) ≡ false =
                    subst (λ (x : Process). (is_nil x.code && is x.state running) ≡ false) same h in
                  absurd (idle q nil r h'),
            )
    ]
  where
    idle :
        (q : Process)
        → q.code ≡ []
        → q.state ≡ running
        → (is_nil q.code && is q.state running) ≡ false
        → ⊥
    idle q nil r h =
        cc (sym h ∙ ap (λ c. is_nil c && is q.state running) nil ∙ (is_iff q.state running).1 r)

    ending :
        (p : Process)
        → At s.procs s.curr p
        → p.state ≡ running
        → p.code ≡ []
        → Returns (Checks sw s) (move running finished s.curr s >>= next_proc)
    ending p e h nil =
        let ps = recolor s.curr finished s.procs in
        let s1 : Scheduler = record s { procs = ps } in
        let calm =
          AreSimilar-recolor s.curr finished s.procs p e (λ k. not_both h k refl)
            (λ k. not_both h k refl) (λ k. not_both refl k refl) in
        rw (move_lem running finished s.curr s p e h) (
          Returns-map (Settles sw ps) (Checks sw s) (next_proc s1)
            (next_proc-Settles sw s1
              (omega (arith, length-recolor s.curr finished s.procs, v.in_range)) none_runs
              none_waits
              (Emptied-recolor s.procs s.curr finished v.spent
                (λ _ q g. ap (λ (z : Process). z.code) (same_process s.procs s.curr g e) ∙ nil)))
            (λ s' t. (
              (t.0, AreSimilar-trans s.procs ps s'.procs calm t.1),
              λ q f r _.
                  let (q', f', sim) =
                    AreSimilar-At ps s'.procs s.curr _ t.1
                      (recolor_self s.curr finished s.procs p e) in
                  (q', f', sim.over refl),
            )))
      where
        none_runs : NoneRuns (recolor s.curr finished s.procs)
        none_runs i q f r = elim (At-recolor s.curr finished s.procs i q f) [
          | inl (k, x, g, m) ↦ not_both (ap (λ (z : Process). z.state) m) r refl
          | inr (k, g) ↦ k (v.alone i q g r)
        ]

        none_waits :
            sw ≡ on_end
            → (i : ℕ) (q : Process) → At (recolor s.curr finished s.procs) i q
            → q.state ≢ waiting
        none_waits end i q f r = elim (At-recolor s.curr finished s.procs i q f) [
          | inl (k, x, g, m) ↦ not_both (ap (λ (z : Process). z.state) m) r refl
          | inr (k, g) ↦ k (v.blocked end i q g r)
        ]
