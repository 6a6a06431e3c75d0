-- ===== src/Disk/Pick.antt =====
-- DoSATF of 37-Hard_Disk_Drivers/disk.py.
use os_tep.Prelude.{
  ℕ, ◌≤◌, ◌<◌, ◌≡◌, refl, sym, ap, ◌∙◌, ◌⊎◌, inl, inr, true, false, Option, none, some, List, [],
  ◌∷◌, arith, ltb, Bool-cases, get_elem?,
}
use mathlib.Core.Path.{subst}
use os_tep.Prelude.Fault.{ok, Returns, Returns-map, Returns-bind}
use os_tep.Disk.{State, state_done, Block, Conf, Request, Disk, block_at, offset_at, is}
use os_tep.Disk.Policies.{estimate, state_at, nearer, satf_from, found, do_satf}

abbrev pub In : Request → List Request → Type 0
In q [] = ⊥
In q (r ∷ rs) = (r ≡ q) ⊎ In q rs

-- a request that is not done
abbrev pub Pending : Disk → Request → Type 0
Pending d r = (st : State) × (get_elem? d.states r.index ≡ some st) × (is st state_done ≡ false)

-- A request with a state, a block, and the offset of its track.
pub record Good (c : Conf) (d : Disk) (r : Request) : Type 0 where
  pub st : State
  pub block : Block
  pub offset : ℕ
  pub has_state : get_elem? d.states r.index ≡ some st
  pub has_block : block_at c r.block ≡ ok block
  pub has_offset : offset_at c block.track ≡ ok offset
  pub on_track : block.track < 3

abbrev pub AllGood : Conf → Disk → List Request → Type 0
AllGood c d rs = (q : Request) → In q rs → Good c d q

-- the estimate for a request
abbrev pub Costs : Conf → Disk → Request → ℕ → Type 0
Costs c d r e =
    (x : Block) × (offset : ℕ) × (block_at c r.block ≡ ok x)
    × (offset_at c x.track ≡ ok offset)
    × (e ≡ estimate c d x offset)

abbrev pub NoneNearer : Conf → Disk → ℕ → List Request → Type 0
NoneNearer c d e rs = (q : Request) (e' : ℕ) → In q rs → Pending d q → Costs c d q e' → e ≤ e'

pub state_at_lem :
    (d : Disk) (i : ℕ) (st : State) → get_elem? d.states i ≡ some st → state_at d i ≡ ok st
unfolding state_at
state_at_lem d i st e = rw (e, state_at)

satf_done :
    (c : Conf) (d : Disk) (best : Option (ℕ × Request)) (r : Request) (rs : List Request)
    (st : State)
    → get_elem? d.states r.index ≡ some st
    → is st state_done ≡ true
    → satf_from c d best (r ∷ rs) ≡ satf_from c d best rs
unfolding satf_from
satf_done c d best r rs st e h = rw (state_at_lem d r.index st e, h) refl

satf_open :
    (c : Conf) (d : Disk) (best : Option (ℕ × Request)) (r : Request) (rs : List Request)
    (g : Good c d r)
    → is g.st state_done ≡ false
    → satf_from c d best (r ∷ rs) ≡ satf_from c d (nearer best (estimate c d g.block g.offset) r) rs
unfolding satf_from
satf_open c d best r rs g h =
    rw (state_at_lem d r.index g.st g.has_state, h, g.has_block, g.has_offset) refl

-- the better one of the best so far and a request
nearer_lem :
    (best : Option (ℕ × Request)) (est : ℕ) (r : Request)
    → (e : ℕ) × (q : Request) × (nearer best est r ≡ some (e, q))
      × (e ≤ est)
      × ((e' : ℕ) (q' : Request) → best ≡ some (e', q') → e ≤ e')
      × ((best ≡ some (e, q)) ⊎ ((e ≡ est) × (q ≡ r)))
nearer_lem none est r = (est, r, refl, omega arith, λ e' q' h. absurd (cc h), inr (refl, refl))
nearer_lem (some (b, p)) est r = elim (Bool-cases (ltb est b)) [
  | inl t ↦ (
    est,
    r,
    rw t refl,
    omega arith,
    λ e' q' h. let s : b ≡ e' = cc in ground arith,
    inr (refl, refl),
  )
  | inr f ↦ (b, p, rw f refl, ground arith, λ e' q' h. let s : b ≡ e' = cc in omega arith, inl refl)
]

-- What the loop gives: no request that is not done has a smaller estimate.
pub record Nearest (c : Conf) (d : Disk) (best : Option (ℕ × Request)) (rs : List Request) (e : ℕ)
    (r : Request) : Type 0 where
  pub origin : (best ≡ some (e, r)) ⊎ (In r rs × Pending d r × Costs c d r e)
  pub best_le : (e' : ℕ) (r' : Request) → best ≡ some (e', r') → e ≤ e'
  pub none_nearer : NoneNearer c d e rs

abbrev Picks : Conf → Disk → Option (ℕ × Request) → List Request → Option (ℕ × Request) → Type 0
Picks c d best rs o = (e : ℕ) × (r : Request) × (o ≡ some (e, r)) × Nearest c d best rs e r

abbrev SomeLeft : Disk → Option (ℕ × Request) → List Request → Type 0
SomeLeft d best rs =
    ((q : Request) × In q rs × Pending d q) ⊎ ((e : ℕ) × (q : Request) × (best ≡ some (e, q)))

same_state : {a b : State} → some a ≡ some b → a ≡ b
same_state e = cc

pub not-Pending :
    (d : Disk) (r : Request) (st : State)
    → get_elem? d.states r.index ≡ some st
    → is st state_done ≡ true
    → Pending d r
    → ⊥
not-Pending d r st e h (st', f, k) =
    let s = same_state (sym e ∙ f) in
    let k' : is st state_done ≡ false = ap (λ z. is z state_done) s ∙ k in cc (sym h ∙ k')

pub same_ok {ℓ} : {A : Type ℓ} {x y : A} → ok x ≡ ok y → x ≡ y
same_ok e = cc

Costs-Good :
    (c : Conf) (d : Disk) (r : Request) (g : Good c d r) (e : ℕ)
    → Costs c d r e
    → e ≡ estimate c d g.block g.offset
Costs-Good c d r g e (x, o, bx, ox, s) =
    let xb : x ≡ g.block = same_ok (sym bx ∙ g.has_block) in
    let oo : o ≡ g.offset =
      same_ok (sym ox ∙ ap (λ (z : Block). offset_at c z.track) xb ∙ g.has_offset) in
    s ∙ ap (λ z. estimate c d z o) xb ∙ ap (estimate c d g.block) oo

-- a request that is done changes nothing
Picks-done :
    (c : Conf) (d : Disk) (r : Request) (rs : List Request) (best : Option (ℕ × Request))
    (st : State)
    → get_elem? d.states r.index ≡ some st
    → is st state_done ≡ true
    → (o : Option (ℕ × Request)) → Picks c d best rs o
    → Picks c d best (r ∷ rs) o
Picks-done c d r rs best st e h o (est, q, s, n) = (
  est,
  q,
  s,
  record {
    origin = elim n.origin [ inl b ↦ inl b | inr (i, p, k) ↦ inr (inr i, p, k) ];
    best_le = n.best_le;
    none_nearer = λ x e' i p k. elim i [
      | inl rx ↦ absurd (not-Pending d r st e h (subst (Pending d) (sym rx) p))
      | inr j ↦ n.none_nearer x e' j p k
    ];
  },
)

-- any other one is compared with the best so far
Picks-open :
    (c : Conf) (d : Disk) (r : Request) (rs : List Request) (best : Option (ℕ × Request))
    (g : Good c d r)
    → is g.st state_done ≡ false
    → (o : Option (ℕ × Request)) → Picks c d (nearer best (estimate c d g.block g.offset) r) rs o
    → Picks c d best (r ∷ rs) o
Picks-open c d r rs best g h o (est, q, s, n) =
    let cost = estimate c d g.block g.offset in
    let (e1, q1, b1, le, le_best, from) = nearer_lem best cost r in
    let est_le = n.best_le e1 q1 b1 in
    (
      est,
      q,
      s,
      record {
        origin = elim n.origin [
          | inl b ↦
              let same : ◌≡◌ {A = ℕ × Request} (e1, q1) (est, q) = same_some (sym b1 ∙ b) in
              let e_same = ap (λ (z : ℕ × Request). z.0) same in
              let q_same = ap (λ (z : ℕ × Request). z.1) same in
              elim from [
                | inl old ↦ inl (subst (λ z. best ≡ some z) same old)
                | inr (ee, qq) ↦
                    let rq = sym qq ∙ q_same in
                    inr (
                      inl rq,
                      subst (Pending d) rq (g.st, g.has_state, h),
                      subst (λ z. Costs c d z est) rq
                          (g.block, g.offset, g.has_block, g.has_offset, sym e_same ∙ ee),
                    )
              ]
          | inr (i, p, k) ↦ inr (inr i, p, k)
        ];
        best_le = λ e' q' b. omega (arith, le_best e' q' b, est_le);
        none_nearer = λ x e' i p k. elim i [
          | inl rx ↦
              omega
                (arith, est_le, le, Costs-Good c d r g e' (subst (λ z. Costs c d z e') (sym rx) k))
          | inr j ↦ n.none_nearer x e' j p k
        ];
      },
    )
  where
    same_some : {x y : ℕ × Request} → some x ≡ some y → x ≡ y
    same_some e = cc

satf_from_nil :
    (c : Conf) (d : Disk) (best : Option (ℕ × Request)) → satf_from c d best [] ≡ ok best
unfolding satf_from
satf_from_nil c d best = refl

satf_from-Picks :
    (c : Conf) (d : Disk) (rs : List Request) (best : Option (ℕ × Request))
    → AllGood c d rs
    → SomeLeft d best rs
    → Returns (Picks c d best rs) (satf_from c d best rs)
satf_from-Picks c d [] best good (inl (q, i, p)) = absurd i
satf_from-Picks c d [] best good (inr (e, q, b)) = rw (satf_from_nil c d best) (
  e,
  q,
  b,
  record {
    origin = inl b;
    best_le = λ e' r' h. same_le e e' q r' (sym b ∙ h);
    none_nearer = λ q' e' i. absurd i;
  },
)
  where
    same_le :
        (e e' : ℕ) (q q' : Request)
        → ◌≡◌ {A = Option (ℕ × Request)} (some (e, q)) (some (e', q'))
        → e ≤ e'
    same_le e e' q q' h = let s : e ≡ e' = cc in omega arith
satf_from-Picks c d (r ∷ rs) best good left =
    let g = good r (inl refl) in
    let below : AllGood c d rs = λ q i. good q (inr i) in
    elim (Bool-cases (is g.st state_done)) [
      | inl h ↦ rw (satf_done c d best r rs g.st g.has_state h) (
          Returns-map (Picks c d best rs) (Picks c d best (r ∷ rs)) (satf_from c d best rs)
            (satf_from-Picks c d rs best below (left_below g h))
            (Picks-done c d r rs best g.st g.has_state h))
      | inr h ↦
          let cost = estimate c d g.block g.offset in
          let (e1, q1, b1, le, le_best, from) = nearer_lem best cost r in
          rw (satf_open c d best r rs g h) (
            Returns-map (Picks c d (nearer best cost r) rs) (Picks c d best (r ∷ rs))
              (satf_from c d (nearer best cost r) rs)
              (satf_from-Picks c d rs (nearer best cost r) below (inr (e1, q1, b1)))
              (Picks-open c d r rs best g h))
    ]
  where
    left_below : (g : Good c d r) → is g.st state_done ≡ true → SomeLeft d best rs
    left_below g h = elim left [
      | inl (q, inl rq, p) ↦
          absurd (not-Pending d r g.st g.has_state h (subst (Pending d) (sym rq) p))
      | inl (q, inr i, p) ↦ inl (q, i, p)
      | inr b ↦ inr b
    ]

-- The request is in the list and not done, and no request in the list that is not done has a smaller
-- estimate.
pub record Shortest (c : Conf) (d : Disk) (rs : List Request) (r : Request) : Type 0 where
  pub listed : In r rs
  pub pending : Pending d r
  pub cost : ℕ
  pub costs : Costs c d r cost
  pub none_nearer : NoneNearer c d cost rs

-- `DoSATF` on a list of requests for blocks of the layout, of which some request is not done: nothing
-- is raised, and it gives a request of the list that is not done, of the shortest estimated time among
-- these.
pub do_satf-Shortest :
    (c : Conf) (d : Disk) (rs : List Request) (q : Request)
    → AllGood c d rs
    → In q rs
    → Pending d q
    → Returns (Shortest c d rs) (do_satf c d rs)
unfolding do_satf
do_satf-Shortest c d rs q good i p =
    Returns-bind (Picks c d none rs) (Shortest c d rs) (satf_from c d none rs) found
      (satf_from-Picks c d rs none good (inl (q, i, p)))
      (λ o (e, r, s, n). rw s (elim n.origin [
        | inl b ↦ absurd (cc b)
        | inr (j, p', k) ↦ record {
          listed = j;
          pending = p';
          cost = e;
          costs = k;
          none_nearer = n.none_nearer;
        }
      ]))
