-- ===== src/Disk/Choice.antt =====
-- The request that the policy of 37-Hard_Disk_Drivers/disk.py chooses.
use os_tep.Prelude.{
  get_elem?-lt, ℕ, ◌≤◌, ◌<◌, ◌≡◌, refl, sym, ap, ◌∙◌, ◌≢◌, ◌⊎◌, inl, inr, Option, none, some, [],
  ◌∷◌, arith, length, get_elem?, take,
}
use mathlib.Core.Path.{subst}
use os_tep.Prelude.Fault.{ok, ◌>>=◌, Returns, Returns-bind}
use os_tep.Disk.{Policy, fifo, satf, bsatf, sstf, other, Conf, fair_window, Request, Disk}
use os_tep.Disk.Policies.{do_satf, do_sstf, get_window, choose}
use os_tep.Disk.Pick.{In, Pending, Good, AllGood, Shortest, do_satf-Shortest}
use os_tep.Disk.Nearby.{Closest, do_sstf-Closest}
use os_tep.Disk.Serves.{
  IsConf, IsQueue, IsQueue-Good, IsQueue-take, take-Pending, index-In, In-take,
}
use os_tep.Disk.Window.{Reaches, Before, get_window-Reaches}

abbrev pub with_window : Disk → Option ℕ → Disk
with_window d w = record d { curr_window = w }

-- What the choice gives: a request of the queue that is not done, the next one under FIFO, and a
-- window that reaches beyond the requests that are done.
pub record Chooses (c : Conf) (d : Disk) (p : Request × Disk) : Type 0 where
  pub window : Option ℕ
  pub only_window : p.1 ≡ with_window d window
  pub reaches : Reaches (fair_window c) window d.count
  pub queued : In p.0 d.queue
  pub pending : Pending d p.0
  pub next : c.policy ≡ fifo → p.0.index ≡ d.count

pub IsQueue-with_window :
    (c : Conf) (d : Disk) (w : Option ℕ) → IsQueue c d → IsQueue c (with_window d w)
IsQueue-with_window c d w q = record {
  lens = q.lens;
  indexed = q.indexed;
  counted = q.counted;
  in_order = q.in_order;
  arm = q.arm;
}

choose-fifo :
    (c : Conf) (d : Disk) (r : Request)
    → get_elem? d.queue d.count ≡ some r
    → choose c fifo d ≡ (do_satf c d (r ∷ []) >>= λ r'. ok (r, d))
unfolding choose
choose-fifo c d r e = rw (e, choose)

choose_satf :
    (c : Conf) (d d' : Disk) (e : ℕ)
    → get_window c d ≡ (e, d')
    → choose c satf d ≡ (do_satf c d' (take e d'.queue) >>= λ r. ok (r, d'))
unfolding choose
choose_satf c d d' e h = rw h refl

choose_bsatf :
    (c : Conf) (d d' : Disk) (e : ℕ)
    → get_window c d ≡ (e, d')
    → choose c bsatf d ≡ (do_satf c d' (take e d'.queue) >>= λ r. ok (r, d'))
unfolding choose
choose_bsatf c d d' e h = rw h refl

choose_sstf :
    (c : Conf) (d d' : Disk) (e : ℕ)
    → get_window c d ≡ (e, d')
    → choose c sstf d ≡ (do_sstf c d' (take e d'.queue) >>= λ l. do_satf c d' l >>= λ r. ok (r, d'))
unfolding choose
choose_sstf c d d' e h = rw h refl

Before-plain : (cw : Option ℕ) (n len : ℕ) → Before none cw n len → n < len → Reaches none cw n
Before-plain none n len b h = tt
Before-plain (some w) n len (inl k) h = k
Before-plain (some w) n len (inr k) h = omega arith

module _ (c : Conf) (n steps : ℕ) (v : IsConf c n steps) (d : Disk) (q : IsQueue c d)
    (lt : d.count < length d.queue)
    (b : Before (fair_window c) d.curr_window d.count (length d.queue)) where
  fifo-Chooses : c.policy ≡ fifo → Returns (Chooses c d) (choose c fifo d)
  fifo-Chooses p =
      let (r, at) = get_elem?-lt d.count d.queue lt in
      let i = index-In r d.queue d.count at in
      let (same, rest) = q.indexed d.count r at in
      let (st, has) = get_elem?-lt d.count d.states (omega (arith, q.lens)) in
      let undone = (q.in_order p d.count st has).1 (omega arith) in
      let pend : Pending d r = (st, ap (get_elem? d.states) same ∙ has, undone) in
      let fair : fair_window c ≡ none = rw p refl in
      let b' = subst (λ z. Before z d.curr_window d.count (length d.queue)) fair b in
      rw (choose-fifo c d r at) (
        Returns-bind (Shortest c d (r ∷ [])) (Chooses c d) (do_satf c d (r ∷ [])) (λ r'. ok (r, d))
          (do_satf-Shortest c d (r ∷ []) r
            (λ x h. elim h [
              | inl e ↦ subst (Good c d) e (IsQueue-Good c n steps v d q r i)
              | inr h' ↦ absurd h'
            ])
            (inl refl) pend)
          (λ r' s. record {
            window = d.curr_window;
            only_window = refl;
            reaches =
                subst (λ z. Reaches z d.curr_window d.count) (sym fair)
                  (Before-plain d.curr_window d.count (length d.queue) b' lt);
            queued = i;
            pending = pend;
            next = λ _. same;
          }))

  module _ (not_fifo : c.policy ≢ fifo) (e : ℕ) (w : Option ℕ)
      (room : (d.count < e) ⊎ (length d.queue ≤ e)) (r : Reaches (fair_window c) w d.count) where
    abbrev d' : Disk
    d' = with_window d w

    q' : IsQueue c d'
    q' = IsQueue-with_window c d w q

    good : AllGood c d' (take e d'.queue)
    good = IsQueue-take c n steps v d' q' e

    windowed : (x : Request) → In x (take e d'.queue) → Pending d' x → Chooses c d (x, d')
    windowed x i p = record {
      window = w;
      only_window = refl;
      reaches = r;
      queued = In-take x e d.queue i;
      pending = p;
      next = λ f. absurd (not_fifo f);
    }

    satf-Chooses : Returns (Chooses c d) (do_satf c d' (take e d'.queue) >>= λ x. ok (x, d'))
    satf-Chooses =
        let (x, i, p) = take-Pending c n steps v d' q' e lt room in
        Returns-bind (Shortest c d' (take e d'.queue)) (Chooses c d)
          (do_satf c d' (take e d'.queue)) _ (do_satf-Shortest c d' (take e d'.queue) x good i p)
          (λ y s. windowed y s.listed s.pending)

    sstf-Chooses :
        Returns
          (Chooses c d)
          (do_sstf c d' (take e d'.queue) >>= λ l. do_satf c d' l >>= λ x. ok (x, d'))
    sstf-Chooses =
        let (x, i, p) = take-Pending c n steps v d' q' e lt room in
        Returns-bind (Closest c d' (take e d'.queue)) (Chooses c d) (do_sstf c d' (take e d'.queue))
          _ (do_sstf-Closest c d' (take e d'.queue) x good q.arm i p)
          (λ l k.
            let (y, j) = k.member in
            let (in_take, pend, away) = k.members y j in
            Returns-bind (Shortest c d' l) (Chooses c d) (do_satf c d' l) _
              (do_satf-Shortest c d' l y (λ z h. good z (k.members z h).0) j pend)
              (λ z s. windowed z (k.members z s.listed).0 s.pending))

  -- The choice under each of the four policies, on a queue whose requests are for blocks and have their
  -- indices, with as many done as were counted, under FIFO the first ones, but not all, and a window as
  -- it is between two requests: it raises nothing and gives a request of the queue that is not done,
  -- under FIFO the next one; it changes nothing but the window, which then reaches beyond the requests
  -- that are done.
  pub choose-Chooses : Returns (Chooses c d) (choose c c.policy d)
  choose-Chooses =
      let (e, w, used, room, r) = get_window-Reaches c d v.not_precise lt b in
      by_policy c.policy refl e w used room r
    where
      by_policy :
          (p : Policy)
          → c.policy ≡ p
          → (e : ℕ) (w : Option ℕ) → get_window c d ≡ (e, with_window d w)
          → (d.count < e) ⊎ (length d.queue ≤ e)
          → Reaches (fair_window c) w d.count
          → Returns (Chooses c d) (choose c p d)
      by_policy fifo h e w used room r = fifo-Chooses h
      by_policy satf h e w used room r =
          rw (choose_satf c d (with_window d w) e used)
            (satf-Chooses (λ f. differ (sym f ∙ h)) e w room r)
        where
          differ : fifo ≡ satf → ⊥
          differ k = cc
      by_policy bsatf h e w used room r =
          rw (choose_bsatf c d (with_window d w) e used)
            (satf-Chooses (λ f. differ (sym f ∙ h)) e w room r)
        where
          differ : fifo ≡ bsatf → ⊥
          differ k = cc
      by_policy sstf h e w used room r =
          rw (choose_sstf c d (with_window d w) e used)
            (sstf-Chooses (λ f. differ (sym f ∙ h)) e w room r)
        where
          differ : fifo ≡ sstf → ⊥
          differ k = cc
      by_policy other h e w used room r = absurd (v.known h)
