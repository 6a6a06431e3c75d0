-- ===== src/Disk/Late.antt =====
-- The late requests of 37-Hard_Disk_Drivers/disk.py: after a request is planned, the next one may
-- come.
use os_tep.Prelude.{
  get_elem?-lt, get_elem?_lt, dec_lt, length-append, ℕ, ◌+◌, ◌-◌, ◌*◌, ◌≤◌, ◌<◌, ◌≡◌, refl, sym, ap,
  ◌∙◌, ◌⊎◌, inl, inr, none, some, [], ◌∷◌, ◌++◌, arith, Option-cases, length, get_elem?,
}
use mathlib.Core.Path.{subst}
use os_tep.Disk.{state_null, state_done, fifo, Address, Block, Conf, Request, Disk, is}
use os_tep.Disk.Policies.{add_late}
use os_tep.Disk.Serves.{IsConf, IsQueue, IsBlock, InOrder}
use os_tep.Disk.States.{num_done-append, num_done_le, get-append, get_last}
use os_tep.Disk.Phase.{Current, Seeking, Rotating, Phase, most, all_requests, Serving}
use os_tep.Disk.Plan.{Planned}

-- the disk with one more request
abbrev pub with_entry : Disk → Address → Disk
with_entry d a = record d {
  queue = d.queue ++ record { block = a; index = length d.queue } ∷ [];
  states = d.states ++ state_null ∷ [];
  late_count = d.late_count + 1;
}

add_late-some :
    (c : Conf) (d : Disk) (a : Address)
    → get_elem? c.late d.late_count ≡ some a
    → add_late c d ≡ with_entry d a
unfolding add_late
add_late-some c d a e = rw (e, add_late) refl

add_late-none : (c : Conf) (d : Disk) → get_elem? c.late d.late_count ≡ none → add_late c d ≡ d
unfolding add_late
add_late-none c d e = rw (e, add_late) refl

-- the arm, the times and the count stay
pub record Kept (d d' : Disk) : Type 0 where
  pub arm_track : d'.arm_track ≡ d.arm_track
  pub arm_x1 : d'.arm_x1 ≡ d.arm_x1
  pub timer : d'.timer ≡ d.timer
  pub count : d'.count ≡ d.count

Kept-self : (d : Disk) → Kept d d
Kept-self d = record { arm_track = refl; arm_x1 = refl; timer = refl; count = refl }

Kept-with_entry : (d : Disk) (a : Address) → Kept d (with_entry d a)
Kept-with_entry d a = record { arm_track = refl; arm_x1 = refl; timer = refl; count = refl }

module _ (c : Conf) (d : Disk) (q : IsQueue c d) (a : Address) (new : IsBlock c a) where
  count_le : d.count ≤ length d.states
  count_le = omega (arith, q.counted, num_done_le d.states)

  entry_indexed :
      (i : ℕ) (r : Request)
      → get_elem? (with_entry d a).queue i ≡ some r
      → (r.index ≡ i) × IsBlock c r.block
  entry_indexed i r e = elim (dec_lt i (length d.queue)) [
    | yes h ↦ q.indexed i r (sym (get-append d.queue _ i h) ∙ e)
    | no h ↦
        let (at, same) = get_last d.queue _ r i (omega arith) e in
        (ap (λ z. z.index) (sym same) ∙ sym at, subst (λ z. IsBlock c z.block) same new)
  ]

  entry-InOrder : c.policy ≡ fifo → InOrder (with_entry d a).states d.count
  entry-InOrder p i st e = elim (dec_lt i (length d.states)) [
    | yes h ↦ q.in_order p i st (sym (get-append d.states _ i h) ∙ e)
    | no h ↦
        let (at, same) = get_last d.states _ st i (omega arith) e in
        (λ below. absurd (omega (arith, count_le)), λ above. ap (λ z. is z state_done) (sym same))
  ]

  pub IsQueue-with_entry : IsQueue c (with_entry d a)
  IsQueue-with_entry = record {
    lens =
        length-append d.states (state_null ∷ [])
        ∙ ap (λ z. z + 1) q.lens
        ∙ sym (length-append d.queue (record { block = a; index = length d.queue } ∷ []));
    indexed = entry_indexed;
    counted = num_done-append d.states state_null ∙ omega (arith, q.counted);
    in_order = entry-InOrder;
    arm = q.arm;
  }

Current-with_entry :
    (c : Conf) (d : Disk) (x : Block) (a : Address) → Current c d x → Current c (with_entry d a) x
Current-with_entry c d x a k = record {
  request = k.request;
  queued =
      get-append d.queue _ d.current_index (get_elem?_lt d.current_index d.queue k.queued)
      ∙ k.queued;
  named = k.named;
  has_block = k.has_block;
  has_state =
      get-append d.states _ d.current_index (get_elem?_lt d.current_index d.states k.has_state)
      ∙ k.has_state;
  next = k.next;
}

Phase-with_entry :
    (c : Conf) (n : ℕ) (d : Disk) (x : Block) (a : Address) (w : ℕ)
    → Seeking c n d x w ⊎ Rotating c n d x w
    → Seeking c n (with_entry d a) x w ⊎ Rotating c n (with_entry d a) x w
Phase-with_entry c n d x a w (inl s) = inl (record {
  is_seek = s.is_seek;
  left = s.left;
  some_left = s.some_left;
  target = s.target;
  target_x1 = s.target_x1;
  towards = s.towards;
  begun = s.begun;
  weight = s.weight;
})
Phase-with_entry c n d x a w (inr r) = inr (record {
  is_rotate = r.is_rotate;
  settled = r.settled;
  at_track = r.at_track;
  begun = r.begun;
  rotated = r.rotated;
  offset = r.offset;
  has_offset = r.has_offset;
  left = r.left;
  wait = r.wait;
  weight = r.weight;
})

module _ (c : Conf) (n steps n0 : ℕ) where
  -- what may still be ahead, once a request is served
  abbrev pub weight_of : Disk → ℕ → ℕ
  weight_of d w = (all_requests c n0 - d.count - 1) * most n steps + w

  as-Phase :
      (d : Disk) (x : Block) (w : ℕ) → Seeking c n d x w ⊎ Rotating c n d x w → Phase c n d x w
  as-Phase d x w (inl s) = inl s
  as-Phase d x w (inr r) = inr (inl r)

  settled_late :
      (d : Disk) (x : Block) (w : ℕ)
      → Planned c n steps n0 d x w
      → (d.late_count ≡ length c.late)
      → Serving c n steps n0 d (weight_of d w)
  settled_late d x w p h = record {
    queue = p.queue;
    block = x;
    current = p.current;
    turns = p.turns;
    window = p.window;
    late_in = p.late_in;
    late_left = inl h;
    some_left = p.some_left;
    sums = p.sums;
    phase_left = w;
    phase = as-Phase d x w p.phase;
    small = p.small;
    not_done = p.not_done;
    weight = refl;
  }

  another_late :
      (d : Disk) (x : Block) (w : ℕ) (a : Address)
      → Planned c n steps n0 d x w
      → IsBlock c a
      → d.late_count ≡ d.count
      → d.late_count < length c.late
      → Serving c n steps n0 (with_entry d a) (weight_of d w)
  another_late d x w a p new same lt = record {
    queue = IsQueue-with_entry c d p.queue a new;
    block = x;
    current = Current-with_entry c d x a p.current;
    turns = p.turns;
    window = p.window;
    late_in = length-append d.queue _ ∙ omega (arith, p.late_in);
    late_left = inr (omega arith, omega arith);
    some_left = omega (
      arith,
      p.some_left,
      length-append d.queue (record { block = a; index = length d.queue } ∷ []),
    );
    sums = p.sums;
    phase_left = w;
    phase = as-Phase (with_entry d a) x w (Phase-with_entry c n d x a w p.phase);
    small = p.small;
    not_done = p.not_done;
    weight = refl;
  }

  -- Only the queue changes.
  pub add_late-Serving :
      IsConf c n steps
      → (d : Disk) (x : Block) (w : ℕ) → Planned c n steps n0 d x w
      → Serving c n steps n0 (add_late c d) (weight_of d w)
        × Kept d (add_late c d)
        × ((add_late c d).seek_begin ≡ d.seek_begin)
  add_late-Serving v d x w p = elim (Option-cases (get_elem? c.late d.late_count)) [
    | inl nothing ↦
        subst
          (λ z. Serving c n steps n0 z (weight_of d w) × Kept d z × (z.seek_begin ≡ d.seek_begin))
          (sym (add_late-none c d nothing))
          (
            settled_late d x w p
                (elim p.late_left [ inl h ↦ h | inr (same, le) ↦ none_ahead le nothing ]),
            Kept-self d,
            refl,
          )
    | inr (a, e) ↦
        let lt = get_elem?_lt d.late_count c.late e in
        subst
          (λ z. Serving c n steps n0 z (weight_of d w) × Kept d z × (z.seek_begin ≡ d.seek_begin))
          (sym (add_late-some c d a e))
          (
            another_late d x w a p (v.late d.late_count a e)
                (elim p.late_left [ inl h ↦ absurd (omega arith) | inr (same, le) ↦ same ]) lt,
            Kept-with_entry d a,
            refl,
          )
  ]
    where
      none_ahead :
          d.late_count ≤ length c.late
          → get_elem? c.late d.late_count ≡ none
          → d.late_count ≡ length c.late
      none_ahead le h = elim (dec_lt d.late_count (length c.late)) [
        | yes lt ↦ let (a, e) = get_elem?-lt d.late_count c.late lt in absurd (cc (e, h))
        | no ge ↦ omega arith
      ]
