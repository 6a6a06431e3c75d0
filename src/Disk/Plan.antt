-- ===== src/Disk/Plan.antt =====
-- What holds once a request of 37-Hard_Disk_Drivers/disk.py is planned.
use os_tep.Prelude.{
  get_elem?-set_self, get_elem?_lt, ℕ, ◌+◌, ◌*◌, ◌≤◌, ◌<◌, ◌≡◌, refl, sym, ap, ◌∙◌, ◌≢◌, ◌⊎◌, inl,
  inr, true, false, some, arith, leb, Bool-cases, length, get_elem?, set,
}
use native.Mathlib.Nat.{mul-le-mul_right}
use os_tep.Disk.{
  State, state_seek, state_rotate, state_done, number, Block, Conf, fair_window, full, position,
  Request, Disk, is,
}
use os_tep.Disk.Policies.{distance}
use os_tep.Disk.Angle.{IsAngle, Wait-exists}
use os_tep.Disk.Serves.{IsConf, IsQueue}
use os_tep.Disk.Window.{Reaches}
use os_tep.Disk.Choice.{Chooses, with_window}
use os_tep.Disk.States.{IsQueue-with_state}
use os_tep.Disk.Phase.{below_full, Current, begins_at, Seeking, Rotating, most, Idle}
use os_tep.Disk.Next.{with_current, rotating, seeking}

-- What is planned is served, up to the late request that may come.
pub record Planned (c : Conf) (n steps n0 : ℕ) (d : Disk) (x : Block) (w : ℕ) : Type 0 where
  pub queue : IsQueue c d
  pub current : Current c d x
  pub turns : IsAngle c.rotate_speed n d.angle
  pub window : Reaches (fair_window c) d.curr_window d.count
  pub late_in : length d.queue ≡ n0 + d.late_count
  pub late_left :
      (d.late_count ≡ length c.late) ⊎ ((d.late_count ≡ d.count) × (d.late_count ≤ length c.late))
  pub some_left : d.count < length d.queue
  pub sums : d.seek_total + d.rot_total + d.xfer_total ≡ d.seek_begin
  pub phase : Seeking c n d x w ⊎ Rotating c n d x w
  pub small : w < most n steps
  pub not_done : d.is_done ≡ false

module _ (c : Conf) (n steps n0 : ℕ) (v : IsConf c n steps) (d : Disk) (s : Idle c n n0 d)
    (lt : d.count < length d.queue) (p : Request × Disk) (k : Chooses c d p) (b : ℕ) (x : Block)
    (name : p.0.block ≡ number b) (has : get_elem? c.layout.blocks b ≡ some x)
    (here : get_elem? d.queue p.0.index ≡ some p.0) where
  -- the disk with the chosen request
  abbrev chosen : Disk
  chosen = with_current (with_window d k.window) b p.0.index

  abbrev track_lt : x.track < 3
  track_lt = v.tracks b x has

  in_states : p.0.index < length d.states
  in_states = get_elem?_lt p.0.index d.states k.pending.1

  abbrev set_to : State → Disk
  set_to st = record chosen { states = set d.states p.0.index st }

  queue_to :
      (st : State)
      → is st state_done ≡ false
      → IsQueue c (record d { states = set d.states p.0.index st })
  queue_to st h = IsQueue-with_state c d p.0.index k.pending.0 st k.pending.1 k.pending.2 h s.queue

  pub Planned-rotate : x.track ≡ d.arm_track → (w : ℕ) × Planned c n steps n0 (rotating chosen) x w
  Planned-rotate same =
      let q = queue_to state_rotate refl in
      let (o, off) = v.offsets x.track track_lt in
      let target : begins_at c x o < full c = below_full c (x.angle + 359 * o) v.some_full in
      let (left, wait, some_wait, le) =
        Wait-exists c.rotate_speed (full c) n v.circle d.angle (begins_at c x o) s.turns target in
      (
        left + n + 1,
        record {
          queue = record {
            lens = q.lens;
            indexed = q.indexed;
            counted = q.counted;
            in_order = q.in_order;
            arm = q.arm;
          };
          current = record {
            request = p.0;
            queued = here;
            named = name;
            has_block = has;
            has_state = get_elem?-set_self d.states p.0.index state_rotate in_states;
            next = k.next;
          };
          turns = s.turns;
          window = k.reaches;
          late_in = s.late_in;
          late_left = s.late_left;
          some_left = lt;
          sums = s.sums;
          phase = inr (record {
            is_rotate = refl;
            settled = sym same;
            at_track = s.at_track;
            begun = omega arith;
            rotated = omega arith;
            offset = o;
            has_offset = off;
            left = left;
            wait = wait;
            weight = refl;
          });
          small = omega (arith, le);
          not_done = s.not_done;
        },
      )

  pub Planned-seek :
      x.track ≢ d.arm_track → (w : ℕ) × Planned c n steps n0 (seeking c x.track chosen) x w
  Planned-seek differ =
      let q = queue_to state_seek refl in
      let left = distance d.arm_track x.track * steps in
      (
        left + 2 * n + 2,
        record {
          queue = record {
            lens = q.lens;
            indexed = q.indexed;
            counted = q.counted;
            in_order = q.in_order;
            arm = q.arm;
          };
          current = record {
            request = p.0;
            queued = here;
            named = name;
            has_block = has;
            has_state = get_elem?-set_self d.states p.0.index state_seek in_states;
            next = k.next;
          };
          turns = s.turns;
          window = k.reaches;
          late_in = s.late_in;
          late_left = s.late_left;
          some_left = lt;
          sums = s.sums;
          phase = inl (record {
            is_seek = refl;
            left = left;
            some_left = some_way d.arm_track x.track differ;
            target = refl;
            target_x1 = refl;
            towards = elim (Bool-cases (leb d.arm_track x.track)) [
              | inl t ↦
                  inl
                    (t, ap (λ z. z + left * c.seek_speed) s.at_track ∙ way_in d.arm_track x.track t)
              | inr f ↦ inr (f, way_out d.arm_track x.track f ∙ sym s.at_track)
            ];
            begun = omega arith;
            weight = refl;
          });
          small = small_way d.arm_track x.track s.queue.arm track_lt;
          not_done = s.not_done;
        },
      )
    where
      some_way : (a t : ℕ) → t ≢ a → 0 < distance a t * steps
      some_way a t ne =
          let far : 1 ≤ distance a t = ground arith in
          omega (arith, mul-le-mul_right steps far, v.moves)

      way : (a k : ℕ) → position c a + k * steps * c.seek_speed ≡ position c (a + k)
      way a k = omega (arith, ap (λ z. k * z) v.divides)

      way_in :
          (a t : ℕ)
          → leb a t ≡ true
          → position c a + distance a t * steps * c.seek_speed ≡ position c t
      way_in a t h =
          let e : t ≡ a + distance a t = ground arith in
          way a (distance a t) ∙ ap (position c) (sym e)

      way_out :
          (a t : ℕ)
          → leb a t ≡ false
          → position c t + distance a t * steps * c.seek_speed ≡ position c a
      way_out a t h =
          let e : a ≡ t + distance a t = ground arith in
          way t (distance a t) ∙ ap (position c) (sym e)

      small_way : (a t : ℕ) → a < 3 → t < 3 → distance a t * steps + 2 * n + 2 < most n steps
      small_way a t h l =
          let near : distance a t ≤ 2 = ground arith in omega (arith, mul-le-mul_right steps near)
