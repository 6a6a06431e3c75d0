-- ===== src/Disk/Stay.antt =====
-- What a tick of 37-Hard_Disk_Drivers/disk.py leaves as it is while a request is served.
use os_tep.Prelude.{
  get_elem?-set_self, get_elem?_lt, ℕ, ◌+◌, ◌-◌, ◌*◌, ◌≤◌, ◌<◌, ◌≡◌, refl, ap, ◌⊎◌, inl, inr, false,
  length, set,
}
use os_tep.Disk.{State, state_done, Block, Conf, fair_window, Disk, is}
use os_tep.Disk.Angle.{IsAngle}
use os_tep.Disk.Serves.{IsQueue}
use os_tep.Disk.Window.{Reaches}
use os_tep.Disk.States.{IsQueue-with_state}
use os_tep.Disk.Phase.{Current, Phase, most, all_requests, Serving}

-- all that holds while a request is served, whatever the phase
pub record Stays (c : Conf) (n n0 : ℕ) (d : Disk) (x : Block) : Type 0 where
  pub queue : IsQueue c d
  pub current : Current c d x
  pub turns : IsAngle c.rotate_speed n d.angle
  pub window : Reaches (fair_window c) d.curr_window d.count
  pub late_in : length d.queue ≡ n0 + d.late_count
  pub late_left :
      (d.late_count ≡ length c.late)
      ⊎ ((d.late_count ≡ d.count + 1) × (d.late_count ≤ length c.late))
  pub some_left : d.count < length d.queue
  pub sums : d.seek_total + d.rot_total + d.xfer_total ≡ d.seek_begin
  pub open_state : is d.state state_done ≡ false
  pub not_done : d.is_done ≡ false

-- other times, another angle and another place of the arm
abbrev pub elsewhere : Disk → ℕ → ℕ → ℕ → ℕ → ℕ → ℕ → Disk
elsewhere d angle timer arm_x1 arm_track rot_begin xfer_begin = record d {
  angle = angle;
  timer = timer;
  arm_x1 = arm_x1;
  arm_track = arm_track;
  rot_begin = rot_begin;
  xfer_begin = xfer_begin;
}

-- the request's state, which is the disk's too
abbrev pub switched : State → Disk → Disk
switched st d = record d { state = st; states = set d.states d.current_index st }

module _ (c : Conf) (n n0 : ℕ) (d : Disk) (x : Block) (s : Stays c n n0 d x) where
  pub in_states : d.current_index < length d.states
  in_states = get_elem?_lt d.current_index d.states s.current.has_state

  pub Stays-elsewhere :
      (angle timer arm_x1 arm_track rot_begin xfer_begin : ℕ)
      → IsAngle c.rotate_speed n angle
      → arm_track < 3
      → Stays c n n0 (elsewhere d angle timer arm_x1 arm_track rot_begin xfer_begin) x
  Stays-elsewhere angle timer arm_x1 arm_track rot_begin xfer_begin t a = record {
    queue = record {
      lens = s.queue.lens;
      indexed = s.queue.indexed;
      counted = s.queue.counted;
      in_order = s.queue.in_order;
      arm = a;
    };
    current = record {
      request = s.current.request;
      queued = s.current.queued;
      named = s.current.named;
      has_block = s.current.has_block;
      has_state = s.current.has_state;
      next = s.current.next;
    };
    turns = t;
    window = s.window;
    late_in = s.late_in;
    late_left = s.late_left;
    some_left = s.some_left;
    sums = s.sums;
    open_state = s.open_state;
    not_done = s.not_done;
  }

  pub Stays-switched : (st : State) → is st state_done ≡ false → Stays c n n0 (switched st d) x
  Stays-switched st h =
      let q =
        IsQueue-with_state c d d.current_index d.state st s.current.has_state s.open_state h
          s.queue in
      record {
        queue = record {
          lens = q.lens;
          indexed = q.indexed;
          counted = q.counted;
          in_order = q.in_order;
          arm = q.arm;
        };
        current = record {
          request = s.current.request;
          queued = s.current.queued;
          named = s.current.named;
          has_block = s.current.has_block;
          has_state = get_elem?-set_self d.states d.current_index st in_states;
          next = s.current.next;
        };
        turns = s.turns;
        window = s.window;
        late_in = s.late_in;
        late_left = s.late_left;
        some_left = s.some_left;
        sums = s.sums;
        open_state = h;
        not_done = s.not_done;
      }

  -- with a phase, a request is served
  pub Stays-Serving :
      (steps w : ℕ)
      → Phase c n d x w
      → w < most n steps
      → Serving c n steps n0 d ((all_requests c n0 - d.count - 1) * most n steps + w)
  Stays-Serving steps w p h = record {
    queue = s.queue;
    block = x;
    current = s.current;
    turns = s.turns;
    window = s.window;
    late_in = s.late_in;
    late_left = s.late_left;
    some_left = s.some_left;
    sums = s.sums;
    phase_left = w;
    phase = p;
    small = h;
    not_done = s.not_done;
    weight = refl;
  }

-- the state is that of the phase
Phase-open :
    (c : Conf) (n : ℕ) (d : Disk) (x : Block) (w : ℕ)
    → Phase c n d x w
    → is d.state state_done ≡ false
Phase-open c n d x w (inl p) = ap (λ z. is z state_done) p.is_seek
Phase-open c n d x w (inr (inl p)) = ap (λ z. is z state_done) p.is_rotate
Phase-open c n d x w (inr (inr p)) = ap (λ z. is z state_done) p.is_xfer

pub Serving-Stays :
    (c : Conf) (n steps n0 : ℕ) (d : Disk) (w : ℕ) (s : Serving c n steps n0 d w)
    → Stays c n n0 d s.block
Serving-Stays c n steps n0 d w s = record {
  queue = s.queue;
  current = s.current;
  turns = s.turns;
  window = s.window;
  late_in = s.late_in;
  late_left = s.late_left;
  some_left = s.some_left;
  sums = s.sums;
  open_state = Phase-open c n d s.block s.phase_left s.phase;
  not_done = s.not_done;
}
