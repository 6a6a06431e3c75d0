-- ===== src/Disk/Phase.antt =====
-- What holds between two ticks of 37-Hard_Disk_Drivers/disk.py while a request is served, and how many
-- ticks are left at most.
use os_tep.Prelude.{
  arith, ℕ, ◌+◌, ◌-◌, ◌*◌, ◌%◌, ◌≤◌, ◌<◌, ◌≡◌, ◌⊎◌, true, false, some, length, get_elem?,
}
use native.Mathlib.Nat.{mul-le-mul_right}
use os_tep.Disk.{
  state_seek, state_rotate, state_xfer, fifo, number, Block, Conf, fair_window, full, position,
  Request, Disk,
}
use os_tep.Disk.Angle.{IsAngle, Wait}
use os_tep.Disk.Serves.{IsQueue, num_done}
use os_tep.Disk.Window.{Reaches, Before}

-- the request that is served
pub record Current (c : Conf) (d : Disk) (x : Block) : Type 0 where
  pub request : Request
  pub queued : get_elem? d.queue d.current_index ≡ some request
  pub named : request.block ≡ number d.current_block
  pub has_block : get_elem? c.layout.blocks d.current_block ≡ some x
  pub has_state : get_elem? d.states d.current_index ≡ some d.state
  pub next : c.policy ≡ fifo → d.current_index ≡ d.count

-- the angles at which the rotation and the transfer end
abbrev pub begins_at : Conf → Block → ℕ → ℕ
begins_at c x offset = (x.angle + 359 * offset) % 360 * c.unit

abbrev pub ends_at_angle : Conf → Block → ℕ → ℕ
ends_at_angle c x offset = (x.angle + offset) % 360 * c.unit

-- the end of the circle is above every angle
pub below_full : (c : Conf) (a : ℕ) → 0 < full c → a % 360 * c.unit < full c
below_full c a h = let le : a % 360 ≤ 359 = omega arith in omega (arith, mul-le-mul_right c.unit le)

-- The arm is `left` ticks from the track of the block.
pub record Seeking (c : Conf) (n : ℕ) (d : Disk) (x : Block) (w : ℕ) : Type 0 where
  pub is_seek : d.state ≡ state_seek
  pub left : ℕ
  pub some_left : 0 < left
  pub target : d.arm_target ≡ x.track
  pub target_x1 : d.arm_target_x1 ≡ position c x.track
  pub towards :
      ((d.inward ≡ true) × (d.arm_x1 + left * c.seek_speed ≡ d.arm_target_x1))
      ⊎ ((d.inward ≡ false) × (d.arm_target_x1 + left * c.seek_speed ≡ d.arm_x1))
  pub begun : d.seek_begin ≤ d.timer
  pub weight : w ≡ left + 2 * n + 2

pub record Rotating (c : Conf) (n : ℕ) (d : Disk) (x : Block) (w : ℕ) : Type 0 where
  pub is_rotate : d.state ≡ state_rotate
  pub settled : d.arm_track ≡ x.track
  pub at_track : d.arm_x1 ≡ position c d.arm_track
  pub begun : d.seek_begin ≤ d.rot_begin
  pub rotated : d.rot_begin ≤ d.timer
  pub offset : ℕ
  pub has_offset : get_elem? c.layout.offsets x.track ≡ some offset
  pub left : ℕ
  pub wait : Wait c.rotate_speed (full c) n d.angle (begins_at c x offset) left
  pub weight : w ≡ left + n + 1

pub record Transferring (c : Conf) (n : ℕ) (d : Disk) (x : Block) (w : ℕ) : Type 0 where
  pub is_xfer : d.state ≡ state_xfer
  pub settled : d.arm_track ≡ x.track
  pub at_track : d.arm_x1 ≡ position c d.arm_track
  pub begun : d.seek_begin ≤ d.rot_begin
  pub rotated : d.rot_begin ≤ d.xfer_begin
  pub moved : d.xfer_begin ≤ d.timer
  pub offset : ℕ
  pub has_offset : get_elem? c.layout.offsets x.track ≡ some offset
  pub left : ℕ
  pub wait : Wait c.rotate_speed (full c) n d.angle (ends_at_angle c x offset) left
  pub weight : w ≡ left

abbrev pub Phase : Conf → ℕ → Disk → Block → ℕ → Type 0
Phase c n d x w = Seeking c n d x w ⊎ Rotating c n d x w ⊎ Transferring c n d x w

-- more than a request takes
abbrev pub most : ℕ → ℕ → ℕ
most n steps = 2 * steps + 2 * n + 3

-- the requests that are there from the beginning and the late ones
abbrev pub all_requests : Conf → ℕ → ℕ
all_requests c n0 = n0 + length c.late

-- A request is served; `w` bounds the ticks that are left. There were `n0` requests at first.
pub record Serving (c : Conf) (n steps n0 : ℕ) (d : Disk) (w : ℕ) : Type 0 where
  pub queue : IsQueue c d
  pub block : Block
  pub current : Current c d block
  pub turns : IsAngle c.rotate_speed n d.angle
  pub window : Reaches (fair_window c) d.curr_window d.count
  pub late_in : length d.queue ≡ n0 + d.late_count
  pub late_left :
      (d.late_count ≡ length c.late)
      ⊎ ((d.late_count ≡ d.count + 1) × (d.late_count ≤ length c.late))
  pub some_left : d.count < length d.queue
  pub sums : d.seek_total + d.rot_total + d.xfer_total ≡ d.seek_begin
  pub phase_left : ℕ
  pub phase : Phase c n d block phase_left
  pub small : phase_left < most n steps
  pub not_done : d.is_done ≡ false
  pub weight : w ≡ (all_requests c n0 - d.count - 1) * most n steps + phase_left

-- Between two requests.
pub record Idle (c : Conf) (n n0 : ℕ) (d : Disk) : Type 0 where
  pub queue : IsQueue c d
  pub turns : IsAngle c.rotate_speed n d.angle
  pub window : Before (fair_window c) d.curr_window d.count (length d.queue)
  pub late_in : length d.queue ≡ n0 + d.late_count
  pub late_left :
      (d.late_count ≡ length c.late) ⊎ ((d.late_count ≡ d.count) × (d.late_count ≤ length c.late))
  pub sums : d.seek_total + d.rot_total + d.xfer_total ≡ d.timer
  pub at_track : d.arm_x1 ≡ position c d.arm_track
  pub not_done : d.is_done ≡ false

-- All requests are served, the late ones too, and the times add up.
pub record Over (c : Conf) (n0 : ℕ) (d : Disk) : Type 0 where
  pub is_over : d.is_done ≡ true
  pub all_there : length d.states ≡ all_requests c n0
  pub all_done : num_done d.states ≡ all_requests c n0
  pub sums : d.seek_total + d.rot_total + d.xfer_total ≡ d.timer
