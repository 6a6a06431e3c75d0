-- ===== src/Disk.antt =====
-- 37-Hard_Disk_Drivers/disk.py without its drawing: class Disk, which serves a queue of requests for
-- the blocks of a rotating disk with three tracks. disk-precise.py is the same program on decimal
-- numbers, except for one line of GetWindow; the parameter `precise` chooses it.
-- Angles, positions and speeds are counted in parts of a degree or a pixel, `unit` to one, and are
-- exact; times that are divided by the rotation speed are compared before the division. A window is a
-- positive number, or none for -1.
pub mod Policies
pub mod Animate
pub mod Blocks
pub mod Pick
pub mod Nearby
pub mod Window
pub mod Angle
pub mod Choice
pub mod States
pub mod Phase
pub mod Serves
pub mod Next
pub mod Plan
pub mod Round
pub mod Late
pub mod Follow
pub mod Stay
pub mod Straight
pub mod Complete
pub mod Wheel
pub mod Seek
pub mod Tick
pub mod Finish
pub mod Whole
pub mod Options
pub mod Requests
mod Tests
use os_tep.Prelude.{
  ℕ, zero, suc, ◌+◌, ◌-◌, ◌*◌, ◌/◌, ◌%◌, ◌≤◌, ◌<◌, ◌≡◌, refl, sym, ap, ◌∙◌, ◌≢◌, ◌↔◌, ◌⊎◌, inl, inr,
  Bool, true, false, not, ◌&&◌, ◌||◌, Option, none, some, List, [], ◌∷◌, ◌++◌, map, arith, ltb, leb,
  ◌==◌, if◌then◌else◌, Bool-cases, Option-cases, length, get_elem?, set, take, drop, replicate,
  get_or,
}
use os_tep.Prelude.Fault.{
  Fault, key_error, index_error, assertion_error, value_error, exited, Result, ok, raise, ◌>>=◌,
  check, ◌>>◌,
}

pub data State : Type 0 where
  state_null state_seek state_rotate state_xfer state_done : State

pub data Policy : Type 0 where
  fifo satf bsatf sstf other : Policy

-- A block's address; one that was not converted to a number is a key of no dictionary.
pub data Address : Type 0 where
  number text : ℕ → Address

pub record Block : Type 0 where
  pub track : ℕ
  pub angle : ℕ

-- `blockAngleOffset`, the maps from blocks to tracks and angles, `tracksBeginEnd` and `maxBlock`
pub record Layout : Type 0 where
  pub offsets : List ℕ
  pub blocks : List Block
  pub begin_end : List (ℕ × ℕ)
  pub max_block : ℕ

-- `count` blocks of a track from the `i`-th on, at their angles relative to the start
pub place : ℕ → ℕ → ℕ → ℕ → ℕ → List Block
place zero track off skew i = []
place (suc count) track off skew i =
    record { track = track; angle = (i * off + off * skew + 180) % 360 }
    ∷ place count track off skew (i + 1)

-- the length of `range(0, 360, off)`
abbrev pub steps : ℕ → ℕ
steps off = (359 + off) / off

pub init_block_layout : List ℕ → ℕ → Result Layout
unfolding place
init_block_layout [] skew = raise assertion_error
init_block_layout (z0 ∷ []) skew = raise assertion_error
init_block_layout (z0 ∷ z1 ∷ []) skew = raise assertion_error
init_block_layout (z0 ∷ z1 ∷ z2 ∷ []) skew = do
  let off0 = 2 * (z0 / 2)
  let off1 = 2 * (z1 / 2)
  let off2 = 2 * (z2 / 2)
  check (not (off0 == 0 || (off1 == 0 || off2 == 0))) value_error
  let n0 = steps off0
  let n1 = steps off1
  let n2 = steps off2
  ok (record {
    offsets = z0 / 2 ∷ z1 / 2 ∷ z2 / 2 ∷ [];
    blocks = place n0 0 off0 0 0 ++ (place n1 1 off1 skew 0 ++ place n2 2 off2 (2 * skew) 0);
    begin_end = (0, n0 - 1) ∷ (n0, n0 + n1 - 1) ∷ (n0 + n1, n0 + n1 + n2 - 1) ∷ [];
    max_block = n0 + n1;
  })
init_block_layout (z0 ∷ z1 ∷ z2 ∷ z3 ∷ zs) skew = raise assertion_error

pub record Conf : Type 0 where
  pub unit : ℕ
  pub seek_speed : ℕ
  pub rotate_speed : ℕ
  pub policy : Policy
  pub window : Option ℕ
  pub precise : Bool
  pub layout : Layout
  pub late : List Address

-- A speed of the arm that does not divide the width of a track ends the program.
pub check_speed : Conf → Result Conf
check_speed c = do check ((40 * c.unit) % c.seek_speed == 0) exited; ok c

abbrev pub fair_window : Conf → Option ℕ
fair_window c = elim c.policy [
  | bsatf ↦ c.window
  | fifo ↦ none
  | satf ↦ none
  | sstf ↦ none
  | other ↦ none
]

abbrev pub full : Conf → ℕ
full c = 360 * c.unit

-- the arm's left end when its head is over a track
abbrev pub position : Conf → ℕ → ℕ
position c track = (90 + 40 * track) * c.unit

pub record Request : Type 0 where
  pub block : Address
  pub index : ℕ

pub record Disk : Type 0 where
  pub angle : ℕ
  pub arm_x1 : ℕ
  pub arm_track : ℕ
  pub arm_target : ℕ
  pub arm_target_x1 : ℕ
  pub inward : Bool
  pub timer : ℕ
  pub state : State
  pub queue : List Request
  pub states : List State
  pub count : ℕ
  pub curr_window : Option ℕ
  pub current_block : ℕ
  pub current_index : ℕ
  pub late_count : ℕ
  pub seek_begin : ℕ
  pub rot_begin : ℕ
  pub xfer_begin : ℕ
  pub seek_total : ℕ
  pub rot_total : ℕ
  pub xfer_total : ℕ
  pub is_done : Bool

pub block_at : Conf → Address → Result Block
block_at c (number b) = elim (get_elem? c.layout.blocks b) [
  | none ↦ raise key_error
  | some block ↦ ok block
]
block_at c (text b) = raise key_error

pub offset_at : Conf → ℕ → Result ℕ
offset_at c track = elim (get_elem? c.layout.offsets track) [
  | none ↦ raise index_error
  | some offset ↦ ok offset
]

abbrev pub state_num : State → ℕ
state_num state_null = 0
state_num state_seek = 1
state_num state_rotate = 2
state_num state_xfer = 3
state_num state_done = 4

abbrev pub is : State → State → Bool
is a b = state_num a == state_num b

pub switch_state : State → Disk → Result Disk
switch_state st d =
    if ltb d.current_index (length d.states)
    then ok (record d { state = st; states = set d.states d.current_index st })
    else raise index_error

abbrev pub radially_close_to : Conf → ℕ → ℕ → Bool
radially_close_to c a1 a2 = ltb (if ltb a2 a1 then a1 - a2 else a2 - a1) c.rotate_speed

pub done_with_transfer : Conf → Disk → Result (Bool × Disk)
unfolding offset_at block_at switch_state
done_with_transfer c d = do
  offset ← offset_at c d.arm_track
  b ← block_at c (number d.current_block)
  let served : Result (Bool × Disk) = (do
    d' ← switch_state state_done d
    ok (true, record d' { count = d'.count + 1 }))
  if radially_close_to c d.angle ((b.angle + offset) % 360 * c.unit) then served else ok (false, d)

-- `(angle - offset) % 360`, where the difference may be negative, is written with a sum
pub done_with_rotation : Conf → Disk → Result (Bool × Disk)
unfolding offset_at block_at switch_state
done_with_rotation c d = do
  offset ← offset_at c d.arm_track
  b ← block_at c (number d.current_block)
  let there : Result (Bool × Disk) = (do d' ← switch_state state_xfer d; ok (true, d'))
  if radially_close_to c d.angle ((b.angle + 359 * offset) % 360 * c.unit)
      then there
      else ok (false, d)

pub plan_seek : Conf → ℕ → Disk → Result Disk
unfolding switch_state
plan_seek c track d = do
  d' ← switch_state state_seek (record d { seek_begin = d.timer })
  let settled = switch_state state_rotate (record d' { rot_begin = d'.timer })
  if track == d'.arm_track
      then settled
      else ok (record d' {
        arm_target = track;
        arm_target_x1 = position c track;
        inward = leb d'.arm_track track;
      })

pub done_with_seek : Conf → Disk → Bool × Disk
done_with_seek c d =
    let x = if d.inward then d.arm_x1 + c.seek_speed else d.arm_x1 - c.seek_speed in
    if (if d.inward then leb d.arm_target_x1 x else leb x d.arm_target_x1)
    then (true, record d { arm_x1 = x; arm_track = d.arm_target })
    else (false, record d { arm_x1 = x })
