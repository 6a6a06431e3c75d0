-- ===== src/Disk/Animate.antt =====
-- A tick of 37-Hard_Disk_Drivers/disk.py, Animate without its drawing, and the loop of Go.
use os_tep.Prelude.{
  ℕ, zero, suc, ◌+◌, ◌-◌, Bool, true, false, ◌&&◌, ◌||◌, Option, none, some, List, [], ◌∷◌, leb,
  ◌==◌, if◌then◌else◌, get_elem?,
}
use os_tep.Prelude.Fault.{key_error, Result, ok, raise, ◌>>=◌}
use os_tep.Disk.{
  init_block_layout, check_speed, state_null, state_seek, state_rotate, state_xfer, state_done,
  number, Conf, full, position, Disk, block_at, is, switch_state, done_with_transfer,
  done_with_rotation, done_with_seek,
}
use os_tep.Disk.Policies.{update_window, add_queue_entry, get_next_io}

unfoldable pub do_request_stats : Disk → Disk
do_request_stats d = record d {
  seek_total = d.seek_total + (d.rot_begin - d.seek_begin);
  rot_total = d.rot_total + (d.xfer_begin - d.rot_begin);
  xfer_total = d.xfer_total + (d.timer - d.xfer_begin);
}

unfoldable pub turn_disk : Conf → Disk → Disk
turn_disk c d =
    let angle = d.angle + c.rotate_speed in
    record d { timer = d.timer + 1; angle = if leb (full c) angle then 0 else angle }

unfoldable pub seek_step : Conf → Disk → Result Disk
unfolding done_with_seek switch_state
seek_step c d =
    let (arrived, d') = done_with_seek c d in
    let settle = switch_state state_rotate (record d' { rot_begin = d'.timer }) in
    if is d.state state_seek then (if arrived then settle else ok d') else ok d

unfoldable pub rotate_step : Conf → Disk → Result Disk
unfolding done_with_rotation switch_state
rotate_step c d = do
  let wait : Result Disk = (do
    r ← done_with_rotation c d
    let begin = switch_state state_xfer (record r.1 { xfer_begin = r.1.timer })
    if r.0 then begin else ok r.1)
  if is d.state state_rotate then wait else ok d

-- The next request may follow without a rotation.
abbrev pub follows : ℕ → ℕ → ℕ × ℕ → Bool
follows block next ends = (block == ends.1 && next == ends.0) || block + 1 == next

unfoldable pub ends_at : Conf → ℕ → Result (ℕ × ℕ)
ends_at c track = elim (get_elem? c.layout.begin_end track) [
  | none ↦ raise key_error
  | some ends ↦ ok ends
]

-- the case of a request that follows the last one on its track
unfoldable pub keep_transfer : Conf → ℕ → Disk → Result Disk
unfolding block_at ends_at switch_state
keep_transfer c block d = do
  b ← block_at c (number block)
  next ← block_at c (number d.current_block)
  let straight =
      switch_state state_xfer
        (record d { rot_begin = d.timer; seek_begin = d.timer; xfer_begin = d.timer })
  let same_track : Result Disk = (do
    ends ← ends_at c d.arm_track
    if follows block d.current_block ends then straight else ok d)
  if b.track == next.track then same_track else ok d

-- a request that was served, and the choice of the next one
unfoldable pub complete : Conf → Disk → Result Disk
unfolding do_request_stats switch_state update_window get_next_io keep_transfer
complete c d = do
  d' ← switch_state state_done (do_request_stats d)
  d'' ← get_next_io c (update_window c d')
  keep_transfer c d.current_block d''

unfoldable pub transfer_step : Conf → Disk → Result Disk
unfolding done_with_transfer complete
transfer_step c d = do
  let wait : Result Disk = (do
    r ← done_with_transfer c d
    let served = complete c r.1
    if r.0 then served else ok r.1)
  if is d.state state_xfer then wait else ok d

unfoldable pub animate : Conf → Disk → Result Disk
unfolding turn_disk seek_step rotate_step transfer_step
animate c d = do d1 ← seek_step c (turn_disk c d); d2 ← rotate_step c d1; transfer_step c d2

-- `while self.isDone == False`, for at most `fuel` ticks
unfoldable pub animate_all : ℕ → Conf → Disk → Result (Option Disk)
unfolding animate
animate_all zero c d = ok (if d.is_done then some d else none)
animate_all (suc fuel) c d =
    let rest = animate c d >>= animate_all fuel c in if d.is_done then ok (some d) else rest

-- the requests of the queue, whose addresses are converted
unfoldable pub add_all : List ℕ → ℕ → Disk → Disk
unfolding add_queue_entry
add_all [] index d = d
add_all (b ∷ bs) index d = add_all bs (index + 1) (add_queue_entry (number b) index d)

abbrev pub empty_disk : Conf → Disk
empty_disk c = record {
  angle = 0;
  arm_x1 = position c 0;
  arm_track = 0;
  arm_target = 0;
  arm_target_x1 = 0;
  inward = true;
  timer = 0;
  state = state_null;
  queue = [];
  states = [];
  count = 0;
  curr_window = c.window;
  current_block = 0;
  current_index = 0;
  late_count = 0;
  seek_begin = 0;
  rot_begin = 0;
  xfer_begin = 0;
  seek_total = 0;
  rot_total = 0;
  xfer_total = 0;
  is_done = false;
}

-- `Go`, on a disk with these requests. What is -1 or not set at first is 0, since nothing reads it
-- before it is set.
unfoldable pub go : ℕ → Conf → List ℕ → Result (Option Disk)
unfolding add_all get_next_io animate_all
go fuel c requests = do d ← get_next_io c (add_all requests 0 (empty_disk c)); animate_all fuel c d

-- a disk that is made from the options and the lists of requests, and run
unfoldable pub simulate : ℕ → Conf → List ℕ → ℕ → List ℕ → Result (Option Disk)
unfolding init_block_layout check_speed go
simulate fuel c zones skew requests = do
  layout ← init_block_layout zones skew
  c' ← check_speed (record c { layout = layout })
  go fuel c' requests
