-- ===== src/Disk/Policies.antt =====
-- The choice of the next request in 37-Hard_Disk_Drivers/disk.py: DoSATF, DoSSTF, the scheduling
-- window and GetNextIO.
use os_tep.Prelude.{
  ℕ, ◌+◌, ◌-◌, ◌*◌, ◌/◌, ◌%◌, true, ◌&&◌, Option, none, some, List, [], ◌∷◌, ◌++◌, ltb, leb, ◌==◌,
  if◌then◌else◌, length, get_elem?, take,
}
use os_tep.Prelude.Fault.{key_error, index_error, assertion_error, exited, Result, ok, raise, ◌>>=◌}
use os_tep.Disk.{
  State, state_null, state_done, Policy, fifo, satf, bsatf, sstf, other, Address, number, text,
  Block, Conf, fair_window, full, Request, Disk, block_at, offset_at, is, plan_seek,
}

-- `while x > 360.0: x -= 360.0`
abbrev pub wrap : Conf → ℕ → ℕ
wrap c x = if leb x (full c) then x else (x - 1) % full c + 1

-- `a - b`, brought between 0 and 360
abbrev pub turn : Conf → ℕ → ℕ → ℕ
turn c a b = if leb b a then wrap c (a - b) else (full c - (b - a) % full c) % full c

abbrev pub distance : ℕ → ℕ → ℕ
distance a b = if leb a b then b - a else a - b

abbrev pub seek_est : Conf → Disk → ℕ → ℕ
seek_est c d track = 40 * c.unit / c.seek_speed * distance d.arm_track track

-- `totalEst`, times the speed of rotation; `offset` is the track's
unfoldable pub estimate : Conf → Disk → Block → ℕ → ℕ
estimate c d b offset =
    let seek = seek_est c d b.track * c.rotate_speed in
    let arrival = wrap c (d.angle + seek) in
    seek + turn c (b.angle * c.unit) (offset * c.unit + arrival) + 2 * offset * c.unit

unfoldable pub state_at : Disk → ℕ → Result State
state_at d index = elim (get_elem? d.states index) [ none ↦ raise index_error | some st ↦ ok st ]

-- `minEst`, with the request that it belongs to
abbrev pub nearer : Option (ℕ × Request) → ℕ → Request → Option (ℕ × Request)
nearer none est r = some (est, r)
nearer (some (best, q)) est r = if ltb est best then some (est, r) else some (best, q)

unfoldable pub satf_from :
    Conf → Disk → Option (ℕ × Request) → List Request → Result (Option (ℕ × Request))
unfolding block_at offset_at estimate state_at
satf_from c d best [] = ok best
satf_from c d best (r ∷ rs) = do
  st ← state_at d r.index
  let skip = satf_from c d best rs
  let look : Result (Option (ℕ × Request)) = (do
    b ← block_at c r.block
    offset ← offset_at c b.track
    satf_from c d (nearer best (estimate c d b offset) r) rs)
  if is st state_done then skip else look

abbrev pub found : Option (ℕ × Request) → Result Request
found none = raise assertion_error
found (some (est, r)) = ok r

unfoldable pub do_satf : Conf → Disk → List Request → Result Request
unfolding satf_from
do_satf c d rs = do best ← satf_from c d none rs; found best

-- the list of the requests on the nearest track, of those before
unfoldable pub sstf_from : Conf → Disk → ℕ → List Request → List Request → Result (List Request)
unfolding block_at state_at
sstf_from c d min_dist track_list [] = ok track_list
sstf_from c d min_dist track_list (r ∷ rs) = do
  st ← state_at d r.index
  let skip = sstf_from c d min_dist track_list rs
  let look : Result (List Request) = (do
    b ← block_at c r.block
    let dist = distance d.arm_track b.track
    let first = sstf_from c d dist (r ∷ []) rs
    let more = sstf_from c d min_dist (track_list ++ r ∷ []) rs
    if ltb dist min_dist then first else (if dist == min_dist then more else skip))
  if is st state_done then skip else look

abbrev pub some_of : List Request → Result (List Request)
some_of [] = raise assertion_error
some_of (r ∷ rs) = ok (r ∷ rs)

unfoldable pub do_sstf : Conf → Disk → List Request → Result (List Request)
unfolding sstf_from
do_sstf c d rs = do track_list ← sstf_from c d 1000 [] rs; some_of track_list

-- the two functions of the window, from the fair window and the current one
abbrev pub moved_window : Option ℕ → Option ℕ → Disk → Disk
moved_window (some f) window d = d
moved_window none none d = d
moved_window none (some w) d =
    if ltb 0 w && ltb w (length d.queue) then record d { curr_window = some (w + 1) } else d

unfoldable pub update_window : Conf → Disk → Disk
update_window c d = moved_window (fair_window c) d.curr_window d

abbrev pub widened : Conf → Disk → ℕ → ℕ
widened c d w = if c.precise && ltb (length d.queue) w then length d.queue else w

abbrev pub used_window : Conf → Option ℕ → Option ℕ → Disk → ℕ × Disk
used_window c fair none d = (length d.queue, d)
used_window c none (some w) d = (w, d)
used_window c (some f) (some w) d =
    if ltb 0 d.count && d.count % f == 0
    then (widened c d (w + f), record d { curr_window = some (widened c d (w + f)) })
    else (w, d)

-- the window, and the disk in which it may have been updated
unfoldable pub get_window : Conf → Disk → ℕ × Disk
get_window c d = used_window c (fair_window c) d.curr_window d

abbrev pub number_of : Address → Result ℕ
number_of (number b) = ok b
number_of (text b) = raise key_error

-- the request that the policy chooses, and the disk with the updated window
unfoldable pub choose : Conf → Policy → Disk → Result (Request × Disk)
unfolding do_satf do_sstf get_window
choose c fifo d = elim (get_elem? d.queue d.count) [
  | none ↦ raise index_error
  | some r ↦ do r' ← do_satf c d (r ∷ []); ok (r, d)
]
choose c satf d = do
  let (end, d') = get_window c d
  r ← do_satf c d' (take end d'.queue)
  ok (r, d')
choose c bsatf d = do
  let (end, d') = get_window c d
  r ← do_satf c d' (take end d'.queue)
  ok (r, d')
choose c sstf d = do
  let (end, d') = get_window c d
  track_list ← do_sstf c d' (take end d'.queue)
  r ← do_satf c d' track_list
  ok (r, d')
choose c other d = raise exited

unfoldable pub add_queue_entry : Address → ℕ → Disk → Disk
add_queue_entry block index d = record d {
  queue = d.queue ++ record { block = block; index = index } ∷ [];
  states = d.states ++ state_null ∷ [];
}

-- another block, which may come late
unfoldable pub add_late : Conf → Disk → Disk
unfolding add_queue_entry
add_late c d = elim (get_elem? c.late d.late_count) [
  | none ↦ d
  | some block ↦ record (add_queue_entry block (length d.queue) d) { late_count = d.late_count + 1 }
]

unfoldable pub get_next_io : Conf → Disk → Result Disk
unfolding choose block_at plan_seek add_late
get_next_io c d = do
  let next : Result Disk = (do
    p ← choose c c.policy d
    block ← number_of p.0.block
    b ← block_at c p.0.block
    d' ← plan_seek c b.track (record p.1 { current_block = block; current_index = p.0.index })
    ok (add_late c d'))
  if d.count == length d.queue then ok (record d { is_done = true }) else next
