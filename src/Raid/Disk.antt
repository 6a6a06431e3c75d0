-- ===== src/Raid/Disk.antt =====
-- 38-RAID/raid.py, class disk, and the performing of a request on the disks of the array. Times
-- are in tenths of a millisecond: a seek takes 100 and the transfer of a block 1.
pub mod Count
use os_tep.Prelude.{
  lt→ltb, length-set, ℕ, zero, suc, ◌+◌, ◌-◌, ◌*◌, ◌/◌, ◌≤◌, ◌<◌, ◌≡◌, refl, ◌∙◌, inl, inr, Bool,
  true, false, ◌||◌, none, some, List, [], ◌∷◌, arith, ltb, leb, ◌==◌, if◌then◌else◌, Bool-cases,
  length, get_elem?, set,
}
use os_tep.Prelude.Int.{ℤ, pos, negsuc}
use os_tep.Prelude.Fault.{
  assertion_error, index_error, Result, ok, raise, ◌>>=◌, check, ◌>>◌, Returns, Returns-bind,
  Returns-map,
}
use os_tep.Raid.{Io, read, write, Place, Raid, enqueue}

pub record DiskState : Type 0 where
  pub seek_time : ℕ
  pub xfer_time : ℕ
  pub curr_addr : ℤ
  pub num_tracks : ℕ
  pub blocks_per_track : ℕ
  pub blocks_per_disk : ℕ
  pub count_io : ℕ
  pub count_seq : ℕ
  pub count_nseq : ℕ
  pub count_rand : ℕ
  pub util_time : ℕ

-- `__init__` with its default arguments
abbrev pub init_disk : DiskState
init_disk = record {
  seek_time = 100;
  xfer_time = 1;
  curr_addr = negsuc 9999;
  num_tracks = 100;
  blocks_per_track = 100;
  blocks_per_disk = 100 * 100;
  count_io = 0;
  count_seq = 0;
  count_nseq = 0;
  count_rand = 0;
  util_time = 0;
}

-- `int(addr / num_tracks)`, which rounds towards 0
pub track : ℤ → ℕ → ℤ
track (pos a) n = pos (a / n)
track (negsuc a) n = if suc a / n == 0 then pos 0 else negsuc (suc a / n - 1)

pub same_track : ℤ → ℤ → Bool
same_track (pos a) (pos b) = a == b
same_track (negsuc a) (negsuc b) = a == b
same_track _ _ = false

-- `|addr - curr|`
pub distance : ℕ → ℤ → ℕ
distance addr (pos c) = if leb c addr then addr - c else c - addr
distance addr (negsuc c) = addr + suc c

-- the access is on the same track, or less than a track away
pub is_near : DiskState → ℕ → Bool
unfolding track same_track distance
is_near d addr =
    same_track (track d.curr_addr d.num_tracks) (pos (addr / d.num_tracks))
    || ltb (distance addr d.curr_addr) d.blocks_per_track

-- counts an access as near or random, and as sequential where the distance is 1
pub account : Bool → ℕ → DiskState → DiskState
account true diff d =
    if diff == 1
    then record d { count_seq = d.count_seq + 1; util_time = d.util_time + diff * d.xfer_time }
    else record d { count_nseq = d.count_nseq + 1; util_time = d.util_time + diff * d.xfer_time }
account false diff d = record d {
  count_rand = d.count_rand + 1;
  util_time = d.util_time + (d.seek_time + d.xfer_time);
}

pub seek : DiskState → ℕ → DiskState
seek d addr = account (is_near d addr) (distance addr d.curr_addr) d

pub enqueue_disk : DiskState → ℕ → Result DiskState
enqueue_disk d addr = do
  check (ltb addr d.blocks_per_disk) assertion_error
  let d' = seek (record d { count_io = d.count_io + 1 }) addr
  ok (record d' { curr_addr = pos addr })

abbrev pub place_of : Io → Place
place_of (read p) = p
place_of (write p) = p

-- `doSingleRead` and `doSingleWrite`
pub perform : Io → List DiskState → Result (List DiskState)
perform io disks = elim (get_elem? disks (place_of io).0) [
  | none ↦ raise index_error
  | some d ↦ do d' ← enqueue_disk d (place_of io).1; ok (set disks (place_of io).0 d')
]

pub perform_all : List Io → List DiskState → Result (List DiskState)
perform_all [] disks = ok disks
perform_all (io ∷ ios) disks = perform io disks >>= perform_all ios

-- `raid.enqueue`: the operations of a request, performed in order
pub submit : Raid → ℕ → ℕ → Bool → List DiskState → Result (List DiskState)
unfolding perform_all
submit r addr size is_write disks = do
  ios ← enqueue r r.level addr size is_write
  perform_all ios disks

-- `raid.go`: the time of the busiest disk
pub go_from : ℕ → List DiskState → ℕ
go_from tmax [] = tmax
go_from tmax (d ∷ ds) = go_from (if ltb tmax d.util_time then d.util_time else tmax) ds

pub go : List DiskState → ℕ
unfolding go_from
go disks = go_from 0 disks
