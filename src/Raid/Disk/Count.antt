-- ===== src/Raid/Disk/Count.antt =====
-- The counters of the disks of 38-RAID/raid.py, over the operations of a request.
use os_tep.Prelude.{
  lt→ltb, length-set, ℕ, zero, suc, ◌+◌, ◌*◌, ◌≤◌, ◌<◌, ◌≡◌, refl, ◌∙◌, inl, inr, Bool, true, false,
  some, List, [], ◌∷◌, arith, ltb, ◌==◌, if◌then◌else◌, Bool-cases, length, get_elem?, set,
}
use os_tep.Prelude.Int.{pos}
use os_tep.Prelude.Fault.{assertion_error, raise, Returns, Returns-bind, Returns-map}
use os_tep.Raid.{Io}
use os_tep.Raid.Disk.{
  DiskState, init_disk, distance, is_near, account, seek, enqueue_disk, place_of, perform,
  perform_all, go_from, go,
}

-- Every I/O is counted as sequential, nearly sequential or random; the geometry is as built.
pub record IsCounted (d : DiskState) : Type 0 where
  pub sum : d.count_io ≡ d.count_seq + d.count_nseq + d.count_rand
  pub seeks : d.count_rand * (d.seek_time + d.xfer_time) ≤ d.util_time

pub init_disk-IsCounted : IsCounted init_disk
init_disk-IsCounted = omega arith

record IsSeek (d d' : DiskState) : Type 0 where
  same_io : d'.count_io ≡ d.count_io
  same_size : d'.blocks_per_disk ≡ d.blocks_per_disk
  one_more :
      d'.count_seq + d'.count_nseq + d'.count_rand ≡ d.count_seq + d.count_nseq + d.count_rand + 1
  seeks :
      d.count_rand * (d.seek_time + d.xfer_time) ≤ d.util_time
      → d'.count_rand * (d'.seek_time + d'.xfer_time) ≤ d'.util_time

account-IsSeek : (near : Bool) (diff : ℕ) (d : DiskState) → IsSeek d (account near diff d)
unfolding account
account-IsSeek true diff d = elim (Bool-cases (diff == 1)) [
  | inl e ↦ rw e (omega arith)
  | inr e ↦ rw e (omega arith)
]
account-IsSeek false diff d = record {
  same_io = refl;
  same_size = refl;
  one_more = omega arith;
  seeks = λ h. omega arith;
}

seek-IsSeek : (d : DiskState) (addr : ℕ) → IsSeek d (seek d addr)
unfolding seek
seek-IsSeek d addr = account-IsSeek (is_near d addr) (distance addr d.curr_addr) d

-- An access on the disk keeps the counters consistent, counts one I/O and moves the head there; it
-- raises the AssertionError exactly if the address is not on the disk.
pub enqueue_disk_lem :
    (d : DiskState) (addr : ℕ)
    → IsCounted d
    → (addr < d.blocks_per_disk
        → Returns
            (λ d'.
              IsCounted d'
              × (d'.count_io ≡ d.count_io + 1)
              × (d'.curr_addr ≡ pos addr)
              × (d'.blocks_per_disk ≡ d.blocks_per_disk))
            (enqueue_disk d addr))
      × (d.blocks_per_disk ≤ addr → enqueue_disk d addr ≡ raise assertion_error)
unfolding enqueue_disk
enqueue_disk_lem d addr v = (
  λ h.
      let s = seek-IsSeek (record d { count_io = d.count_io + 1 }) addr in
      rw (lt→ltb addr d.blocks_per_disk h)
        (record { sum = omega arith; seeks = s.seeks v.seeks }, s.same_io, refl, s.same_size),
  λ h. ground arith,
)

-- A disk whose counters are consistent, with the capacity of `init_disk`.
abbrev pub AllCounted : List DiskState → Type 0
AllCounted [] = Unit
AllCounted (d ∷ ds) = (IsCounted d × (d.blocks_per_disk ≡ 10000)) × AllCounted ds

abbrev pub total_io : List DiskState → ℕ
total_io [] = 0
total_io (d ∷ ds) = d.count_io + total_io ds

AllCounted-get :
    (i : ℕ) (ds : List DiskState) {d : DiskState}
    → AllCounted ds
    → get_elem? ds i ≡ some d
    → IsCounted d × (d.blocks_per_disk ≡ 10000)
AllCounted-get i [] h e = cc
AllCounted-get zero (c ∷ ds) h e = ground arith
AllCounted-get (suc i) (c ∷ ds) h e = AllCounted-get i ds h.1 e

AllCounted-set :
    (i : ℕ) (ds : List DiskState) (d' : DiskState)
    → AllCounted ds
    → IsCounted d' × (d'.blocks_per_disk ≡ 10000)
    → AllCounted (set ds i d')
AllCounted-set i [] d' h k = tt
AllCounted-set zero (c ∷ ds) d' h k = (k, h.1)
AllCounted-set (suc i) (c ∷ ds) d' h k = (h.0, AllCounted-set i ds d' h.1 k)

total_io-set :
    (i : ℕ) (ds : List DiskState) (d d' : DiskState)
    → get_elem? ds i ≡ some d
    → d'.count_io ≡ d.count_io + 1
    → total_io (set ds i d') ≡ total_io ds + 1
total_io-set i [] d d' e h = cc
total_io-set zero (c ∷ ds) d d' e h = ground arith
total_io-set (suc i) (c ∷ ds) d d' e h = omega (arith, total_io-set i ds d d' e h)

get_elem?_lt :
    (i : ℕ) (ds : List DiskState) → i < length ds → (d : DiskState) × (get_elem? ds i ≡ some d)
get_elem?_lt i [] h = absurd (omega arith)
get_elem?_lt zero (d ∷ ds) h = (d, refl)
get_elem?_lt (suc i) (d ∷ ds) h = get_elem?_lt i ds (omega arith)

-- the operations go to disks of the array and to addresses on them
abbrev pub AllOnDisks : ℕ → List Io → Type 0
AllOnDisks num_disks [] = Unit
AllOnDisks num_disks (io ∷ ios) =
    (((place_of io).0 < num_disks) × ((place_of io).1 < 10000)) × AllOnDisks num_disks ios

perform_lem :
    (io : Io) (ds : List DiskState)
    → AllCounted ds
    → (place_of io).0 < length ds
    → (place_of io).1 < 10000
    → Returns
        (λ ds'. AllCounted ds' × (total_io ds' ≡ total_io ds + 1) × (length ds' ≡ length ds))
        (perform io ds)
unfolding perform
perform_lem io ds v lt off =
    let (d, e) = get_elem?_lt (place_of io).0 ds lt in
    let (c, cap) = AllCounted-get (place_of io).0 ds v e in
    let run = (enqueue_disk_lem d (place_of io).1 c).0 (rw cap off) in
    rw (e, perform)
      (Returns-bind _ _ (enqueue_disk d (place_of io).1) _ run λ d' h. (
        AllCounted-set (place_of io).0 ds d' v (h.0, h.3 ∙ cap),
        total_io-set (place_of io).0 ds d d' e h.1,
        length-set ds (place_of io).0 d',
      ))

-- On disks of the built-in capacity whose counters are consistent, operations that go to disks of
-- the array and addresses on them raise nothing, keep the counters consistent, and are each counted
-- once.
pub perform_all_lem :
    (ios : List Io) (ds : List DiskState)
    → AllCounted ds
    → AllOnDisks (length ds) ios
    → Returns
        (λ ds'. AllCounted ds' × (total_io ds' ≡ total_io ds + length ios))
        (perform_all ios ds)
unfolding perform_all
perform_all_lem [] ds v on = (v, omega arith)
perform_all_lem (io ∷ ios) ds v on =
    Returns-bind _ _ (perform io ds) (perform_all ios) (perform_lem io ds v on.0.0 on.0.1) λ ds' h.
      Returns-map _ _ (perform_all ios ds') (perform_all_lem ios ds' h.0 (rw h.2 on.1))
        λ ds'' k. (k.0, omega (arith, h.1, k.1))

-- `go` is the largest utilisation of a disk.
pub go_lem :
    (i : ℕ) (ds : List DiskState) {d : DiskState} → get_elem? ds i ≡ some d → d.util_time ≤ go ds
unfolding go
go_lem i ds {d} e = above 0 i ds e
  where
    below : (t : ℕ) (cs : List DiskState) → t ≤ go_from t cs
    below t [] = omega arith
    below t (c ∷ cs) = ground (arith, below t cs, below c.util_time cs)

    above :
        (t i : ℕ) (cs : List DiskState) {c : DiskState}
        → get_elem? cs i ≡ some c
        → c.util_time ≤ go_from t cs
    above t i [] e = cc
    above t zero (c ∷ cs) e = ground (arith, below t cs, below c.util_time cs)
    above t (suc i) (c ∷ cs) e = above (if ltb t c.util_time then c.util_time else t) i cs e
