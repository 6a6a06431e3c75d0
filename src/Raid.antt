-- ===== src/Raid.antt =====
-- 38-RAID/raid.py, class raid: the block maps of RAID 0, 1, 4 and 5, and the physical reads and
-- writes of a request. `int(a / b)` is the quotient of natural numbers. A request is turned into
-- the list of its physical operations in their order; `Raid.Disk` performs them.
pub mod Layout
pub mod Parity
pub mod Pieces
pub mod Writes
pub mod Disk
mod Tests
use os_tep.Prelude.{
  ℕ, zero, suc, ◌+◌, ◌-◌, ◌*◌, ◌/◌, ◌%◌, Bool, true, false, List, [], ◌∷◌, ◌++◌, map, if◌then◌else◌,
  leb, ltb, ◌==◌, not, ◌&&◌, ◌||◌,
}
use os_tep.Prelude.Fault.{Fault, assertion_error, exited, Result, ok, raise, ◌>>=◌, check, ◌>>◌}

pub data Level : Type 0 where
  raid0 raid1 raid4 raid5 : Level

pub data Raid5Type : Type 0 where
  left_symmetric left_asymmetric : Raid5Type

-- the fields that the maps read; `chunk_size` in blocks
pub record Raid : Type 0 where
  pub chunk_size : ℕ
  pub num_disks : ℕ
  pub level : Level
  pub raid5type : Raid5Type

-- a disk and the offset on it
abbrev pub Place : Type 0
Place = ℕ × ℕ

pub data Io : Type 0 where
  read : Place → Io
  write : Place → Io

abbrev pub blocksize : ℕ
blocksize = 4096

abbrev pub is_level1 : Level → Bool
is_level1 raid1 = true
is_level1 raid0 = false
is_level1 raid4 = false
is_level1 raid5 = false

-- `__init__`, with the size of a chunk in bytes
pub init : ℕ → ℕ → Level → Raid5Type → Result Raid
init chunk_bytes num_disks level raid5type = do
  check (chunk_bytes % blocksize == 0) exited
  check (not (is_level1 level && not (num_disks % 2 == 0))) exited
  ok (record {
    chunk_size = chunk_bytes / blocksize;
    num_disks = num_disks;
    level = level;
    raid5type = raid5type;
  })

-- `blocksInStripe`, of RAID 4 and 5
abbrev pub blocks_in_stripe : Raid → ℕ
blocks_in_stripe r = (r.num_disks - 1) * r.chunk_size

pub bmap0 : Raid → ℕ → Place
bmap0 r bnum =
    let cnum = bnum / r.chunk_size in
    let coff = bnum % r.chunk_size in (cnum % r.num_disks, cnum / r.num_disks * r.chunk_size + coff)

-- both disks of the mirrored pair, and the offset
pub bmap1 : Raid → ℕ → ℕ × ℕ × ℕ
bmap1 r bnum =
    let cnum = bnum / r.chunk_size in
    let coff = bnum % r.chunk_size in
    let disk = 2 * (cnum % (r.num_disks / 2)) in
    (disk, disk + 1, cnum / (r.num_disks / 2) * r.chunk_size + coff)

pub bmap4 : Raid → ℕ → Place
bmap4 r bnum =
    let cnum = bnum / r.chunk_size in
    let coff = bnum % r.chunk_size in
    (cnum % (r.num_disks - 1), cnum / (r.num_disks - 1) * r.chunk_size + coff)

-- `self.pdisk`, set by `__init__`
pub pmap4 : Raid → ℕ → ℕ
pmap4 r snum = r.num_disks - 1

-- the shift of the data disk in a row with parity disk `pdisk` and column `col`. The remainder of
-- a negative number is that of Python.
pub rotate5 : Raid5Type → ℕ → ℕ → ℕ → ℕ → ℕ
rotate5 left_asymmetric num_disks col pdisk disk = if leb pdisk disk then disk + 1 else disk
rotate5 left_symmetric num_disks col pdisk disk = (disk + num_disks - col) % num_disks

-- `__bmap5`: the disk, the parity disk and the offset
pub bmap5_full : Raid → ℕ → Result (ℕ × ℕ × ℕ)
unfolding rotate5
bmap5_full r bnum =
    let cnum = bnum / r.chunk_size in
    let coff = bnum % r.chunk_size in
    let ddsk = cnum / (r.num_disks - 1) in
    let doff = ddsk * r.chunk_size + coff in
    let col = ddsk % r.num_disks in
    let pdisk = r.num_disks - 1 - col in
    let disk = rotate5 r.raid5type r.num_disks col pdisk (cnum % (r.num_disks - 1)) in
    check (not (disk == pdisk)) assertion_error >> ok (disk, pdisk, doff)

pub bmap5 : Raid → ℕ → Result Place
bmap5 r bnum = do (disk, pdisk, off) ← bmap5_full r bnum; ok (disk, off)

pub pmap5 : Raid → ℕ → Result ℕ
pmap5 r snum = do (disk, pdisk, off) ← bmap5_full r (snum * blocks_in_stripe r); ok pdisk

-- `range(start, start + count)`
pub range : ℕ → ℕ → List ℕ
range start zero = []
range start (suc count) = start ∷ range (start + 1) count

pub map_result {ℓ} : {A : Type ℓ} → (ℕ → Result A) → List ℕ → Result (List A)
map_result f [] = ok []
map_result f (b ∷ bs) = do x ← f b; xs ← map_result f bs; ok (x ∷ xs)

pub contains : ℕ → List ℕ → Bool
contains n [] = false
contains n (m ∷ ms) = m == n || contains n ms

-- the offsets of the places, each once, in the order of their first occurrence
pub offsets : List ℕ → List Place → List ℕ
unfolding contains
offsets seen [] = seen
offsets seen (p ∷ ps) = offsets (if contains p.1 seen then seen else seen ++ p.1 ∷ []) ps

-- RAID 0 and 1: the operations for one block
pub block_io0 : Raid → Bool → ℕ → List Io
unfolding bmap0
block_io0 r is_write b = (if is_write then write (bmap0 r b) else read (bmap0 r b)) ∷ []

pub block_io1 : Raid → Bool → ℕ → List Io
unfolding bmap1
block_io1 r is_write b =
    let (disk1, disk2, off) = bmap1 r b in
    if is_write
    then write (disk1, off) ∷ write (disk2, off) ∷ []
    else (if off % 2 == 0 then read (disk1, off) else read (disk2, off)) ∷ []

pub each_block : (ℕ → List Io) → List ℕ → List Io
each_block f [] = []
each_block f (b ∷ bs) = f b ++ each_block f bs

module _ (stripe_size : ℕ) (bmap : ℕ → Result Place) (pmap : ℕ → Result ℕ) where
  -- the reads by which the new parity is computed: of the old data and parity, or of the rest
  pub parity_reads : ℕ → ℕ → ℕ → ℕ → Result (List Io)
  unfolding range map_result offsets
  parity_reads pdisk stripe begin num_writes =
      let stripe_begin = stripe * stripe_size in
      let end = begin + num_writes in
      let subtractive : Result (List Io) = (do
        old ← map_result bmap (range begin num_writes)
        ok (map read old ++ map (λ off. read (pdisk, off)) (offsets [] old))) in
      let additive : Result (List Io) = (do
        before ← map_result bmap (range stripe_begin (begin - stripe_begin))
        after ← map_result bmap (range end (stripe_begin + stripe_size - end))
        ok (map read before ++ map read after)) in
      if leb (num_writes + 1) (stripe_size - num_writes) then subtractive else additive

  -- `doPartialWrite` of the blocks from `begin` to `end`
  pub do_partial_write : ℕ → ℕ → ℕ → Result (List Io)
  unfolding parity_reads
  do_partial_write stripe begin end = do
    pdisk ← pmap stripe
    reads ← parity_reads pdisk stripe begin (end - begin)
    places ← map_result bmap (range begin (end - begin))
    ok (reads ++ (map write places ++ map (λ off. write (pdisk, off)) (offsets [] places)))

-- what `enqueue45` writes of a stripe: the stripe, the first block, and the end
abbrev pub Piece : Type 0
Piece = ℕ × ℕ × ℕ

pub piece_end : ℕ → ℕ → ℕ → ℕ → ℕ
piece_end stripe_size stripe begin left =
    let end_of_stripe = stripe * stripe_size + stripe_size in
    let end = if leb stripe_size left then begin + stripe_size else begin + left in
    if leb end_of_stripe end then end_of_stripe else end

-- the loop over the stripes, `count` of them from `stripe` on
pub pieces : ℕ → ℕ → ℕ → ℕ → ℕ → List Piece
unfolding piece_end
pieces stripe_size zero stripe begin left = []
pieces stripe_size (suc count) stripe begin left =
    let end = piece_end stripe_size stripe begin left in
    (stripe, begin, end) ∷ pieces stripe_size count (stripe + 1) end (left - (end - begin))

pub request_pieces : ℕ → ℕ → ℕ → List Piece
unfolding pieces
request_pieces stripe_size addr size =
    let init_stripe = addr / stripe_size in
    let final_stripe = (addr + size - 1) / stripe_size in
    pieces stripe_size (final_stripe + 1 - init_stripe) init_stripe addr size

pub write_pieces : (ℕ → ℕ → ℕ → Result (List Io)) → List Piece → Result (List Io)
write_pieces partial [] = ok []
write_pieces partial ((stripe, begin, end) ∷ ps) = do
  ios ← partial stripe begin end
  rest ← write_pieces partial ps
  ok (ios ++ rest)

pub enqueue45 : Raid → (ℕ → Result Place) → (ℕ → Result ℕ) → ℕ → ℕ → Bool → Result (List Io)
unfolding do_partial_write request_pieces write_pieces
enqueue45 r bmap pmap addr size true =
    write_pieces (do_partial_write (blocks_in_stripe r) bmap pmap)
      (request_pieces (blocks_in_stripe r) addr size)
enqueue45 r bmap pmap addr size false = do
  places ← map_result bmap (range addr size)
  ok (map read places)

-- the maps of the level, as `enqueue45` chooses them
pub enqueue : Raid → Level → ℕ → ℕ → Bool → Result (List Io)
unfolding block_io0 block_io1 each_block enqueue45 bmap4 pmap4 bmap5 pmap5
enqueue r raid0 addr size is_write = ok (each_block (block_io0 r is_write) (range addr size))
enqueue r raid1 addr size is_write = ok (each_block (block_io1 r is_write) (range addr size))
enqueue r raid4 addr size is_write =
    enqueue45 r (λ b. ok (bmap4 r b)) (λ s. ok (pmap4 r s)) addr size is_write
enqueue r raid5 addr size is_write = enqueue45 r (bmap5 r) (pmap5 r) addr size is_write
