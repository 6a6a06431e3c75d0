-- ===== src/Raid/Tests.antt =====
-- Runs of the array of 38-RAID/raid.py, and its theorems at concrete arrays.
use os_tep.Prelude.{ℕ, ◌+◌, ◌*◌, ◌/◌, ◌<◌, ◌≡◌, refl, ◌≢◌, List, [], ◌∷◌, arith}
use os_tep.Prelude.Fault.{Result, ok, Returns}
use os_tep.Raid.{
  Raid, raid4, raid5, left_symmetric, Place, write, bmap4, bmap5, bmap5_full, pmap5,
  blocks_in_stripe, range, request_pieces, map_result,
}
use os_tep.Raid.Parity.{parity_disk, unmap5, bmap5_full_lem, bmap5-unmap5, pmap5-bmap5_full}
use os_tep.Raid.Pieces.{piece_blocks, AllInStripe, request_pieces_lem}
use os_tep.Raid.Disk.{DiskState, init_disk, perform_all}
use os_tep.Raid.Disk.Count.{AllCounted, total_io, perform_all_lem, init_disk-IsCounted}

-- five disks, two blocks in a chunk
abbrev five : Raid
five = record { chunk_size = 2; num_disks = 5; level = raid5; raid5type = left_symmetric }

-- the four disks of the program's defaults, one block in a chunk
abbrev four : Raid
four = record { chunk_size = 1; num_disks = 4; level = raid4; raid5type = left_symmetric }

layout_runs :
    map_result (bmap5 five) (range 0 10)
    ≡ ok (
        (0, 0)
        ∷ (0, 1)
        ∷ (1, 0)
        ∷ (1, 1)
        ∷ (2, 0)
        ∷ (2, 1)
        ∷ (3, 0)
        ∷ (3, 1)
        ∷ (4, 2)
        ∷ (4, 3)
        ∷ [])
unfolding map_result bmap5 range bmap5_full
layout_runs = refl

bmap5_full_lem_example :
    Returns
      (λ (disk, pdisk, off).
        (disk < 5)
        × (disk ≢ pdisk)
        × (pdisk ≡ parity_disk five off)
        × (unmap5 five (disk, off) ≡ 9))
      (bmap5_full five 9)
bmap5_full_lem_example = bmap5_full_lem five (omega arith) (omega arith) 9

off_parity : 4 ≢ parity_disk five 3
off_parity e = omega arith

bmap5-unmap5_example : bmap5 five (unmap5 five (4, 3)) ≡ ok (4, 3)
bmap5-unmap5_example = bmap5-unmap5 five (omega arith) (omega arith) (4, 3) (omega arith) off_parity

pmap5-bmap5_full_example :
    Returns
      (λ (disk, pdisk, off). pmap5 five (9 / blocks_in_stripe five) ≡ ok pdisk)
      (bmap5_full five 9)
pmap5-bmap5_full_example = pmap5-bmap5_full five (omega arith) (omega arith) 9

request_pieces_lem_example :
    (piece_blocks (request_pieces 3 2 8) ≡ range 2 8) × AllInStripe 3 (request_pieces 3 2 8)
request_pieces_lem_example = request_pieces_lem 3 (omega arith) 2 8 (omega arith)

pieces_run : request_pieces 3 2 8 ≡ (0, 2, 3) ∷ (1, 3, 6) ∷ (2, 6, 9) ∷ (3, 9, 10) ∷ []
unfolding request_pieces
pieces_run = refl

abbrev bmap_four : ℕ → Result Place
bmap_four b = ok (bmap4 four b)

abbrev pmap_four : ℕ → Result ℕ
pmap_four s = ok 3

stripe_places : map_result bmap_four (range (2 * 3) 3) ≡ ok ((0, 2) ∷ (1, 2) ∷ (2, 2) ∷ [])
unfolding map_result range bmap4
stripe_places = refl

place_seven : bmap_four 7 ≡ ok (1, 2)
unfolding bmap4
place_seven = refl

abbrev two_disks : List DiskState
two_disks = init_disk ∷ init_disk ∷ []

full_size : init_disk.blocks_per_disk ≡ 10000
full_size = refl

perform_all_lem_example :
    Returns
      (λ ds'. AllCounted ds' × (total_io ds' ≡ total_io two_disks + 2))
      (perform_all (write (0, 7) ∷ write (1, 7) ∷ []) two_disks)
perform_all_lem_example =
    perform_all_lem (write (0, 7) ∷ write (1, 7) ∷ []) two_disks
      ((init_disk-IsCounted, full_size), ((init_disk-IsCounted, full_size), tt))
      ((omega arith, omega arith), ((omega arith, omega arith), tt))
