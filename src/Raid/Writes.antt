-- ===== src/Raid/Writes.antt =====
-- `doPartialWrite` (38-RAID/raid.py): the two extreme writes of RAID 4 and 5.
use os_tep.Prelude.{ℕ, ◌+◌, ◌-◌, ◌*◌, ◌≤◌, ◌≡◌, true, false, List, [], ◌∷◌, ◌++◌, map, arith, leb}
use os_tep.Prelude.Fault.{Result, ok}
use os_tep.Raid.{read, write, Place, parity_reads, do_partial_write, map_result, range, offsets}

module _ (stripe_size : ℕ) (bmap : ℕ → Result Place) (pmap : ℕ → Result ℕ) where
  full-parity_reads :
      (pdisk stripe : ℕ)
      → parity_reads stripe_size bmap pmap pdisk stripe (stripe * stripe_size) stripe_size ≡ ok []
  unfolding parity_reads map_result range
  full-parity_reads pdisk stripe =
      let a : leb (stripe_size + 1) (stripe_size - stripe_size) ≡ false = ground arith in
      let b : stripe * stripe_size - stripe * stripe_size ≡ 0 = omega arith in
      let c : stripe * stripe_size + stripe_size - (stripe * stripe_size + stripe_size) ≡ 0 =
        omega arith in
      rw (a, b, c)

  -- Whatever the maps, if they raise nothing: a write of a whole stripe reads nothing. It writes
  -- the stripe's blocks, and then the parity at each of their offsets once.
  pub full_stripe_write :
      (stripe pdisk : ℕ) (places : List Place)
      → pmap stripe ≡ ok pdisk
      → map_result bmap (range (stripe * stripe_size) stripe_size) ≡ ok places
      → do_partial_write stripe_size bmap pmap stripe
          (stripe * stripe_size)
          (stripe * stripe_size + stripe_size)
        ≡ ok (map write places ++ map (λ off. write (pdisk, off)) (offsets [] places))
  unfolding do_partial_write
  full_stripe_write stripe pdisk places p q =
      let e : stripe * stripe_size + stripe_size - stripe * stripe_size ≡ stripe_size =
        omega arith in
      rw (p, e, full-parity_reads pdisk stripe, q)

  -- Whatever the maps, if they raise nothing: a write of one block to a stripe of three blocks or
  -- more reads the old block and the old parity and writes both.
  pub small_write :
      (stripe b pdisk disk off : ℕ)
      → 3 ≤ stripe_size
      → pmap stripe ≡ ok pdisk
      → bmap b ≡ ok (disk, off)
      → do_partial_write stripe_size bmap pmap stripe b (b + 1)
        ≡ ok (read (disk, off) ∷ read (pdisk, off) ∷ write (disk, off) ∷ write (pdisk, off) ∷ [])
  unfolding do_partial_write parity_reads map_result range offsets
  small_write stripe b pdisk disk off h p q =
      let e : b + 1 - b ≡ 1 = omega arith in
      let t : leb (1 + 1) (stripe_size - 1) ≡ true = ground arith in rw (p, e, t, q)
