-- ===== src/Raid/Parity.antt =====
-- The rotated parity of RAID 5 (38-RAID/raid.py, `__bmap5`), in both layouts.
use os_tep.Prelude.{
  ℕ, ◌+◌, ◌-◌, ◌*◌, ◌/◌, ◌%◌, ◌≤◌, ◌<◌, ◌≡◌, refl, ap, ◌∙◌, ◌≢◌, true, not, arith, ltb, ◌==◌,
  if◌then◌else◌, dec_lt,
}
use native.Mathlib.Nat.{
  mod-lt, div-add-mod', div-div-eq-div-mul, mul-div_left, mul_comm, mul_assoc, mod-eq_of_lt,
  mod-eq-sub-mod,
}
use os_tep.Prelude.Fault.{ok, Returns}
use os_tep.Raid.{
  Raid, Raid5Type, left_symmetric, left_asymmetric, Place, rotate5, bmap5_full, bmap5, pmap5,
  blocks_in_stripe,
}
use os_tep.Prelude.Division.{quotient_lem, remainder_lem}

-- the parity disk of the row of chunks that holds the offset
abbrev pub parity_disk : Raid → ℕ → ℕ
parity_disk r off = r.num_disks - 1 - off / r.chunk_size % r.num_disks

-- the position in its row of the chunk on a data disk
pub unrotate5 : Raid5Type → ℕ → ℕ → ℕ → ℕ → ℕ
unrotate5 left_asymmetric num_disks col pdisk disk = if ltb pdisk disk then disk - 1 else disk
unrotate5 left_symmetric num_disks col pdisk disk = (disk + col) % num_disks

-- the block at a place that is not on the parity disk of its row
abbrev pub unmap5 : Raid → Place → ℕ
unmap5 r p =
    let row = p.1 / r.chunk_size in
    let col = row % r.num_disks in
    let disk = unrotate5 r.raid5type r.num_disks col (parity_disk r p.1) p.0 in
    (row * (r.num_disks - 1) + disk) * r.chunk_size + p.1 % r.chunk_size

ne-test : (a b : ℕ) → a ≢ b → not (a == b) ≡ true
ne-test a b h = ground arith

-- A sum of two numbers below the modulus wraps at most once.
wrap-add : (n a : ℕ) → a < n + n → a % n ≡ (if ltb a n then a else a - n)
wrap-add n a h = elim (dec_lt a n) [
  | yes p ↦ ground (arith, mod-eq_of_lt p)
  | no p ↦
      let le : n ≤ a = omega arith in
      let lt : a - n < n = omega arith in ground (arith, mod-eq-sub-mod le, mod-eq_of_lt lt)
]

module _ (n col d : ℕ) (c : col < n) where
  rotate5_range :
      (t : Raid5Type)
      → d < n - 1
      → (rotate5 t n col (n - 1 - col) d < n) × (rotate5 t n col (n - 1 - col) d ≢ n - 1 - col)
  unfolding rotate5
  rotate5_range left_asymmetric h = ground arith
  rotate5_range left_symmetric h = ground (arith, wrap-add n (d + n - col))

  unrotate5-rotate5 :
      (t : Raid5Type)
      → d < n - 1
      → unrotate5 t n col (n - 1 - col) (rotate5 t n col (n - 1 - col) d) ≡ d
  unfolding rotate5 unrotate5
  unrotate5-rotate5 left_asymmetric h = ground arith
  unrotate5-rotate5 left_symmetric h =
      ground (arith, wrap-add n (d + n - col), wrap-add n ((d + n - col) % n + col))

  rotate5-unrotate5 :
      (t : Raid5Type)
      → d < n
      → d ≢ n - 1 - col
      → (unrotate5 t n col (n - 1 - col) d < n - 1)
        × (rotate5 t n col (n - 1 - col) (unrotate5 t n col (n - 1 - col) d) ≡ d)
  unfolding rotate5 unrotate5
  rotate5-unrotate5 left_asymmetric h ne = ground arith
  rotate5-unrotate5 left_symmetric h ne =
      ground (arith, wrap-add n (d + col), wrap-add n ((d + col) % n + n - col))

module _ (r : Raid) (c : 0 < r.chunk_size) (n : 1 < r.num_disks) where
  row : ℕ → ℕ
  row b = b / r.chunk_size / (r.num_disks - 1)

  -- `__bmap5` of a block, with its assertion checked
  bmap5_value :
      (b : ℕ)
      → let col = row b % r.num_disks in
        let pdisk = r.num_disks - 1 - col in
        bmap5_full r b
        ≡ ok (
          rotate5 r.raid5type r.num_disks col pdisk (b / r.chunk_size % (r.num_disks - 1)),
          pdisk,
          row b * r.chunk_size + b % r.chunk_size,
        )
  unfolding bmap5_full row
  bmap5_value b =
      let col = row b % r.num_disks in
      let d = b / r.chunk_size % (r.num_disks - 1) in
      let range =
        rotate5_range r.num_disks col d (mod-lt (row b) (omega arith)) r.raid5type
          (mod-lt (b / r.chunk_size) (omega arith)) in
      rw (ne-test _ _ range.1)

  -- With a positive chunk size and at least two disks, `__bmap5` never violates its assertion: a
  -- block and the parity of its row have different disks. The parity disk is the one of the row,
  -- and the block can be found from its place.
  pub bmap5_full_lem :
      (b : ℕ)
      → Returns
          (λ (disk, pdisk, off).
            (disk < r.num_disks)
            × (disk ≢ pdisk)
            × (pdisk ≡ parity_disk r off)
            × (unmap5 r (disk, off) ≡ b))
          (bmap5_full r b)
  unfolding row
  bmap5_full_lem b =
      let col = row b % r.num_disks in
      let d = b / r.chunk_size % (r.num_disks - 1) in
      let rem = mod-lt b c in
      let col_lt = mod-lt (row b) {m = r.num_disks} (omega arith) in
      let d_lt = mod-lt (b / r.chunk_size) {m = r.num_disks - 1} (omega arith) in
      let range = rotate5_range r.num_disks col d col_lt r.raid5type d_lt in
      rw
        (
          bmap5_value b,
          quotient_lem (row b) r.chunk_size (b % r.chunk_size) rem,
          remainder_lem (row b) r.chunk_size (b % r.chunk_size) rem,
          unrotate5-rotate5 r.num_disks col d col_lt r.raid5type d_lt,
          div-add-mod' (b / r.chunk_size) (r.num_disks - 1),
          div-add-mod' b r.chunk_size,
        )
        (range.0, range.1, refl, refl)

  -- With a positive chunk size and at least two disks, every place of the array that is off the
  -- parity disk of its row holds a block: `bmap5` maps the block that `unmap5` computes to that
  -- place.
  pub bmap5-unmap5 :
      (p : Place) → p.0 < r.num_disks → p.0 ≢ parity_disk r p.1 → bmap5 r (unmap5 r p) ≡ ok p
  unfolding bmap5 row
  bmap5-unmap5 p lt ne =
      let rows = p.1 / r.chunk_size in
      let col = rows % r.num_disks in
      let rem = mod-lt p.1 c in
      let col_lt = mod-lt rows {m = r.num_disks} (omega arith) in
      let back = rotate5-unrotate5 r.num_disks col p.0 col_lt r.raid5type lt ne in
      let d = unrotate5 r.raid5type r.num_disks col (parity_disk r p.1) p.0 in
      rw (
        bmap5_value (unmap5 r p),
        quotient_lem (rows * (r.num_disks - 1) + d) r.chunk_size (p.1 % r.chunk_size) rem,
        remainder_lem (rows * (r.num_disks - 1) + d) r.chunk_size (p.1 % r.chunk_size) rem,
        quotient_lem rows (r.num_disks - 1) d back.0,
        remainder_lem rows (r.num_disks - 1) d back.0,
        back.1,
        div-add-mod' p.1 r.chunk_size,
      )

  -- With a positive chunk size and at least two disks, the parity disk that a write to a stripe
  -- uses is that of each block of the stripe.
  pub pmap5-bmap5_full :
      (b : ℕ)
      → Returns (λ (disk, pdisk, off). pmap5 r (b / blocks_in_stripe r) ≡ ok pdisk) (bmap5_full r b)
  unfolding pmap5 row
  pmap5-bmap5_full b =
      let s = b / blocks_in_stripe r in
      let first : s * blocks_in_stripe r / r.chunk_size ≡ s * (r.num_disks - 1) =
        rw (← mul_assoc s (r.num_disks - 1) r.chunk_size)
          (mul-div_left (s * (r.num_disks - 1)) c) in
      let same : b / r.chunk_size / (r.num_disks - 1) ≡ s =
        div-div-eq-div-mul b r.chunk_size (r.num_disks - 1)
        ∙ ap (λ (t : ℕ). b / t) (mul_comm r.chunk_size (r.num_disks - 1)) in
      rw (
        bmap5_value b,
        bmap5_value (s * blocks_in_stripe r),
        first,
        mul-div_left s {n = r.num_disks - 1} (omega arith),
        same,
      )
