-- ===== src/Raid/Layout.antt =====
-- The maps of RAID 0, 1 and 4 (38-RAID/raid.py) and their inverses.
use os_tep.Prelude.{ℕ, ◌+◌, ◌-◌, ◌*◌, ◌/◌, ◌%◌, ◌<◌, ◌≡◌, refl, ap, arith}
use native.Mathlib.Nat.{mod-lt, div-add-mod'}
use os_tep.Prelude.Division.{quotient_lem, remainder_lem}
use os_tep.Raid.{Raid, Place, bmap0, bmap1, bmap4}

-- Blocks dealt out in chunks of `chunk` to `disks` disks in turn.
abbrev pub deal : ℕ → ℕ → ℕ → Place
deal chunk disks b = (b / chunk % disks, b / chunk / disks * chunk + b % chunk)

-- the block at a place
abbrev pub undeal : ℕ → ℕ → Place → ℕ
undeal chunk disks p = (p.1 / chunk * disks + p.0) * chunk + p.1 % chunk

module _ (chunk disks : ℕ) (c : 0 < chunk) (d : 0 < disks) where
  pub undeal-deal : (b : ℕ) → undeal chunk disks (deal chunk disks b) ≡ b
  undeal-deal b = rw (
    quotient_lem (b / chunk / disks) chunk (b % chunk) (mod-lt b c),
    remainder_lem (b / chunk / disks) chunk (b % chunk) (mod-lt b c),
    div-add-mod' (b / chunk) disks,
    div-add-mod' b chunk,
  )

  pub deal-undeal :
      (disk off : ℕ)
      → disk < disks
      → deal chunk disks (undeal chunk disks (disk, off)) ≡ (disk, off)
  deal-undeal disk off h = rw (
    quotient_lem (off / chunk * disks + disk) chunk (off % chunk) (mod-lt off c),
    remainder_lem (off / chunk * disks + disk) chunk (off % chunk) (mod-lt off c),
    quotient_lem (off / chunk) disks disk h,
    remainder_lem (off / chunk) disks disk h,
    div-add-mod' off chunk,
  )

-- The block at a place of a RAID 0, and of a RAID 4 (a place on a data disk).
abbrev pub unmap0 : Raid → Place → ℕ
unmap0 r = undeal r.chunk_size r.num_disks

abbrev pub unmap4 : Raid → Place → ℕ
unmap4 r = undeal r.chunk_size (r.num_disks - 1)

-- the block of which a place of a RAID 1 holds one of the two copies
abbrev pub unmap1 : Raid → Place → ℕ
unmap1 r p = undeal r.chunk_size (r.num_disks / 2) (p.0 / 2, p.1)

module _ (r : Raid) (c : 0 < r.chunk_size) where
  -- RAID 0, with a positive chunk size and at least one disk: every block has a place on a disk,
  -- and every place of a disk holds exactly one block.
  pub bmap0-unmap0 :
      0 < r.num_disks
      → ((b : ℕ) → ((bmap0 r b).0 < r.num_disks) × (unmap0 r (bmap0 r b) ≡ b))
        × ((p : Place) → p.0 < r.num_disks → bmap0 r (unmap0 r p) ≡ p)
  unfolding bmap0
  bmap0-unmap0 d = (
    λ b. (mod-lt (b / r.chunk_size) d, undeal-deal r.chunk_size r.num_disks c d b),
    λ p h. deal-undeal r.chunk_size r.num_disks c d p.0 p.1 h,
  )

  -- RAID 4, with a positive chunk size and at least two disks: every block has a place on a disk
  -- that is not the last, the parity disk, and every place of these disks holds exactly one block.
  pub bmap4-unmap4 :
      1 < r.num_disks
      → ((b : ℕ) → ((bmap4 r b).0 < r.num_disks - 1) × (unmap4 r (bmap4 r b) ≡ b))
        × ((p : Place) → p.0 < r.num_disks - 1 → bmap4 r (unmap4 r p) ≡ p)
  unfolding bmap4
  bmap4-unmap4 d = (
    λ b. (
      mod-lt (b / r.chunk_size) (omega arith),
      undeal-deal r.chunk_size (r.num_disks - 1) c (omega arith) b,
    ),
    λ p h. deal-undeal r.chunk_size (r.num_disks - 1) c (omega arith) p.0 p.1 h,
  )

  -- RAID 1, with a positive chunk size and at least two disks: a block has a copy on each disk of
  -- one pair, both at the same offset, and every place of the paired disks holds a copy of exactly
  -- one block.
  pub bmap1-unmap1 :
      1 < r.num_disks
      → ((b : ℕ)
          → let (disk1, disk2, off) = bmap1 r b in
            (disk2 ≡ disk1 + 1)
            × (disk2 < r.num_disks)
            × (unmap1 r (disk1, off) ≡ b)
            × (unmap1 r (disk2, off) ≡ b))
        × ((p : Place)
            → p.0 / 2 < r.num_disks / 2
            → bmap1 r (unmap1 r p) ≡ (2 * (p.0 / 2), 2 * (p.0 / 2) + 1, p.1))
  unfolding bmap1
  bmap1-unmap1 d =
      let half = r.num_disks / 2 in
      let pos : 0 < half = omega arith in
      (
        λ b.
            let x = b / r.chunk_size % half in
            let below = mod-lt (b / r.chunk_size) pos in
            let even : 2 * x / 2 ≡ x = omega arith in
            let odd : (2 * x + 1) / 2 ≡ x = omega arith in
            let back = undeal-deal r.chunk_size half c pos b in
            (refl, omega arith, rw even back, rw odd back),
        λ p h.
            ap (λ (q : Place). (2 * q.0, 2 * q.0 + 1, q.1))
              (deal-undeal r.chunk_size half c pos (p.0 / 2) p.1 h),
      )
