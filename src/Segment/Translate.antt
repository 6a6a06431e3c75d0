-- ===== src/Segment/Translate.antt =====
-- The translation of segmenmation/segmentation.py: where addresses go, and whether two of them can
-- go to the same place.
use os_tep.Prelude.{ℕ, ◌+◌, ◌-◌, ◌*◌, ◌≤◌, ◌<◌, ◌≡◌, ◌⊎◌, Option, none, some, arith}
use os_tep.Prelude.Fault.{Result, ok, raise}
use os_tep.Segment.{
  Segments, nbase1, setup, Answer, violation0, violation1, valid0, valid1, translate,
}

-- the physical address, if there is one
abbrev pub physical : Result Answer → Option ℕ
physical (ok (valid0 p)) = some p
physical (ok (valid1 p)) = some p
physical (ok violation0) = none
physical (ok violation1) = none
physical (raise e) = none

-- Segment 0 lies below segment 1, or segment 1 below segment 0.
abbrev pub AreApart : Segments → Type 0
AreApart s = (s.base0 + s.len0 ≤ s.base1) ⊎ (nbase1 s ≤ s.base0)

physical_lem :
    (s : Segments) (v p : ℕ)
    → physical (translate s v) ≡ some p
    → (v < s.asize)
      × (((v < s.len0) × (p ≡ v + s.base0))
          ⊎ ((s.base1 ≤ p) × (p < nbase1 s) × (p + s.asize ≡ nbase1 s + v)))
unfolding translate
physical_lem s v p e = ground arith

-- If the segments are apart, no two virtual addresses translate to the same physical address.
pub translate_injective :
    (s : Segments) (v w p : ℕ)
    → AreApart s
    → physical (translate s v) ≡ some p
    → physical (translate s w) ≡ some p
    → v ≡ w
translate_injective s v w p a e f =
    let (lv, cv) = physical_lem s v p e in let (lw, cw) = physical_lem s w p f in ground arith

-- The checks do not see that a segment 1 that starts at or before segment 0 reaches into it: they
-- accept the registers, and two different virtual addresses go to the start of segment 0.
pub setup_overlap :
    (s : Segments)
    → 0 < s.len0
    → 2 * s.len0 ≤ s.asize
    → 2 * s.len1 ≤ s.asize
    → s.base1 ≤ s.base0
    → s.base0 < nbase1 s
    → let w = s.asize + s.base0 - nbase1 s in
      (setup s ≡ ok s)
      × (0 < w)
      × (translate s 0 ≡ ok (valid0 s.base0))
      × (translate s w ≡ ok (valid1 s.base0))
unfolding setup translate
setup_overlap s pos half0 half1 low reach = (ground arith, omega arith, ground arith, ground arith)
