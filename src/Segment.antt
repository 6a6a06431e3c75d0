-- ===== src/Segment.antt =====
-- segmenmation/segmentation.py: two segments of an address space, the checks of their registers and
-- the translation of virtual addresses. `base1` is the lower end of segment 1, as in the source
-- after its line `base1 = base1 - len1`; addresses are natural numbers.
pub mod Translate
mod Tests
use os_tep.Prelude.{
  ℕ, zero, suc, ◌+◌, ◌-◌, ◌*◌, ◌/◌, ◌%◌, ◌≤◌, ◌<◌, ◌≡◌, refl, sym, ap, ◌∙◌, ◌≢◌, ◌↔◌, ◌⊎◌, inl, inr,
  Bool, true, false, not, ◌&&◌, ◌||◌, Option, none, some, List, [], ◌∷◌, ◌++◌, map, arith, ltb, leb,
  ◌==◌, if◌then◌else◌, Bool-cases, Option-cases, length, get_elem?, set, take, drop, replicate,
  get_or,
}
use os_tep.Prelude.Fault.{Fault, exited, Result, ok, raise, ◌>>=◌, check, ◌>>◌}

pub record Segments : Type 0 where
  pub asize : ℕ
  pub base0 : ℕ
  pub len0 : ℕ
  pub base1 : ℕ
  pub len1 : ℕ

-- `nbase1`, the upper end of segment 1
abbrev pub nbase1 : Segments → ℕ
nbase1 s = s.base1 + s.len1

-- The two errors before the trace. `len0 > asize/2.0` is a test on twice the length.
pub setup : Segments → Result Segments
setup s = do
  check (not (ltb s.asize (2 * s.len0) || ltb s.asize (2 * s.len1))) exited
  check (not (ltb s.base1 (s.len0 + s.base0) && ltb s.base0 s.base1)) exited
  ok s

pub data Answer : Type 0 where
  violation0 violation1 : Answer
  valid0 valid1 : ℕ → Answer

-- `paddr < base1`, where `paddr` may be negative, is the test without the difference.
pub translate : Segments → ℕ → Result Answer
translate s vaddr =
    let seg1 =
      if ltb (nbase1 s + vaddr) (s.base1 + s.asize)
      then violation1
      else valid1 (nbase1 s + vaddr - s.asize) in
    let seg0 = if leb s.len0 vaddr then violation0 else valid0 (vaddr + s.base0) in
    if leb s.asize vaddr then raise exited else ok (if leb s.asize (2 * vaddr) then seg1 else seg0)
