-- ===== src/Paging.antt =====
-- paging-linear-translate_py/paging-linear-translate.py: the random page table and the translation
-- of an address. The masks and shifts are quotients and remainders by the page size, which is a
-- power of 2; `0xFFFFFFFF & ~pagemask` cuts an address to 32 bits.
pub mod Frames
mod Tests
use os_tep.Prelude.{
  ℕ, zero, suc, ◌+◌, ◌-◌, ◌*◌, ◌/◌, ◌%◌, ◌≤◌, ◌<◌, ◌≡◌, refl, sym, ap, ◌∙◌, ◌≢◌, ◌↔◌, ◌⊎◌, inl, inr,
  Bool, true, false, not, ◌&&◌, ◌||◌, Option, none, some, List, [], ◌∷◌, ◌++◌, map, arith, ltb, leb,
  ◌==◌, if◌then◌else◌, Bool-cases, Option-cases, length, get_elem?, set, take, drop, replicate,
  get_or,
}
use os_tep.Prelude.Fault.{Fault, index_error, Result, ok, raise}

-- `used` and `pt`; an entry that is -1 is `none`
pub record Table : Type 0 where
  pub used : ℕ → Bool
  pub pt : List (Option ℕ)

abbrev pub no_pages : Table
no_pages = record { used = λ u. false; pt = [] }

pub take_frame : ℕ → Table → Table
take_frame u t = record { used = λ w. if u == w then true else t.used w; pt = t.pt ++ some u ∷ [] }

pub leave_out : Table → Table
leave_out t = record t { pt = t.pt ++ none ∷ [] }

-- The loop over the `vpages` entries that are left. A draw says whether the page is to be valid,
-- and the frame that is tried; `none` if the draws do not suffice.
pub build : List (Bool × ℕ) → ℕ → Table → Option Table
unfolding take_frame leave_out
build draws zero t = some t
build [] (suc vpages) t = none
build ((valid, u) ∷ draws) (suc vpages) t =
    let again = build draws (suc vpages) t in
    let taken = build draws vpages (take_frame u t) in
    let without = build draws vpages (leave_out t) in
    if valid then (if t.used u then again else taken) else without

-- the physical address; `none` for an entry that is not valid
pub translate : ℕ → Table → ℕ → Result (Option ℕ)
translate pagesize t vaddr = elim (get_elem? t.pt (vaddr % 4294967296 / pagesize)) [
  | none ↦ raise index_error
  | some none ↦ ok none
  | some (some pfn) ↦ ok (some (pfn * pagesize + vaddr % pagesize))
]
