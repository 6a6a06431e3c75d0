-- ===== src/Multi.antt =====
-- paging-multilevel-translate/paging-multilevel-translate.py: class OS, with two-level page tables in
-- a memory of 128 pages of 32 bytes. The masks and shifts are quotients and remainders by powers of
-- 2; `|` adds, since its operands have no bit in common, but where it sets the valid bit of a number
-- that may have it. The random numbers are given: `draws` are the values of
-- `int(random.random() * n)` in the order in which they are asked for.
pub mod Memory
pub mod Represents
pub mod Table
pub mod Alloc
pub mod Start
mod Tests
use os_tep.Prelude.{
  ℕ, zero, suc, ◌+◌, ◌-◌, ◌*◌, ◌/◌, ◌%◌, ◌≤◌, ◌<◌, ◌≡◌, refl, sym, ap, ◌∙◌, ◌≢◌, ◌↔◌, ◌⊎◌, inl, inr,
  Bool, true, false, not, ◌&&◌, ◌||◌, Option, none, some, List, [], ◌∷◌, ◌++◌, map, arith, ltb, leb,
  ◌==◌, if◌then◌else◌, Bool-cases, Option-cases, length, get_elem?, set, take, drop, replicate,
  get_or,
}
use os_tep.Prelude.Fault.{
  Fault, key_error, index_error, assertion_error, no_draw, Result, ok, raise, ◌>>=◌, check, ◌>>◌,
}

abbrev pub page_size : ℕ
page_size = 32

abbrev pub phys_pages : ℕ
phys_pages = 128

abbrev pub phys_mem : ℕ
phys_mem = 4096

abbrev pub va_pages : ℕ
va_pages = 1024

-- `used_pages` says which entries are 1, and `memory` is read and written below `phys_mem` only.
pub record Os : Type 0 where
  pub used_pages : ℕ → Bool
  pub used_pages_count : ℕ
  pub memory : ℕ → ℕ
  pub pdbr : ℕ → Option ℕ
  pub draws : List ℕ

abbrev pub init : List ℕ → Os
init draws = record {
  used_pages = λ p. false;
  used_pages_count = 0;
  memory = λ a. 0;
  pdbr = λ pid. none;
  draws = draws;
}

pub load : ℕ → Os → Result ℕ
load a os = if ltb a phys_mem then ok (os.memory a) else raise index_error

pub store : ℕ → ℕ → Os → Result Os
store a x os =
    if ltb a phys_mem
    then ok (record os { memory = λ b. if b == a then x else os.memory b })
    else raise index_error

-- the loop that draws a page until it is free; the page is marked
pub look_for : List ℕ → Os → Result (ℕ × Os)
look_for [] os = raise no_draw
look_for (look ∷ draws) os =
    let again = look_for draws os in
    let found : Os = record os {
      used_pages = λ p. if p == look then true else os.used_pages p;
      used_pages_count = os.used_pages_count + 1;
      draws = draws;
    } in
    if ltb look phys_pages
    then (if os.used_pages look then again else ok (look, found))
    else raise index_error

pub find_free : Os → Result (ℕ × Os)
unfolding look_for
find_free os = do check (ltb os.used_pages_count phys_pages) assertion_error; look_for os.draws os

-- `count` bytes from address `a` on
pub init_bytes : ℕ → ℕ → Os → Result Os
unfolding store
init_bytes zero a os = ok os
init_bytes (suc count) a os = do os' ← store a 127 os; init_bytes count (a + 1) os'

pub init_page_dir : ℕ → Os → Result Os
unfolding init_bytes
init_page_dir which_page os = init_bytes page_size (which_page * 32) os

-- What is read of an entry: its valid bit, its page, and its address.
pub record Entry : Type 0 where
  pub valid : ℕ
  pub pfn : ℕ
  pub addr : ℕ

pub get_entry : ℕ → Os → Result Entry
unfolding load
get_entry a os = do x ← load a os; ok (record { valid = x / 128 % 2; pfn = x % 128; addr = a })

pub get_page_table_entry : ℕ → ℕ → Os → Result Entry
unfolding get_entry
get_page_table_entry virtual_addr pte_page os =
    get_entry (pte_page * 32 + virtual_addr / 32 % 32) os

pub get_page_dir_entry : ℕ → ℕ → Os → Result Entry
unfolding get_entry
get_page_dir_entry pid virtual_addr os = elim (os.pdbr pid) [
  | none ↦ raise key_error
  | some page_dir ↦ get_entry (page_dir * 32 + virtual_addr / 1024 % 32) os
]

-- `0x80 | page`
abbrev pub with_valid : ℕ → ℕ
with_valid page = if page / 128 % 2 == 1 then page else page + 128

-- `setPageTableEntry` and `setPageDirEntry`
pub set_entry : ℕ → ℕ → Os → Result Os
unfolding store
set_entry addr physical_page os = store addr (with_valid physical_page) os

-- the page of the page table, which is allocated if the directory has none
pub table_page : Entry → Os → Result (ℕ × Os)
unfolding find_free set_entry init_page_dir
table_page e os =
    let new : Result (ℕ × Os) = (do
      check (e.pfn == 127) assertion_error
      r ← find_free os
      os' ← set_entry e.addr r.0 r.1
      os'' ← init_page_dir r.0 os'
      ok (r.0, os'')) in
    if e.valid == 0 then new else ok (e.pfn, os)

-- the entry of the page table is looked up, and filled in
pub enter : ℕ → ℕ → ℕ → Os → Result Os
unfolding get_page_table_entry set_entry
enter virtual_addr pte_page physical_page os = do
  e ← get_page_table_entry virtual_addr pte_page os
  check (e.valid == 0) assertion_error
  check (e.pfn == 127) assertion_error
  set_entry e.addr physical_page os

pub alloc_virtual_page : ℕ → ℕ → ℕ → Os → Result Os
unfolding get_page_dir_entry table_page enter
alloc_virtual_page pid virtual_page physical_page os = do
  e ← get_page_dir_entry pid (virtual_page * 32) os
  r ← table_page e os
  enter (virtual_page * 32) r.0 physical_page r.1

-- a physical address, -2 or -1
pub data Translation : Type 0 where
  physical : ℕ → Translation
  pte_fault pde_fault : Translation

pub translate : ℕ → ℕ → Os → Result Translation
unfolding get_page_dir_entry get_page_table_entry
translate pid virtual_addr os = do
  d ← get_page_dir_entry pid virtual_addr os
  let inner : Result Translation = (do
    e ← get_page_table_entry virtual_addr d.pfn os
    ok (if e.valid == 1 then physical (e.pfn * 32 + virtual_addr % 32) else pte_fault))
  if d.valid == 1 then inner else ok pde_fault

-- `count` bytes from address `a` on get random values
pub fill_bytes : ℕ → ℕ → Os → Result Os
unfolding store
fill_bytes zero a os = ok os
fill_bytes (suc count) a os = elim os.draws [
  | [] ↦ raise no_draw
  | x ∷ draws ↦ do os' ← store a x (record os { draws = draws }); fill_bytes count (a + 1) os'
]

pub fill_page : ℕ → Os → Result Os
unfolding fill_bytes
fill_page which_page os = fill_bytes page_size (which_page * page_size) os

-- the page directory of a new process
pub new_page_dir : ℕ → Os → Result Os
unfolding find_free init_page_dir
new_page_dir pid os = do
  r ← find_free os
  let os' : Os = record r.1 { pdbr = λ q. if q == pid then some r.0 else r.1.pdbr q }
  init_page_dir r.0 os'

-- the body of the loop of `procAlloc`, for the virtual page that was drawn
pub add_page : ℕ → ℕ → Os → Result Os
unfolding find_free alloc_virtual_page fill_page
add_page pid vp os = do r ← find_free os; os' ← alloc_virtual_page pid vp r.0 r.1; fill_page r.0 os'

-- a virtual page that is not used yet
pub draw_page : List ℕ → (ℕ → Bool) → Result (ℕ × List ℕ)
draw_page [] used = raise no_draw
draw_page (vp ∷ draws) used =
    let again = draw_page draws used in
    if ltb vp va_pages then (if used vp then again else ok (vp, draws)) else raise key_error

pub add_pages : ℕ → ℕ → (ℕ → Bool) → List ℕ → Os → Result (List ℕ × Os)
unfolding draw_page add_page
add_pages zero pid used allocated os = ok (allocated, os)
add_pages (suc num_pages) pid used allocated os = do
  r ← draw_page os.draws used
  os' ← add_page pid r.0 (record os { draws = r.1 })
  add_pages num_pages pid (λ v. if v == r.0 then true else used v) (allocated ++ r.0 ∷ []) os'

pub proc_alloc : ℕ → ℕ → Os → Result (List ℕ × Os)
unfolding new_page_dir add_pages
proc_alloc pid num_pages os = do
  os' ← new_page_dir pid os
  add_pages num_pages pid (λ v. false) [] os'
