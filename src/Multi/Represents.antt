-- ===== src/Multi/Represents.antt =====
-- The map from virtual to physical pages that the page directory and the page table of
-- paging-multilevel-translate/paging-multilevel-translate.py stand for, and `translate`.
use os_tep.Prelude.{
  ℕ, ◌+◌, ◌*◌, ◌/◌, ◌%◌, ◌<◌, ◌≡◌, refl, sym, ap, ◌∙◌, ◌≢◌, ◌⊎◌, inl, inr, true, Option, none, some,
  arith, ◌==◌, if◌then◌else◌, Option-cases,
}
use os_tep.Prelude.Fault.{ok}
use os_tep.Multi.{
  phys_pages, Os, Entry, get_entry, get_page_table_entry, get_page_dir_entry, Translation, physical,
  pte_fault, pde_fault, translate,
}
use os_tep.Multi.Memory.{get_entry_lem}

-- the byte of an entry
abbrev pub byte : Option ℕ → ℕ
byte none = 127
byte (some p) = 128 + p

-- The directory in page `dir` of a process, with `tables i` the page of the i-th part of the page
-- table, stands for the map `m`. These pages are used, and no page is used in two ways: the
-- directory, the parts of the page table and the mapped pages all differ.
pub record Represents (os : Os) (pid dir : ℕ) (tables m : ℕ → Option ℕ) : Type 0 where
  pub has_dir : os.pdbr pid ≡ some dir
  pub dir_page : dir < phys_pages
  pub dir_used : os.used_pages dir ≡ true
  pub dir_bytes : (i : ℕ) → i < 32 → os.memory (dir * 32 + i) ≡ byte (tables i)
  pub table_page : (i t : ℕ) → tables i ≡ some t → t < phys_pages
  pub table_used : (i t : ℕ) → tables i ≡ some t → os.used_pages t ≡ true
  pub table_dir : (i t : ℕ) → tables i ≡ some t → t ≢ dir
  pub table_alone : (i k t : ℕ) → tables i ≡ some t → tables k ≡ some t → i ≡ k
  pub table_bytes :
      (i j t : ℕ)
      → i < 32
      → j < 32
      → tables i ≡ some t
      → os.memory (t * 32 + j) ≡ byte (m (i * 32 + j))
  pub no_table : (i j : ℕ) → i < 32 → j < 32 → tables i ≡ none → m (i * 32 + j) ≡ none
  pub page_page : (v p : ℕ) → m v ≡ some p → p < phys_pages
  pub page_used : (v p : ℕ) → m v ≡ some p → os.used_pages p ≡ true
  pub page_dir : (v p : ℕ) → m v ≡ some p → p ≢ dir
  pub page_table : (v p i : ℕ) → m v ≡ some p → tables i ≢ some p
  pub page_alone : (v w p : ℕ) → m v ≡ some p → m w ≡ some p → v ≡ w

-- What `translate` has to say: the page of the map with the offset, or one of the two faults.
abbrev pub Agrees : Option ℕ → ℕ → Translation → Type 0
Agrees (some p) offset r = r ≡ physical (p * 32 + offset)
Agrees none offset r = (r ≡ pte_fault) ⊎ (r ≡ pde_fault)

abbrev pub entry : Option ℕ → ℕ → Entry
entry o a = record { valid = byte o / 128 % 2; pfn = byte o % 128; addr = a }

valid-some : (p : ℕ) → p < phys_pages → (128 + p) / 128 % 2 ≡ 1
valid-some p h = omega arith

pfn-some : (p : ℕ) → p < phys_pages → (128 + p) % 128 ≡ p
pfn-some p h = omega arith

pub entry-some :
    (p a : ℕ) → p < phys_pages → entry (some p) a ≡ record { valid = 1; pfn = p; addr = a }
entry-some p a h = rw (valid-some p h, pfn-some p h) refl

get_page_dir_entry_lem :
    (pid va dir : ℕ) (os : Os)
    → os.pdbr pid ≡ some dir
    → get_page_dir_entry pid va os ≡ get_entry (dir * 32 + va / 1024 % 32) os
unfolding get_page_dir_entry
get_page_dir_entry_lem pid va dir os e = rw (e, get_page_dir_entry)

-- what `translate` says of an entry of the page table
abbrev answer : ℕ → Entry → Translation
answer va e = if e.valid == 1 then physical (e.pfn * 32 + va % 32) else pte_fault

translate_valid :
    (pid va : ℕ) (os : Os) (d e : Entry)
    → get_page_dir_entry pid va os ≡ ok d
    → d.valid ≡ 1
    → get_page_table_entry va d.pfn os ≡ ok e
    → translate pid va os ≡ ok (answer va e)
unfolding translate
translate_valid pid va os d e h v k = rw (h, v, k) refl

translate_invalid :
    (pid va : ℕ) (os : Os) (d : Entry)
    → get_page_dir_entry pid va os ≡ ok d
    → d.valid ≡ 0
    → translate pid va os ≡ ok pde_fault
unfolding translate
translate_invalid pid va os d h v = rw (h, v) refl

answer-some :
    (va p a : ℕ) → p < phys_pages → answer va (entry (some p) a) ≡ physical (p * 32 + va % 32)
answer-some va p a h = ap (answer va) (entry-some p a h)

module _ (os : Os) (pid dir : ℕ) (tables m : ℕ → Option ℕ)
    (r : Represents os pid dir tables m) where
  pub dir_entry :
      (va : ℕ)
      → get_page_dir_entry pid va os
        ≡ ok (entry (tables (va / 1024 % 32)) (dir * 32 + va / 1024 % 32))
  dir_entry va =
      let lt : va / 1024 % 32 < 32 = omega arith in
      rw
        (
          get_page_dir_entry_lem pid va dir os r.has_dir,
          get_entry_lem (dir * 32 + va / 1024 % 32) os (omega (arith, r.dir_page)),
          r.dir_bytes (va / 1024 % 32) lt,
        )
        refl

  pub table_entry :
      (i t va : ℕ)
      → i < 32
      → tables i ≡ some t
      → get_page_table_entry va t os
        ≡ ok (entry (m (i * 32 + va / 32 % 32)) (t * 32 + va / 32 % 32))
  unfolding get_page_table_entry
  table_entry i t va h e =
      let lt : va / 32 % 32 < 32 = omega arith in
      rw
        (
          get_entry_lem (t * 32 + va / 32 % 32) os (omega (arith, r.table_page i t e)),
          r.table_bytes i (va / 32 % 32) t h lt e,
        )
        refl

  translate-table :
      (va t : ℕ)
      → va < 32768
      → tables (va / 1024 % 32) ≡ some t
      → translate pid va os ≡ ok (answer va (entry (m (va / 32)) (t * 32 + va / 32 % 32)))
  translate-table va t h e =
      let z : va / 1024 % 32 * 32 + va / 32 % 32 ≡ va / 32 = omega arith in
      translate_valid pid va os (record { valid = 1; pfn = t; addr = dir * 32 + va / 1024 % 32 }) _
        (dir_entry va
          ∙ ap (λ o. ok (entry o (dir * 32 + va / 1024 % 32))) e
          ∙ ap ok (entry-some t (dir * 32 + va / 1024 % 32) (r.table_page (va / 1024 % 32) t e)))
        refl
        (table_entry (va / 1024 % 32) t va (omega arith) e
          ∙ ap (λ v. ok (entry (m v) (t * 32 + va / 32 % 32))) z)

  translate-no_table :
      (va : ℕ) → tables (va / 1024 % 32) ≡ none → translate pid va os ≡ ok pde_fault
  translate-no_table va e =
      translate_invalid pid va os (entry none (dir * 32 + va / 1024 % 32))
        (dir_entry va ∙ ap (λ o. ok (entry o (dir * 32 + va / 1024 % 32))) e) refl

  -- Let the page directory and the page table of a process stand for a map. For every virtual address
  -- below 32768, `translate` raises no exception and agrees with the map: a mapped page gives its
  -- physical page with the offset, and one that is not mapped gives a fault.
  pub translate-Agrees :
      (va : ℕ)
      → va < 32768
      → (a : Translation) × (translate pid va os ≡ ok a) × Agrees (m (va / 32)) (va % 32) a
  translate-Agrees va h = elim (Option-cases (tables (va / 1024 % 32))) [
    | inl none_there ↦
        let z : va / 1024 % 32 * 32 + va / 32 % 32 ≡ va / 32 = omega arith in
        let not_mapped =
          ap m (sym z)
          ∙ r.no_table (va / 1024 % 32) (va / 32 % 32) (omega arith) (omega arith) none_there in
        (pde_fault, translate-no_table va none_there, rw not_mapped (inr refl))
    | inr (t, e) ↦ elim (Option-cases (m (va / 32))) [
      | inl not_mapped ↦ (
        pte_fault,
        translate-table va t h e
            ∙ ap (λ o. ok (answer va (entry o (t * 32 + va / 32 % 32)))) not_mapped,
        rw not_mapped (inl refl),
      )
      | inr (p, mapped) ↦ (
        physical (p * 32 + va % 32),
        translate-table va t h e
            ∙ ap (λ o. ok (answer va (entry o (t * 32 + va / 32 % 32)))) mapped
            ∙ ap ok (answer-some va p (t * 32 + va / 32 % 32) (r.page_page (va / 32) p mapped)),
        rw mapped refl,
      )
    ]
  ]
