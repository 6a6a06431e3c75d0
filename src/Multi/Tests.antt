-- ===== src/Multi/Tests.antt =====
-- Runs of paging-multilevel-translate/paging-multilevel-translate.py at small inputs.
use os_tep.Prelude.{
  ℕ, ◌/◌, ◌%◌, ◌≡◌, refl, inl, inr, ◌||◌, Option, none, some, List, [], ◌∷◌, arith, ◌==◌,
  if◌then◌else◌, replicate,
}
use os_tep.Prelude.Fault.{ok, raise, assertion_error, Result, Returns}
use os_tep.Multi.{
  Os, init, Translation, physical, pde_fault, translate, alloc_virtual_page, add_page, proc_alloc,
}
use os_tep.Multi.Represents.{Represents, Agrees, translate-Agrees}
use os_tep.Multi.Table.{map_page}
use os_tep.Multi.Alloc.{Allocated, alloc_virtual_page-Allocated}
use os_tep.Multi.Start.{empty_map, Added, add_page-Added}

-- Page 5 is the directory of process 1; it has no entry yet. Page 6 is used, too.
abbrev one_dir : Os
one_dir = record {
  used_pages = λ p. p == 5 || p == 6;
  used_pages_count = 2;
  memory = λ a. 127;
  pdbr = λ q. if q == 1 then some 5 else none;
  draws = 6 ∷ 7 ∷ 9 ∷ replicate 40 3;
}

-- Page 6 is the first part of the page table; virtual page 1 is in page 7.
abbrev one_page : Os
one_page = record {
  used_pages = λ p. p == 5 || p == 6 || p == 7;
  used_pages_count = 3;
  memory = λ a. if a == 160 then 134 else if a == 193 then 135 else 127;
  pdbr = λ q. if q == 1 then some 5 else none;
  draws = [];
}

abbrev one_table : ℕ → Option ℕ
one_table = map_page 0 6 empty_map

abbrev one_map : ℕ → Option ℕ
one_map = map_page 1 7 empty_map

one_dir-Represents : Represents one_dir 1 5 empty_map empty_map
one_dir-Represents = record {
  has_dir = refl;
  dir_page = omega arith;
  dir_used = refl;
  dir_bytes = λ i h. refl;
  table_page = λ i t e. absurd (cc e);
  table_used = λ i t e. absurd (cc e);
  table_dir = λ i t e. absurd (cc e);
  table_alone = λ i k t e. absurd (cc e);
  table_bytes = λ i j t h k e. refl;
  no_table = λ i j h k e. refl;
  page_page = λ v p e. absurd (cc e);
  page_used = λ v p e. absurd (cc e);
  page_dir = λ v p e. absurd (cc e);
  page_table = λ v p i e. absurd (cc e);
  page_alone = λ v w p e. absurd (cc e);
}

one_page-Represents : Represents one_page 1 5 one_table one_map
one_page-Represents = record {
  has_dir = refl;
  dir_page = omega arith;
  dir_used = refl;
  dir_bytes = λ i h. ground arith;
  table_page = λ i t e. ground arith;
  table_used = λ i t e. ground arith;
  table_dir = λ i t e. ground arith;
  table_alone = λ i k t e f. ground arith;
  table_bytes = λ i j t h k e. ground arith;
  no_table = λ i j h k e. ground arith;
  page_page = λ v p e. ground arith;
  page_used = λ v p e. ground arith;
  page_dir = λ v p e. ground arith;
  page_table = λ v p i e. ground arith;
  page_alone = λ v w p e f. ground arith;
}

-- the translation of an address of process 1, with the result of an allocation
abbrev translated : ℕ → Result (List ℕ × Os) → Result Translation
translated va (ok (pages, os)) = translate 1 va os
translated va (raise e) = raise e

proc_alloc_test :
    translated 37 (proc_alloc 1 1 (init (5 ∷ 1 ∷ 5 ∷ 7 ∷ 6 ∷ replicate 32 3))) ≡ ok (physical 229)
unfolding proc_alloc translate
proc_alloc_test = refl

fault_test :
    translated 1024 (proc_alloc 1 1 (init (5 ∷ 1 ∷ 5 ∷ 7 ∷ 6 ∷ replicate 32 3))) ≡ ok pde_fault
unfolding proc_alloc translate
fault_test = refl

-- a page that is mapped cannot be mapped again
mapped_test : alloc_virtual_page 1 1 8 one_page ≡ raise assertion_error
unfolding alloc_virtual_page
mapped_test = refl

translate-Agrees_example :
    (a : Translation) × (translate 1 37 one_page ≡ ok a) × Agrees (one_map (37 / 32)) (37 % 32) a
translate-Agrees_example =
    translate-Agrees one_page 1 5 one_table one_map one_page-Represents 37 (omega arith)

alloc_virtual_page-Allocated_example :
    Returns (Allocated one_dir empty_map 1 5 33 6 0 empty_map) (alloc_virtual_page 1 33 6 one_dir)
alloc_virtual_page-Allocated_example =
    alloc_virtual_page-Allocated one_dir 1 5 empty_map empty_map 33 6 0 one_dir-Represents
      (omega arith) refl
      (record {
        is_page = omega arith;
        is_used = refl;
        no_dir = omega arith;
        no_table = λ i e. cc e;
        no_page = λ v e. cc e;
      })
      (omega arith) (omega arith, inr (refl, (omega arith, inl (refl, omega arith))))

add_page-Added_example : Returns (Added one_dir.used_pages 1 5 33 empty_map) (add_page 1 33 one_dir)
add_page-Added_example =
    add_page-Added one_dir 1 5 33 empty_map empty_map one_dir-Represents (omega arith) refl
      (omega arith)
      (omega arith, inr (refl, (omega arith, inl (refl, (omega arith, inl (refl, omega arith))))))
