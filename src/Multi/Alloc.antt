-- ===== src/Multi/Alloc.antt =====
-- `allocVirtualPage` of paging-multilevel-translate/paging-multilevel-translate.py on the map that the
-- page table stands for.
use os_tep.Prelude.{
  false, ℕ, ◌+◌, ◌*◌, ◌/◌, ◌%◌, ◌≤◌, ◌<◌, ◌≡◌, refl, sym, ap, ◌∙◌, ◌≢◌, ◌⊎◌, inl, inr, Option, none,
  some, arith, Option-cases, length,
}
use mathlib.Core.Path.{subst}
use os_tep.Prelude.Fault.{ok, ◌>>=◌, Returns, Returns-bind}
use os_tep.Multi.{
  phys_pages, phys_mem, va_pages, Os, Entry, find_free, init_page_dir, with_valid,
  get_page_dir_entry, get_page_table_entry, set_entry, table_page, enter, alloc_virtual_page,
}
use os_tep.Multi.Memory.{
  put, put_self, put_other, store_lem, init_bytes_lem, Finds, AtLeast, Finds-AtLeast, Free,
  find_free-Free,
}
use os_tep.Multi.Represents.{Represents, entry, entry-some, dir_entry, table_entry}
use os_tep.Multi.Table.{
  map_page, map_page_self, map_page_other, map_page-cases, Fresh, entered-Represents, Grown,
  grown-Represents, grown-Fresh,
}

set_entry_lem :
    (a p : ℕ) (os : Os)
    → a < phys_mem
    → p < phys_pages
    → set_entry a p os ≡ ok (record os { memory = put a (128 + p) os.memory })
unfolding set_entry
set_entry_lem a p os h k =
    let v : with_valid p ≡ 128 + p = ground arith in rw (store_lem a (with_valid p) os h, v) refl

enter_empty :
    (va t p a : ℕ) (os : Os)
    → get_page_table_entry va t os ≡ ok (entry none a)
    → enter va t p os ≡ set_entry a p os
unfolding enter
enter_empty va t p a os e = rw e refl

table_page_valid :
    (t a : ℕ) (os : Os) → table_page (record { valid = 1; pfn = t; addr = a }) os ≡ ok (t, os)
unfolding table_page
table_page_valid t a os = refl

table_page_new :
    (a : ℕ) (os : Os)
    → table_page (entry none a) os ≡ (
        find_free os >>= λ r.
        set_entry a r.0 r.1 >>= λ os'. init_page_dir r.0 os' >>= λ os''. ok (r.0, os''))
unfolding table_page
table_page_new a os = refl

alloc_virtual_page_lem :
    (pid vp p : ℕ) (os : Os) (e : Entry)
    → get_page_dir_entry pid (vp * 32) os ≡ ok e
    → alloc_virtual_page pid vp p os ≡ (table_page e os >>= λ r. enter (vp * 32) r.0 p r.1)
unfolding alloc_virtual_page
alloc_virtual_page_lem pid vp p os e h = rw h refl

pub init_page_dir_lem :
    (p : ℕ) (os : Os)
    → p < phys_pages
    → (m : ℕ → ℕ) × (init_page_dir p os ≡ ok (record os { memory = m }))
      × ((j : ℕ) → j < 32 → m (p * 32 + j) ≡ 127)
      × ((q j : ℕ) → j < 32 → q ≢ p → m (q * 32 + j) ≡ os.memory (q * 32 + j))
unfolding init_page_dir
init_page_dir_lem p os h =
    let (m, e, inside, outside) = init_bytes_lem 32 (p * 32) os (omega arith) in
    (
      m,
      e,
      λ j k. inside (p * 32 + j) (omega arith) (omega arith),
      λ q j k ne. outside (q * 32 + j) (omega arith),
    )

-- The parts of the page table stay where they are, and a new part is in a page that was free.
pub record Extends (os : Os) (tables tables' : ℕ → Option ℕ) : Type 0 where
  pub stays : (i t : ℕ) → tables i ≡ some t → tables' i ≡ some t
  pub was_free : (i t : ℕ) → tables' i ≡ some t → (tables i ≡ some t) ⊎ (os.used_pages t ≡ false)

Extends-same : (os : Os) (tables : ℕ → Option ℕ) → Extends os tables tables
Extends-same os tables = record { stays = λ i t e. e; was_free = λ i t e. inl e }

Extends-map_page :
    (os : Os) (tables : ℕ → Option ℕ) (i look : ℕ)
    → tables i ≡ none
    → os.used_pages look ≡ false
    → Extends os tables (map_page i look tables)
Extends-map_page os tables i look empty free = record {
  stays = λ k t e.
      map_page_other i look tables k (λ s. none_some (sym empty ∙ ap tables (sym s) ∙ e)) ∙ e;
  was_free = λ k t e. elim (map_page-cases i look tables k t e) [
    | inl (s, n) ↦ inr (ap os.used_pages n ∙ free)
    | inr (s, n) ↦ inl n
  ];
}
  where
    none_some : {t : ℕ} → none ≡ some t → ⊥
    none_some e = cc

-- What the step gives: the page of the part of the page table, and the page to be mapped, still free.
record Tabled (os : Os) (old : ℕ → Option ℕ) (pid dir vp p n : ℕ) (m : ℕ → Option ℕ) (r : ℕ × Os)
    : Type 0 where
  tables : ℕ → Option ℕ
  extends : Extends os old tables
  stands : Represents r.1 pid dir tables m
  there : tables (vp / 32) ≡ some r.0
  fresh : Fresh r.1 dir tables m p
  left : n ≤ length r.1.draws

-- What an allocation gives: one more entry of the map, in tables whose new part was a free page, and at
-- least `n` draws.
pub record Allocated (os : Os) (old : ℕ → Option ℕ) (pid dir vp p n : ℕ) (m : ℕ → Option ℕ)
    (os' : Os) : Type 0 where
  pub tables : ℕ → Option ℕ
  pub extends : Extends os old tables
  pub stands : Represents os' pid dir tables (map_page vp p m)
  pub left : n ≤ length os'.draws

module _ (os : Os) (pid dir : ℕ) (tables m : ℕ → Option ℕ) (r : Represents os pid dir tables m)
    (vp p n : ℕ) (lt : vp < va_pages) (f : Fresh os dir tables m p) where
  new_table :
      (x : ℕ × Os)
      → tables (vp / 32) ≡ none
      → Free os (AtLeast n) x
      → Returns (Tabled os tables pid dir vp p n m) (
          set_entry (dir * 32 + vp / 32) x.0 x.1 >>= λ os'.
          init_page_dir x.0 os' >>= λ os''. ok (x.0, os''))
  new_table x empty g =
      let a = dir * 32 + vp / 32 in
      let i_lt : vp / 32 < 32 = omega arith in
      let os1 : Os = record x.1 { memory = put a (128 + x.0) x.1.memory } in
      let (mem, e, inside, outside) = init_page_dir_lem x.0 os1 g.is_page in
      let os2 : Os = record os1 { memory = mem } in
      let dir_other : dir ≢ x.0 =
        λ h. absurd (cc (sym r.dir_used ∙ ap os.used_pages h ∙ g.was_free)) in
      let grown : Grown os pid dir tables m r (vp / 32) x.0 os2 = record {
        is_page = g.is_page;
        was_free = g.was_free;
        marks = g.is_used;
        keeps_pdbr = g.same_pdbr;
        points = outside dir (vp / 32) i_lt dir_other ∙ put_self a (128 + x.0) x.1.memory a refl;
        empties = inside;
        keeps = λ q j h ne other.
            outside q j h ne
            ∙ put_other a (128 + x.0) x.1.memory (q * 32 + j) other
            ∙ ap (λ z. z (q * 32 + j)) g.same_memory;
      } in
      rw (set_entry_lem a x.0 x.1 (omega (arith, r.dir_page)) g.is_page, e)
        (record {
          tables = map_page (vp / 32) x.0 tables;
          extends = Extends-map_page os tables (vp / 32) x.0 empty g.was_free;
          stands = grown-Represents os pid dir tables m r (vp / 32) x.0 os2 i_lt empty grown;
          there = map_page_self (vp / 32) x.0 tables (vp / 32) refl;
          fresh = grown-Fresh os pid dir tables m r (vp / 32) x.0 os2 i_lt empty grown p f;
          left = g.left;
        })

  table_page-Tabled :
      os.used_pages_count < phys_pages
      → Finds os.used_pages (AtLeast n) os.draws
      → Returns
          (Tabled os tables pid dir vp p n m)
          (table_page (entry (tables (vp / 32)) (dir * 32 + vp / 32)) os)
  table_page-Tabled h k = elim (Option-cases (tables (vp / 32))) [
    | inl empty ↦
        subst
          (λ o.
            Returns (Tabled os tables pid dir vp p n m)
              (table_page (entry o (dir * 32 + vp / 32)) os))
          (sym empty)
          (rw (table_page_new (dir * 32 + vp / 32) os) (
            Returns-bind (Free os (AtLeast n)) (Tabled os tables pid dir vp p n m) (find_free os) _
              (find_free-Free (AtLeast n) os h k) (λ x g. new_table x empty g)))
    | inr (t, e) ↦
        subst
          (λ o.
            Returns (Tabled os tables pid dir vp p n m)
              (table_page (entry o (dir * 32 + vp / 32)) os))
          (sym e)
          (rw
            (
              entry-some t (dir * 32 + vp / 32) (r.table_page (vp / 32) t e),
              table_page_valid t (dir * 32 + vp / 32) os,
            )
            (record {
              tables = tables;
              extends = Extends-same os tables;
              stands = r;
              there = e;
              fresh = f;
              left = Finds-AtLeast os.used_pages n os.draws k;
            }))
  ]

enter-Allocated :
    (os : Os) (tables : ℕ → Option ℕ) (pid dir vp p n : ℕ) (m : ℕ → Option ℕ) (x : ℕ × Os)
    → vp < va_pages
    → m vp ≡ none
    → Tabled os tables pid dir vp p n m x
    → Returns (Allocated os tables pid dir vp p n m) (enter (vp * 32) x.0 p x.1)
enter-Allocated os tables pid dir vp p n m x lt not_mapped t =
    let z : vp / 32 * 32 + vp * 32 / 32 % 32 ≡ vp = omega arith in
    let j : vp * 32 / 32 % 32 ≡ vp % 32 = omega arith in
    let empty = ap m z ∙ not_mapped in
    let e =
      table_entry x.1 pid dir t.tables m t.stands (vp / 32) x.0 (vp * 32) (omega arith) t.there
      ∙ ap (λ o. ok (entry o (x.0 * 32 + vp * 32 / 32 % 32))) empty
      ∙ ap (λ n. ok (entry none (x.0 * 32 + n))) j in
    rw
      (
        enter_empty (vp * 32) x.0 p (x.0 * 32 + vp % 32) x.1 e,
        set_entry_lem (x.0 * 32 + vp % 32) p x.1
            (omega (arith, t.stands.table_page (vp / 32) x.0 t.there)) t.fresh.is_page,
      )
      (record {
        tables = t.tables;
        extends = t.extends;
        stands = entered-Represents x.1 pid dir t.tables m t.stands vp x.0 p lt t.there t.fresh;
        left = t.left;
      })

-- Let the page directory and the page table of a process stand for a map, in which a virtual page is
-- not mapped yet. Let a physical page be used, but not by the map, and let there be a free page that
-- the draws find. Then `allocVirtualPage` raises no exception, and afterwards the tables stand for the
-- map with the one new entry, where no page is used in two ways. The parts of the page table stay where
-- they are, a new part was a free page before, and `n` draws are left, if as many stand behind the one
-- that finds the free page.
pub alloc_virtual_page-Allocated :
    (os : Os) (pid dir : ℕ) (tables m : ℕ → Option ℕ) (vp p n : ℕ)
    → Represents os pid dir tables m
    → vp < va_pages
    → m vp ≡ none
    → Fresh os dir tables m p
    → os.used_pages_count < phys_pages
    → Finds os.used_pages (AtLeast n) os.draws
    → Returns (Allocated os tables pid dir vp p n m) (alloc_virtual_page pid vp p os)
alloc_virtual_page-Allocated os pid dir tables m vp p n r lt not_mapped f h k =
    let i : vp * 32 / 1024 % 32 ≡ vp / 32 = omega arith in
    let e =
      dir_entry os pid dir tables m r (vp * 32)
      ∙ ap (λ n. ok (entry (tables n) (dir * 32 + n))) i in
    rw (alloc_virtual_page_lem pid vp p os _ e) (
      Returns-bind (Tabled os tables pid dir vp p n m) (Allocated os tables pid dir vp p n m)
        (table_page (entry (tables (vp / 32)) (dir * 32 + vp / 32)) os) _
        (table_page-Tabled os pid dir tables m r vp p n lt f h k)
        (λ x t. enter-Allocated os tables pid dir vp p n m x lt not_mapped t))
