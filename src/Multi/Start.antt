-- ===== src/Multi/Start.antt =====
-- `procAlloc` of paging-multilevel-translate/paging-multilevel-translate.py: the new page directory, and
-- a page that is added.
use os_tep.Prelude.{
  ℕ, ◌+◌, ◌*◌, ◌≤◌, ◌<◌, ◌≡◌, refl, sym, ap, ◌∙◌, ◌≢◌, Bool, true, false, Option, none, some, List,
  arith, ◌==◌, if◌then◌else◌, length,
}
use mathlib.Core.Path.{subst}
use os_tep.Prelude.Fault.{ok, ◌>>=◌, Returns, Returns-bind}
use os_tep.Multi.{
  phys_pages, va_pages, Os, find_free, init_page_dir, alloc_virtual_page, fill_page, new_page_dir,
  add_page,
}
use os_tep.Multi.Memory.{fill_bytes_lem, Finds, AtLeast, marked, Free, find_free-Free}
use os_tep.Multi.Represents.{Represents}
use os_tep.Multi.Table.{map_page, map_page_self, Fresh}
use os_tep.Multi.Alloc.{init_page_dir_lem, Allocated, alloc_virtual_page-Allocated}

abbrev pub empty_map : ℕ → Option ℕ
empty_map v = none

-- a new process, whose tables stand for the empty map
abbrev pub Started : ℕ → Os → Type 0
Started pid os = (dir : ℕ) × Represents os pid dir empty_map empty_map

new_page_dir_lem :
    (pid : ℕ) (os : Os)
    → new_page_dir pid os ≡ (
        find_free os >>= λ r.
        init_page_dir r.0 (record r.1 { pdbr = λ q. if q == pid then some r.0 else r.1.pdbr q }))
unfolding new_page_dir
new_page_dir_lem pid os = refl

-- Let there be a free page that the draws find. Then the first steps of `procAlloc` raise no
-- exception, and the new page directory stands for the map without pages.
pub new_page_dir-Started :
    (pid : ℕ) (os : Os)
    → os.used_pages_count < phys_pages
    → Finds os.used_pages (AtLeast 0) os.draws
    → Returns (Started pid) (new_page_dir pid os)
new_page_dir-Started pid os h k = rw (new_page_dir_lem pid os) (
    Returns-bind (Free os (AtLeast 0)) (Started pid) (find_free os) _
      (find_free-Free (AtLeast 0) os h k)
      (λ x g.
        let os1 : Os = record x.1 { pdbr = λ q. if q == pid then some x.0 else x.1.pdbr q } in
        let (mem, e, inside, outside) = init_page_dir_lem x.0 os1 g.is_page in
        rw e (
          x.0,
          record {
            has_dir = ground arith;
            dir_page = g.is_page;
            dir_used = ap (λ z. z x.0) g.is_used ∙ ground arith;
            dir_bytes = inside;
            table_page = λ i t f. absurd (none_some f);
            table_used = λ i t f. absurd (none_some f);
            table_dir = λ i t f. absurd (none_some f);
            table_alone = λ i j t f. absurd (none_some f);
            table_bytes = λ i j t a b f. absurd (none_some f);
            no_table = λ i j a b f. refl;
            page_page = λ v p f. absurd (none_some f);
            page_used = λ v p f. absurd (none_some f);
            page_dir = λ v p f. absurd (none_some f);
            page_table = λ v p i f. absurd (none_some f);
            page_alone = λ v w p f. absurd (none_some f);
          },
        )))
  where
    none_some : {p : ℕ} → none ≡ some p → ⊥
    none_some e = cc

add_page_lem :
    (pid vp : ℕ) (os : Os)
    → add_page pid vp os
      ≡ (find_free os >>= λ r. alloc_virtual_page pid vp r.0 r.1 >>= λ os'. fill_page r.0 os')
unfolding add_page
add_page_lem pid vp os = refl

-- a page outside the tables that gets other contents
pub fill_page_lem :
    (p : ℕ) (os : Os)
    → p < phys_pages
    → 32 ≤ length os.draws
    → (m : ℕ → ℕ) × (draws : List ℕ) × (fill_page p os
        ≡ ok (record os { memory = m; draws = draws }))
      × ((q j : ℕ) → j < 32 → q ≢ p → m (q * 32 + j) ≡ os.memory (q * 32 + j))
unfolding fill_page
fill_page_lem p os h k =
    let (m, draws, e, outside) = fill_bytes_lem 32 (p * 32) os (omega arith) k in
    (m, draws, e, λ q j lt ne. outside (q * 32 + j) (omega arith))

-- The tables stand for the map with one more page, which was free.
abbrev pub Added : (ℕ → Bool) → ℕ → ℕ → ℕ → (ℕ → Option ℕ) → Os → Type 0
Added used pid dir vp m os =
    (tables : ℕ → Option ℕ) × (p : ℕ) × (used p ≡ false)
    × Represents os pid dir tables (map_page vp p m)

module _ (os : Os) (pid dir : ℕ) (tables m : ℕ → Option ℕ)
    (r : Represents os pid dir tables m) where
  -- the marks of a page that was free
  found-Fresh :
      (K : ℕ → List ℕ → Type 0) (x : ℕ × Os)
      → Free os K x
      → Represents x.1 pid dir tables m × Fresh x.1 dir tables m x.0
  found-Fresh K x g = (
    record {
      has_dir = ap (λ z. z pid) g.same_pdbr ∙ r.has_dir;
      dir_page = r.dir_page;
      dir_used = still_used dir r.dir_used;
      dir_bytes = λ i h. ap (λ z. z (dir * 32 + i)) g.same_memory ∙ r.dir_bytes i h;
      table_page = r.table_page;
      table_used = λ i t e. still_used t (r.table_used i t e);
      table_dir = r.table_dir;
      table_alone = r.table_alone;
      table_bytes =
          λ i j t h k e. ap (λ z. z (t * 32 + j)) g.same_memory ∙ r.table_bytes i j t h k e;
      no_table = r.no_table;
      page_page = r.page_page;
      page_used = λ v p e. still_used p (r.page_used v p e);
      page_dir = r.page_dir;
      page_table = r.page_table;
      page_alone = r.page_alone;
    },
    record {
      is_page = g.is_page;
      is_used = ap (λ z. z x.0) g.is_used ∙ ground arith;
      no_dir = λ e. cc (sym r.dir_used ∙ ap os.used_pages (sym e) ∙ g.was_free);
      no_table = λ i e. cc (sym (r.table_used i x.0 e) ∙ g.was_free);
      no_page = λ v e. cc (sym (r.page_used v x.0 e) ∙ g.was_free);
    },
  )
    where
      still_used : (p : ℕ) → os.used_pages p ≡ true → x.1.used_pages p ≡ true
      still_used p u = ap (λ z. z p) g.is_used ∙ ground (arith, u)

  -- other contents of a page outside the tables
  filled-Represents :
      (p : ℕ) (mem : ℕ → ℕ) (draws : List ℕ)
      → p ≢ dir
      → ((i : ℕ) → tables i ≢ some p)
      → ((q j : ℕ) → j < 32 → q ≢ p → mem (q * 32 + j) ≡ os.memory (q * 32 + j))
      → Represents (record os { memory = mem; draws = draws }) pid dir tables m
  filled-Represents p mem draws ne no_table same = record {
    has_dir = r.has_dir;
    dir_page = r.dir_page;
    dir_used = r.dir_used;
    dir_bytes = λ i h. same dir i h (λ e. ne (sym e)) ∙ r.dir_bytes i h;
    table_page = r.table_page;
    table_used = r.table_used;
    table_dir = r.table_dir;
    table_alone = r.table_alone;
    table_bytes =
        λ i j t h k e. same t j k (λ x. no_table i (e ∙ ap some x)) ∙ r.table_bytes i j t h k e;
    no_table = r.no_table;
    page_page = r.page_page;
    page_used = r.page_used;
    page_dir = r.page_dir;
    page_table = r.page_table;
    page_alone = r.page_alone;
  }

-- Let the tables of a process stand for a map in which a virtual page is not mapped, and let the draws
-- find a free page, find a free page once more, and have 32 values behind it. Then the body of the
-- loop of `procAlloc` raises no exception, whether or not it needs a new part of the page table, and
-- afterwards the tables stand for the map in which the virtual page has a page that was free.
pub add_page-Added :
    (os : Os) (pid dir vp : ℕ) (tables m : ℕ → Option ℕ)
    → Represents os pid dir tables m
    → vp < va_pages
    → m vp ≡ none
    → os.used_pages_count + 1 < phys_pages
    → Finds os.used_pages (λ p ds. Finds (marked p os.used_pages) (AtLeast 32) ds) os.draws
    → Returns (Added os.used_pages pid dir vp m) (add_page pid vp os)
add_page-Added os pid dir vp tables m r lt not_mapped h k =
    let K : ℕ → List ℕ → Type 0 = λ p ds. Finds (marked p os.used_pages) (AtLeast 32) ds in
    rw (add_page_lem pid vp os) (
      Returns-bind (Free os K) (Added os.used_pages pid dir vp m) (find_free os) _
        (find_free-Free K os (omega arith) k)
        (λ x g.
          mapped x g.was_free (found-Fresh os pid dir tables m r K x g) (omega (arith, g.one_more))
            (subst (λ u. Finds u (AtLeast 32) x.1.draws) (sym g.is_used) g.left)))
  where
    mapped :
        (x : ℕ × Os)
        → os.used_pages x.0 ≡ false
        → Represents x.1 pid dir tables m × Fresh x.1 dir tables m x.0
        → x.1.used_pages_count < phys_pages
        → Finds x.1.used_pages (AtLeast 32) x.1.draws
        → Returns
            (Added os.used_pages pid dir vp m)
            (alloc_virtual_page pid vp x.0 x.1 >>= λ os'. fill_page x.0 os')
    mapped x free (r', f) room finds =
        Returns-bind (Allocated x.1 tables pid dir vp x.0 32 m) (Added os.used_pages pid dir vp m)
          (alloc_virtual_page pid vp x.0 x.1) _
          (alloc_virtual_page-Allocated x.1 pid dir tables m vp x.0 32 r' lt not_mapped f room
            finds)
          (λ os' a.
            let self = map_page_self vp x.0 m vp refl in
            let (mem, draws, e, same) = fill_page_lem x.0 os' f.is_page a.left in
            rw e (
              a.tables,
              x.0,
              free,
              filled-Represents os' pid dir a.tables (map_page vp x.0 m) a.stands x.0 mem draws
                  f.no_dir (λ i. a.stands.page_table vp x.0 i self) same,
            ))
