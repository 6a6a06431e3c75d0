-- ===== src/Multi/Table.antt =====
-- What an entry of the page table and a new part of the page table of
-- paging-multilevel-translate/paging-multilevel-translate.py do to the map.
use os_tep.Prelude.{
  ℕ, ◌+◌, ◌*◌, ◌/◌, ◌%◌, ◌<◌, ◌≡◌, sym, ap, ◌∙◌, ◌≢◌, ◌⊎◌, inl, inr, true, false, Option, none,
  some, arith, ◌==◌, if◌then◌else◌, Bool-cases,
}
use os_tep.Multi.{phys_pages, va_pages, Os}
use os_tep.Multi.Memory.{put, put_self, put_other, marked}
use os_tep.Multi.Represents.{byte, Represents}

-- the map with one more entry
abbrev pub map_page : ℕ → ℕ → (ℕ → Option ℕ) → ℕ → Option ℕ
map_page v p m w = if w == v then some p else m w

pub map_page_self : (v p : ℕ) (m : ℕ → Option ℕ) (w : ℕ) → w ≡ v → map_page v p m w ≡ some p
map_page_self v p m w h = ground arith

pub map_page_other : (v p : ℕ) (m : ℕ → Option ℕ) (w : ℕ) → w ≢ v → map_page v p m w ≡ m w
map_page_other v p m w h = ground arith

some_same : {p q : ℕ} → some p ≡ some q → p ≡ q
some_same e = cc

pub map_page-cases :
    (v p : ℕ) (m : ℕ → Option ℕ) (w q : ℕ)
    → map_page v p m w ≡ some q
    → ((w ≡ v) × (q ≡ p)) ⊎ ((w ≢ v) × (m w ≡ some q))
map_page-cases v p m w q e = elim (Bool-cases (w == v)) [
  | inl t ↦
      let same : w ≡ v = ground arith in inl (same, some_same (sym e ∙ map_page_self v p m w same))
  | inr f ↦ let ne : w ≢ v = λ h. ground arith in inr (ne, sym (map_page_other v p m w ne) ∙ e)
]

-- A page that is used, but not by the map.
pub record Fresh (os : Os) (dir : ℕ) (tables m : ℕ → Option ℕ) (p : ℕ) : Type 0 where
  pub is_page : p < phys_pages
  pub is_used : os.used_pages p ≡ true
  pub no_dir : p ≢ dir
  pub no_table : (i : ℕ) → tables i ≢ some p
  pub no_page : (v : ℕ) → m v ≢ some p

-- the system after an entry of the page table was written
abbrev pub entered : ℕ → ℕ → ℕ → Os → Os
entered t vp p os = record os { memory = put (t * 32 + vp % 32) (128 + p) os.memory }

module _ (os : Os) (pid dir : ℕ) (tables m : ℕ → Option ℕ)
    (r : Represents os pid dir tables m) where
  -- an entry that is filled in
  pub entered-Represents :
      (vp t p : ℕ)
      → vp < va_pages
      → tables (vp / 32) ≡ some t
      → Fresh os dir tables m p
      → Represents (entered t vp p os) pid dir tables (map_page vp p m)
  entered-Represents vp t p lt at f = record {
    has_dir = r.has_dir;
    dir_page = r.dir_page;
    dir_used = r.dir_used;
    dir_bytes = λ i h.
        put_other (t * 32 + vp % 32) (128 + p) os.memory (dir * 32 + i)
          (λ e. r.table_dir (vp / 32) t at (omega arith))
        ∙ r.dir_bytes i h;
    table_page = r.table_page;
    table_used = r.table_used;
    table_dir = r.table_dir;
    table_alone = r.table_alone;
    table_bytes = λ i j u h k e. elim (Bool-cases (i * 32 + j == vp)) [
      | inl same ↦
          let here : i ≡ vp / 32 = ground arith in
          let tu = some_same (sym at ∙ ap tables (sym here) ∙ e) in
          put_self (t * 32 + vp % 32) (128 + p) os.memory (u * 32 + j) (ground (arith, tu))
          ∙ ap byte (sym (map_page_self vp p m (i * 32 + j) (ground arith)))
      | inr other ↦
          let ne : i * 32 + j ≢ vp = λ x. ground arith in
          put_other (t * 32 + vp % 32) (128 + p) os.memory (u * 32 + j) (λ x.
            let ut : u ≡ t = omega arith in
            let here = r.table_alone i (vp / 32) t (e ∙ ap some ut) at in ne (omega arith))
          ∙ r.table_bytes i j u h k e
          ∙ ap byte (sym (map_page_other vp p m (i * 32 + j) ne))
    ];
    no_table = λ i j h k e.
        map_page_other vp p m (i * 32 + j)
          (λ x. let here : i ≡ vp / 32 = omega arith in none_some (sym e ∙ ap tables here ∙ at))
        ∙ r.no_table i j h k e;
    page_page = λ v q e. elim (map_page-cases vp p m v q e) [
      | inl (s, n) ↦ omega (arith, n, f.is_page)
      | inr (s, n) ↦ r.page_page v q n
    ];
    page_used = λ v q e. elim (map_page-cases vp p m v q e) [
      | inl (s, n) ↦ ap os.used_pages n ∙ f.is_used
      | inr (s, n) ↦ r.page_used v q n
    ];
    page_dir = λ v q e. elim (map_page-cases vp p m v q e) [
      | inl (s, n) ↦ λ h. f.no_dir (sym n ∙ h)
      | inr (s, n) ↦ r.page_dir v q n
    ];
    page_table = λ v q i e. elim (map_page-cases vp p m v q e) [
      | inl (s, n) ↦ λ h. f.no_table i (h ∙ ap some n)
      | inr (s, n) ↦ r.page_table v q i n
    ];
    page_alone = λ v w q e g. elim (map_page-cases vp p m v q e) [
      | inl (s, n) ↦ elim (map_page-cases vp p m w q g) [
        | inl (s', n') ↦ s ∙ sym s'
        | inr (s', n') ↦ absurd (f.no_page w (n' ∙ ap some n))
      ]
      | inr (s, n) ↦ elim (map_page-cases vp p m w q g) [
        | inl (s', n') ↦ absurd (f.no_page v (n ∙ ap some n'))
        | inr (s', n') ↦ r.page_alone v w q n n'
      ]
    ];
  }
    where
      none_some : none ≡ some t → ⊥
      none_some e = cc

  -- What a new part of the page table in page `look` needs: the page was free, the directory has its
  -- entry, and all bytes of the page are those of empty entries.
  pub record Grown (i look : ℕ) (os' : Os) : Type 0 where
    pub is_page : look < phys_pages
    pub was_free : os.used_pages look ≡ false
    pub marks : os'.used_pages ≡ marked look os.used_pages
    pub keeps_pdbr : os'.pdbr ≡ os.pdbr
    pub points : os'.memory (dir * 32 + i) ≡ 128 + look
    pub empties : (j : ℕ) → j < 32 → os'.memory (look * 32 + j) ≡ 127
    pub keeps :
        (q j : ℕ)
        → j < 32
        → q ≢ look
        → q * 32 + j ≢ dir * 32 + i
        → os'.memory (q * 32 + j) ≡ os.memory (q * 32 + j)

  module _ (i look : ℕ) (os' : Os) (lt : i < 32) (empty : tables i ≡ none)
      (g : Grown i look os') where
    used_other : (p : ℕ) → os.used_pages p ≡ true → p ≢ look
    used_other p u e = cc (sym u ∙ ap os.used_pages e ∙ g.was_free)

    still_used : (p : ℕ) → os.used_pages p ≡ true → os'.used_pages p ≡ true
    still_used p u = ap (λ z. z p) g.marks ∙ ground (arith, u)

    look_used : os'.used_pages look ≡ true
    look_used = ap (λ z. z look) g.marks ∙ ground arith

    pub grown-Represents : Represents os' pid dir (map_page i look tables) m
    grown-Represents = record {
      has_dir = ap (λ z. z pid) g.keeps_pdbr ∙ r.has_dir;
      dir_page = r.dir_page;
      dir_used = still_used dir r.dir_used;
      dir_bytes = λ k h. elim (Bool-cases (k == i)) [
        | inl same ↦
            let ki : k ≡ i = ground arith in
            ap (λ x. os'.memory (dir * 32 + x)) ki
            ∙ g.points
            ∙ ap byte (sym (map_page_self i look tables k ki))
        | inr other ↦
            let ne : k ≢ i = λ e. ground arith in
            g.keeps dir k h (used_other dir r.dir_used) (λ e. ne (omega arith))
            ∙ r.dir_bytes k h
            ∙ ap byte (sym (map_page_other i look tables k ne))
      ];
      table_page = λ k t e. elim (map_page-cases i look tables k t e) [
        | inl (s, n) ↦ omega (arith, n, g.is_page)
        | inr (s, n) ↦ r.table_page k t n
      ];
      table_used = λ k t e. elim (map_page-cases i look tables k t e) [
        | inl (s, n) ↦ ap os'.used_pages n ∙ look_used
        | inr (s, n) ↦ still_used t (r.table_used k t n)
      ];
      table_dir = λ k t e. elim (map_page-cases i look tables k t e) [
        | inl (s, n) ↦ λ h. used_other dir r.dir_used (sym h ∙ n)
        | inr (s, n) ↦ r.table_dir k t n
      ];
      table_alone = λ k l t e f. elim (map_page-cases i look tables k t e) [
        | inl (s, n) ↦ elim (map_page-cases i look tables l t f) [
          | inl (s', n') ↦ s ∙ sym s'
          | inr (s', n') ↦ absurd (used_other t (r.table_used l t n') n)
        ]
        | inr (s, n) ↦ elim (map_page-cases i look tables l t f) [
          | inl (s', n') ↦ absurd (used_other t (r.table_used k t n) n')
          | inr (s', n') ↦ r.table_alone k l t n n'
        ]
      ];
      table_bytes = λ k j t h l e. elim (map_page-cases i look tables k t e) [
        | inl (s, n) ↦
            ap (λ x. os'.memory (x * 32 + j)) n
            ∙ g.empties j l
            ∙ ap byte (sym (r.no_table i j lt l empty) ∙ ap (λ x. m (x * 32 + j)) (sym s))
        | inr (s, n) ↦
            g.keeps t j l (used_other t (r.table_used k t n)) (λ x. r.table_dir k t n (omega arith))
            ∙ r.table_bytes k j t h l n
      ];
      no_table = λ k j h l e.
          let ne : k ≢ i = λ s. none_some (sym e ∙ map_page_self i look tables k s) in
          r.no_table k j h l (sym (map_page_other i look tables k ne) ∙ e);
      page_page = r.page_page;
      page_used = λ v p e. still_used p (r.page_used v p e);
      page_dir = r.page_dir;
      page_table = λ v p k e f. elim (map_page-cases i look tables k p f) [
        | inl (s, n) ↦ used_other p (r.page_used v p e) n
        | inr (s, n) ↦ r.page_table v p k e n
      ];
      page_alone = r.page_alone;
    }
      where
        none_some : none ≡ some look → ⊥
        none_some e = cc

    -- a page that was used, but not by the map, is still such a page
    pub grown-Fresh : (p : ℕ) → Fresh os dir tables m p → Fresh os' dir (map_page i look tables) m p
    grown-Fresh p f = record {
      is_page = f.is_page;
      is_used = still_used p f.is_used;
      no_dir = f.no_dir;
      no_table = λ k e. elim (map_page-cases i look tables k p e) [
        | inl (s, n) ↦ used_other p f.is_used n
        | inr (s, n) ↦ f.no_table k n
      ];
      no_page = f.no_page;
    }
