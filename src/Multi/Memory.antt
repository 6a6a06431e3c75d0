-- ===== src/Multi/Memory.antt =====
-- Reads and writes of the memory of paging-multilevel-translate/paging-multilevel-translate.py, and
-- the search for a free page.
use os_tep.Prelude.{
  ℕ, zero, suc, ◌+◌, ◌/◌, ◌%◌, ◌≤◌, ◌<◌, ◌≡◌, refl, ap, ◌∙◌, ◌≢◌, ◌⊎◌, inl, inr, Bool, true, false,
  List, [], ◌∷◌, arith, ltb, ◌==◌, if◌then◌else◌, Bool-cases, length,
}
use os_tep.Prelude.Fault.{ok, ◌>>=◌, Returns}
use os_tep.Multi.{
  phys_mem, phys_pages, Os, load, store, look_for, find_free, init_bytes, fill_bytes, get_entry,
}

pub load_lem : (a : ℕ) (os : Os) → a < phys_mem → load a os ≡ ok (os.memory a)
unfolding load
load_lem a os h = let t : ltb a phys_mem ≡ true = ground arith in rw t refl

pub get_entry_lem :
    (a : ℕ) (os : Os)
    → a < phys_mem
    → get_entry a os
      ≡ ok (record { valid = os.memory a / 128 % 2; pfn = os.memory a % 128; addr = a })
unfolding get_entry
get_entry_lem a os h = rw (load_lem a os h) refl

-- the memory with another value at one address
abbrev pub put : ℕ → ℕ → (ℕ → ℕ) → ℕ → ℕ
put a x m b = if b == a then x else m b

pub store_lem :
    (a x : ℕ) (os : Os)
    → a < phys_mem
    → store a x os ≡ ok (record os { memory = put a x os.memory })
unfolding store
store_lem a x os h = let t : ltb a phys_mem ≡ true = ground arith in rw t refl

pub put_self : (a x : ℕ) (m : ℕ → ℕ) (b : ℕ) → b ≡ a → put a x m b ≡ x
put_self a x m b h = ground arith

pub put_other : (a x : ℕ) (m : ℕ → ℕ) (b : ℕ) → b ≢ a → put a x m b ≡ m b
put_other a x m b h = ground arith

-- the same memory outside `count` bytes from address `a` on
abbrev pub KeptOutside : ℕ → ℕ → (ℕ → ℕ) → (ℕ → ℕ) → Type 0
KeptOutside count a m m' = (b : ℕ) → (b < a) ⊎ (a + count ≤ b) → m' b ≡ m b

KeptOutside-put :
    (count a x : ℕ) (m m' : ℕ → ℕ)
    → KeptOutside count (a + 1) (put a x m) m'
    → KeptOutside (suc count) a m m'
KeptOutside-put count a x m m' h b (inl k) =
    h b (inl (omega arith)) ∙ put_other a x m b (λ e. omega arith)
KeptOutside-put count a x m m' h b (inr k) =
    h b (inr (omega arith)) ∙ put_other a x m b (λ e. omega arith)

pub init_bytes_lem :
    (count a : ℕ) (os : Os)
    → a + count ≤ phys_mem
    → (m : ℕ → ℕ) × (init_bytes count a os ≡ ok (record os { memory = m }))
      × ((b : ℕ) → a ≤ b → b < a + count → m b ≡ 127)
      × KeptOutside count a os.memory m
unfolding init_bytes
init_bytes_lem zero a os h = (os.memory, refl, λ b k l. omega arith, λ b k. refl)
init_bytes_lem (suc count) a os h =
    let os' : Os = record os { memory = put a 127 os.memory } in
    let (m, e, inside, outside) = init_bytes_lem count (a + 1) os' (omega arith) in
    (
      m,
      rw (store_lem a 127 os (omega arith), e) refl,
      λ b k l. elim (Bool-cases (b == a)) [
        | inl t ↦ outside b (inl (ground arith)) ∙ put_self a 127 os.memory b (ground arith)
        | inr f ↦ inside b (ground arith) (omega arith)
      ],
      KeptOutside-put count a 127 os.memory m outside,
    )

fill_bytes_zero : (a : ℕ) (os : Os) → fill_bytes 0 a os ≡ ok os
unfolding fill_bytes
fill_bytes_zero a os = refl

fill_bytes-suc :
    (count a : ℕ) (os : Os) (x : ℕ) (ds : List ℕ)
    → os.draws ≡ x ∷ ds
    → fill_bytes (suc count) a os
      ≡ (store a x (record os { draws = ds }) >>= fill_bytes count (a + 1))
unfolding fill_bytes
fill_bytes-suc count a os x ds e = rw e refl

first_draw :
    (draws : List ℕ)
    → 0 < length draws
    → (x : ℕ) × (ds : List ℕ) × (draws ≡ x ∷ ds) × (length draws ≡ length ds + 1)
first_draw [] h = absurd (omega arith)
first_draw (x ∷ ds) h = (x, ds, refl, omega arith)

-- enough draws
pub fill_bytes_lem :
    (count a : ℕ) (os : Os)
    → a + count ≤ phys_mem
    → count ≤ length os.draws
    → (m : ℕ → ℕ) × (draws : List ℕ) × (fill_bytes count a os
        ≡ ok (record os { memory = m; draws = draws }))
      × KeptOutside count a os.memory m
fill_bytes_lem zero a os h k = (os.memory, os.draws, fill_bytes_zero a os, λ b l. refl)
fill_bytes_lem (suc count) a os h k =
    let (x, ds, e, len) = first_draw os.draws (omega arith) in
    let os' : Os = record os { memory = put a x os.memory; draws = ds } in
    let (m, draws, filled, outside) =
      fill_bytes_lem count (a + 1) os' (omega arith) (omega arith) in
    (
      m,
      draws,
      fill_bytes-suc count a os x ds e
          ∙ ap (λ r. r >>= fill_bytes count (a + 1))
              (store_lem a x (record os { draws = ds }) (omega arith))
          ∙ filled,
      KeptOutside-put count a x os.memory m outside,
    )

-- The draws up to a free page are numbers of pages; the page and the draws behind it satisfy `K`.
abbrev pub Finds : (ℕ → Bool) → (ℕ → List ℕ → Type 0) → List ℕ → Type 0
Finds used K [] = ⊥
Finds used K (d ∷ ds) =
    (d < phys_pages) × (((used d ≡ false) × K d ds) ⊎ ((used d ≡ true) × Finds used K ds))

-- at least `n` draws
abbrev pub AtLeast : ℕ → ℕ → List ℕ → Type 0
AtLeast n d ds = n ≤ length ds

pub Finds-AtLeast :
    (used : ℕ → Bool) (n : ℕ) (draws : List ℕ) → Finds used (AtLeast n) draws → n ≤ length draws
Finds-AtLeast used n [] h = absurd h
Finds-AtLeast used n (d ∷ ds) (lt, inl (free, h)) = omega arith
Finds-AtLeast used n (d ∷ ds) (lt, inr (taken, h)) = omega (arith, Finds-AtLeast used n ds h)

abbrev pub marked : ℕ → (ℕ → Bool) → ℕ → Bool
marked look used p = if p == look then true else used p

-- What the search gives: a page that was free and is marked.
pub record Free (os : Os) (K : ℕ → List ℕ → Type 0) (r : ℕ × Os) : Type 0 where
  pub is_page : r.0 < phys_pages
  pub was_free : os.used_pages r.0 ≡ false
  pub is_used : r.1.used_pages ≡ marked r.0 os.used_pages
  pub same_memory : r.1.memory ≡ os.memory
  pub same_pdbr : r.1.pdbr ≡ os.pdbr
  pub one_more : r.1.used_pages_count ≡ os.used_pages_count + 1
  pub left : K r.0 r.1.draws

look_for-Free :
    (K : ℕ → List ℕ → Type 0) (draws : List ℕ) (os : Os)
    → Finds os.used_pages K draws
    → Returns (Free os K) (look_for draws os)
unfolding look_for
look_for-Free K [] os h = absurd h
look_for-Free K (look ∷ draws) os (lt, inr (taken, later)) =
    let t : ltb look phys_pages ≡ true = ground arith in
    rw (t, taken) (look_for-Free K draws os later)
look_for-Free K (look ∷ draws) os (lt, inl (free, k)) =
    let t : ltb look phys_pages ≡ true = ground arith in
    rw (t, free)
      (record {
        is_page = lt;
        was_free = free;
        is_used = refl;
        same_memory = refl;
        same_pdbr = refl;
        one_more = refl;
        left = k;
      })

pub find_free-Free :
    (K : ℕ → List ℕ → Type 0) (os : Os)
    → os.used_pages_count < phys_pages
    → Finds os.used_pages K os.draws
    → Returns (Free os K) (find_free os)
unfolding find_free
find_free-Free K os h f =
    let t : ltb os.used_pages_count phys_pages ≡ true = ground arith in
    rw t (look_for-Free K os.draws os f)
