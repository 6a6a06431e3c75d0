-- ===== src/Fork/Names.antt =====
-- The names that `get_name` of cpu_api/fork.py gives.
use os_tep.Prelude.{
  get_elem?-lt, ℕ, ◌+◌, ◌≤◌, ◌<◌, ◌≡◌, refl, sym, ap, ◌∙◌, ◌⊎◌, inl, inr, Bool, true, false, not,
  ◌&&◌, some, List, [], ◌∷◌, arith, ◌==◌, Bool-cases, length, get_elem?,
}
use os_tep.Prelude.Fault.{ok}
use os_tep.Fork.{
  root_name, Name, has, base_names, Namer, first_names, grow_names, take_name, get_name,
}
use os_tep.Fork.Lists.{In, In-empty, In-cons, Apart}
use os_tep.Fork.Extend.{
  AllLength, not_In, Apart-extend, some_extend, AllLength-extend, In-index, Apart-index,
}

-- The names of the list have one length and all differ; the names given so far are shorter, or stand
-- in the list before the index.
pub record Gives (given : List Name) (n : Namer) : Type 0 where
  pub len : ℕ
  pub even : (p : Name) → In p n.curr_names → length p ≡ len
  pub apart : Apart n.curr_names
  pub some_there : 0 < length n.curr_names
  pub within : n.curr_index ≤ length n.curr_names
  pub before :
      (p : Name)
      → In p given
      → (length p < len) ⊎ ((i : ℕ) × (i < n.curr_index) × (get_elem? n.curr_names i ≡ some p))

abbrev apart_test : List Name → Bool
apart_test [] = true
apart_test (p ∷ ps) = not (has p ps) && apart_test ps

apart_test-Apart : (ps : List Name) → apart_test ps ≡ true → Apart ps
apart_test-Apart [] h = tt
apart_test-Apart (p ∷ ps) h = (ground arith, apart_test-Apart ps (ground arith))

abbrev all_single : List Name → Bool
all_single [] = true
all_single (p ∷ ps) = length p == 1 && all_single ps

all_single-AllLength : (ps : List Name) → all_single ps ≡ true → AllLength 1 ps
all_single-AllLength [] h x i = absurd (In-empty x i)
all_single-AllLength (p ∷ ps) h x i = elim (In-cons x p ps i) [
  | inl e ↦ let one : length p ≡ 1 = ground arith in ap (λ (z : Name). length z) e ∙ one
  | inr k ↦ all_single-AllLength ps (ground arith) x k
]

base-Apart : Apart base_names
unfolding has
base-Apart = apart_test-Apart base_names refl

base-AllLength : AllLength 1 base_names
base-AllLength = all_single-AllLength base_names refl

-- What `get_name` gives: a name that was not given before, and a state from which this goes on.
abbrev pub IsNew : List Name → Name × Namer → Type 0
IsNew given r = (has r.0 given ≡ false) × Gives (r.0 ∷ given) r.1

take_name_lem :
    (n : Namer) (p : Name)
    → get_elem? n.curr_names n.curr_index ≡ some p
    → take_name n ≡ ok (p, record n { curr_index = n.curr_index + 1 })
unfolding take_name
take_name_lem n p e = rw (e, take_name)

take_name-IsNew :
    (given : List Name) (n : Namer)
    → Gives given n
    → n.curr_index < length n.curr_names
    → (r : Name × Namer) × (take_name n ≡ ok r) × IsNew given r
take_name-IsNew given n g lt =
    let (p, e) = get_elem?-lt n.curr_index n.curr_names lt in
    (
      (p, record n { curr_index = n.curr_index + 1 }),
      take_name_lem n p e,
      (
        not_In p given (λ i. elim (g.before p i) [
          | inl short ↦ omega (arith, g.even p (In-index n.curr_names n.curr_index p e))
          | inr (j, below, f) ↦ omega (arith, Apart-index n.curr_names j n.curr_index p g.apart f e)
        ]),
        record {
          len = g.len;
          even = g.even;
          apart = g.apart;
          some_there = g.some_there;
          within = omega arith;
          before = λ q i. elim (In-cons q p given i) [
            | inl s ↦ inr (n.curr_index, omega arith, e ∙ ap some (sym s))
            | inr k ↦ elim (g.before q k) [
              | inl short ↦ inl short
              | inr (j, below, f) ↦ inr (j, omega arith, f)
            ]
          ];
        },
      ),
    )

grow_names-Gives : (given : List Name) (n : Namer) → Gives given n → Gives given (grow_names n)
unfolding grow_names
grow_names-Gives given n g = record {
  len = g.len + 1;
  even = AllLength-extend g.len n.curr_names base_names g.even base-AllLength;
  apart = Apart-extend g.len n.curr_names base_names g.apart g.even base-Apart;
  some_there = some_extend n.curr_names base_names g.some_there (omega arith);
  within = omega arith;
  before = λ q i. elim (g.before q i) [
    | inl short ↦ inl (omega arith)
    | inr (j, below, f) ↦ inl (omega (arith, g.even q (In-index n.curr_names j q f)))
  ];
}

grow_names_room :
    (n : Namer)
    → 0 < length n.curr_names
    → (grow_names n).curr_index < length (grow_names n).curr_names
unfolding grow_names
grow_names_room n h = some_extend n.curr_names base_names h (omega arith)

-- `get_name` never raises an exception, and never gives a name that it gave before, also where it
-- makes a new list of longer names; the state that it leaves has this property again.
pub get_name-IsNew :
    (given : List Name) (n : Namer)
    → Gives given n
    → (r : Name × Namer) × (get_name n ≡ ok r) × IsNew given r
unfolding get_name
get_name-IsNew given n g = elim (Bool-cases (n.curr_index == length n.curr_names)) [
  | inl full ↦
      let (r, e, new) =
        take_name-IsNew given (grow_names n) (grow_names-Gives given n g)
          (grow_names_room n g.some_there) in
      (r, rw full e, new)
  | inr more ↦
      let lt : n.curr_index < length n.curr_names = ground (arith, g.within) in
      let (r, e, new) = take_name-IsNew given n g lt in (r, rw more e, new)
]

-- the root has the first name
pub first_names-Gives : Gives (root_name ∷ []) first_names
first_names-Gives = record {
  len = 1;
  even = base-AllLength;
  apart = base-Apart;
  some_there = omega arith;
  within = omega arith;
  before = λ q i. elim (In-cons q root_name [] i) [
    | inl e ↦ inr (0, omega arith, ap some (sym e))
    | inr k ↦ absurd (In-empty q k)
  ];
}
