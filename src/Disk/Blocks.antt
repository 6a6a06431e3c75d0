-- ===== src/Disk/Blocks.antt =====
-- InitBlockLayout of 37-Hard_Disk_Drivers/disk.py: the blocks on their tracks.
use os_tep.Prelude.{
  false, length-append, ℕ, zero, suc, ◌+◌, ◌-◌, ◌*◌, ◌/◌, ◌%◌, ◌≤◌, ◌<◌, ◌≡◌, refl, sym, ap, ◌∙◌,
  ◌⊎◌, inl, inr, ◌||◌, some, List, [], ◌∷◌, ◌++◌, arith, ◌==◌, Bool-cases, length, get_elem?,
}
use native.Mathlib.Nat.{le-div_iff_mul-le}
use mathlib.Core.Path.{subst}
use os_tep.Prelude.Fault.{ok, raise}
use os_tep.Disk.{value_error, Block, Layout, place, steps, init_block_layout}

length-place : (n t off skew i : ℕ) → length (place n t off skew i) ≡ n
unfolding place
length-place zero t off skew i = refl
length-place (suc n) t off skew i = omega (arith, length-place n t off skew (i + 1))

place_at :
    (n t off skew i b : ℕ) (x : Block)
    → get_elem? (place n t off skew i) b ≡ some x
    → (b < n) × (x.track ≡ t) × (x.angle ≡ ((i + b) * off + off * skew + 180) % 360)
unfolding place
place_at zero t off skew i b x e = absurd (cc e)
place_at (suc n) t off skew i zero x e =
    let s : record { track = t; angle = (i * off + off * skew + 180) % 360 } ≡ x = same_some e in
    (
      omega arith,
      sym (ap (λ z. z.track) s),
      sym (ap (λ z. z.angle) s) ∙ ap (λ z. (z * off + off * skew + 180) % 360) (omega arith),
    )
  where
    same_some : {a b : Block} → some a ≡ some b → a ≡ b
    same_some e = cc
place_at (suc n) t off skew i (suc b) x e =
    let (lt, tr, an) = place_at n t off skew (i + 1) b x e in
    (omega (arith, lt), tr, an ∙ ap (λ z. (z * off + off * skew + 180) % 360) (omega arith))

get-append_either {ℓ} :
    {A : Type ℓ} (xs ys : List A) (i : ℕ) (x : A)
    → get_elem? (xs ++ ys) i ≡ some x
    → (get_elem? xs i ≡ some x) ⊎ ((k : ℕ) × (i ≡ length xs + k) × (get_elem? ys k ≡ some x))
get-append_either [] ys i x e = inr (i, omega arith, e)
get-append_either (y ∷ xs) ys zero x e = inl e
get-append_either (y ∷ xs) ys (suc i) x e = elim (get-append_either xs ys i x e) [
  | inl h ↦ inl h
  | inr (k, le, h) ↦ inr (k, omega (arith, le), h)
]

-- The first and the last block of a track.
pub record IsTrack (l : Layout) (t first last : ℕ) : Type 0 where
  pub bounds : get_elem? l.begin_end t ≡ some (first, last)
  pub ordered : first ≤ last

-- Three tracks of consecutive blocks that cover all of them, angles within the circle.
pub record IsLayout (l : Layout) : Type 0 where
  pub first_inner : ℕ
  pub first_middle : ℕ
  pub outer : IsTrack l 0 0 (first_middle - 1)
  pub middle : IsTrack l 1 first_middle (first_inner - 1)
  pub inner : IsTrack l 2 first_inner (length l.blocks - 1)
  pub in_order : (0 < first_middle) × (first_middle < first_inner) × (first_inner < length l.blocks)
  pub max_first : l.max_block ≡ first_inner
  pub offsets : (t : ℕ) → t < 3 → (o : ℕ) × (get_elem? l.offsets t ≡ some o)
  pub on_track :
      (b : ℕ) (x : Block)
      → get_elem? l.blocks b ≡ some x
      → ((x.track ≡ 0) × (b < first_middle))
        ⊎ ((x.track ≡ 1) × (first_middle ≤ b) × (b < first_inner))
        ⊎ ((x.track ≡ 2) × (first_inner ≤ b))
  pub angles : (b : ℕ) (x : Block) → get_elem? l.blocks b ≡ some x → x.angle < 360

pub steps_pos : (off : ℕ) → 0 < off → 0 < steps off
steps_pos off h = (le-div_iff_mul-le h).1 (omega arith)

module _ (o0 o1 o2 skew : ℕ) (p0 : 0 < 2 * o0) (p1 : 0 < 2 * o1) (p2 : 0 < 2 * o2) where
  abbrev pub n0 : ℕ
  n0 = steps (2 * o0)

  abbrev pub n1 : ℕ
  n1 = steps (2 * o1)

  abbrev pub n2 : ℕ
  n2 = steps (2 * o2)

  abbrev pub laid : Layout
  laid = record {
    offsets = o0 ∷ o1 ∷ o2 ∷ [];
    blocks =
        place n0 0 (2 * o0) 0 0 ++ (place n1 1 (2 * o1) skew 0 ++ place n2 2 (2 * o2) (2 * skew) 0);
    begin_end = (0, n0 - 1) ∷ (n0, n0 + n1 - 1) ∷ (n0 + n1, n0 + n1 + n2 - 1) ∷ [];
    max_block = n0 + n1;
  }

  pub laid-length : length laid.blocks ≡ n0 + n1 + n2
  laid-length =
      length-append (place n0 0 (2 * o0) 0 0)
        (place n1 1 (2 * o1) skew 0 ++ place n2 2 (2 * o2) (2 * skew) 0)
      ∙ omega (
        arith,
        length-append (place n1 1 (2 * o1) skew 0) (place n2 2 (2 * o2) (2 * skew) 0),
        length-place n0 0 (2 * o0) 0 0,
        length-place n1 1 (2 * o1) skew 0,
        length-place n2 2 (2 * o2) (2 * skew) 0,
      )

  -- where a block is
  located :
      (b : ℕ) (x : Block)
      → get_elem? laid.blocks b ≡ some x
      → (((x.track ≡ 0) × (b < n0))
          ⊎ ((x.track ≡ 1) × (n0 ≤ b) × (b < n0 + n1))
          ⊎ ((x.track ≡ 2) × (n0 + n1 ≤ b)))
        × (x.angle < 360)
  located b x e = elim (get-append_either _ _ b x e) [
    | inl h ↦ let (lt, tr, an) = place_at n0 0 (2 * o0) 0 0 b x h in (inl (tr, lt), below _ an)
    | inr (k, s, h) ↦
        let sk : b ≡ n0 + k = omega (arith, s, length-place n0 0 (2 * o0) 0 0) in
        elim (get-append_either _ _ k x h) [
          | inl h' ↦
              let (lt, tr, an) = place_at n1 1 (2 * o1) skew 0 k x h' in
              (inr (inl (tr, omega (arith, sk), omega (arith, sk, lt))), below _ an)
          | inr (j, s', h') ↦
              let sj : k ≡ n1 + j = omega (arith, s', length-place n1 1 (2 * o1) skew 0) in
              let (lt, tr, an) = place_at n2 2 (2 * o2) (2 * skew) 0 j x h' in
              (inr (inr (tr, omega (arith, sk, sj))), below _ an)
        ]
  ]
    where
      below : (a : ℕ) → x.angle ≡ a % 360 → x.angle < 360
      below a h = omega (arith, h)

  pub laid-IsLayout : IsLayout laid
  laid-IsLayout = record {
    first_middle = n0;
    first_inner = n0 + n1;
    outer = record { bounds = refl; ordered = omega arith };
    middle = record { bounds = refl; ordered = omega (arith, steps_pos (2 * o1) p1) };
    inner = record {
      bounds = ap (λ z. some (n0 + n1, z - 1)) (sym laid-length);
      ordered = omega (arith, laid-length, steps_pos (2 * o2) p2);
    };
    in_order = (
      steps_pos (2 * o0) p0,
      omega (arith, steps_pos (2 * o1) p1),
      omega (arith, laid-length, steps_pos (2 * o2) p2),
    );
    max_first = refl;
    offsets = at_offset;
    on_track = λ b x e. (located b x e).0;
    angles = λ b x e. (located b x e).1;
  }
    where
      at_offset : (t : ℕ) → t < 3 → (o : ℕ) × (get_elem? laid.offsets t ≡ some o)
      at_offset zero h = (o0, refl)
      at_offset (suc zero) h = (o1, refl)
      at_offset (suc (suc zero)) h = (o2, refl)
      at_offset (suc (suc (suc t))) h = absurd (omega arith)

pub init_block_layout_lem :
    (z0 z1 z2 skew : ℕ)
    → 2 ≤ z0
    → 2 ≤ z1
    → 2 ≤ z2
    → (p0 : 0 < 2 * (z0 / 2)) (p1 : 0 < 2 * (z1 / 2)) (p2 : 0 < 2 * (z2 / 2))
    → init_block_layout (z0 ∷ z1 ∷ z2 ∷ []) skew
      ≡ ok (laid (z0 / 2) (z1 / 2) (z2 / 2) skew p0 p1 p2)
unfolding init_block_layout
init_block_layout_lem z0 z1 z2 skew h0 h1 h2 p0 p1 p2 =
    let f : (2 * (z0 / 2) == 0 || (2 * (z1 / 2) == 0 || 2 * (z2 / 2) == 0)) ≡ false =
      ground arith in
    rw f refl

-- `InitBlockLayout`, when it ends without an exception: the blocks of the three tracks are numbered
-- in this order, no block is left out, each track has a block, `tracksBeginEnd` has its first and last
-- block, angles are below 360, and `maxBlock` is the first block of the inner track.
pub init_block_layout-IsLayout :
    (zones : List ℕ) (skew : ℕ) (l : Layout) → init_block_layout zones skew ≡ ok l → IsLayout l
unfolding init_block_layout
init_block_layout-IsLayout [] skew l e = absurd (cc e)
init_block_layout-IsLayout (z0 ∷ []) skew l e = absurd (cc e)
init_block_layout-IsLayout (z0 ∷ z1 ∷ []) skew l e = absurd (cc e)
init_block_layout-IsLayout (z0 ∷ z1 ∷ z2 ∷ z3 ∷ zs) skew l e = absurd (cc e)
init_block_layout-IsLayout (z0 ∷ z1 ∷ z2 ∷ []) skew l e =
    elim (Bool-cases (2 * (z0 / 2) == 0 || (2 * (z1 / 2) == 0 || 2 * (z2 / 2) == 0))) [
      | inl t ↦ absurd (differ (sym (rw t refl) ∙ e))
      | inr f ↦ subst IsLayout (same_ok (sym (rw f refl) ∙ e)) (
          laid-IsLayout (z0 / 2) (z1 / 2) (z2 / 2) skew (ground arith) (ground arith)
            (ground arith))
    ]
  where
    differ : raise value_error ≡ ok l → ⊥
    differ h = cc

    same_ok : {a b : Layout} → ok a ≡ ok b → a ≡ b
    same_ok h = cc
