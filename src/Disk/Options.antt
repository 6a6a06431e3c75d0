-- ===== src/Disk/Options.antt =====
-- The program of 37-Hard_Disk_Drivers/disk.py from its options on: the layout, the check of the speed,
-- and the run.
use os_tep.Prelude.{
  dec_lt, get_elem?-lt, ℕ, zero, suc, ◌+◌, ◌-◌, ◌*◌, ◌/◌, ◌%◌, ◌≤◌, ◌<◌, ◌≡◌, refl, ap, ◌∙◌, ◌≢◌,
  inl, inr, true, false, some, List, [], ◌∷◌, arith, ◌==◌, length, get_elem?,
}
use native.Mathlib.Nat.{mod-lt, div-add-mod', le-div_iff_mul-le}
use os_tep.Prelude.Fault.{ok, ◌>>=◌}
use os_tep.Disk.{other, Address, number, Block, Layout, steps, Conf, full, check_speed, Disk}
use os_tep.Disk.Animate.{go, simulate}
use os_tep.Disk.Angle.{IsCircle}
use os_tep.Disk.Blocks.{laid, laid-length, laid-IsLayout, init_block_layout_lem}
use os_tep.Disk.Serves.{IsConf}
use os_tep.Disk.Phase.{most, all_requests, Over}
use os_tep.Disk.Whole.{go-Ended}

-- positions of the disk in a turn, and ticks of the arm from a track to the next one
abbrev pub turn_ticks : Conf → ℕ
turn_ticks c = (full c + c.rotate_speed - 1) / c.rotate_speed

abbrev pub track_ticks : Conf → ℕ
track_ticks c = 40 * c.unit / c.seek_speed

-- the number of blocks
abbrev pub num_blocks : ℕ → ℕ → ℕ → ℕ
num_blocks z0 z1 z2 = steps (2 * (z0 / 2)) + steps (2 * (z1 / 2)) + steps (2 * (z2 / 2))

-- What the options must be like: speeds that are not 0, that of the arm a divisor of the width of a
-- track, a known policy, a positive window or none, tracks of more than one block, and late requests
-- for blocks.
pub record IsOptions (c : Conf) (z0 z1 z2 : ℕ) : Type 0 where
  pub some_unit : 0 < c.unit
  pub rotates : 0 < c.rotate_speed
  pub seeks : 0 < c.seek_speed
  pub divides : (40 * c.unit) % c.seek_speed ≡ 0
  pub not_precise : c.precise ≡ false
  pub known : c.policy ≢ other
  pub some_window : (w : ℕ) → c.window ≡ some w → 0 < w
  pub outer : (2 ≤ z0) × (z0 < 360)
  pub middle : (2 ≤ z1) × (z1 < 360)
  pub inner : (2 ≤ z2) × (z2 < 360)
  pub late :
      (i : ℕ) (a : Address)
      → get_elem? c.late i ≡ some a
      → (b : ℕ) × (a ≡ number b) × (b < num_blocks z0 z1 z2)

IsCircle-of : (f r : ℕ) → 0 < r → IsCircle r f ((f + r - 1) / r)
IsCircle-of f r h =
    let e = div-add-mod' (f + r - 1) r in
    let lt = mod-lt (f + r - 1) h in
    record { rotates = h; covers = omega (arith, e, lt); tight = omega (arith, e, h) }

two_blocks : (z : ℕ) → 2 ≤ z → z < 360 → 2 ≤ steps (2 * (z / 2))
two_blocks z h k =
    let pos : 0 < 2 * (z / 2) = omega arith in (le-div_iff_mul-le pos).1 (omega arith)

module _ (c : Conf) (z0 z1 z2 skew : ℕ) (v : IsOptions c z0 z1 z2) where
  p0 : 0 < 2 * (z0 / 2)
  p0 = omega (arith, v.outer)

  p1 : 0 < 2 * (z1 / 2)
  p1 = omega (arith, v.middle)

  p2 : 0 < 2 * (z2 / 2)
  p2 = omega (arith, v.inner)

  abbrev layout : Layout
  layout = laid (z0 / 2) (z1 / 2) (z2 / 2) skew p0 p1 p2

  -- with the layout of the options
  abbrev made : Conf
  made = record c { layout = layout }

  block_of : (b : ℕ) → b < num_blocks z0 z1 z2 → (x : Block) × (get_elem? layout.blocks b ≡ some x)
  block_of b h =
      get_elem?-lt b layout.blocks
        (omega (arith, h, laid-length (z0 / 2) (z1 / 2) (z2 / 2) skew p0 p1 p2))

  divided : 40 * c.unit ≡ track_ticks c * c.seek_speed
  divided = omega (arith, div-add-mod' (40 * c.unit) c.seek_speed, v.divides)

  some_ticks : 0 < track_ticks c
  some_ticks = elim (dec_lt 0 (track_ticks c)) [
    | yes h ↦ h
    | no h ↦
        let z : track_ticks c ≡ 0 = omega arith in
        let e : track_ticks c * c.seek_speed ≡ 0 = ap (λ k. k * c.seek_speed) z ∙ omega arith in
        absurd (omega (arith, e, divided, v.some_unit))
  ]

  made-IsConf : IsConf made (turn_ticks c) (track_ticks c)
  made-IsConf = record {
    circle = IsCircle-of (full c) c.rotate_speed v.rotates;
    some_full = omega (arith, v.some_unit);
    divides = divided;
    moves = some_ticks;
    not_precise = v.not_precise;
    known = v.known;
    some_window = v.some_window;
    offsets = laid_offsets;
    ends = at_end;
    tracks = on_tracks;
    late = λ i a e.
        let (b, name, lt) = v.late i a e in let (x, at) = block_of b lt in (b, x, name, at);
  }
    where
      laid_offsets : (t : ℕ) → t < 3 → (o : ℕ) × (get_elem? layout.offsets t ≡ some o)
      laid_offsets = (laid-IsLayout (z0 / 2) (z1 / 2) (z2 / 2) skew p0 p1 p2).offsets

      at_end : (t : ℕ) → t < 3 → (p : ℕ × ℕ) × (get_elem? layout.begin_end t ≡ some p) × (p.0 ≢ p.1)
      at_end zero h = (_, refl, λ e. omega (arith, two_blocks z0 v.outer.0 v.outer.1))
      at_end (suc zero) h = (_, refl, λ e. omega (arith, two_blocks z1 v.middle.0 v.middle.1))
      at_end (suc (suc zero)) h = (_, refl, λ e. omega (arith, two_blocks z2 v.inner.0 v.inner.1))
      at_end (suc (suc (suc t))) h = absurd (omega arith)

      on_tracks : (b : ℕ) (x : Block) → get_elem? layout.blocks b ≡ some x → x.track < 3
      on_tracks b x e =
          elim ((laid-IsLayout (z0 / 2) (z1 / 2) (z2 / 2) skew p0 p1 p2).on_track b x e) [
            | inl (t, h) ↦ omega arith
            | inr (inl (t, from, h)) ↦ omega arith
            | inr (inr (t, h)) ↦ omega arith
          ]

  check_speed-made : check_speed made ≡ ok made
  unfolding check_speed
  check_speed-made =
      let t : ((40 * c.unit) % c.seek_speed == 0) ≡ true = ground (arith, v.divides) in rw t refl

  simulate_lem :
      (fuel : ℕ) (requests : List ℕ)
      → simulate fuel c (z0 ∷ z1 ∷ z2 ∷ []) skew requests ≡ go fuel made requests
  unfolding simulate
  simulate_lem fuel requests =
      ap (λ m. m >>= λ l. check_speed (record c { layout = l }) >>= λ c'. go fuel c' requests)
        (init_block_layout_lem z0 z1 z2 skew v.outer.0 v.middle.0 v.inner.0 p0 p1 p2)
      ∙ ap (λ m. m >>= λ c'. go fuel c' requests) check_speed-made

  -- The whole program, with at least one request, all for blocks, and options that are valid: speeds that
  -- are not 0, that of the arm a divisor of the width of a track, one of the four policies, no window or a
  -- positive one that is not cut as in disk-precise.py, angles between blocks from 2 to 359, and late
  -- requests for blocks. It raises nothing, and with 2 * `steps` + 2 * `n` + 3 ticks of fuel for each
  -- request, the late ones too, the loop ends within these ticks, where the disk takes `n` ticks for a
  -- turn and the arm `steps` ticks from a track to the next one. Then every request is done, the late
  -- ones too, and the times of seeking, rotating and transferring add up to the time of the run.
  pub simulate-Ended :
      (requests : List ℕ) (fuel : ℕ)
      → ((i b : ℕ) → get_elem? requests i ≡ some b → b < num_blocks z0 z1 z2)
      → 0 < length requests
      → all_requests c (length requests) * most (turn_ticks c) (track_ticks c) ≤ fuel
      → (d : Disk) × (simulate fuel c (z0 ∷ z1 ∷ z2 ∷ []) skew requests ≡ ok (some d))
        × Over c (length requests) d
        × (d.timer ≤ all_requests c (length requests) * most (turn_ticks c) (track_ticks c))
  simulate-Ended requests fuel known pos le =
      let (d, e, over, bound) =
        go-Ended made (turn_ticks c) (track_ticks c) made-IsConf requests fuel
          (λ i b h. block_of b (known i b h)) pos le in
      (
        d,
        simulate_lem fuel requests ∙ e,
        record {
          is_over = over.is_over;
          all_there = over.all_there;
          all_done = over.all_done;
          sums = over.sums;
        },
        bound,
      )
