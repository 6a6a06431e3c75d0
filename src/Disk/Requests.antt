-- ===== src/Disk/Requests.antt =====
-- MakeRequests of 37-Hard_Disk_Drivers/disk.py: the requests that are given or drawn at random.
use os_tep.Prelude.{
  get_elem?-lt, ℕ, zero, suc, ◌+◌, ◌<◌, ◌≡◌, refl, sym, inl, inr, Option, none, some, List, [], ◌∷◌,
  map, arith, length, get_elem?,
}
use os_tep.Prelude.Fault.{ok}
use os_tep.Disk.{Address, number, text, Block, Layout, init_block_layout}
use os_tep.Disk.Blocks.{init_block_layout-IsLayout}

-- `count` requests from the `i`-th draw on; `draw i max` is `int(random.random() * max)`
unfoldable pub draw_all : (ℕ → ℕ → ℕ) → ℕ → ℕ → ℕ → ℕ → List Address
draw_all draw i zero max min = []
draw_all draw i (suc count) max min =
    number (draw i max + min) ∷ draw_all draw (i + 1) count max min

-- The addresses of the option, which stay texts, or none for -1, and then the numbers of the
-- descriptor, where the maximum may be none for -1.
unfoldable pub make_requests :
    Layout → (ℕ → ℕ → ℕ) → Option (List ℕ) → ℕ × Option ℕ × ℕ → List Address
unfolding draw_all
make_requests l draw (some addr) desc = map text addr
make_requests l draw none (count, none, min) = draw_all draw 0 count l.max_block min
make_requests l draw none (count, some max, min) = draw_all draw 0 count max min

draw_all_at :
    (draw : ℕ → ℕ → ℕ) (k count max : ℕ) (i : ℕ) (a : Address)
    → ((j : ℕ) → draw j max < max)
    → get_elem? (draw_all draw k count max 0) i ≡ some a
    → (b : ℕ) × (a ≡ number b) × (b < max)
unfolding draw_all
draw_all_at draw k zero max i a d e = absurd (cc e)
draw_all_at draw k (suc count) max zero a d e = (draw k max + 0, sym (same e), omega (arith, d k))
  where
    same : some (number (draw k max + 0)) ≡ some a → number (draw k max + 0) ≡ a
    same h = cc
draw_all_at draw k (suc count) max (suc i) a d e = draw_all_at draw (k + 1) count max i a d e

length-draw_all :
    (draw : ℕ → ℕ → ℕ) (k count max min : ℕ) → length (draw_all draw k count max min) ≡ count
unfolding draw_all
length-draw_all draw k zero max min = refl
length-draw_all draw k (suc count) max min =
    omega (arith, length-draw_all draw (k + 1) count max min)

-- Requests that are drawn on a layout that `InitBlockLayout` makes, with the maximum -1 and the minimum
-- 0, where a draw is below its maximum: as many as are asked for, each for a block of the layout, and
-- none of them on the inner track.
pub make_requests-init_block_layout :
    (zones : List ℕ) (skew : ℕ) (l : Layout) (draw : ℕ → ℕ → ℕ) (count : ℕ)
    → init_block_layout zones skew ≡ ok l
    → ((max j : ℕ) → 0 < max → draw j max < max)
    → (length (make_requests l draw none (count, none, 0)) ≡ count)
      × ((i : ℕ) (a : Address)
          → get_elem? (make_requests l draw none (count, none, 0)) i ≡ some a
          → (b : ℕ) × (x : Block) × (a ≡ number b)
            × (get_elem? l.blocks b ≡ some x)
            × (x.track < 2))
unfolding make_requests
make_requests-init_block_layout zones skew l draw count made below =
    let v = init_block_layout-IsLayout zones skew l made in
    let pos : 0 < l.max_block = omega (arith, v.max_first, v.in_order) in
    (
      length-draw_all draw 0 count l.max_block 0,
      λ i a e.
          let (b, name, lt) =
            draw_all_at draw 0 count l.max_block i a (λ j. below l.max_block j pos) e in
          let (x, at) = get_elem?-lt b l.blocks (omega (arith, lt, v.max_first, v.in_order)) in
          (
            b,
            x,
            name,
            at,
            elim (v.on_track b x at) [
              | inl (t, h) ↦ omega arith
              | inr (inl (t, from, h)) ↦ omega arith
              | inr (inr (t, h)) ↦ absurd (omega (arith, lt, v.max_first))
            ],
          ),
    )
