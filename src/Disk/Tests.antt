-- ===== src/Disk/Tests.antt =====
-- Runs of 37-Hard_Disk_Drivers/disk.py at small inputs.
use os_tep.Prelude.{
  ◌-◌, length, ℕ, zero, suc, ◌≤◌, ◌<◌, ◌≡◌, refl, sym, ap, ◌≢◌, inl, inr, Bool, true, false, Option,
  none, some, List, [], ◌∷◌, arith, get_elem?,
}
use os_tep.Prelude.Fault.{ok, raise, assertion_error, key_error, Result, Returns}
use os_tep.Disk.{
  state_null, Request, Policy, fifo, satf, bsatf, other, Address, number, text, Layout, Block,
  init_block_layout, Conf, Disk,
}
use os_tep.Disk.Animate.{simulate, go}
use os_tep.Disk.Blocks.{IsLayout, init_block_layout-IsLayout}
use os_tep.Disk.Serves.{IsConf, IsBlock, IsQueue, IsQueue-Good}
use os_tep.Disk.Phase.{Over}
use os_tep.Disk.Pick.{AllGood, Shortest, do_satf-Shortest}
use os_tep.Disk.Choice.{Chooses, choose-Chooses}
use os_tep.Disk.Follow.{Follows, get_next_io-Follows}
use os_tep.Disk.Finish.{start}
use os_tep.Disk.Policies.{do_satf, choose, get_next_io}
use os_tep.Disk.Whole.{start-Idle}
use os_tep.Disk.Requests.{make_requests, make_requests-init_block_layout}
use os_tep.Disk.Options.{IsOptions, simulate-Ended}

abbrev blocks_of : Result Layout → List Block
blocks_of (ok l) = l.blocks
blocks_of (raise e) = []

-- the layout of the zoning 30,30,30
abbrev plain : Layout
plain = record {
  offsets = 15 ∷ 15 ∷ 15 ∷ [];
  blocks = (blocks_of (init_block_layout (30 ∷ 30 ∷ 30 ∷ []) 0));
  begin_end = (0, 11) ∷ (12, 23) ∷ (24, 35) ∷ [];
  max_block = 24;
}

abbrev conf : Policy → Option ℕ → Bool → List Address → Conf
conf policy window precise late = record {
  unit = 1;
  seek_speed = 1;
  rotate_speed = 1;
  policy = policy;
  window = window;
  precise = precise;
  layout = plain;
  late = late;
}

-- the times of a run: seek, rotation, transfer and all
abbrev times : Result (Option Disk) → ℕ × ℕ × ℕ × ℕ
times (ok (some d)) = (d.seek_total, d.rot_total, d.xfer_total, d.timer)
times (ok none) = (0, 0, 0, 0)
times (raise e) = (0, 0, 0, 0)

fifo_test : times (go 1000 (conf fifo none false []) (7 ∷ 30 ∷ 8 ∷ [])) ≡ (160, 545, 90, 795)
unfolding go init_block_layout
fifo_test = refl

satf_test : times (go 1000 (conf satf none false []) (7 ∷ 30 ∷ 8 ∷ [])) ≡ (80, 205, 90, 375)
unfolding go init_block_layout
satf_test = refl

-- an address of -l stays a text
late_test : go 1000 (conf fifo none false (text 3 ∷ [])) (7 ∷ []) ≡ raise key_error
unfolding go init_block_layout
late_test = refl

window_test :
    go 4000
      (conf bsatf (some 3) true (number 1 ∷ number 2 ∷ number 3 ∷ number 4 ∷ number 5 ∷ []))
      (7 ∷ [])
    ≡ raise assertion_error
unfolding go init_block_layout
window_test = refl

-- what the witnesses are about: SATF with a late request
abbrev late_conf : Conf
late_conf = conf satf (some 2) false (number 20 ∷ [])

plain-laid : init_block_layout (30 ∷ 30 ∷ 30 ∷ []) 0 ≡ ok plain
unfolding init_block_layout
plain-laid = refl

init_block_layout-IsLayout_example : IsLayout plain
init_block_layout-IsLayout_example =
    init_block_layout-IsLayout (30 ∷ 30 ∷ 30 ∷ []) 0 plain plain-laid

on_tracks : (b : ℕ) (x : Block) → get_elem? plain.blocks b ≡ some x → x.track < 3
on_tracks b x e =
    elim ((init_block_layout-IsLayout (30 ∷ 30 ∷ 30 ∷ []) 0 plain plain-laid).on_track b x e) [
      | inl (t, h) ↦ omega arith
      | inr (inl (t, from, h)) ↦ omega arith
      | inr (inr (t, h)) ↦ omega arith
    ]

late_conf-IsConf : IsConf late_conf 360 40
unfolding init_block_layout
late_conf-IsConf = record {
  circle = record { rotates = omega arith; covers = omega arith; tight = omega arith };
  some_full = omega arith;
  divides = refl;
  moves = omega arith;
  not_precise = refl;
  known = differ;
  some_window = λ w e. positive w e;
  offsets = at_offset;
  ends = at_end;
  tracks = on_tracks;
  late = late_blocks;
}
  where
    differ : satf ≢ other
    differ e = cc

    positive : (w : ℕ) → some 2 ≡ some w → 0 < w
    positive w e = let s : 2 ≡ w = cc in omega (arith, s)

    at_offset : (t : ℕ) → t < 3 → (o : ℕ) × (get_elem? plain.offsets t ≡ some o)
    at_offset zero h = (15, refl)
    at_offset (suc zero) h = (15, refl)
    at_offset (suc (suc zero)) h = (15, refl)
    at_offset (suc (suc (suc t))) h = absurd (omega arith)

    at_end : (t : ℕ) → t < 3 → (p : ℕ × ℕ) × (get_elem? plain.begin_end t ≡ some p) × (p.0 ≢ p.1)
    at_end zero h = ((0, 11), refl, λ e. omega arith)
    at_end (suc zero) h = ((12, 23), refl, λ e. omega arith)
    at_end (suc (suc zero)) h = ((24, 35), refl, λ e. omega arith)
    at_end (suc (suc (suc t))) h = absurd (omega arith)

    late_blocks :
        (i : ℕ) (a : Address) → get_elem? (number 20 ∷ []) i ≡ some a → IsBlock late_conf a
    late_blocks zero a e = (20, _, sym (same e), refl)
      where
        same : some (number 20) ≡ some a → number 20 ≡ a
        same e = cc
    late_blocks (suc i) a e = absurd (cc e)

late_conf-IsOptions : IsOptions late_conf 30 30 30
late_conf-IsOptions = record {
  some_unit = omega arith;
  rotates = omega arith;
  seeks = omega arith;
  divides = refl;
  not_precise = refl;
  known = λ e. absurd (differ e);
  some_window = λ w e. positive w e;
  outer = (omega arith, omega arith);
  middle = (omega arith, omega arith);
  inner = (omega arith, omega arith);
  late = late_blocks;
}
  where
    differ : satf ≢ other
    differ e = cc

    positive : (w : ℕ) → some 2 ≡ some w → 0 < w
    positive w e = let s : 2 ≡ w = cc in omega (arith, s)

    late_blocks :
        (i : ℕ) (a : Address)
        → get_elem? (number 20 ∷ []) i ≡ some a
        → (b : ℕ) × (a ≡ number b) × (b < 36)
    late_blocks zero a e = (20, sym (same e), omega arith)
      where
        same : some (number 20) ≡ some a → number 20 ≡ a
        same e = cc
    late_blocks (suc i) a e = absurd (cc e)

known_blocks : (i b : ℕ) → get_elem? (7 ∷ 30 ∷ []) i ≡ some b → b < 36
known_blocks zero b e = let s : 7 ≡ b = cc in omega (arith, s)
known_blocks (suc zero) b e = let s : 30 ≡ b = cc in omega (arith, s)
known_blocks (suc (suc i)) b e = absurd (cc e)

simulate-Ended_example :
    (d : Disk) × (simulate 2409 late_conf (30 ∷ 30 ∷ 30 ∷ []) 0 (7 ∷ 30 ∷ []) ≡ ok (some d))
    × Over late_conf 2 d
    × (d.timer ≤ 2409)
simulate-Ended_example =
    simulate-Ended late_conf 30 30 30 0 late_conf-IsOptions (7 ∷ 30 ∷ []) 2409 known_blocks
      (omega arith) (omega arith)

abbrev entry : ℕ → ℕ → Request
entry b i = record { block = number b; index = i }

-- the disk with two requests, none of which is done
abbrev two : Disk
two = start late_conf (entry 7 0 ∷ entry 30 1 ∷ []) (state_null ∷ state_null ∷ [])

abbrev block_7 : Block
block_7 = record { track = 0; angle = 30 }

abbrev block_30 : Block
block_30 = record { track = 2; angle = 0 }

two-IsQueue : IsQueue late_conf two
unfolding init_block_layout
two-IsQueue = record {
  lens = refl;
  indexed = by_index;
  counted = refl;
  in_order = λ p. absurd (differ p);
  arm = omega arith;
}
  where
    differ : satf ≢ fifo
    differ e = cc

    same_some : {a b : Request} → some a ≡ some b → a ≡ b
    same_some e = cc

    by_index :
        (i : ℕ) (r : Request)
        → get_elem? two.queue i ≡ some r
        → (r.index ≡ i) × IsBlock late_conf r.block
    by_index zero r e =
        let s = same_some e in
        (ap (λ z. z.index) (sym s), (7, block_7, ap (λ z. z.block) (sym s), refl))
    by_index (suc zero) r e =
        let s = same_some e in
        (ap (λ z. z.index) (sym s), (30, block_30, ap (λ z. z.block) (sym s), refl))
    by_index (suc (suc i)) r e = absurd (cc e)

two-AllGood : AllGood late_conf two two.queue
two-AllGood = IsQueue-Good late_conf 360 40 late_conf-IsConf two two-IsQueue

do_satf-Shortest_example :
    Returns (Shortest late_conf two two.queue) (do_satf late_conf two two.queue)
do_satf-Shortest_example =
    do_satf-Shortest late_conf two two.queue (entry 30 1) two-AllGood (inr (inl refl))
      (state_null, refl, refl)

choose-Chooses_example : Returns (Chooses late_conf two) (choose late_conf satf two)
choose-Chooses_example =
    choose-Chooses late_conf 360 40 late_conf-IsConf two two-IsQueue (omega arith)
      (inl (omega arith))

get_next_io-Follows_example : Returns (Follows late_conf 360 40 2 two) (get_next_io late_conf two)
get_next_io-Follows_example =
    get_next_io-Follows late_conf 360 40 2 late_conf-IsConf two
      (start-Idle late_conf 360 40 late_conf-IsConf two.queue two.states two-IsQueue) (omega arith)

make_requests-init_block_layout_example :
    (length (make_requests plain (λ i max. max - 1) none (5, none, 0)) ≡ 5)
    × ((i : ℕ) (a : Address)
        → get_elem? (make_requests plain (λ i max. max - 1) none (5, none, 0)) i ≡ some a
        → (b : ℕ) × (x : Block) × (a ≡ number b)
          × (get_elem? plain.blocks b ≡ some x)
          × (x.track < 2))
make_requests-init_block_layout_example =
    make_requests-init_block_layout (30 ∷ 30 ∷ 30 ∷ []) 0 plain (λ i max. max - 1) 5 plain-laid
      (λ max j h. omega arith)
