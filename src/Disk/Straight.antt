-- ===== src/Disk/Straight.antt =====
-- The end of a request in 37-Hard_Disk_Drivers/disk.py: the next one, which may follow on the same
-- track without a rotation.
use os_tep.Prelude.{
  ℕ, ◌+◌, ◌-◌, ◌*◌, ◌<◌, ◌≡◌, refl, sym, ap, ◌∙◌, ◌≢◌, inl, inr, Bool, true, false, ◌&&◌, ◌||◌,
  some, arith, ◌==◌, if◌then◌else◌, Bool-cases, length, get_elem?,
}
use mathlib.Core.Path.{subst}
use os_tep.Prelude.Fault.{ok, Returns}
use os_tep.Disk.{state_xfer, Block, Conf, full, position, Disk, switch_state}
use os_tep.Disk.Animate.{follows, ends_at, keep_transfer}
use os_tep.Disk.Angle.{Wait-exists}
use os_tep.Disk.Serves.{IsConf, block_at_lem}
use os_tep.Disk.States.{switch_state_lem}
use os_tep.Disk.Phase.{below_full, ends_at_angle, most, all_requests, Serving}
use os_tep.Disk.Stay.{
  Stays, switched, in_states, Stays-switched, Stays-elsewhere, Stays-Serving, Serving-Stays,
}

-- the disk that goes on with its transfer
abbrev pub straight_on : Disk → Disk
straight_on d =
    switched state_xfer
      (record d { rot_begin = d.timer; seek_begin = d.timer; xfer_begin = d.timer })

ends_at_lem :
    (c : Conf) (t : ℕ) (p : ℕ × ℕ) → get_elem? c.layout.begin_end t ≡ some p → ends_at c t ≡ ok p
unfolding ends_at
ends_at_lem c t p e = rw (e, ends_at) refl

straight_lem :
    (d : Disk)
    → d.current_index < length d.states
    → switch_state state_xfer
        (record d { rot_begin = d.timer; seek_begin = d.timer; xfer_begin = d.timer })
      ≡ ok (straight_on d)
straight_lem d h =
    switch_state_lem state_xfer
      (record d { rot_begin = d.timer; seek_begin = d.timer; xfer_begin = d.timer }) h

keep_transfer_lem :
    (c : Conf) (block : ℕ) (d : Disk) (b x : Block) (p : ℕ × ℕ)
    → get_elem? c.layout.blocks block ≡ some b
    → get_elem? c.layout.blocks d.current_block ≡ some x
    → get_elem? c.layout.begin_end d.arm_track ≡ some p
    → d.current_index < length d.states
    → keep_transfer c block d ≡ (
        if b.track == x.track
        then (if follows block d.current_block p then ok (straight_on d) else ok d)
        else ok d)
unfolding keep_transfer
keep_transfer_lem c block d b x p e f g h =
    rw
      (
        block_at_lem c block b e,
        block_at_lem c d.current_block x f,
        ends_at_lem c d.arm_track p g,
        straight_lem d h,
      )
      refl

-- A block does not follow itself.
pub keep_transfer_same :
    (c : Conf) (n steps : ℕ)
    → IsConf c n steps
    → (d : Disk) (x : Block) → get_elem? c.layout.blocks d.current_block ≡ some x
    → d.arm_track < 3
    → d.current_index < length d.states
    → keep_transfer c d.current_block d ≡ ok d
keep_transfer_same c n steps v d x e a h =
    let (p, has, differ) = v.ends d.arm_track a in
    let f : follows d.current_block d.current_block p ≡ false =
      never d.current_block p.0 p.1 differ in
    keep_transfer_lem c d.current_block d x x p e e has h ∙ rw f (same_branch (x.track == x.track))
  where
    never : (b l h : ℕ) → l ≢ h → ((b == h && b == l) || b + 1 == b) ≡ false
    never b l h ne = ground arith

    same_branch : (t : Bool) → (if t then ok d else ok d) ≡ ok d
    same_branch true = refl
    same_branch false = refl

-- What a tick gives when a request is served: the arm, the time and the count.
pub record Continues (c : Conf) (n steps n0 : ℕ) (d d' : Disk) : Type 0 where
  pub left : ℕ
  pub serving : Serving c n steps n0 d' left
  pub timer : d'.timer ≡ d.timer
  pub count : d'.count ≡ d.count

pub Continues-small :
    (c : Conf) (n steps n0 : ℕ) (d d' : Disk) (k : Continues c n steps n0 d d')
    → k.left < (all_requests c n0 - d.count) * most n steps
Continues-small c n steps n0 d d' k =
    let s = k.serving in
    let some_left : d.count < all_requests c n0 = elim s.late_left [
      | inl h ↦ omega (arith, k.count, s.late_in, s.some_left)
      | inr (h, le) ↦ omega (arith, k.count, s.late_in, s.some_left)
    ] in
    let next : all_requests c n0 - d.count ≡ all_requests c n0 - d'.count - 1 + 1 =
      omega (arith, k.count) in
    bigger (all_requests c n0 - d.count) (all_requests c n0 - d'.count - 1) (most n steps) k.left
      s.phase_left next s.weight s.small
  where
    bigger : (a b m w p : ℕ) → a ≡ b + 1 → w ≡ b * m + p → p < m → w < a * m
    bigger a b m w p e h lt =
        let s : a * m ≡ b * m + m = ap (λ z. z * m) e ∙ omega arith in omega arith

module _ (c : Conf) (n steps n0 : ℕ) (v : IsConf c n steps) (d : Disk) (w : ℕ)
    (s : Serving c n steps n0 d w) where
  track_lt : s.block.track < 3
  track_lt = v.tracks d.current_block s.block s.current.has_block

  straight_Continues :
      d.arm_track ≡ s.block.track
      → d.arm_x1 ≡ position c d.arm_track
      → d.seek_begin ≡ d.timer
      → Continues c n steps n0 d (straight_on d)
  straight_Continues settled at_track begun =
      let (o, off) = v.offsets s.block.track track_lt in
      let (left, wait, some_wait, le) =
        Wait-exists c.rotate_speed (full c) n v.circle d.angle (ends_at_angle c s.block o) s.turns
          (below_full c (s.block.angle + o) v.some_full) in
      record {
        left = _;
        serving =
            Stays-Serving c n n0 (straight_on d) s.block
              (Stays-switched c n n0 begun_now s.block restarted state_xfer refl) steps left
              (inr (
                inr (record {
                  is_xfer = refl;
                  settled = settled;
                  at_track = at_track;
                  begun = omega arith;
                  rotated = omega arith;
                  moved = omega arith;
                  offset = o;
                  has_offset = off;
                  left = left;
                  wait = wait;
                  weight = refl;
                })))
              (omega (arith, le));
        timer = refl;
        count = refl;
      }
    where
      begun_now : Disk
      begun_now = record d { rot_begin = d.timer; seek_begin = d.timer; xfer_begin = d.timer }

      restarted : Stays c n n0 begun_now s.block
      restarted =
          subst
            (λ z.
              Stays c n n0 (record d { seek_begin = z; rot_begin = d.timer; xfer_begin = d.timer })
                s.block)
            begun
            (Stays-elsewhere c n n0 d s.block (Serving-Stays c n steps n0 d w s) d.angle d.timer
              d.arm_x1 d.arm_track d.timer d.timer s.turns s.queue.arm)

  pub keep_transfer-Continues :
      (block : ℕ) (b : Block)
      → get_elem? c.layout.blocks block ≡ some b
      → d.arm_track ≡ b.track
      → d.arm_x1 ≡ position c d.arm_track
      → d.seek_begin ≡ d.timer
      → Returns (Continues c n steps n0 d) (keep_transfer c block d)
  keep_transfer-Continues block b e at at_track begun =
      let (p, has, differ) = v.ends d.arm_track s.queue.arm in
      subst (Returns (Continues c n steps n0 d))
        (sym (
          keep_transfer_lem c block d b s.block p e s.current.has_block has
            (in_states c n n0 d s.block (Serving-Stays c n steps n0 d w s))))
        (elim (Bool-cases (b.track == s.block.track)) [
          | inl t ↦ elim (Bool-cases (follows block d.current_block p)) [
            | inl u ↦ rw (t, u) (straight_Continues (ground arith) at_track begun)
            | inr f ↦ rw (t, f) unchanged
          ]
          | inr f ↦ rw f unchanged
        ])
    where
      unchanged : Continues c n steps n0 d d
      unchanged = record { left = w; serving = s; timer = refl; count = refl }
