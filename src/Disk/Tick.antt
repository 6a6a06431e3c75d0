-- ===== src/Disk/Tick.antt =====
-- Animate of 37-Hard_Disk_Drivers/disk.py as a whole: every tick leaves less to do.
use os_tep.Prelude.{ℕ, ◌+◌, ◌*◌, ◌≤◌, ◌<◌, ◌≡◌, refl, sym, ap, ◌∙◌, inl, inr, false, arith}
use mathlib.Core.Path.{subst}
use os_tep.Prelude.Fault.{ok, ◌>>=◌, Returns, Returns-map}
use os_tep.Disk.{state_seek, state_rotate, state_xfer, Block, Conf, full, position, Disk, is}
use os_tep.Disk.Animate.{turn_disk, seek_step, rotate_step, transfer_step, animate}
use os_tep.Disk.Angle.{turned, close, Wait, Wait-exists, Wait-turned, IsAngle-turned}
use os_tep.Disk.Serves.{IsConf}
use os_tep.Disk.Phase.{
  below_full, Seeking, Rotating, Transferring, begins_at, ends_at_angle, Serving,
}
use os_tep.Disk.Stay.{
  Stays, elsewhere, in_states, Stays-switched, Stays-elsewhere, Stays-Serving, Serving-Stays,
}
use os_tep.Disk.Complete.{Ticked}
use os_tep.Disk.Wheel.{later, rotate_step_other, transfer_step_other, transfer_goes, Ticked-weaken}
use os_tep.Disk.Seek.{
  seek_step_other, seek_step_lem, arm_after, arrived, arm_after-Towards, Towards,
}
use os_tep.Disk.Round.{rotate_goes}

-- the disk after its turn
abbrev pub turned_on : Conf → Disk → Disk
turned_on c d =
    elsewhere d (turned c.rotate_speed (full c) d.angle) (d.timer + 1) d.arm_x1 d.arm_track
      d.rot_begin d.xfer_begin

animate_lem :
    (c : Conf) (d d' : Disk)
    → seek_step c (turned_on c d) ≡ ok d'
    → animate c d ≡ (rotate_step c d' >>= transfer_step c)
unfolding animate turn_disk
animate_lem c d d' e = ap (λ m. m >>= λ d1. rotate_step c d1 >>= transfer_step c) e

module _ (c : Conf) (n steps n0 : ℕ) (v : IsConf c n steps) (pos : 0 < n0) (d : Disk) (w : ℕ)
    (s : Serving c n steps n0 d w) where
  abbrev d1 : Disk
  d1 = turned_on c d

  abbrev x : Block
  x = s.block

  stays : Stays c n n0 d1 x
  stays =
      Stays-elsewhere c n n0 d x (Serving-Stays c n steps n0 d w s)
        (turned c.rotate_speed (full c) d.angle) (d.timer + 1) d.arm_x1 d.arm_track d.rot_begin
        d.xfer_begin (IsAngle-turned c.rotate_speed (full c) n v.circle v.some_full d.angle s.turns)
        s.queue.arm

  -- a wait that is not over is shorter
  shorter :
      (t left : ℕ)
      → Wait c.rotate_speed (full c) n d.angle t left
      → close c.rotate_speed d1.angle t ≡ false
      → (l : ℕ) × Wait c.rotate_speed (full c) n d1.angle t l × (left ≡ l + 1)
  shorter t left wait f =
      elim (Wait-turned c.rotate_speed (full c) n v.circle d.angle t left wait) [
        | inl near ↦ absurd (cc (near, f))
        | inr k ↦ k
      ]

  whole : (b : ℕ) → b ≡ s.phase_left → later c n steps n0 d1 + b ≤ w
  whole b e = omega (arith, e, s.weight)

  transfer_tick :
      Transferring c n d x s.phase_left → Returns (Ticked c n steps n0 w d1) (animate c d)
  transfer_tick p =
      subst (Returns (Ticked c n steps n0 w d1))
        (sym (animate_lem c d d1 (seek_step_other c d1 (ap (λ z. is z state_seek) p.is_xfer))))
        (subst (λ m. Returns (Ticked c n steps n0 w d1) (m >>= transfer_step c))
          (sym (rotate_step_other c d1 (ap (λ z. is z state_rotate) p.is_xfer)))
          (Returns-map (Ticked c n steps n0 (later c n steps n0 d1 + s.phase_left) d1) _
            (transfer_step c d1)
            (transfer_goes c n steps n0 v pos d1 x stays p.settled p.at_track p.begun p.offset
              p.has_offset s.phase_left p.is_xfer p.rotated (omega (arith, p.moved))
              (omega (arith, s.small))
              (λ f.
                let (l, wait, e) = shorter (ends_at_angle c x p.offset) p.left p.wait f in
                (l, wait, omega (arith, p.weight))))
            (λ d' k. Ticked-weaken c n steps n0 _ w d1 d' (whole s.phase_left refl) k)))

  rotate_tick : Rotating c n d x s.phase_left → Returns (Ticked c n steps n0 w d1) (animate c d)
  rotate_tick p =
      subst (Returns (Ticked c n steps n0 w d1))
        (sym (animate_lem c d d1 (seek_step_other c d1 (ap (λ z. is z state_seek) p.is_rotate))))
        (Returns-map (Ticked c n steps n0 (later c n steps n0 d1 + s.phase_left) d1) _
          (rotate_step c d1 >>= transfer_step c)
          (rotate_goes c n steps n0 v pos d1 x stays p.settled p.at_track p.begun p.offset
            p.has_offset s.phase_left p.is_rotate (omega (arith, p.rotated))
            (omega (arith, p.weight)) (omega (arith, s.small))
            (λ f.
              let (l, wait, e) = shorter (begins_at c x p.offset) p.left p.wait f in
              (l, wait, omega (arith, p.weight))))
          (λ d' k. Ticked-weaken c n steps n0 _ w d1 d' (whole s.phase_left refl) k))

  module _ (p : Seeking c n d x s.phase_left) where
    track_lt : x.track < 3
    track_lt = v.tracks d.current_block x s.current.has_block

    -- the arm has arrived
    at_last :
        p.left ≡ 1
        → arm_after c d1 ≡ d.arm_target_x1
        → Returns (Ticked c n steps n0 w d1) (rotate_step c (arrived c d1) >>= transfer_step c)
    at_last last at =
        let (o, off) = v.offsets x.track track_lt in
        let d2 : Disk = record d1 {
          arm_x1 = arm_after c d1;
          arm_track = d.arm_target;
          rot_begin = d1.timer;
        } in
        let s2 : Stays c n n0 d2 x =
          Stays-elsewhere c n n0 d1 x stays d1.angle d1.timer (arm_after c d1) d.arm_target d1.timer
            d1.xfer_begin stays.turns (omega (arith, p.target, track_lt)) in
        let s3 = Stays-switched c n n0 d2 x s2 state_rotate refl in
        let (l, wait, some_wait, le) =
          Wait-exists c.rotate_speed (full c) n v.circle d1.angle (begins_at c x o) stays.turns
            (below_full c (x.angle + 359 * o) v.some_full) in
        Returns-map (Ticked c n steps n0 (later c n steps n0 d1 + s.phase_left) d1) _
          (rotate_step c (arrived c d1) >>= transfer_step c)
          (rotate_goes c n steps n0 v pos (arrived c d1) x s3 p.target
            (at ∙ p.target_x1 ∙ ap (position c) (sym p.target)) (omega (arith, p.begun)) o off
            s.phase_left refl (omega arith) (omega (arith, p.weight)) (omega (arith, s.small))
            (λ f. (l, wait, omega (arith, p.weight, le, last))))
          (λ d' k. Ticked-weaken c n steps n0 _ w d1 d' (whole s.phase_left refl) k)

    -- the arm is `l` steps away
    on_the_way :
        (l : ℕ)
        → p.left ≡ l + 1
        → 0 < l
        → Towards c d1 (arm_after c d1) l
        → Returns
            (Ticked c n steps n0 w d1)
            (rotate_step c (record d1 { arm_x1 = arm_after c d1 }) >>= transfer_step c)
    on_the_way l e some_way ahead =
        let d2 : Disk = record d1 { arm_x1 = arm_after c d1 } in
        let s2 : Stays c n n0 d2 x =
          Stays-elsewhere c n n0 d1 x stays d1.angle d1.timer (arm_after c d1) d1.arm_track
            d1.rot_begin d1.xfer_begin stays.turns s.queue.arm in
        subst (λ m. Returns (Ticked c n steps n0 w d1) (m >>= transfer_step c))
          (sym (rotate_step_other c d2 (ap (λ z. is z state_rotate) p.is_seek)))
          (subst (Returns (Ticked c n steps n0 w d1))
            (sym (transfer_step_other c d2 (ap (λ z. is z state_xfer) p.is_seek)))
            (
              refl,
              inr (
                later c n steps n0 d1 + (l + 2 * n + 2),
                Stays-Serving c n n0 d2 x s2 steps (l + 2 * n + 2)
                    (inl (record {
                      is_seek = p.is_seek;
                      left = l;
                      some_left = some_way;
                      target = p.target;
                      target_x1 = p.target_x1;
                      towards = ahead;
                      begun = omega (arith, p.begun);
                      weight = refl;
                    }))
                    (omega (arith, p.weight, s.small, e)),
                omega (arith, p.weight, s.weight, e),
              ),
            ))

    seek_tick : Returns (Ticked c n steps n0 w d1) (animate c d)
    seek_tick =
        let sought =
          seek_step_lem c d1 (ap (λ z. is z state_seek) p.is_seek) (in_states c n n0 d1 x stays) in
        elim (arm_after-Towards c n steps v d1 p.left p.some_left p.towards) [
          | inl (t, last, at) ↦
              subst (Returns (Ticked c n steps n0 w d1))
                (sym (animate_lem c d (arrived c d1) (sought ∙ rw t refl))) (at_last last at)
          | inr (f, (l, e, some_way, ahead)) ↦
              subst (Returns (Ticked c n steps n0 w d1))
                (sym (animate_lem c d (record d1 { arm_x1 = arm_after c d1 }) (sought ∙ rw f refl)))
                (on_the_way l e some_way ahead)
        ]

  -- A tick while a request is served raises nothing: afterwards every request is done and the times
  -- add up, or a request is served and less is left to do.
  pub animate-Ticked : Returns (Ticked c n steps n0 w (turned_on c d)) (animate c d)
  animate-Ticked = elim s.phase [
    | inl p ↦ seek_tick p
    | inr (inl p) ↦ rotate_tick p
    | inr (inr p) ↦ transfer_tick p
  ]
