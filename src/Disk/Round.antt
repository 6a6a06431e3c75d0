-- ===== src/Disk/Round.antt =====
-- A tick of 37-Hard_Disk_Drivers/disk.py, from the phase in which it finds the request.
use os_tep.Prelude.{
  ℕ, ◌+◌, ◌≤◌, ◌<◌, ◌≡◌, refl, sym, ap, inl, inr, false, some, arith, Bool-cases, get_elem?,
}
use mathlib.Core.Path.{subst}
use os_tep.Prelude.Fault.{ok, ◌>>=◌, Returns}
use os_tep.Disk.{state_seek, state_rotate, state_xfer, Block, Conf, full, position, Disk, is}
use os_tep.Disk.Animate.{seek_step, rotate_step, transfer_step}
use os_tep.Disk.Angle.{close, Wait, Wait-exists}
use os_tep.Disk.Serves.{IsConf}
use os_tep.Disk.Phase.{below_full, begins_at, ends_at_angle, most}
use os_tep.Disk.Stay.{Stays, Stays-switched, Stays-elsewhere, Stays-Serving}
use os_tep.Disk.Complete.{Ticked}
use os_tep.Disk.Wheel.{later, transferring, transfer_step_other, rotate_step_lem, transfer_goes}

seek_step_other : (c : Conf) (d : Disk) → is d.state state_seek ≡ false → seek_step c d ≡ ok d
unfolding seek_step
seek_step_other c d h = rw h refl

module _ (c : Conf) (n steps n0 : ℕ) (v : IsConf c n steps) (pos : 0 < n0) where
  module _ (d : Disk) (x : Block) (s : Stays c n n0 d x) (settled : d.arm_track ≡ x.track)
      (at_track : d.arm_x1 ≡ position c d.arm_track) (begun : d.seek_begin ≤ d.rot_begin) (o : ℕ)
      (off : get_elem? c.layout.offsets x.track ≡ some o) where
    begins_transfer : Stays c n n0 (transferring d) x
    begins_transfer =
        Stays-switched c n n0 (record d { xfer_begin = d.timer }) x
          (Stays-elsewhere c n n0 d x s d.angle d.timer d.arm_x1 d.arm_track d.rot_begin d.timer
            s.turns s.queue.arm)
          state_xfer refl

    pub rotate_goes :
        (b : ℕ)
        → d.state ≡ state_rotate
        → d.rot_begin ≤ d.timer
        → n < b
        → b ≤ most n steps
        → (close c.rotate_speed d.angle (begins_at c x o) ≡ false
            → (l : ℕ) × Wait c.rotate_speed (full c) n d.angle (begins_at c x o) l
              × (l + n + 1 < b))
        → Returns
            (Ticked c n steps n0 (later c n steps n0 d + b) d)
            (rotate_step c d >>= transfer_step c)
    rotate_goes b is_rotate rotated more le wait =
        subst (λ m. Returns goes (m >>= transfer_step c))
          (sym (
            rotate_step_lem c n steps n0 v pos d x s settled at_track begun o off
              (ap (λ z. is z state_rotate) is_rotate)))
          (elim (Bool-cases (close c.rotate_speed d.angle (begins_at c x o))) [
            | inl t ↦
                let (l, w, some_wait, near) =
                  Wait-exists c.rotate_speed (full c) n v.circle d.angle (ends_at_angle c x o)
                    s.turns (below_full c (x.angle + o) v.some_full) in
                rw t (
                  transfer_goes c n steps n0 v pos (transferring d) x begins_transfer settled
                    at_track begun o off b refl rotated (omega arith) le
                    (λ f. (l, w, omega (arith, near))))
            | inr f ↦
                let (l, w, lt) = wait f in
                rw f (
                  subst (Returns goes)
                    (sym (transfer_step_other c d (ap (λ z. is z state_xfer) is_rotate)))
                    (
                      refl,
                      inr (
                        later c n steps n0 d + (l + n + 1),
                        Stays-Serving c n n0 d x s steps (l + n + 1)
                            (inr (
                              inl (record {
                                is_rotate = is_rotate;
                                settled = settled;
                                at_track = at_track;
                                begun = begun;
                                rotated = rotated;
                                offset = o;
                                has_offset = off;
                                left = l;
                                wait = w;
                                weight = refl;
                              })))
                            (omega arith),
                        omega arith,
                      ),
                    ))
          ])
      where
        goes : Disk → Type 0
        goes = Ticked c n steps n0 (later c n steps n0 d + b) d
