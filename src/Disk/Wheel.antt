-- ===== src/Disk/Wheel.antt =====
-- The rotation and the transfer in a tick of 37-Hard_Disk_Drivers/disk.py.
use os_tep.Prelude.{
  length-set, ℕ, ◌+◌, ◌-◌, ◌*◌, ◌≤◌, ◌<◌, ◌≡◌, refl, sym, ap, ◌∙◌, inl, inr, Bool, true, false,
  some, arith, if◌then◌else◌, Bool-cases, length, get_elem?,
}
use mathlib.Core.Path.{subst}
use os_tep.Prelude.Fault.{Result, ok, ◌>>=◌, Returns, Returns-map}
use os_tep.Disk.{
  state_rotate, state_xfer, state_done, Block, Conf, full, position, Disk, is, switch_state,
  done_with_rotation, done_with_transfer,
}
use os_tep.Disk.Animate.{rotate_step, transfer_step, complete}
use os_tep.Disk.Angle.{close, Wait}
use os_tep.Disk.Serves.{IsConf, block_at_lem, offset_at_lem}
use os_tep.Disk.States.{set-set, switch_state_lem}
use os_tep.Disk.Phase.{begins_at, ends_at_angle, most, all_requests}
use os_tep.Disk.Stay.{Stays, switched, in_states, Stays-Serving}
use os_tep.Disk.Complete.{completed, Ticked, complete-Ticked}

pub Ticked-weaken :
    (c : Conf) (n steps n0 b b' : ℕ) (d d' : Disk)
    → b ≤ b'
    → Ticked c n steps n0 b d d'
    → Ticked c n steps n0 b' d d'
Ticked-weaken c n steps n0 b b' d d' le (t, inl o) = (t, inl o)
Ticked-weaken c n steps n0 b b' d d' le (t, inr (w, s, lt)) = (t, inr (w, s, omega arith))

-- the disk that begins its transfer
abbrev pub transferring : Disk → Disk
transferring d = switched state_xfer (record d { xfer_begin = d.timer })

-- whether a phase is over, and the disk
abbrev outcome : Bool → Disk → Disk → Result (Bool × Disk)
outcome t d' d = if t then ok (true, d') else ok (false, d)

-- ticks for the requests after the current one
abbrev pub later : Conf → ℕ → ℕ → ℕ → Disk → ℕ
later c n steps n0 d = (all_requests c n0 - d.count - 1) * most n steps

pub rotate_step_other :
    (c : Conf) (d : Disk) → is d.state state_rotate ≡ false → rotate_step c d ≡ ok d
unfolding rotate_step
rotate_step_other c d h = rw h refl

pub transfer_step_other :
    (c : Conf) (d : Disk) → is d.state state_xfer ≡ false → transfer_step c d ≡ ok d
unfolding transfer_step
transfer_step_other c d h = rw h refl

module _ (c : Conf) (n steps n0 : ℕ) (v : IsConf c n steps) (pos : 0 < n0) (d : Disk) (x : Block)
    (s : Stays c n n0 d x) (settled : d.arm_track ≡ x.track)
    (at_track : d.arm_x1 ≡ position c d.arm_track) (begun : d.seek_begin ≤ d.rot_begin) (o : ℕ)
    (off : get_elem? c.layout.offsets x.track ≡ some o) where
  in_list : d.current_index < length d.states
  in_list = in_states c n n0 d x s

  offset_here : get_elem? c.layout.offsets d.arm_track ≡ some o
  offset_here = ap (get_elem? c.layout.offsets) settled ∙ off

  done_with_transfer_lem :
      done_with_transfer c d
      ≡ outcome (close c.rotate_speed d.angle (ends_at_angle c x o)) (completed d) d
  unfolding done_with_transfer
  done_with_transfer_lem =
      rw
        (
          offset_at_lem c d.arm_track o offset_here,
          block_at_lem c d.current_block x s.current.has_block,
          switch_state_lem state_done d in_list,
        )
        refl

  transfer_step_open :
      is d.state state_xfer ≡ true
      → transfer_step c d ≡ (done_with_transfer c d >>= λ r. if r.0 then complete c r.1 else ok r.1)
  unfolding transfer_step
  transfer_step_open h = rw h refl

  transfer_step_lem :
      is d.state state_xfer ≡ true
      → transfer_step c d ≡ (
          if close c.rotate_speed d.angle (ends_at_angle c x o)
          then complete c (completed d)
          else ok d)
  transfer_step_lem h =
      transfer_step_open h
      ∙ ap (λ m. m >>= λ r. if r.0 then complete c r.1 else ok r.1) done_with_transfer_lem
      ∙ by_close (close c.rotate_speed d.angle (ends_at_angle c x o))
    where
      by_close :
          (t : Bool)
          → (outcome t (completed d) d >>= λ r. if r.0 then complete c r.1 else ok r.1)
            ≡ (if t then complete c (completed d) else ok d)
      by_close true = refl
      by_close false = refl

  pub rotate_step_lem :
      is d.state state_rotate ≡ true
      → rotate_step c d
        ≡ (if close c.rotate_speed d.angle (begins_at c x o) then ok (transferring d) else ok d)
  unfolding rotate_step done_with_rotation
  rotate_step_lem h =
      rw
        (
          h,
          offset_at_lem c d.arm_track o offset_here,
          block_at_lem c d.current_block x s.current.has_block,
          switch_state_lem state_xfer d in_list,
        )
        (by_close (close c.rotate_speed d.angle (begins_at c x o)))
    where
      by_close :
          (t : Bool)
          → (outcome t (switched state_xfer d) d >>= λ r.
              if r.0
              then switch_state state_xfer (record r.1 { xfer_begin = r.1.timer })
              else ok r.1)
            ≡ (if t then ok (transferring d) else ok d)
      by_close true =
          switch_state_lem state_xfer (record (switched state_xfer d) { xfer_begin = d.timer })
            (omega (arith, in_list, length-set d.states d.current_index state_xfer))
          ∙ rw (set-set d.states d.current_index state_xfer state_xfer) refl
      by_close false = refl

  pub transfer_goes :
      (b : ℕ)
      → d.state ≡ state_xfer
      → d.rot_begin ≤ d.xfer_begin
      → d.xfer_begin ≤ d.timer
      → b ≤ most n steps
      → (close c.rotate_speed d.angle (ends_at_angle c x o) ≡ false
          → (l : ℕ) × Wait c.rotate_speed (full c) n d.angle (ends_at_angle c x o) l × (l < b))
      → Returns (Ticked c n steps n0 (later c n steps n0 d + b) d) (transfer_step c d)
  transfer_goes b is_xfer rotated moved le wait =
      subst (Returns (Ticked c n steps n0 (later c n steps n0 d + b) d))
        (sym (transfer_step_lem (ap (λ z. is z state_xfer) is_xfer)))
        (elim (Bool-cases (close c.rotate_speed d.angle (ends_at_angle c x o))) [
          | inl t ↦ rw t (
              Returns-map (Ticked c n steps n0 (later c n steps n0 d) d) _
                (complete c (completed d))
                (complete-Ticked c n steps n0 v pos d x s settled at_track begun rotated moved)
                (λ d' k. Ticked-weaken c n steps n0 _ _ d d' (omega arith) k))
          | inr f ↦
              let (l, w, lt) = wait f in
              rw f (
                refl,
                inr (
                  later c n steps n0 d + l,
                  Stays-Serving c n n0 d x s steps l
                      (inr (
                        inr (record {
                          is_xfer = is_xfer;
                          settled = settled;
                          at_track = at_track;
                          begun = begun;
                          rotated = rotated;
                          moved = moved;
                          offset = o;
                          has_offset = off;
                          left = l;
                          wait = w;
                          weight = refl;
                        })))
                      (omega arith),
                  omega arith,
                ),
              )
        ])
