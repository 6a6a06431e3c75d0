-- ===== src/Disk/Seek.antt =====
-- The arm in a tick of 37-Hard_Disk_Drivers/disk.py.
use os_tep.Prelude.{
  dec_lt, ℕ, zero, suc, ◌+◌, ◌-◌, ◌*◌, ◌<◌, ◌≡◌, refl, ap, ◌∙◌, ◌⊎◌, inl, inr, Bool, true, false,
  arith, leb, if◌then◌else◌, length,
}
use os_tep.Prelude.Fault.{Result, ok}
use os_tep.Disk.{state_seek, state_rotate, Conf, Disk, is, switch_state, done_with_seek}
use os_tep.Disk.Animate.{seek_step}
use os_tep.Disk.Serves.{IsConf}
use os_tep.Disk.States.{switch_state_lem}
use os_tep.Disk.Stay.{switched}

pub seek_step_other : (c : Conf) (d : Disk) → is d.state state_seek ≡ false → seek_step c d ≡ ok d
unfolding seek_step
seek_step_other c d h = rw h refl

-- where the arm is after a step, and whether that is the target
abbrev pub arm_after : Conf → Disk → ℕ
arm_after c d = if d.inward then d.arm_x1 + c.seek_speed else d.arm_x1 - c.seek_speed

abbrev there : Conf → Disk → Bool
there c d =
    if d.inward then leb d.arm_target_x1 (arm_after c d) else leb (arm_after c d) d.arm_target_x1

-- the disk whose arm has arrived
abbrev pub arrived : Conf → Disk → Disk
arrived c d =
    switched state_rotate
      (record d { arm_x1 = arm_after c d; arm_track = d.arm_target; rot_begin = d.timer })

done_with_seek_lem :
    (c : Conf) (d : Disk)
    → done_with_seek c d ≡ (
        if there c d
        then (true, record d { arm_x1 = arm_after c d; arm_track = d.arm_target })
        else (false, record d { arm_x1 = arm_after c d }))
unfolding done_with_seek
done_with_seek_lem c d = refl

-- the end of the branch of a disk that seeks
abbrev after_seek : Bool × Disk → Result Disk
after_seek r =
    if r.0 then switch_state state_rotate (record r.1 { rot_begin = r.1.timer }) else ok r.1

seek_step_open :
    (c : Conf) (d : Disk)
    → is d.state state_seek ≡ true
    → seek_step c d ≡ after_seek (done_with_seek c d)
unfolding seek_step
seek_step_open c d h = rw h refl

pub seek_step_lem :
    (c : Conf) (d : Disk)
    → is d.state state_seek ≡ true
    → d.current_index < length d.states
    → seek_step c d
      ≡ (if there c d then ok (arrived c d) else ok (record d { arm_x1 = arm_after c d }))
seek_step_lem c d h lt =
    seek_step_open c d h ∙ ap after_seek (done_with_seek_lem c d) ∙ by_there (there c d)
  where
    by_there :
        (t : Bool)
        → after_seek (
            if t
            then (true, record d { arm_x1 = arm_after c d; arm_track = d.arm_target })
            else (false, record d { arm_x1 = arm_after c d }))
          ≡ (if t then ok (arrived c d) else ok (record d { arm_x1 = arm_after c d }))
    by_there true =
        switch_state_lem state_rotate
          (record d { arm_x1 = arm_after c d; arm_track = d.arm_target; rot_begin = d.timer }) lt
    by_there false = refl

-- the arm is on its way
abbrev pub Towards : Conf → Disk → ℕ → ℕ → Type 0
Towards c d arm_x1 left =
    ((d.inward ≡ true) × (arm_x1 + left * c.seek_speed ≡ d.arm_target_x1))
    ⊎ ((d.inward ≡ false) × (d.arm_target_x1 + left * c.seek_speed ≡ arm_x1))

seek_speed_pos : (c : Conf) (n steps : ℕ) → IsConf c n steps → 0 < c.seek_speed
seek_speed_pos c n steps v = elim (dec_lt 0 c.seek_speed) [
  | yes h ↦ h
  | no h ↦
      let z : c.seek_speed ≡ 0 = omega arith in
      let e : steps * c.seek_speed ≡ 0 = ap (λ k. steps * k) z ∙ omega arith in
      absurd (omega (arith, e, v.divides, v.some_full))
]

-- The last step brings the arm to its target, and any other one brings it nearer.
pub arm_after-Towards :
    (c : Conf) (n steps : ℕ)
    → IsConf c n steps
    → (d : Disk) (left : ℕ) → 0 < left
    → Towards c d d.arm_x1 left
    → ((there c d ≡ true) × (left ≡ 1) × (arm_after c d ≡ d.arm_target_x1))
      ⊎ ((there c d ≡ false) × ((l : ℕ) × (left ≡ l + 1) × (0 < l) × Towards c d (arm_after c d) l))
arm_after-Towards c n steps v d zero h t = absurd (omega arith)
arm_after-Towards c n steps v d (suc zero) h (inl (i, e)) =
    inl (rw i (ground arith), refl, rw i (omega arith))
arm_after-Towards c n steps v d (suc zero) h (inr (i, e)) =
    inl (rw i (ground arith), refl, rw i (omega arith))
arm_after-Towards c n steps v d (suc (suc l)) h (inl (i, e)) =
    let speed = seek_speed_pos c n steps v in
    inr
      (rw i (ground (arith, speed)), (suc l, omega arith, omega arith, inl (i, rw i (omega arith))))
arm_after-Towards c n steps v d (suc (suc l)) h (inr (i, e)) =
    let speed = seek_speed_pos c n steps v in
    inr
      (rw i (ground (arith, speed)), (suc l, omega arith, omega arith, inr (i, rw i (omega arith))))
