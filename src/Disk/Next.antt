-- ===== src/Disk/Next.antt =====
-- GetNextIO of 37-Hard_Disk_Drivers/disk.py: the next request is served, or all requests are done.
use os_tep.Prelude.{
  length-set, ℕ, ◌<◌, ◌≡◌, refl, ap, ◌∙◌, Bool, true, false, some, arith, leb, ◌==◌, if◌then◌else◌,
  length, get_elem?, set,
}
use os_tep.Prelude.Fault.{Result, ok, ◌>>=◌}
use os_tep.Disk.{
  state_seek, state_rotate, number, Block, Conf, position, Request, Disk, block_at, plan_seek,
}
use os_tep.Disk.Policies.{number_of, choose, add_late, get_next_io}
use os_tep.Disk.Serves.{block_at_lem}
use os_tep.Disk.States.{switch_state_lem, set-set}

-- the disk that has a request to serve
abbrev pub with_current : Disk → ℕ → ℕ → Disk
with_current d b i = record d { current_block = b; current_index = i }

abbrev pub rotating : Disk → Disk
rotating d = record d {
  seek_begin = d.timer;
  rot_begin = d.timer;
  state = state_rotate;
  states = set d.states d.current_index state_rotate;
}

abbrev pub seeking : Conf → ℕ → Disk → Disk
seeking c track d = record d {
  seek_begin = d.timer;
  state = state_seek;
  states = set d.states d.current_index state_seek;
  arm_target = track;
  arm_target_x1 = position c track;
  inward = leb d.arm_track track;
}

plan_seek_lem :
    (c : Conf) (track : ℕ) (d : Disk)
    → d.current_index < length d.states
    → plan_seek c track d
      ≡ (if track == d.arm_track then ok (rotating d) else ok (seeking c track d))
unfolding plan_seek
plan_seek_lem c track d h =
    let d0 : Disk = record d { seek_begin = d.timer } in
    let d1 : Disk = record d0 {
      state = state_seek;
      states = set d.states d.current_index state_seek;
    } in
    let d2 : Disk = record d1 { rot_begin = d.timer } in
    rw
      (
        switch_state_lem state_seek d0 h,
        switch_state_lem state_rotate d2
            (omega (arith, h, length-set d.states d.current_index state_seek)),
        set-set d.states d.current_index state_seek state_rotate,
      )
      refl

-- The request that was chosen is planned, and a late one may come.
abbrev pub next_of : Conf → Request × Disk → Result Disk
next_of c p = do
  block ← number_of p.0.block
  b ← block_at c p.0.block
  d ← plan_seek c b.track (with_current p.1 block p.0.index)
  ok (add_late c d)

pub get_next_io_open :
    (c : Conf) (d : Disk)
    → (d.count == length d.queue) ≡ false
    → get_next_io c d ≡ (choose c c.policy d >>= next_of c)
unfolding get_next_io
get_next_io_open c d h = rw h refl

pub get_next_io_over :
    (c : Conf) (d : Disk)
    → (d.count == length d.queue) ≡ true
    → get_next_io c d ≡ ok (record d { is_done = true })
unfolding get_next_io
get_next_io_over c d h = rw h refl

pub next_of_lem :
    (c : Conf) (r : Request) (d : Disk) (b : ℕ) (x : Block)
    → r.block ≡ number b
    → get_elem? c.layout.blocks b ≡ some x
    → r.index < length d.states
    → next_of c (r, d) ≡ (
        if x.track == d.arm_track
        then ok (add_late c (rotating (with_current d b r.index)))
        else ok (add_late c (seeking c x.track (with_current d b r.index))))
next_of_lem c r d b x e f h =
    let go : next_of c (r, d)
        ≡ (plan_seek c x.track (with_current d b r.index) >>= λ d'. ok (add_late c d')) =
      rw (e, block_at_lem c b x f) refl in
    go
    ∙ ap (λ m. m >>= λ d'. ok (add_late c d'))
        (plan_seek_lem c x.track (with_current d b r.index) h)
    ∙ by_track (x.track == d.arm_track)
  where
    by_track :
        (t : Bool)
        → ((if t
              then ok (rotating (with_current d b r.index))
              else ok (seeking c x.track (with_current d b r.index)))
            >>= λ d'. ok (add_late c d'))
          ≡ (if t
              then ok (add_late c (rotating (with_current d b r.index)))
              else ok (add_late c (seeking c x.track (with_current d b r.index))))
    by_track true = refl
    by_track false = refl
