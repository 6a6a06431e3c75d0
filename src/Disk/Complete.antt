-- ===== src/Disk/Complete.antt =====
-- A request of 37-Hard_Disk_Drivers/disk.py that is served: the times are added up, and the next
-- request follows.
use os_tep.Prelude.{
  length-set, ℕ, ◌+◌, ◌-◌, ◌*◌, ◌≤◌, ◌<◌, ◌≡◌, refl, sym, ap, ◌∙◌, ◌⊎◌, inl, inr, true, Option,
  arith, length, set,
}
use mathlib.Core.Path.{subst}
use os_tep.Prelude.Fault.{◌>>=◌, Returns, Returns-map, Returns-bind}
use os_tep.Disk.{state_done, Block, Conf, fair_window, position, Disk}
use os_tep.Disk.Policies.{update_window, get_next_io}
use os_tep.Disk.Animate.{do_request_stats, keep_transfer, complete}
use os_tep.Disk.Serves.{IsConf}
use os_tep.Disk.Window.{Before, update_window-Before}
use os_tep.Disk.Choice.{with_window}
use os_tep.Disk.States.{num_done_le, set-set, switch_state_lem, IsQueue-with_done}
use os_tep.Disk.Phase.{most, all_requests, Serving, Idle, Over}
use os_tep.Disk.Follow.{Follows, get_next_io-Follows}
use os_tep.Disk.Stay.{Stays, in_states}
use os_tep.Disk.Straight.{Continues, Continues-small, keep_transfer_same, keep_transfer-Continues}

-- the disk after a request is done, before its times are added
abbrev pub completed : Disk → Disk
completed d = record d {
  state = state_done;
  states = set d.states d.current_index state_done;
  count = d.count + 1;
}

abbrev summed : Disk → Disk
summed d = record (completed d) {
  seek_total = d.seek_total + (d.rot_begin - d.seek_begin);
  rot_total = d.rot_total + (d.xfer_begin - d.rot_begin);
  xfer_total = d.xfer_total + (d.timer - d.xfer_begin);
}

-- What a tick gives: every request is done, or one is served and less is left than `bound`.
abbrev pub Ticked : Conf → ℕ → ℕ → ℕ → ℕ → Disk → Disk → Type 0
Ticked c n steps n0 bound d d' =
    (d'.timer ≡ d.timer) × (Over c n0 d' ⊎ ((w : ℕ) × Serving c n steps n0 d' w × (w < bound)))

module _ (c : Conf) (n steps n0 : ℕ) (v : IsConf c n steps) (pos : 0 < n0) (d : Disk) (x : Block)
    (s : Stays c n n0 d x) (settled : d.arm_track ≡ x.track)
    (at_track : d.arm_x1 ≡ position c d.arm_track) (begun : d.seek_begin ≤ d.rot_begin)
    (rotated : d.rot_begin ≤ d.xfer_begin) (moved : d.xfer_begin ≤ d.timer) where
  summed_again : do_request_stats (completed d) ≡ summed d
  unfolding do_request_stats
  summed_again = refl

  complete_lem :
      complete c (completed d)
      ≡ (get_next_io c (update_window c (summed d)) >>= λ d'. keep_transfer c d.current_block d')
  unfolding complete
  complete_lem =
      rw
        (
          summed_again,
          switch_state_lem state_done (summed d) (
              omega
                (arith, in_states c n n0 d x s, length-set d.states d.current_index state_done)),
          set-set d.states d.current_index state_done state_done,
        )
        refl

  summed-Idle :
      (w : Option ℕ)
      → Before (fair_window c) w (d.count + 1) (length d.queue)
      → Idle c n n0 (with_window (summed d) w)
  summed-Idle w b =
      let q =
        IsQueue-with_done c d d.current_index d.state s.current.has_state s.open_state
          s.current.next s.queue in
      record {
        queue = record {
          lens = q.lens;
          indexed = q.indexed;
          counted = q.counted;
          in_order = q.in_order;
          arm = q.arm;
        };
        turns = s.turns;
        window = b;
        late_in = s.late_in;
        late_left = s.late_left;
        sums = omega (arith, s.sums, begun, rotated, moved);
        at_track = at_track;
        not_done = s.not_done;
      }

  Over-same :
      (e : Disk)
      → Idle c n n0 e
      → e.count ≡ all_requests c n0
      → Over c n0 (record e { is_done = true })
  Over-same e i all = record {
    is_over = refl;
    all_there = elim i.late_left [
      | inl h ↦ omega (arith, i.queue.lens, i.late_in)
      | inr (h, le) ↦ omega (arith, i.queue.lens, i.late_in, i.queue.counted, num_done_le e.states)
    ];
    all_done = i.queue.counted ∙ all;
    sums = i.sums;
  }

  abbrev After : Disk → Type 0
  After = Ticked c n steps n0 ((all_requests c n0 - d.count - 1) * most n steps) d

  pub complete-Ticked : Returns After (complete c (completed d))
  complete-Ticked =
      let (w, e, b) = update_window-Before c (summed d) d.count s.window in
      let idle = summed-Idle w b in
      subst (Returns After)
        (sym (complete_lem ∙ ap (λ z. get_next_io c z >>= keep_transfer c d.current_block) e))
        (Returns-bind (Follows c n steps n0 (with_window (summed d) w)) After
          (get_next_io c (with_window (summed d) w)) (keep_transfer c d.current_block)
          (get_next_io-Follows c n steps n0 v (with_window (summed d) w) idle pos)
          (λ d' f. elim f [
            | inl (same, all) ↦
                let stop : Disk = record (with_window (summed d) w) { is_done = true } in
                subst (λ z. Returns After (keep_transfer c d.current_block z)) (sym same)
                  (subst (Returns After)
                    (sym (
                      keep_transfer_same c n steps v stop x s.current.has_block s.queue.arm (
                        omega (
                          arith,
                          in_states c n n0 d x s,
                          length-set d.states d.current_index state_done,
                        ))))
                    (refl, inl (Over-same (with_window (summed d) w) idle all)))
            | inr k ↦
                Returns-map (Continues c n steps n0 d') After (keep_transfer c d.current_block d')
                  (keep_transfer-Continues c n steps n0 v d' k.left k.serving d.current_block x
                    s.current.has_block (k.kept.arm_track ∙ settled)
                    (k.kept.arm_x1 ∙ at_track ∙ ap (position c) (sym k.kept.arm_track))
                    (k.begun ∙ sym k.kept.timer))
                  (λ d'' r. (
                    r.timer ∙ k.kept.timer,
                    inr (
                      r.left,
                      r.serving,
                      subst (λ z. r.left < z * most n steps) (one_less d' k.kept.count)
                          (Continues-small c n steps n0 d' d'' r),
                    ),
                  ))
          ]))
    where
      one_less :
          (d' : Disk)
          → d'.count ≡ d.count + 1
          → all_requests c n0 - d'.count ≡ all_requests c n0 - d.count - 1
      one_less d' h = omega (arith, h)
