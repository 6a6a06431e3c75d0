-- ===== src/Disk/Follow.antt =====
-- GetNextIO of 37-Hard_Disk_Drivers/disk.py as a whole: what holds after it.
use os_tep.Prelude.{
  get_elem?_lt, ℕ, ◌<◌, ◌≡◌, refl, sym, ap, ◌∙◌, ◌⊎◌, inl, inr, true, some, arith, ◌==◌, Bool-cases,
  length, get_elem?,
}
use mathlib.Core.Path.{subst}
use os_tep.Prelude.Fault.{Returns, Returns-bind}
use os_tep.Disk.{Conf, Request, Disk}
use os_tep.Disk.Policies.{choose, get_next_io}
use os_tep.Disk.Serves.{IsConf, In-index}
use os_tep.Disk.Choice.{Chooses, with_window, choose-Chooses}
use os_tep.Disk.States.{num_done_le}
use os_tep.Disk.Phase.{all_requests, Serving, Idle}
use os_tep.Disk.Next.{next_of, next_of_lem, get_next_io_open, get_next_io_over}
use os_tep.Disk.Plan.{Planned-rotate, Planned-seek}
use os_tep.Disk.Late.{Kept, add_late-Serving}

-- The next request is served.
pub record Served (c : Conf) (n steps n0 : ℕ) (d d' : Disk) : Type 0 where
  pub left : ℕ
  pub serving : Serving c n steps n0 d' left
  pub kept : Kept d d'
  pub begun : d'.seek_begin ≡ d.timer

-- Nothing is left, late requests neither, or the next request is served.
abbrev pub Follows : Conf → ℕ → ℕ → ℕ → Disk → Disk → Type 0
Follows c n steps n0 d d' =
    ((d' ≡ record d { is_done = true }) × (d.count ≡ all_requests c n0)) ⊎ Served c n steps n0 d d'

module _ (c : Conf) (n steps n0 : ℕ) (v : IsConf c n steps) (d : Disk) (s : Idle c n n0 d) where
  planned_next :
      (p : Request × Disk)
      → d.count < length d.queue
      → Chooses c d p
      → Returns (Follows c n steps n0 d) (next_of c p)
  planned_next p lt k =
      let (i, e) = In-index p.0 d.queue k.queued in
      let (same, (b, x, name, has)) = s.queue.indexed i p.0 e in
      let here : get_elem? d.queue p.0.index ≡ some p.0 = ap (get_elem? d.queue) same ∙ e in
      let in_states = get_elem?_lt p.0.index d.states k.pending.1 in
      subst (λ z. Returns (Follows c n steps n0 d) (next_of c (p.0, z))) (sym k.only_window)
        (subst (Returns (Follows c n steps n0 d))
          (sym (next_of_lem c p.0 (with_window d k.window) b x name has in_states))
          (elim (Bool-cases (x.track == d.arm_track)) [
            | inl t ↦
                let (w, planned) =
                  Planned-rotate c n steps n0 v d s lt p k b x name has here (ground arith) in
                let (serving, kept, sought) = add_late-Serving c n steps n0 v _ x w planned in
                rw t (
                  inr (record {
                    left = _;
                    serving = serving;
                    kept = record {
                      arm_track = kept.arm_track;
                      arm_x1 = kept.arm_x1;
                      timer = kept.timer;
                      count = kept.count;
                    };
                    begun = sought;
                  }))
            | inr f ↦
                let (w, planned) =
                  Planned-seek c n steps n0 v d s lt p k b x name has here (ground arith) in
                let (serving, kept, sought) = add_late-Serving c n steps n0 v _ x w planned in
                rw f (
                  inr (record {
                    left = _;
                    serving = serving;
                    kept = record {
                      arm_track = kept.arm_track;
                      arm_x1 = kept.arm_x1;
                      timer = kept.timer;
                      count = kept.count;
                    };
                    begun = sought;
                  }))
          ]))

  over_now : 0 < n0 → d.count ≡ length d.queue → d.count ≡ all_requests c n0
  over_now pos same = elim s.late_left [
    | inl h ↦ omega (arith, s.late_in)
    | inr (h, le) ↦ absurd (omega (arith, s.late_in))
  ]

  -- `GetNextIO` between two requests, when there was at least one request at first: nothing is raised,
  -- and either every request is done, the late ones too, and only `isDone` changes, or the next request
  -- is served from now on, and neither the arm, the time nor the count changes.
  pub get_next_io-Follows : 0 < n0 → Returns (Follows c n steps n0 d) (get_next_io c d)
  get_next_io-Follows pos = elim (Bool-cases (d.count == length d.queue)) [
    | inl t ↦
        subst (Returns (Follows c n steps n0 d)) (sym (get_next_io_over c d t))
          (inl (refl, over_now pos (ground arith)))
    | inr f ↦
        let lt : d.count < length d.queue =
          ground (arith, s.queue.counted, s.queue.lens, num_done_le d.states) in
        subst (Returns (Follows c n steps n0 d)) (sym (get_next_io_open c d f)) (
          Returns-bind (Chooses c d) (Follows c n steps n0 d) (choose c c.policy d) (next_of c)
            (choose-Chooses c n steps v d s.queue lt s.window) (λ p k. planned_next p lt k))
  ]
