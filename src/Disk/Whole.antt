-- ===== src/Disk/Whole.antt =====
-- A whole run of 37-Hard_Disk_Drivers/disk.py, from the requests to the end.
use os_tep.Prelude.{
  ℕ, ◌+◌, ◌-◌, ◌*◌, ◌≤◌, ◌<◌, ◌≡◌, refl, sym, ap, ◌⊎◌, inl, inr, Option, none, some, List, [],
  arith, length, get_elem?,
}
use mathlib.Core.Path.{subst}
use native.Mathlib.Nat.{mod_self}
use os_tep.Prelude.Fault.{Result, ok, raise, ◌>>=◌, Returns, Returns-map, Returns-bind}
use os_tep.Disk.{
  State, Policy, fifo, satf, bsatf, sstf, other, Block, Conf, fair_window, Request, Disk,
}
use os_tep.Disk.Policies.{get_next_io}
use os_tep.Disk.Animate.{animate_all, go}
use os_tep.Disk.Angle.{IsAngle-zero}
use os_tep.Disk.Serves.{IsConf, IsQueue}
use os_tep.Disk.Window.{Before}
use os_tep.Disk.Phase.{most, all_requests, Idle, Over}
use os_tep.Disk.Follow.{Follows, get_next_io-Follows}
use os_tep.Disk.Straight.{Continues-small}
use os_tep.Disk.Finish.{Ended, animate_all-Ended, start, empty_IsQueue, add_all_lem}

fair_cases : (c : Conf) → (fair_window c ≡ none) ⊎ (fair_window c ≡ c.window)
fair_cases c = by_policy c.policy refl
  where
    by_policy : (p : Policy) → c.policy ≡ p → (fair_window c ≡ none) ⊎ (fair_window c ≡ c.window)
    by_policy fifo e = inl (rw e refl)
    by_policy satf e = inl (rw e refl)
    by_policy bsatf e = inr (rw e refl)
    by_policy sstf e = inl (rw e refl)
    by_policy other e = inl (rw e refl)

Before-none : (w : Option ℕ) (len : ℕ) → ((k : ℕ) → w ≡ some k → 0 < k) → Before none w 0 len
Before-none none len h = tt
Before-none (some k) len h = inl (h k refl)

Before-self : (w : Option ℕ) (len : ℕ) → ((k : ℕ) → w ≡ some k → 0 < k) → Before w w 0 len
Before-self none len h = tt
Before-self (some k) len h = (h k refl, inl (refl, h k refl), mod_self k)

module _ (c : Conf) (n steps : ℕ) (v : IsConf c n steps) where
  first_window : (len : ℕ) → Before (fair_window c) c.window 0 len
  first_window len = elim (fair_cases c) [
    | inl e ↦ subst (λ z. Before z c.window 0 len) (sym e) (Before-none c.window len v.some_window)
    | inr e ↦ subst (λ z. Before z c.window 0 len) (sym e) (Before-self c.window len v.some_window)
  ]

  pub start-Idle :
      (q : List Request) (st : List State)
      → IsQueue c (start c q st)
      → Idle c n (length q) (start c q st)
  start-Idle q st k = record {
    queue = k;
    turns = IsAngle-zero c.rotate_speed (360 * c.unit) n v.circle v.some_full;
    window = first_window (length q);
    late_in = omega arith;
    late_left = inr (refl, omega arith);
    sums = refl;
    at_track = refl;
    not_done = refl;
  }

  -- the loop, after the first request was chosen
  loop-Ended :
      (n0 fuel : ℕ) (d : Disk)
      → 0 < n0
      → Idle c n n0 d
      → d.timer ≡ 0
      → d.count ≡ 0
      → all_requests c n0 * most n steps ≤ fuel
      → Returns
          (Ended c n0 (all_requests c n0 * most n steps))
          (get_next_io c d >>= animate_all fuel c)
  loop-Ended n0 fuel d pos i t z le =
      Returns-bind (Follows c n steps n0 d) (Ended c n0 (all_requests c n0 * most n steps))
        (get_next_io c d) (animate_all fuel c) (get_next_io-Follows c n steps n0 v d i pos)
        (λ d' f. elim f [
          | inl (same, all) ↦ absurd (omega (arith, all, pos, z))
          | inr k ↦
              let small : k.left < (all_requests c n0 - d.count) * most n steps =
                Continues-small c n steps n0 d d' (record {
                  left = k.left;
                  serving = k.serving;
                  timer = k.kept.timer;
                  count = k.kept.count;
                }) in
              let small' : k.left < all_requests c n0 * most n steps =
                subst (λ y. k.left < y * most n steps) (from_none d.count z) small in
              Returns-map (Ended c n0 (d'.timer + k.left + 1))
                (Ended c n0 (all_requests c n0 * most n steps)) (animate_all fuel c d')
                (animate_all-Ended c n steps n0 v pos fuel d' k.left k.serving (omega arith))
                (λ o (e, same, over, bound). (e, same, over, omega (arith, k.kept.timer, t)))
        ])
    where
      from_none : (k : ℕ) → k ≡ 0 → all_requests c n0 - k ≡ all_requests c n0
      from_none k h = omega (arith, h)

  -- `Go` on at least one request, all for blocks of the layout, under each of the four policies: it
  -- raises nothing, and with 2 * `steps` + 2 * `n` + 3 ticks of fuel for each request, the late ones too, the loop
  -- ends within these ticks. Every request is done then, the late ones too, and the times of seeking,
  -- rotating and transferring add up to the time of the run.
  pub go-Ended :
      (requests : List ℕ) (fuel : ℕ)
      → ((i b : ℕ)
          → get_elem? requests i ≡ some b
          → (x : Block) × (get_elem? c.layout.blocks b ≡ some x))
      → 0 < length requests
      → all_requests c (length requests) * most n steps ≤ fuel
      → (d : Disk) × (go fuel c requests ≡ ok (some d))
        × Over c (length requests) d
        × (d.timer ≤ all_requests c (length requests) * most n steps)
  unfolding go
  go-Ended requests fuel known pos le =
      let (q, st, e, k, len) = add_all_lem c requests [] [] (empty_IsQueue c) known in
      let idle = subst (λ z. Idle c n z (start c q st)) (omega (arith, len)) (start-Idle q st k) in
      let ended = loop-Ended (length requests) fuel (start c q st) pos idle refl refl le in
      ended_at (go fuel c requests) (
        subst
          (λ z.
            Returns (Ended c (length requests) (all_requests c (length requests) * most n steps))
              (get_next_io c z >>= animate_all fuel c))
          (sym e) ended)
    where
      ended_at :
          (m : Result (Option Disk))
          → Returns (Ended c (length requests) (all_requests c (length requests) * most n steps)) m
          → (d : Disk) × (m ≡ ok (some d))
            × Over c (length requests) d
            × (d.timer ≤ all_requests c (length requests) * most n steps)
      ended_at (ok o) (d, same, over, bound) = (d, ap ok same, over, bound)
      ended_at (raise f) h = absurd h
