-- ===== src/Disk/Finish.antt =====
-- Go of 37-Hard_Disk_Drivers/disk.py: the loop of ticks ends.
use os_tep.Prelude.{
  length-append, ℕ, zero, suc, ◌+◌, ◌≤◌, ◌<◌, ◌≡◌, refl, sym, ap, ◌∙◌, inl, inr, true, false,
  Option, some, List, [], ◌∷◌, ◌++◌, arith, length, get_elem?,
}
use mathlib.Core.Path.{subst}
use os_tep.Prelude.Fault.{ok, ◌>>=◌, Returns, Returns-map, Returns-bind}
use os_tep.Disk.{State, state_null, number, Block, Conf, Request, Disk}
use os_tep.Disk.Policies.{add_queue_entry}
use os_tep.Disk.Animate.{animate, animate_all, add_all, empty_disk}
use os_tep.Disk.Serves.{IsConf, IsQueue}
use os_tep.Disk.Phase.{Serving, Over}
use os_tep.Disk.Late.{IsQueue-with_entry}
use os_tep.Disk.Complete.{Ticked}
use os_tep.Disk.Tick.{turned_on, animate-Ticked}

-- the loop has ended, with a disk that has served all requests
abbrev pub Ended : Conf → ℕ → ℕ → Option Disk → Type 0
Ended c n0 bound o = (d : Disk) × (o ≡ some d) × Over c n0 d × (d.timer ≤ bound)

animate_all_over :
    (fuel : ℕ) (c : Conf) (d : Disk) → d.is_done ≡ true → animate_all fuel c d ≡ ok (some d)
unfolding animate_all
animate_all_over zero c d h = rw h refl
animate_all_over (suc fuel) c d h = rw h refl

animate_all_more :
    (fuel : ℕ) (c : Conf) (d : Disk)
    → d.is_done ≡ false
    → animate_all (suc fuel) c d ≡ (animate c d >>= animate_all fuel c)
unfolding animate_all
animate_all_more fuel c d h = rw h refl

module _ (c : Conf) (n steps n0 : ℕ) (v : IsConf c n steps) (pos : 0 < n0) where
  -- As many ticks as are left at most are enough.
  pub animate_all-Ended :
      (fuel : ℕ) (d : Disk) (w : ℕ)
      → Serving c n steps n0 d w
      → w < fuel
      → Returns (Ended c n0 (d.timer + w + 1)) (animate_all fuel c d)
  animate_all-Ended zero d w s h = absurd (omega arith)
  animate_all-Ended (suc fuel) d w s h =
      subst (Returns (Ended c n0 (d.timer + w + 1))) (sym (animate_all_more fuel c d s.not_done)) (
        Returns-bind (Ticked c n steps n0 w (turned_on c d)) (Ended c n0 (d.timer + w + 1))
          (animate c d) (animate_all fuel c) (animate-Ticked c n steps n0 v pos d w s)
          (λ d' (t, k). elim k [
            | inl o ↦
                subst (Returns (Ended c n0 (d.timer + w + 1)))
                  (sym (animate_all_over fuel c d' o.is_over)) (d', refl, o, omega (arith, t))
            | inr (w', s', lt) ↦
                Returns-map (Ended c n0 (d'.timer + w' + 1)) (Ended c n0 (d.timer + w + 1))
                  (animate_all fuel c d') (animate_all-Ended fuel d' w' s' (omega arith))
                  (λ o (e, same, over, le). (e, same, over, omega (arith, t, le, lt)))
          ]))

-- the disk at the start, with this queue
abbrev pub start : Conf → List Request → List State → Disk
start c queue states = record (empty_disk c) { queue = queue; states = states }

pub empty_IsQueue : (c : Conf) → IsQueue c (start c [] [])
empty_IsQueue c = record {
  lens = refl;
  indexed = λ i r e. absurd (cc e);
  counted = refl;
  in_order = λ p i st e. absurd (cc e);
  arm = omega arith;
}

-- Requests are added with their indices.
pub add_all_lem :
    (c : Conf) (bs : List ℕ) (queue : List Request) (states : List State)
    → IsQueue c (start c queue states)
    → ((i b : ℕ) → get_elem? bs i ≡ some b → (x : Block) × (get_elem? c.layout.blocks b ≡ some x))
    → (q : List Request) × (st : List State) × (add_all bs (length queue) (start c queue states)
        ≡ start c q st)
      × IsQueue c (start c q st)
      × (length q ≡ length queue + length bs)
unfolding add_all add_queue_entry
add_all_lem c [] queue states k h = (queue, states, refl, k, omega arith)
add_all_lem c (b ∷ bs) queue states k h =
    let (x, at) = h 0 b refl in
    let entry : Request = record { block = number b; index = length queue } in
    let k' = IsQueue-with_entry c (start c queue states) k (number b) (b, x, refl, at) in
    let (q, st, e, k'', len) =
      add_all_lem c bs (queue ++ entry ∷ []) (states ++ state_null ∷ [])
        (record {
          lens = k'.lens;
          indexed = k'.indexed;
          counted = k'.counted;
          in_order = k'.in_order;
          arm = k'.arm;
        })
        (λ i b' e'. h (suc i) b' e') in
    let next = length-append queue (entry ∷ []) in
    (
      q,
      st,
      ap (λ z. add_all bs z (start c (queue ++ entry ∷ []) (states ++ state_null ∷ []))) (sym next)
          ∙ e,
      k'',
      omega (arith, len, next),
    )
