-- ===== src/Disk/Window.antt =====
-- The scheduling window of 37-Hard_Disk_Drivers/disk.py, and the choice of a request.
use os_tep.Prelude.{
  ℕ_discrete, ℕ, ◌+◌, ◌%◌, ◌≤◌, ◌<◌, ◌≡◌, refl, sym, ap, ◌∙◌, ◌⊎◌, inl, inr, false, ◌&&◌, Option,
  none, some, arith, ltb, ◌==◌, if◌then◌else◌, Bool-cases, length,
}
use mathlib.Core.Path.{subst}
use native.Mathlib.Nat.{add-mod_right}
use os_tep.Disk.{Conf, fair_window, Disk}
use os_tep.Disk.Policies.{update_window, moved_window, used_window, widened, get_window}

-- A window reaches beyond the requests that are done; a fair one is a multiple of its width.
abbrev pub Reaches : Option ℕ → Option ℕ → ℕ → Type 0
Reaches fair none n = Unit
Reaches none (some w) n = n < w
Reaches (some f) (some w) n = (0 < f) × (n < w) × (w % f ≡ 0)

-- the window before a request is chosen, when `n` are done and the queue has length `len`
abbrev pub Before : Option ℕ → Option ℕ → ℕ → ℕ → Type 0
Before fair none n len = Unit
Before none (some w) n len = (n < w) ⊎ (len ≤ w)
Before (some f) (some w) n len = (0 < f) × (((n ≡ 0) × (0 < w)) ⊎ ((0 < n) × (n ≤ w))) × (w % f ≡ 0)

update_window_fair : (c : Conf) (d : Disk) (f : ℕ) → fair_window c ≡ some f → update_window c d ≡ d
unfolding update_window
update_window_fair c d f e = ap (λ z. moved_window z d.curr_window d) e

update_window-none :
    (c : Conf) (d : Disk) → fair_window c ≡ none → d.curr_window ≡ none → update_window c d ≡ d
unfolding update_window
update_window-none c d e h =
    ap (λ z. moved_window z d.curr_window d) e ∙ ap (λ z. moved_window none z d) h

update_window-some :
    (c : Conf) (d : Disk) (w : ℕ)
    → fair_window c ≡ none
    → d.curr_window ≡ some w
    → update_window c d
      ≡ (if ltb 0 w && ltb w (length d.queue) then record d { curr_window = some (w + 1) } else d)
unfolding update_window
update_window-some c d w e h =
    ap (λ z. moved_window z d.curr_window d) e ∙ ap (λ z. moved_window none z d) h

-- only the window changes
abbrev pub Windowed : Disk → Disk → Type 0
Windowed d d' = (w : Option ℕ) × (d' ≡ record d { curr_window = w })

pub update_window-Before :
    (c : Conf) (d : Disk) (n : ℕ)
    → Reaches (fair_window c) d.curr_window n
    → (w : Option ℕ) × (update_window c d ≡ record d { curr_window = w })
      × Before (fair_window c) w (n + 1) (length d.queue)
update_window-Before c d n r = by_fair (fair_window c) refl d.curr_window refl
  where
    by_fair :
        (fair : Option ℕ)
        → fair_window c ≡ fair
        → (cw : Option ℕ) → d.curr_window ≡ cw
        → (w : Option ℕ) × (update_window c d ≡ record d { curr_window = w })
          × Before (fair_window c) w (n + 1) (length d.queue)
    by_fair none e none h =
        (none, update_window-none c d e h ∙ ap (λ z. record d { curr_window = z }) h, tt)
    by_fair (some f) e none h =
        (none, update_window_fair c d f e ∙ ap (λ z. record d { curr_window = z }) h, tt)
    by_fair (some f) e (some w) h =
        let (pos, lt, m) =
          subst (λ z. Reaches z (some w) n) e (subst (λ z. Reaches (fair_window c) z n) h r) in
        (
          some w,
          update_window_fair c d f e ∙ ap (λ z. record d { curr_window = z }) h,
          subst (λ z. Before z (some w) (n + 1) (length d.queue)) (sym e)
              (pos, inr (omega arith, omega arith), m),
        )
    by_fair none e (some w) h =
        let lt =
          subst (λ z. Reaches z (some w) n) e (subst (λ z. Reaches (fair_window c) z n) h r) in
        elim (Bool-cases (ltb 0 w && ltb w (length d.queue))) [
          | inl t ↦ (
            some (w + 1),
            update_window-some c d w e h ∙ rw t refl,
            subst (λ z. Before z (some (w + 1)) (n + 1) (length d.queue)) (sym e)
                (inl (omega arith)),
          )
          | inr f ↦ (
            some w,
            update_window-some c d w e h ∙ rw f (ap (λ z. record d { curr_window = z }) h),
            subst (λ z. Before z (some w) (n + 1) (length d.queue)) (sym e) (inr (ground arith)),
          )
        ]

get_window-none :
    (c : Conf) (d : Disk) → d.curr_window ≡ none → get_window c d ≡ (length d.queue, d)
unfolding get_window
get_window-none c d h = ap (λ z. used_window c (fair_window c) z d) h

get_window_plain :
    (c : Conf) (d : Disk) (w : ℕ)
    → d.curr_window ≡ some w
    → fair_window c ≡ none
    → get_window c d ≡ (w, d)
unfolding get_window
get_window_plain c d w h e =
    ap (λ z. used_window c (fair_window c) z d) h ∙ ap (λ z. used_window c z (some w) d) e

get_window_fair :
    (c : Conf) (d : Disk) (w f : ℕ)
    → d.curr_window ≡ some w
    → fair_window c ≡ some f
    → get_window c d ≡ (
        if ltb 0 d.count && d.count % f == 0
        then (widened c d (w + f), record d { curr_window = some (widened c d (w + f)) })
        else (w, d))
unfolding get_window
get_window_fair c d w f h e =
    ap (λ z. used_window c (fair_window c) z d) h ∙ ap (λ z. used_window c z (some w) d) e

-- The window that is used reaches a request that is not done.
pub get_window-Reaches :
    (c : Conf) (d : Disk)
    → c.precise ≡ false
    → d.count < length d.queue
    → Before (fair_window c) d.curr_window d.count (length d.queue)
    → (e : ℕ) × (w : Option ℕ) × (get_window c d ≡ (e, record d { curr_window = w }))
      × ((d.count < e) ⊎ (length d.queue ≤ e))
      × Reaches (fair_window c) w d.count
get_window-Reaches c d np lt b = by_window d.curr_window refl (fair_window c) refl
  where
    by_window :
        (cw : Option ℕ)
        → d.curr_window ≡ cw
        → (fair : Option ℕ) → fair_window c ≡ fair
        → (e : ℕ) × (w : Option ℕ) × (get_window c d ≡ (e, record d { curr_window = w }))
          × ((d.count < e) ⊎ (length d.queue ≤ e))
          × Reaches (fair_window c) w d.count
    by_window none h fair e = (
      length d.queue,
      none,
      get_window-none c d h ∙ ap (λ z. (length d.queue, record d { curr_window = z })) h,
      inl lt,
      tt,
    )
    by_window (some w) h none e =
        let b' =
          subst (λ z. Before z (some w) d.count (length d.queue)) e
            (subst (λ z. Before (fair_window c) z d.count (length d.queue)) h b) in
        (
          w,
          some w,
          get_window_plain c d w h e ∙ ap (λ z. (w, record d { curr_window = z })) h,
          b',
          subst (λ z. Reaches z (some w) d.count) (sym e)
              (elim b' [ inl k ↦ k | inr k ↦ omega arith ]),
        )
    by_window (some w) h (some f) e =
        let (pos, near, m) =
          subst (λ z. Before z (some w) d.count (length d.queue)) e
            (subst (λ z. Before (fair_window c) z d.count (length d.queue)) h b) in
        let wide : widened c d (w + f) ≡ w + f = rw np refl in
        elim (Bool-cases (ltb 0 d.count && d.count % f == 0)) [
          | inl t ↦
              let far : d.count < w + f = omega arith in
              (
                w + f,
                some (w + f),
                get_window_fair c d w f h e
                    ∙ rw t (ap (λ z. (z, record d { curr_window = some z })) wide),
                inl far,
                subst (λ z. Reaches z (some (w + f)) d.count) (sym e)
                    (pos, far, add-mod_right w f ∙ m),
              )
          | inr off ↦
              let far : d.count < w = beyond w f near m off in
              (
                w,
                some w,
                get_window_fair c d w f h e
                    ∙ rw off (ap (λ z. (w, record d { curr_window = z })) h),
                inl far,
                subst (λ z. Reaches z (some w) d.count) (sym e) (pos, far, m),
              )
        ]
      where
        beyond :
            (w f : ℕ)
            → ((d.count ≡ 0) × (0 < w)) ⊎ ((0 < d.count) × (d.count ≤ w))
            → w % f ≡ 0
            → (ltb 0 d.count && d.count % f == 0) ≡ false
            → d.count < w
        beyond w f (inl (z, k)) m off = omega arith
        beyond w f (inr (z, k)) m off = elim (ℕ_discrete d.count w) [
          | yes same ↦ absurd (apart (ap (λ x. x % f) same ∙ m))
          | no ne ↦ omega arith
        ]
          where
            apart : d.count % f ≡ 0 → ⊥
            apart h = ground arith
