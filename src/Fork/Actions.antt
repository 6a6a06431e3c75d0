-- ===== src/Fork/Actions.antt =====
-- The spelling of actions in cpu_api/fork.py.
use os_tep.Prelude.{ℕ, ◌≡◌, refl, ◌∙◌, true, false, ◌||◌, [], ◌∷◌, ◌++◌, arith, ◌==◌}
use os_tep.Prelude.Fault.{ok}
use os_tep.Fork.{Name, plus, minus, has_char, split, both_parts, first_part, check_legal}

abbrev pub Lacks : ℕ → Name → Type 0
Lacks c name = has_char c name ≡ false

has_char-append :
    (c : ℕ) (p : Name) (d : ℕ) (q : Name)
    → has_char c (p ++ d ∷ q) ≡ (has_char c p || (d == c || has_char c q))
has_char-append c [] d q = refl
has_char-append c (e ∷ p) d q = ground (arith, has_char-append c p d q)

split_alone : (sep : ℕ) (p : Name) → Lacks sep p → split sep p ≡ p ∷ []
unfolding split
split_alone sep [] h = refl
split_alone sep (c ∷ p) h =
    let not_sep : (c == sep) ≡ false = ground arith in
    rw (not_sep, split_alone sep p (ground arith)) refl

split_two :
    (sep : ℕ) (p q : Name) → Lacks sep p → Lacks sep q → split sep (p ++ sep ∷ q) ≡ p ∷ q ∷ []
unfolding split
split_two sep [] q h k =
    let same : (sep == sep) ≡ true = ground arith in rw (same, split_alone sep q k) refl
split_two sep (c ∷ p) q h k =
    let not_sep : (c == sep) ≡ false = ground arith in
    rw (not_sep, split_two sep p q (ground arith) k) refl

-- An action as `run` writes it is read back by `check_legal`: for names without the two signs, the
-- action of a fork gives the two processes, and the action of an exit gives the one.
pub check_legal_lem :
    (p c : Name)
    → Lacks plus p
    → Lacks minus p
    → Lacks plus c
    → (check_legal (p ++ plus ∷ c) ≡ ok (p ∷ c ∷ []))
      × (check_legal (p ++ minus ∷ []) ≡ ok (p ∷ []))
unfolding check_legal both_parts first_part
check_legal_lem p c h k l =
    let one : has_char plus (p ++ plus ∷ c) ≡ true =
      has_char-append plus p plus c ∙ ground (arith, h) in
    let no_plus : has_char plus (p ++ minus ∷ []) ≡ false =
      has_char-append plus p minus [] ∙ ground (arith, h) in
    let one_minus : has_char minus (p ++ minus ∷ []) ≡ true =
      has_char-append minus p minus [] ∙ ground (arith, k) in
    (
      rw (one, split_two plus p c h l) refl,
      rw (no_plus, one_minus, split_two minus p [] k refl) refl,
    )
