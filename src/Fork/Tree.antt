-- ===== src/Fork/Tree.antt =====
-- The tree of processes of cpu_api/fork.py: what `children` and `parents` say of each other.
use os_tep.Prelude.{◌≡◌, sym, ◌∙◌, ◌≢◌, inl, inr, false, none, some, List, [], ◌∷◌, Bool-cases}
use mathlib.Core.Path.{subst}
use os_tep.Prelude.Fault.{Fault, ok}
use os_tep.Fork.{Name, root_name, Forker, init, get_children, has}
use os_tep.Fork.Lists.{put_self, In, In-empty, Apart, In-cons, has_head}

-- No process is listed twice. Every process has its list of children; the children of a process are processes, whose parent it
-- is; and every process but the root is a child of its parent, which is a process.
pub record Linked (f : Forker) : Type 0 where
  pub apart : Apart f.process_list
  pub kids_apart :
      (p : Name) (cs : List Name) → In p f.process_list → f.children p ≡ some (some cs) → Apart cs
  pub has_root : In root_name f.process_list
  pub kids : (p : Name) → In p f.process_list → (cs : List Name) × (f.children p ≡ some (some cs))
  pub below :
      (p c : Name) (cs : List Name)
      → In p f.process_list
      → f.children p ≡ some (some cs)
      → In c cs
      → In c f.process_list × (f.parents c ≡ some (some p))
  pub above :
      (c : Name)
      → In c f.process_list
      → c ≢ root_name
      → (p : Name) × (cs : List Name) × In p f.process_list
        × (f.parents c ≡ some (some p))
        × (f.children p ≡ some (some cs))
        × In c cs

pub get_children_lem :
    (e : Fault) (p : Name) (f : Forker) (cs : List Name)
    → f.children p ≡ some (some cs)
    → get_children e p f ≡ ok cs
unfolding get_children
get_children_lem e p f cs h = rw (h, get_children)

-- the tree of the root alone
pub init-Linked : Linked init
init-Linked = record {
  apart = (no_more, tt);
  kids_apart = λ p cs h e. subst Apart (same_list (sym (alone p h) ∙ e)) tt;
  has_root = has_head root_name [];
  kids = λ p h. ([], alone p h);
  below = λ p c cs h e k. absurd (In-empty c (subst (In c) (same_list (sym e ∙ alone p h)) k));
  above = λ c h ne. absurd (ne (is_root c h));
}
  where
    no_more : has root_name [] ≡ false
    no_more = elim (Bool-cases (has root_name [])) [
      | inl t ↦ absurd (In-empty root_name t)
      | inr f ↦ f
    ]

    is_root : (p : Name) → In p (root_name ∷ []) → p ≡ root_name
    is_root p h = elim (In-cons p root_name [] h) [ inl e ↦ e | inr k ↦ absurd (In-empty p k) ]

    alone : (p : Name) → In p (root_name ∷ []) → init.children p ≡ some (some [])
    alone p h = put_self root_name (some (some [])) (λ q. none) p (is_root p h)

    same_list : {xs ys : List Name} → some (some xs) ≡ some (some ys) → xs ≡ ys
    same_list e = cc
