-- ===== src/Fork/Linked.antt =====
-- A fork in the tree of processes of cpu_api/fork.py.
use os_tep.Prelude.{
  ◌≡◌, refl, sym, ap, ◌∙◌, ◌≢◌, inl, inr, false, Option, some, List, [], ◌∷◌, ◌++◌, Bool-cases,
}
use mathlib.Core.Path.{subst}
use os_tep.Prelude.Fault.{Returns, ok, attribute_error}
use os_tep.Fork.{Name, root_name, Forker, put, set_children, append_child, do_fork, has}
use os_tep.Fork.Lists.{
  name-cases, put_self, put_other, In, In-empty, Apart, In-append, has_old, has_new, Apart-append,
}
use os_tep.Fork.Tree.{Linked, get_children_lem}

append_child_lem :
    (p c : Name) (f : Forker) (cs : List Name)
    → f.children p ≡ some (some cs)
    → append_child p c f ≡ ok (set_children p (cs ++ c ∷ []) f)
unfolding append_child
append_child_lem p c f cs e = rw (get_children_lem attribute_error p f cs e) refl

-- the tree after a fork
abbrev pub forked : Name → Name → List Name → Forker → Forker
forked p c cs f = record {
  process_list = f.process_list ++ c ∷ [];
  children = put p (some (some (cs ++ c ∷ []))) (put c (some (some [])) f.children);
  parents = put c (some (some p)) f.parents;
}

pub do_fork_run :
    (p c : Name) (f : Forker) (cs : List Name)
    → p ≢ c
    → f.children p ≡ some (some cs)
    → do_fork p c f ≡ ok (forked p c cs f)
unfolding do_fork
do_fork_run p c f cs ne e =
    let f1 : Forker = set_children c [] (record f { process_list = f.process_list ++ c ∷ [] }) in
    let e1 : f1.children p ≡ some (some cs) = put_other c (some (some [])) f.children p ne ∙ e in
    rw (append_child_lem p c f1 cs e1) refl

-- What a fork gives: a tree again, with the new process below its parent.
abbrev pub Forks : Name → Name → Forker → Forker → Type 0
Forks p c f f' =
    Linked f' × (f'.process_list ≡ f.process_list ++ c ∷ []) × (f'.parents c ≡ some (some p))

module _ (f : Forker) (v : Linked f) (p c : Name) (cs : List Name) (there : In p f.process_list)
    (new : has c f.process_list ≡ false) (kids : f.children p ≡ some (some cs)) where
  old_not_new : (q : Name) → In q f.process_list → q ≢ c
  old_not_new q h e = cc (sym h ∙ ap (λ z. has z f.process_list) e ∙ new)

  abbrev children' : Name → Option (Option (List Name))
  children' = (forked p c cs f).children

  abbrev parents' : Name → Option (Option Name)
  parents' = (forked p c cs f).parents

  children_parent : (q : Name) → q ≡ p → children' q ≡ some (some (cs ++ c ∷ []))
  children_parent = put_self p (some (some (cs ++ c ∷ []))) (put c (some (some [])) f.children)

  children_new : children' c ≡ some (some [])
  children_new =
      put_other p (some (some (cs ++ c ∷ []))) (put c (some (some [])) f.children) c
        (λ e. old_not_new p there (sym e))
      ∙ put_self c (some (some [])) f.children c refl

  children_other : (q : Name) → q ≢ p → q ≢ c → children' q ≡ f.children q
  children_other q ne ne' =
      put_other p (some (some (cs ++ c ∷ []))) (put c (some (some [])) f.children) q ne
      ∙ put_other c (some (some [])) f.children q ne'

  parents_other : (q : Name) → In q f.process_list → parents' q ≡ f.parents q
  parents_other q h = put_other c (some (some p)) f.parents q (old_not_new q h)

  parents_new : parents' c ≡ some (some p)
  parents_new = put_self c (some (some p)) f.parents c refl

  same_list : {xs ys : List Name} → some (some xs) ≡ some (some ys) → xs ≡ ys
  same_list e = cc

  forked_kids :
      (q : Name)
      → In q (f.process_list ++ c ∷ [])
      → (ds : List Name) × (children' q ≡ some (some ds))
  forked_kids q h = elim (name-cases q p) [
    | inl e ↦ (cs ++ c ∷ [], children_parent q e)
    | inr ne ↦ elim (In-append q f.process_list c h) [
      | inl old ↦ let (ds, e) = v.kids q old in (ds, children_other q ne (old_not_new q old) ∙ e)
      | inr e ↦ ([], ap children' e ∙ children_new)
    ]
  ]

  forked_apart :
      (q : Name) (ds : List Name)
      → In q (f.process_list ++ c ∷ [])
      → children' q ≡ some (some ds)
      → Apart ds
  forked_apart q ds h e = elim (name-cases q p) [
    | inl qp ↦
        subst Apart (same_list (sym (children_parent q qp) ∙ e))
          (Apart-append cs c (v.kids_apart p cs there kids) c_new)
    | inr ne ↦ elim (In-append q f.process_list c h) [
      | inl old ↦ v.kids_apart q ds old (sym (children_other q ne (old_not_new q old)) ∙ e)
      | inr qc ↦ subst Apart (same_list (sym (ap children' qc ∙ children_new) ∙ e)) tt
    ]
  ]
    where
      c_new : has c cs ≡ false
      c_new = elim (Bool-cases (has c cs)) [
        | inr k ↦ k
        | inl k ↦ absurd (cc (sym (v.below p c cs there kids k).0 ∙ new))
      ]

  forked_below :
      (q d : Name) (ds : List Name)
      → In q (f.process_list ++ c ∷ [])
      → children' q ≡ some (some ds)
      → In d ds
      → In d (f.process_list ++ c ∷ []) × (parents' d ≡ some (some q))
  forked_below q d ds h e k = elim (name-cases q p) [
    | inl qp ↦
        let same = same_list (sym e ∙ children_parent q qp) in
        elim (In-append d cs c (subst (In d) same k)) [
          | inl old ↦
              let (i, par) = v.below p d cs there kids old in
              (
                has_old d f.process_list c i,
                parents_other d i ∙ par ∙ ap (λ z. some (some z)) (sym qp),
              )
          | inr dc ↦ (
            subst (λ z. In z (f.process_list ++ c ∷ [])) (sym dc) (has_new f.process_list c),
            ap parents' dc ∙ parents_new ∙ ap (λ z. some (some z)) (sym qp),
          )
        ]
    | inr ne ↦ elim (In-append q f.process_list c h) [
      | inl old ↦
          let (i, par) = v.below q d ds old (sym (children_other q ne (old_not_new q old)) ∙ e) k in
          (has_old d f.process_list c i, parents_other d i ∙ par)
      | inr qc ↦
          let none_there = same_list (sym e ∙ ap children' qc ∙ children_new) in
          absurd (In-empty d (subst (In d) none_there k))
    ]
  ]

  forked_above :
      (d : Name)
      → In d (f.process_list ++ c ∷ [])
      → d ≢ root_name
      → (q : Name) × (ds : List Name) × In q (f.process_list ++ c ∷ [])
        × (parents' d ≡ some (some q))
        × (children' q ≡ some (some ds))
        × In d ds
  forked_above d h ne = elim (In-append d f.process_list c h) [
    | inl old ↦
        let (q, ds, i, par, below, k) = v.above d old ne in
        elim (name-cases q p) [
          | inl qp ↦
              let same = same_list (sym below ∙ ap f.children qp ∙ kids) in
              (
                q,
                cs ++ c ∷ [],
                has_old q f.process_list c i,
                parents_other d old ∙ par,
                children_parent q qp,
                has_old d cs c (subst (In d) same k),
              )
          | inr other ↦ (
            q,
            ds,
            has_old q f.process_list c i,
            parents_other d old ∙ par,
            children_other q other (old_not_new q i) ∙ below,
            k,
          )
        ]
    | inr dc ↦ (
      p,
      cs ++ c ∷ [],
      has_old p f.process_list c there,
      ap parents' dc ∙ parents_new,
      children_parent p refl,
      subst (λ z. In z (cs ++ c ∷ [])) (sym dc) (has_new cs c),
    )
  ]

  pub forked-Linked : Linked (forked p c cs f)
  forked-Linked = record {
    apart = Apart-append f.process_list c v.apart new;
    kids_apart = forked_apart;
    has_root = has_old root_name f.process_list c v.has_root;
    kids = forked_kids;
    below = forked_below;
    above = forked_above;
  }

-- A process of a tree of processes can fork a process with a new name: no exception is raised, the
-- process list has the new process at its end, its parent is the process that forked, and `children`
-- and `parents` agree again, with every process but the root below its parent.
pub do_fork-Linked :
    (f : Forker) (p c : Name)
    → Linked f
    → In p f.process_list
    → has c f.process_list ≡ false
    → Returns (Forks p c f) (do_fork p c f)
do_fork-Linked f p c v there new =
    let (cs, kids) = v.kids p there in
    rw (do_fork_run p c f cs (old_not_new f v p c cs there new kids p there) kids)
      (forked-Linked f v p c cs there new kids, refl, put_self c (some (some p)) f.parents c refl)
