-- ===== src/Fork/Leaves.antt =====
-- The exit of a process without children in cpu_api/fork.py, and the option -L.
use os_tep.Prelude.{
  ℕ, suc, ◌-◌, ◌<◌, ◌≡◌, refl, sym, ap, ◌∙◌, ◌≢◌, ◌↔◌, ◌⊎◌, inl, inr, Bool, true, false, Option,
  none, some, List, [], ◌∷◌, arith, ltb, if◌then◌else◌, Bool-cases, length,
}
use mathlib.Core.Path.{subst}
use os_tep.Prelude.Fault.{Returns, ok, type_error, attribute_error}
use os_tep.Fork.{
  Name, root_name, Forker, put, get_parent, reparent, do_exit, remove, has, Options, exit_action,
}
use os_tep.Fork.Lists.{
  same_name_refl, same_name_ne, name-cases, put_self, put_other, In, In-empty, Apart, Rest,
  remove-Rest,
}
use os_tep.Fork.Tree.{Linked, get_children_lem}

get_parent_lem : (p q : Name) (f : Forker) → f.parents p ≡ some (some q) → get_parent p f ≡ ok q
unfolding get_parent
get_parent_lem p q f e = rw (e, get_parent)

reparent-true :
    (depth : ℕ) (p q : Name) (f : Forker)
    → f.children p ≡ some (some [])
    → reparent depth true p q f ≡ ok f
unfolding reparent
reparent-true depth p q f e = rw (get_children_lem type_error p f [] e) refl

reparent-false :
    (depth : ℕ) (p q : Name) (f : Forker)
    → f.children p ≡ some (some [])
    → reparent (suc depth) false p q f ≡ ok f
unfolding reparent
reparent-false depth p q f e = rw (get_children_lem type_error p f [] e, same_name_refl p) refl

-- nothing is adopted
reparent_leaf :
    (depth : ℕ) (b : Bool) (p q : Name) (f : Forker)
    → f.children p ≡ some (some [])
    → reparent (suc depth) b p q f ≡ ok f
reparent_leaf depth true p q f e = reparent-true (suc depth) p q f e
reparent_leaf depth false p q f e = reparent-false depth p q f e

-- the tree without a leaf
abbrev gone : Name → Name → List Name → List Name → Forker → Forker
gone p q l cs f = record {
  process_list = l;
  children = put p (some none) (put q (some (some cs)) f.children);
  parents = put p (some none) f.parents;
}

do_exit_leaf :
    (depth : ℕ) (b : Bool) (p q : Name) (f : Forker) (l cs cs' : List Name)
    → p ≢ root_name
    → f.parents p ≡ some (some q)
    → f.children p ≡ some (some [])
    → f.children q ≡ some (some cs)
    → remove p f.process_list ≡ ok l
    → remove p cs ≡ ok cs'
    → do_exit (suc depth) b p f ≡ ok (gone p q l cs' f)
unfolding do_exit
do_exit_leaf depth b p q f l cs cs' ne par leaf kids e e' =
    let f1 : Forker = record f { process_list = l } in
    rw
      (
        same_name_ne p root_name ne,
        get_parent_lem p q f par,
        e,
        reparent_leaf depth b p q f1 leaf,
        get_children_lem attribute_error q f1 cs kids,
        e',
      )
      refl

module _ (f : Forker) (v : Linked f) (p q : Name) (l cs cs' : List Name) (ne : p ≢ root_name)
    (there : In p f.process_list) (in_q : In q f.process_list) (q_p : q ≢ p)
    (leaf : f.children p ≡ some (some [])) (kids : f.children q ≡ some (some cs))
    (r : Rest p f.process_list l) (r' : Rest p cs cs') (par : f.parents p ≡ some (some q)) where
  abbrev children' : Name → Option (Option (List Name))
  children' = (gone p q l cs' f).children

  abbrev parents' : Name → Option (Option Name)
  parents' = (gone p q l cs' f).parents

  children_q : (x : Name) → x ≡ q → children' x ≡ some (some cs')
  children_q x e =
      put_other p (some none) (put q (some (some cs')) f.children) x (λ k. q_p (sym e ∙ k))
      ∙ put_self q (some (some cs')) f.children x e

  children_other : (x : Name) → x ≢ q → x ≢ p → children' x ≡ f.children x
  children_other x n n' =
      put_other p (some none) (put q (some (some cs')) f.children) x n'
      ∙ put_other q (some (some cs')) f.children x n

  parents_other : (x : Name) → x ≢ p → parents' x ≡ f.parents x
  parents_other x n = put_other p (some none) f.parents x n

  same_list : {xs ys : List Name} → some (some xs) ≡ some (some ys) → xs ≡ ys
  same_list e = cc

  same_parent : {x y : Name} → some (some x) ≡ some (some y) → x ≡ y
  same_parent e = cc

  gone_below :
      (x d : Name) (ds : List Name)
      → In x l
      → children' x ≡ some (some ds)
      → In d ds
      → In d l × (parents' d ≡ some (some x))
  gone_below x d ds i e k = elim (name-cases x q) [
    | inl xq ↦
        let (old, n) = r'.old d (subst (In d) (same_list (sym e ∙ children_q x xq)) k) in
        let (j, pd) = v.below q d cs in_q kids old in
        (r.kept d j n, parents_other d n ∙ pd ∙ ap (λ z. some (some z)) (sym xq))
    | inr n ↦
        let (ix, nx) = r.old x i in
        let (j, pd) = v.below x d ds ix (sym (children_other x n nx) ∙ e) k in
        let np : d ≢ p = λ dp. n (same_parent (sym pd ∙ ap f.parents dp ∙ par)) in
        (r.kept d j np, parents_other d np ∙ pd)
  ]

  gone_above :
      (d : Name)
      → In d l
      → d ≢ root_name
      → (x : Name) × (ds : List Name) × In x l
        × (parents' d ≡ some (some x))
        × (children' x ≡ some (some ds))
        × In d ds
  gone_above d i nr =
      let (j, nd) = r.old d i in
      let (x, ds, ix, pd, kx, k) = v.above d j nr in
      let nx : x ≢ p =
        λ e. In-empty d (subst (In d) (same_list (sym kx ∙ ap f.children e ∙ leaf)) k) in
      elim (name-cases x q) [
        | inl xq ↦
            let k' = subst (In d) (same_list (sym kx ∙ ap f.children xq ∙ kids)) k in
            (x, cs', r.kept x ix nx, parents_other d nd ∙ pd, children_q x xq, r'.kept d k' nd)
        | inr n ↦ (x, ds, r.kept x ix nx, parents_other d nd ∙ pd, children_other x n nx ∙ kx, k)
      ]

  gone-Linked : Linked (gone p q l cs' f)
  gone-Linked = record {
    apart = r.apart;
    kids_apart = λ x ds i e. elim (name-cases x q) [
      | inl xq ↦ subst Apart (same_list (sym (children_q x xq) ∙ e)) r'.apart
      | inr n ↦ let (ix, nx) = r.old x i in v.kids_apart x ds ix (sym (children_other x n nx) ∙ e)
    ];
    has_root = r.kept root_name v.has_root (λ e. ne (sym e));
    kids = λ x i. elim (name-cases x q) [
      | inl xq ↦ (cs', children_q x xq)
      | inr n ↦
          let (ix, nx) = r.old x i in let (ds, e) = v.kids x ix in (ds, children_other x n nx ∙ e)
    ];
    below = gone_below;
    above = gone_above;
  }

-- What an exit with -L gives: nothing has changed for a process with children; one without children
-- is gone from the process list, and no other.
abbrev pub Leaves : Name → Forker → Forker → Type 0
Leaves p f f' =
    Linked f'
    × (((f.children p ≢ some (some [])) × (f' ≡ f))
        ⊎ ((f.children p ≡ some (some []))
            × (has p f'.process_list ≡ false)
            × ((x : Name) → x ≢ p → In x f.process_list ↔ In x f'.process_list)))

exit-Leaves :
    (depth : ℕ) (b : Bool) (f : Forker) (p : Name)
    → Linked f
    → In p f.process_list
    → p ≢ root_name
    → f.children p ≡ some (some [])
    → Returns (Leaves p f) (do_exit (suc depth) b p f)
exit-Leaves depth b f p v there ne leaf =
    let (q, cs, in_q, par, kids, k) = v.above p there ne in
    let q_p : q ≢ p =
      λ e. In-empty p (subst (In p) (some_list (sym kids ∙ ap f.children e ∙ leaf)) k) in
    let (l, e, r) = remove-Rest p f.process_list v.apart there in
    let (cs', e', r') = remove-Rest p cs (v.kids_apart q cs in_q kids) k in
    rw (do_exit_leaf depth b p q f l cs cs' ne par leaf kids e e') (
      gone-Linked f v p q l cs cs' ne there in_q q_p leaf kids r r' par,
      inr (leaf, out l r, same l r),
    )
  where
    some_list : {xs ys : List Name} → some (some xs) ≡ some (some ys) → xs ≡ ys
    some_list e = cc

    same :
        (l : List Name)
        → Rest p f.process_list l
        → (x : Name) → x ≢ p
        → In x f.process_list ↔ In x l
    same l r x n = (λ i. r.kept x i n, λ i. (r.old x i).0)

    out : (l : List Name) → Rest p f.process_list l → has p l ≡ false
    out l r = elim (Bool-cases (has p l)) [ inr h ↦ h | inl h ↦ absurd ((r.old p h).1 refl) ]

exit_action_lem :
    (o : Options) (p : Name) (f : Forker) (cs : List Name)
    → o.leaf_only ≡ true
    → In p f.process_list
    → f.children p ≡ some (some cs)
    → exit_action o p f ≡ (if ltb 0 (length cs) then ok f else do_exit o.depth o.local_reparent p f)
unfolding exit_action
exit_action_lem o p f cs h i e = rw (i, h, get_children_lem type_error p f cs e) refl

-- With the option -L, the exit of a process other than the root raises no exception and keeps the
-- tree: `children` and `parents` agree afterwards. A process without children is gone from the process
-- list, and no other is, whichever way of reparenting is chosen; for one that has children nothing
-- changes.
pub exit_action-Leaves :
    (o : Options) (f : Forker) (p : Name)
    → o.leaf_only ≡ true
    → 0 < o.depth
    → Linked f
    → In p f.process_list
    → p ≢ root_name
    → Returns (Leaves p f) (exit_action o p f)
exit_action-Leaves o f p h d v there ne = let (cs, kids) = v.kids p there in by_kids cs kids
  where
    deep : o.depth ≡ suc (o.depth - 1)
    deep = omega arith

    by_kids :
        (cs : List Name) → f.children p ≡ some (some cs) → Returns (Leaves p f) (exit_action o p f)
    by_kids [] kids = rw (exit_action_lem o p f [] h there kids) (
        subst (λ n. Returns (Leaves p f) (do_exit n o.local_reparent p f)) (sym deep)
          (exit-Leaves (o.depth - 1) o.local_reparent f p v there ne kids))
    by_kids (c ∷ cs) kids =
        let some_there : ltb 0 (length (c ∷ cs)) ≡ true = ground arith in
        rw (exit_action_lem o p f (c ∷ cs) h there kids, some_there)
          (v, inl (λ e. cc (sym kids ∙ e), refl))
