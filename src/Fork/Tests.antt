-- ===== src/Fork/Tests.antt =====
-- Runs of cpu_api/fork.py at small inputs.
use os_tep.Prelude.{◌≡◌, refl, ap, ◌≢◌, Bool, true, false, Option, none, some, List, [], ◌∷◌, arith}
use os_tep.Prelude.Fault.{ok, raise, exited, Result, Returns}
use os_tep.Fork.{
  Namer, first_names, get_name, same_name, has, Name, root_name, Forker, init, do_fork, check_legal,
  Options, exit_action, run,
}
use os_tep.Fork.Lists.{has_new, has_head}
use os_tep.Fork.Names.{IsNew, get_name-IsNew, first_names-Gives}
use os_tep.Fork.Tree.{Linked, init-Linked}
use os_tep.Fork.Linked.{forked, forked-Linked, Forks, do_fork-Linked}
use os_tep.Fork.Leaves.{Leaves, exit_action-Leaves}

abbrev b : Name
b = 98 ∷ []

abbrev c : Name
c = 99 ∷ []

abbrev options : Bool → Bool → Options
options leaf_only local_reparent = record {
  leaf_only = leaf_only;
  local_reparent = local_reparent;
  depth = 10;
}

-- the processes, and the children of one of them
abbrev shown : Name → Result Forker → List Name × Option (Option (List Name))
shown p (ok f) = (f.process_list, f.children p)
shown p (raise e) = ([], none)

-- the root adopts the child of a process that exits
adopted_test :
    shown root_name (
      run
        (options false false)
        ((97 ∷ 43 ∷ 98 ∷ []) ∷ (98 ∷ 43 ∷ 99 ∷ []) ∷ (98 ∷ 45 ∷ []) ∷ [])
        init)
    ≡ (root_name ∷ c ∷ [], some (some (c ∷ [])))
unfolding run
adopted_test = refl

-- what follows the minus sign is not looked at
extra_test : check_legal (98 ∷ 45 ∷ 99 ∷ []) ≡ ok (b ∷ [])
unfolding check_legal
extra_test = refl

root_test : exit_action (options false true) root_name init ≡ raise exited
unfolding exit_action
root_test = refl

b_absent : has b init.process_list ≡ false
unfolding has
b_absent = refl

b_root : b ≢ root_name
b_root e = let h : true ≡ false = ap (same_name b) e in cc h

get_name-IsNew_example :
    (r : Name × Namer) × (get_name first_names ≡ ok r) × IsNew (root_name ∷ []) r
get_name-IsNew_example = get_name-IsNew (root_name ∷ []) first_names first_names-Gives

-- the root with one child
abbrev two : Forker
two = forked root_name b [] init

two-Linked : Linked two
two-Linked = forked-Linked init init-Linked root_name b [] (has_head root_name []) b_absent refl

do_fork-Linked_example : Returns (Forks root_name b init) (do_fork root_name b init)
do_fork-Linked_example =
    do_fork-Linked init root_name b init-Linked (has_head root_name []) b_absent

exit_action-Leaves_example : Returns (Leaves b two) (exit_action (options true false) b two)
exit_action-Leaves_example =
    exit_action-Leaves (options true false) two b refl (omega arith) two-Linked
      (has_new (root_name ∷ []) b) b_root
