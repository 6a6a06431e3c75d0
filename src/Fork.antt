-- ===== src/Fork.antt =====
-- cpu_api/fork.py: class Forker, a tree of processes that fork and exit. A name is the list of its
-- characters' codes. The printing of the tree is left out.
pub mod Actions
pub mod Lists
pub mod Extend
pub mod Names
pub mod Tree
pub mod Linked
pub mod Leaves
mod Tests
use os_tep.Prelude.{
  ℕ, zero, suc, ◌+◌, ◌-◌, ◌*◌, ◌/◌, ◌%◌, ◌≤◌, ◌<◌, ◌≡◌, refl, sym, ap, ◌∙◌, ◌≢◌, ◌↔◌, ◌⊎◌, inl, inr,
  Bool, true, false, not, ◌&&◌, ◌||◌, Option, none, some, List, [], ◌∷◌, ◌++◌, map, arith, ltb, leb,
  ◌==◌, if◌then◌else◌, Bool-cases, Option-cases, length, get_elem?, set, take, drop, replicate,
  get_or,
}
use os_tep.Prelude.Fault.{
  Fault, key_error, index_error, type_error, attribute_error, value_error, recursion_error, no_draw,
  exited, Result, ok, raise, ◌>>=◌,
}

abbrev pub Name : Type 0
Name = List ℕ

abbrev pub same_name : Name → Name → Bool
same_name [] [] = true
same_name [] (d ∷ ds) = false
same_name (c ∷ cs) [] = false
same_name (c ∷ cs) (d ∷ ds) = c == d && same_name cs ds

abbrev pub plus : ℕ
plus = 43

abbrev pub minus : ℕ
minus = 45

abbrev pub root_name : Name
root_name = 97 ∷ []

-- `string.ascii_lowercase + string.ascii_uppercase`
abbrev pub letters : ℕ → ℕ → List Name
letters zero c = []
letters (suc count) c = (c ∷ []) ∷ letters count (c + 1)

abbrev pub base_names : List Name
base_names = letters 26 97 ++ letters 26 65

-- `curr_names` and `curr_index`
pub record Namer : Type 0 where
  pub curr_names : List Name
  pub curr_index : ℕ

-- the first name is the root's
abbrev pub first_names : Namer
first_names = record { curr_names = base_names; curr_index = 1 }

pub extend : List Name → List Name → List Name
extend [] base = []
extend (b1 ∷ names) base = map (λ b2. b1 ++ b2) base ++ extend names base

pub grow_names : Namer → Namer
unfolding extend
grow_names n = record { curr_names = extend n.curr_names base_names; curr_index = 0 }

pub take_name : Namer → Result (Name × Namer)
take_name n = elim (get_elem? n.curr_names n.curr_index) [
  | none ↦ raise index_error
  | some name ↦ ok (name, record n { curr_index = n.curr_index + 1 })
]

pub get_name : Namer → Result (Name × Namer)
unfolding grow_names take_name
get_name n = take_name (if n.curr_index == length n.curr_names then grow_names n else n)

-- An entry of `children` or `parents` that is -1 is `some none`.
pub record Forker : Type 0 where
  pub process_list : List Name
  pub children : Name → Option (Option (List Name))
  pub parents : Name → Option (Option Name)

abbrev pub put {ℓ} : {A : Type ℓ} → Name → A → (Name → A) → Name → A
put p x d q = if same_name q p then x else d q

abbrev pub init : Forker
init = record {
  process_list = root_name ∷ [];
  children = put root_name (some (some [])) (λ p. none);
  parents = λ p. none;
}

-- the list of children, where -1 raises the exception given
pub get_children : Fault → Name → Forker → Result (List Name)
get_children e p f = elim (f.children p) [
  | none ↦ raise key_error
  | some none ↦ raise e
  | some (some cs) ↦ ok cs
]

abbrev pub set_children : Name → List Name → Forker → Forker
set_children p cs f = record f { children = put p (some (some cs)) f.children }

abbrev pub set_parent : Name → Name → Forker → Forker
set_parent p q f = record f { parents = put p (some (some q)) f.parents }

-- `self.children[p].append(c)`
pub append_child : Name → Name → Forker → Result Forker
unfolding get_children
append_child p c f = do cs ← get_children attribute_error p f; ok (set_children p (cs ++ c ∷ []) f)

pub do_fork : Name → Name → Forker → Result Forker
unfolding append_child
do_fork p c f = do
  f' ← append_child p c (set_children c [] (record f { process_list = f.process_list ++ c ∷ [] }))
  ok (set_parent c p f')

-- the lists of all children, one behind the other
pub concat_all : (Name → Result (List Name)) → List Name → Result (List Name)
concat_all g [] = ok []
concat_all g (c ∷ cs) = do l ← g c; ls ← concat_all g cs; ok (l ++ ls)

-- `depth` calls may be nested
pub collect_children : ℕ → Name → Forker → Result (List Name)
unfolding get_children concat_all
collect_children zero p f = raise recursion_error
collect_children (suc depth) p f = do
  cs ← get_children type_error p f
  l ← concat_all (λ c. collect_children depth c f) cs
  ok (p ∷ l)

-- `list.remove`
pub remove : Name → List Name → Result (List Name)
remove p [] = raise value_error
remove p (q ∷ qs) =
    let rest : Result (List Name) = (do l ← remove p qs; ok (q ∷ l)) in
    if same_name q p then ok qs else rest

-- the exiting process's parent adopts its children
pub adopt_all : Name → List Name → Forker → Result Forker
unfolding append_child
adopt_all q [] f = ok f
adopt_all q (o ∷ os) f = do f' ← append_child q o (set_parent o q f); adopt_all q os f'

-- the root adopts the descendants, each without children
pub orphan_all : List Name → Forker → Result Forker
unfolding append_child
orphan_all [] f = ok f
orphan_all (d ∷ ds) f = do
  f' ← append_child root_name d (set_parent d root_name (set_children d [] f))
  orphan_all ds f'

pub get_parent : Name → Forker → Result Name
get_parent p f = elim (f.parents p) [
  | none ↦ raise key_error
  | some none ↦ raise key_error
  | some (some q) ↦ ok q
]

pub reparent : ℕ → Bool → Name → Name → Forker → Result Forker
unfolding get_children adopt_all collect_children orphan_all remove
reparent depth true p q f = do cs ← get_children type_error p f; adopt_all q cs f
reparent depth false p q f = do
  all ← collect_children depth p f
  descendents ← remove p all
  orphan_all descendents f

pub do_exit : ℕ → Bool → Name → Forker → Result Forker
unfolding get_parent reparent remove
do_exit depth local_reparent p f =
    let leave : Result Forker = (do
      q ← get_parent p f
      l ← remove p f.process_list
      f' ← reparent depth local_reparent p q (record f { process_list = l })
      cs ← get_children attribute_error q f'
      cs' ← remove p cs
      let f'' = set_children q cs' f'
      ok (record f'' {
        children = put p (some none) f''.children;
        parents = put p (some none) f''.parents;
      })) in
    if same_name p root_name then raise exited else leave

-- `in`
pub has : Name → List Name → Bool
has p [] = false
has p (q ∷ qs) = same_name q p || has p qs

abbrev pub has_char : ℕ → Name → Bool
has_char c [] = false
has_char c (d ∷ ds) = d == c || has_char c ds

abbrev pub push : ℕ → List Name → List Name
push c [] = (c ∷ []) ∷ []
push c (w ∷ ws) = (c ∷ w) ∷ ws

-- `action.split(sep)`
pub split : ℕ → Name → List Name
split sep [] = [] ∷ []
split sep (c ∷ cs) = let rest = split sep cs in if c == sep then [] ∷ rest else push c rest

-- the first two parts, of two
pub both_parts : List Name → Result (List Name)
both_parts [] = raise exited
both_parts (p ∷ []) = raise exited
both_parts (p ∷ c ∷ []) = ok (p ∷ c ∷ [])
both_parts (p ∷ c ∷ d ∷ ds) = raise exited

pub first_part : List Name → Result (List Name)
first_part [] = raise exited
first_part (p ∷ []) = raise exited
first_part (p ∷ c ∷ []) = ok (p ∷ [])
first_part (p ∷ c ∷ d ∷ ds) = raise exited

pub check_legal : Name → Result (List Name)
unfolding split both_parts first_part
check_legal action =
    if has_char plus action
    then both_parts (split plus action)
    else (if has_char minus action then first_part (split minus action) else raise exited)

pub record Options : Type 0 where
  pub leaf_only : Bool
  pub local_reparent : Bool
  pub depth : ℕ

pub exit_action : Options → Name → Forker → Result Forker
unfolding has get_children do_exit
exit_action o p f =
    let leave = do_exit o.depth o.local_reparent p f in
    let leaf : Result Forker = (do
      cs ← get_children type_error p f
      if ltb 0 (length cs) then ok f else leave) in
    if has p f.process_list then (if o.leaf_only then leaf else leave) else raise exited

-- an action, from the parts that `check_legal` gives
pub obey : Options → List Name → Forker → Result Forker
unfolding has do_fork exit_action
obey o [] f = raise index_error
obey o (p ∷ []) f = exit_action o p f
obey o (p ∷ c ∷ cs) f = if has p f.process_list then do_fork p c f else raise exited

-- the loop of `run` over the actions
pub run : Options → List Name → Forker → Result Forker
unfolding check_legal obey
run o [] f = ok f
run o (a ∷ rest) f = do tmp ← check_legal a; f' ← obey o tmp f; run o rest f'

-- The loop of `run` that makes up `count` actions. A draw says whether to fork, and the index that
-- `random_choice` gives.
pub make_actions : ℕ → List (Bool × ℕ) → List Name → Namer → List Name → Result (List Name)
unfolding get_name remove
make_actions zero draws processes n actions = ok actions
make_actions (suc count) [] processes n actions = raise no_draw
make_actions (suc count) ((fork, i) ∷ draws) processes n actions =
    let again = make_actions (suc count) draws processes n actions in
    elim (get_elem? processes i) [
      | none ↦ raise index_error
      | some p ↦
          let forked : Result (List Name) = (do
            r ← get_name n
            make_actions count draws (processes ++ r.0 ∷ []) r.1
                (actions ++ (p ++ plus ∷ r.0) ∷ [])) in
          let left : Result (List Name) = (do
            processes' ← remove p processes
            make_actions count draws processes' n (actions ++ (p ++ minus ∷ []) ∷ [])) in
          if fork then forked else (if same_name p root_name then again else left)
    ]
