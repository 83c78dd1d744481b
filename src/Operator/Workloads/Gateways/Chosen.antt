-- ===== src/Operator/Workloads/Gateways/Chosen.antt =====
-- The node that is chosen for a gateway agent.
use pontifex.Base.{
  String, List, [], ◌∷◌, ◌++◌, Option, none, some, ◌≡◌, refl, sym, ap, ◌∙◌, arith, ◌==◌,
  comparable_string, if◌then◌else◌, Bool-cases, inl, inr, Permᴰ,
}
use mathlib.Core.List.{append-nil, append_assoc}
use pontifex.GoMap.{GoMap, get, Distinct, Runtime, entries}
use pontifex.GoMap.Laws.{get-put, put-Distinct, has-eq-is_some}
use pontifex.GoMap.Ranges.{get-perm, Distinct-perm}
use pontifex.GoSort.{sort_by, SortedBy, sort_by-SortedBy, sort_by-Permᴰ}
use pontifex.Operator.Cluster.{Node}
use pontifex.Operator.Workloads.{or_blank}
use pontifex.Operator.Workloads.Gateways.{
  or_no_nodes, role_of, by_role, sort_roles, first_node, chosen_node,
}

-- The nodes with a role, in order.
abbrev pub with_role : String → String → List Node → List Node
with_role label role [] = []
with_role label role (n ∷ ns) =
    let rest = with_role label role ns in
    if or_blank (get label n.labels) == role then n ∷ rest else rest

get-by_role :
    (label role : String) (ns : List Node) (m : GoMap String (List Node))
    → or_no_nodes (get role (by_role label ns m))
      ≡ or_no_nodes (get role m) ++ with_role label role ns
unfolding by_role
get-by_role label role [] m = sym (append-nil _)
get-by_role label role (n ∷ ns) m =
    get-by_role label role ns _
    ∙ ap (λ o. or_no_nodes o ++ with_role label role ns) (get-put (role_of label n) role _ m)
    ∙ elim (Bool-cases (role_of label n == role)) [
      | inl p ↦ rw p (
          append_assoc (or_no_nodes (get (role_of label n) m)) (n ∷ []) (with_role label role ns)
          ∙ ap (λ r. or_no_nodes (get r m) ++ n ∷ with_role label role ns)
              ((comparable_string.equal_iff (role_of label n) role).0 p))
      | inr p ↦ rw p refl
    ]

by_role-Distinct :
    (label : String) (ns : List Node) (m : GoMap String (List Node))
    → Distinct m
    → Distinct (by_role label ns m)
unfolding by_role
by_role-Distinct label [] m d = d
by_role-Distinct label (n ∷ ns) m d =
    by_role-Distinct label ns _ (put-Distinct (role_of label n) _ m d)

abbrev sorted_or : Option (List Node) → Option (List Node) → Option (List Node)
sorted_or none old = old
sorted_or (some ns) old = some (sort_by Node.name ns)

get-sort_roles :
    (role : String) (es m : GoMap String (List Node))
    → Distinct es
    → get role (sort_roles es m) ≡ sorted_or (get role es) (get role m)
unfolding sort_roles get
get-sort_roles role [] m d = refl
get-sort_roles role ((r, ns) ∷ rest) m d =
    get-sort_roles role rest _ d.1
    ∙ ap (sorted_or (get role rest)) (get-put r role (sort_by Node.name ns) m)
    ∙ ground (arith, comparable_string.equal_iff r role, has-eq-is_some r rest, d.0)

or_no_nodes-sorted_or :
    (o : Option (List Node)) → or_no_nodes (sorted_or o o) ≡ sort_by Node.name (or_no_nodes o)
unfolding sort_by
or_no_nodes-sorted_or none = refl
or_no_nodes-sorted_or (some ns) = refl

-- The node that is chosen for a role is the one with the smallest name among those labelled with it,
-- whatever the order of the loop over the roles, and there is none if there is no such node.
pub chosen_smallest :
    (rt : Runtime) (label role : String) (nodes : List Node)
    → (sorted : List Node) × Permᴰ (with_role label role nodes) sorted
      × SortedBy Node.name sorted
      × (chosen_node role
            (sort_roles (entries rt 0 (by_role label nodes [])) (by_role label nodes []))
          ≡ first_node sorted)
unfolding entries get
chosen_smallest rt label role nodes =
    let m = by_role label nodes [] in
    let d = by_role-Distinct label nodes [] tt in
    let perm = rt.range-perm (String × List Node) 0 m in
    let ns = with_role label role nodes in
    (
      sort_by Node.name ns,
      sort_by-Permᴰ Node.name ns,
      sort_by-SortedBy Node.name ns,
      ap (λ o. first_node (or_no_nodes o))
            (get-sort_roles role (entries rt 0 m) m (Distinct-perm perm d)
              ∙ ap (λ o. sorted_or o (get role m)) (sym (get-perm role perm d)))
          ∙ ap first_node (
              or_no_nodes-sorted_or (get role m)
              ∙ ap (sort_by Node.name) (get-by_role label role nodes [])),
    )
