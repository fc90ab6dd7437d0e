-- ===== src/Tree/Checks.antt =====
-- `check_guards` and `walk_guards` of crates/guinea-route-dsl/src/lib.rs: what the guard
-- declarations say that cannot be true, as data in place of the messages, and what a tree without
-- such errors is.
use guinea.Base.{
  append-eq-nil, ◌≡◌, refl, ◌↔◌, Bool, true, false, ◌&&◌, not, List, [], ◌∷◌, ◌++◌, if◌then◌else◌,
  All, arith,
}
use guinea.Tree.{TypeName, Guards, Node, Nodes, layout, page, end, more, contains, fold_into}

pub data GuardError : Type 0 where
  opens_nothing : TypeName → TypeName → GuardError
  already_standing : TypeName → TypeName → GuardError
  declared_twice : TypeName → TypeName → GuardError

abbrev error_if : Bool → GuardError → List GuardError
error_if b e = if b then e ∷ [] else []

-- The loop of `walk_guards` over the guards that a node takes out.
removed_errors : TypeName → List TypeName → List TypeName → List GuardError
removed_errors here standing [] = []
removed_errors here standing (dropped ∷ rest) =
    error_if (not (contains standing dropped)) (opens_nothing dropped here)
    ++ removed_errors here standing rest

-- Its loop over the guards that a node adds; `earlier` is `guards.added[..at]`.
added_errors :
    TypeName → List TypeName → List TypeName → List TypeName → List TypeName → List GuardError
added_errors here standing removed earlier [] = []
added_errors here standing removed earlier (added ∷ rest) =
    error_if (contains standing added && not (contains removed added)) (already_standing added here)
    ++ (error_if (contains earlier added) (declared_twice added here)
        ++ added_errors here standing removed (earlier ++ added ∷ []) rest)

node_errors : TypeName → Guards → List TypeName → List GuardError
unfolding removed_errors added_errors
node_errors here guards standing =
    removed_errors here standing guards.removed
    ++ added_errors here standing guards.removed [] guards.added

mutual
  walk_node : Node → List TypeName → List GuardError
  walk_node (layout ty guards restorable keep children) standing =
      node_errors ty guards standing ++ walk_guards children (fold_into guards standing)
  walk_node (page ty link guards restorable keep fields) standing = node_errors ty guards standing

  walk_guards : Nodes → List TypeName → List GuardError
  walk_guards end standing = []
  walk_guards (more node rest) standing = walk_node node standing ++ walk_guards rest standing

-- `check_guards`
unfoldable pub check_guards : Nodes → List GuardError
unfolding walk_guards node_errors
check_guards nodes = walk_guards nodes []

-- Added guards that are new: neither standing from above, but for one taken out here, nor said
-- before.
abbrev pub IsFresh : List TypeName → List TypeName → List TypeName → List TypeName → Type 0
IsFresh standing removed earlier [] = Unit
IsFresh standing removed earlier (added ∷ rest) =
    (contains standing added && not (contains removed added) ≡ false)
    × (contains earlier added ≡ false)
    × IsFresh standing removed (earlier ++ added ∷ []) rest

-- A node whose opt-outs each open something, and whose guards are each new.
abbrev pub IsWellGuardedNode : Guards → List TypeName → Type 0
IsWellGuardedNode guards standing =
    All (λ dropped. contains standing dropped ≡ true) guards.removed
    × IsFresh standing guards.removed [] guards.added

abbrev mutual
  pub IsWellGuardedAt : Node → List TypeName → Type 0
  IsWellGuardedAt (layout ty guards restorable keep children) standing =
      IsWellGuardedNode guards standing × IsWellGuarded children (fold_into guards standing)
  IsWellGuardedAt (page ty link guards restorable keep fields) standing =
      IsWellGuardedNode guards standing

  pub IsWellGuarded : Nodes → List TypeName → Type 0
  IsWellGuarded end standing = Unit
  IsWellGuarded (more node rest) standing =
      IsWellGuardedAt node standing × IsWellGuarded rest standing

error_if-eq-nil : (b : Bool) (e : GuardError) → (error_if b e ≡ []) ↔ (b ≡ false)
error_if-eq-nil true e = (λ h. cc, λ h. cc)
error_if-eq-nil false e = (λ h. refl, λ h. refl)

removed_errors-eq-nil :
    (here : TypeName) (standing removed : List TypeName)
    → (removed_errors here standing removed ≡ [])
      ↔ All (λ dropped. contains standing dropped ≡ true) removed
unfolding removed_errors
removed_errors-eq-nil here standing [] = (λ e. tt, λ h. refl)
removed_errors-eq-nil here standing (dropped ∷ rest) =
    let (to, from) = removed_errors-eq-nil here standing rest in
    let (split, join) =
      append-eq-nil (error_if (not (contains standing dropped)) (opens_nothing dropped here))
        (removed_errors here standing rest) in
    let (stands, misses) =
      error_if-eq-nil (not (contains standing dropped)) (opens_nothing dropped here) in
    (
      λ e. (ground (arith, stands (split e).0), to (split e).1),
      λ h. join (misses (ground (arith, h.0)), from h.1),
    )

added_errors-eq-nil :
    (here : TypeName) (standing removed earlier added : List TypeName)
    → (added_errors here standing removed earlier added ≡ [])
      ↔ IsFresh standing removed earlier added
unfolding added_errors
added_errors-eq-nil here standing removed earlier [] = (λ e. tt, λ h. refl)
added_errors-eq-nil here standing removed earlier (a ∷ added) =
    let (to, from) = added_errors-eq-nil here standing removed (earlier ++ a ∷ []) added in
    let first =
      error_if-eq-nil (contains standing a && not (contains removed a)) (already_standing a here) in
    let second = error_if-eq-nil (contains earlier a) (declared_twice a here) in
    let outer =
      append-eq-nil
        (error_if (contains standing a && not (contains removed a)) (already_standing a here))
        (error_if (contains earlier a) (declared_twice a here)
          ++ added_errors here standing removed (earlier ++ a ∷ []) added) in
    let inner =
      append-eq-nil (error_if (contains earlier a) (declared_twice a here))
        (added_errors here standing removed (earlier ++ a ∷ []) added) in
    (
      λ e. let rest = inner.0 (outer.0 e).1 in (first.0 (outer.0 e).0, second.0 rest.0, to rest.1),
      λ h. outer.1 (first.1 h.0, inner.1 (second.1 h.1, from h.2)),
    )

node_errors-eq-nil :
    (here : TypeName) (guards : Guards) (standing : List TypeName)
    → (node_errors here guards standing ≡ []) ↔ IsWellGuardedNode guards standing
unfolding node_errors
node_errors-eq-nil here guards standing =
    let both =
      append-eq-nil (removed_errors here standing guards.removed)
        (added_errors here standing guards.removed [] guards.added) in
    let removals = removed_errors-eq-nil here standing guards.removed in
    let additions = added_errors-eq-nil here standing guards.removed [] guards.added in
    (
      λ e. (removals.0 (both.0 e).0, additions.0 (both.0 e).1),
      λ h. both.1 (removals.1 h.0, additions.1 h.1),
    )

mutual
  unfolding walk_guards

  walk_node-eq-nil :
      (n : Node) (standing : List TypeName)
      → (walk_node n standing ≡ []) ↔ IsWellGuardedAt n standing
  walk_node-eq-nil (layout ty guards restorable keep children) standing =
      let both =
        append-eq-nil (node_errors ty guards standing)
          (walk_guards children (fold_into guards standing)) in
      let own = node_errors-eq-nil ty guards standing in
      let below = walk_guards-eq-nil children (fold_into guards standing) in
      (λ e. (own.0 (both.0 e).0, below.0 (both.0 e).1), λ h. both.1 (own.1 h.0, below.1 h.1))
  walk_node-eq-nil (page ty link guards restorable keep fields) standing =
      node_errors-eq-nil ty guards standing

  walk_guards-eq-nil :
      (ns : Nodes) (standing : List TypeName)
      → (walk_guards ns standing ≡ []) ↔ IsWellGuarded ns standing
  walk_guards-eq-nil end standing = (λ e. tt, λ h. refl)
  walk_guards-eq-nil (more n rest) standing =
      let both = append-eq-nil (walk_node n standing) (walk_guards rest standing) in
      let own = walk_node-eq-nil n standing in
      let later = walk_guards-eq-nil rest standing in
      (λ e. (own.0 (both.0 e).0, later.0 (both.0 e).1), λ h. both.1 (own.1 h.0, later.1 h.1))

-- `check_guards` reports nothing exactly when every opt-out in the tree opens a guard that stands
-- in front of its node, and every guard that a node adds is said once and is new there, but for one
-- that the node takes out first.
pub check_guards-eq-nil_iff : (nodes : Nodes) → (check_guards nodes ≡ []) ↔ IsWellGuarded nodes []
unfolding check_guards
check_guards-eq-nil_iff nodes = walk_guards-eq-nil nodes []
