-- ===== src/Tree/Guarding.antt =====
-- The cascade of guards in crates/guinea-route-dsl/src/lib.rs: what `Guards::fold_into` makes of the
-- inherited guards, and what `flatten` makes stand in front of each page.
use guinea.Base.{
  ◌≡◌, refl, sym, ap, ◌∙◌, Bool, true, false, ◌&&◌, ◌||◌, not, List, [], ◌∷◌, ◌++◌, Text, same_text,
  same_text_iff, any, retain, map, Bool-cases, inl, inr, arith,
}
use guinea.Tree.{
  TypeName, same_type, Guards, Node, Nodes, layout, page, end, more, Leaf, contains, add_guards,
  fold_into, flatten_node, flatten,
}

any-append {ℓ} :
    {A : Type ℓ} (p : A → Bool) (xs ys : List A) → any p (xs ++ ys) ≡ any p xs || any p ys
any-append p [] ys = refl
any-append p (x ∷ xs) ys = ground (arith, any-append p xs ys)

-- Types that are spelled alike are contained alike.
contains-same :
    (list : List TypeName) (a g : TypeName)
    → same_text a g ≡ true
    → contains list a ≡ contains list g
contains-same list a g e = ap (contains list) ((same_text_iff a g).0 e)

contains-add_guards :
    (inherited added : List TypeName) (g : TypeName)
    → contains (add_guards inherited added) g ≡ contains inherited g || contains added g
unfolding add_guards
contains-add_guards inherited [] g = ground arith
contains-add_guards inherited (a ∷ added) g = elim (Bool-cases (contains inherited a)) [
  | inl old ↦
      rw (old, contains-add_guards inherited added g) (ground (arith, contains-same inherited a g))
  | inr new ↦
      rw
        (
          new,
          contains-add_guards (inherited ++ a ∷ []) added g,
          any-append (λ seen. same_type seen g) inherited (a ∷ []),
        )
        (ground arith)
]

contains-retain :
    (removed inherited : List TypeName) (g : TypeName)
    → contains (retain (λ standing. not (contains removed standing)) inherited) g
      ≡ contains inherited g && not (contains removed g)
contains-retain removed [] g = refl
contains-retain removed (x ∷ inherited) g = elim (Bool-cases (contains removed x)) [
  | inl dropped ↦
      rw dropped (ground (arith, contains-retain removed inherited g, contains-same removed x g))
  | inr stays ↦
      rw stays (ground (arith, contains-retain removed inherited g, contains-same removed x g))
]

-- A guard stands after a node exactly when the node adds it, or it stood before and the node does
-- not take it out.
pub contains-fold_into :
    (g : Guards) (inherited : List TypeName) (guard : TypeName)
    → contains (fold_into g inherited) guard
      ≡ (contains inherited guard && not (contains g.removed guard)) || contains g.added guard
unfolding fold_into
contains-fold_into g inherited guard =
    contains-add_guards (retain (λ standing. not (contains g.removed standing)) inherited) g.added
      guard
    ∙ rw (contains-retain g.removed inherited guard)

-- No guard twice.
abbrev pub IsDistinct : List TypeName → Type 0
IsDistinct [] = Unit
IsDistinct (g ∷ rest) = (contains rest g ≡ false) × IsDistinct rest

same_text_comm : (s t : Text) → same_text s t ≡ same_text t s
same_text_comm s t = ground (arith, same_text_iff s t, same_text_iff t s)

IsDistinct-concat :
    (list : List TypeName) (g : TypeName)
    → IsDistinct list
    → contains list g ≡ false
    → IsDistinct (list ++ g ∷ [])
IsDistinct-concat [] g d h = (refl, tt)
IsDistinct-concat (x ∷ list) g d h = (
  rw (any-append (λ seen. same_type seen x) list (g ∷ [])) (ground (arith, same_text_comm x g)),
  IsDistinct-concat list g d.1 (ground arith),
)

IsDistinct-retain :
    (removed list : List TypeName)
    → IsDistinct list
    → IsDistinct (retain (λ standing. not (contains removed standing)) list)
IsDistinct-retain removed [] d = tt
IsDistinct-retain removed (x ∷ list) d = elim (Bool-cases (contains removed x)) [
  | inl dropped ↦ rw dropped (IsDistinct-retain removed list d.1)
  | inr stays ↦
      rw stays (rw (contains-retain removed list x, d.0) refl, IsDistinct-retain removed list d.1)
]

IsDistinct-add_guards :
    (inherited added : List TypeName)
    → IsDistinct inherited
    → IsDistinct (add_guards inherited added)
unfolding add_guards
IsDistinct-add_guards inherited [] d = d
IsDistinct-add_guards inherited (a ∷ added) d = elim (Bool-cases (contains inherited a)) [
  | inl old ↦ rw old (IsDistinct-add_guards inherited added d)
  | inr new ↦
      rw new
        (IsDistinct-add_guards (inherited ++ a ∷ []) added (IsDistinct-concat inherited a d new))
]

pub IsDistinct-fold_into :
    (g : Guards) (inherited : List TypeName)
    → IsDistinct inherited
    → IsDistinct (fold_into g inherited)
unfolding fold_into
IsDistinct-fold_into g inherited d =
    IsDistinct-add_guards _ g.added (IsDistinct-retain g.removed inherited d)

map-append {ℓ m} :
    {A : Type ℓ} {B : Type m} (f : A → B) (xs ys : List A) → map f (xs ++ ys) ≡ map f xs ++ map f ys
map-append f [] ys = refl
map-append f (x ∷ xs) ys = ap (λ l. f x ∷ l) (map-append f xs ys)

-- Each page with the guards of the nodes on the way to it, the page's own first and the root's last.
unfoldable mutual
  pub paths_node : Node → List Guards → List (TypeName × List Guards)
  paths_node (layout ty guards restorable keep children) above = paths children (guards ∷ above)
  paths_node (page ty link guards restorable keep fields) above = (ty, guards ∷ above) ∷ []

  pub paths : Nodes → List Guards → List (TypeName × List Guards)
  paths end above = []
  paths (more node rest) above = paths_node node above ++ paths rest above

-- Whether a guard stands at the end of a way: the nearest node that names it has it, and does not
-- only take it out.
unfoldable pub stands : TypeName → List Guards → Bool
stands guard [] = false
stands guard (node ∷ above) =
    contains node.added guard || (not (contains node.removed guard) && stands guard above)

abbrev pub guarded_leaf : TypeName → Leaf → TypeName × Bool
guarded_leaf guard leaf = (leaf.ty, contains leaf.guards guard)

abbrev pub guarded_path : TypeName → TypeName × List Guards → TypeName × Bool
guarded_path guard path = (path.0, stands guard path.1)

pub fold_into-stands :
    (guard : TypeName) (g : Guards) (above : List Guards) (standing : List TypeName)
    → contains standing guard ≡ stands guard above
    → contains (fold_into g standing) guard ≡ stands guard (g ∷ above)
unfolding stands
fold_into-stands guard g above standing h = ground (arith, contains-fold_into g standing guard, h)

mutual
  unfolding flatten paths

  flatten_node-paths :
      (guard : TypeName) (n : Node) (above : List TypeName) (keeping : List Bool)
      (standing : List TypeName) (kept : Bool) (way : List Guards)
      → contains standing guard ≡ stands guard way
      → map (guarded_leaf guard) (flatten_node n above keeping standing kept)
        ≡ map (guarded_path guard) (paths_node n way)
  flatten_node-paths guard (layout ty guards restorable keep children) above keeping standing kept
        way h =
      flatten-paths guard children _ _ (fold_into guards standing) _ (guards ∷ way)
        (fold_into-stands guard guards way standing h)
  flatten_node-paths guard (page ty link guards restorable keep fields) above keeping standing kept
        way h =
      ap (λ b. (ty, b) ∷ []) (fold_into-stands guard guards way standing h)

  flatten-paths :
      (guard : TypeName) (ns : Nodes) (above : List TypeName) (keeping : List Bool)
      (standing : List TypeName) (kept : Bool) (way : List Guards)
      → contains standing guard ≡ stands guard way
      → map (guarded_leaf guard) (flatten ns above keeping standing kept)
        ≡ map (guarded_path guard) (paths ns way)
  flatten-paths guard end above keeping standing kept way h = refl
  flatten-paths guard (more n rest) above keeping standing kept way h =
      map-append (guarded_leaf guard) (flatten_node n above keeping standing kept) _
      ∙ ap (λ xs. xs ++ map (guarded_leaf guard) (flatten rest above keeping standing kept))
          (flatten_node-paths guard n above keeping standing kept way h)
      ∙ ap (λ xs. map (guarded_path guard) (paths_node n way) ++ xs)
          (flatten-paths guard rest above keeping standing kept way h)
      ∙ sym (map-append (guarded_path guard) (paths_node n way) (paths rest way))
