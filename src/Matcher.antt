-- ===== src/Matcher.antt =====
-- crates/guinea-route-dsl/src/matcher.rs: the declared patterns folded into a tree, the conflicts
-- and field errors it reports, and the walk that the generated `parse` makes over a path. The walk
-- is modelled as what the generated code computes, not as its tokens.
pub mod Walk
pub mod Building
pub mod Shapes
pub mod Holding
pub mod Parsing
pub mod Entries
pub mod Contents
pub mod Answer
pub mod Fields
pub mod Names
pub mod Agreement
mod Tests
use guinea.Base.{ℕ, Option, none, some, List, [], ◌∷◌, ◌++◌, map, Text, same_text, if◌then◌else◌}
use guinea.Tree.{Segment, literal, capture, Leaf, TypeName}

pub record MatchLeaf : Type 0 where
  pub ty : TypeName
  pub fields : List Text

mutual
  pub data MatchNode : Type 0 where
    node : Branches → Branches → Option MatchLeaf → MatchNode

  -- The branches of one kind out of a node, in the order they were declared.
  pub data Branches : Type 0 where
    end : Branches
    branch : Text → MatchNode → Branches → Branches

abbrev pub empty : MatchNode
empty = node end end none

-- `literal_mut` and `capture_mut`: go to the branch of that name, made at the end if it is not
-- there, and change the node that it leads to.
unfoldable pub at_branch : Text → (MatchNode → MatchNode) → Branches → Branches
at_branch name change end = branch name (change empty) end
at_branch name change (branch other child rest) =
    if same_text other name
    then branch other (change child) rest
    else branch other child (at_branch name change rest)

-- `insert`
unfoldable pub insert : List Segment → MatchLeaf → MatchNode → MatchNode
insert [] leaf (node literals captures old) = node literals captures (some leaf)
insert (literal text ∷ rest) leaf (node literals captures old) =
    node (at_branch text (insert rest leaf) literals) captures old
insert (capture name ∷ rest) leaf (node literals captures old) =
    node literals (at_branch name (insert rest leaf) captures) old

-- `shape_of`
unfoldable pub shape_from : List Segment → Text
shape_from [] = []
shape_from (literal text ∷ rest) = b'/' ∷ (text ++ shape_from rest)
shape_from (capture name ∷ rest) = b'/' ∷ b'*' ∷ shape_from rest

unfoldable pub shape_of : List Segment → Text
shape_of [] = b'/' ∷ []
shape_of (s ∷ segments) = shape_from (s ∷ segments)

pub record Conflict : Type 0 where
  pub first : TypeName
  pub second : TypeName
  pub shape : Text

-- `claimed.iter().find(..)`
unfoldable pub claimed_by : Text → List (Text × TypeName) → Option TypeName
claimed_by shape [] = none
claimed_by shape ((seen, ty) ∷ rest) =
    if same_text seen shape then some ty else claimed_by shape rest

-- What `build` returns.
pub data Built : Type 0 where
  tree : MatchNode → Built
  conflicts : List Conflict → Built

-- The leaf as it is kept at its node.
abbrev pub match_leaf : Leaf → MatchLeaf
match_leaf leaf = record { ty = leaf.ty; fields = map (λ field. field.name) leaf.fields }

-- The state of the loop of `build`.
pub record Folding : Type 0 where
  pub root : MatchNode
  pub found : List Conflict
  pub claimed : List (Text × TypeName)

-- What the loop does with a leaf that has an address, given who claimed its shape before.
abbrev pub fold_linked : Leaf → List Segment → Option TypeName → Folding → Folding
fold_linked leaf segments (some earlier) st = record st {
  found = st.found ++ record { first = earlier; second = leaf.ty; shape = shape_of segments } ∷ [];
}
fold_linked leaf segments none st = record st {
  claimed = st.claimed ++ (shape_of segments, leaf.ty) ∷ [];
  root = insert segments (match_leaf leaf) st.root;
}

abbrev pub finish_build : Folding → Built
finish_build st = elim st.found [ [] ↦ tree st.root | c ∷ more ↦ conflicts (c ∷ more) ]

module _ (segments_of : Text → List Segment) where
  pub fold_link : Leaf → Option Text → Folding → Folding
  fold_link leaf none st = st
  fold_link leaf (some link) st =
      fold_linked leaf (segments_of link) (claimed_by (shape_of (segments_of link)) st.claimed) st

  pub fold_leaves : List Leaf → Folding → Folding
  fold_leaves [] st = st
  fold_leaves (leaf ∷ rest) st = fold_leaves rest (fold_link leaf leaf.link st)

  -- `build`
  unfoldable pub build : List Leaf → Built
  unfolding fold_link fold_leaves
  build leaves =
      finish_build (fold_leaves leaves (record { root = empty; found = []; claimed = [] }))
