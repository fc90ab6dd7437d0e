-- ===== src/Tree.antt =====
-- crates/guinea-route-dsl/src/lib.rs: the route tree that `routes!` declares, and what is read off
-- it: the leaves with their cascaded guards, the layouts, and what each layout may rely on. A
-- `syn::Type` is its text as written, by which the code compares types.
pub mod Guarding
pub mod Carrying
pub mod Checks
pub mod Effects
pub mod Placing
pub mod Tests
use guinea.Base.{
  Bool, true, false, ◌&&◌, ◌||◌, not, Option, none, some, List, [], ◌∷◌, ◌++◌, map, Text, same_text,
  if◌then◌else◌, any, all, retain,
}

abbrev pub TypeName : Type 0
TypeName = Text

-- `same_type`
abbrev pub same_type : TypeName → TypeName → Bool
same_type = same_text

pub data Segment : Type 0 where
  literal capture : Text → Segment

pub record Guards : Type 0 where
  pub added : List TypeName
  pub removed : List TypeName

pub record Field : Type 0 where
  pub name : Text
  pub ty : TypeName
  pub identity : Bool

mutual
  pub data Node : Type 0 where
    layout : TypeName → Guards → Bool → Bool → Nodes → Node
    page : TypeName → Option Text → Guards → Bool → Bool → List Field → Node

  pub data Nodes : Type 0 where
    end : Nodes
    more : Node → Nodes → Nodes

pub record Leaf : Type 0 where
  pub ancestors : List TypeName
  pub ty : TypeName
  pub link : Option Text
  pub fields : List Field
  pub guards : List TypeName
  pub restorable : Bool
  pub keep : List Bool

abbrev pub is_some {ℓ} : {A : Type ℓ} → Option A → Bool
is_some none = false
is_some (some a) = true

-- `Leaf::is_addressable`
abbrev pub is_addressable : Leaf → Bool
is_addressable leaf = is_some leaf.link

abbrev pub contains : List TypeName → TypeName → Bool
contains list wanted = any (λ seen. same_type seen wanted) list

-- The loop of `Guards::fold_into` over what the node added.
unfoldable pub add_guards : List TypeName → List TypeName → List TypeName
add_guards inherited [] = inherited
add_guards inherited (added ∷ rest) =
    add_guards (if contains inherited added then inherited else inherited ++ added ∷ []) rest

-- `Guards::fold_into`
unfoldable pub fold_into : Guards → List TypeName → List TypeName
unfolding add_guards
fold_into g inherited =
    add_guards (retain (λ standing. not (any (λ d. same_type d standing) g.removed)) inherited)
      g.added

-- `flatten`: the leaves below some nodes, in declaration order.
unfoldable mutual
  pub flatten_node : Node → List TypeName → List Bool → List TypeName → Bool → List Leaf
  flatten_node (layout ty guards restorable keep children) ancestors keeping standing kept =
      flatten children (ancestors ++ ty ∷ []) (keeping ++ keep ∷ []) (fold_into guards standing)
        (kept || restorable)
  flatten_node (page ty link guards restorable keep fields) ancestors keeping standing kept =
      record {
        ancestors = ancestors;
        ty = ty;
        link = link;
        fields = fields;
        guards = fold_into guards standing;
        restorable = kept || restorable;
        keep = keeping ++ keep ∷ [];
      }
      ∷ []

  pub flatten : Nodes → List TypeName → List Bool → List TypeName → Bool → List Leaf
  flatten end ancestors keeping standing kept = []
  flatten (more node rest) ancestors keeping standing kept =
      flatten_node node ancestors keeping standing kept
      ++ flatten rest ancestors keeping standing kept

-- `RouteTree::leaves`
unfoldable pub leaves : Nodes → List Leaf
leaves nodes = flatten nodes [] [] [] false

-- `collect_layouts`, which threads the layouts found so far.
unfoldable mutual
  pub collect_layouts_node : Node → List TypeName → List TypeName
  collect_layouts_node (layout ty guards restorable keep children) found =
      collect_layouts children (if contains found ty then found else found ++ ty ∷ [])
  collect_layouts_node (page ty link guards restorable keep fields) found = found

  pub collect_layouts : Nodes → List TypeName → List TypeName
  collect_layouts end found = found
  collect_layouts (more node rest) found = collect_layouts rest (collect_layouts_node node found)

-- `RouteTree::layouts`
unfoldable pub layouts : Nodes → List TypeName
layouts nodes = collect_layouts nodes []

-- The test of `layout_params` on another page's field.
abbrev pub is_same_field : Field → Field → Bool
is_same_field field other =
    other.identity && (same_text other.name field.name && same_type field.ty other.ty)

abbrev pub carries : Field → Leaf → Bool
carries field leaf = any (is_same_field field) leaf.fields

-- `layout_params` for one layout: the leaves under it, and the fields that all of them carry.
unfoldable pub leaves_under : TypeName → List Leaf → List Leaf
leaves_under ty = retain (λ leaf. any (λ a. same_type a ty) leaf.ancestors)

unfoldable pub common_fields : List Leaf → List Field
common_fields [] = []
common_fields (first ∷ rest) =
    retain (λ field. all (carries field) rest) (retain (λ field. field.identity) first.fields)

pub record LayoutParams : Type 0 where
  pub ty : TypeName
  pub fields : List Field

unfoldable pub layout_params : Nodes → List LayoutParams
unfolding leaves_under common_fields
layout_params nodes =
    map (λ ty. record { ty = ty; fields = common_fields (leaves_under ty (leaves nodes)) })
      (layouts nodes)
