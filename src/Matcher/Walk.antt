-- ===== src/Matcher/Walk.antt =====
-- The walk of crates/guinea-route-dsl/src/matcher.rs: what the code that `emit_parse`, `emit_node`
-- and `emit_leaf` generate computes on a path. Tests and branches are as in the generated code.
use guinea.Base.{
  ℕ, ◌+◌, Bool, true, false, ◌&&◌, Option, none, some, List, [], ◌∷◌, ◌++◌, Text, same_text,
  if◌then◌else◌, ◌==◌, leb, length, get_elem?, retain,
}
use guinea.Tree.{TypeName}
use guinea.Matcher.{MatchLeaf, MatchNode, node, Branches, end, branch}

-- The value that the generated `parse` returns: the page and its fields.
pub record Route (V : Type 0) : Type 0 where
  pub page : TypeName
  pub values : List V

abbrev pub first {ℓ} : {A : Type ℓ} → Option A → Option A → Option A
first (some a) later = some a
first none later = later

-- `bound.iter().find(..)`
unfoldable pub depth_of : Text → List (Text × ℕ) → Option ℕ
depth_of field [] = none
depth_of field ((name, depth) ∷ rest) =
    if same_text field name then some depth else depth_of field rest

-- `__parts[i]`, where the tests before it keep `i` in range.
abbrev pub part_is : Option Text → Text → Bool
part_is none text = false
part_is (some part) text = same_text part text

abbrev pub collect {ℓ} : {V : Type ℓ} → Option V → Option (List V) → Option (List V)
collect (some v) (some vs) = some (v ∷ vs)
collect _ _ = none

-- `LinkValue::decode` at the type of a page's field is a parameter: which of the sealed types it
-- is, the declaration says.
module _ {V : Type 0} (decode : TypeName → Text → Text → Option V) where
  abbrev pub decode_part : TypeName → Text → Option Text → Option V
  decode_part page field none = none
  decode_part page field (some part) = decode page field part

abbrev pub route_of : {V : Type 0} → TypeName → Option (List V) → Option (Route V)
route_of page none = none
route_of page (some values) = some (record { page = page; values = values })

module _ {V : Type 0} (decode : TypeName → Text → Text → Option V) (parts : List Text) where
  abbrev pub decode_at : TypeName → Text → Option ℕ → Option V
  decode_at page field none = none
  decode_at page field (some depth) = decode_part decode page field (get_elem? parts depth)

  -- The nested `if let`s of `emit_leaf`. A field that nothing binds makes the generator panic;
  -- `check_fields` refuses such a page before.
  unfoldable pub decode_fields : TypeName → List Text → List (Text × ℕ) → Option (List V)
  decode_fields page [] bound = some []
  decode_fields page (field ∷ rest) bound =
      collect (decode_at page field (depth_of field bound)) (decode_fields page rest bound)

  abbrev pub leaf_here : Option MatchLeaf → ℕ → List (Text × ℕ) → Option (Route V)
  leaf_here none depth bound = none
  leaf_here (some leaf) depth bound =
      if length parts == depth
      then route_of leaf.ty (decode_fields leaf.ty leaf.fields bound)
      else none

  -- The code that `emit_node` generates, run on the path's parts.
  unfoldable mutual
    pub walk : MatchNode → ℕ → List (Text × ℕ) → Option (Route V)
    walk (node literals captures leaf) depth bound =
        first (leaf_here leaf depth bound)
          (first (walk_literals literals depth bound) (walk_captures captures depth bound))

    pub walk_literals : Branches → ℕ → List (Text × ℕ) → Option (Route V)
    walk_literals end depth bound = none
    walk_literals (branch text child rest) depth bound =
        first
          (if leb (depth + 1) (length parts) && part_is (get_elem? parts depth) text
            then walk child (depth + 1) bound
            else none)
          (walk_literals rest depth bound)

    pub walk_captures : Branches → ℕ → List (Text × ℕ) → Option (Route V)
    walk_captures end depth bound = none
    walk_captures (branch name child rest) depth bound =
        first
          (if leb (depth + 1) (length parts)
            then walk child (depth + 1) (bound ++ (name, depth) ∷ [])
            else none)
          (walk_captures rest depth bound)

-- `path.split('/')`, in two halves: the part that is being read, and the rest.
unfoldable pub split_slash : Text → Text × List Text
split_slash [] = ([], [])
split_slash (c ∷ rest) =
    if c == b'/'
    then ([], (split_slash rest).0 ∷ (split_slash rest).1)
    else (c ∷ (split_slash rest).0, (split_slash rest).1)

abbrev is_filled : Text → Bool
is_filled [] = false
is_filled (c ∷ rest) = true

-- `path.split('/').filter(|s| !s.is_empty())`
unfoldable pub parts_of : Text → List Text
unfolding split_slash
parts_of path = retain is_filled ((split_slash path).0 ∷ (split_slash path).1)

abbrev pub is_empty : MatchNode → Bool
is_empty (node end end none) = true
is_empty _ = false

-- The function that `emit_parse` generates.
unfoldable pub parse :
    {V : Type 0} (decode : TypeName → Text → Text → Option V) → MatchNode → Text → Option (Route V)
parse decode root path = if is_empty root then none else walk decode (parts_of path) root 0 []
