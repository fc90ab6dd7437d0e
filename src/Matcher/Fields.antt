-- ===== src/Matcher/Fields.antt =====
-- `check_fields` and `captures_of` of crates/guinea-route-dsl/src/matcher.rs: what a page's fields
-- and the captures of its pattern owe each other.
use guinea.Base.{
  Bool, Option, none, some, List, [], ◌∷◌, ◌++◌, Text, same_text, codes, if◌then◌else◌, any,
}
use guinea.Tree.{TypeName, Segment, literal, capture, Field, Leaf, is_addressable}

pub data FieldError : Type 0 where
  capture_without_field : TypeName → Text → FieldError
  field_without_capture : TypeName → Text → FieldError
  loose_field_on_outward_route : TypeName → Text → Text → FieldError

-- One error for each item that fails a test: a `for` with an `if` or a `filter` around a `push`.
abbrev pub report {ℓ} : {A : Type ℓ} → (A → Bool) → (A → FieldError) → List A → List FieldError
report passes error [] = []
report passes error (x ∷ rest) =
    if passes x then report passes error rest else error x ∷ report passes error rest

-- How a page can be reached from outside, if it can.
abbrev pub tier_of : Leaf → Option Text
tier_of leaf =
    if is_addressable leaf
    then some (codes "link")
    else if leaf.restorable
    then some (codes "restorable")
    else none

abbrev pub loose_errors : TypeName → List Field → Option Text → List FieldError
loose_errors page fields none = []
loose_errors page fields (some tier) =
    report (λ field. field.identity) (λ field. loose_field_on_outward_route page field.name tier)
      fields

abbrev pub has_name : Text → List Text → Bool
has_name name captures = any (λ capture. same_text name capture) captures

-- The loop of `captures_of`.
unfoldable pub captures_from : List Segment → List Text → List Text
captures_from [] found = found
captures_from (literal text ∷ rest) found = captures_from rest found
captures_from (capture name ∷ rest) found =
    captures_from rest (if has_name name found then found else found ++ name ∷ [])

module _ (segments_of : Text → List Segment) where
  abbrev pub captures_at : Option Text → List Text
  captures_at none = []
  captures_at (some link) = captures_from (segments_of link) []

  -- `captures_of`
  abbrev pub captures_of : Leaf → List Text
  captures_of leaf = captures_at leaf.link

  -- The body of the loop of `check_fields`.
  unfoldable pub field_errors : Leaf → List FieldError
  unfolding captures_from
  field_errors leaf =
      loose_errors leaf.ty leaf.fields (tier_of leaf)
      ++ (if is_addressable leaf
          then report (λ name. any (λ (field : Field). same_text field.name name) leaf.fields)
              (capture_without_field leaf.ty) (captures_of leaf)
            ++ report (λ field. has_name field.name (captures_of leaf))
                (λ field. field_without_capture leaf.ty field.name) leaf.fields
          else [])

  -- `check_fields`
  unfoldable pub check_fields : List Leaf → List FieldError
  unfolding field_errors
  check_fields [] = []
  check_fields (leaf ∷ rest) = field_errors leaf ++ check_fields rest
