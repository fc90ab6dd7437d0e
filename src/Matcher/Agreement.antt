-- ===== src/Matcher/Agreement.antt =====
-- What it means that `check_fields` of crates/guinea-route-dsl/src/matcher.rs reports nothing.
use mathlib.Core.Bool.{false≢true}
use guinea.Base.{
  append-eq-nil, true, false, ◌≡◌, ◌≢◌, ◌↔◌, ◌⊎◌, inl, inr, refl, sym, ◌∙◌, Option, none, some,
  List, [], ◌∷◌, ◌++◌, Text, same_text, same_text_iff, same_text_refl, codes, any, All, Any, here,
  there, arith, Bool-cases, All-map, subst, append-nil, listed-All,
}
use guinea.Tree.{TypeName, Segment, literal, capture, Field, Leaf}
use guinea.Matcher.Answer.{matches, captured, part_for}
use guinea.Matcher.Fields.{
  capture_without_field, field_without_capture, loose_field_on_outward_route, report, has_name,
  captures_from, loose_errors, field_errors, check_fields,
}
use guinea.Matcher.Names.{
  report-eq-nil, has_name-captures_from, captures_from-has_name, capture-injective, Captures,
}

-- A field of that name.
abbrev pub IsField : List Field → Text → Type 0
IsField fields name = Any (λ (field : Field). field.name ≡ name) fields

any-IsField :
    (fields : List Field) (name : Text)
    → (any (λ (field : Field). same_text field.name name) fields ≡ true) ↔ IsField fields name
any-IsField [] name = (λ e. cc, λ a. elim a [ ])
any-IsField (field ∷ rest) name = elim (Bool-cases (same_text field.name name)) [
  | inl same ↦ rw same (λ e. here ((same_text_iff field.name name).0 same), λ a. refl)
  | inr differs ↦
      rw differs (λ e. there ((any-IsField rest name).0 e), other differs (any-IsField rest name).1)
]
  where
    other :
        same_text field.name name ≡ false
        → (IsField rest name → any (λ (f : Field). same_text f.name name) rest ≡ true)
        → IsField (field ∷ rest) name
        → any (λ (f : Field). same_text f.name name) rest ≡ true
    other differs back (here e) =
        absurd (false≢true (sym differs ∙ (same_text_iff field.name name).1 e))
    other differs back (there a) = back a

All-has_name {ℓ} :
    (P : Text → Type ℓ) (names : List Text) (name : Text)
    → All P names
    → has_name name names ≡ true
    → P name
All-has_name P [] name h e = cc
All-has_name P (other ∷ names) name h e = elim (Bool-cases (same_text name other)) [
  | inl same ↦ subst P (sym ((same_text_iff name other).0 same)) h.0
  | inr differs ↦ All-has_name P names name h.1 (rw differs at e)
]

All-intro {ℓ} :
    (P : Text → Type ℓ) (names : List Text)
    → ((name : Text) → has_name name names ≡ true → P name)
    → All P names
All-intro P [] h = tt
All-intro P (other ∷ names) h = (
  h other (ground (arith, same_text_refl other)),
  All-intro P names (λ name e. h name (ground arith)),
)

-- A capture has a field of its name.
abbrev pub IsAnswered : List Field → Segment → Type 0
IsAnswered fields (literal text) = Unit
IsAnswered fields (capture name) = IsField fields name

IsAnswered-intro :
    (fields : List Field) (segments : List Segment)
    → ((name : Text) → Captures segments name → IsField fields name)
    → All (IsAnswered fields) segments
IsAnswered-intro fields [] h = tt
IsAnswered-intro fields (literal text ∷ rest) h =
    (tt, IsAnswered-intro fields rest (λ name c. h name (there c)))
IsAnswered-intro fields (capture name ∷ rest) h =
    (h name (here refl), IsAnswered-intro fields rest (λ other c. h other (there c)))

Captures-IsField :
    (fields : List Field) (segments : List Segment) (name : Text)
    → All (IsAnswered fields) segments
    → Captures segments name
    → IsField fields name
Captures-IsField fields [] name h c = elim c [ ]
Captures-IsField fields (s ∷ segments) name h (here e) = (rw e at h).0
Captures-IsField fields (s ∷ segments) name h (there c) =
    Captures-IsField fields segments name h.1 c

has_name-Captures :
    (segments : List Segment) (name : Text)
    → (has_name name (captures_from segments []) ≡ true) ↔ Captures segments name
has_name-Captures segments name = (
  λ h. elim (has_name-captures_from segments [] name h) [ inl old ↦ cc | inr c ↦ c ],
  λ c. captures_from-has_name segments [] name (inr c),
)

-- Every field is compared, and so kept when a route is written down.
abbrev pub AllKept : List Field → Type 0
AllKept fields = All (λ (field : Field). field.identity ≡ true) fields

-- The captures of a pattern and the fields of its page are the same names.
abbrev pub FieldsMatch : List Segment → List Field → Type 0
FieldsMatch segments fields =
    All (IsAnswered fields) segments × All (λ (field : Field). Captures segments field.name) fields

fields_match :
    (ty : TypeName) (segments : List Segment) (fields : List Field)
    → (report
            (λ name. any (λ (field : Field). same_text field.name name) fields)
            (capture_without_field ty)
            (captures_from segments [])
          ++ report
              (λ (field : Field). has_name field.name (captures_from segments []))
              (λ (field : Field). field_without_capture ty field.name)
              fields
        ≡ [])
      ↔ FieldsMatch segments fields
fields_match ty segments fields =
    let (split, join) =
      append-eq-nil
        (report (λ name. any (λ (field : Field). same_text field.name name) fields)
          (capture_without_field ty) (captures_from segments []))
        (report (λ (field : Field). has_name field.name (captures_from segments []))
          (λ (field : Field). field_without_capture ty field.name) fields) in
    let (to, from) =
      report-eq-nil (λ name. any (λ (field : Field). same_text field.name name) fields)
        (capture_without_field ty) (captures_from segments []) in
    let (to', from') =
      report-eq-nil (λ (field : Field). has_name field.name (captures_from segments []))
        (λ (field : Field). field_without_capture ty field.name) fields in
    (
      λ e. (
        IsAnswered-intro fields segments (λ name c. (any-IsField fields name).0 (
            All-has_name _ (captures_from segments []) name (to (split e).0)
              ((has_name-Captures segments name).1 c))),
        All-map (λ field h. (has_name-Captures segments field.name).0 h) fields (to' (split e).1),
      ),
      λ h. join (
        from (
            All-intro _ (captures_from segments []) (λ name e.
              (any-IsField fields name).1 (
                Captures-IsField fields segments name h.0
                  ((has_name-Captures segments name).0 e)))),
        from' (All-map (λ field c. (has_name-Captures segments field.name).1 c) fields h.1),
      ),
    )

module _ (segments_of : Text → List Segment) where
  -- What `check_fields` asks of a page with this address, or none.
  abbrev pub Agrees : Option Text → Leaf → Type 0
  Agrees none leaf = (leaf.restorable ≡ false) ⊎ AllKept leaf.fields
  Agrees (some link) leaf = AllKept leaf.fields × FieldsMatch (segments_of link) leaf.fields

  kept :
      (leaf : Leaf) (tier : Text)
      → (loose_errors leaf.ty leaf.fields (some tier) ≡ []) ↔ AllKept leaf.fields
  kept leaf tier =
      report-eq-nil (λ (field : Field). field.identity)
        (λ (field : Field). loose_field_on_outward_route leaf.ty field.name tier) leaf.fields

  field_errors-eq-nil :
      (leaf : Leaf) (o : Option Text)
      → leaf.link ≡ o
      → (field_errors segments_of leaf ≡ []) ↔ Agrees o leaf
  unfolding field_errors
  field_errors-eq-nil leaf none e =
      let (to, from) = kept leaf (codes "restorable") in
      rw e (elim (Bool-cases leaf.restorable) [
        | inl outward ↦
            rw (outward, append-nil)
              (
                λ none_reported. inr (to none_reported),
                λ h. elim h [ inl inward ↦ cc | inr all_kept ↦ from all_kept ],
              )
        | inr inward ↦ rw inward (λ h. inl refl, λ h. refl)
      ])
  field_errors-eq-nil leaf (some link) e =
      let (to, from) = kept leaf (codes "link") in
      let (split, join) =
        append-eq-nil (loose_errors leaf.ty leaf.fields (some (codes "link"))) _ in
      let (to', from') = fields_match leaf.ty (segments_of link) leaf.fields in
      rw e (λ h. (to (split h).0, to' (split h).1), λ h. join (from h.0, from' h.1))

  -- `check_fields` reports nothing exactly when each page with an address captures the very names
  -- of its fields and compares them all, and each restorable page compares all its fields.
  pub check_fields-eq-nil_iff :
      (leaves : List Leaf)
      → (check_fields segments_of leaves ≡ []) ↔ All (λ leaf. Agrees leaf.link leaf) leaves
  unfolding check_fields
  check_fields-eq-nil_iff [] = (λ e. tt, λ h. refl)
  check_fields-eq-nil_iff (leaf ∷ rest) =
      let (split, join) =
        append-eq-nil (field_errors segments_of leaf) (check_fields segments_of rest) in
      let (to, from) = field_errors-eq-nil leaf leaf.link refl in
      let (to', from') = check_fields-eq-nil_iff rest in
      (λ e. (to (split e).0, to' (split e).1), λ h. join (from h.0, from' h.1))

part_for-captured :
    (segments : List Segment) (parts : List Text) (name : Text)
    → matches segments parts ≡ true
    → Captures segments name
    → part_for name (captured segments parts) ≢ none
unfolding matches captured part_for
part_for-captured [] parts name m c = elim c [ ]
part_for-captured (literal text ∷ rest) [] name m c = cc
part_for-captured (capture other ∷ rest) [] name m c = cc
part_for-captured (literal text ∷ rest) (part ∷ parts) name m (here e) = cc
part_for-captured (literal text ∷ rest) (part ∷ parts) name m (there c) =
    part_for-captured rest parts name (ground arith) c
part_for-captured (capture other ∷ rest) (part ∷ parts) name m (here e) =
    rw (capture-injective e, same_text_refl name) (λ h. cc)
part_for-captured (capture other ∷ rest) (part ∷ parts) name m (there c) =
    ground (arith, part_for-captured rest parts name m c)

module _ (segments_of : Text → List Segment) where
  -- Once `check_fields` has passed, a path that matches a page's pattern has a part for every field
  -- of the page: the generator has a binding for each, and does not panic.
  pub check_fields-bound :
      (leaves : List Leaf) (leaf : Leaf) (link : Text) (parts : List Text)
      → check_fields segments_of leaves ≡ []
      → Any (λ l. l ≡ leaf) leaves
      → leaf.link ≡ some link
      → matches (segments_of link) parts ≡ true
      → All
          (λ (field : Field). part_for field.name (captured (segments_of link) parts) ≢ none)
          leaf.fields
  check_fields-bound leaves leaf link parts checked listed linked m =
      let agrees = (check_fields-eq-nil_iff segments_of leaves).0 checked in
      All-map (λ field c. part_for-captured (segments_of link) parts field.name m c) leaf.fields
        (rw linked at (listed-All (λ (l : Leaf). Agrees segments_of l.link l) listed agrees)).1.1
