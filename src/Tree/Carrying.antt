-- ===== src/Tree/Carrying.antt =====
-- What `flatten` and `layout_params` of crates/guinea-route-dsl/src/lib.rs carry to a page and to a
-- layout: the `keep` chain, the cascade of `restorable`, and the fields a layout can rely on.
use mathlib.Core.Bool.{false≢true}
use guinea.Base.{
  ◌+◌, ◌≡◌, refl, ◌∙◌, sym, ap, Bool, true, false, List, [], ◌∷◌, ◌++◌, length, length-append, any,
  all, retain, All, All-append, same_text_refl, Bool-cases, inl, inr, Any, here, there, ◌↔◌, map,
  arith,
}
use guinea.Tree.{
  TypeName, Guards, Field, Node, Nodes, layout, page, end, more, Leaf, fold_into, flatten_node,
  flatten, leaves, is_same_field, carries, leaves_under, common_fields, layouts, LayoutParams,
  layout_params,
}

-- One flag for each segment of the chain: the ancestors, then the page.
abbrev pub HasKeepChain : Leaf → Type 0
HasKeepChain leaf = length leaf.keep ≡ length leaf.ancestors + 1

mutual
  unfolding flatten

  keep_chain_node :
      (n : Node) (above : List TypeName) (keeping : List Bool) (standing : List TypeName)
      (kept : Bool)
      → length keeping ≡ length above
      → All HasKeepChain (flatten_node n above keeping standing kept)
  keep_chain_node (layout ty guards restorable keep children) above keeping standing kept h =
      keep_chain children _ _ _ _ (
        length-append keeping (keep ∷ [])
        ∙ (ap (λ n. n + 1) h ∙ sym (length-append above (ty ∷ []))))
  keep_chain_node (page ty link guards restorable keep fields) above keeping standing kept h =
      (length-append keeping (keep ∷ []) ∙ ap (λ n. n + 1) h, tt)

  keep_chain :
      (ns : Nodes) (above : List TypeName) (keeping : List Bool) (standing : List TypeName)
      (kept : Bool)
      → length keeping ≡ length above
      → All HasKeepChain (flatten ns above keeping standing kept)
  keep_chain end above keeping standing kept h = tt
  keep_chain (more n rest) above keeping standing kept h =
      All-append HasKeepChain (flatten_node n above keeping standing kept) _
        (keep_chain_node n above keeping standing kept h)
        (keep_chain rest above keeping standing kept h)

-- Every leaf has one `keep` flag for each segment of its chain.
pub leaves-HasKeepChain : (nodes : Nodes) → All HasKeepChain (leaves nodes)
unfolding leaves
leaves-HasKeepChain nodes = keep_chain nodes [] [] [] false refl

mutual
  unfolding flatten

  restorable_node :
      (n : Node) (above : List TypeName) (keeping : List Bool) (standing : List TypeName)
      → All (λ leaf. leaf.restorable ≡ true) (flatten_node n above keeping standing true)
  restorable_node (layout ty guards restorable keep children) above keeping standing =
      restorable_below children (above ++ ty ∷ []) (keeping ++ keep ∷ [])
        (fold_into guards standing)
  restorable_node (page ty link guards restorable keep fields) above keeping standing = (refl, tt)

  restorable_below :
      (ns : Nodes) (above : List TypeName) (keeping : List Bool) (standing : List TypeName)
      → All (λ leaf. leaf.restorable ≡ true) (flatten ns above keeping standing true)
  restorable_below end above keeping standing = tt
  restorable_below (more n rest) above keeping standing =
      All-append _ (flatten_node n above keeping standing true) _
        (restorable_node n above keeping standing) (restorable_below rest above keeping standing)

-- Under a layout that is restorable every page is, and nothing below can opt out.
pub layout-restorable :
    (ty : TypeName) (guards : Guards) (keep : Bool) (children : Nodes)
    → All (λ leaf. leaf.restorable ≡ true) (leaves (more (layout ty guards true keep children) end))
unfolding leaves flatten
layout-restorable ty guards keep children = All-append _ _ [] (restorable_below children _ _ _) tt

-- A field that every one of some leaves carries: same name, same type, and compared.
abbrev pub IsCarried : List Leaf → Field → Type 0
IsCarried under field = All (λ leaf. carries field leaf ≡ true) under

all-All {ℓ} : {A : Type ℓ} (p : A → Bool) (xs : List A) → all p xs ≡ true → All (λ x. p x ≡ true) xs
all-All p [] e = tt
all-All p (x ∷ xs) e = (ground arith, all-All p xs (ground arith))

All-all {ℓ} : {A : Type ℓ} (p : A → Bool) (xs : List A) → All (λ x. p x ≡ true) xs → all p xs ≡ true
All-all p [] h = refl
All-all p (x ∷ xs) h = ground (arith, h.0, All-all p xs h.1)

retain-All {ℓ} : {A : Type ℓ} (p : A → Bool) (xs : List A) → All (λ x. p x ≡ true) (retain p xs)
retain-All p [] = tt
retain-All p (x ∷ xs) = elim (Bool-cases (p x)) [
  | inl e ↦ rw e (e, retain-All p xs)
  | inr e ↦ rw e (retain-All p xs)
]

-- A field of a page is the same field as itself, if it is compared.
carries_self :
    (f : Field) (fields : List Field)
    → f.identity ≡ true
    → Any (λ g. g ≡ f) fields
    → any (is_same_field f) fields ≡ true
carries_self f (g ∷ fields) i (here e) =
    rw e (ground (arith, i, same_text_refl f.name, same_text_refl f.ty))
carries_self f (g ∷ fields) i (there a) = ground (arith, carries_self f fields i a)
carries_self f [] i a = elim a [ ]

module _ {ℓ} {A : Type ℓ} where
  listed-retain :
      (p : A → Bool) {x : A} (xs : List A)
      → Any (λ y. y ≡ x) (retain p xs) ↔ (Any (λ y. y ≡ x) xs × (p x ≡ true))
  listed-retain p [] = (λ a. elim a [ ], λ h. elim (h.0) [ ])
  listed-retain p {x} (y ∷ xs) = elim (Bool-cases (p y)) [
    | inl kept ↦ rw kept (stays kept (listed-retain p xs))
    | inr dropped ↦ rw dropped (goes dropped (listed-retain p xs))
  ]
    where
      stays :
          p y ≡ true
          → Any (λ z. z ≡ x) (retain p xs) ↔ (Any (λ z. z ≡ x) xs × (p x ≡ true))
          → Any (λ z. z ≡ x) (y ∷ retain p xs) ↔ (Any (λ z. z ≡ x) (y ∷ xs) × (p x ≡ true))
      stays kept ih = (to, from)
        where
          to : Any (λ z. z ≡ x) (y ∷ retain p xs) → Any (λ z. z ≡ x) (y ∷ xs) × (p x ≡ true)
          to (here e) = (here e, rw (← e) kept)
          to (there a) = (there (ih.0 a).0, (ih.0 a).1)

          from : Any (λ z. z ≡ x) (y ∷ xs) × (p x ≡ true) → Any (λ z. z ≡ x) (y ∷ retain p xs)
          from (here e, h) = here e
          from (there a, h) = there (ih.1 (a, h))

      goes :
          p y ≡ false
          → Any (λ z. z ≡ x) (retain p xs) ↔ (Any (λ z. z ≡ x) xs × (p x ≡ true))
          → Any (λ z. z ≡ x) (retain p xs) ↔ (Any (λ z. z ≡ x) (y ∷ xs) × (p x ≡ true))
      goes dropped ih = (λ a. (there (ih.0 a).0, (ih.0 a).1), from)
        where
          from : Any (λ z. z ≡ x) (y ∷ xs) × (p x ≡ true) → Any (λ z. z ≡ x) (retain p xs)
          from (here e, h) = absurd (false≢true (sym dropped ∙ (ap p e ∙ h)))
          from (there a, h) = ih.1 (a, h)

  All-listed {κ} : (P : A → Type κ) (xs : List A) → ((x : A) → Any (λ y. y ≡ x) xs → P x) → All P xs
  All-listed P [] h = tt
  All-listed P (x ∷ xs) h = (h x (here refl), All-listed P xs (λ y a. h y (there a)))

-- The fields of a layout are exactly the compared fields of its first page that every other page
-- carries too.
pub common_fields_iff :
    (first : Leaf) (rest : List Leaf) (f : Field)
    → Any (λ g. g ≡ f) (common_fields (first ∷ rest))
      ↔ (Any (λ g. g ≡ f) first.fields × (f.identity ≡ true) × IsCarried rest f)
unfolding common_fields
common_fields_iff first rest f =
    let (out, into) =
      listed-retain (λ field. all (carries field) rest)
        (retain (λ field. field.identity) first.fields) in
    let (out', into') = listed-retain (λ field. field.identity) first.fields in
    (
      λ a.
          let (compared, everywhere) = out a in
          ((out' compared).0, (out' compared).1, all-All (carries f) rest everywhere),
      λ h. into (into' (h.0, h.1), All-all (carries f) rest h.2),
    )

common_fields-IsCarried : (under : List Leaf) → All (IsCarried under) (common_fields under)
unfolding common_fields
common_fields-IsCarried [] = tt
common_fields-IsCarried (first ∷ rest) =
    All-listed (IsCarried (first ∷ rest)) (common_fields (first ∷ rest)) λ f a.
      let (own, compared, others) = (common_fields_iff first rest f).0 a in
      (carries_self f first.fields compared own, others)

-- What `layout_params` hands a layout, every page below the layout carries.
pub layout_params-IsCarried :
    (nodes : Nodes)
    → All (λ p. All (IsCarried (leaves_under p.ty (leaves nodes))) p.fields) (layout_params nodes)
unfolding layout_params
layout_params-IsCarried nodes = per_layout (layouts nodes)
  where
    per_layout :
        (tys : List TypeName)
        → All
            (λ (p : LayoutParams). All (IsCarried (leaves_under p.ty (leaves nodes))) p.fields)
            (map
              (λ ty. record { ty = ty; fields = common_fields (leaves_under ty (leaves nodes)) })
              tys)
    per_layout [] = tt
    per_layout (ty ∷ tys) =
        (common_fields-IsCarried (leaves_under ty (leaves nodes)), per_layout tys)
