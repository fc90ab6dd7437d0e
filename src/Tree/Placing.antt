-- ===== src/Tree/Placing.antt =====
-- `check_layouts` and `place_layouts` of crates/guinea-route-dsl/src/lib.rs: a layout stands under
-- the same layouts wherever it is placed. An error is the layout with the two paths.
use guinea.Base.{
  listed-All, ◌≡◌, refl, sym, Bool, true, false, ◌&&◌, Option, none, some, List, [], ◌∷◌, ◌++◌,
  same_text_iff, same_text_refl, if◌then◌else◌, subst, append-nil, append_assoc, All, All-append,
  Any, ◌⊎◌, inl, arith,
}
use guinea.Tree.{TypeName, same_type, Node, Nodes, layout, page, end, more}

abbrev pub Placement : Type 0
Placement = TypeName × List TypeName

mutual
  place_node : Node → List TypeName → List Placement
  place_node (layout ty guards restorable keep children) above =
      (ty, above) ∷ place_layouts children (above ++ ty ∷ [])
  place_node (page ty link guards restorable keep fields) above = []

  place_layouts : Nodes → List TypeName → List Placement
  place_layouts end above = []
  place_layouts (more node rest) above = place_node node above ++ place_layouts rest above

-- `placed[..at].iter().find(..)`
first_placed : TypeName → List Placement → Option (List TypeName)
first_placed ty [] = none
first_placed ty ((earlier, above) ∷ rest) =
    if same_type earlier ty then some above else first_placed ty rest

-- The lengths and the types compared, as `check_layouts` does.
same_above : List TypeName → List TypeName → Bool
same_above [] [] = true
same_above (a ∷ before) (b ∷ above) = same_type a b && same_above before above
same_above _ _ = false

pub record LayoutError : Type 0 where
  pub ty : TypeName
  pub before : List TypeName
  pub above : List TypeName

abbrev placing_error : Placement → Option (List TypeName) → List LayoutError
placing_error (ty, above) none = []
placing_error (ty, above) (some before) =
    if same_above before above then [] else record { ty = ty; before = before; above = above } ∷ []

-- The loop of `check_layouts`; `earlier` is `placed[..at]`.
placing_errors : List Placement → List Placement → List LayoutError
placing_errors earlier [] = []
placing_errors earlier ((ty, above) ∷ rest) =
    placing_error (ty, above) (first_placed ty earlier)
    ++ placing_errors (earlier ++ (ty, above) ∷ []) rest

unfoldable pub placements : Nodes → List Placement
unfolding place_layouts
placements nodes = place_layouts nodes []

unfoldable pub check_layouts : Nodes → List LayoutError
unfolding placements first_placed same_above placing_errors
check_layouts nodes = placing_errors [] (placements nodes)

append-eq-nil {ℓ} : {A : Type ℓ} (xs ys : List A) → xs ++ ys ≡ [] → (xs ≡ []) × (ys ≡ [])
append-eq-nil [] ys e = (refl, e)
append-eq-nil (x ∷ xs) ys e = cc

same_above-eq : (before above : List TypeName) → same_above before above ≡ true → before ≡ above
unfolding same_above
same_above-eq [] [] e = refl
same_above-eq [] (b ∷ above) e = cc
same_above-eq (a ∷ before) [] e = cc
same_above-eq (a ∷ before) (b ∷ above) e =
    ground (arith, same_text_iff a b, same_above-eq before above)

placing_error-none :
    (ty : TypeName) (above : List TypeName) (first : Option (List TypeName))
    → placing_error (ty, above) first ≡ []
    → (first ≡ none) ⊎ (first ≡ some above)
placing_error-none ty above none e = inl refl
placing_error-none ty above (some before) e = ground (arith, same_above-eq before above)

first_placed-append :
    (t ty : TypeName) (above : List TypeName) (earlier : List Placement)
    → first_placed t (earlier ++ (ty, above) ∷ []) ≡ elim (first_placed t earlier) [
      | some before ↦ some before
      | none ↦ if same_type ty t then some above else none
    ]
unfolding first_placed
first_placed-append t ty above [] = refl
first_placed-append t ty above ((u, before) ∷ earlier) =
    ground (arith, first_placed-append t ty above earlier)

-- Every placement is the first one of its layout, as far as the path goes.
abbrev Decides : List Placement → Placement → Type 0
Decides all (ty, above) = first_placed ty all ≡ some above

Decides-append :
    (earlier checked : List Placement) (ty : TypeName) (above : List TypeName)
    → All (Decides earlier) checked
    → All (Decides (earlier ++ (ty, above) ∷ [])) checked
Decides-append earlier [] ty above h = tt
Decides-append earlier ((t, before) ∷ checked) ty above h = (
  ground (arith, first_placed-append t ty above earlier, h.0),
  Decides-append earlier checked ty above h.1,
)

Decides-last :
    (earlier : List Placement) (ty : TypeName) (above : List TypeName)
    → (first_placed ty earlier ≡ none) ⊎ (first_placed ty earlier ≡ some above)
    → Decides (earlier ++ (ty, above) ∷ []) (ty, above)
Decides-last earlier ty above h =
    ground (arith, first_placed-append ty ty above earlier, same_text_refl ty)

placing_errors-Decides :
    (earlier rest : List Placement)
    → All (Decides earlier) earlier
    → placing_errors earlier rest ≡ []
    → All (Decides (earlier ++ rest)) (earlier ++ rest)
unfolding placing_errors
placing_errors-Decides earlier [] h e =
    subst (λ all. All (Decides all) all) (sym (append-nil earlier)) h
placing_errors-Decides earlier ((ty, above) ∷ rest) h e =
    let found = placing_error (ty, above) (first_placed ty earlier) in
    let (nothing, later) =
      append-eq-nil found (placing_errors (earlier ++ (ty, above) ∷ []) rest) e in
    let decided = Decides-last earlier ty above (placing_error-none ty above _ nothing) in
    subst (λ all. All (Decides all) all) (append_assoc earlier ((ty, above) ∷ []) rest)
      (placing_errors-Decides (earlier ++ (ty, above) ∷ []) rest
        (All-append _ earlier _ (Decides-append earlier earlier ty above h) (decided, tt)) later)

-- Where `check_layouts` reports nothing, a layout that is placed twice has the same layouts above
-- it in both places.
pub check_layouts-agree :
    (nodes : Nodes) (ty : TypeName) (before above : List TypeName)
    → check_layouts nodes ≡ []
    → Any (λ p. p ≡ (ty, before)) (placements nodes)
    → Any (λ p. p ≡ (ty, above)) (placements nodes)
    → before ≡ above
unfolding check_layouts
check_layouts-agree nodes ty before above e a b =
    let all = placing_errors-Decides [] (placements nodes) tt e in
    cc
      (listed-All (Decides (placements nodes)) a all, listed-All (Decides (placements nodes)) b all)
