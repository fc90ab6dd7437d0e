-- ===== src/Matcher/Building.antt =====
-- When `build` of crates/guinea-route-dsl/src/matcher.rs returns a tree.
use guinea.Base.{
  ◌≡◌, ◌≢◌, refl, ◌↔◌, Option, none, some, List, [], ◌∷◌, ◌++◌, Text, same_text, same_text_iff,
  if◌then◌else◌, All, arith,
}
use guinea.Tree.{TypeName, Segment, Leaf}
use guinea.Matcher.{
  empty, shape_of, claimed_by, tree, MatchNode, Folding, fold_linked, fold_link, fold_leaves,
  finish_build, build,
}

pub claimed_by-append :
    (shape other : Text) (ty : TypeName) (claimed : List (Text × TypeName))
    → claimed_by shape (claimed ++ (other, ty) ∷ []) ≡ elim (claimed_by shape claimed) [
      | some first ↦ some first
      | none ↦ if same_text other shape then some ty else none
    ]
unfolding claimed_by
claimed_by-append shape other ty [] = refl
claimed_by-append shape other ty ((seen, first) ∷ claimed) =
    ground (arith, claimed_by-append shape other ty claimed)

-- No text twice.
abbrev pub IsDistinct : List Text → Type 0
IsDistinct [] = Unit
IsDistinct (t ∷ rest) = All (λ s. s ≢ t) rest × IsDistinct rest

pub append-ne-nil {ℓ} : {A : Type ℓ} (xs : List A) (x : A) → xs ++ x ∷ [] ≢ []
append-ne-nil [] x = cc
append-ne-nil (y ∷ xs) x = cc

module _ (segments_of : Text → List Segment) where
  -- The shapes of the addressable leaves, in order.
  abbrev pub shapes_cons : Option Text → List Text → List Text
  shapes_cons none shapes = shapes
  shapes_cons (some link) shapes = shape_of (segments_of link) ∷ shapes

  abbrev pub shapes : List Leaf → List Text
  shapes [] = []
  shapes (leaf ∷ rest) = shapes_cons leaf.link (shapes rest)

  -- The loop reports nothing exactly when it starts from nothing reported and meets only shapes
  -- that are new.
  abbrev pub IsNew : List (Text × TypeName) → Text → Type 0
  IsNew claimed shape = claimed_by shape claimed ≡ none

  abbrev pub IsClean : List (Text × TypeName) → List Text → Type 0
  IsClean claimed shapes = All (IsNew claimed) shapes × IsDistinct shapes

  pub All-IsNew :
      (shape : Text) (ty : TypeName) (claimed : List (Text × TypeName)) (shapes : List Text)
      → claimed_by shape claimed ≡ none
      → All (IsNew (claimed ++ (shape, ty) ∷ [])) shapes
        ↔ (All (IsNew claimed) shapes × All (λ t. t ≢ shape) shapes)
  All-IsNew shape ty claimed [] new = (λ h. (tt, tt), λ h. tt)
  All-IsNew shape ty claimed (t ∷ shapes) new = ground (
    arith,
    All-IsNew shape ty claimed shapes new,
    claimed_by-append t shape ty claimed,
    same_text_iff shape t,
  )

  -- What is to be proved of a loop over leaves of some shapes, from a state.
  abbrev pub ReportsNothing : List Leaf → Folding → Folding → List Text → Type 0
  ReportsNothing rest after st names =
      ((fold_leaves segments_of rest after).found ≡ [])
      ↔ ((st.found ≡ []) × IsClean st.claimed names)

  pub linked_found :
      (leaf : Leaf) (segments : List Segment) (rest : List Leaf) (names : List Text) (st : Folding)
      (first : Option TypeName)
      → claimed_by (shape_of segments) st.claimed ≡ first
      → ((after : Folding) → ReportsNothing rest after after names)
      → ReportsNothing rest (fold_linked leaf segments first st) st (shape_of segments ∷ names)
  linked_found leaf segments rest names st (some earlier) e ih =
      (λ f. absurd (append-ne-nil st.found _ ((ih _).0 f).0), λ h. cc (e, h.1.0.0))
  linked_found leaf segments rest names st none e ih =
      let (to, from) = All-IsNew (shape_of segments) leaf.ty st.claimed names e in
      (
        λ f.
            let clean = (ih _).0 f in
            let (fresh, others) = to clean.1.0 in (clean.0, ((e, fresh), (others, clean.1.1))),
        λ h. (ih _).1 (h.0, (from (h.1.0.1, h.1.1.0), h.1.1.1)),
      )

  pub link_found :
      (leaf : Leaf) (link : Option Text) (rest : List Leaf) (names : List Text) (st : Folding)
      → ((after : Folding) → ReportsNothing rest after after names)
      → ReportsNothing rest (fold_link segments_of leaf link st) st (shapes_cons link names)
  unfolding fold_link
  link_found leaf none rest names st ih = ih st
  link_found leaf (some link) rest names st ih =
      linked_found leaf (segments_of link) rest names st _ refl ih

  pub fold_leaves-found :
      (leaves : List Leaf) (st : Folding) → ReportsNothing leaves st st (shapes leaves)
  unfolding fold_leaves
  fold_leaves-found [] st = (λ e. (e, (tt, tt)), λ h. h.0)
  fold_leaves-found (leaf ∷ rest) st =
      link_found leaf leaf.link rest (shapes rest) st (fold_leaves-found rest)

  pub All-IsNew_start : (names : List Text) → All (IsNew []) names
  unfolding claimed_by
  All-IsNew_start [] = tt
  All-IsNew_start (t ∷ names) = (refl, All-IsNew_start names)

  abbrev pub start : Folding
  start = record { root = empty; found = []; claimed = [] }

  pub finish_build-tree : (st : Folding) → st.found ≡ [] → finish_build st ≡ tree st.root
  finish_build-tree st e = rw (e, finish_build)

  pub tree-nothing :
      (st : Folding) {root : MatchNode}
      → finish_build st ≡ tree root
      → (st.found ≡ []) × (st.root ≡ root)
  tree-nothing st e = ground arith

  -- The declared leaves make a tree exactly when no two addressable ones have one shape.
  pub build-tree_iff :
      (leaves : List Leaf)
      → ((root : MatchNode) × (build segments_of leaves ≡ tree root)) ↔ IsDistinct (shapes leaves)
  unfolding build
  build-tree_iff leaves = (
    λ t.
        ((fold_leaves-found leaves start).0
          (tree-nothing (fold_leaves segments_of leaves start) t.1).0).1.1,
    λ d. (
      _,
      finish_build-tree (fold_leaves segments_of leaves start)
          ((fold_leaves-found leaves start).1 (refl, (All-IsNew_start (shapes leaves), d))),
    ),
  )
